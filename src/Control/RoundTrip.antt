-- ===== src/Control/RoundTrip.antt =====
-- "watch" and then "unwatch", server/src/control.rs.
use emacs_relay.Common.{
  ◌≡◌, refl, ap, sym, ◌∙◌, String, Bool, false, ◌||◌, Option, none, some, [], ◌∷◌, ◌++◌, eq_refl,
  arith,
}
use emacs_relay.Framing.{expand_home}
use emacs_relay.Control.{
  Table, Control, Host, unwrap_or, contains_key, contains, add_alias, remove_key, remove_path,
  drop_alias, watch, unregister, drop_emptied, unwatch,
}
use emacs_relay.Control.Table.{keys, InStep}

-- Some entry has the path among its aliases.
abbrev pub mentions : String → Table → Bool
mentions path [] = false
mentions path ((k, aliases) ∷ rest) = contains path aliases || mentions path rest

drop_alias-add_alias :
    (canon path : String) (t : Table)
    → contains_key canon t ≡ false
    → mentions path t ≡ false
    → drop_alias path (add_alias canon path t) ≡ (t ++ ((canon, []) ∷ []), some canon)
drop_alias-add_alias canon path [] h k = ground (arith, eq_refl path)
drop_alias-add_alias canon path ((key, aliases) ∷ rest) h k =
    ground (arith, drop_alias-add_alias canon path rest)

remove_key-snoc :
    (canon : String) (t : Table)
    → contains_key canon t ≡ false
    → remove_key canon (t ++ ((canon, []) ∷ [])) ≡ t
remove_key-snoc canon [] h = ground (arith, eq_refl canon)
remove_key-snoc canon ((key, aliases) ∷ rest) h = ground (arith, remove_key-snoc canon rest)

remove_path-snoc :
    (canon : String) (t : Table)
    → contains_key canon t ≡ false
    → remove_path canon (keys t ++ (canon ∷ [])) ≡ keys t
remove_path-snoc canon [] h = ground (arith, eq_refl canon)
remove_path-snoc canon ((key, aliases) ∷ rest) h = ground (arith, remove_path-snoc canon rest)

-- The directory that a path stands for.
abbrev pub canonical : Host → String → String
canonical host path =
    let full = expand_home host.home path in unwrap_or full (host.canonicalize full)

-- If the watcher takes a directory that is not in the table yet, asked for by a path that no entry has, then
-- an "unwatch" of the path right after the "watch" leaves table and watched directories as they were.
pub unwatch-watch :
    (host : Host) (accept : String → Option String) (path : String) (s : Control)
    → host.watcher ≡ some accept
    → accept (canonical host path) ≡ none
    → contains_key (canonical host path) s.watched ≡ false
    → mentions path s.watched ≡ false
    → InStep s
    → unwatch host path (watch host path s).1 ≡ s
unfolding watch unwatch
unwatch-watch host accept path s there takes fresh unused h =
    let canon = canonical host path in
    let t = s.watched in
    let then_watched : Control = record {
      watched = add_alias canon path t;
      registered = s.registered ++ (canon ∷ []);
    } in
    let first : (watch host path s).1 ≡ then_watched = rw (fresh, there, takes) refl in
    let back : unregister host.watcher canon (s.registered ++ (canon ∷ [])) ≡ s.registered =
      ap (λ w. unregister w canon (s.registered ++ (canon ∷ []))) there
      ∙ ap (λ r. remove_path canon (r ++ (canon ∷ []))) h
      ∙ remove_path-snoc canon t fresh
      ∙ sym h in
    ap (unwatch host path) first
    ∙ ap (λ d. drop_emptied host d.1 d.0 then_watched)
        (drop_alias-add_alias canon path t fresh unused)
    ∙ (λ i. record { watched = remove_key-snoc canon t fresh i; registered = back i })
