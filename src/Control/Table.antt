-- ===== src/Control/Table.antt =====
-- The watch table of server/src/control.rs stays in step with the watcher.
use emacs_relay.Common.{
  ◌≡◌, ◌≢◌, refl, ap, sym, ◌∙◌, String, Bool, true, false, Option, none, some, List, [], ◌∷◌, ◌++◌,
  eq_refl, if◌then◌else◌, arith,
}
use emacs_relay.Fs.{ok}
use emacs_relay.Framing.{expand_home}
use emacs_relay.Control.{
  Table, Control, Host, unwrap_or, contains_key, add_alias, remove_key, remove_path, drop_alias,
  watched_or, register, watch, unregister, drop_emptied, unwatch,
}

abbrev pub keys : Table → List String
keys [] = []
keys ((k, aliases) ∷ rest) = k ∷ keys rest

-- Every directory of the table is watched, and nothing else, in the order of the requests.
abbrev pub InStep : Control → Type 0
InStep s = s.registered ≡ keys s.watched

keys-add_alias :
    (canon path : String) (t : Table)
    → keys (add_alias canon path t)
      ≡ (if contains_key canon t then keys t else keys t ++ (canon ∷ []))
keys-add_alias canon path [] = refl
keys-add_alias canon path ((k, aliases) ∷ rest) = ground (arith, keys-add_alias canon path rest)

pub keys-remove_key :
    (canon : String) (t : Table) → keys (remove_key canon t) ≡ remove_path canon (keys t)
keys-remove_key canon [] = refl
keys-remove_key canon ((k, aliases) ∷ rest) = ground (arith, keys-remove_key canon rest)

keys-drop_alias : (path : String) (t : Table) → keys (drop_alias path t).0 ≡ keys t
keys-drop_alias path [] = refl
keys-drop_alias path ((k, aliases) ∷ rest) = ground (arith, keys-drop_alias path rest)

-- A failed registration takes back what it put into the table.
pub remove_key-add_alias :
    (canon path : String) (t : Table)
    → contains_key canon t ≡ false
    → remove_key canon (add_alias canon path t) ≡ t
remove_key-add_alias canon path [] h = ground (arith, eq_refl canon)
remove_key-add_alias canon path ((k, aliases) ∷ rest) h =
    ground (arith, remove_key-add_alias canon path rest)

watched_or-InStep :
    (canon path : String) (s : Control) (answer : Option String)
    → contains_key canon s.watched ≡ false
    → InStep s
    → InStep (watched_or canon (add_alias canon path s.watched) s answer).1
watched_or-InStep canon path s none fresh h =
    ap (λ r. r ++ (canon ∷ [])) h ∙ sym (keys-add_alias canon path s.watched ∙ rw fresh)
watched_or-InStep canon path s (some e) fresh h =
    h ∙ ap keys (sym (remove_key-add_alias canon path s.watched fresh))

register-InStep :
    (watcher : Option (String → Option String)) (canon path : String) (s : Control)
    → watcher ≢ none
    → contains_key canon s.watched ≡ false
    → InStep s
    → InStep (register watcher canon (add_alias canon path s.watched) s).1
register-InStep none canon path s there fresh h = absurd (there refl)
register-InStep (some w) canon path s there fresh h =
    watched_or-InStep canon path s (w canon) fresh h

watch_known :
    (host : Host) (canon path : String) (s : Control) (known : Bool)
    → contains_key canon s.watched ≡ known
    → host.watcher ≢ none
    → InStep s
    → InStep
        (if known
          then (ok tt, record s { watched = add_alias canon path s.watched })
          else register host.watcher canon (add_alias canon path s.watched) s).1
watch_known host canon path s true known there h =
    h ∙ sym (keys-add_alias canon path s.watched ∙ rw known)
watch_known host canon path s false fresh there h =
    register-InStep host.watcher canon path s there fresh h

unregister-keys :
    (host : Host) (key : Option String) (t : Table) (s : Control)
    → host.watcher ≢ none
    → s.registered ≡ keys t
    → InStep (drop_emptied host key t s)
unregister-keys host none t s there h = h
unregister-keys host (some canon) t s there h = go host.watcher there
  where
    go :
        (watcher : Option (String → Option String))
        → watcher ≢ none
        → unregister watcher canon s.registered ≡ keys (remove_key canon t)
    go none there = absurd (there refl)
    go (some w) there = ap (remove_path canon) h ∙ sym (keys-remove_key canon t)

-- Where the server has a watcher, "watch" and "unwatch" keep the table and the watched directories in step,
-- whatever path is asked for and whether the watcher takes the directory or not.
pub watch-InStep :
    (host : Host) (path : String) (s : Control)
    → host.watcher ≢ none
    → InStep s
    → InStep (watch host path s).1 × InStep (unwatch host path s)
unfolding watch unwatch
watch-InStep host path s there h =
    let full = expand_home host.home path in
    let canon = unwrap_or full (host.canonicalize full) in
    (
      watch_known host canon path s (contains_key canon s.watched) refl there h,
      unregister-keys host (drop_alias path s.watched).1 (drop_alias path s.watched).0 s there
          (h ∙ sym (keys-drop_alias path s.watched)),
    )
