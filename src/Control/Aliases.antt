-- ===== src/Control/Aliases.antt =====
-- The aliases in the watch table of server/src/control.rs.
use emacs_relay.Common.{
  ◌≡◌, refl, String, Bool, true, false, ◌⊎◌, Option, none, some, List, [], ◌∷◌, ◌++◌, str_eq,
  eq_refl, if◌then◌else◌, inl, inr, All,
}
use emacs_relay.Fs.{Result, ok}
use emacs_relay.Framing.{expand_home}
use emacs_relay.Control.{
  Table, Control, Host, unwrap_or, contains_key, contains, push_new, add_alias, remove_key,
  remove_first, emptied, drop_alias, watched_or, register, watch, drop_emptied, unwatch,
}

abbrev pub IsFilled : List String → Type 0
IsFilled [] = ⊥
IsFilled (a ∷ as') = Unit {0}

-- Every watched directory was asked for by some path.
abbrev pub IsUsed : Table → Type 0
IsUsed t = All (λ entry. IsFilled entry.1) t

IsFilled-snoc : (path : String) (aliases : List String) → IsFilled (aliases ++ (path ∷ []))
IsFilled-snoc path [] = tt
IsFilled-snoc path (a ∷ as') = tt

IsFilled-contains :
    (path : String) (aliases : List String) → contains path aliases ≡ true → IsFilled aliases
IsFilled-contains path [] h = cc
IsFilled-contains path (a ∷ as') h = tt

push_new-IsFilled :
    (path : String) (aliases : List String) (b : Bool)
    → contains path aliases ≡ b
    → IsFilled (if b then aliases else aliases ++ (path ∷ []))
push_new-IsFilled path aliases true h = IsFilled-contains path aliases h
push_new-IsFilled path aliases false h = IsFilled-snoc path aliases

add_alias-IsUsed : (canon path : String) (t : Table) → IsUsed t → IsUsed (add_alias canon path t)
add_alias-IsUsed canon path [] h = (push_new-IsFilled path [] false refl, tt)
add_alias-IsUsed canon path ((k, aliases) ∷ rest) h =
    go (add_alias-IsUsed canon path rest h.1) (str_eq k canon)
  where
    go :
        IsUsed (add_alias canon path rest)
        → (b : Bool)
        → IsUsed (
            if b
            then (k, push_new path aliases) ∷ rest
            else (k, aliases) ∷ add_alias canon path rest)
    go ih true = (push_new-IsFilled path aliases (contains path aliases) refl, h.1)
    go ih false = (h.0, ih)

-- All entries are used but those under one key.
abbrev IsUsedBut : String → Table → Type 0
IsUsedBut canon t = All (λ entry. (str_eq entry.0 canon ≡ true) ⊎ IsFilled entry.1) t

IsUsed-IsUsedBut : (canon : String) (t : Table) → IsUsed t → IsUsedBut canon t
IsUsed-IsUsedBut canon [] h = tt
IsUsed-IsUsedBut canon (entry ∷ rest) h = (inr h.0, IsUsed-IsUsedBut canon rest h.1)

remove_key-IsUsed : (canon : String) (t : Table) → IsUsedBut canon t → IsUsed (remove_key canon t)
remove_key-IsUsed canon [] h = tt
remove_key-IsUsed canon ((k, aliases) ∷ rest) h =
    go (remove_key-IsUsed canon rest h.1) (str_eq k canon) h.0
  where
    go :
        IsUsed (remove_key canon rest)
        → (b : Bool) → (b ≡ true) ⊎ IsFilled aliases
        → IsUsed (if b then remove_key canon rest else (k, aliases) ∷ remove_key canon rest)
    go ih true _ = ih
    go ih false (inl e) = cc
    go ih false (inr filled) = (filled, ih)

-- What the loop of "unwatch" leaves.
abbrev Left : Option String → Table → Type 0
Left none t = IsUsed t
Left (some canon) t = IsUsedBut canon t

Left-cons :
    (key : Option String) (k : String) (aliases : List String) (t : Table)
    → IsFilled aliases
    → Left key t
    → Left key ((k, aliases) ∷ t)
Left-cons none k aliases t f h = (f, h)
Left-cons (some canon) k aliases t f h = (inr f, h)

Left-emptied :
    (k : String) (left : List String) (t : Table) → IsUsed t → Left (emptied k left) ((k, left) ∷ t)
Left-emptied k [] t h = (inl (eq_refl k), IsUsed-IsUsedBut k t h)
Left-emptied k (a ∷ as') t h = (tt, h)

drop_alias-Left :
    (path : String) (t : Table) → IsUsed t → Left (drop_alias path t).1 (drop_alias path t).0
drop_alias-Left path [] h = tt
drop_alias-Left path ((k, aliases) ∷ rest) h =
    go (drop_alias-Left path rest h.1) (contains path aliases)
  where
    go :
        Left (drop_alias path rest).1 (drop_alias path rest).0
        → (b : Bool)
        → let r : Table × Option String =
            if b
            then ((k, remove_first path aliases) ∷ rest, emptied k (remove_first path aliases))
            else ((k, aliases) ∷ (drop_alias path rest).0, (drop_alias path rest).1) in
          Left r.1 r.0
    go ih true = Left-emptied k (remove_first path aliases) rest h.1
    go ih false = Left-cons (drop_alias path rest).1 k aliases (drop_alias path rest).0 h.0 ih

register-IsUsed :
    (watcher : Option (String → Option String)) (canon : String) (t : Table) (s : Control)
    → IsUsed t
    → IsUsed (register watcher canon t s).1.watched
register-IsUsed none canon t s h = h
register-IsUsed (some w) canon t s h = go (w canon)
  where
    go : (answer : Option String) → IsUsed (watched_or canon t s answer).1.watched
    go none = h
    go (some e) = remove_key-IsUsed canon t (IsUsed-IsUsedBut canon t h)

drop_emptied-IsUsed :
    (host : Host) (key : Option String) (t : Table) (s : Control)
    → Left key t
    → IsUsed (drop_emptied host key t s).watched
drop_emptied-IsUsed host none t s h = h
drop_emptied-IsUsed host (some canon) t s h = remove_key-IsUsed canon t h

known-IsUsed :
    (b : Bool) (r : Result String (Unit {0}) × Control) (t : Table) (s : Control)
    → IsUsed t
    → IsUsed r.1.watched
    → IsUsed (if b then (ok tt, record s { watched = t }) else r).1.watched
known-IsUsed true r t s h k = h
known-IsUsed false r t s h k = k

-- "watch" and "unwatch" keep every directory of the table asked for by at least one path, with any watcher
-- and with none.
pub watch-IsUsed :
    (host : Host) (path : String) (s : Control)
    → IsUsed s.watched
    → IsUsed (watch host path s).1.watched × IsUsed (unwatch host path s).watched
unfolding watch unwatch
watch-IsUsed host path s h =
    let full = expand_home host.home path in
    let canon = unwrap_or full (host.canonicalize full) in
    let t = add_alias canon path s.watched in
    let used = add_alias-IsUsed canon path s.watched h in
    (
      known-IsUsed (contains_key canon s.watched) (register host.watcher canon t s) t s used
          (register-IsUsed host.watcher canon t s used),
      drop_emptied-IsUsed host (drop_alias path s.watched).1 (drop_alias path s.watched).0 s
          (drop_alias-Left path s.watched h),
    )
