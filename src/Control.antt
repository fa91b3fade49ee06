-- ===== src/Control.antt =====
-- The control operations of server/src/control.rs: the table of watched directories and `hello`. The
-- notify crate's watcher, `fs::canonicalize` and the constants of the build are arguments; `registered`
-- stands for the directories that the watcher watches. The table is a list of entries with the newest
-- key last; HashMap's order of iteration is not fixed, so this is one of its orders.
pub mod Table
pub mod Aliases
pub mod RoundTrip
pub mod Failures
pub mod Requests
use emacs_relay.Common.{
  ℕ, ◌<>◌, String, Bool, true, false, not, ◌||◌, Option, none, some, List, [], ◌∷◌, ◌++◌, ℤ, pos,
  str_eq, if◌then◌else◌,
}
use emacs_relay.Fs.{Result, ok, err}
use emacs_relay.Json.{Json}
use emacs_relay.Json.Object.{object, field}
use emacs_relay.Revision.Wire.{and_then}
use emacs_relay.Framing.{Channel, expand_home, finish}

-- A canonical directory, and the paths by which clients asked for it.
abbrev pub Table : Type 0
Table = List (String × List String)

pub record Control : Type 0 where
  pub watched : Table
  pub registered : List String

-- What surrounds the server. A watcher answers with an error's text, or with nothing.
pub record Host : Type 0 where
  pub home : Option String
  pub canonicalize : String → Option String
  pub watcher : Option (String → Option String)
  pub version : String
  pub os : String
  pub arch : String

abbrev pub unwrap_or : String → Option String → String
unwrap_or default none = default
unwrap_or default (some s) = s

abbrev pub contains_key : String → Table → Bool
contains_key key [] = false
contains_key key ((k, aliases) ∷ rest) = str_eq k key || contains_key key rest

abbrev pub contains : String → List String → Bool
contains path [] = false
contains path (a ∷ as') = str_eq a path || contains path as'

-- `if !aliases.iter().any(|a| a == path) { aliases.push(…) }`
abbrev pub push_new : String → List String → List String
push_new path aliases = if contains path aliases then aliases else aliases ++ (path ∷ [])

-- `map.entry(canon).or_default()` and the push
abbrev pub add_alias : String → String → Table → Table
add_alias canon path [] = (canon, push_new path []) ∷ []
add_alias canon path ((k, aliases) ∷ rest) =
    let more = add_alias canon path rest in
    if str_eq k canon then (k, push_new path aliases) ∷ rest else (k, aliases) ∷ more

-- `map.remove(&canon)`
abbrev pub remove_key : String → Table → Table
remove_key canon [] = []
remove_key canon ((k, aliases) ∷ rest) =
    let kept = remove_key canon rest in if str_eq k canon then kept else (k, aliases) ∷ kept

abbrev pub remove_path : String → List String → List String
remove_path path [] = []
remove_path path (p ∷ ps) =
    let kept = remove_path path ps in if str_eq p path then kept else p ∷ kept

-- `aliases.remove(pos)` at the first position of the path
abbrev pub remove_first : String → List String → List String
remove_first path [] = []
remove_first path (a ∷ as') =
    let rest = remove_first path as' in if str_eq a path then as' else a ∷ rest

abbrev pub emptied : String → List String → Option String
emptied canon [] = some canon
emptied canon (a ∷ as') = none

-- The loop of "unwatch" over the entries, up to the first that has the path.
abbrev pub drop_alias : String → Table → Table × Option String
drop_alias path [] = ([], none)
drop_alias path ((k, aliases) ∷ rest) =
    let more = drop_alias path rest in
    let left = remove_first path aliases in
    if contains path aliases
    then ((k, left) ∷ rest, emptied k left)
    else ((k, aliases) ∷ more.0, more.1)

abbrev pub watched_or :
    String → Table → Control → Option String → Result String (Unit {0}) × Control
watched_or canon map s none =
    (ok tt, record { watched = map; registered = s.registered ++ (canon ∷ []) })
watched_or canon map s (some e) =
    (err ("watch: " <> e), record { watched = remove_key canon map; registered = s.registered })

abbrev pub register :
    Option (String → Option String) → String → Table → Control → Result String (Unit {0}) × Control
register none canon map s = (err "no watcher available", record s { watched = map })
register (some watch) canon map s = watched_or canon map s (watch canon)

unfoldable pub watch : Host → String → Control → Result String (Unit {0}) × Control
unfolding expand_home
watch host path s =
    let full = expand_home host.home path in
    let canon = unwrap_or full (host.canonicalize full) in
    let map = add_alias canon path s.watched in
    if contains_key canon s.watched
    then (ok tt, record s { watched = map })
    else register host.watcher canon map s

abbrev pub unregister : Option (String → Option String) → String → List String → List String
unregister none canon registered = registered
unregister (some watch) canon registered = remove_path canon registered

abbrev pub drop_emptied : Host → Option String → Table → Control → Control
drop_emptied host none map s = record s { watched = map }
drop_emptied host (some canon) map s = record {
  watched = remove_key canon map;
  registered = unregister host.watcher canon s.registered;
}

unfoldable pub unwatch : Host → String → Control → Control
unwatch host path s =
    let dropped = drop_alias path s.watched in drop_emptied host dropped.1 dropped.0 s

module _ (J : Json) (host : Host) where
  abbrev pub i64_or : ℤ → Option ℤ → ℤ
  i64_or default none = default
  i64_or default (some z) = z

  abbrev pub hello : J.Value
  hello = object J (
      ("server_version", J.text host.version)
      ∷ ("protocol_version", J.unsigned 1)
      ∷ (
        "capabilities",
        J.array (
            J.text "revisions-v1"
            ∷ J.text "read-range-v1"
            ∷ J.text "exec-v1"
            ∷ J.text "tail-read-v1"
            ∷ []),
      )
      ∷ ("os", J.text host.os)
      ∷ ("arch", J.text host.arch)
      ∷ [])

  abbrev pub nothing_more : Result String (Unit {0}) → Result String J.Value
  nothing_more (ok _) = ok (object J [])
  nothing_more (err e) = err e

  abbrev pub run_op : String → String → Control → Result String J.Value × Control
  run_op op path s =
      if str_eq op "hello"
      then (ok hello, s)
      else if str_eq op "watch"
      then (nothing_more (watch host path s).0, (watch host path s).1)
      else if str_eq op "unwatch"
      then (ok (object J []), unwatch host path s)
      else (err ("unknown ctl op: " <> op), s)

  -- `req.get(name).and_then(Value::as_str).unwrap_or("")`
  abbrev pub text_of : J.Value → String → String
  text_of req name = unwrap_or "" (and_then (field J req name) J.as_str)

  unfoldable pub handle_ctl : J.Value → Channel J → Control → Channel J × Control
  handle_ctl req tx s =
      let id = i64_or (pos 0) (and_then (field J req "id") J.as_i64) in
      let done = run_op (text_of req "op") (text_of req "path") s in (finish J tx id done.0, done.1)
