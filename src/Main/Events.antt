-- ===== src/Main/Events.antt =====
-- The notify callback of server/src/main.rs: a change below a watched directory is told to the client in
-- the words by which it asked for the directory.
pub mod Reported
use emacs_relay.Common.{
  ℕ, Bool, true, false, Option, none, some, List, [], ◌∷◌, ◌++◌, map, String, str_eq, if◌then◌else◌,
  parent, ◌==◌,
}
use emacs_relay.Common.Paths.{backwards, forwards, trim_back}
use Prim.Native.Char.{Char, code}
use emacs_relay.Json.{Json}
use emacs_relay.Json.Object.{object}
use emacs_relay.Framing.{Channel}
use emacs_relay.Control.{Table, unwrap_or}

-- notify::EventKind, as far as it is told apart.
pub data EventKind : Type 0 where
  created removed modified unspecified : EventKind

abbrev pub kind_name : EventKind → String
kind_name created = "created"
kind_name removed = "removed"
kind_name modified = "modified"
kind_name unspecified = "modified"

-- `map.get(key)`
abbrev pub get : String → Table → Option (List String)
get key [] = none
get key ((k, aliases) ∷ rest) =
    let more = get key rest in if str_eq k key then some aliases else more

-- The characters up to a separator, given and taken last one first.
abbrev pub last_name : List Char → String → String
last_name [] acc = acc
last_name (c ∷ cs) acc =
    let more = last_name cs (String.◌∷◌ c acc) in if code c == b'/' then acc else more

-- `Path::file_name`: none for the root and where the path ends in `..`.
unfoldable pub file_name : String → Option String
file_name path =
    let name = last_name (trim_back (backwards path [])) "" in
    if str_eq name ""
    then none
    else if str_eq name "."
    then none
    else if str_eq name ".."
    then none
    else some name

module _ (J : Json) where
  abbrev pub self_changed : String → J.Value
  self_changed alias = object J (("event", J.text "self_changed") ∷ ("dir", J.text alias) ∷ [])

  abbrev pub child_changed : EventKind → String → String → J.Value
  child_changed kind name dir =
      object J
        (("event", J.text (kind_name kind)) ∷ ("dir", J.text dir) ∷ ("name", J.text name) ∷ [])

  abbrev pub or_itself : String → Option (List String) → List String
  or_itself dir none = dir ∷ []
  or_itself dir (some aliases) = aliases

  -- A path that is watched itself, or one below a directory.
  abbrev pub messages : EventKind → Table → String → Option (List String) → List J.Value
  messages kind t path (some aliases) = map self_changed aliases
  messages kind t path none =
      let dir = unwrap_or "" (parent path) in
      map (child_changed kind (unwrap_or "" (file_name path))) (or_itself dir (get dir t))

  unfoldable pub translate : EventKind → Table → List String → List J.Value
  translate kind t [] = []
  translate kind t (path ∷ paths) = messages kind t path (get path t) ++ translate kind t paths

  abbrev pub overflow : J.Value
  overflow = object J (("event", J.text "overflow") ∷ [])

  -- The callback: an event's kind and paths, or an error of the watcher.
  unfoldable pub on_event : Table → Channel J → Option (EventKind × List String) → Channel J
  on_event t tx none = tx ++ (J.to_bytes overflow ∷ [])
  on_event t tx (some (kind, paths)) = tx ++ map J.to_bytes (translate kind t paths)
