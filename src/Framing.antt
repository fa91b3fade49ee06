-- ===== src/Framing.antt =====
-- Frames, home expansion and replies: server/src/framing.rs. The channel to the writer thread is the list
-- of the payloads that were sent into it; whether the other end still listens makes no difference to
-- the sender, who ignores the outcome.
pub mod Replies
use emacs_relay.Common.{
  ℕ, ◌*◌, ◌<>◌, String, Bool, true, false, ◌||◌, Option, none, some, List, [], ◌∷◌, ◌++◌, ℤ, leb,
  str_eq, starts_with, if◌then◌else◌, length, join,
}
use emacs_relay.Fs.{Result, ok, err}
use emacs_relay.Json.{Json}
use emacs_relay.Json.Object.{object, add_fields}
use emacs_relay.Revision.{RevisionError}
use emacs_relay.Revision.Wire.{wire_error}

abbrev pub max_frame_bytes : ℕ
max_frame_bytes = 32 * 1024 * 1024

unfoldable pub frame_size_allowed : ℕ → Bool
frame_size_allowed size = leb size max_frame_bytes

abbrev rest_of : String → String
rest_of String.[] = ""
rest_of (String.◌∷◌ c s) = s

-- With the prefix `~/` there is a rest to push onto the home directory.
abbrev pub expanded : String → String → String
expanded path home = if starts_with path "~/" then join home (rest_of (rest_of path)) else home

-- The first argument is the value of HOME.
unfoldable pub expand_home : Option String → String → String
expand_home none path = path
expand_home (some home) path =
    if str_eq path "~" || starts_with path "~/" then expanded path home else path

module _ (J : Json) where
  -- The payloads in the channel, the newest one last.
  abbrev pub Channel : Type 0
  Channel = List (List ℕ)

  unfoldable pub send : Channel → J.Value → Channel
  send tx v =
      let payload = J.to_bytes v in
      if leb (length payload) max_frame_bytes then tx ++ (payload ∷ []) else tx

  unfoldable pub finish : Channel → ℤ → Result String J.Value → Channel
  finish tx id (ok v) = send tx (add_fields J v (("id", J.signed id) ∷ ("ok", J.boolean true) ∷ []))
  finish tx id (err e) =
      send tx (object J (("id", J.signed id) ∷ ("ok", J.boolean false) ∷ ("error", J.text e) ∷ []))

  unfoldable pub finish_revision : Channel → ℤ → Result RevisionError J.Value → Channel
  finish_revision tx id (ok v) =
      send tx (add_fields J v (("id", J.signed id) ∷ ("ok", J.boolean true) ∷ []))
  finish_revision tx id (err error) =
      send tx (add_fields J (wire_error J error) (("id", J.signed id) ∷ []))
