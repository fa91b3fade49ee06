-- ===== src/Exec/Arguments.antt =====
-- How `exec_command_with_registry` of server/src/fs_handlers.rs reads its request.
pub mod Accepted
use emacs_relay.Common.{ℕ, String, Option, none, some, List, [], ◌∷◌, ltb, if◌then◌else◌}
use emacs_relay.Fs.{Result, ok, err}
use emacs_relay.Json.{Json}
use emacs_relay.Json.Object.{field}
use emacs_relay.Revision.Wire.{◌>>=◌, ok_or, and_then}
use emacs_relay.Framing.{expand_home}
use emacs_relay.Control.{Host}

abbrev pub default_exec_timeout_ms : ℕ
default_exec_timeout_ms = 30000

-- The program with its arguments, and how to run it. Without `cwd` the child inherits the server's.
pub record Arguments : Type 0 where
  pub program : String
  pub args : List String
  pub timeout_ms : ℕ
  pub cwd : Option String

module _ {A : Type 0} where
  abbrev pub and_also : A → Option (List A) → Option (List A)
  and_also a none = none
  and_also a (some rest) = some (a ∷ rest)

  -- `collect::<Option<Vec<_>>>()`
  abbrev pub collect : List (Option A) → Option (List A)
  collect [] = some []
  collect (none ∷ rest) = none
  collect (some a ∷ rest) = and_also a (collect rest)

module _ (J : Json) (host : Host) where
  abbrev pub texts : List J.Value → List (Option String)
  texts [] = []
  texts (v ∷ vs) = J.as_str v ∷ texts vs

  abbrev pub first_of : String → List J.Value → Result String (List J.Value)
  first_of message [] = err message
  first_of message (v ∷ vs) = ok (v ∷ vs)

  abbrev pub positive : Option ℕ → Option ℕ
  positive none = none
  positive (some n) = if ltb 0 n then some n else none

  abbrev pub timeout_of : Option J.Value → Result String ℕ
  timeout_of none = ok default_exec_timeout_ms
  timeout_of (some value) =
      ok_or "exec: \"timeout_ms\" must be a positive integer" (positive (J.as_u64 value))

  abbrev pub expanded_cwd : Result String String → Result String (Option String)
  expanded_cwd (ok cwd) = ok (some (expand_home host.home cwd))
  expanded_cwd (err e) = err e

  abbrev pub cwd_of : Option J.Value → Result String (Option String)
  cwd_of none = ok none
  cwd_of (some value) = expanded_cwd (ok_or "exec: \"cwd\" must be a string" (J.as_str value))

  abbrev pub arguments : List String → ℕ → Option String → Result String Arguments
  arguments [] timeout_ms cwd = err "exec: \"command\" must not be empty"
  arguments (program ∷ args) timeout_ms cwd =
      ok (record { program = program; args = args; timeout_ms = timeout_ms; cwd = cwd })

  unfoldable pub exec_arguments : J.Value → Result String Arguments
  exec_arguments req = do
    command ←
        ok_or "exec: missing or non-array \"command\"" (and_then (field J req "command") J.as_array)
    listed ← first_of "exec: \"command\" must not be empty" command
    argv ← ok_or "exec: \"command\" must be an array of strings" (collect (texts listed))
    timeout_ms ← timeout_of (field J req "timeout_ms")
    cwd ← cwd_of (field J req "cwd")
    arguments argv timeout_ms cwd
