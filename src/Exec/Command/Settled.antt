-- ===== src/Exec/Command/Settled.antt =====
-- How `exec_command_with_registry` of server/src/fs_handlers.rs leaves the processes and the registry.
use emacs_relay.Common.{ℕ, ◌+◌, ◌/◌, ◌≤◌, ◌≡◌, String, Option, some, ℤ}
use emacs_relay.Fs.{IoError, Result, ok, err}
use emacs_relay.Json.{Json}
use emacs_relay.Control.{Host}
use emacs_relay.Handlers.{Base64}
use emacs_relay.Exec.Arguments.{Arguments, exec_arguments}
use emacs_relay.Exec.Registry.{Execs, kill_and_wait}
use emacs_relay.Exec.Polling.{exited, Child, Ending, done, timed_out, too_much, wait_failed}
use emacs_relay.Exec.Polling.Ends.{Because}
use emacs_relay.Exec.Command.{concluded, collect_output}

-- The child has not exited.
abbrev pub IsStop : Ending → Type 0
IsStop (done code) = ⊥
IsStop timed_out = Unit
IsStop too_much = Unit
IsStop (wait_failed e) = Unit

module _ (J : Json) (host : Host) (B : Base64) where
  -- The answer and the processes afterwards.
  pub data IsSettled (spawn : Arguments → Result IoError Child) (req : J.Value) (s : Execs)
      : Result String J.Value → Execs → Type 0 where
    invalid : (e : String) → exec_arguments J host req ≡ err e → IsSettled spawn req s (err e) s
    unspawned :
        (a : Arguments) (e : IoError) (message : String)
        → exec_arguments J host req ≡ ok a
        → spawn a ≡ err e
        → IsSettled spawn req s (err message) s
    over :
        (a : Arguments) (child : Child) (n : ℕ) (code : Option ℤ)
        → exec_arguments J host req ≡ ok a
        → spawn a ≡ ok child
        → child.try_wait n ≡ exited code
        → n ≤ a.timeout_ms / 20 + 1
        → IsSettled spawn req s (collect_output J host B child a.timeout_ms code) s
    stopped :
        (a : Arguments) (child : Child) (n : ℕ) (ending : Ending) (message : String)
        → exec_arguments J host req ≡ ok a
        → spawn a ≡ ok child
        → n ≤ a.timeout_ms / 20 + 1
        → Because child a.timeout_ms ending n
        → concluded J host B child a.timeout_ms ending ≡ err message
        → IsStop ending
        → IsSettled spawn req s (err message) (record s { calls = kill_and_wait child.pid s.calls })

  module _ (spawn : Arguments → Result IoError Child) (req : J.Value) (s : Execs) where
    abbrev pub Settles : Option (Result String J.Value × Execs) → Type 0
    Settles o =
        (r : Result String J.Value) × (s' : Execs) × (o ≡ some (r, s')) × IsSettled spawn req s r s'
