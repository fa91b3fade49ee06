-- ===== src/Exec/Command.antt =====
-- `exec_command_with_registry` of server/src/fs_handlers.rs as a whole.
pub mod Settled
use emacs_relay.Common.{
  ℕ, ◌-◌, max, ◌<>◌, String, Bool, true, false, Option, none, some, List, [], ◌∷◌, ℤ, decimal,
}
use emacs_relay.Fs.{IoError, Result, ok, err}
use emacs_relay.Json.{Json}
use emacs_relay.Json.Object.{object}
use emacs_relay.Control.{Host}
use emacs_relay.Handlers.{Base64}
use emacs_relay.Exec.Arguments.{Arguments, exec_arguments}
use emacs_relay.Exec.Registry.{Call, Execs, register_group, drop_registration}
use emacs_relay.Exec.Readers.{exceeded}
use emacs_relay.Exec.Polling.{Child, Ending, done, timed_out, too_much, wait_failed, wait_for_child}

abbrev pub exec_collect_grace_ms : ℕ
exec_collect_grace_ms = 100

-- `timeout.saturating_sub(start.elapsed()).max(…)`
unfoldable pub remaining : ℕ → ℕ → ℕ
remaining timeout_ms elapsed = max (timeout_ms - elapsed) exec_collect_grace_ms

abbrev pub timed_out_text : ℕ → String
timed_out_text timeout_ms = "exec: timed out after " <> (decimal timeout_ms <> "ms, process killed")

-- A `recv_timeout` that gives nothing has run out of time, or its sender is gone.
abbrev pub received :
    {A : Type 0}
    → ℕ
    → Option (Result String (List ℕ))
    → (List ℕ → Result String A)
    → Result String A
received timeout_ms (some (ok buf)) f = f buf
received timeout_ms (some (err e)) f = err e
received timeout_ms none f = err (timed_out_text timeout_ms)

module _ (J : Json) (host : Host) (B : Base64) where
  abbrev pub code_value : Option ℤ → J.Value
  code_value none = J.null
  code_value (some code) = J.signed code

  abbrev pub exec_value : Option ℤ → List ℕ → List ℕ → J.Value
  exec_value code stdout stderr = object J (
      ("exit_code", code_value code)
      ∷ ("stdout_b64", J.text (B.encode stdout))
      ∷ ("stderr_b64", J.text (B.encode stderr))
      ∷ [])

  unfoldable pub collect_output : Child → ℕ → Option ℤ → Result String J.Value
  collect_output child timeout_ms code =
      received timeout_ms (child.recv_stdout (remaining timeout_ms child.before_stdout)) λ stdout.
        received timeout_ms (child.recv_stderr (remaining timeout_ms child.before_stderr))
          λ stderr. ok (exec_value code stdout stderr)

  -- What follows the loop.
  abbrev pub concluded : Child → ℕ → Ending → Result String J.Value
  concluded child timeout_ms (done code) = collect_output child timeout_ms code
  concluded child timeout_ms timed_out = err (timed_out_text timeout_ms)
  concluded child timeout_ms too_much = err exceeded
  concluded child timeout_ms (wait_failed e) = err ("exec: wait failed: " <> e)

  abbrev pub finished :
      Child → ℕ → Execs → Option (Ending × List Call) → Option (Result String J.Value × Execs)
  finished child timeout_ms s none = none
  finished child timeout_ms s (some (ending, calls)) =
      some (
        concluded child timeout_ms ending,
        drop_registration child.pid (record s { calls = calls }),
      )

  abbrev pub spawned :
      Arguments → Execs → Result IoError Child → Option (Result String J.Value × Execs)
  spawned a s (err e) = some (err ("exec: spawn failed: " <> e.shown), s)
  spawned a s (ok child) =
      finished child a.timeout_ms (register_group child.pid s)
        (wait_for_child child a.timeout_ms (register_group child.pid s).calls)

  abbrev pub accepted :
      (Arguments → Result IoError Child)
      → Execs
      → Result String Arguments
      → Option (Result String J.Value × Execs)
  accepted spawn s (err e) = some (err e, s)
  accepted spawn s (ok a) = spawned a s (spawn a)

  -- `spawn` is `Command::spawn` with what then becomes of the child. None where the loop goes on beyond
  -- its rounds.
  unfoldable pub exec_command :
      (Arguments → Result IoError Child) → J.Value → Execs → Option (Result String J.Value × Execs)
  exec_command spawn req s = accepted spawn s (exec_arguments J host req)
