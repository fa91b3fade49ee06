-- ===== src/Exec/Polling/Ends.antt =====
-- The loop over `try_wait` of server/src/fs_handlers.rs comes to an end.
use emacs_relay.Common.{ℕ, ◌≤◌, ◌≡◌, true, Option, some, List}
use emacs_relay.Exec.Registry.{Call, kill_and_wait}
use emacs_relay.Exec.Polling.{
  exited, running, wait_error, Child, Ending, done, timed_out, too_much, wait_failed,
}

module _ (child : Child) (timeout_ms : ℕ) where
  -- Why the loop ended in round `n`.
  abbrev pub Because : Ending → ℕ → Type 0
  Because (done code) n = child.try_wait n ≡ exited code
  Because timed_out n = (child.try_wait n ≡ running) × (timeout_ms ≤ child.elapsed n)
  Because too_much n = (child.try_wait n ≡ running) × (child.overflowed n ≡ true)
  Because (wait_failed e) n = child.try_wait n ≡ wait_error e

  -- A child that has not exited is killed with its group, and waited for.
  abbrev pub CallsOf : Ending → List Call → List Call → Type 0
  CallsOf (done code) calls calls' = calls' ≡ calls
  CallsOf timed_out calls calls' = calls' ≡ kill_and_wait child.pid calls
  CallsOf too_much calls calls' = calls' ≡ kill_and_wait child.pid calls
  CallsOf (wait_failed e) calls calls' = calls' ≡ kill_and_wait child.pid calls

  -- The loop ends by round `last`, for a reason.
  abbrev pub EndsBy : ℕ → List Call → Option (Ending × List Call) → Type 0
  EndsBy last calls r =
      (ending : Ending) × (calls' : List Call) × (n : ℕ) × (r ≡ some (ending, calls'))
      × (n ≤ last)
      × Because ending n
      × CallsOf ending calls calls'
