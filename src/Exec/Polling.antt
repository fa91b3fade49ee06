-- ===== src/Exec/Polling.antt =====
-- The loop of `exec_command_with_registry` of server/src/fs_handlers.rs that waits for the child. What
-- the child, the readers' flag and the clock show in each of its rounds is the environment's.
pub mod Ends
use emacs_relay.Common.{
  ℕ, zero, suc, ◌+◌, ◌/◌, ◌≤◌, String, Bool, true, false, Option, none, some, List, ℤ, leb,
}
use emacs_relay.Fs.{Result}
use emacs_relay.Exec.Registry.{Call, kill_and_wait}

-- `try_wait`: the code of an exit, with none for a signal.
pub data TryWait : Type 0 where
  exited : Option ℤ → TryWait
  running : TryWait
  wait_error : String → TryWait

-- `elapsed` is in milliseconds, by the round. The last four are for the collection of the output: the
-- time that has passed before each `recv_timeout`, and what it gives within a time, if anything.
pub record Child : Type 0 where
  pub pid : ℕ
  pub try_wait : ℕ → TryWait
  pub overflowed : ℕ → Bool
  pub elapsed : ℕ → ℕ
  pub before_stdout : ℕ
  pub before_stderr : ℕ
  pub recv_stdout : ℕ → Option (Result String (List ℕ))
  pub recv_stderr : ℕ → Option (Result String (List ℕ))

-- `sleep(20 ms)` sleeps at least as long.
pub record IsClock (elapsed : ℕ → ℕ) : Type 0 where
  pub sleeps : (n : ℕ) → elapsed n + 20 ≤ elapsed (suc n)

-- How the loop ends.
pub data Ending : Type 0 where
  done : Option ℤ → Ending
  timed_out : Ending
  too_much : Ending
  wait_failed : String → Ending

module _ (child : Child) (timeout_ms : ℕ) where
  abbrev pub stopped : Ending → List Call → Ending × List Call
  stopped ending calls = (ending, kill_and_wait child.pid calls)

  -- The two tests of a round in which the child runs: the flag, then the time.
  abbrev pub still_running :
      Bool → Bool → List Call → Option (Ending × List Call) → Option (Ending × List Call)
  still_running true late calls more = some (stopped too_much calls)
  still_running false true calls more = some (stopped timed_out calls)
  still_running false false calls more = more

  abbrev pub round_of :
      TryWait → Bool → Bool → List Call → Option (Ending × List Call) → Option (Ending × List Call)
  round_of (exited code) over late calls more = some (done code, calls)
  round_of running over late calls more = still_running over late calls more
  round_of (wait_error e) over late calls more = some (stopped (wait_failed e) calls)

  -- None where the rounds run out.
  unfoldable pub poll : ℕ → ℕ → List Call → Option (Ending × List Call)
  poll zero n calls = none
  poll (suc rounds) n calls =
      round_of (child.try_wait n) (child.overflowed n) (leb timeout_ms (child.elapsed n)) calls
        (poll rounds (suc n) calls)

  -- By the last of these rounds the time is over.
  abbrev pub enough_rounds : ℕ
  enough_rounds = timeout_ms / 20 + 2

  unfoldable pub wait_for_child : List Call → Option (Ending × List Call)
  wait_for_child calls = poll enough_rounds 0 calls
