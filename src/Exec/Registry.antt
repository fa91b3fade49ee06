-- ===== src/Exec/Registry.antt =====
-- The registry of running processes of server/src/fs_handlers.rs, and the calls that end them. A process
-- and its group go by one number: the child calls `setsid`. A process id is far below 2 ^ 31, so that
-- `as i32` keeps it.
pub mod Shutdown
use emacs_relay.Common.{ℕ, Bool, true, false, ◌||◌, ◌==◌, List, [], ◌∷◌, if◌then◌else◌}

-- `killpg`, `Child::kill` and `Child::wait`, whose results the server ignores.
pub data Call : Type 0 where
  killpg kill wait : ℕ → Call

-- `ExecRegistry`, a set, and the calls so far, the last one first.
pub record Execs : Type 0 where
  pub registered : List ℕ
  pub calls : List Call

abbrev pub is_registered : ℕ → List ℕ → Bool
is_registered pgid [] = false
is_registered pgid (p ∷ ps) = p == pgid || is_registered pgid ps

-- `HashSet::insert` and `HashSet::remove`
abbrev pub add_group : ℕ → List ℕ → List ℕ
add_group pgid groups = if is_registered pgid groups then groups else pgid ∷ groups

abbrev pub remove_group : ℕ → List ℕ → List ℕ
remove_group pgid [] = []
remove_group pgid (p ∷ ps) = let kept = remove_group pgid ps in if p == pgid then kept else p ∷ kept

unfoldable pub register_group : ℕ → Execs → Execs
register_group pgid s = record s { registered = add_group pgid s.registered }

-- `ExecRegistration::drop`
unfoldable pub drop_registration : ℕ → Execs → Execs
drop_registration pgid s = record s { registered = remove_group pgid s.registered }

-- `kill_process_group(&mut child)` and `child.wait()`
unfoldable pub kill_and_wait : ℕ → List Call → List Call
kill_and_wait pid calls = wait pid ∷ kill pid ∷ killpg pid ∷ calls

abbrev pub kill_all : List ℕ → List Call → List Call
kill_all [] calls = calls
kill_all (pgid ∷ groups) calls = kill_all groups (killpg pgid ∷ calls)

unfoldable pub kill_registered_execs : Execs → Execs
kill_registered_execs s = record { registered = []; calls = kill_all s.registered s.calls }
