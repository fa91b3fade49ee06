-- ===== src/Tests/Exec.antt =====
-- `exec` at a sample.
use emacs_relay.Common.{
  ◌≡◌, refl, none, some, [], ◌∷◌, true, false, pos, List, ℕ, ◌+◌, ◌*◌, ◌≤◌, ◌<◌, ◌^◌, if◌then◌else◌,
  ltb, length, arith,
}
use mathlib.Core.List.{Memᴰ}
use emacs_relay.Fs.{IoError, Result, ok, err}
use emacs_relay.Json.Object.{object, field, insert_all}
use emacs_relay.Exec.Arguments.{Arguments, exec_arguments}
use emacs_relay.Exec.Arguments.Accepted.{AreTexts, IsLimit, IsCwd, exec_arguments-accepted}
use emacs_relay.Revision.Wire.{and_then}
use emacs_relay.Exec.Registry.{killpg, Execs, is_registered, register_group, kill_registered_execs}
use emacs_relay.Exec.Registry.Shutdown.{kill_registered_execs-reaches}
use emacs_relay.Exec.Readers.{
  exec_output_limit, reading, sent, Readers, piece, eof, on_read, Run, begin, read_stdout,
  new_readers,
}
use emacs_relay.Exec.Readers.After.{held}
use emacs_relay.Exec.Readers.Bounded.{Run-IsBounded}
use emacs_relay.Exec.Polling.{exited, running, Child, IsClock}
use emacs_relay.Tests.Samples.{abc}
use emacs_relay.Tests.Handlers.{J, host}

abbrev after_abc : Readers
after_abc = record { used = 3; overflow = false; stdout = reading abc; stderr = reading [] }

abbrev after_end : Readers
after_end = record { used = 3; overflow = false; stdout = sent (ok abc); stderr = reading [] }

one_read : Run abc [] after_abc
unfolding on_read
one_read =
    read_stdout [] [] (new_readers true true) (piece abc) [] (begin true true) refl
      (omega arith, omega arith)

then_end : Run abc [] after_end
unfolding on_read
then_end = read_stdout abc [] after_abc eof abc one_read refl tt

Run-IsBounded_example :
    (length (held after_end.stdout) + length (held after_end.stderr) ≤ exec_output_limit)
    × (3 + 0 < 2 ^ 64)
    × (3 ≡ 3 + 0)
    × ((buf : List ℕ) → after_end.stdout ≡ sent (ok buf) → buf ≡ abc)
    × ((buf : List ℕ) → after_end.stderr ≡ sent (ok buf) → buf ≡ [])
    × (false ≡ true → exec_output_limit < 3 + 0)
Run-IsBounded_example = Run-IsBounded abc [] after_end then_end

-- It exits by the third round, and its output is there at once.
abbrev child : Child
child = record {
  pid = 77;
  try_wait = λ n. if ltb n 2 then running else exited (some (pos 0));
  overflowed = λ n. false;
  elapsed = λ n. 20 * n;
  before_stdout = 41;
  before_stderr = 42;
  recv_stdout = λ ms. some (ok abc);
  recv_stderr = λ ms. some (ok []);
}

abbrev spawn : Arguments → Result IoError Child
spawn a = ok child

abbrev others : Execs
others = record { registered = 5 ∷ []; calls = [] }

abbrev Fits : Child → Type 0
Fits c = IsClock c.elapsed × (is_registered c.pid others.registered ≡ false)

abbrev spawned_or : Result IoError Child → Child
spawned_or (ok c) = c
spawned_or (err e) = child

abbrev run_true : J.Value
run_true = object J (("op", J.text "exec") ∷ ("command", J.array (J.text "true" ∷ [])) ∷ [])

-- The request is a valid one.
run_true_arguments :
    exec_arguments J host run_true
    ≡ ok (record { program = "true"; args = []; timeout_ms = 30000; cwd = none })
unfolding exec_arguments field object insert_all
run_true_arguments = refl

kill_registered_execs-reaches_example :
    ((kill_registered_execs (register_group 77 others)).registered ≡ [])
    × ((p : ℕ)
        → Memᴰ p (77 ∷ others.registered)
        → Memᴰ (killpg p) (kill_registered_execs (register_group 77 others)).calls)
kill_registered_execs-reaches_example = kill_registered_execs-reaches 77 others

exec_arguments-accepted_example :
    (vs : List J.Value) × (and_then (field J run_true "command") J.as_array ≡ some vs)
    × AreTexts J vs ("true" ∷ [])
    × IsLimit J host (field J run_true "timeout_ms") 30000
    × IsCwd J host (field J run_true "cwd") none
exec_arguments-accepted_example = exec_arguments-accepted J host run_true run_true_arguments
