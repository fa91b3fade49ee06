-- ===== src/Exec/Readers/Bounded.antt =====
-- The output limit of server/src/fs_handlers.rs, in every interleaving of the two readers.
use emacs_relay.Common.{
  ℕ, ◌+◌, ◌^◌, ◌≤◌, ◌<◌, ◌≡◌, refl, subst, Bool, true, false, List, [], length, arith,
}
use emacs_relay.Fs.{ok}
use emacs_relay.Exec.Readers.{
  exec_output_limit, started, sent, Readers, Run, begin, read_stdout, read_stderr, report_stdout,
  report_stderr,
}
use emacs_relay.Exec.Readers.After.{
  held, spent, spent_le, Whole, held_le, Excess, Excess-later, on_read-After,
}

-- What holds of every run.
record IsKept (out more : List ℕ) (s : Readers) : Type 0 where
  count : s.used ≡ length out + length more
  bound : s.used ≤ exec_output_limit + (spent s.stdout + spent s.stderr)
  within : length (held s.stdout) + length (held s.stderr) ≤ exec_output_limit
  whole_stdout : Whole out s.stdout
  whole_stderr : Whole more s.stderr
  excess_stdout : Excess s.stdout s.used
  excess_stderr : Excess s.stderr s.used
  flag : s.overflow ≡ true → exec_output_limit < s.used

started-held : (there : Bool) → length (held (started there)) ≡ 0
started-held true = refl
started-held false = refl

started-Whole : (there : Bool) → Whole [] (started there)
started-Whole true = refl
started-Whole false = refl

started-Excess : (there : Bool) → Excess (started there) 0
started-Excess true = tt
started-Excess false = tt

Run-IsKept : (out more : List ℕ) (s : Readers) → Run out more s → IsKept out more s
Run-IsKept _ _ _ (begin has_stdout has_stderr) = record {
  count = refl;
  bound = omega arith;
  within = omega (arith, started-held has_stdout, started-held has_stderr);
  whole_stdout = started-Whole has_stdout;
  whole_stderr = started-Whole has_stderr;
  excess_stdout = started-Excess has_stdout;
  excess_stderr = started-Excess has_stderr;
  flag = λ h. cc;
}
Run-IsKept _ _ _ (read_stdout out more s r buf run at i) =
    let k = Run-IsKept out more s run in
    let a =
      on_read-After out (length more) (length (held s.stderr)) (spent s.stderr) s.used r buf i
        (subst (Whole out) at k.whole_stdout) k.count (held_le more s.stderr k.whole_stderr)
        (omega
          (arith, subst (λ t. s.used ≤ exec_output_limit + (spent t + spent s.stderr)) at k.bound))
        (spent_le s.stderr)
        (subst (λ t. length (held t) + length (held s.stderr) ≤ exec_output_limit) at k.within) in
    record {
      count = a.count;
      bound = a.bound;
      within = a.within;
      whole_stdout = a.whole;
      whole_stderr = k.whole_stderr;
      excess_stdout = a.excess;
      excess_stderr = Excess-later s.stderr s.used _ a.later k.excess_stderr;
      flag = λ h. omega (arith, k.flag h, a.later);
    }
Run-IsKept _ _ _ (read_stderr out more s r buf run at i) =
    let k = Run-IsKept out more s run in
    let a =
      on_read-After more (length out) (length (held s.stdout)) (spent s.stdout) s.used r buf i
        (subst (Whole more) at k.whole_stderr) (omega (arith, k.count))
        (held_le out s.stdout k.whole_stdout)
        (omega
          (arith, subst (λ t. s.used ≤ exec_output_limit + (spent s.stdout + spent t)) at k.bound))
        (spent_le s.stdout)
        (subst (λ t. length (held t) + length (held s.stdout) ≤ exec_output_limit) at
          (omega (arith, k.within))) in
    record {
      count = omega (arith, a.count);
      bound = omega (arith, a.bound);
      within = omega (arith, a.within);
      whole_stdout = k.whole_stdout;
      whole_stderr = a.whole;
      excess_stdout = Excess-later s.stdout s.used _ a.later k.excess_stdout;
      excess_stderr = a.excess;
      flag = λ h. omega (arith, k.flag h, a.later);
    }
Run-IsKept _ _ _ (report_stdout out more s run at) =
    let k = Run-IsKept out more s run in
    let over : exec_output_limit < s.used = subst (λ t. Excess t s.used) at k.excess_stdout in
    record {
      count = k.count;
      bound = subst (λ t. s.used ≤ exec_output_limit + (spent t + spent s.stderr)) at k.bound;
      within = omega (arith, k.within);
      whole_stdout = tt;
      whole_stderr = k.whole_stderr;
      excess_stdout = tt;
      excess_stderr = k.excess_stderr;
      flag = λ h. over;
    }
Run-IsKept _ _ _ (report_stderr out more s run at) =
    let k = Run-IsKept out more s run in
    let over : exec_output_limit < s.used = subst (λ t. Excess t s.used) at k.excess_stderr in
    record {
      count = k.count;
      bound = subst (λ t. s.used ≤ exec_output_limit + (spent s.stdout + spent t)) at k.bound;
      within = omega (arith, k.within);
      whole_stdout = k.whole_stdout;
      whole_stderr = tt;
      excess_stdout = k.excess_stdout;
      excess_stderr = tt;
      flag = λ h. over;
    }

-- In every interleaving of the two readers: together they never hold or hand over more than 8 megabytes,
-- and the shared count, which is of all the bytes that the pipes gave, never wraps around; a reader that
-- succeeds hands over all that its pipe gave; and the flag is raised only after more than 8 megabytes.
pub Run-IsBounded :
    (out more : List ℕ) (s : Readers)
    → Run out more s
    → (length (held s.stdout) + length (held s.stderr) ≤ exec_output_limit)
      × (length out + length more < 2 ^ 64)
      × (s.used ≡ length out + length more)
      × ((buf : List ℕ) → s.stdout ≡ sent (ok buf) → buf ≡ out)
      × ((buf : List ℕ) → s.stderr ≡ sent (ok buf) → buf ≡ more)
      × (s.overflow ≡ true → exec_output_limit < length out + length more)
Run-IsBounded out more s run =
    let k = Run-IsKept out more s run in
    (
      k.within,
      omega (arith, k.count, k.bound, spent_le s.stdout, spent_le s.stderr),
      k.count,
      λ buf h. subst (Whole out) h k.whole_stdout,
      λ buf h. subst (Whole more) h k.whole_stderr,
      λ h. omega (arith, k.flag h, k.count),
    )
