-- ===== src/Tests/Calm.antt =====
-- The theorems on a calm world at a sample.
use emacs_relay.Common.{
  ◌≡◌, refl, none, Option, some, str_eq, Bool, true, false, if◌then◌else◌, ◌<◌, subst, arith,
  parent, join, decimal, [], ◌∷◌, is_utf8, List, ℕ,
}
use emacs_relay.Fs.{ok, err, FilePath}
use emacs_relay.Fs.Calm.{IsCalm, Answers}
use emacs_relay.Revision.{
  ExpectedRevision, missing, conflict, appeared, final_type, from_metadata, revision_eq,
  is_valid_file_revision,
}
use emacs_relay.Read.{read_with_revision}
use emacs_relay.Read.Calm.{read_answer}
use emacs_relay.Read.Calm.Whole.{read_with_revision-Answers}
use emacs_relay.Sha256.{sha256}
use emacs_relay.Write.Swap.Staged.{IsNumbered}
use emacs_relay.Write.Swap.Refines.{Refines, conditional_write-Refines}
use emacs_relay.Write.Swap.Rivals.{FirstWins, conditional_write-FirstWins}
use emacs_relay.Write.{temp_path, directory_of, conflict_for_existing, conditional_write}
use emacs_relay.Write.Calm.{check_answer}
use emacs_relay.Write.Calm.Refused.{
  refusal, conflict_for_existing-Answers, conditional_write-refused,
}
use emacs_relay.Tests.Samples.{abc, abc_digest, abc_revision, disk, start}

pub start-IsCalm : IsCalm start.env
start-IsCalm = record { unchanged = λ n fs. refl; no_fault = λ n. refl }

read_with_revision-Answers_example :
    Answers (read_with_revision "/d/f") start (read_answer disk (some 4))
read_with_revision-Answers_example = read_with_revision-Answers "/d/f" start start-IsCalm

conflict_for_existing-Answers_example :
    Answers (conflict_for_existing missing "/d/g") start (check_answer missing disk none)
conflict_for_existing-Answers_example =
    conflict_for_existing-Answers missing "/d/g" start start-IsCalm

abbrev greeting : List ℕ
greeting = b'h' ∷ b'i' ∷ []

stale : refusal greeting missing disk (some 4) ≡ err (conflict appeared (some abc_revision))
unfolding final_type is_utf8 from_metadata sha256
stale = refl

conditional_write-refused_example :
    Answers
      (conditional_write "/d/f" greeting missing)
      start
      (err (conflict appeared (some abc_revision)))
conditional_write-refused_example =
    conditional_write-refused "/d/f" greeting missing start (conflict appeared (some abc_revision))
      start-IsCalm refl stale

abbrev or_zero : Option ℕ → ℕ
or_zero none = 0
or_zero (some i) = i

pub start-IsNumbered : IsNumbered start.fs
start-IsNumbered = record { below = λ q i e. go q (str_eq q "/d/f") i e }
  where
    go :
        (q : FilePath) (b : Bool) (i : ℕ)
        → ◌≡◌ {A = Option ℕ} (if b then some 4 else none) (some i)
        → i < 9
    go q true i e = subst (λ o. or_zero o < 9) e (omega arith)
    go q false i e = cc

pub apart_f : str_eq "/d/f" (temp_path (directory_of "/d/f") 42 0) ≡ false
unfolding temp_path parent join decimal
apart_f = refl

pub free_t : start.fs.names (temp_path (directory_of "/d/f") 42 0) ≡ none
unfolding temp_path parent join decimal
free_t = refl

conditional_write-Refines_example :
    Refines start "/d/f" greeting
      (ExpectedRevision.present abc_revision)
      apart_f
      free_t
      start-IsNumbered
      start-IsCalm
      (refusal greeting (ExpectedRevision.present abc_revision) start.fs (some 4))
conditional_write-Refines_example =
    conditional_write-Refines start "/d/f" greeting (ExpectedRevision.present abc_revision) apart_f
      free_t start-IsNumbered start-IsCalm refl

first_allowed : refusal greeting (ExpectedRevision.present abc_revision) disk (some 4) ≡ ok tt
unfolding final_type is_utf8 from_metadata sha256 revision_eq is_valid_file_revision
first_allowed = refl

abc_text : is_utf8 abc ≡ true
unfolding is_utf8
abc_text = refl

other_digest : str_eq (sha256 greeting) abc_digest ≡ false
unfolding sha256
other_digest = refl

conditional_write-FirstWins_example :
    FirstWins start "/d/f" abc_revision greeting abc apart_f free_t start-IsNumbered start-IsCalm
conditional_write-FirstWins_example =
    conditional_write-FirstWins start "/d/f" abc_revision greeting abc apart_f free_t
      start-IsNumbered start-IsCalm first_allowed refl abc_text other_digest
