-- ===== src/Write/Calm.antt =====
-- The checks of the conditional write, server/src/revisions/write.rs, where nobody else acts and no call
-- fails: which write is refused, and with what answer.
pub mod Refused
use emacs_relay.Common.{
  ℕ, ◌≡◌, refl, ap, sym, subst, ◌∙◌, String, Bool, true, false, not, Option, none, some, List,
  length, ltb, is_utf8, if◌then◌else◌,
}
use emacs_relay.Fs.{
  Metadata, FilePath, Inode, FileSystem, World, Result, ok, err, M, pure, raise, ◌>>=◌, ◌>>◌,
  >>=_ok, >>=_err,
}
use emacs_relay.Fs.Calm.{
  IsCalm, Answers, Answers-pure, Answers-raise, Answers->>=_ok, Answers->>=_err,
}
use emacs_relay.Revision.{
  Revision, RevisionRead, ExpectedRevision, missing, ConditionalWrite, RevisionError, conflict,
  changed, deleted, appeared, io, too_large, unsupported_encoding, max_read_bytes, final_type,
  is_valid_file_revision, revision_eq,
}
use emacs_relay.Read.{checked_lstat, refuse_if, read_with_revision}
use emacs_relay.Read.Calm.{Answers-checked_lstat, named, file_answer, read_answer}
use emacs_relay.Read.Calm.Whole.{read_with_revision-Answers}
use emacs_relay.Write.{
  type_error, appearance_of, missing_appearance_conflict, compare_current, compare_existing,
  expect_missing, expect_present, conflict_for_existing, write_body, dropping, drop_world,
  conditional_write,
}

-- What the check answers where the file is of that type and reads like that.
abbrev pub appeared_answer : Result RevisionError RevisionRead → Result RevisionError (Unit {0})
appeared_answer (ok read) = err (conflict appeared (some read.revision))
appeared_answer (err e) = err e

abbrev pub compared_answer :
    Revision → Result RevisionError RevisionRead → Result RevisionError (Unit {0})
compared_answer expected (ok read) =
    if revision_eq read.revision expected
    then ok tt
    else err (conflict changed (some read.revision))
compared_answer expected (err e) = err e

abbrev pub typed_answer :
    Option String → Result RevisionError (Unit {0}) → Result RevisionError (Unit {0})
typed_answer (some kind) answer = err (type_error kind)
typed_answer none answer = answer

abbrev pub present_answer : Revision → FileSystem → Option ℕ → Result RevisionError (Unit {0})
present_answer expected fs none = err (conflict deleted none)
present_answer expected fs (some i) =
    typed_answer (final_type (fs.inodes i).metadata)
      (compared_answer expected (read_answer fs (some i)))

abbrev pub missing_answer : FileSystem → Option ℕ → Result RevisionError (Unit {0})
missing_answer fs none = ok tt
missing_answer fs (some i) =
    typed_answer (final_type (fs.inodes i).metadata) (appeared_answer (read_answer fs (some i)))

abbrev pub check_answer : ExpectedRevision → FileSystem → Option ℕ → Result RevisionError (Unit {0})
check_answer missing fs i = missing_answer fs i
check_answer (ExpectedRevision.present expected) fs i =
    if is_valid_file_revision expected
    then present_answer expected fs i
    else err (io "write: invalid expected revision")

compare_current-Answers :
    (expected : Revision) (read : RevisionRead) (b : Bool) (w : World)
    → Answers
        (if b then pure tt else raise (conflict changed (some read.revision)))
        w
        (if b then ok tt else err (conflict changed (some read.revision)))
compare_current-Answers expected read true w = Answers-pure tt w
compare_current-Answers expected read false w = Answers-raise _ w

module _ (path : FilePath) (w : World) (calm : IsCalm w.env) where
  compared-Answers :
      (expected : Revision) (r : Result RevisionError RevisionRead)
      → Answers (read_with_revision path) w r
      → Answers
          (read_with_revision path >>= compare_current expected)
          w
          (compared_answer expected r)
  compared-Answers expected (ok read) h =
      Answers->>=_ok (read_with_revision path) (compare_current expected) w read _ h λ n.
        compare_current-Answers expected read (revision_eq read.revision expected)
          (record w { now = n })
  compared-Answers expected (err e) h =
      Answers->>=_err (read_with_revision path) (compare_current expected) w e h

  appearance-Answers :
      (r : Result RevisionError RevisionRead)
      → Answers (read_with_revision path) w r
      → Answers (appearance_of path none >>= raise) w (appeared_answer r)
  appearance-Answers (ok read) h =
      Answers->>=_ok (appearance_of path none) raise w (conflict appeared (some read.revision)) _
        (Answers->>=_ok (read_with_revision path) _ w read _ h
          λ n. Answers-pure (conflict appeared (some read.revision)) (record w { now = n }))
        λ n. Answers-raise (conflict appeared (some read.revision)) (record w { now = n })
  appearance-Answers (err e) h =
      Answers->>=_err (appearance_of path none) raise w e
        (Answers->>=_err (read_with_revision path) _ w e h)

  existing-Answers :
      (expected : Revision) (t : Option String)
      → Answers
          (compare_existing expected path t)
          w
          (typed_answer t (compared_answer expected (read_answer w.fs (w.fs.names path))))
  existing-Answers expected (some kind) = Answers-raise (type_error kind) w
  existing-Answers expected none =
      compared-Answers expected (read_answer w.fs (w.fs.names path))
        (read_with_revision-Answers path w calm)

  appeared-Answers :
      (t : Option String)
      → Answers
          (appearance_of path t >>= raise)
          w
          (typed_answer t (appeared_answer (read_answer w.fs (w.fs.names path))))
  appeared-Answers (some kind) =
      Answers->>=_ok (appearance_of path (some kind)) raise w (type_error kind) _
        (Answers-pure (type_error kind) w)
        λ n. Answers-raise (type_error kind) (record w { now = n })
  appeared-Answers none =
      appearance-Answers (read_answer w.fs (w.fs.names path))
        (read_with_revision-Answers path w calm)

  pub expect_present-Answers :
      (expected : Revision) (i : Option ℕ)
      → w.fs.names path ≡ i
      → Answers (expect_present expected path (named w.fs i)) w (present_answer expected w.fs i)
  expect_present-Answers expected none there = Answers-raise (conflict deleted none) w
  expect_present-Answers expected (some i) there =
      subst
        (λ j. Answers (compare_existing expected path (final_type (w.fs.inodes i).metadata)) w (
          typed_answer (final_type (w.fs.inodes i).metadata)
            (compared_answer expected (read_answer w.fs j))))
        there (existing-Answers expected (final_type (w.fs.inodes i).metadata))

  pub expect_missing-Answers :
      (i : Option ℕ)
      → w.fs.names path ≡ i
      → Answers (expect_missing path (named w.fs i)) w (missing_answer w.fs i)
  unfolding missing_appearance_conflict
  expect_missing-Answers none there = Answers-pure tt w
  expect_missing-Answers (some i) there =
      subst
        (λ j. Answers (appearance_of path (final_type (w.fs.inodes i).metadata) >>= raise) w (
          typed_answer (final_type (w.fs.inodes i).metadata)
            (appeared_answer (read_answer w.fs j))))
        there (appeared-Answers (final_type (w.fs.inodes i).metadata))
