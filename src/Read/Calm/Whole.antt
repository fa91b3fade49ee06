-- ===== src/Read/Calm/Whole.antt =====
-- `read_with_revision` of server/src/revisions/read.rs from the path to the answer, in a calm world.
use emacs_relay.Common.{
  ℕ, suc, ◌≡◌, refl, sym, subst, ◌∙◌, String, false, Option, none, some, if◌then◌else◌, arith,
}
use emacs_relay.Fs.{Metadata, FilePath, World, Result, ok, err, M, ◌>>=◌, ◌>>◌, map_err, is_symlink}
use emacs_relay.Fs.Calls.{query, open_nofollow, no_such_file, too_many_links}
use emacs_relay.Fs.Calm.{
  IsCalm, Answers, Answers-pure, Answers-raise, Answers->>=_ok, Answers->>=_err, Answers-map_err_ok,
  Answers-query,
}
use emacs_relay.Revision.{RevisionError, unsupported_final_type, io, io_error, final_type}
use emacs_relay.Read.{
  checked_lstat, found_or, refuse_type, open_checked, sample, read_attempt, or_again, attempts,
  read_with_revision,
}
use emacs_relay.Read.Calm.{Answers-checked_lstat, named, file_answer, read_answer, some_of, passes}
use emacs_relay.Read.Calm.Sample.{sample-Answers}

symlink_no : (m : Metadata) → final_type m ≡ none → is_symlink m ≡ false
unfolding final_type
symlink_no m h = ground arith

Answers-open_nofollow :
    (path : FilePath) (w : World) (i : ℕ)
    → IsCalm w.env
    → w.fs.names path ≡ some i
    → final_type (w.fs.inodes i).metadata ≡ none
    → Answers (open_nofollow path) w (ok i)
unfolding open_nofollow query
Answers-open_nofollow path w i calm there regular =
    let (n, e) = Answers-query w calm (λ t fs. elim (fs.names path) [
      | none ↦ err no_such_file
      | some i ↦ if is_symlink (fs.inodes i).metadata then err too_many_links else ok i
    ]) in
    (n, e ∙ rw (there, symlink_no (w.fs.inodes i).metadata regular) refl)

attempts-Answers :
    {A : Type 0} (rounds : ℕ) (attempt : M RevisionError (Option A)) (r : Result RevisionError A)
    (w : World)
    → Answers attempt w (some_of r)
    → Answers (attempts (suc rounds) attempt) w r
unfolding attempts
attempts-Answers rounds attempt (ok a) w h =
    Answers->>=_ok attempt (or_again (attempts rounds attempt)) w (some a) (ok a) h
      λ n. Answers-pure a (record w { now = n })
attempts-Answers rounds attempt (err e) w h =
    Answers->>=_err attempt (or_again (attempts rounds attempt)) w e h

module _ (path : FilePath) (w : World) (calm : IsCalm w.env) where
  lstat-Answers :
      (i : Option ℕ) → w.fs.names path ≡ i → Answers (checked_lstat path) w (ok (named w.fs i))
  lstat-Answers i there =
      subst (λ j. Answers (checked_lstat path) w (ok (named w.fs j))) there
        (Answers-checked_lstat path w calm)

  initial-Answers :
      (i : ℕ)
      → w.fs.names path ≡ some i
      → Answers
          (checked_lstat path >>= found_or (io "read: file not found"))
          w
          (ok (w.fs.inodes i).metadata)
  initial-Answers i there =
      Answers->>=_ok (checked_lstat path) (found_or (io "read: file not found")) w
        (some (w.fs.inodes i).metadata) _ (lstat-Answers (some i) there)
        λ n. Answers-pure (w.fs.inodes i).metadata (record w { now = n })

  open_checked-Answers :
      (i : ℕ) (t : Option String)
      → w.fs.names path ≡ some i
      → final_type (w.fs.inodes i).metadata ≡ t
      → Answers
          (open_checked path)
          w
          (elim t [ none ↦ ok i | some kind ↦ err (unsupported_final_type kind) ])
  unfolding open_checked
  open_checked-Answers i none there regular =
      Answers->>=_ok (checked_lstat path >>= found_or (io "read: file not found")) _ w
        (w.fs.inodes i).metadata (ok i) (initial-Answers i there)
        λ n.
          passes (final_type (w.fs.inodes i).metadata) _ (record w { now = n }) (ok i) regular
            (Answers-map_err_ok (io_error "read") (open_nofollow path) (record w { now = n }) i
              (Answers-open_nofollow path (record w { now = n }) i calm there regular))
  open_checked-Answers i (some kind) there irregular =
      Answers->>=_ok (checked_lstat path >>= found_or (io "read: file not found")) _ w
        (w.fs.inodes i).metadata (err (unsupported_final_type kind)) (initial-Answers i there)
        λ n.
          subst
            (λ t.
              Answers (refuse_type t >> map_err (io_error "read") (open_nofollow path))
                (record w { now = n }) (err (unsupported_final_type kind)))
            (sym irregular)
            (Answers->>=_err (refuse_type (some kind)) _ (record w { now = n })
              (unsupported_final_type kind) (Answers-raise _ (record w { now = n })))

  open_checked-missing :
      w.fs.names path ≡ none → Answers (open_checked path) w (err (io "read: file not found"))
  unfolding open_checked
  open_checked-missing there =
      Answers->>=_err (checked_lstat path >>= found_or (io "read: file not found")) _ w
        (io "read: file not found")
        (Answers->>=_ok (checked_lstat path) (found_or (io "read: file not found")) w none _
          (lstat-Answers none there)
          λ n. Answers-raise (io "read: file not found") (record w { now = n }))

  opened-Answers :
      (i : ℕ) (t : Option String)
      → w.fs.names path ≡ some i
      → final_type (w.fs.inodes i).metadata ≡ t
      → Answers (read_attempt path) w (some_of (read_answer w.fs (some i)))
  unfolding read_attempt
  opened-Answers i none there regular =
      Answers->>=_ok (open_checked path) sample w i _ (open_checked-Answers i none there regular)
        λ n. sample-Answers (record w { now = n }) calm i
  opened-Answers i (some kind) there irregular =
      subst (λ t. Answers (read_attempt path) w (some_of (file_answer (w.fs.inodes i) t)))
        (sym irregular)
        (Answers->>=_err (open_checked path) sample w (unsupported_final_type kind)
          (open_checked-Answers i (some kind) there irregular))

  read_attempt-Answers :
      (i : Option ℕ)
      → w.fs.names path ≡ i
      → Answers (read_attempt path) w (some_of (read_answer w.fs i))
  unfolding read_attempt
  read_attempt-Answers none there =
      Answers->>=_err (open_checked path) sample w _ (open_checked-missing there)
  read_attempt-Answers (some i) there =
      opened-Answers i (final_type (w.fs.inodes i).metadata) there refl

-- Where nobody else acts and no call fails, a revision read of any path comes back, leaves the file system
-- alone, and answers what is there: the bytes and the revision of a regular file with one name, of valid
-- UTF-8 within the limit, or the error for a name that is missing, for the kind of file, for its size or
-- for its encoding.
pub read_with_revision-Answers :
    (path : FilePath) (w : World)
    → IsCalm w.env
    → Answers (read_with_revision path) w (read_answer w.fs (w.fs.names path))
unfolding read_with_revision
read_with_revision-Answers path w calm =
    attempts-Answers 2 (read_attempt path) (read_answer w.fs (w.fs.names path)) w
      (read_attempt-Answers path w calm (w.fs.names path) refl)
