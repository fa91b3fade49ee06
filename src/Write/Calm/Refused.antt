-- ===== src/Write/Calm/Refused.antt =====
-- The write that `conditional_write` of server/src/revisions/mod.rs refuses, in a calm world.
use emacs_relay.Common.{
  ℕ, ◌≡◌, refl, ap, subst, ◌∙◌, Bool, true, false, not, Option, none, List, length, ltb, is_utf8,
  if◌then◌else◌,
}
use emacs_relay.Fs.{FilePath, FileSystem, World, Result, ok, err, M, ◌>>=◌, ◌>>◌, >>=_ok}
use emacs_relay.Fs.Calm.{IsCalm, Answers, Answers-raise, Answers->>=_ok, Answers->>=_err}
use emacs_relay.Revision.{
  ExpectedRevision, missing, RevisionError, io, too_large, unsupported_encoding, max_read_bytes,
  is_valid_file_revision,
}
use emacs_relay.Read.{checked_lstat, refuse_if}
use emacs_relay.Read.Calm.{Answers-checked_lstat, named}
use emacs_relay.Write.{
  expect_missing, expect_present, conflict_for_existing, write_body, dropping, drop_world,
  conditional_write,
}
use emacs_relay.Write.Calm.{
  check_answer, present_answer, expect_present-Answers, expect_missing-Answers,
}

-- A test and its guard.
valid-Answers :
    (b : Bool) (e : RevisionError) (m : M RevisionError (Unit {0})) (w : World)
    (r : Result RevisionError (Unit {0}))
    → Answers m w r
    → Answers (refuse_if (not b) e >> m) w (if b then r else err e)
valid-Answers true e m w r (n, k) = (n, >>=_ok (refuse_if false e) (λ _. m) w refl ∙ k)
valid-Answers false e m w r h = Answers->>=_err (refuse_if true e) (λ _. m) w e (Answers-raise e w)

-- Where nobody else acts and no call fails, the check of a path against an expectation comes back, leaves
-- the file system alone, and passes exactly if nothing has the name and nothing is expected, or the
-- file there has the expected revision; otherwise the answer names what is there instead.
pub conflict_for_existing-Answers :
    (expected : ExpectedRevision) (path : FilePath) (w : World)
    → IsCalm w.env
    → Answers (conflict_for_existing expected path) w (check_answer expected w.fs (w.fs.names path))
unfolding conflict_for_existing
conflict_for_existing-Answers missing path w calm =
    Answers->>=_ok (checked_lstat path) (expect_missing path) w (named w.fs (w.fs.names path)) _
      (Answers-checked_lstat path w calm)
      λ n. expect_missing-Answers path (record w { now = n }) calm (w.fs.names path) refl
conflict_for_existing-Answers (ExpectedRevision.present expected) path w calm =
    valid-Answers (is_valid_file_revision expected) (io "write: invalid expected revision")
      (checked_lstat path >>= expect_present expected path) w
      (present_answer expected w.fs (w.fs.names path))
      (Answers->>=_ok (checked_lstat path) (expect_present expected path) w
        (named w.fs (w.fs.names path)) _ (Answers-checked_lstat path w calm)
        λ n.
          expect_present-Answers path (record w { now = n }) calm expected (w.fs.names path) refl)

-- What stands in a write's way before it begins.
abbrev pub refusal :
    List ℕ → ExpectedRevision → FileSystem → Option ℕ → Result RevisionError (Unit {0})
refusal bytes expected fs i =
    if ltb max_read_bytes (length bytes)
    then err too_large
    else if is_utf8 bytes
    then check_answer expected fs i
    else err unsupported_encoding

abbrev error_or : {E A : Type 0} → E → Result E A → E
error_or e (ok a) = e
error_or e (err e') = e'

failing-guard :
    {A : Type 0} (b : Bool) (e e' : RevisionError) (m : M RevisionError A) (w : World)
    (r : Result RevisionError (Unit {0}))
    → (if b then err e else r) ≡ err e'
    → (r ≡ err e' → Answers m w (err e'))
    → Answers (refuse_if b e >> m) w (err e')
failing-guard true e e' m w r h k =
    subst (λ x. Answers (refuse_if true e >> m) w (err x)) (ap (error_or e) h)
      (Answers->>=_err (refuse_if true e) (λ _. m) w e (Answers-raise e w))
failing-guard false e e' m w r h k =
    let (n, q) = k h in (n, >>=_ok (refuse_if false e) (λ _. m) w refl ∙ q)

failing-test :
    {A : Type 0} (b : Bool) (e e' : RevisionError) (m : M RevisionError A) (w : World)
    (r : Result RevisionError (Unit {0}))
    → (if b then r else err e) ≡ err e'
    → (r ≡ err e' → Answers m w (err e'))
    → Answers (refuse_if (not b) e >> m) w (err e')
failing-test true e e' m w r h k = failing-guard false e e' m w r h k
failing-test false e e' m w r h k = failing-guard true e e' m w r h k

dropping-Answers :
    {A : Type 0} (m : M RevisionError A) (w : World) (r : Result RevisionError A)
    → w.pending ≡ none
    → Answers m w r
    → Answers (dropping m) w r
unfolding dropping
dropping-Answers m w r clean (n, h) = (
  n,
  ap (λ p. (p.0, drop_world p.1.pending p.1)) h
      ∙ ap (λ q. (r, drop_world q (record w { now = n }))) clean,
)

-- Where nobody else acts and no call fails, a write that is too large, not UTF-8, or not of what is there
-- gets that refusal for an answer, and changes nothing: no file, no name, and no state of the server.
pub conditional_write-refused :
    (path : FilePath) (bytes : List ℕ) (expected : ExpectedRevision) (w : World) (e : RevisionError)
    → IsCalm w.env
    → w.pending ≡ none
    → refusal bytes expected w.fs (w.fs.names path) ≡ err e
    → Answers (conditional_write path bytes expected) w (err e)
unfolding conditional_write write_body
conditional_write-refused path bytes expected w e calm clean refused =
    dropping-Answers (write_body path bytes expected) w (err e) clean (
      failing-guard (ltb max_read_bytes (length bytes)) too_large e _ w
        (if is_utf8 bytes
          then check_answer expected w.fs (w.fs.names path)
          else err unsupported_encoding)
        refused
        λ refused'.
          failing-test (is_utf8 bytes) unsupported_encoding e _ w
            (check_answer expected w.fs (w.fs.names path)) refused'
            λ stale. Answers->>=_err (conflict_for_existing expected path) _ w e (
              subst (Answers (conflict_for_existing expected path) w) stale
                (conflict_for_existing-Answers expected path w calm)))
