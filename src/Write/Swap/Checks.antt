-- ===== src/Write/Swap/Checks.antt =====
-- What the checks of server/src/revisions/write.rs have found where they pass.
use emacs_relay.Common.{
  ℕ, ◌≡◌, refl, String, Bool, true, false, Option, none, some, List, [], ◌∷◌, length, ltb, is_utf8,
  ==_iff, if◌then◌else◌, arith,
}
use emacs_relay.Fs.{Metadata, is_dir, Inode, FileSystem, World, Result, ok, err}
use emacs_relay.Fs.Calm.{Answers}
use emacs_relay.Revision.{
  Revision, RevisionRead, ExpectedRevision, missing, RevisionError, max_read_bytes, from_metadata,
  final_type, is_valid_file_revision,
}
use emacs_relay.Sha256.{sha256}
use emacs_relay.Read.{refuse_if}
use emacs_relay.Read.Calm.{read_answer, content_answer}
use emacs_relay.Write.{bytes_eq}
use emacs_relay.Write.Calm.{check_answer, typed_answer, appeared_answer}
use emacs_relay.Write.Calm.Refused.{}
use emacs_relay.Write.Swap.{}
use emacs_relay.Write.Swap.Staged.{}

typed_ok :
    (t : Option String) (a : Result RevisionError (Unit {0})) → typed_answer t a ≡ ok tt → t ≡ none
typed_ok none a h = refl
typed_ok (some kind) a h = cc

valid_ok :
    (b : Bool) (r : Result RevisionError (Unit {0})) (e : RevisionError)
    → (if b then r else err e) ≡ ok tt
    → r ≡ ok tt
valid_ok true r e h = h
valid_ok false r e h = cc

regular_no_dir : (m : Metadata) → final_type m ≡ none → is_dir m ≡ false
unfolding final_type
regular_no_dir m h = ground arith

-- What was expected is a regular file.
pub expected_no_dir :
    (r : Revision) (fs : FileSystem) (j : ℕ)
    → check_answer (ExpectedRevision.present r) fs (some j) ≡ ok tt
    → is_dir (fs.inodes j).metadata ≡ false
expected_no_dir r fs j h =
    regular_no_dir (fs.inodes j).metadata
      (typed_ok (final_type (fs.inodes j).metadata) _ (valid_ok (is_valid_file_revision r) _ _ h))

never_ok :
    (t : Option String) (a : Result RevisionError RevisionRead)
    → typed_answer t (appeared_answer a) ≡ ok tt
    → ⊥
never_ok (some kind) a h = cc
never_ok none (ok read) h = cc
never_ok none (err e) h = cc

-- Where nothing was expected there is nothing.
pub expected_none : (fs : FileSystem) (o : Option ℕ) → check_answer missing fs o ≡ ok tt → o ≡ none
expected_none fs none h = refl
expected_none fs (some i) h =
    absurd (never_ok (final_type (fs.inodes i).metadata) (read_answer fs (some i)) h)

pub bytes_eq_refl : (bytes : List ℕ) → bytes_eq bytes bytes ≡ true
bytes_eq_refl [] = refl
bytes_eq_refl (b ∷ bytes) = rw ((==_iff b b).1 refl) (bytes_eq_refl bytes)

pub content_lem :
    (node : Inode) (bytes : List ℕ)
    → node.bytes ≡ bytes
    → node.metadata.size ≡ length bytes
    → is_utf8 bytes ≡ true
    → ltb max_read_bytes (length bytes) ≡ false
    → content_answer node
      ≡ ok (record { bytes = bytes; revision = from_metadata node.metadata (sha256 bytes) })
content_lem node bytes content size text small = rw (size, content, small, text) refl

pub passes_if :
    (b : Bool) (e : RevisionError) (w : World) → b ≡ false → Answers (refuse_if b e) w (ok tt)
passes_if true e w h = cc
passes_if false e w h = (w.now, refl)
