-- ===== src/Read/Calm.antt =====
-- The whole behaviour of the revision read, server/src/revisions/read.rs, where nobody else acts and no
-- call fails.
pub mod Sample
pub mod Whole
use emacs_relay.Common.{
  ℕ, zero, suc, ◌+◌, ◌≡◌, refl, ap, sym, subst, ◌∙◌, String, Bool, true, false, Bool-cases, inl,
  inr, Option, none, some, List, [], ◌∷◌, length, take, drop, min, take-length_le, length-take, ltb,
  ltb→le, is_utf8, if◌then◌else◌, arith,
}
use emacs_relay.Fs.{
  Metadata, FilePath, Inode, FileSystem, Tick, IoError, World, Result, ok, err, M, pure, raise,
  ◌>>=◌, ◌>>◌, >>=_ok, map_err, is_symlink,
}
use emacs_relay.Fs.Calls.{
  query, file_metadata, symlink_metadata, open_nofollow, read_to_end, read_rounds, no_such_file,
  too_many_links,
}
use emacs_relay.Fs.Calm.{
  IsCalm, IsCalm-IsTimed, Answers, Answers-pure, Answers-raise, Answers->>=_ok, Answers->>=_err,
  Answers-map_err_ok, Answers-query, Answers-file_metadata, Ends, read_rounds-Ends,
}
use emacs_relay.Revision.{
  RevisionRead, RevisionError, unsupported_final_type, unsupported_encoding, too_large, io,
  max_read_bytes, read_attempts, from_metadata, io_error, final_type, metadata_equal,
}
use emacs_relay.Revision.Facts.{metadata_equal_iff}
use emacs_relay.Read.{
  missing_as_none, checked_lstat, refuse_type, refuse_if, found_or, open_checked, compare_samples,
  sample, read_attempt, or_again, attempts, read_with_revision,
}
use emacs_relay.Read.Rounds.{read_to_end_ok}
use emacs_relay.Sha256.{sha256}

-- In a calm world a whole read gives what is there, up to its limit.
pub Answers-read_to_end :
    (fd offset limit : ℕ) (w : World)
    → IsCalm w.env
    → Answers (read_to_end fd offset limit) w (ok (take limit (drop offset (w.fs.inodes fd).bytes)))
unfolding read_to_end
Answers-read_to_end fd offset limit w calm =
    let (out, (n, e)) = read_rounds-Ends limit fd offset limit [] w calm in
    let (_, whole) = read_to_end_ok fd offset limit w (IsCalm-IsTimed w.env calm) e in
    (
      n,
      subst (λ x. read_rounds limit fd offset limit [] w ≡ (ok x, record w { now = n }))
          (whole refl) e,
    )

-- What the read of a file is to answer, and what the read of a path.
abbrev pub text_answer : Inode → Result RevisionError RevisionRead
text_answer node =
    if is_utf8 node.bytes
    then ok
        (record { bytes = node.bytes; revision = from_metadata node.metadata (sha256 node.bytes) })
    else err unsupported_encoding

abbrev pub content_answer : Inode → Result RevisionError RevisionRead
content_answer node =
    if ltb max_read_bytes node.metadata.size
    then err too_large
    else if ltb max_read_bytes (length node.bytes)
    then err too_large
    else text_answer node

abbrev pub file_answer : Inode → Option String → Result RevisionError RevisionRead
file_answer node (some kind) = err (unsupported_final_type kind)
file_answer node none = content_answer node

abbrev pub read_answer : FileSystem → Option ℕ → Result RevisionError RevisionRead
read_answer fs none = err (io "read: file not found")
read_answer fs (some i) = file_answer (fs.inodes i) (final_type (fs.inodes i).metadata)

-- The metadata under a name.
abbrev pub named : FileSystem → Option ℕ → Option Metadata
named fs none = none
named fs (some i) = some (fs.inodes i).metadata

missing_as_none-named :
    (fs : FileSystem) (i : Option ℕ)
    → missing_as_none (elim i [ none ↦ err no_such_file | some i ↦ ok (fs.inodes i).metadata ])
      ≡ ok (named fs i)
missing_as_none-named fs none = refl
missing_as_none-named fs (some i) = refl

pub Answers-checked_lstat :
    (path : FilePath) (w : World)
    → IsCalm w.env
    → Answers (checked_lstat path) w (ok (named w.fs (w.fs.names path)))
unfolding checked_lstat symlink_metadata query
Answers-checked_lstat path w calm =
    let (n, e) = Answers-query w calm (λ t fs. elim (fs.names path) [
      | none ↦ err no_such_file
      | some i ↦ ok (fs.inodes i).metadata
    ]) in
    (
      n,
      (λ i. (missing_as_none (e i).0, (e i).1))
          ∙ ap (λ r. (r, record w { now = n })) (missing_as_none-named w.fs (w.fs.names path)),
    )

abbrev pub some_of : {A : Type 0} → Result RevisionError A → Result RevisionError (Option A)
some_of (ok a) = ok (some a)
some_of (err e) = err e

-- A guard of the source, next to the same guard of the answer.
module _ {A : Type 0} (m : M RevisionError (Option A)) (w : World) where
  pub Answers-guard :
      (e : RevisionError) (b c : Bool) (r : Result RevisionError A)
      → b ≡ c
      → (c ≡ false → Answers m w (some_of r))
      → Answers (refuse_if b e >> m) w (some_of (if c then err e else r))
  Answers-guard e true true r same h =
      Answers->>=_err (refuse_if true e) (λ _. m) w e (Answers-raise e w)
  Answers-guard e false false r same h =
      let (n, k) = h refl in (n, >>=_ok (refuse_if false e) (λ _. m) w refl ∙ k)
  Answers-guard e true false r same h = cc
  Answers-guard e false true r same h = cc

  pub Answers-type :
      (t : Option String) (r : Option String → Result RevisionError A)
      → ((kind : String) → r (some kind) ≡ err (unsupported_final_type kind))
      → (t ≡ none → Answers m w (some_of (r none)))
      → Answers (refuse_type t >> m) w (some_of (r t))
  Answers-type none r refused h =
      let (n, k) = h refl in (n, >>=_ok (refuse_type none) (λ _. m) w refl ∙ k)
  Answers-type (some kind) r refused h =
      let (n, k) =
        Answers->>=_err (refuse_type (some kind)) (λ _. m) w (unsupported_final_type kind)
          (Answers-raise _ w) in
      (n, k ∙ ap (λ q. (some_of q, record w { now = n })) (sym (refused kind)))

pub passes :
    {A : Type 0} (t : Option String) (m : M RevisionError A) (w : World)
    (r : Result RevisionError A)
    → t ≡ none
    → Answers m w r
    → Answers (refuse_type t >> m) w r
passes t m w r h (n, k) =
    subst (λ q. Answers (refuse_type q >> m) w r) (sym h)
      (n, >>=_ok (refuse_type none) (λ _. m) w refl ∙ k)
