-- ===== src/Read.antt =====
-- The read path, server/src/revisions/read.rs, and the two helpers of server/src/revisions/types.rs
-- that open a file. `READ_ATTEMPTS` rounds are the recursion's rounds. The hook between the two
-- samples of the metadata is the environment's step before the second one.
pub mod Rounds
pub mod Stable
pub mod ReadOnly
pub mod Range
pub mod Tail
pub mod Calm
use emacs_relay.Common.{
  ℕ, zero, suc, ◌+◌, ◌-◌, ◌*◌, ◌^◌, min, String, Bool, true, false, not, ◌||◌, ◌&&◌, Option, none,
  some, List, [], ◌∷◌, ltb, ◌==◌, if◌then◌else◌, length, is_utf8,
}
use emacs_relay.Fs.{
  Metadata, FilePath, ErrorKind, not_found, already_exists, other, IoError, World, Result, ok, err,
  M, pure, raise, ◌>>=◌, ◌>>◌, map_err,
}
use emacs_relay.Fs.Calls.{symlink_metadata, open_nofollow, file_metadata, read_to_end}
use emacs_relay.Revision.{
  Revision, RevisionRead, RevisionError, unstable_read, unsupported_final_type,
  unsupported_encoding, too_large, io, max_read_bytes, read_attempts, from_metadata, io_error,
  final_type, metadata_equal,
}
use emacs_relay.Sha256.{sha256}

-- A missing name is an answer, any other failure an error.
abbrev pub missing_as_none : Result IoError Metadata → Result RevisionError (Option Metadata)
missing_as_none (ok m) = ok (some m)
missing_as_none (err e) = elim e.kind [ not_found ↦ ok none | _ ↦ err (io_error "read" e) ]

unfoldable pub checked_lstat : FilePath → M RevisionError (Option Metadata)
checked_lstat path w = (missing_as_none (symlink_metadata path w).0, (symlink_metadata path w).1)

-- `if let Some(kind) = final_type(…) { return Err(UnsupportedFinalType(kind)) }`
abbrev pub refuse_type : Option String → M RevisionError (Unit {0})
refuse_type none = pure tt
refuse_type (some kind) = raise (unsupported_final_type kind)

-- `if test { return Err(error) }`
abbrev pub refuse_if : Bool → RevisionError → M RevisionError (Unit {0})
refuse_if true error = raise error
refuse_if false error = pure tt

abbrev pub found_or : RevisionError → Option Metadata → M RevisionError Metadata
found_or error none = raise error
found_or error (some m) = pure m

unfoldable pub open_checked : FilePath → M RevisionError ℕ
open_checked path = do
  initial ← checked_lstat path >>= found_or (io "read: file not found")
  refuse_type (final_type initial)
  map_err (io_error "read") (open_nofollow path)

-- The end of one attempt: none where the two samples differ, so that the loop goes on.
abbrev pub compare_samples : Metadata → Metadata → List ℕ → M RevisionError (Option RevisionRead)
compare_samples before after bytes =
    if metadata_equal before after
    then if is_utf8 bytes
      then pure (some (record { bytes = bytes; revision = from_metadata after (sha256 bytes) }))
      else raise unsupported_encoding
    else pure none

-- What an attempt does with its descriptor.
unfoldable pub sample : ℕ → M RevisionError (Option RevisionRead)
sample fd = do
  before ← map_err (io_error "read") (file_metadata fd)
  refuse_type (final_type before)
  refuse_if (ltb max_read_bytes before.size) too_large
  bytes ← map_err (io_error "read") (read_to_end fd 0 (max_read_bytes + 1))
  refuse_if (ltb max_read_bytes (length bytes)) too_large
  after ← map_err (io_error "read") (file_metadata fd)
  refuse_type (final_type after)
  compare_samples before after bytes

unfoldable pub read_attempt : FilePath → M RevisionError (Option RevisionRead)
read_attempt path = open_checked path >>= sample

-- `for _ in 0..rounds { … }` around an attempt that may return.
abbrev pub or_again : {A : Type 0} → M RevisionError A → Option A → M RevisionError A
or_again again none = again
or_again again (some read) = pure read

unfoldable pub attempts : {A : Type 0} → ℕ → M RevisionError (Option A) → M RevisionError A
attempts zero attempt = raise unstable_read
attempts (suc rounds) attempt = let again = attempts rounds attempt in attempt >>= or_again again

unfoldable pub read_with_revision : FilePath → M RevisionError RevisionRead
read_with_revision path = attempts read_attempts (read_attempt path)

abbrev pub max_range_bytes : ℕ
max_range_bytes = 1024 * 1024

-- The end of one attempt of `read_range`.
abbrev pub compare_range : Metadata → Metadata → List ℕ → M RevisionError (Option (List ℕ))
compare_range before after bytes =
    if metadata_equal before after then pure (some bytes) else pure none

-- `start > actual_end` is an empty answer at once.
unfoldable pub range_body : ℕ → ℕ → ℕ → Metadata → M RevisionError (Option (List ℕ))
range_body start end fd before =
    let actual_end = min end before.size in
    if ltb actual_end start then pure (some []) else do
      bytes ← map_err (io_error "read_range") (read_to_end fd start (actual_end - start))
      after ← map_err (io_error "read_range") (file_metadata fd)
      compare_range before after bytes

unfoldable pub range_attempt : FilePath → ℕ → ℕ → M RevisionError (Option (List ℕ))
range_attempt path start end = do
  fd ← open_checked path
  before ← map_err (io_error "read_range") (file_metadata fd)
  refuse_type (final_type before)
  range_body start end fd before

unfoldable pub read_range : FilePath → ℕ → ℕ → M RevisionError (List ℕ)
read_range path start end = do
  refuse_if (ltb end start || ltb max_range_bytes (end - start)) too_large
  attempts read_attempts (range_attempt path start end)
