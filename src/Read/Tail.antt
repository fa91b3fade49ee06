-- ===== src/Read/Tail.antt =====
-- `tail_read` of server/src/revisions/read.rs: the bytes from a known offset to the end of the file as
-- one stat saw it. Unlike the other reads it tolerates an append that arrives meanwhile.
pub mod Lengths
pub mod Laws
pub mod ReadOnly
pub mod Moments
pub mod Grown
pub mod Pieces
pub mod Opened
pub mod Taken
pub mod Follow
use emacs_relay.Common.{
  ℕ, ◌+◌, ◌-◌, ◌*◌, ◌^◌, min, Bool, true, false, not, ◌||◌, Option, none, some, List, [], ltb, ◌==◌,
  if◌then◌else◌, length,
}
use emacs_relay.Fs.{Metadata, FilePath, M, pure, ◌>>=◌, ◌>>◌, map_err}
use emacs_relay.Fs.Calls.{file_metadata, read_to_end}
use emacs_relay.Revision.{RevisionError, io_error, final_type}
use emacs_relay.Read.{open_checked, refuse_type}

pub record TailRead : Type 0 where
  pub bytes : List ℕ
  pub start : ℕ
  pub actual_end : ℕ
  pub file_size : ℕ
  pub dev : ℕ
  pub ino : ℕ
  pub truncated_or_rotated : Bool
  pub more_available : Bool

abbrev pub max_tail_bytes : ℕ
max_tail_bytes = 1024 * 1024

-- `known.is_some_and(|k| k != actual)`
abbrev pub differs : Option ℕ → ℕ → Bool
differs none actual = false
differs (some known) actual = not (known == actual)

-- `u64::saturating_add`
abbrev pub saturating_add : ℕ → ℕ → ℕ
saturating_add a b = min (a + b) (2 ^ 64 - 1)

-- The client's view of the file: an offset and, where it has one, the file's identity.
pub record Known : Type 0 where
  pub offset : ℕ
  pub dev : Option ℕ
  pub ino : Option ℕ

unfoldable pub truncated_or_rotated : Known → Metadata → Bool
truncated_or_rotated known m =
    (differs known.dev m.dev || differs known.ino m.ino) || ltb m.size known.offset

abbrev pub tail_start : Known → Metadata → ℕ
tail_start known m = if truncated_or_rotated known m then 0 else known.offset

abbrev pub tail_end : Known → Metadata → ℕ → ℕ
tail_end known m max_bytes =
    min (saturating_add (tail_start known m) (min max_bytes max_tail_bytes)) m.size

abbrev pub tail_bytes : ℕ → ℕ → ℕ → M RevisionError (List ℕ)
tail_bytes fd start want_end =
    if ltb start want_end
    then map_err (io_error "tail_read") (read_to_end fd start (want_end - start))
    else pure []

abbrev pub tail_reply : Known → Metadata → List ℕ → TailRead
tail_reply known m bytes =
    let start = tail_start known m in
    record {
      bytes = bytes;
      start = start;
      actual_end = start + length bytes;
      file_size = m.size;
      dev = m.dev;
      ino = m.ino;
      truncated_or_rotated = truncated_or_rotated known m;
      more_available = ltb (start + length bytes) m.size;
    }

unfoldable pub tail_of : Known → ℕ → ℕ → M RevisionError TailRead
tail_of known max_bytes fd = do
  m ← map_err (io_error "tail_read") (file_metadata fd)
  refuse_type (final_type m)
  bytes ← tail_bytes fd (tail_start known m) (tail_end known m max_bytes)
  pure (tail_reply known m bytes)

unfoldable pub tail_read : FilePath → Known → ℕ → M RevisionError TailRead
tail_read path known max_bytes = open_checked path >>= tail_of known max_bytes
