-- ===== src/Revision.antt =====
-- The types and helpers of server/src/revisions/types.rs, and the two constants and `wire_error` of
-- server/src/revisions/mod.rs. Unsigned fields are numbers, signed ones integers; `InRange` has the
-- widths that the Rust types give them.
pub mod Facts
pub mod Valid
pub mod Digest
pub mod Wire
use Prim.Native.Nat.{bit_and}
use emacs_relay.Common.{
  ℕ, ◌*◌, ◌<◌, ◌^◌, ◌<>◌, String, Bool, true, ◌&&◌, not, Option, none, some, List,
}
use emacs_relay.Common.{[], ◌∷◌, ℤ, IsI64, int_eq, is_nonneg, int_lt, ltb, leb, ◌==◌, ◌||◌}
use emacs_relay.Common.{if◌then◌else◌, str_eq, length, all, bytes_of}
use emacs_relay.Fs.{Metadata, is_symlink, is_dir, is_fifo, is_file, IoError}
use emacs_relay.Json.{Json}
use emacs_relay.Json.Object.{object}

abbrev pub max_read_bytes : ℕ
max_read_bytes = 16 * 1024 * 1024

abbrev pub read_attempts : ℕ
read_attempts = 3

pub data RevisionState : Type 0 where
  present : RevisionState

pub data RevisionKind : Type 0 where
  file : RevisionKind

pub record Revision : Type 0 where
  pub schema : ℕ
  pub state : RevisionState
  pub kind : RevisionKind
  pub dev : ℕ
  pub ino : ℕ
  pub size : ℕ
  pub mtime_sec : ℤ
  pub mtime_nsec : ℤ
  pub ctime_sec : ℤ
  pub ctime_nsec : ℤ
  pub mode : ℕ
  pub sha256 : String

-- u8, u64, i64 and u32
pub record InRange (r : Revision) : Type 0 where
  pub schema : r.schema < 2 ^ 8
  pub dev : r.dev < 2 ^ 64
  pub ino : r.ino < 2 ^ 64
  pub size : r.size < 2 ^ 64
  pub mtime_sec : IsI64 r.mtime_sec
  pub mtime_nsec : IsI64 r.mtime_nsec
  pub ctime_sec : IsI64 r.ctime_sec
  pub ctime_nsec : IsI64 r.ctime_nsec
  pub mode : r.mode < 2 ^ 32

pub data ExpectedRevision : Type 0 where
  present : Revision → ExpectedRevision
  missing : ExpectedRevision

pub record RevisionRead : Type 0 where
  pub bytes : List ℕ
  pub revision : Revision

pub record ConditionalWrite : Type 0 where
  pub revision : Revision

pub data ConflictKind : Type 0 where
  changed deleted appeared type_changed : ConflictKind

pub data RevisionError : Type 0 where
  unstable_read : RevisionError
  conflict : ConflictKind → Option Revision → RevisionError
  unsupported_final_type : String → RevisionError
  unsupported_encoding : RevisionError
  too_large : RevisionError
  io : String → RevisionError

-- `#[derive(PartialEq)]`
abbrev pub state_eq : RevisionState → RevisionState → Bool
state_eq present present = true

abbrev pub kind_eq : RevisionKind → RevisionKind → Bool
kind_eq file file = true

unfoldable pub revision_eq : Revision → Revision → Bool
revision_eq r s =
    r.schema == s.schema
    && state_eq r.state s.state
    && kind_eq r.kind s.kind
    && r.dev == s.dev
    && r.ino == s.ino
    && r.size == s.size
    && int_eq r.mtime_sec s.mtime_sec
    && int_eq r.mtime_nsec s.mtime_nsec
    && int_eq r.ctime_sec s.ctime_sec
    && int_eq r.ctime_nsec s.ctime_nsec
    && r.mode == s.mode
    && str_eq r.sha256 s.sha256

unfoldable pub from_metadata : Metadata → String → Revision
from_metadata m sha256 = record {
  schema = 1;
  state = present;
  kind = file;
  dev = m.dev;
  ino = m.ino;
  size = m.size;
  mtime_sec = m.mtime;
  mtime_nsec = m.mtime_nsec;
  ctime_sec = m.ctime;
  ctime_nsec = m.ctime_nsec;
  mode = bit_and m.mode 0o7777;
  sha256 = sha256;
}

-- `byte.is_ascii_digit() || matches!(byte, b'a'..=b'f')`
abbrev pub is_lower_hex : ℕ → Bool
is_lower_hex b = (leb b'0' b && leb b b'9') || (leb b'a' b && leb b b'f')

unfoldable pub is_valid_file_revision : Revision → Bool
is_valid_file_revision r =
    r.schema == 1
    && state_eq r.state present
    && kind_eq r.kind file
    && is_nonneg r.mtime_nsec
    && int_lt r.mtime_nsec 1_000_000_000
    && is_nonneg r.ctime_nsec
    && int_lt r.ctime_nsec 1_000_000_000
    && leb r.mode 0o7777
    && length (bytes_of r.sha256) == 64
    && all is_lower_hex (bytes_of r.sha256)

unfoldable pub wire_name : ConflictKind → String
wire_name changed = "changed"
wire_name deleted = "deleted"
wire_name appeared = "appeared"
wire_name type_changed = "type_changed"

unfoldable pub readable_name : ConflictKind → String
readable_name changed = "remote file changed"
readable_name deleted = "remote file was deleted"
readable_name appeared = "remote file appeared"
readable_name type_changed = "remote file type changed"

unfoldable pub readable : RevisionError → String
unfolding readable_name
readable (conflict kind current) = "write conflict: " <> readable_name kind
readable unstable_read = "read: file changed while being read"
readable (unsupported_final_type kind) = "read: unsupported final file type: " <> kind
readable unsupported_encoding = "read/write: file is not valid UTF-8"
readable too_large = "read: file exceeds 16777216-byte limit"
readable (io message) = message

abbrev pub io_error : String → IoError → RevisionError
io_error context error = io (context <> ": " <> error.shown)

unfoldable pub final_type : Metadata → Option String
final_type m =
    if is_symlink m
    then some "symlink"
    else if is_dir m
    then some "directory"
    else if is_fifo m
    then some "fifo"
    else if not (is_file m)
    then some "nonregular"
    else if not (m.nlink == 1)
    then some "hardlink"
    else none

unfoldable pub metadata_equal : Metadata → Metadata → Bool
metadata_equal before after =
    before.dev == after.dev
    && before.ino == after.ino
    && before.size == after.size
    && int_eq before.mtime after.mtime
    && int_eq before.mtime_nsec after.mtime_nsec
    && int_eq before.ctime after.ctime
    && int_eq before.ctime_nsec after.ctime_nsec
    && before.mode == after.mode
    && before.uid == after.uid
    && before.gid == after.gid
    && before.nlink == after.nlink
