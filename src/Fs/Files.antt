-- ===== src/Fs/Files.antt =====
-- The system calls on files that may be there already: `fs::write`, `fs::copy` and appending. They follow
-- a symbolic link as the last component of the path.
use emacs_relay.Common.{ℕ, none, some, List, [], ◌++◌, if◌then◌else◌, length}
use emacs_relay.Fs.{
  Metadata, is_dir, is_file, FilePath, FileSystem, other, IoError, Tick, wrote, opened, emptied,
  Result, ok, err, M, pure, ◌>>=◌, ◌>>◌,
}
use emacs_relay.Fs.Calls.{
  is_a_directory, query, mutate, store, touch, file_metadata, set_permissions,
}
use emacs_relay.Fs.Names.{write_all}
use emacs_relay.Fs.Directories.{require, target_of, followed, new_inode}

-- `OpenOptions` with `write`, `create` and `truncate`.
abbrev pub open_for :
    (Tick → FileSystem → ℕ → FileSystem)
    → Tick
    → FileSystem
    → FilePath
    → Result IoError (ℕ × FileSystem)
open_for prepare t fs name = elim (fs.names name) [
  | none ↦ ok (fs.next, new_inode t fs name 0o100000)
  | some i ↦ if is_dir (fs.inodes i).metadata then err is_a_directory else ok (i, prepare t fs i)
]

abbrev pub truncate_inode : Tick → FileSystem → ℕ → FileSystem
truncate_inode t fs i =
    let node = fs.inodes i in
    record fs {
      inodes =
          store fs.inodes i
            (record node { metadata = record (touch t node.metadata) { size = 0 }; bytes = [] });
    }

unfoldable pub open_truncate : FilePath → M IoError ℕ
open_truncate path = mutate (emptied path) λ t fs. followed fs (open_for truncate_inode t fs) path

-- `OpenOptions` with `create` and `append`
unfoldable pub open_append : FilePath → M IoError ℕ
open_append path = mutate (opened path) λ t fs. followed fs (open_for (λ t fs i. fs) t fs) path

-- `write_all` on a descriptor that appends.
unfoldable pub append_all : FilePath → ℕ → List ℕ → M IoError (Unit {0})
append_all path fd bytes = mutate (wrote path) λ t fs.
    let node = fs.inodes fd in
    let content = node.bytes ++ bytes in
    ok (
      tt,
      record fs {
        inodes = store fs.inodes fd (record node {
          metadata = record (touch t node.metadata) { size = length content };
          bytes = content;
        });
      },
    )

-- `File::open`
unfoldable pub open_read : FilePath → M IoError ℕ
unfolding query
open_read path = query λ t fs. target_of fs path

-- What the kernel copies from a file, in one step.
unfoldable pub contents : ℕ → M IoError (List ℕ)
unfolding query
contents fd = query λ t fs. ok (fs.inodes fd).bytes

-- `fs::write`
unfoldable pub write_file_at : FilePath → List ℕ → M IoError (Unit {0})
write_file_at path bytes = open_truncate path >>= λ fd. write_all path fd bytes

abbrev pub neither_regular : IoError
neither_regular = record {
  kind = other;
  shown = "the source path is neither a regular file nor a symlink to a regular file";
}

abbrev pub permit : FilePath → ℕ → Metadata → Metadata → M IoError (Unit {0})
permit to out source m = if is_file m then set_permissions to out source.mode else pure tt

-- `fs::copy`: the destination is emptied, then given the source's permissions, then its content.
unfoldable pub copy : FilePath → FilePath → M IoError (Unit {0})
copy from to = do
  fd ← open_read from
  m ← file_metadata fd
  require (is_file m) neither_regular
  out ← open_truncate to
  n ← file_metadata out
  permit to out m n
  bytes ← contents fd
  write_all to out bytes
