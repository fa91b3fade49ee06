-- ===== src/Fs/Names.antt =====
-- The system calls that write a new file and give it its name.
use emacs_relay.Common.{ℕ, ◌+◌, ◌-◌, Option, none, some, List, ◌++◌, length, drop}
use emacs_relay.Common.{◌==◌, if◌then◌else◌}
use emacs_relay.Fs.{
  is_dir, FilePath, FileSystem, wrote, removed, renamed, linked, Tick, Result, ok, err, M, IoError,
}
use emacs_relay.Fs.Calls.{
  no_such_file, file_exists, is_a_directory, query, mutate, assign, store, set_metadata, touch,
}

-- `file.write_all(bytes)` at the start of the file
unfoldable pub write_all : FilePath → ℕ → List ℕ → M IoError (Unit {0})
write_all path fd bytes = mutate (wrote path) λ t fs.
    let node = fs.inodes fd in
    let content = bytes ++ drop (length bytes) node.bytes in
    ok (
      tt,
      record fs {
        inodes = store fs.inodes fd (record node {
          metadata = record (touch t node.metadata) {
            size = length content;
            mtime = t.stamp.mtime;
            mtime_nsec = t.stamp.mtime_nsec;
          };
          bytes = content;
        });
      },
    )

-- `file.sync_all()`
unfoldable pub sync_all : ℕ → M IoError (Unit {0})
sync_all fd = query λ t fs. ok tt

-- A name less, or a name more, for an inode.
abbrev pub unlink_inode : Tick → FileSystem → ℕ → FileSystem
unlink_inode t fs i =
    let m = (fs.inodes i).metadata in set_metadata fs i (record (touch t m) { nlink = m.nlink - 1 })

abbrev pub link_inode : Tick → FileSystem → ℕ → FileSystem
link_inode t fs i =
    let m = (fs.inodes i).metadata in set_metadata fs i (record (touch t m) { nlink = m.nlink + 1 })

-- The destination's old file, if there is one, loses a name.
abbrev pub drop_target : Tick → FileSystem → Option ℕ → FileSystem
drop_target t fs none = fs
drop_target t fs (some j) = unlink_inode t fs j

abbrev pub move_name : Tick → FileSystem → FilePath → FilePath → ℕ → FileSystem
move_name t fs from to i =
    let fs' = drop_target t fs (fs.names to) in
    let fs'' = set_metadata fs' i (touch t (fs'.inodes i).metadata) in
    record fs'' { names = assign (assign fs.names from none) to (some i) }

-- Two names of one inode are left alone, and a directory is not replaced by a file.
abbrev pub rename_onto :
    Tick → FileSystem → FilePath → FilePath → ℕ → Option ℕ → Result IoError (Unit {0} × FileSystem)
rename_onto t fs from to i none = ok (tt, move_name t fs from to i)
rename_onto t fs from to i (some j) =
    if j == i
    then ok (tt, fs)
    else if is_dir (fs.inodes j).metadata
    then err is_a_directory
    else ok (tt, move_name t fs from to i)

-- `fs::rename`
unfoldable pub rename : FilePath → FilePath → M IoError (Unit {0})
rename from to = mutate (renamed from to) λ t fs. elim (fs.names from) [
  | none ↦ err no_such_file
  | some i ↦ rename_onto t fs from to i (fs.names to)
]

abbrev pub link_onto :
    Tick → FileSystem → FilePath → ℕ → Option ℕ → Result IoError (Unit {0} × FileSystem)
link_onto t fs to i (some j) = err file_exists
link_onto t fs to i none =
    let fs' = link_inode t fs i in ok (tt, record fs' { names = assign fs.names to (some i) })

-- `fs::hard_link`
unfoldable pub hard_link : FilePath → FilePath → M IoError (Unit {0})
hard_link from to = mutate (linked from to) λ t fs. elim (fs.names from) [
  | none ↦ err no_such_file
  | some i ↦ link_onto t fs to i (fs.names to)
]

-- `fs::remove_file`
unfoldable pub remove_file : FilePath → M IoError (Unit {0})
remove_file path = mutate (removed path) λ t fs. elim (fs.names path) [
  | none ↦ err no_such_file
  | some i ↦
      if is_dir (fs.inodes i).metadata
      then err is_a_directory
      else let fs' = unlink_inode t fs i in
        ok (tt, record fs' { names = assign fs.names path none })
]
