-- ===== src/Fs/Calls.antt =====
-- The system calls behind std::fs that the revision code makes. Each is one step of the world: first
-- the others act, then the call fails by an injected fault or does its work on what it then finds.
use emacs_relay.Common.{ℕ, zero, suc, ◌+◌, ◌-◌, ◌%◌, Option, none, some, List, [], ◌∷◌, ◌++◌}
use emacs_relay.Common.{length, take, drop, min, str_eq, ◌==◌, if◌then◌else◌}
use emacs_relay.Fs.{
  Metadata, type_bits, is_symlink, FilePath, Inode, FileSystem, not_found, already_exists, other,
  IoError, Tick, Effect, created, chowned, chmoded, World, Result, ok, err, M, pure, ◌>>=◌,
}

abbrev pub no_such_file : IoError
no_such_file = record { kind = not_found; shown = "No such file or directory (os error 2)" }

abbrev pub file_exists : IoError
file_exists = record { kind = already_exists; shown = "File exists (os error 17)" }

abbrev pub too_many_links : IoError
too_many_links = record { kind = other; shown = "Too many levels of symbolic links (os error 40)" }

abbrev pub is_a_directory : IoError
is_a_directory = record { kind = other; shown = "Is a directory (os error 21)" }

-- The file system that the next call finds, and the world once the others have acted.
abbrev pub seen : World → FileSystem
seen w = (w.env w.now).change w.fs

abbrev pub step : World → World
step w = record w { fs = seen w; now = suc w.now }

abbrev pub answer : {A : Type 0} → Option IoError → Result IoError A → Result IoError A
answer none r = r
answer (some e) r = err e

module _ {A : Type 0} where
  -- A call that only looks.
  unfoldable pub query : (Tick → FileSystem → Result IoError A) → M IoError A
  query f w = let t = w.env w.now in (answer t.fault (f t (seen w)), step w)

  abbrev pub settle : Effect → Result IoError (A × FileSystem) → M IoError A
  settle effect (ok (a, fs)) w = (ok a, record w { fs = fs; log = effect ∷ w.log })
  settle effect (err e) w = (err e, w)

  -- A call that changes the file system when it succeeds.
  unfoldable pub mutate :
      Effect → (Tick → FileSystem → Result IoError (A × FileSystem)) → M IoError A
  mutate effect f w = let t = w.env w.now in settle effect (answer t.fault (f t (seen w))) (step w)

-- `fs::symlink_metadata`
unfoldable pub symlink_metadata : FilePath → M IoError Metadata
unfolding query
symlink_metadata path =
    query
      λ t fs. elim (fs.names path) [ none ↦ err no_such_file | some i ↦ ok (fs.inodes i).metadata ]

-- `open` for reading with O_NOFOLLOW and O_NONBLOCK; the descriptor is the inode's number.
unfoldable pub open_nofollow : FilePath → M IoError ℕ
unfolding query
open_nofollow path = query λ t fs. elim (fs.names path) [
  | none ↦ err no_such_file
  | some i ↦ if is_symlink (fs.inodes i).metadata then err too_many_links else ok i
]

-- `file.metadata()`
unfoldable pub file_metadata : ℕ → M IoError Metadata
unfolding query
file_metadata fd = query λ t fs. ok (fs.inodes fd).metadata

-- One `read` at an offset, for `limit` bytes at most; it gives none only at the end of the file.
unfoldable pub read_some : ℕ → ℕ → ℕ → M IoError (List ℕ)
unfolding query
read_some fd offset limit =
    query λ t fs. ok (take (min limit (suc t.chunk)) (drop offset (fs.inodes fd).bytes))

abbrev pub read_on : (List ℕ → M IoError (List ℕ)) → List ℕ → List ℕ → M IoError (List ℕ)
read_on more acc [] = pure acc
read_on more acc (b ∷ piece) = more (b ∷ piece)

-- `file.take(limit).read_to_end(&mut bytes)` from an offset on; with nothing left to take it makes no
-- call. The first argument is the number of rounds: each takes a byte at least, so `limit` are enough.
unfoldable pub read_rounds : ℕ → ℕ → ℕ → ℕ → List ℕ → M IoError (List ℕ)
unfolding read_some ◌>>=◌
read_rounds zero fd offset limit acc = pure acc
read_rounds (suc fuel) fd offset limit acc =
    let more : List ℕ → M IoError (List ℕ) =
      λ p. read_rounds fuel fd (offset + length p) (limit - length p) (acc ++ p) in
    if limit == 0 then pure acc else read_some fd offset limit >>= read_on more acc

unfoldable pub read_to_end : ℕ → ℕ → ℕ → M IoError (List ℕ)
unfolding read_rounds
read_to_end fd offset limit = read_rounds limit fd offset limit []

-- `names` with another meaning of one path, `inodes` with another content of one number.
abbrev pub assign : (FilePath → Option ℕ) → FilePath → Option ℕ → FilePath → Option ℕ
assign names path i p = if str_eq p path then i else names p

abbrev pub store : (ℕ → Inode) → ℕ → Inode → ℕ → Inode
store inodes i node j = if j == i then node else inodes j

abbrev pub set_metadata : FileSystem → ℕ → Metadata → FileSystem
set_metadata fs i m = record fs {
  inodes = store fs.inodes i (record (fs.inodes i) { metadata = m });
}

-- What every change of an inode does to its change time.
abbrev pub touch : Tick → Metadata → Metadata
touch t m = record m { ctime = t.stamp.ctime; ctime_nsec = t.stamp.ctime_nsec }

-- `OpenOptions::new().write(true).create_new(true).open(path)`
unfoldable pub create_new : FilePath → M IoError ℕ
create_new path = mutate (created path) λ t fs. elim (fs.names path) [
  | some i ↦ err file_exists
  | none ↦
      let node : Inode = record {
        metadata = record (t.stamp) {
          size = 0;
          nlink = 1;
          mode = 0o100000 + t.stamp.mode % 0o10000;
        };
        bytes = [];
        target = "";
      } in
      ok (
        fs.next,
        record fs {
          names = assign fs.names path (some fs.next);
          inodes = store fs.inodes fs.next node;
          next = suc fs.next;
        },
      )
]

-- `libc::fchown`. The kernel may clear permission bits on the way.
unfoldable pub fchown : FilePath → ℕ → ℕ → ℕ → M IoError (Unit {0})
fchown path fd uid gid = mutate (chowned path) λ t fs.
    let m = (fs.inodes fd).metadata in
    ok (
      tt,
      set_metadata fs fd (record (touch t m) {
        uid = uid;
        gid = gid;
        mode = type_bits m.mode + t.stamp.mode % 0o10000;
      }),
    )

-- `file.set_permissions`
unfoldable pub set_permissions : FilePath → ℕ → ℕ → M IoError (Unit {0})
set_permissions path fd mode = mutate (chmoded path) λ t fs.
    let m = (fs.inodes fd).metadata in
    ok (tt, set_metadata fs fd (record (touch t m) { mode = type_bits m.mode + mode % 0o10000 }))
