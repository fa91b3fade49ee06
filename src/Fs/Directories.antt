-- ===== src/Fs/Directories.antt =====
-- The system calls on directories, which the handlers make. They
-- follow a symbolic link as the last component of a path, 40 times at most, as Linux does. Whether a
-- directory is empty, and whether the directory above a name is there, is left to the kernel: it is
-- among the reasons for a fault.
pub mod Enough
use emacs_relay.Common.{
  ℕ, zero, suc, ◌+◌, ◌%◌, Bool, true, false, Option, none, some, List, [], ◌∷◌, String, ◌<>◌,
  str_eq, starts_with, if◌then◌else◌, length, parent, join, characters,
}
use emacs_relay.Fs.{
  Metadata, is_symlink, is_dir, FilePath, FileSystem, not_found, other, IoError, Tick, made,
  removed_dir, removed_tree, Result, ok, err, M, pure, raise, ◌>>=◌, ◌>>◌,
}
use emacs_relay.Fs.Calls.{
  no_such_file, file_exists, too_many_links, seen, step, query, mutate, assign, store,
  symlink_metadata,
}
use emacs_relay.Fs.Names.{remove_file}
use emacs_relay.Fs.{ErrorKind, already_exists, outcome}

abbrev pub not_a_directory : IoError
not_a_directory = record { kind = other; shown = "Not a directory (os error 20)" }

abbrev pub invalid_argument : IoError
invalid_argument = record { kind = other; shown = "Invalid argument (os error 22)" }

abbrev pub directory_text : Option String → String
directory_text none = ""
directory_text (some dir) = dir

-- The name that a path stands for, behind its links.
unfoldable pub follow : ℕ → FileSystem → FilePath → Result IoError FilePath
follow zero fs path = err too_many_links
follow (suc links) fs path =
    let there =
      λ (i : ℕ). follow links fs (join (directory_text (parent path)) (fs.inodes i).target) in
    elim (fs.names path) [
      | none ↦ ok path
      | some i ↦ elim (is_symlink (fs.inodes i).metadata) [ true ↦ there i | false ↦ ok path ]
    ]

abbrev pub followed :
    {A : Type 0} → FileSystem → (FilePath → Result IoError A) → FilePath → Result IoError A
followed fs f path = elim (follow 40 fs path) [ ok name ↦ f name | err e ↦ err e ]

-- The inode behind a path.
abbrev pub target_of : FileSystem → FilePath → Result IoError ℕ
target_of fs = followed fs λ name. elim (fs.names name) [ none ↦ err no_such_file | some i ↦ ok i ]

-- `fs::metadata`
unfoldable pub metadata : FilePath → M IoError Metadata
unfolding query
metadata path =
    query λ t fs. elim (target_of fs path) [ ok i ↦ ok (fs.inodes i).metadata | err e ↦ err e ]

-- `fs::read_link`
unfoldable pub read_link : FilePath → M IoError FilePath
unfolding query
read_link path = query λ t fs. elim (fs.names path) [
  | none ↦ err no_such_file
  | some i ↦
      if is_symlink (fs.inodes i).metadata then ok (fs.inodes i).target else err invalid_argument
]

-- `fs::canonicalize`
unfoldable pub canonicalize : FilePath → M IoError FilePath
unfolding query
canonicalize path = query λ t fs. elim (target_of fs path) [ ok i ↦ ok t.canonical | err e ↦ err e ]

-- `fs::read_dir`, with all that its iterator gives.
unfoldable pub read_dir : FilePath → M IoError (List (Option String))
unfolding query
read_dir path = query λ t fs. elim (target_of fs path) [
  | ok i ↦ if is_dir (fs.inodes i).metadata then ok t.listing else err not_a_directory
  | err e ↦ err e
]

-- A new inode under a name.
abbrev pub new_inode : Tick → FileSystem → FilePath → ℕ → FileSystem
new_inode t fs name type = record fs {
  names = assign fs.names name (some fs.next);
  inodes = store fs.inodes fs.next (record {
    metadata = record (t.stamp) { size = 0; nlink = 1; mode = type + t.stamp.mode % 0o10000 };
    bytes = [];
    target = "";
  });
  next = suc fs.next;
}

-- `fs::create_dir`; a link that stands there is not followed.
unfoldable pub create_dir : FilePath → M IoError (Unit {0})
create_dir path = mutate (made path) λ t fs. elim (fs.names path) [
  | some i ↦ err file_exists
  | none ↦ ok (tt, new_inode t fs path 0o040000)
]

-- `fs::remove_dir`
unfoldable pub remove_dir : FilePath → M IoError (Unit {0})
remove_dir path = mutate (removed_dir path) λ t fs. elim (fs.names path) [
  | none ↦ err no_such_file
  | some i ↦
      if is_dir (fs.inodes i).metadata
      then ok (tt, record fs { names = assign fs.names path none })
      else err not_a_directory
]

-- The names of a tree: its root and what is below it.
abbrev pub in_tree : FilePath → FilePath → Bool
in_tree root path = if str_eq path root then true else starts_with path (root <> "/")

abbrev pub without : (FilePath → Bool) → FileSystem → FileSystem
without gone fs = record fs { names = λ path. if gone path then none else fs.names path }

-- The recursion of `fs::remove_dir_all`: all of the tree goes, or what the kernel says until it fails.
abbrev pub cut_tree : FilePath → Option IoError → M IoError (Unit {0})
cut_tree path none w = (
  ok tt,
  record (step w) { fs = without (in_tree path) (seen w); log = removed_tree path ∷ w.log },
)
cut_tree path (some e) w = (
  err e,
  record (step w) {
    fs = without (λ p. if in_tree path p then (w.env w.now).gone p else false) (seen w);
    log = removed_tree path ∷ w.log;
  },
)

abbrev pub tree_at : FilePath → Option ℕ → M IoError (Unit {0})
tree_at path none w = (err no_such_file, step w)
tree_at path (some i) w =
    if is_dir ((seen w).inodes i).metadata
    then cut_tree path (w.env w.now).fault w
    else (err not_a_directory, step w)

unfoldable pub remove_tree : FilePath → M IoError (Unit {0})
remove_tree path w = tree_at path ((seen w).names path) w

-- A link is removed and not followed.
unfoldable pub remove_dir_all : FilePath → M IoError (Unit {0})
remove_dir_all path = do
  m ← symlink_metadata path
  if is_symlink m then remove_file path else remove_tree path

abbrev pub require : Bool → IoError → M IoError (Unit {0})
require true e = pure tt
require false e = raise e

-- `Path::is_dir`
abbrev pub dir_answer : Result IoError Metadata → Bool
dir_answer (ok m) = is_dir m
dir_answer (err e) = false

unfoldable pub is_dir_at : FilePath → M IoError Bool
is_dir_at path w = (ok (dir_answer (metadata path w).0), (metadata path w).1)

-- `Path::exists`
abbrev pub exists_answer : Result IoError Metadata → Bool
exists_answer (ok m) = true
exists_answer (err e) = false

unfoldable pub exists : {E : Type 0} → FilePath → M E Bool
exists path w = (ok (exists_answer (metadata path w).0), (metadata path w).1)

-- A directory that is there already is as good as a new one.
abbrev pub unless_dir : FilePath → IoError → M IoError (Unit {0})
unless_dir path e = is_dir_at path >>= λ there. require there e

abbrev pub settled : FilePath → Result IoError (Unit {0}) → M IoError (Unit {0})
settled path (ok _) = pure tt
settled path (err e) = unless_dir path e

abbrev pub settled_or : M IoError (Unit {0}) → FilePath → IoError → ErrorKind → M IoError (Unit {0})
settled_or climb path e not_found = climb
settled_or climb path e already_exists = unless_dir path e
settled_or climb path e other = unless_dir path e

abbrev pub made_or :
    M IoError (Unit {0}) → FilePath → Result IoError (Unit {0}) → M IoError (Unit {0})
made_or climb path (ok _) = pure tt
made_or climb path (err e) = settled_or climb path e e.kind

abbrev pub parent_or : (FilePath → M IoError (Unit {0})) → Option FilePath → M IoError (Unit {0})
parent_or make none = raise (record { kind = other; shown = "failed to create whole tree" })
parent_or make (some p) = make p

-- The recursion of `fs::create_dir_all` over the directories above.
unfoldable pub create_dirs : ℕ → FilePath → M IoError (Unit {0})
create_dirs zero path = pure tt
create_dirs (suc rounds) path =
    let climb =
      parent_or (create_dirs rounds) (parent path)
      >> (outcome (create_dir path) >>= settled path) in
    if str_eq path "" then pure tt else outcome (create_dir path) >>= made_or climb path

-- A parent's text is shorter than the path's, so that one round more than the path has characters are
-- enough: Enough has the proof.
unfoldable pub create_dir_all : FilePath → M IoError (Unit {0})
create_dir_all path = create_dirs (suc (characters path)) path
