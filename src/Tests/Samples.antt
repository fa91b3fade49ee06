-- ===== src/Tests/Samples.antt =====
-- A small file system, and the environments of the runs.
use emacs_relay.Common.{
  ℕ, refl, none, some, List, [], ◌∷◌, Option, inl, pos, String, str_eq, if◌then◌else◌, false,
}
use emacs_relay.Fs.{Metadata, FilePath, Inode, FileSystem, Tick, World}
use emacs_relay.Fs.Kept.{IsTimed}
use emacs_relay.Revision.{Revision, present, file}

abbrev pub regular : Metadata
regular = record {
  dev = 1;
  ino = 7;
  size = 3;
  mtime = pos 100;
  mtime_nsec = pos 5;
  ctime = pos 100;
  ctime_nsec = pos 6;
  mode = 0o100644;
  uid = 501;
  gid = 20;
  nlink = 1;
}

-- "abc"
abbrev pub abc : List ℕ
abc = b'a' ∷ b'b' ∷ b'c' ∷ []

abbrev pub abc_file : Inode
abc_file = record { metadata = regular; bytes = abc; target = "" }

abbrev pub names : FilePath → Option ℕ
names path = if str_eq path "/d/f" then some 4 else none

abbrev pub disk : FileSystem
disk = record { names = names; inodes = λ i. abc_file; next = 9 }

-- Nobody else acts, nothing fails, and a read gives two bytes at most.
abbrev pub quiet : Tick
quiet = record {
  change = λ fs. fs;
  fault = none;
  stamp = regular;
  chunk = 1;
  listing = some "f" ∷ none ∷ some "g" ∷ [];
  canonical = "/d/f";
  gone = λ path. false;
}

abbrev pub start : World
start = record {
  fs = disk;
  env = λ n. quiet;
  now = 0;
  pid = 42;
  serial = 0;
  pending = none;
  log = [];
}

pub start-IsTimed : IsTimed start.env
start-IsTimed = record { kept = λ n i fs. inl refl }

abbrev pub abc_digest : String
abc_digest = "ba7816bf8f01cfea414140de5dae2223b00361a396177a9cb410ff61f20015ad"

-- The revision of that file.
abbrev pub abc_revision : Revision
abc_revision = record {
  schema = 1;
  state = present;
  kind = file;
  dev = 1;
  ino = 7;
  size = 3;
  mtime_sec = pos 100;
  mtime_nsec = pos 5;
  ctime_sec = pos 100;
  ctime_nsec = pos 6;
  mode = 0o644;
  sha256 = abc_digest;
}
