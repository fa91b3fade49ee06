-- ===== src/Write.antt =====
-- The write path, server/src/revisions/write.rs, and `conditional_write` of
-- server/src/revisions/mod.rs. The mutation lock makes a server's own writes run one after the other, so
-- at most one `PendingTemp` is alive: the world holds the path of an active one, and its `Drop` is the
-- last step of the call, on every way out. The two hooks are the environment's steps around publication.
pub mod ReadOnly
pub mod Success
pub mod Calm
pub mod Effects
pub mod Swap
use Prim.Native.Nat.{bit_and}
use emacs_relay.Common.{
  ℕ, zero, suc, ◌+◌, ◌%◌, ◌^◌, ◌<>◌, String, Bool, true, false, not, ◌&&◌, Option, none, some, List,
  [], ◌∷◌, ltb, ◌==◌, if◌then◌else◌, length, is_utf8, str_eq, decimal, parent, join,
}
use emacs_relay.Fs.{
  Metadata, FilePath, ErrorKind, not_found, already_exists, other, IoError, World, Result, ok, err,
  M, pure, raise, ◌>>=◌, ◌>>◌, map_err, outcome,
}
use emacs_relay.Fs.Calls.{create_new, fchown, set_permissions}
use emacs_relay.Fs.Names.{write_all, sync_all, rename, hard_link, remove_file}
use emacs_relay.Revision.{
  Revision, RevisionRead, ExpectedRevision, missing, ConditionalWrite, RevisionError, conflict,
  changed, deleted, appeared, type_changed, unsupported_final_type, unsupported_encoding, too_large,
  io, max_read_bytes, io_error, final_type, is_valid_file_revision, revision_eq,
}
use emacs_relay.Read.{checked_lstat, found_or, refuse_if, read_with_revision}

-- `directory.join(format!(".relay-tmp-{}-{serial}", …))`, with the counter's next value.
unfoldable pub temp_path : FilePath → ℕ → ℕ → FilePath
temp_path directory pid serial =
    join directory (".relay-tmp-" <> (decimal pid <> ("-" <> decimal serial)))

unfoldable pub next_temp : FilePath → M RevisionError FilePath
next_temp directory w =
    (ok (temp_path directory w.pid w.serial), record w { serial = (w.serial + 1) % 2 ^ 64 })

-- `Self { path, active: true }`, and `active = false`.
unfoldable pub set_pending : Option FilePath → M RevisionError (Unit {0})
set_pending path w = (ok tt, record w { pending = path })

-- What follows an attempt to create the file: the open file, another name, or the error.
abbrev pub retry_or :
    M RevisionError (FilePath × ℕ) → IoError → ErrorKind → M RevisionError (FilePath × ℕ)
retry_or again e already_exists = again
retry_or again e not_found = raise (io_error "write(temp)" e)
retry_or again e other = raise (io_error "write(temp)" e)

abbrev pub created_or :
    M RevisionError (FilePath × ℕ) → FilePath → Result IoError ℕ → M RevisionError (FilePath × ℕ)
created_or again path (ok fd) = set_pending (some path) >> pure (path, fd)
created_or again path (err e) = retry_or again e e.kind

-- `PendingTemp::new`, with the rounds of its loop.
unfoldable pub new_temp : ℕ → FilePath → M RevisionError (FilePath × ℕ)
new_temp zero directory = raise (io "write(temp): exhausted unique temporary names")
new_temp (suc rounds) directory =
    let again = new_temp rounds directory in
    next_temp directory >>= λ path. outcome (create_new path) >>= created_or again path

-- `Drop`: an active temporary file is removed, and a failure to do so is ignored.
abbrev pub drop_world : Option FilePath → World → World
drop_world none w = w
drop_world (some path) w = record ((remove_file path w).1) { pending = none }

unfoldable pub dropping : {A : Type 0} → M RevisionError A → M RevisionError A
dropping m w = ((m w).0, drop_world (m w).1.pending (m w).1)

unfoldable pub preserve_metadata : FilePath → ℕ → Option Metadata → M RevisionError (Unit {0})
preserve_metadata path fd none = pure tt
preserve_metadata path fd (some original) =
    map_err (io_error "write(set ownership)") (fchown path fd original.uid original.gid)
    >> map_err (io_error "write(set mode)") (set_permissions path fd (bit_and original.mode 0o7777))

-- A type that stands in the way: hard links have an error of their own.
abbrev pub type_error : String → RevisionError
type_error kind =
    if str_eq kind "hardlink" then unsupported_final_type kind else conflict type_changed none

abbrev pub appearance_of : FilePath → Option String → M RevisionError RevisionError
appearance_of path (some kind) = pure (type_error kind)
appearance_of path none = do
  current ← read_with_revision path
  pure (conflict appeared (some current.revision))

unfoldable pub missing_appearance_conflict : FilePath → Metadata → M RevisionError RevisionError
missing_appearance_conflict path metadata = appearance_of path (final_type metadata)

abbrev pub compare_current : Revision → RevisionRead → M RevisionError (Unit {0})
compare_current expected current =
    if revision_eq current.revision expected
    then pure tt
    else raise (conflict changed (some current.revision))

abbrev pub compare_existing : Revision → FilePath → Option String → M RevisionError (Unit {0})
compare_existing expected path (some kind) = raise (type_error kind)
compare_existing expected path none = read_with_revision path >>= compare_current expected

abbrev pub expect_missing : FilePath → Option Metadata → M RevisionError (Unit {0})
expect_missing path none = pure tt
expect_missing path (some metadata) = missing_appearance_conflict path metadata >>= raise

abbrev pub expect_present : Revision → FilePath → Option Metadata → M RevisionError (Unit {0})
expect_present expected path none = raise (conflict deleted none)
expect_present expected path (some metadata) = compare_existing expected path (final_type metadata)

unfoldable pub conflict_for_existing : ExpectedRevision → FilePath → M RevisionError (Unit {0})
conflict_for_existing missing path = checked_lstat path >>= expect_missing path
conflict_for_existing (ExpectedRevision.present expected) path = do
  refuse_if (not (is_valid_file_revision expected)) (io "write: invalid expected revision")
  checked_lstat path >>= expect_present expected path

-- After a failed `hard_link`: what appeared is classified.
abbrev pub collided : FilePath → IoError → ErrorKind → M RevisionError (Unit {0})
collided path e already_exists = do
  metadata ←
      checked_lstat path >>= found_or (io "write(publish): destination disappeared after collision")
  missing_appearance_conflict path metadata >>= raise
collided path e not_found = raise (io_error "write(publish missing)" e)
collided path e other = raise (io_error "write(publish missing)" e)

-- After `hard_link`: the temporary name goes.
abbrev pub linked_or : FilePath → FilePath → Result IoError (Unit {0}) → M RevisionError (Unit {0})
linked_or temp path (ok _) =
    map_err (io_error "write(publish cleanup)") (remove_file temp) >> set_pending none
linked_or temp path (err e) = collided path e e.kind

unfoldable pub publish : ExpectedRevision → FilePath → FilePath → M RevisionError (Unit {0})
publish (ExpectedRevision.present expected) temp path =
    map_err (io_error "write(rename)") (rename temp path) >> set_pending none
publish missing temp path = outcome (hard_link temp path) >>= linked_or temp path

abbrev pub bytes_eq : List ℕ → List ℕ → Bool
bytes_eq [] [] = true
bytes_eq [] (b ∷ bs) = false
bytes_eq (a ∷ as') [] = false
bytes_eq (a ∷ as') (b ∷ bs) = a == b && bytes_eq as' bs

abbrev pub compare_published : List ℕ → RevisionRead → M RevisionError ConditionalWrite
compare_published bytes published =
    if bytes_eq published.bytes bytes
    then pure (record { revision = published.revision })
    else raise (conflict changed (some published.revision))

-- The new file is written under its temporary name, and the expectation checked a second time.
unfoldable pub stage :
    FilePath
    → List ℕ
    → ExpectedRevision
    → Option Metadata
    → FilePath × ℕ
    → M RevisionError (Unit {0})
stage path bytes expected original (temp, fd) = do
  preserve_metadata temp fd original
  map_err (io_error "write(temp)") (write_all temp fd bytes)
  map_err (io_error "write(sync)") (sync_all fd)
  conflict_for_existing expected path

abbrev pub directory_of : FilePath → FilePath
directory_of path = elim (parent path) [ none ↦ "." | some directory ↦ directory ]

unfoldable pub write_body : FilePath → List ℕ → ExpectedRevision → M RevisionError ConditionalWrite
write_body path bytes expected = do
  refuse_if (ltb max_read_bytes (length bytes)) too_large
  refuse_if (not (is_utf8 bytes)) unsupported_encoding
  conflict_for_existing expected path
  original ← checked_lstat path
  temp ← new_temp 100 (directory_of path)
  stage path bytes expected original temp
  publish expected temp.0 path
  read_with_revision path >>= compare_published bytes

unfoldable pub conditional_write :
    FilePath → List ℕ → ExpectedRevision → M RevisionError ConditionalWrite
conditional_write path bytes expected = dropping (write_body path bytes expected)
