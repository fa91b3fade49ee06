-- ===== src/Handlers/Writes.antt =====
-- `write_file` of server/src/fs_handlers.rs, the write that expects no revision, in a calm world.
pub mod Opening
pub mod Ending
pub mod File
use emacs_relay.Common.{
  ℕ, suc, ◌≡◌, refl, ap, sym, subst, ◌∙◌, String, ◌<>◌, Bool, true, false, Option, none, some, List,
  [], ◌++◌, append-nil, drop-nil, length, drop, if◌then◌else◌, ◌+◌, ◌%◌,
}
use emacs_relay.Fs.{
  is_dir, FilePath, Inode, FileSystem, Tick, Effect, IoError, World, Result, ok, err, M, ◌>>=◌,
  ◌>>◌, >>=_ok, >>=_err, continue, map_err, map_err_ok, map_err_err, result_map_err, created,
  opened, emptied, wrote,
}
use emacs_relay.Fs.Calls.{file_exists, is_a_directory, create_new, mutate}
use emacs_relay.Fs.Calm.{IsCalm, Answers}
use emacs_relay.Handlers.Stores.{
  created_store, rewritten_store, set_inode, with_file, contents-with_file, contents-set_inode,
  contents-set_twice,
}
use emacs_relay.Json.{Json}
use emacs_relay.Control.{Host}
use emacs_relay.Fs.Calls.{store}
use emacs_relay.Write.Swap.{mutate_calm, changed_world, store_same}
use emacs_relay.Write.Swap.Staged.{IsNumbered}
use emacs_relay.Write.Swap.Refines.{Store, contents_of}
use emacs_relay.Fs.Directories.{follow, followed, new_inode}
use emacs_relay.Fs.Files.{
  open_for, truncate_inode, open_truncate, open_append, append_all, write_file_at,
}
use emacs_relay.Fs.Names.{write_all}
use emacs_relay.Handlers.Requests.{told, write_new, write_append, write_as, decoded, write_file}
use emacs_relay.Handlers.{Base64}

-- What a file with a name, or none, is to hold.
abbrev pub placed :
    String → (List ℕ → List ℕ) → FileSystem → FilePath → Option ℕ → Result String Store
placed what content fs name none = ok (created_store fs name (content []))
placed what content fs name (some i) =
    if is_dir (fs.inodes i).metadata
    then err (what <> is_a_directory.shown)
    else ok (rewritten_store fs i (content (fs.inodes i).bytes))

-- The write through links, at the name that the path stands for.
abbrev pub placed_at :
    String → (List ℕ → List ℕ) → FileSystem → Result IoError FilePath → Result String Store
placed_at what content fs (ok name) = placed what content fs name (fs.names name)
placed_at what content fs (err e) = err (what <> e.shown)

abbrev pub placed_new : List ℕ → FileSystem → FilePath → Option ℕ → Result String Store
placed_new bytes fs path none = ok (created_store fs path bytes)
placed_new bytes fs path (some i) = err ("write(create new): " <> file_exists.shown)

-- The abstract write: what the paths then hold, or why it is refused.
abbrev pub write_answer : Bool → Bool → FilePath → List ℕ → FileSystem → Result String Store
write_answer append must_be_new path bytes fs =
    if must_be_new
    then placed_new bytes fs path (fs.names path)
    else if append
    then placed_at "write(open append): " (λ old. old ++ bytes) fs (follow 40 fs path)
    else placed_at "write: " (λ old. bytes) fs (follow 40 fs path)

-- From `w`, `m` does to the contents of the paths what the answer says, or fails and changes nothing.
abbrev pub Writes : M String (Unit {0}) → World → Result String Store → Type 0
Writes m w (ok store) =
    (v : World) × (m w ≡ (ok tt, v)) × ((q : FilePath) → contents_of v.fs q ≡ store q)
Writes m w (err e) = Answers m w (err e)

module _ (w : World) where
  -- The last step of a write, in a file that was made for it and in one that was there.
  abbrev pub Ends : World → (ℕ → M String (Unit {0})) → ℕ → Store → Type 0
  Ends u finish fd store =
      (v : World) × (finish fd u ≡ (ok tt, v)) × ((q : FilePath) → contents_of v.fs q ≡ store q)
