-- ===== src/Handlers/Footprint.antt =====
-- What the operations of server/src/fs_handlers.rs may change, whatever fails and whatever others do: the log of
-- the server's own changes grows by effects of one kind.
pub mod Asked
pub mod Calls
pub mod Directories
pub mod Requests
pub mod Operations
pub mod Whole
use emacs_relay.Common.{
  ◌≡◌, refl, ap, sym, ◌∙◌, String, Option, some, List, [], ◌∷◌, ◌++◌, append_assoc, All, All-append,
  parent,
}
use emacs_relay.Fs.{
  FilePath, FileSystem, Effect, created, chmoded, wrote, removed, made, opened, emptied,
  removed_dir, removed_tree, renamed, Tick, IoError, World, Result, ok, M,
}
use emacs_relay.Fs.Calls.{seen, step, mutate}
use emacs_relay.Fs.Keeps.{Relation, IsPreorder, Keeps, Keeps-mutate}

-- A path itself, or a directory above it.
pub data Above (path : FilePath) : FilePath → Type 0 where
  here : Above path path
  up : {p q : FilePath} → Above path p → parent p ≡ some q → Above path q

-- The effects of an operation on a path, and on a destination where it has one.
pub data Touches (op : String) (path to : FilePath) : Effect → Type 0 where
  write_creates : op ≡ "write" → Touches op path to (created path)
  write_opens : op ≡ "write" → Touches op path to (opened path)
  write_empties : op ≡ "write" → Touches op path to (emptied path)
  write_bytes : op ≡ "write" → Touches op path to (wrote path)
  mkdir_makes : {p : FilePath} → op ≡ "mkdir" → Above path p → Touches op path to (made p)
  rmdir_removes : op ≡ "rmdir" → Touches op path to (removed_dir path)
  rmdir_tree : op ≡ "rmdir" → Touches op path to (removed_tree path)
  rmdir_link : op ≡ "rmdir" → Touches op path to (removed path)
  delete_removes : op ≡ "delete" → Touches op path to (removed path)
  rename_moves : op ≡ "rename" → Touches op path to (renamed path to)
  copy_empties : op ≡ "copy" → Touches op path to (emptied to)
  copy_permits : op ≡ "copy" → Touches op path to (chmoded to)
  copy_bytes : op ≡ "copy" → Touches op path to (wrote to)

module _ (P : Effect → Type 0) where
  -- The log has grown by such effects.
  abbrev pub Grew : Relation
  Grew w v = (new : List Effect) × (v.log ≡ new ++ w.log) × All P new

  pub Grew-IsPreorder : IsPreorder Grew
  Grew-IsPreorder = record {
    self = λ w. ([], refl, tt);
    chain = λ u v w h k. (
      k.0 ++ h.0,
      k.1 ∙ ap (λ l. k.0 ++ l) h.1 ∙ sym (append_assoc k.0 h.0 u.log),
      All-append P k.0 h.0 k.2 h.2,
    );
  }

  pub Grew-step : (w : World) → Grew w (step w)
  Grew-step w = ([], refl, tt)

  pub Grew-own :
      (w : World) (effect : Effect) (fs : FileSystem)
      → P effect
      → Grew w (record (step w) { fs = fs; log = effect ∷ w.log })
  Grew-own w effect fs h = (effect ∷ [], refl, (h, tt))

  pub Keeps-call :
      {A : Type 0} (effect : Effect) (f : Tick → FileSystem → Result IoError (A × FileSystem))
      → P effect
      → Keeps Grew (mutate effect f)
  Keeps-call effect f h =
      Keeps-mutate Grew Grew-IsPreorder effect f Grew-step λ w a fs e. Grew-own w effect fs h
