-- ===== src/Handlers/Moves.antt =====
-- `rename` of server/src/fs_handlers.rs on a file, in a calm world.
pub mod Request
use emacs_relay.Common.{
  ℕ, suc, ◌≡◌, refl, ap, sym, ◌∙◌, inl, inr, String, ◌<>◌, Bool, true, false, Bool-cases, Option,
  none, some, List, [], str_eq, eq_refl, ◌==◌, ==_iff, if◌then◌else◌,
}
use emacs_relay.Fs.{
  Metadata, is_dir, FilePath, FileSystem, Tick, renamed, IoError, World, Result, ok, err, M, pure,
  raise, ◌>>=◌, ◌>>◌, >>=_ok, >>=_err, map_err, map_err_ok, map_err_err,
}
use emacs_relay.Fs.Calls.{no_such_file, is_a_directory, set_metadata, touch, query, settle}
use emacs_relay.Fs.Names.{drop_target, move_name, rename_onto, rename, unlink_inode}
use emacs_relay.Fs.Directories.{target_of, metadata, exists, exists_answer}
use emacs_relay.Fs.Calm.{IsCalm, Answers, Answers-query}
use emacs_relay.Json.{Json}
use emacs_relay.Json.Object.{object}
use emacs_relay.Control.{Host}
use emacs_relay.Handlers.{Base64}
use emacs_relay.Handlers.Writes.{Writes}
use emacs_relay.Handlers.Requests.{told, refuse, flag_of, path_of, done, taken, rename_request}
use emacs_relay.Write.Swap.{mutate_calm, changed_world}
use emacs_relay.Write.Swap.Refines.{Store, content_at, contents_of}

abbrev pub is_there : {E A : Type 0} → Result E A → Bool
is_there (ok a) = true
is_there (err e) = false

-- The file has the new name and not the old one.
abbrev pub moved_store : FileSystem → FilePath → FilePath → ℕ → Store
moved_store fs path to i q =
    if str_eq q to
    then some (fs.inodes i).bytes
    else if str_eq q path
    then none
    else contents_of fs q

abbrev pub moved_onto : FileSystem → FilePath → FilePath → ℕ → Option ℕ → Result String Store
moved_onto fs path to i none = ok (moved_store fs path to i)
moved_onto fs path to i (some j) =
    if j == i
    then ok (contents_of fs)
    else if is_dir (fs.inodes j).metadata
    then err ("rename: " <> is_a_directory.shown)
    else ok (moved_store fs path to i)

abbrev pub moved : FileSystem → FilePath → FilePath → Option ℕ → Result String Store
moved fs path to none = err ("rename: " <> no_such_file.shown)
moved fs path to (some i) = moved_onto fs path to i (fs.names to)

-- The abstract move: what the paths then hold, or why it is refused.
abbrev pub move_answer : Bool → FilePath → FilePath → FileSystem → Result String Store
move_answer ok_if_exists path to fs =
    if (if ok_if_exists then false else is_there (target_of fs to))
    then err ("rename: destination exists: " <> to)
    else moved fs path to (fs.names path)

-- A change of metadata shows in no content.
pub content-set_metadata :
    (fs : FileSystem) (i : ℕ) (m : Metadata) (o : Option ℕ)
    → content_at (set_metadata fs i m) o ≡ content_at fs o
content-set_metadata fs i m none = refl
content-set_metadata fs i m (some j) = go (j == i) refl
  where
    go :
        (b : Bool)
        → (j == i) ≡ b
        → some (if b then record (fs.inodes i) { metadata = m } else fs.inodes j).bytes
          ≡ some (fs.inodes j).bytes
    go true e = ap (λ k. some (fs.inodes k).bytes) (sym ((==_iff j i).0 e))
    go false e = refl

content-drop_target :
    (t : Tick) (fs : FileSystem) (old o : Option ℕ)
    → content_at (drop_target t fs old) o ≡ content_at fs o
content-drop_target t fs none o = refl
content-drop_target t fs (some j) o = content-set_metadata fs j _ o

pub contents-move_name :
    (t : Tick) (fs : FileSystem) (path to : FilePath) (i : ℕ) (q : FilePath)
    → contents_of (move_name t fs path to i) q ≡ moved_store fs path to i q
contents-move_name t fs path to i q = go (str_eq q to) (str_eq q path)
  where
    same : (o : Option ℕ) → content_at (move_name t fs path to i) o ≡ content_at fs o
    same o =
        content-set_metadata (drop_target t fs (fs.names to)) i _ o
        ∙ content-drop_target t fs (fs.names to) o

    go :
        (b c : Bool)
        → content_at
            (move_name t fs path to i)
            (if b then some i else if c then none else fs.names q)
          ≡ (if b then some (fs.inodes i).bytes else if c then none else contents_of fs q)
    go true c = same (some i)
    go false true = refl
    go false false = same (fs.names q)
