-- ===== src/Handlers/Stores.antt =====
-- What a client sees of the files, std::fs below server/src/fs_handlers.rs: the bytes under each path, and how
-- a change of one inode or of one name shows in them.
use emacs_relay.Common.{
  ℕ, suc, ◌≡◌, refl, ap, ◌∙◌, Bool, true, false, Option, none, some, List, str_eq, ◌==◌, ==_iff,
  if◌then◌else◌,
}
use emacs_relay.Fs.{FilePath, Inode, FileSystem}
use emacs_relay.Fs.Calls.{store, assign}
use emacs_relay.Write.Swap.{store_other}
use emacs_relay.Write.Swap.Staged.{IsNumbered, below_differs}
use emacs_relay.Write.Swap.Refines.{Store, content_at, contents_of}

-- Whether a name stands for an inode.
abbrev pub at : Option ℕ → ℕ → Bool
at none i = false
at (some j) i = j == i

-- A file under a new name, and other bytes in a file, under all of its names.
abbrev pub created_store : FileSystem → FilePath → List ℕ → Store
created_store fs name bytes q = if str_eq q name then some bytes else contents_of fs q

abbrev pub rewritten_store : FileSystem → ℕ → List ℕ → Store
rewritten_store fs i bytes q = if at (fs.names q) i then some bytes else contents_of fs q

abbrev pub set_inode : FileSystem → ℕ → Inode → FileSystem
set_inode fs i node = record fs { inodes = store fs.inodes i node }

pub content-set_inode :
    (fs : FileSystem) (i : ℕ) (node : Inode) (o : Option ℕ)
    → content_at (set_inode fs i node) o ≡ (if at o i then some node.bytes else content_at fs o)
content-set_inode fs i node none = refl
content-set_inode fs i node (some j) = go (j == i)
  where
    go :
        (b : Bool)
        → some (if b then node else fs.inodes j).bytes
          ≡ (if b then some node.bytes else some (fs.inodes j).bytes)
    go true = refl
    go false = refl

-- A file made under a new name, once it has its bytes.
abbrev pub with_file : FileSystem → FilePath → Inode → FileSystem
with_file fs name node = record fs {
  names = assign fs.names name (some fs.next);
  inodes = store fs.inodes fs.next node;
  next = suc fs.next;
}

module _ (fs : FileSystem) (numbered : IsNumbered fs) where
  -- An old name does not stand for the new inode.
  old_name :
      (q : FilePath) (o : Option ℕ)
      → fs.names q ≡ o
      → (node : Inode)
      → (at o fs.next ≡ false)
        × (content_at (record fs { inodes = store fs.inodes fs.next node }) o ≡ content_at fs o)
  old_name q none e node = (refl, refl)
  old_name q (some j) e node =
      let other = below_differs j fs.next (numbered.below q j e) in
      (other, ap (λ x. some x.bytes) (store_other fs.inodes fs.next node j other))

  pub contents-with_file :
      (name : FilePath) (empty node : Inode) (q : FilePath)
      → contents_of (set_inode (with_file fs name empty) fs.next node) q
        ≡ created_store fs name node.bytes q
  contents-with_file name empty node q =
      content-set_inode (with_file fs name empty) fs.next node ((with_file fs name empty).names q)
      ∙ go (str_eq q name)
    where
      go :
          (b : Bool)
          → (if at (if b then some fs.next else fs.names q) fs.next
              then some node.bytes
              else content_at (with_file fs name empty) (if b then some fs.next else fs.names q))
            ≡ (if b then some node.bytes else contents_of fs q)
      go true = rw ((==_iff fs.next fs.next).1 refl) refl
      go false =
          let (other, same) = old_name q (fs.names q) refl empty in
          ap (λ b. if b then some node.bytes else content_at (with_file fs name empty) (fs.names q))
            other
          ∙ same

-- A file that is there, with or without its bytes before the write.
pub contents-set_inode :
    (fs : FileSystem) (i : ℕ) (node : Inode) (q : FilePath)
    → contents_of (set_inode fs i node) q ≡ rewritten_store fs i node.bytes q
contents-set_inode fs i node q = content-set_inode fs i node (fs.names q)

pub contents-set_twice :
    (fs : FileSystem) (i : ℕ) (before node : Inode) (q : FilePath)
    → contents_of (set_inode (set_inode fs i before) i node) q ≡ rewritten_store fs i node.bytes q
contents-set_twice fs i before node q =
    content-set_inode (set_inode fs i before) i node (fs.names q)
    ∙ ap (λ c. if at (fs.names q) i then some node.bytes else c)
        (content-set_inode fs i before (fs.names q))
    ∙ absorbed (at (fs.names q) i)
  where
    absorbed :
        (b : Bool)
        → (if b
            then some node.bytes
            else if b
            then some before.bytes
            else content_at fs (fs.names q))
          ≡ (if b then some node.bytes else content_at fs (fs.names q))
    absorbed true = refl
    absorbed false = refl
