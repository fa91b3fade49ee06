-- ===== src/Handlers/Writes/Ending.antt =====
-- The second call of `write_file` of server/src/fs_handlers.rs, which writes the bytes, in a calm world.
use emacs_relay.Common.{
  ℕ, ◌≡◌, refl, ap, ◌∙◌, String, List, [], ◌++◌, append-nil, drop-nil, length, drop, ◌+◌, ◌%◌,
}
use emacs_relay.Fs.{
  FilePath, Inode, FileSystem, Effect, World, ok, map_err_ok, opened, emptied, wrote,
}
use emacs_relay.Fs.Calm.{IsCalm}
use emacs_relay.Handlers.Stores.{
  created_store, rewritten_store, set_inode, with_file, contents-with_file, contents-set_inode,
  contents-set_twice,
}
use emacs_relay.Fs.Calls.{store}
use emacs_relay.Write.Swap.{mutate_calm, changed_world, store_same}
use emacs_relay.Write.Swap.Staged.{IsNumbered}
use emacs_relay.Write.Swap.Refines.{contents_of}
use emacs_relay.Fs.Files.{truncate_inode, append_all}
use emacs_relay.Fs.Names.{write_all}
use emacs_relay.Handlers.Requests.{told}
use emacs_relay.Handlers.Writes.{Ends}

pub fresh_content : (bytes : List ℕ) (x : List ℕ) → x ≡ [] → bytes ++ drop (length bytes) x ≡ bytes
fresh_content bytes x e =
    ap (λ t. bytes ++ drop (length bytes) t) e
    ∙ ap (λ t. bytes ++ t) (drop-nil (length bytes))
    ∙ append-nil bytes

module _ (w : World) where
  -- The node that a new file begins with.
  abbrev pub blank : Inode
  blank = record {
    metadata = record ((w.env w.now).stamp) {
      size = 0;
      nlink = 1;
      mode = 0o100000 + (w.env w.now).stamp.mode % 0o10000;
    };
    bytes = [];
    target = "";
  }

  pub blank_bytes : (store w.fs.inodes w.fs.next blank w.fs.next).bytes ≡ []
  blank_bytes = ap (λ x. x.bytes) (store_same w.fs.inodes w.fs.next blank)

-- A call that writes to a descriptor.
module _ (path : FilePath) (what : String) (u : World) (calm' : IsCalm u.env) (fd : ℕ)
    (bytes : List ℕ) where
  appends :
      (v : World) × (told what (append_all path fd bytes) u ≡ (ok tt, v))
      × ((node : Inode) × (v.fs ≡ set_inode u.fs fd node)
          × (node.bytes ≡ (u.fs.inodes fd).bytes ++ bytes))
  unfolding append_all
  appends = (
    _,
    map_err_ok _ (append_all path fd bytes) u (mutate_calm (wrote path) _ u calm' refl),
    (_, refl, refl),
  )

  overwrites :
      (v : World) × (told what (write_all path fd bytes) u ≡ (ok tt, v))
      × ((node : Inode) × (v.fs ≡ set_inode u.fs fd node)
          × (node.bytes ≡ bytes ++ drop (length bytes) (u.fs.inodes fd).bytes))
  unfolding write_all
  overwrites = (
    _,
    map_err_ok _ (write_all path fd bytes) u (mutate_calm (wrote path) _ u calm' refl),
    (_, refl, refl),
  )

module _ (w : World) (calm : IsCalm w.env) (numbered : IsNumbered w.fs) where
  -- The contents after a write to the new file, or to one that is there.
  in_new_file :
      (name : FilePath) (bytes : List ℕ) (fs : FileSystem) (node : Inode)
      → fs ≡ set_inode (with_file w.fs name (blank w)) w.fs.next node
      → node.bytes ≡ bytes
      → (q : FilePath) → contents_of fs q ≡ created_store w.fs name bytes q
  in_new_file name bytes fs node at content q =
      ap (λ fs. contents_of fs q) at
      ∙ contents-with_file w.fs numbered name (blank w) node q
      ∙ ap (λ b. created_store w.fs name b q) content

  pub append_made :
      (path : FilePath) (bytes : List ℕ) (name : FilePath)
      → Ends w
          (changed_world (opened path) (with_file w.fs name (blank w)) w)
          (λ fd. told "write(append): " (append_all path fd bytes))
          w.fs.next
          (created_store w.fs name bytes)
  append_made path bytes name =
      let u = changed_world (opened path) (with_file w.fs name (blank w)) w in
      let (v, e, (node, at, content)) = appends path "write(append): " u calm w.fs.next bytes in
      (v, e, in_new_file name bytes v.fs node at (content ∙ ap (λ x. x ++ bytes) (blank_bytes w)))

  pub append_found :
      (path : FilePath) (bytes : List ℕ) (i : ℕ)
      → Ends w
          (changed_world (opened path) w.fs w)
          (λ fd. told "write(append): " (append_all path fd bytes))
          i
          (rewritten_store w.fs i ((w.fs.inodes i).bytes ++ bytes))
  append_found path bytes i =
      let u = changed_world (opened path) w.fs w in
      let (v, e, (node, at, content)) = appends path "write(append): " u calm i bytes in
      (
        v,
        e,
        λ q.
            ap (λ fs. contents_of fs q) at
            ∙ contents-set_inode w.fs i node q
            ∙ ap (λ b. rewritten_store w.fs i b q) content,
      )

  pub overwrite_made :
      (what : String) (effect : Effect) (path : FilePath) (bytes : List ℕ) (name : FilePath)
      → Ends w
          (changed_world effect (with_file w.fs name (blank w)) w)
          (λ fd. told what (write_all path fd bytes))
          w.fs.next
          (created_store w.fs name bytes)
  overwrite_made what effect path bytes name =
      let u = changed_world effect (with_file w.fs name (blank w)) w in
      let (v, e, (node, at, content)) = overwrites path what u calm w.fs.next bytes in
      (v, e, in_new_file name bytes v.fs node at (content ∙ fresh_content bytes _ (blank_bytes w)))

  pub overwrite_found :
      (path : FilePath) (bytes : List ℕ) (i : ℕ)
      → Ends w
          (changed_world (emptied path) (truncate_inode (w.env w.now) w.fs i) w)
          (λ fd. told "write: " (write_all path fd bytes))
          i
          (rewritten_store w.fs i bytes)
  overwrite_found path bytes i =
      let u = changed_world (emptied path) (truncate_inode (w.env w.now) w.fs i) w in
      let (v, e, (node, at, content)) = overwrites path "write: " u calm i bytes in
      (
        v,
        e,
        λ q.
            ap (λ fs. contents_of fs q) at
            ∙ contents-set_twice w.fs i _ node q
            ∙ ap (λ b. rewritten_store w.fs i b q)
                (content ∙ fresh_content bytes _ (ap (λ x. x.bytes) (store_same w.fs.inodes i _))),
      )
