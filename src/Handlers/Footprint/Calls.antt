-- ===== src/Handlers/Footprint/Calls.antt =====
-- What the calls of std::fs that the handlers of server/src/fs_handlers.rs make may change.
use emacs_relay.Common.{
  ℕ, refl, Bool, true, false, Option, none, some, List, [], ◌∷◌, if◌then◌else◌,
}
use emacs_relay.Fs.{
  Metadata, is_symlink, is_file, is_dir, FilePath, Effect, created, chmoded, wrote, removed, made,
  opened, emptied, removed_dir, removed_tree, renamed, IoError, World, err,
}
use emacs_relay.Fs.Calls.{seen, step, create_new, set_permissions}
use emacs_relay.Fs.Names.{write_all, rename, remove_file}
use emacs_relay.Fs.Directories.{
  metadata, create_dir, remove_dir, tree_at, cut_tree, remove_tree, remove_dir_all, require,
  is_dir_at, exists, not_a_directory,
}
use emacs_relay.Fs.Files.{
  open_truncate, open_append, append_all, open_read, contents, write_file_at, permit, copy,
}
use emacs_relay.Fs.Keeps.{
  Keeps, Keeps-intro, Keeps-apply, Keeps-pure, Keeps-raise, Keeps->>=, Keeps-if,
  Keeps-symlink_metadata, Keeps-file_metadata,
}
use emacs_relay.Handlers.Footprint.{Grew, Grew-IsPreorder, Grew-step, Keeps-call}

module _ (P : Effect → Type 0) where
  abbrev R : World → World → Type 0
  R = Grew P

  Keeps-metadata : (path : FilePath) → Keeps R (metadata path)
  unfolding metadata Keeps
  Keeps-metadata path = Grew-step P

  pub Keeps-exists : (E : Type 0) (path : FilePath) → Keeps R (exists {E = E} path)
  unfolding exists
  Keeps-exists E path = Keeps-intro R _ (Keeps-apply R _ (Keeps-metadata path))

  pub Keeps-is_dir_at : (path : FilePath) → Keeps R (is_dir_at path)
  unfolding is_dir_at
  Keeps-is_dir_at path = Keeps-intro R _ (Keeps-apply R _ (Keeps-metadata path))

  pub Keeps-require : (b : Bool) (e : IoError) → Keeps R (require b e)
  Keeps-require true e = Keeps-pure R (Grew-IsPreorder P) IoError tt
  Keeps-require false e = Keeps-raise R (Grew-IsPreorder P) (Unit {0}) e

  module _ (path : FilePath) where
    pub Keeps-create_new : P (created path) → Keeps R (create_new path)
    unfolding create_new
    Keeps-create_new = Keeps-call P (created path) _

    pub Keeps-write_all :
        (fd : ℕ) (bytes : List ℕ) → P (wrote path) → Keeps R (write_all path fd bytes)
    unfolding write_all
    Keeps-write_all fd bytes = Keeps-call P (wrote path) _

    pub Keeps-append_all :
        (fd : ℕ) (bytes : List ℕ) → P (wrote path) → Keeps R (append_all path fd bytes)
    unfolding append_all
    Keeps-append_all fd bytes = Keeps-call P (wrote path) _

    pub Keeps-open_append : P (opened path) → Keeps R (open_append path)
    unfolding open_append
    Keeps-open_append = Keeps-call P (opened path) _

    pub Keeps-open_truncate : P (emptied path) → Keeps R (open_truncate path)
    unfolding open_truncate
    Keeps-open_truncate = Keeps-call P (emptied path) _

    pub Keeps-write_file_at :
        (bytes : List ℕ) → P (emptied path) → P (wrote path) → Keeps R (write_file_at path bytes)
    unfolding write_file_at
    Keeps-write_file_at bytes e h =
        Keeps->>= R (Grew-IsPreorder P) _ _ (Keeps-open_truncate e) λ fd. Keeps-write_all fd bytes h

    pub Keeps-rename : (to : FilePath) → P (renamed path to) → Keeps R (rename path to)
    unfolding rename
    Keeps-rename to = Keeps-call P (renamed path to) _

    pub Keeps-remove_file : P (removed path) → Keeps R (remove_file path)
    unfolding remove_file
    Keeps-remove_file = Keeps-call P (removed path) _

    pub Keeps-remove_dir : P (removed_dir path) → Keeps R (remove_dir path)
    unfolding remove_dir
    Keeps-remove_dir = Keeps-call P (removed_dir path) _

    pub Keeps-create_dir : P (made path) → Keeps R (create_dir path)
    unfolding create_dir
    Keeps-create_dir = Keeps-call P (made path) _

    pub Keeps-set_permissions :
        (fd mode : ℕ) → P (chmoded path) → Keeps R (set_permissions path fd mode)
    unfolding set_permissions
    Keeps-set_permissions fd mode = Keeps-call P (chmoded path) _

    -- The removal of a tree, whole or broken off.
    cut-Grew :
        (w : World) (fault : Option IoError) → P (removed_tree path) → R w (cut_tree path fault w).1
    cut-Grew w none h = (removed_tree path ∷ [], refl, (h, tt))
    cut-Grew w (some e) h = (removed_tree path ∷ [], refl, (h, tt))

    tree-Grew : (w : World) (o : Option ℕ) → P (removed_tree path) → R w (tree_at path o w).1
    tree-Grew w none h = Grew-step P w
    tree-Grew w (some i) h = go (is_dir ((seen w).inodes i).metadata)
      where
        go :
            (b : Bool)
            → R w
                (if b then cut_tree path (w.env w.now).fault w else (err not_a_directory, step w)).1
        go true = cut-Grew w (w.env w.now).fault h
        go false = Grew-step P w

    Keeps-remove_tree : P (removed_tree path) → Keeps R (remove_tree path)
    unfolding remove_tree
    Keeps-remove_tree h = Keeps-intro R _ (λ w. tree-Grew w ((seen w).names path) h)

    pub Keeps-remove_dir_all :
        P (removed path) → P (removed_tree path) → Keeps R (remove_dir_all path)
    unfolding remove_dir_all
    Keeps-remove_dir_all link tree =
        Keeps->>= R (Grew-IsPreorder P) _ _
          (Keeps-symlink_metadata R (Grew-IsPreorder P) (Grew-step P) path)
          λ m.
            Keeps-if R (Grew-IsPreorder P) (is_symlink m) _ _ (Keeps-remove_file link)
              (Keeps-remove_tree tree)

  -- A copy changes its destination alone.
  Keeps-permit :
      (to : FilePath) (out : ℕ) (source m : Metadata)
      → P (chmoded to)
      → Keeps R (permit to out source m)
  Keeps-permit to out source m h =
      Keeps-if R (Grew-IsPreorder P) (is_file m) _ _ (Keeps-set_permissions to out source.mode h)
        (Keeps-pure R (Grew-IsPreorder P) IoError tt)

  Keeps-open_read : (path : FilePath) → Keeps R (open_read path)
  unfolding open_read Keeps
  Keeps-open_read path = Grew-step P

  Keeps-contents : (fd : ℕ) → Keeps R (contents fd)
  unfolding contents Keeps
  Keeps-contents fd = Grew-step P

  pub Keeps-copy :
      (from to : FilePath) → P (emptied to) → P (chmoded to) → P (wrote to) → Keeps R (copy from to)
  unfolding copy
  Keeps-copy from to empties permits bytes =
      let Q = Grew-IsPreorder P in
      let looks = λ (fd : ℕ). Keeps-file_metadata R Q (Grew-step P) fd in
      Keeps->>= R Q _ _ (Keeps-open_read from) λ fd. Keeps->>= R Q _ _ (looks fd) λ m.
        Keeps->>= R Q _ _ (Keeps-require (is_file m) _) λ _.
          Keeps->>= R Q _ _ (Keeps-open_truncate to empties) λ out.
            Keeps->>= R Q _ _ (looks out) λ n.
              Keeps->>= R Q _ _ (Keeps-permit to out m n permits) λ _.
                Keeps->>= R Q _ _ (Keeps-contents fd)
                  λ content. Keeps-write_all to out content bytes
