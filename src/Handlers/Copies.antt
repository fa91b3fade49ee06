-- ===== src/Handlers/Copies.antt =====
-- `copy` of server/src/fs_handlers.rs on a regular file, in a calm world: fs::copy empties the destination
-- before it takes the source's content.
pub mod Opened
pub mod Request
use emacs_relay.Common.{
  ℕ, suc, ◌≡◌, refl, ap, sym, subst, ◌∙◌, Bool, true, false, Option, none, some, List, [], ◌++◌,
  drop, length, ◌==◌, if◌then◌else◌,
}
use emacs_relay.Fs.{
  Metadata, is_file, is_dir, FilePath, Inode, FileSystem, Tick, emptied, wrote, IoError, World,
  Result, ok, err, M, pure, ◌>>=◌, ◌>>◌,
}
use emacs_relay.Fs.Calls.{
  no_such_file, is_a_directory, query, set_metadata, file_metadata, set_permissions, store, touch,
  set_permissions,
}
use emacs_relay.Fs.Names.{write_all}
use emacs_relay.Fs.Directories.{follow, target_of, require, new_inode}
use emacs_relay.Fs.Files.{
  open_for, open_read, open_truncate, contents, permit, copy, neither_regular, truncate_inode,
}
use emacs_relay.Fs.Calm.{IsCalm, Answers, Answers-query, Answers-file_metadata, Answers-pure}
use emacs_relay.Write.Swap.{
  Steps, Steps-intro, Steps->>=, Steps-then, Steps-look, mutate_calm, changed_world, store_same,
  store_other,
}
use emacs_relay.Write.Swap.Staged.{IsNumbered, below_differs}
use emacs_relay.Write.Swap.Refines.{Store, content_at, contents_of}
use emacs_relay.Handlers.Stores.{
  at, created_store, rewritten_store, set_inode, with_file, content-set_inode, contents-with_file,
  contents-set_inode, contents-set_twice,
}
use emacs_relay.Handlers.Moves.{content-set_metadata}
use emacs_relay.Handlers.Writes.Ending.{blank, blank_bytes, fresh_content}

-- The world after a change of nothing but the metadata of an inode, or of nothing.
record IsAs (u : World) (v : World) : Type 0 where
  env : v.env ≡ u.env
  names : (q : FilePath) → v.fs.names q ≡ u.fs.names q
  bytes : (j : ℕ) → (v.fs.inodes j).bytes ≡ (u.fs.inodes j).bytes

module _ (to : FilePath) (i out : ℕ) (u : World) (calm : IsCalm u.env)
    (empty : (u.fs.inodes out).bytes ≡ []) where
  -- The destination takes the source's content as it is now.
  abbrev Filled : Unit {0} → World → Type 0
  Filled _ v =
      (q : FilePath) → contents_of v.fs q ≡ rewritten_store u.fs out (u.fs.inodes i).bytes q

  content-IsAs : (v : World) → IsAs u v → (o : Option ℕ) → content_at v.fs o ≡ content_at u.fs o
  content-IsAs v h none = refl
  content-IsAs v h (some j) = ap some (h.bytes j)

  fills : (v : World) → IsAs u v → Steps (contents i >>= λ bytes. write_all to out bytes) v Filled
  unfolding contents write_all
  fills v h =
      let calm' = subst IsCalm (sym h.env) calm in
      Steps-look _ (contents i) _ v (v.fs.inodes i).bytes
        (Answers-query v calm' (λ t fs. ok (fs.inodes i).bytes))
        λ n.
          let s = (v.fs.inodes i).bytes in
          Steps-intro _ (write_all to out s) (record v { now = n }) tt _
            (mutate_calm (wrote to) _ (record v { now = n }) calm' refl)
            λ q.
              let whole =
                fresh_content s (v.fs.inodes out).bytes (h.bytes out ∙ empty) ∙ h.bytes i in
              content-set_inode v.fs out _ (v.fs.names q)
              ∙ ap
                  (λ o.
                    if at o out
                    then some (s ++ drop (length s) (v.fs.inodes out).bytes)
                    else content_at v.fs o)
                  (h.names q)
              ∙ ap (λ b. if at (u.fs.names q) out then some b else content_at v.fs (u.fs.names q))
                  whole
              ∙ ap (λ c. if at (u.fs.names q) out then some (u.fs.inodes i).bytes else c)
                  (content-IsAs v h (u.fs.names q))

  bytes-set_metadata :
      (fs : FileSystem) (m : Metadata) (j : ℕ)
      → ((set_metadata fs out m).inodes j).bytes ≡ (fs.inodes j).bytes
  bytes-set_metadata fs m j =
      ap (λ c. bytes_or (fs.inodes j).bytes c) (content-set_metadata fs out m (some j))
    where
      bytes_or : List ℕ → Option (List ℕ) → List ℕ
      bytes_or d none = d
      bytes_or d (some b) = b

  permits :
      (source : Metadata) (b : Bool) (n : ℕ)
      → Steps
          (if b then set_permissions to out source.mode else pure tt)
          (record u { now = n })
          (λ _. IsAs u)
  unfolding set_permissions
  permits source true n =
      Steps-intro _ (set_permissions to out source.mode) (record u { now = n }) tt _
        (mutate_calm _ _ (record u { now = n }) calm refl)
        (record { env = refl; names = λ q. refl; bytes = λ j. bytes-set_metadata u.fs _ j })
  permits source false n =
      Steps-intro _ (pure tt) (record u { now = n }) tt (record u { now = n }) refl
        (record { env = refl; names = λ q. refl; bytes = λ j. refl })

  -- What a copy does once its destination is open.
  pub after_opening :
      (source : Metadata)
      → Steps
          (file_metadata out >>= λ m.
            permit to out source m >> (contents i >>= λ bytes. write_all to out bytes))
          u
          Filled
  after_opening source =
      Steps-look _ (file_metadata out) _ u (u.fs.inodes out).metadata
        (Answers-file_metadata u calm out)
        λ n.
          Steps->>= (λ _. IsAs u) Filled _ _ (record u { now = n })
            (permits source (is_file (u.fs.inodes out).metadata) n) λ _ v h. fills v h
