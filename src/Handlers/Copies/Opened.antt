-- ===== src/Handlers/Copies/Opened.antt =====
-- The whole of fs::copy for `copy` of server/src/fs_handlers.rs, in a calm world.
use emacs_relay.Common.{
  ℕ, ◌≡◌, refl, ap, sym, subst, ◌∙◌, Bool, true, false, Option, none, some, [], ◌==◌, if◌then◌else◌,
}
use emacs_relay.Fs.{
  is_file, is_dir, FilePath, Inode, FileSystem, Tick, emptied, IoError, World, Result, ok, err,
}
use emacs_relay.Fs.Calls.{no_such_file, is_a_directory, query, file_metadata, touch}
use emacs_relay.Fs.Directories.{follow, target_of, require, new_inode}
use emacs_relay.Fs.Files.{open_for, open_read, open_truncate, copy, neither_regular, truncate_inode}
use emacs_relay.Fs.Calm.{IsCalm, Answers, Answers-query, Answers-file_metadata}
use emacs_relay.Write.Swap.{
  Steps, Steps-then, Steps-look, mutate_calm, changed_world, store_same, store_other,
}
use emacs_relay.Write.Swap.Staged.{IsNumbered, below_differs}
use emacs_relay.Write.Swap.Refines.{Store, contents_of}
use emacs_relay.Handlers.Stores.{
  created_store, rewritten_store, with_file, contents-with_file, contents-set_inode,
  contents-set_twice,
}
use emacs_relay.Handlers.Writes.Ending.{blank, blank_bytes}
use emacs_relay.Handlers.Copies.{after_opening}

-- What a path leads to has a name.
has_name :
    (fs : FileSystem) (path : FilePath) (i : ℕ)
    → target_of fs path ≡ ok i
    → (p : FilePath) × (fs.names p ≡ some i)
has_name fs path i = go (follow 40 fs path)
  where
    at_name :
        (name : FilePath) (o : Option ℕ)
        → fs.names name ≡ o
        → elim o as (λ _. Result IoError ℕ) [ none ↦ err no_such_file | some j ↦ ok j ] ≡ ok i
        → (p : FilePath) × (fs.names p ≡ some i)
    at_name name none e h = cc
    at_name name (some j) e h = (name, e ∙ ap (λ r. number_of r) h)
      where
        number_of : Result IoError ℕ → Option ℕ
        number_of (ok j) = some j
        number_of (err e) = none

    go :
        (r : Result IoError FilePath)
        → elim r as (λ _. Result IoError ℕ) [
          | ok name ↦ elim (fs.names name) as (λ _. Result IoError ℕ) [
            | none ↦ err no_such_file
            | some j ↦ ok j
          ]
          | err e ↦ err e
        ]
          ≡ ok i
        → (p : FilePath) × (fs.names p ≡ some i)
    go (ok name) h = at_name name (fs.names name) refl h
    go (err e) h = cc

-- What the paths hold after a copy of a file to a name. A file that is copied onto itself loses its content.
abbrev pub copied : FileSystem → ℕ → FilePath → Option ℕ → Store
copied fs i name none = created_store fs name (fs.inodes i).bytes
copied fs i name (some j) = rewritten_store fs j (if i == j then [] else (fs.inodes i).bytes)

module _ (w : World) (calm : IsCalm w.env) (numbered : IsNumbered w.fs) (from to name : FilePath)
    (i : ℕ) (source : target_of w.fs from ≡ ok i)
    (regular : is_file (w.fs.inodes i).metadata ≡ true) (lands : follow 40 w.fs to ≡ ok name) where
  abbrev Copied : Option ℕ → Unit {0} → World → Type 0
  Copied o _ v = (q : FilePath) → contents_of v.fs q ≡ copied w.fs i name o q

  -- A destination that is new, and one that is there.
  opened_new :
      (n : ℕ)
      → w.fs.names name ≡ none
      → let u = record w { now = n } in
        open_truncate to u
        ≡ (ok w.fs.next, changed_world (emptied to) (with_file w.fs name (blank u)) u)
  unfolding open_truncate
  opened_new n e =
      let u = record w { now = n } in
      mutate_calm (emptied to) _ u {r = ok (w.fs.next, with_file w.fs name (blank u))} calm (
        ap
          (λ (r : Result IoError FilePath). elim r as (λ _. Result IoError (ℕ × FileSystem)) [
            | ok name ↦ open_for truncate_inode (u.env n) w.fs name
            | err e ↦ err e
          ])
          lands
        ∙ ap
            (λ (o : Option ℕ). elim o as (λ _. Result IoError (ℕ × FileSystem)) [
              | none ↦ ok (w.fs.next, new_inode (u.env n) w.fs name 0o100000)
              | some j ↦
                  if is_dir (w.fs.inodes j).metadata
                  then err is_a_directory
                  else ok (j, truncate_inode (u.env n) w.fs j)
            ])
            e)

  opened_old :
      (n j : ℕ)
      → w.fs.names name ≡ some j
      → is_dir (w.fs.inodes j).metadata ≡ false
      → let u = record w { now = n } in
        open_truncate to u ≡ (ok j, changed_world (emptied to) (truncate_inode (u.env n) w.fs j) u)
  unfolding open_truncate
  opened_old n j e d =
      let u = record w { now = n } in
      mutate_calm (emptied to) _ u {r = ok (j, truncate_inode (u.env n) w.fs j)} calm (
        ap
          (λ (r : Result IoError FilePath). elim r as (λ _. Result IoError (ℕ × FileSystem)) [
            | ok name ↦ open_for truncate_inode (u.env n) w.fs name
            | err e ↦ err e
          ])
          lands
        ∙ ap
            (λ (o : Option ℕ). elim o as (λ _. Result IoError (ℕ × FileSystem)) [
              | none ↦ ok (w.fs.next, new_inode (u.env n) w.fs name 0o100000)
              | some j ↦
                  if is_dir (w.fs.inodes j).metadata
                  then err is_a_directory
                  else ok (j, truncate_inode (u.env n) w.fs j)
            ])
            e
        ∙ ap
            (λ (b : Bool).
              if b then err is_a_directory else ok (j, truncate_inode (u.env n) w.fs j))
            d)

  started :
      (o : Option ℕ)
      → ((n : ℕ)
          → (out : ℕ) × (u : World) × (open_truncate to (record w { now = n }) ≡ (ok out, u))
            × (u.env ≡ w.env)
            × ((u.fs.inodes out).bytes ≡ [])
            × ((q : FilePath)
                → rewritten_store u.fs out (u.fs.inodes i).bytes q ≡ copied w.fs i name o q))
      → Steps (copy from to) w (Copied o)
  unfolding copy open_read query Steps
  started o opens =
      let m = (w.fs.inodes i).metadata in
      Steps-look (Copied o) (open_read from) _ w i
        (subst (λ r. Answers (open_read from) w r) source
          (Answers-query w calm (λ t fs. target_of fs from)))
        λ n0.
          Steps-look (Copied o) (file_metadata i) _ (record w { now = n0 }) m
            (Answers-file_metadata (record w { now = n0 }) calm i)
            λ n1.
              Steps-then (Copied o) (require (is_file m) neither_regular) _ (record w { now = n1 })
                tt (record w { now = n1 })
                (ap (λ b. require b neither_regular (record w { now = n1 })) regular)
                (let (out, u, run, env, empty, same) = opens n1 in
                  Steps-then (Copied o) (open_truncate to) _ (record w { now = n1 }) out u run
                    (let (a, v, e, h) =
                        after_opening to i out u (subst IsCalm (sym env) calm) empty m in
                      (a, v, e, λ q. h q ∙ same q)))

  pub copy-Copies :
      (o : Option ℕ)
      → w.fs.names name ≡ o
      → ((j : ℕ) → o ≡ some j → is_dir (w.fs.inodes j).metadata ≡ false)
      → Steps (copy from to) w (λ _ v. (q : FilePath) → contents_of v.fs q ≡ copied w.fs i name o q)
  copy-Copies none e file = started none λ n.
      let u = record w { now = n } in
      let fs' = with_file w.fs name (blank u) in
      let (p, named) = has_name w.fs from i source in
      let kept : (fs'.inodes i).bytes ≡ (w.fs.inodes i).bytes =
        ap (λ x. x.bytes)
          (store_other w.fs.inodes w.fs.next (blank u) i
            (below_differs i w.fs.next (numbered.below p i named))) in
      let node : Inode = record (blank u) { bytes = (fs'.inodes i).bytes } in
      (
        w.fs.next,
        changed_world (emptied to) fs' u,
        opened_new n e,
        refl,
        blank_bytes u,
        λ q.
            sym (contents-set_inode fs' w.fs.next node q)
            ∙ contents-with_file w.fs numbered name (blank u) node q
            ∙ ap (λ b. created_store w.fs name b q) kept,
      )
  copy-Copies (some j) e file = started (some j) λ n.
      let u = record w { now = n } in
      let fs' = truncate_inode (u.env n) w.fs j in
      let node : Inode = record (fs'.inodes j) { bytes = (fs'.inodes i).bytes } in
      (
        j,
        changed_world (emptied to) fs' u,
        opened_old n j e (file j refl),
        refl,
        ap (λ x. x.bytes) (store_same w.fs.inodes j _),
        λ q.
            sym (contents-set_inode fs' j node q)
            ∙ contents-set_twice w.fs j _ node q
            ∙ ap (λ b. rewritten_store w.fs j b q) (left_of (u.env n) (i == j)),
      )
    where
      left_of :
          (t : Tick) (b : Bool)
          → (if b
              then record (w.fs.inodes j) {
                metadata = record (touch t (w.fs.inodes j).metadata) { size = 0 };
                bytes = [];
              }
              else w.fs.inodes i).bytes
            ≡ (if b then [] else (w.fs.inodes i).bytes)
      left_of t true = refl
      left_of t false = refl
