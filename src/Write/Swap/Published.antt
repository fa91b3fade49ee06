-- ===== src/Write/Swap/Published.antt =====
-- The publication of the temporary file, server/src/revisions/write.rs, in a calm world: by a rename over
-- the path, or by a link where nothing is.
use emacs_relay.Common.{
  ℕ, ◌+◌, ◌-◌, ◌≡◌, refl, ap, ◌∙◌, false, Option, none, some, List, str_eq, eq_refl, ◌==◌,
  if◌then◌else◌, arith,
}
use emacs_relay.Fs.{is_dir, FilePath, Tick, renamed, linked, removed, World, ok, err}
use emacs_relay.Fs.Calls.{no_such_file, is_a_directory, assign, touch}
use emacs_relay.Fs.Names.{
  unlink_inode, link_inode, drop_target, move_name, rename_onto, rename, link_onto, hard_link,
  remove_file,
}
use emacs_relay.Fs.Calm.{IsCalm}
use emacs_relay.Write.Swap.{Steps, Steps-intro, mutate_calm, changed_world, Temp}
use emacs_relay.Write.Swap.After.{
  After, Temp-After, After-set, After-drop, not_a_dir, apart', renamed_names, linked_names,
}

module _ (w : World) (t path : FilePath) (apart : str_eq path t ≡ false) where
  module _ (free : w.fs.names t ≡ none) where
    -- What is published: the new file under the path.
    abbrev pub IsReplaced : List ℕ → World → Type 0
    IsReplaced bytes v =
        (v.env ≡ w.env) × After w (assign w.fs.names path (some w.fs.next)) 1 bytes v.fs

    module _ (bytes : List ℕ) (v : World) (h : Temp w t bytes v) where
      at_temp : v.fs.names t ≡ some w.fs.next
      at_temp = h.names t ∙ rw (eq_refl t) refl

      at_path : v.fs.names path ≡ w.fs.names path
      at_path = h.names path ∙ rw apart refl

      -- The old file is another one and no directory.
      abbrev pub IsReplaceable : Option ℕ → Type 0
      IsReplaceable o =
          (j : ℕ)
          → o ≡ some j
          → ((j == w.fs.next) ≡ false) × (is_dir (v.fs.inodes j).metadata ≡ false)

      rename_onto_lem :
          (tick : Tick) (o : Option ℕ)
          → IsReplaceable o
          → rename_onto tick v.fs t path w.fs.next o ≡ ok (tt, move_name tick v.fs t path w.fs.next)
      rename_onto_lem tick none r = refl
      rename_onto_lem tick (some j) r = rw ((r j refl).0, (r j refl).1) refl

      rename_lem :
          IsCalm v.env
          → IsReplaceable (v.fs.names path)
          → rename t path v ≡ (
            ok tt,
            changed_world (renamed t path) (move_name (v.env v.now) v.fs t path w.fs.next) v,
          )
      unfolding rename
      rename_lem calm r =
          mutate_calm (renamed t path)
            (λ tick fs. elim (fs.names t) [
              | none ↦ err no_such_file
              | some i ↦ rename_onto tick fs t path i (fs.names path)
            ])
            v {r = ok (tt, move_name (v.env v.now) v.fs t path w.fs.next)} calm
            (rw at_temp (rename_onto_lem (v.env v.now) (v.fs.names path) r))

      -- Over the old file.
      pub Steps-rename :
          IsCalm v.env
          → IsReplaceable (v.fs.names path)
          → Steps (rename t path) v (λ _. IsReplaced bytes)
      Steps-rename calm r =
          let tick = v.env v.now in
          let fs' = drop_target tick v.fs (v.fs.names path) in
          let after =
            After-drop w bytes v.fs tick _ 1 (v.fs.names path) (Temp-After w bytes t v h)
              (λ j q. (r j q).0) in
          Steps-intro _ (rename t path) v tt _ (rename_lem calm r) (
            h.env,
            After-set w bytes fs' _ _ 1 1 (touch tick (fs'.inodes w.fs.next).metadata)
                (assign (assign v.fs.names t none) path (some w.fs.next)) after after.regular
                after.nlink after.size
                λ q.
                  ap (λ o. if str_eq q path then some w.fs.next else if str_eq q t then none else o)
                    (h.names q)
                  ∙ renamed_names w t path apart free q,
          )

      hard_link_lem :
          IsCalm v.env
          → v.fs.names path ≡ none
          → hard_link t path v ≡ (
            ok tt,
            changed_world
                (linked t path)
                (record (link_inode (v.env v.now) v.fs w.fs.next) {
                  names = assign v.fs.names path (some w.fs.next);
                })
                v,
          )
      unfolding hard_link
      hard_link_lem calm nothing =
          mutate_calm (linked t path)
            (λ tick fs. elim (fs.names t) [
              | none ↦ err no_such_file
              | some i ↦ link_onto tick fs path i (fs.names path)
            ])
            v
            {r = ok (
              tt,
              record (link_inode (v.env v.now) v.fs w.fs.next) {
                names = assign v.fs.names path (some w.fs.next);
              },
            )}
            calm (rw (at_temp, nothing) refl)

      -- A second name.
      abbrev pub IsLinked : World → Type 0
      IsLinked u =
          (u.env ≡ w.env)
          × After w (assign (assign w.fs.names t (some w.fs.next)) path (some w.fs.next)) 2 bytes
              u.fs

      pub Steps-hard_link :
          IsCalm v.env → v.fs.names path ≡ none → Steps (hard_link t path) v (λ _. IsLinked)
      Steps-hard_link calm nothing =
          let m = (v.fs.inodes w.fs.next).metadata in
          let after = Temp-After w bytes t v h in
          Steps-intro _ (hard_link t path) v tt _ (hard_link_lem calm nothing) (
            h.env,
            After-set w bytes v.fs _ _ 1 2 (record (touch (v.env v.now) m) { nlink = m.nlink + 1 })
                (assign v.fs.names path (some w.fs.next)) after after.regular
                (omega (arith, after.nlink)) after.size
                λ q. ap (λ o. if str_eq q path then some w.fs.next else o) (h.names q),
          )

      remove_file_lem :
          (u : World)
          → IsCalm u.env
          → IsLinked u
          → remove_file t u ≡ (
            ok tt,
            changed_world
                (removed t)
                (record (unlink_inode (u.env u.now) u.fs w.fs.next) {
                  names = assign u.fs.names t none;
                })
                u,
          )
      unfolding remove_file
      remove_file_lem u calm (env, after) =
          let there : u.fs.names t ≡ some w.fs.next =
            after.names t ∙ rw (apart' w t path apart, eq_refl t) refl in
          mutate_calm (removed t)
            (λ tick fs. elim (fs.names t) [
              | none ↦ err no_such_file
              | some i ↦
                  if is_dir (fs.inodes i).metadata
                  then err is_a_directory
                  else let fs' = unlink_inode tick fs i in
                    ok (tt, record fs' { names = assign fs.names t none })
            ])
            u
            {r = ok (
              tt,
              record (unlink_inode (u.env u.now) u.fs w.fs.next) {
                names = assign u.fs.names t none;
              },
            )}
            calm (rw (there, not_a_dir w bytes u.fs _ 2 after) refl)

      pub Steps-remove_file :
          (u : World) → IsCalm u.env → IsLinked u → Steps (remove_file t) u (λ _. IsReplaced bytes)
      Steps-remove_file u calm (env, after) =
          let m = (u.fs.inodes w.fs.next).metadata in
          Steps-intro _ (remove_file t) u tt _ (remove_file_lem u calm (env, after)) (
            env,
            After-set w bytes u.fs _ _ 2 1 (record (touch (u.env u.now) m) { nlink = m.nlink - 1 })
                (assign u.fs.names t none) after after.regular (omega (arith, after.nlink))
                after.size
                λ q.
                  ap (λ o. if str_eq q t then none else o) (after.names q)
                  ∙ linked_names w t path apart free q,
          )
