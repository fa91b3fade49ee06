-- ===== src/Write/Effects/Log.antt =====
-- The log of a whole conditional write, server/src/revisions/write.rs, with the removal of its temporary
-- file at the end.
use emacs_relay.Common.{ℕ, ◌≡◌, refl, sym, subst, Option, none, some, List, ◌++◌, All}
use emacs_relay.Fs.{FilePath, Effect, World}
use emacs_relay.Fs.Names.{remove_file}
use emacs_relay.Fs.Keeps.{Keeps-apply}
use emacs_relay.Revision.{ExpectedRevision}
use emacs_relay.Write.{drop_world, dropping, directory_of, write_body, conditional_write}
use emacs_relay.Write.Effects.{IsTempOrNone, Allowed, Within, Within-chain, Confined}
use emacs_relay.Write.Effects.Steps.{Keeps-write_body, Keeps-remove_file}

module _ (pid : ℕ) (path : FilePath) (expected : ExpectedRevision) where
  -- `Drop` removes a pending temporary file, and nothing is pending behind it.
  Within-drop :
      (u v : World) (p : Option FilePath)
      → v.pending ≡ p
      → IsTempOrNone pid (directory_of path) p
      → Within pid path expected u v
      → ((drop_world p v).pending ≡ none) × Within pid path expected u (drop_world p v)
  Within-drop u v none e t h = (e, h)
  Within-drop u v (some p) e t h =
      let k =
        Keeps-apply (Confined pid path expected) (remove_file p)
          (Keeps-remove_file pid path expected p t) v h.pid_kept in
      let all = Within-chain pid path expected u v (remove_file p v).1 h k in
      (
        refl,
        record {
          pid_kept = all.pid_kept;
          env_kept = all.env_kept;
          pending = λ _. tt;
          log = all.log;
        },
      )

-- On every outcome, whatever fails and whatever others do meanwhile: of the file system, a conditional write
-- changes only temporary files of this process in the directory of the path, except that it renames
-- one of them to the path where a revision was expected, or links one to the path where nothing was.
-- When it is over no temporary file is pending.
pub conditional_write-effects :
    (path : FilePath) (bytes : List ℕ) (expected : ExpectedRevision) (w : World)
    → w.pending ≡ none
    → let v = (conditional_write path bytes expected w).1 in
      (v.pending ≡ none)
      × ((new : List Effect) × (v.log ≡ new ++ w.log) × All (Allowed w.pid path expected) new)
unfolding conditional_write dropping
conditional_write-effects path bytes expected w clean =
    let v = (write_body path bytes expected w).1 in
    let h =
      Keeps-apply (Confined w.pid path expected) _ (Keeps-write_body w.pid path expected bytes) w
        refl in
    let pending = h.pending (subst (IsTempOrNone w.pid (directory_of path)) (sym clean) tt) in
    let (gone, all) = Within-drop w.pid path expected w v v.pending refl pending h in
    (gone, all.log)
