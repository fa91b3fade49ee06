-- ===== src/Write/ReadOnly.antt =====
-- The checks of server/src/revisions/write.rs only look, whatever they find.
use emacs_relay.Common.{String, Option, none, some}
use emacs_relay.Fs.{Metadata, FilePath, World}
use emacs_relay.Fs.Calls.{step}
use emacs_relay.Fs.Keeps.{Relation, IsPreorder, Keeps, Keeps-pure, Keeps-raise, Keeps->>=, Keeps-if}
use emacs_relay.Revision.{
  Revision, RevisionRead, ExpectedRevision, missing, RevisionError, final_type, ConditionalWrite,
}
use emacs_relay.Read.ReadOnly.{Keeps-checked_lstat, Keeps-refuse_if, Keeps-read_with_revision}
use emacs_relay.Write.{
  appearance_of, missing_appearance_conflict, compare_current, compare_existing, expect_missing,
  expect_present, conflict_for_existing, compare_published,
}
use emacs_relay.Common.{ℕ, List}

module _ (R : Relation) (P : IsPreorder R) (others : (w : World) → R w (step w)) where
  pub Keeps-missing_appearance_conflict :
      (path : FilePath) (m : Metadata) → Keeps R (missing_appearance_conflict path m)
  unfolding missing_appearance_conflict
  Keeps-missing_appearance_conflict path m = go (final_type m)
    where
      go : (t : Option String) → Keeps R (appearance_of path t)
      go (some kind) = Keeps-pure R P RevisionError _
      go none =
          Keeps->>= R P _ _ (Keeps-read_with_revision R P others path)
            λ current. Keeps-pure R P RevisionError _

  Keeps-compare_current :
      (expected : Revision) (current : RevisionRead) → Keeps R (compare_current expected current)
  Keeps-compare_current expected current =
      Keeps-if R P _ _ _ (Keeps-pure R P RevisionError tt) (Keeps-raise R P (Unit {0}) _)

  Keeps-compare_existing :
      (expected : Revision) (path : FilePath) (t : Option String)
      → Keeps R (compare_existing expected path t)
  Keeps-compare_existing expected path (some kind) = Keeps-raise R P (Unit {0}) _
  Keeps-compare_existing expected path none =
      Keeps->>= R P _ _ (Keeps-read_with_revision R P others path) (Keeps-compare_current expected)

  Keeps-expect_missing : (path : FilePath) (m : Option Metadata) → Keeps R (expect_missing path m)
  Keeps-expect_missing path none = Keeps-pure R P RevisionError tt
  Keeps-expect_missing path (some m) =
      Keeps->>= R P _ _ (Keeps-missing_appearance_conflict path m) (Keeps-raise R P (Unit {0}))

  Keeps-expect_present :
      (expected : Revision) (path : FilePath) (m : Option Metadata)
      → Keeps R (expect_present expected path m)
  Keeps-expect_present expected path none = Keeps-raise R P (Unit {0}) _
  Keeps-expect_present expected path (some m) = Keeps-compare_existing expected path (final_type m)

  pub Keeps-conflict_for_existing :
      (expected : ExpectedRevision) (path : FilePath)
      → Keeps R (conflict_for_existing expected path)
  unfolding conflict_for_existing
  Keeps-conflict_for_existing missing path =
      Keeps->>= R P _ _ (Keeps-checked_lstat R P others path) (Keeps-expect_missing path)
  Keeps-conflict_for_existing (ExpectedRevision.present expected) path =
      Keeps->>= R P _ _ (Keeps-refuse_if R P others _ _) λ _.
        Keeps->>= R P _ _ (Keeps-checked_lstat R P others path) (Keeps-expect_present expected path)

  pub Keeps-compare_published :
      (bytes : List ℕ) (published : RevisionRead) → Keeps R (compare_published bytes published)
  Keeps-compare_published bytes published =
      Keeps-if R P _ _ _ (Keeps-pure R P RevisionError _) (Keeps-raise R P ConditionalWrite _)
