-- ===== src/Write/Effects/Steps.antt =====
-- Every step of the conditional write of server/src/revisions/write.rs keeps to its own names.
use emacs_relay.Common.{ℕ, zero, suc, ◌≡◌, refl, ap, sym, Option, none, some, List, []}
use emacs_relay.Fs.{
  Metadata, FilePath, IoError, ErrorKind, not_found, already_exists, other, created, chowned,
  chmoded, wrote, removed, renamed, linked, World, Result, ok, err, M, pure, raise, ◌>>=◌, ◌>>◌,
}
use emacs_relay.Fs.Calls.{step, create_new, fchown, set_permissions}
use emacs_relay.Fs.Names.{write_all, sync_all, rename, hard_link, remove_file}
use emacs_relay.Fs.Keeps.{
  Relation, IsPreorder, Keeps, Keeps-pure, Keeps-raise, Keeps->>=, Keeps-map_err, Keeps-query,
}
use emacs_relay.Revision.{Revision, ExpectedRevision, missing, RevisionError, io, io_error}
use emacs_relay.Read.{read_with_revision}
use emacs_relay.Read.ReadOnly.{
  Keeps-checked_lstat, Keeps-refuse_if, Keeps-read_with_revision, Keeps-found_or,
}
use emacs_relay.Write.{
  temp_path, next_temp, set_pending, created_or, retry_or, collided, new_temp, preserve_metadata,
  linked_or, publish, stage, compare_published, directory_of, write_body,
}
use emacs_relay.Write.ReadOnly.{
  Keeps-missing_appearance_conflict, Keeps-conflict_for_existing, Keeps-compare_published,
}
use emacs_relay.Write.Effects.{
  Confined, Confined-IsPreorder, Confined-step, Keeps-Allowed, Keeps-outcome, Keeps-set_pending,
  Temp, Gives, Gives->>=, Gives-Any, Keeps-given, Any,
}

module _ (pid : ℕ) (path : FilePath) (expected : ExpectedRevision) where
  abbrev R : Relation
  R = Confined pid path expected

  P : IsPreorder R
  P = Confined-IsPreorder pid path expected

  others : (w : World) → R w (step w)
  others = Confined-step pid path expected

  abbrev pub Own : FilePath × ℕ → Type 0
  Own (p, fd) = Temp pid path expected p

  Gives-next_temp : Gives pid path expected (Temp pid path expected) (next_temp (directory_of path))
  unfolding next_temp
  Gives-next_temp w e = (
    record { pid_kept = e; env_kept = refl; pending = λ t. t; log = ([], refl, tt) },
    (w.serial, ap (λ n. temp_path (directory_of path) n w.serial) e),
  )

  Gives-raise :
      {A : Type 0} (Q : A → Type 0) (e : RevisionError) → Gives pid path expected Q (raise e)
  Gives-raise {A} Q e w same = (P.self w same, tt)

  Gives-Own :
      (p : FilePath) (fd : ℕ)
      → Temp pid path expected p
      → Gives pid path expected Own (set_pending (some p) >> pure (p, fd))
  Gives-Own p fd t =
      Gives->>= pid path expected (Any pid path expected) Own _ _
        (Gives-Any pid path expected _ (Keeps-set_pending pid path expected (some p) t))
        λ _ _ w same. (P.self w same, t)

  Gives-retry_or :
      (again : M RevisionError (FilePath × ℕ)) (e : IoError) (kind : ErrorKind)
      → Gives pid path expected Own again
      → Gives pid path expected Own (retry_or again e kind)
  Gives-retry_or again e already_exists h = h
  Gives-retry_or again e not_found h = Gives-raise Own (io_error "write(temp)" e)
  Gives-retry_or again e other h = Gives-raise Own (io_error "write(temp)" e)

  Gives-created_or :
      (again : M RevisionError (FilePath × ℕ)) (p : FilePath) (r : Result IoError ℕ)
      → Gives pid path expected Own again
      → Temp pid path expected p
      → Gives pid path expected Own (created_or again p r)
  Gives-created_or again p (ok fd) h t = Gives-Own p fd t
  Gives-created_or again p (err e) h t = Gives-retry_or again e e.kind h

  Keeps-create_new : (p : FilePath) → Temp pid path expected p → Keeps R (create_new p)
  unfolding create_new
  Keeps-create_new p t = Keeps-Allowed pid path expected (created p) _ t

  pub Gives-new_temp : (n : ℕ) → Gives pid path expected Own (new_temp n (directory_of path))
  unfolding new_temp
  Gives-new_temp zero = Gives-raise Own (io "write(temp): exhausted unique temporary names")
  Gives-new_temp (suc n) =
      Gives->>= pid path expected (Temp pid path expected) Own _ _ Gives-next_temp λ p t.
        Gives->>= pid path expected (Any pid path expected) Own _ _
          (Gives-Any pid path expected _
            (Keeps-outcome pid path expected RevisionError _ (Keeps-create_new p t)))
          λ r _. Gives-created_or _ p r (Gives-new_temp n) t

  -- Each call on a temporary file of one's own.
  module _ (p : FilePath) (t : Temp pid path expected p) where
    Keeps-fchown : (fd uid gid : ℕ) → Keeps R (fchown p fd uid gid)
    unfolding fchown
    Keeps-fchown fd uid gid = Keeps-Allowed pid path expected (chowned p) _ t

    Keeps-set_permissions : (fd mode : ℕ) → Keeps R (set_permissions p fd mode)
    unfolding set_permissions
    Keeps-set_permissions fd mode = Keeps-Allowed pid path expected (chmoded p) _ t

    pub Keeps-write_all : (fd : ℕ) (bytes : List ℕ) → Keeps R (write_all p fd bytes)
    unfolding write_all
    Keeps-write_all fd bytes = Keeps-Allowed pid path expected (wrote p) _ t

    pub Keeps-remove_file : Keeps R (remove_file p)
    unfolding remove_file
    Keeps-remove_file = Keeps-Allowed pid path expected (removed p) _ t

    pub Keeps-sync_all : (fd : ℕ) → Keeps R (sync_all fd)
    unfolding sync_all
    Keeps-sync_all fd = Keeps-query R P others _

    pub Keeps-preserve_metadata :
        (fd : ℕ) (original : Option Metadata) → Keeps R (preserve_metadata p fd original)
    unfolding preserve_metadata
    Keeps-preserve_metadata fd none = Keeps-pure R P RevisionError tt
    Keeps-preserve_metadata fd (some m) =
        Keeps->>= R P _ _ (Keeps-map_err R P _ _ (Keeps-fchown fd m.uid m.gid))
          λ _. Keeps-map_err R P _ _ (Keeps-set_permissions fd _)

    pub Keeps-stage :
        (fd : ℕ) (bytes : List ℕ) (original : Option Metadata)
        → Keeps R (stage path bytes expected original (p, fd))
    unfolding stage
    Keeps-stage fd bytes original = Keeps->>= R P _ _ (Keeps-preserve_metadata fd original) λ _.
        Keeps->>= R P _ _ (Keeps-map_err R P _ _ (Keeps-write_all fd bytes)) λ _.
          Keeps->>= R P _ _ (Keeps-map_err R P _ _ (Keeps-sync_all fd))
            λ _. Keeps-conflict_for_existing R P others expected path

    Keeps-collided : (e : IoError) (kind : ErrorKind) → Keeps R (collided path e kind)
    Keeps-collided e already_exists =
        Keeps->>= R P _ _
          (Keeps->>= R P _ _ (Keeps-checked_lstat R P others path) (Keeps-found_or R P others _))
          λ m.
            Keeps->>= R P _ _ (Keeps-missing_appearance_conflict R P others path m)
              (Keeps-raise R P (Unit {0}))
    Keeps-collided e not_found = Keeps-raise R P (Unit {0}) _
    Keeps-collided e other = Keeps-raise R P (Unit {0}) _

    Keeps-linked_or : (r : Result IoError (Unit {0})) → Keeps R (linked_or p path r)
    Keeps-linked_or (ok _) =
        Keeps->>= R P _ _ (Keeps-map_err R P _ _ Keeps-remove_file)
          λ _. Keeps-set_pending pid path expected none tt
    Keeps-linked_or (err e) = Keeps-collided e e.kind

    Keeps-rename : (e : Revision) → ExpectedRevision.present e ≡ expected → Keeps R (rename p path)
    unfolding rename
    Keeps-rename e same =
        Keeps-Allowed pid path expected (renamed p path) _ (t, refl, (e, sym same))

    Keeps-hard_link : missing ≡ expected → Keeps R (hard_link p path)
    unfolding hard_link
    Keeps-hard_link same = Keeps-Allowed pid path expected (linked p path) _ (t, refl, sym same)

    pub Keeps-publish : (x : ExpectedRevision) → x ≡ expected → Keeps R (publish x p path)
    unfolding publish
    Keeps-publish (ExpectedRevision.present e) same =
        Keeps->>= R P _ _ (Keeps-map_err R P _ _ (Keeps-rename e same))
          λ _. Keeps-set_pending pid path expected none tt
    Keeps-publish missing same =
        Keeps->>= R P _ _ (Keeps-outcome pid path expected RevisionError _ (Keeps-hard_link same))
          Keeps-linked_or

  -- What follows once the temporary file is there.
  Keeps-after_temp :
      (bytes : List ℕ) (original : Option Metadata) (temp : FilePath × ℕ)
      → Own temp
      → Keeps R (
          stage path bytes expected original temp
          >> (publish expected temp.0 path
              >> (read_with_revision path >>= compare_published bytes)))
  Keeps-after_temp bytes original (p, fd) t =
      Keeps->>= R P _ _ (Keeps-stage p t fd bytes original) λ _.
        Keeps->>= R P _ _ (Keeps-publish p t expected refl) λ _.
          Keeps->>= R P _ _ (Keeps-read_with_revision R P others path)
            (Keeps-compare_published R P others bytes)

  pub Keeps-write_body : (bytes : List ℕ) → Keeps R (write_body path bytes expected)
  unfolding write_body
  Keeps-write_body bytes = Keeps->>= R P _ _ (Keeps-refuse_if R P others _ _) λ _.
      Keeps->>= R P _ _ (Keeps-refuse_if R P others _ _) λ _.
        Keeps->>= R P _ _ (Keeps-conflict_for_existing R P others expected path) λ _.
          Keeps->>= R P _ _ (Keeps-checked_lstat R P others path) λ original.
            Keeps-given pid path expected (Any pid path expected) _ (
              Gives->>= pid path expected Own (Any pid path expected) _ _ (Gives-new_temp 100)
                λ temp t. Gives-Any pid path expected _ (Keeps-after_temp bytes original temp t))
