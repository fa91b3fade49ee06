-- ===== src/Write/Effects.antt =====
-- What the conditional write of server/src/revisions/write.rs does to names and files, on every outcome.
pub mod Steps
pub mod Log
pub mod Checked
pub mod Success
use emacs_relay.Common.{
  ℕ, zero, suc, ◌≡◌, refl, ap, sym, ◌∙◌, Bool, Option, none, some, List, [], ◌∷◌, ◌++◌,
  append_assoc, All, ltb, length,
}
use emacs_relay.Fs.{
  Metadata, FilePath, FileSystem, IoError, not_found, already_exists, other, Effect, created,
  chowned, chmoded, wrote, removed, made, opened, emptied, removed_dir, removed_tree, renamed,
  linked, Tick, World, Result, ok, err, M, pure, raise, ◌>>=◌, ◌>>◌, map_err, continue,
}
use emacs_relay.Fs.Calls.{seen, step, mutate, create_new, fchown, set_permissions}
use emacs_relay.Fs.Names.{write_all, sync_all, rename, hard_link, remove_file}
use emacs_relay.Fs.Keeps.{
  Relation, IsPreorder, Keeps, Keeps-intro, Keeps-apply, Keeps-pure, Keeps-raise, Keeps->>=,
  Keeps-map_err, Keeps-if, Keeps-mutate, Keeps-query,
}
use emacs_relay.Revision.{Revision, ExpectedRevision, missing, ConditionalWrite, RevisionError}
use emacs_relay.Read.{found_or}
use emacs_relay.Read.ReadOnly.{Keeps-checked_lstat, Keeps-refuse_if, Keeps-read_with_revision}
use emacs_relay.Write.{
  temp_path, next_temp, set_pending, created_or, new_temp, drop_world, dropping, preserve_metadata,
  linked_or, publish, stage, directory_of, write_body, conditional_write,
}
use emacs_relay.Fs.{outcome}
use emacs_relay.Write.ReadOnly.{
  Keeps-missing_appearance_conflict, Keeps-conflict_for_existing, Keeps-compare_published,
}

-- A temporary name of this process in the directory.
abbrev pub IsTemp : ℕ → FilePath → FilePath → Type 0
IsTemp pid directory p = (serial : ℕ) × (p ≡ temp_path directory pid serial)

-- The effects that a write of `path` may have: its own temporary names alone, except that a
-- temporary file is renamed to `path` where a revision is expected there, and linked to `path` where
-- nothing is.
abbrev pub Allowed : ℕ → FilePath → ExpectedRevision → Effect → Type 0
Allowed pid path expected (created p) = IsTemp pid (directory_of path) p
Allowed pid path expected (chowned p) = IsTemp pid (directory_of path) p
Allowed pid path expected (chmoded p) = IsTemp pid (directory_of path) p
Allowed pid path expected (wrote p) = IsTemp pid (directory_of path) p
Allowed pid path expected (removed p) = IsTemp pid (directory_of path) p
Allowed pid path expected (made p) = ⊥
Allowed pid path expected (opened p) = ⊥
Allowed pid path expected (emptied p) = ⊥
Allowed pid path expected (removed_dir p) = ⊥
Allowed pid path expected (removed_tree p) = ⊥
Allowed pid path expected (renamed p q) =
    IsTemp pid (directory_of path) p
    × (q ≡ path)
    × ((r : Revision) × (expected ≡ ExpectedRevision.present r))
Allowed pid path expected (linked p q) =
    IsTemp pid (directory_of path) p × (q ≡ path) × (expected ≡ missing)

abbrev pub IsTempOrNone : ℕ → FilePath → Option FilePath → Type 0
IsTempOrNone pid directory none = Unit {0}
IsTempOrNone pid directory (some p) = IsTemp pid directory p

-- The log has grown by allowed effects, and a pending file is one of the write's own.
pub record Within (pid : ℕ) (path : FilePath) (expected : ExpectedRevision) (w v : World)
    : Type 0 where
  pub pid_kept : v.pid ≡ pid
  pub env_kept : v.env ≡ w.env
  pub pending :
      IsTempOrNone pid (directory_of path) w.pending
      → IsTempOrNone pid (directory_of path) v.pending
  pub log : (new : List Effect) × (v.log ≡ new ++ w.log) × All (Allowed pid path expected) new

All-append : {A : Type 0} (Q : A → Type 0) (xs ys : List A) → All Q xs → All Q ys → All Q (xs ++ ys)
All-append Q [] ys h k = k
All-append Q (x ∷ xs) ys h k = (h.0, All-append Q xs ys h.1 k)

module _ (pid : ℕ) (path : FilePath) (expected : ExpectedRevision) where
  abbrev pub Confined : Relation
  Confined w v = w.pid ≡ pid → Within pid path expected w v

  abbrev pub Temp : FilePath → Type 0
  Temp p = IsTemp pid (directory_of path) p

  pub Within-chain :
      (u v w : World)
      → Within pid path expected u v
      → Within pid path expected v w
      → Within pid path expected u w
  Within-chain u v w h k =
      let (new, e, each) = h.log in
      let (newer, e', each') = k.log in
      record {
        pid_kept = k.pid_kept;
        env_kept = k.env_kept ∙ h.env_kept;
        pending = λ t. k.pending (h.pending t);
        log = (
          newer ++ new,
          e' ∙ ap (λ l. newer ++ l) e ∙ sym (append_assoc newer new u.log),
          All-append (Allowed pid path expected) newer new each' each,
        );
      }

  pub Confined-IsPreorder : IsPreorder Confined
  Confined-IsPreorder = record {
    self = λ w e. record { pid_kept = e; env_kept = refl; pending = λ t. t; log = ([], refl, tt) };
    chain = λ u v w h k e. let first = h e in Within-chain u v w first (k first.pid_kept);
  }

  pub Confined-step : (w : World) → Confined w (step w)
  Confined-step w e = record {
    pid_kept = e;
    env_kept = refl;
    pending = λ t. t;
    log = ([], refl, tt);
  }

  -- A call that changes the file system in an allowed way.
  pub Keeps-Allowed :
      {A : Type 0} (effect : Effect) (f : Tick → FileSystem → Result IoError (A × FileSystem))
      → Allowed pid path expected effect
      → Keeps Confined (mutate effect f)
  Keeps-Allowed effect f allowed =
      Keeps-mutate Confined Confined-IsPreorder effect f Confined-step λ w a fs _ e. record {
        pid_kept = e;
        env_kept = refl;
        pending = λ t. t;
        log = (effect ∷ [], refl, (allowed, tt));
      }

  pub Keeps-outcome :
      {E A : Type 0} (F : Type 0) (m : M E A)
      → Keeps Confined m
      → Keeps Confined (outcome {F = F} m)
  unfolding outcome
  Keeps-outcome F m h = Keeps-intro Confined _ (Keeps-apply Confined m h)

  pub Keeps-set_pending :
      (p : Option FilePath)
      → IsTempOrNone pid (directory_of path) p
      → Keeps Confined (set_pending p)
  unfolding set_pending
  Keeps-set_pending p t =
      Keeps-intro Confined _
        λ w e. record { pid_kept = e; env_kept = refl; pending = λ _. t; log = ([], refl, tt) }

  -- What a successful answer satisfies.
  abbrev pub OkIs : {E A : Type 0} → (A → Type 0) → Result E A → Type 0
  OkIs Q (ok a) = Q a
  OkIs Q (err e) = Unit {0}

  -- A confined computation whose answer, where it has one, satisfies `Q`.
  abbrev pub Gives : {E A : Type 0} → (A → Type 0) → M E A → Type 0
  Gives Q m = (w : World) → w.pid ≡ pid → Within pid path expected w (m w).1 × OkIs Q (m w).0

  Gives-continue :
      {E A B : Type 0} (Q : A → Type 0) (S : B → Type 0) (r : Result E A) (f : A → M E B)
      (u v : World)
      → Within pid path expected u v
      → OkIs Q r
      → ((a : A) → Q a → Gives S (f a))
      → Within pid path expected u (continue r f v).1 × OkIs S (continue r f v).0
  Gives-continue Q S (err e) f u v h q k = (h, tt)
  Gives-continue Q S (ok a) f u v h q k =
      let (h', s) = k a q v h.pid_kept in (Within-chain u v (f a v).1 h h', s)

  pub Gives->>= :
      {E A B : Type 0} (Q : A → Type 0) (S : B → Type 0) (m : M E A) (f : A → M E B)
      → Gives Q m
      → ((a : A) → Q a → Gives S (f a))
      → Gives S (m >>= f)
  unfolding ◌>>=◌
  Gives->>= Q S m f h k w e = let (h', q) = h w e in Gives-continue Q S (m w).0 f w (m w).1 h' q k

  abbrev pub Any : {A : Type 0} → A → Type 0
  Any a = Unit {0}

  OkIs-Any : {E A : Type 0} (r : Result E A) → OkIs Any r
  OkIs-Any (ok a) = tt
  OkIs-Any (err e) = tt

  pub Gives-Any : {E A : Type 0} (m : M E A) → Keeps Confined m → Gives Any m
  Gives-Any m h w e = (Keeps-apply Confined m h w e, OkIs-Any (m w).0)

  pub Keeps-given : {E A : Type 0} (Q : A → Type 0) (m : M E A) → Gives Q m → Keeps Confined m
  Keeps-given Q m h = Keeps-intro Confined m λ w e. (h w e).0
