-- ===== src/Write/Swap/Staged.antt =====
-- The temporary file of server/src/revisions/write.rs from its creation to publication, in a calm world.
use emacs_relay.Common.{
  ℕ, suc, ◌+◌, ◌%◌, ◌^◌, ◌<◌, ◌≡◌, refl, ap, sym, subst, ◌∙◌, false, Option, none, some, List, [],
  ◌∷◌, str_eq, ◌==◌, ==_iff, Bool-cases, inl, inr, arith,
}
use emacs_relay.Common.Bits.{type_mask_regular}
use emacs_relay.Fs.{
  Metadata, FilePath, Inode, FileSystem, Effect, created, World, Result, ok, err, M, pure, ◌>>=◌,
  ◌>>◌, >>=_ok, map_err, outcome,
}
use emacs_relay.Fs.Calls.{create_new, assign, store}
use emacs_relay.Fs.Names.{sync_all}
use emacs_relay.Fs.Calm.{IsCalm, Answers, Answers-query, Answers-map_err_ok}
use emacs_relay.Revision.{ExpectedRevision, missing, io_error}
use emacs_relay.Write.{
  temp_path, next_temp, set_pending, created_or, new_temp, preserve_metadata, conflict_for_existing,
  stage,
}
use emacs_relay.Write.Calm.{check_answer}
use emacs_relay.Write.Calm.Refused.{conflict_for_existing-Answers}
use emacs_relay.Write.Swap.{
  Steps, Steps-intro, Steps-Answers, Steps->>=, Steps-map_err, mutate_calm, Temp, store_same,
  store_other, Steps-fchown, Steps-set_permissions, Steps-write_all,
}

-- Every inode with a name has a number below the next one.
pub record IsNumbered (fs : FileSystem) : Type 0 where
  pub below : (q : FilePath) (i : ℕ) → fs.names q ≡ some i → i < fs.next

pub below_differs : (i n : ℕ) → i < n → (i == n) ≡ false
below_differs i n h = elim (Bool-cases (i == n)) [
  | inl e ↦ absurd (omega (arith, (==_iff i n).0 e))
  | inr e ↦ e
]

module _ (w : World) (t : FilePath) (bytes : List ℕ) where
  pub Temp-now : (v : World) (n : ℕ) → Temp w t bytes v → Temp w t bytes (record v { now = n })
  Temp-now v n h = record {
    env = h.env;
    pending = h.pending;
    names = h.names;
    others = h.others;
    regular = h.regular;
    nlink = h.nlink;
    content = h.content;
    size = h.size;
  }

-- The first name is free, so it is taken.
pub new_temp_calm :
    (directory : FilePath) (w : World) (n rounds : ℕ)
    → IsCalm w.env
    → w.fs.names (temp_path directory w.pid w.serial) ≡ none
    → let t = temp_path directory w.pid w.serial in
      (v : World) × (new_temp (suc rounds) directory (record w { now = n })
        ≡ (ok (t, w.fs.next), v))
      × Temp w t [] v
unfolding new_temp next_temp create_new outcome set_pending ◌>>=◌
new_temp_calm directory w n rounds calm free =
    let t = temp_path directory w.pid w.serial in
    let k = w.fs.next in
    let u : World = record w { now = n; serial = (w.serial + 1) % 2 ^ 64 } in
    let node : Inode = record {
      metadata = record ((u.env u.now).stamp) {
        size = 0;
        nlink = 1;
        mode = 0o100000 + (u.env u.now).stamp.mode % 0o10000;
      };
      bytes = [];
      target = "";
    } in
    let fs : FileSystem = record {
      names = assign w.fs.names t (some k);
      inodes = store w.fs.inodes k node;
      next = suc k;
    } in
    let v : World = record u { fs = fs; now = suc n; log = created t ∷ w.log; pending = some t } in
    let again = new_temp rounds directory in
    let e : create_new t u ≡ (ok k, record v { pending = w.pending }) =
      mutate_calm (created t) _ u {r = ok (k, fs)} calm (rw free refl) in
    let at = sym (store_same w.fs.inodes k node) in
    (
      v,
      >>=_ok (outcome (create_new t)) (created_or again t) u (ap (λ p. (ok p.0, p.1)) e),
      record {
        env = refl;
        pending = refl;
        names = λ q. refl;
        others = λ j d. store_other w.fs.inodes k node j d;
        regular =
            subst (λ x. emacs_relay.Fs.type_bits x.metadata.mode ≡ 0o100000) at
              (type_mask_regular (u.env u.now).stamp.mode);
        nlink = subst (λ x. x.metadata.nlink ≡ 1) at refl;
        content = subst (λ x. x.bytes ≡ []) at refl;
        size = subst (λ x. x.metadata.size ≡ 0) at refl;
      },
    )

-- The check depends on the file under the name alone.
check_answer-agrees :
    (expected : ExpectedRevision) (fs fs' : FileSystem) (o : Option ℕ)
    → ((i : ℕ) → o ≡ some i → fs.inodes i ≡ fs'.inodes i)
    → check_answer expected fs o ≡ check_answer expected fs' o
check_answer-agrees missing fs fs' none h = refl
check_answer-agrees missing fs fs' (some i) h = rw (h i refl) refl
check_answer-agrees (ExpectedRevision.present r) fs fs' none h = refl
check_answer-agrees (ExpectedRevision.present r) fs fs' (some i) h = rw (h i refl) refl

module _ (w : World) (t path : FilePath) (apart : str_eq path t ≡ false) where
  -- The file under the path, while the temporary one is written.
  pub Temp-path :
      (bytes : List ℕ) (v : World) → Temp w t bytes v → v.fs.names path ≡ w.fs.names path
  Temp-path bytes v h = h.names path ∙ rw apart refl

  module _ (numbered : IsNumbered w.fs) (calm : IsCalm w.env) (expected : ExpectedRevision)
      (holds : check_answer expected w.fs (w.fs.names path) ≡ ok tt) where
    pub check_holds :
        (bytes : List ℕ) (v : World)
        → Temp w t bytes v
        → check_answer expected v.fs (v.fs.names path) ≡ ok tt
    check_holds bytes v h =
        ap (check_answer expected v.fs) (Temp-path bytes v h)
        ∙ check_answer-agrees expected v.fs w.fs (w.fs.names path)
            (λ i e. h.others i (below_differs i w.fs.next (numbered.below path i e)))
        ∙ holds

    pub calm_later : (bytes : List ℕ) (v : World) → Temp w t bytes v → IsCalm v.env
    calm_later bytes v h = subst IsCalm (sym h.env) calm

    Steps-preserve_metadata :
        (original : Option Metadata) (v : World)
        → Temp w t [] v
        → Steps (preserve_metadata t w.fs.next original) v (λ _. Temp w t [])
    unfolding preserve_metadata
    Steps-preserve_metadata none v h = Steps-intro _ (pure tt) v tt v refl h
    Steps-preserve_metadata (some m) v h =
        Steps->>= (λ _. Temp w t []) _ _ _ v
          (Steps-map_err _ _ _ v (Steps-fchown w t v (calm_later [] v h) [] m.uid m.gid h))
          λ _ v' h'.
            Steps-map_err _ _ _ v' (Steps-set_permissions w t v' (calm_later [] v' h') [] _ h')

    -- Up to the second check, which passes like the first.
    pub Steps-stage :
        (bytes : List ℕ) (original : Option Metadata) (v : World)
        → Temp w t [] v
        → Steps (stage path bytes expected original (t, w.fs.next)) v (λ _. Temp w t bytes)
    unfolding stage sync_all
    Steps-stage bytes original v h =
        Steps->>= (λ _. Temp w t []) _ _ _ v (Steps-preserve_metadata original v h)
          λ _ v1 h1.
            Steps->>= (λ _. Temp w t bytes) _ _ _ v1
              (Steps-map_err _ _ _ v1 (Steps-write_all w t v1 (calm_later [] v1 h1) bytes h1))
              λ _ v2 h2.
                Steps->>= (λ _. Temp w t bytes) _ _ _ v2
                  (Steps-Answers _ _ v2 tt
                    (Answers-map_err_ok (io_error "write(sync)") (sync_all w.fs.next) v2 tt
                      (Answers-query v2 (calm_later bytes v2 h2) (λ t fs. ok tt)))
                    λ n. Temp-now w t bytes v2 n h2)
                  λ _ v3 h3.
                    Steps-Answers _ _ v3 tt
                      (subst (Answers (conflict_for_existing expected path) v3)
                        (check_holds bytes v3 h3)
                        (conflict_for_existing-Answers expected path v3 (calm_later bytes v3 h3)))
                      λ n. Temp-now w t bytes v3 n h3
