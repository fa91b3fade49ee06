-- ===== src/Write/Swap.antt =====
-- Changes of a calm world step by step, and what each of them keeps of the temporary file of a write:
-- server/src/revisions/write.rs up to publication.
pub mod Staged
pub mod After
pub mod Published
pub mod Checks
pub mod Run
pub mod Refines
pub mod Written
pub mod Rivals
use Prim.Native.Nat.{bit_and}
use emacs_relay.Common.{
  ℕ, suc, ◌+◌, ◌%◌, ◌≡◌, refl, ap, sym, subst, ◌∙◌, String, Bool, true, false, Option, none, some,
  List, [], ◌∷◌, ◌++◌, append-nil, drop-nil, length, drop, str_eq, ◌==◌, ==_iff, if◌then◌else◌,
}
use emacs_relay.Common.Bits.{type_mask_add, type_mask_regular}
use emacs_relay.Fs.{
  Metadata, type_bits, FilePath, Inode, FileSystem, Tick, Effect, IoError, World, Result, ok, err,
  M, ◌>>=◌, >>=_ok, map_err, map_err_ok, outcome,
}
use emacs_relay.Fs.Calls.{
  seen, step, answer, settle, mutate, assign, store, set_metadata, fchown, set_permissions,
}
use emacs_relay.Fs.Names.{write_all}
use emacs_relay.Fs.Calm.{IsCalm, Answers}

-- From `w`, `m` succeeds, and its result and the world after it are as `P` says.
unfoldable pub Steps : {E A : Type 0} → M E A → World → (A → World → Type 0) → Type 0
Steps {A = A} m w P = (a : A) × (v : World) × (m w ≡ (ok a, v)) × P a v

module _ {E A : Type 0} where
  pub Steps-intro :
      (P : A → World → Type 0) (m : M E A) (w : World) (a : A) (v : World)
      → m w ≡ (ok a, v)
      → P a v
      → Steps m w P
  unfolding Steps
  Steps-intro P m w a v e p = (a, v, e, p)

  pub Steps-Answers :
      (P : A → World → Type 0) (m : M E A) (w : World) (a : A)
      → Answers m w (ok a)
      → ((n : ℕ) → P a (record w { now = n }))
      → Steps m w P
  unfolding Steps
  Steps-Answers P m w a (n, e) p = (a, record w { now = n }, e, p n)

module _ {E A B : Type 0} where
  pub Steps->>= :
      (P : A → World → Type 0) (Q : B → World → Type 0) (m : M E A) (f : A → M E B) (w : World)
      → Steps m w P
      → ((a : A) (v : World) → P a v → Steps (f a) v Q)
      → Steps (m >>= f) w Q
  unfolding Steps
  Steps->>= P Q m f w (a, v, e, p) k = let (b, u, e', q) = k a v p in (b, u, >>=_ok m f w e ∙ e', q)

module _ {E A B : Type 0} (Q : B → World → Type 0) (m : M E A) (f : A → M E B) (w : World) where
  -- A chain whose first part has run, or only looked.
  pub Steps-then : (a : A) (v : World) → m w ≡ (ok a, v) → Steps (f a) v Q → Steps (m >>= f) w Q
  unfolding Steps
  Steps-then a v e (b, u, e', q) = (b, u, >>=_ok m f w e ∙ e', q)

  pub Steps-look :
      (a : A)
      → Answers m w (ok a)
      → ((n : ℕ) → Steps (f a) (record w { now = n }) Q)
      → Steps (m >>= f) w Q
  Steps-look a (n, e) k = Steps-then a (record w { now = n }) e (k n)

module _ {E F A B : Type 0} where
  -- A match on the outcome of a call that succeeds.
  pub Steps-outcome :
      (P : A → World → Type 0) (Q : B → World → Type 0) (m : M E A) (f : Result E A → M F B)
      (w : World)
      → Steps m w P
      → ((a : A) (v : World) → P a v → Steps (f (ok a)) v Q)
      → Steps (outcome m >>= f) w Q
  unfolding Steps outcome
  Steps-outcome P Q m f w (a, v, e, p) k =
      let (b, u, e', q) = k a v p in
      (b, u, >>=_ok (outcome m) f w (ap (λ r. (ok r.0, r.1)) e) ∙ e', q)

module _ {E F A : Type 0} where
  pub Steps-map_err :
      (P : A → World → Type 0) (f : E → F) (m : M E A) (w : World)
      → Steps m w P
      → Steps (map_err f m) w P
  unfolding Steps
  Steps-map_err P f m w (a, v, e, p) = (a, v, map_err_ok f m w e, p)

-- The world after a change.
abbrev pub changed_world : Effect → FileSystem → World → World
changed_world effect fs w = record w { fs = fs; now = suc w.now; log = effect ∷ w.log }

pub mutate_calm :
    {A : Type 0} (effect : Effect) (f : Tick → FileSystem → Result IoError (A × FileSystem))
    (w : World) {r : Result IoError (A × FileSystem)}
    → IsCalm w.env
    → f (w.env w.now) w.fs ≡ r
    → mutate effect f w ≡ settle effect r (record w { now = suc w.now })
unfolding mutate
mutate_calm effect f w {r} calm h =
    (λ i.
      settle effect (answer (calm.no_fault w.now i) (f (w.env w.now) (calm.unchanged w.now w.fs i)))
        (record w { fs = calm.unchanged w.now w.fs i; now = suc w.now }))
    ∙ ap (λ r. settle effect r (record w { now = suc w.now })) h

-- The world `v` in the middle of a write from `w`: the temporary name `t` is the only new one and stands
-- for the only new inode, which is a regular file with one name and those bytes.
pub record Temp (w : World) (t : FilePath) (bytes : List ℕ) (v : World) : Type 0 where
  pub env : v.env ≡ w.env
  pub pending : v.pending ≡ some t
  pub names : (q : FilePath) → v.fs.names q ≡ assign w.fs.names t (some w.fs.next) q
  pub others : (j : ℕ) → (j == w.fs.next) ≡ false → v.fs.inodes j ≡ w.fs.inodes j
  pub regular : type_bits (v.fs.inodes w.fs.next).metadata.mode ≡ 0o100000
  pub nlink : (v.fs.inodes w.fs.next).metadata.nlink ≡ 1
  pub content : (v.fs.inodes w.fs.next).bytes ≡ bytes
  pub size : (v.fs.inodes w.fs.next).metadata.size ≡ length bytes

pub store_same : (inodes : ℕ → Inode) (i : ℕ) (node : Inode) → store inodes i node i ≡ node
store_same inodes i node = rw ((==_iff i i).1 refl) refl

pub store_other :
    (inodes : ℕ → Inode) (i : ℕ) (node : Inode) (j : ℕ)
    → (j == i) ≡ false
    → store inodes i node j ≡ inodes j
store_other inodes i node j h = rw h refl

module _ (w : World) (t : FilePath) where
  -- The new inode alone changes.
  Temp-store :
      (old bytes : List ℕ) (v : World) (node : Inode) (n : ℕ) (log : List Effect)
      → Temp w t old v
      → type_bits node.metadata.mode ≡ 0o100000
      → node.metadata.nlink ≡ 1
      → node.bytes ≡ bytes
      → node.metadata.size ≡ length bytes
      → Temp w t bytes (record v {
        fs = record (v.fs) { inodes = store v.fs.inodes w.fs.next node };
        now = n;
        log = log;
      })
  Temp-store old bytes v node n log h regular nlink content size =
      let at = sym (store_same v.fs.inodes w.fs.next node) in
      record {
        env = h.env;
        pending = h.pending;
        names = h.names;
        others = λ j d. store_other v.fs.inodes w.fs.next node j d ∙ h.others j d;
        regular = subst (λ x. type_bits x.metadata.mode ≡ 0o100000) at regular;
        nlink = subst (λ x. x.metadata.nlink ≡ 1) at nlink;
        content = subst (λ x. x.bytes ≡ bytes) at content;
        size = subst (λ x. x.metadata.size ≡ length bytes) at size;
      }

  module _ (v : World) (calm : IsCalm v.env) where
    pub Steps-fchown :
        (bytes : List ℕ) (uid gid : ℕ)
        → Temp w t bytes v
        → Steps (fchown t w.fs.next uid gid) v (λ _. Temp w t bytes)
    unfolding fchown
    Steps-fchown bytes uid gid h =
        Steps-intro _ (fchown t w.fs.next uid gid) v tt _ (mutate_calm _ _ v calm refl) (
          Temp-store bytes bytes v _ _ _ h
            (type_mask_add (v.fs.inodes w.fs.next).metadata.mode (v.env v.now).stamp.mode
              ∙ h.regular)
            h.nlink h.content h.size)

    pub Steps-set_permissions :
        (bytes : List ℕ) (mode : ℕ)
        → Temp w t bytes v
        → Steps (set_permissions t w.fs.next mode) v (λ _. Temp w t bytes)
    unfolding set_permissions
    Steps-set_permissions bytes mode h =
        Steps-intro _ (set_permissions t w.fs.next mode) v tt _ (mutate_calm _ _ v calm refl) (
          Temp-store bytes bytes v _ _ _ h
            (type_mask_add (v.fs.inodes w.fs.next).metadata.mode mode ∙ h.regular) h.nlink h.content
            h.size)

    -- Onto an empty file.
    pub Steps-write_all :
        (bytes : List ℕ)
        → Temp w t [] v
        → Steps (write_all t w.fs.next bytes) v (λ _. Temp w t bytes)
    unfolding write_all
    Steps-write_all bytes h =
        let whole : bytes ++ drop (length bytes) (v.fs.inodes w.fs.next).bytes ≡ bytes =
          ap (λ b. bytes ++ drop (length bytes) b) h.content
          ∙ (ap (λ d. bytes ++ d) (drop-nil (length bytes)) ∙ append-nil bytes) in
        Steps-intro _ (write_all t w.fs.next bytes) v tt _ (mutate_calm _ _ v calm refl)
          (Temp-store [] bytes v _ _ _ h h.regular h.nlink whole (ap length whole))
