-- ===== src/Fs/Kept.antt =====
-- An environment that keeps time: whoever changes an inode gives it a later change time. Under it two
-- equal samples of an inode's metadata frame a span in which the inode stayed as it was.
use emacs_relay.Common.{
  ℕ, ◌≡◌, ◌∙◌, sym, ap, subst, ◌⊎◌, inl, inr, arith, ◌<ℤ◌, Option, none, some, ◌∷◌,
}
use emacs_relay.Fs.{Metadata, Inode, FileSystem, Tick, Effect, World, Result, ok, err, IoError}
use emacs_relay.Fs.Calls.{seen, step, answer, query, settle, mutate}

abbrev pub Later : Metadata → Metadata → Type 0
Later m n = (m.ctime <ℤ n.ctime) ⊎ ((m.ctime ≡ n.ctime) × (m.ctime_nsec <ℤ n.ctime_nsec))

-- From one content of an inode to a later one.
abbrev pub Onward : Inode → Inode → Type 0
Onward x y = (y ≡ x) ⊎ Later x.metadata y.metadata

abbrev pub Kept : ℕ → FileSystem → FileSystem → Type 0
Kept i fs fs' = Onward (fs.inodes i) (fs'.inodes i)

pub record IsTimed (env : ℕ → Tick) : Type 0 where
  pub kept : (n i : ℕ) (fs : FileSystem) → Kept i fs ((env n).change fs)

pub Later-irrefl : (m n : Metadata) → Later m n → n ≡ m → ⊥
Later-irrefl m n h e = elim h [ inl a ↦ ground arith | inr b ↦ ground arith ]

Later-trans : (m n o : Metadata) → Later m n → Later n o → Later m o
Later-trans m n o h k = ground arith

pub Onward-trans : (x y z : Inode) → Onward x y → Onward y z → Onward x z
Onward-trans x y z (inl p) (inl q) = inl (q ∙ p)
Onward-trans x y z (inl p) (inr l) = inr (subst (λ t. Later t.metadata z.metadata) p l)
Onward-trans x y z (inr l) (inl q) = inr (subst (λ t. Later x.metadata t.metadata) (sym q) l)
Onward-trans x y z (inr l) (inr m) = inr (Later-trans x.metadata y.metadata z.metadata l m)

-- If the metadata of the ends agree, the inode is the same at both and at every point between.
pub Onward-between :
    (x y z : Inode) → Onward x y → Onward y z → z.metadata ≡ x.metadata → (y ≡ x) × (z ≡ y)
Onward-between x y z (inl p) (inl q) e = (p, q)
Onward-between x y z (inl p) (inr l) e =
    absurd (Later-irrefl x.metadata z.metadata (subst (λ t. Later t.metadata z.metadata) p l) e)
Onward-between x y z (inr l) (inl q) e =
    absurd
      (Later-irrefl x.metadata z.metadata (subst (λ t. Later x.metadata t.metadata) (sym q) l) e)
Onward-between x y z (inr l) (inr m) e =
    absurd (Later-irrefl x.metadata z.metadata (Later-trans x.metadata y.metadata z.metadata l m) e)

answer-eq-ok :
    {A : Type 0} (fault : Option IoError) (r : Result IoError A) {a : A}
    → answer fault r ≡ ok a
    → r ≡ ok a
answer-eq-ok none r h = h
answer-eq-ok (some e) r h = cc

module _ {A : Type 0} where
  -- A successful answer is the one for the file system that the call found.
  pub query_ok :
      (f : Tick → FileSystem → Result IoError A) (w : World) {a : A} {v : World}
      → query f w ≡ (ok a, v)
      → (f (w.env w.now) (seen w) ≡ ok a) × (v ≡ step w)
  unfolding query
  query_ok f w h = (answer-eq-ok (w.env w.now).fault _ (ap (λ p. p.0) h), sym (ap (λ p. p.1) h))

  settle_ok :
      (effect : Effect) (r : Result IoError (A × FileSystem)) (w : World) {a : A} {v : World}
      → settle effect r w ≡ (ok a, v)
      → (fs : FileSystem) × (r ≡ ok (a, fs)) × (v ≡ record w { fs = fs; log = effect ∷ w.log })
  settle_ok effect (ok (a, fs)) w h = (fs, cc, sym (ap (λ p. p.1) h))
  settle_ok effect (err e) w h = cc

  -- A successful change worked on the file system that the call found.
  pub mutate_ok :
      (effect : Effect) (f : Tick → FileSystem → Result IoError (A × FileSystem)) (w : World)
      {a : A} {v : World}
      → mutate effect f w ≡ (ok a, v)
      → (fs : FileSystem) × (f (w.env w.now) (seen w) ≡ ok (a, fs))
        × (v ≡ record (step w) { fs = fs; log = effect ∷ w.log })
  unfolding mutate
  mutate_ok effect f w h =
      let (fs, e, s) = settle_ok effect _ (step w) h in
      (fs, answer-eq-ok (w.env w.now).fault _ e, s)
