-- ===== src/Write/Swap/Refines.antt =====
-- `conditional_write` of server/src/revisions/mod.rs implements a compare-and-swap on the contents of
-- paths, in a calm world.
use emacs_relay.Common.{
  ℕ, ◌≡◌, refl, ap, sym, ◌∙◌, Bool, true, false, Option, none, some, List, length, ltb, is_utf8,
  str_eq, if◌then◌else◌,
}
use emacs_relay.Fs.{FilePath, FileSystem, World, Result, ok, err, M}
use emacs_relay.Fs.Calm.{IsCalm}
use emacs_relay.Revision.{
  ExpectedRevision, ConditionalWrite, RevisionError, too_large, unsupported_encoding,
  max_read_bytes,
}
use emacs_relay.Read.Calm.{read_answer}
use emacs_relay.Write.{temp_path, directory_of, write_body, drop_world, dropping, conditional_write}
use emacs_relay.Write.Calm.Refused.{refusal, conditional_write-refused}
use emacs_relay.Write.Swap.{Steps}
use emacs_relay.Write.Swap.Staged.{IsNumbered, below_differs}
use emacs_relay.Write.Swap.Published.{IsReplaced}
use emacs_relay.Write.Swap.Run.{read_published, Steps-write_body}

-- What a client sees of the files: the bytes under each path.
abbrev pub Store : Type 0
Store = FilePath → Option (List ℕ)

abbrev pub content_at : FileSystem → Option ℕ → Option (List ℕ)
content_at fs none = none
content_at fs (some i) = some (fs.inodes i).bytes

abbrev pub contents_of : FileSystem → Store
contents_of fs path = content_at fs (fs.names path)

-- The abstract operation: the bytes stand under the path if the comparison allows it, and nothing else
-- changes.
abbrev pub swap : Result RevisionError (Unit {0}) → FilePath → List ℕ → Store → Store
swap (ok _) path bytes store q = if str_eq q path then some bytes else store q
swap (err e) path bytes store q = store q

-- The write answers like the comparison, and with a revision that a read would then give.
abbrev pub Agrees :
    FileSystem
    → FilePath
    → List ℕ
    → Result RevisionError ConditionalWrite
    → Result RevisionError (Unit {0})
    → Type 0
Agrees fs path bytes (ok saved) (ok _) =
    read_answer fs (fs.names path) ≡ ok (record { bytes = bytes; revision = saved.revision })
Agrees fs path bytes (ok saved) (err e) = ⊥
Agrees fs path bytes (err e) (ok _) = ⊥
Agrees fs path bytes (err e) (err e') = e ≡ e'

-- A comparison that passes.
pub guard_ok :
    (b : Bool) (e : RevisionError) (r : Result RevisionError (Unit {0}))
    → (if b then err e else r) ≡ ok tt
    → (b ≡ false) × (r ≡ ok tt)
guard_ok true e r h = cc
guard_ok false e r h = (refl, h)

pub test_ok :
    (b : Bool) (e : RevisionError) (r : Result RevisionError (Unit {0}))
    → (if b then r else err e) ≡ ok tt
    → (b ≡ true) × (r ≡ ok tt)
test_ok true e r h = (refl, h)
test_ok false e r h = cc

module _ (w : World) (t path : FilePath) (bytes : List ℕ) (apart : str_eq path t ≡ false)
    (free : w.fs.names t ≡ none) (numbered : IsNumbered w.fs) where
  -- A file that is not the new one.
  kept_at :
      (v : World)
      → IsReplaced w t path apart free bytes v
      → (q : FilePath) (o : Option ℕ) → w.fs.names q ≡ o
      → content_at v.fs o ≡ content_at w.fs o
  kept_at v h q none e = refl
  kept_at v (env, after) q (some i) e =
      ap some (after.kept i (below_differs i w.fs.next (numbered.below q i e)))

  pub replaced_contents :
      (v : World)
      → IsReplaced w t path apart free bytes v
      → (q : FilePath) → contents_of v.fs q ≡ swap (ok tt) path bytes (contents_of w.fs) q
  replaced_contents v (env, after) q = ap (content_at v.fs) (after.names q) ∙ go (str_eq q path)
    where
      go :
          (b : Bool)
          → content_at v.fs (if b then some w.fs.next else w.fs.names q)
            ≡ (if b then some bytes else contents_of w.fs q)
      go true = ap some after.content
      go false = kept_at v (env, after) q (w.fs.names q) refl

pub dropping_ok :
    {A : Type 0} (m : M RevisionError A) (w : World) (a : A) (v : World)
    → m w ≡ (ok a, v)
    → v.pending ≡ none
    → dropping m w ≡ (ok a, v)
unfolding dropping
dropping_ok m w a v e clear =
    ap (λ p. (p.0, drop_world p.1.pending p.1)) e ∙ ap (λ q. (ok a, drop_world q v)) clear

module _ (w : World) (path : FilePath) (bytes : List ℕ) (expected : ExpectedRevision)
    (apart : str_eq path (temp_path (directory_of path) w.pid w.serial) ≡ false)
    (free : w.fs.names (temp_path (directory_of path) w.pid w.serial) ≡ none)
    (numbered : IsNumbered w.fs) (calm : IsCalm w.env) where
  -- What the write is to do, for an outcome of the comparison.
  abbrev pub Refines : Result RevisionError (Unit {0}) → Type 0
  Refines allowed =
      (r : Result RevisionError ConditionalWrite) × (v : World) × (conditional_write path bytes
          expected w
        ≡ (r, v))
      × Agrees v.fs path bytes r allowed
      × ((q : FilePath) → contents_of v.fs q ≡ swap allowed path bytes (contents_of w.fs) q)

  allowed_lem : refusal bytes expected w.fs (w.fs.names path) ≡ ok tt → Refines (ok tt)
  unfolding conditional_write Steps
  allowed_lem h =
      let t = temp_path (directory_of path) w.pid w.serial in
      let (small, h') = guard_ok (ltb max_read_bytes (length bytes)) too_large _ h in
      let (text, holds) = test_ok (is_utf8 bytes) unsupported_encoding _ h' in
      let (saved, v, e, (clear, replaced, same)) =
        Steps-write_body w path bytes expected apart free numbered calm small text holds in
      (
        ok saved,
        v,
        dropping_ok (write_body path bytes expected) w saved v e clear,
        read_published w t path bytes apart free numbered calm v replaced text small
            ∙ ap (λ r. ok (record { bytes = bytes; revision = r })) (sym same),
        replaced_contents w t path bytes apart free numbered v replaced,
      )

  refusal-Refines :
      w.pending ≡ none
      → (allowed : Result RevisionError (Unit {0}))
      → refusal bytes expected w.fs (w.fs.names path) ≡ allowed
      → Refines allowed
  refusal-Refines clean (ok _) h = allowed_lem h
  refusal-Refines clean (err e) h =
      let (n, run) = conditional_write-refused path bytes expected w e calm clean h in
      (err e, record w { now = n }, run, refl, λ q. refl)

  -- Where nobody else acts and no call fails, no temporary file is pending, the next temporary name is
  -- free and not the path itself, and no file has a number that is yet to be given: a conditional
  -- write is a compare-and-swap. It comes back; if its bytes are UTF-8 within the limit and the path
  -- is as expected, it succeeds, the path then has exactly those bytes, no other path changes its
  -- content, and a read of the path gives the revision that was returned; otherwise it answers why
  -- not, and no path changes its content.
  pub conditional_write-Refines :
      w.pending ≡ none → Refines (refusal bytes expected w.fs (w.fs.names path))
  conditional_write-Refines clean =
      refusal-Refines clean (refusal bytes expected w.fs (w.fs.names path)) refl
