-- ===== src/Write/Effects/Checked.antt =====
-- What the checks and the publishing calls of server/src/revisions/write.rs say when they succeed.
use emacs_relay.Common.{
  ℕ, ◌≡◌, refl, sym, subst, true, Option, none, some, String, List, [], ◌∷◌, arith,
}
use emacs_relay.Fs.{Metadata, FilePath, FileSystem, World, ok, err, >>=-elim, Tick, linked}
use emacs_relay.Fs.Calls.{seen, no_such_file}
use emacs_relay.Fs.Names.{hard_link, link_onto}
use emacs_relay.Fs.Kept.{IsTimed, mutate_ok}
use emacs_relay.Revision.{Revision, RevisionRead, ExpectedRevision, ConditionalWrite, final_type}
use emacs_relay.Revision.Facts.{revision_eq_iff}
use emacs_relay.Read.{checked_lstat, read_with_revision}
use emacs_relay.Read.Stable.{IsTimed-later, Describes, read_with_revision-Describes, refuse_if_ok}
use emacs_relay.Read.ReadOnly.{Untouched, Untouched-IsPreorder, Untouched-step, Keeps-checked_lstat}
use emacs_relay.Write.{
  conflict_for_existing, expect_present, compare_existing, compare_current, compare_published,
  bytes_eq,
}

bytes_eq-true : (xs ys : List ℕ) → bytes_eq xs ys ≡ true → xs ≡ ys
bytes_eq-true [] [] h = refl
bytes_eq-true [] (y ∷ ys) h = cc
bytes_eq-true (x ∷ xs) [] h = cc
bytes_eq-true (x ∷ xs) (y ∷ ys) h = ground (arith, bytes_eq-true xs ys)

-- What the last check before publication found: the expected revision, of a regular file with some
-- content.
abbrev pub Found : Revision → World → Type 0
Found e u =
    (content : List ℕ) × (fd : ℕ) × Describes (record { bytes = content; revision = e }) fd u

compare_current_ok :
    (e : Revision) (current : RevisionRead) (w : World) {x : Unit {0}} {v : World}
    → compare_current e current w ≡ (ok x, v)
    → (current.revision ≡ e) × (v ≡ w)
compare_current_ok e current w h = ground (arith, revision_eq_iff current.revision e)

pub compare_published_ok :
    (bytes : List ℕ) (published : RevisionRead) (w : World) {r : ConditionalWrite} {v : World}
    → compare_published bytes published w ≡ (ok r, v)
    → (published.bytes ≡ bytes) × (published.revision ≡ r.revision) × (v ≡ w)
compare_published_ok bytes published w h = ground (arith, bytes_eq-true published.bytes bytes)

compare_existing_ok :
    (e : Revision) (path : FilePath) (t : Option String) (w : World) {x : Unit {0}} {v : World}
    → IsTimed w.env
    → compare_existing e path t w ≡ (ok x, v)
    → Found e v
compare_existing_ok e path (some kind) w timed h = cc
compare_existing_ok e path none w {x} {v} timed h =
    >>=-elim (read_with_revision path) (compare_current e) w h λ current u e1 h1.
      let (fd, describes) = read_with_revision-Describes path w timed e1 in
      let (same, back) = compare_current_ok e current u h1 in
      (
        current.bytes,
        fd,
        subst (λ z. Describes (record { bytes = current.bytes; revision = z }) fd v) same
            (subst (Describes current fd) (sym back) describes),
      )

expect_present_ok :
    (e : Revision) (path : FilePath) (m : Option Metadata) (w : World) {x : Unit {0}} {v : World}
    → IsTimed w.env
    → expect_present e path m w ≡ (ok x, v)
    → Found e v
expect_present_ok e path none w timed h = cc
expect_present_ok e path (some m) w timed h = compare_existing_ok e path (final_type m) w timed h

-- A check of an expected revision that lets the write go on.
pub conflict_for_existing-Found :
    (e : Revision) (path : FilePath) (w : World) {x : Unit {0}} {v : World}
    → IsTimed w.env
    → conflict_for_existing (ExpectedRevision.present e) path w ≡ (ok x, v)
    → Found e v
unfolding conflict_for_existing
conflict_for_existing-Found e path w timed h = >>=-elim _ _ w h λ _ u1 e1 h1.
    >>=-elim (checked_lstat path) (expect_present e path) u1 h1 λ m u2 e2 h2.
      let (_, back) = refuse_if_ok _ _ w e1 in
      expect_present_ok e path m u2
        (IsTimed-later (checked_lstat path) u1
          (Keeps-checked_lstat Untouched Untouched-IsPreorder Untouched-step path)
          (subst (λ u. IsTimed u.env) (sym back) timed) e2)
        h2

link_onto_ok :
    (t : Tick) (fs : FileSystem) (to : FilePath) (i : ℕ) (j : Option ℕ) {r : Unit {0} × FileSystem}
    → link_onto t fs to i j ≡ ok r
    → j ≡ none
link_onto_ok t fs to i none h = refl
link_onto_ok t fs to i (some j) h = cc

pub hard_link_ok :
    (from to : FilePath) (w : World) {x : Unit {0}} {v : World}
    → hard_link from to w ≡ (ok x, v)
    → (seen w).names to ≡ none
unfolding hard_link
hard_link_ok from to w h =
    let (fs, e, _) = mutate_ok (linked from to) _ w h in go ((seen w).names from) e
  where
    go :
        (i : Option ℕ) {r : Unit {0} × FileSystem}
        → elim i [
          | none ↦ err no_such_file
          | some i ↦ link_onto (w.env w.now) (seen w) to i ((seen w).names to)
        ]
          ≡ ok r
        → (seen w).names to ≡ none
    go none e = cc
    go (some i) e = link_onto_ok (w.env w.now) (seen w) to i ((seen w).names to) e
