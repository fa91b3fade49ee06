-- ===== src/Write/Success.antt =====
-- A whole conditional write, server/src/revisions/write.rs, that succeeds.
use emacs_relay.Common.{
  ℕ, ◌≡◌, ◌≤◌, refl, ap, sym, subst, ◌∙◌, Bool, true, false, not, Option, none, List, length,
  is_utf8, ltb→le,
}
use emacs_relay.Fs.{FilePath, World, Result, ok, err, M, ◌>>=◌, ◌>>◌, >>=-elim}
use emacs_relay.Fs.Kept.{IsTimed}
use emacs_relay.Fs.Keeps.{Keeps_result}
use emacs_relay.Revision.{ExpectedRevision, ConditionalWrite, max_read_bytes}
use emacs_relay.Read.{checked_lstat, read_with_revision}
use emacs_relay.Read.Stable.{Describes, read_with_revision-Describes, refuse_if_ok}
use emacs_relay.Read.ReadOnly.{
  Untouched, Untouched-IsPreorder, Untouched-step, Keeps-checked_lstat, Keeps-read_with_revision,
}
use emacs_relay.Write.{
  conflict_for_existing, compare_published, publish, stage, write_body, dropping, conditional_write,
  directory_of, new_temp, drop_world,
}
use emacs_relay.Write.ReadOnly.{Keeps-conflict_for_existing}
use emacs_relay.Write.Effects.{Confined, Confined-IsPreorder, Confined-step, Keeps-given}
use emacs_relay.Write.Effects.Steps.{Own, Gives-new_temp, Keeps-publish}
use emacs_relay.Write.Effects.Checked.{compare_published_ok}
use emacs_relay.Write.Effects.Success.{Agreed, publish_ok, stage_ok, Sound, Sound-later, given_ok}

-- The steps of a run from `w` to `v` that publishes: the first check, the temporary file with the second
-- check at its end, the publication in a world that agrees with the expectation, and the last read.
pub record Published (path : FilePath) (bytes : List ℕ) (expected : ExpectedRevision) (w : World)
    (r : ConditionalWrite) (v : World) : Type 0 where
  pub after_check : World
  pub after_look : World
  pub after_open : World
  pub before : World
  pub after : World
  pub original : Option emacs_relay.Fs.Metadata
  pub temp : FilePath × ℕ
  pub checked : conflict_for_existing expected path w ≡ (ok tt, after_check)
  pub looked : checked_lstat path after_check ≡ (ok original, after_look)
  pub opened : new_temp 100 (directory_of path) after_look ≡ (ok temp, after_open)
  pub staged : stage path bytes expected original temp after_open ≡ (ok tt, before)
  pub agreed : Agreed expected path before
  pub published : publish expected temp.0 path before ≡ (ok tt, after)
  pub verified : (read_with_revision path >>= compare_published bytes) after ≡ (ok r, v)

-- The file at the end: the bytes that were sent, under the revision that is returned.
abbrev pub Holds : List ℕ → ConditionalWrite → World → Type 0
Holds bytes r v = (fd : ℕ) × Describes (record { bytes = bytes; revision = r.revision }) fd v

accepted : (b : Bool) → not b ≡ false → b ≡ true
accepted true h = refl
accepted false h = cc

module _ (path : FilePath) (bytes : List ℕ) (expected : ExpectedRevision) where
  published_ok :
      (w : World) {r : ConditionalWrite} {v : World}
      → IsTimed w.env
      → w.pending ≡ none
      → (read_with_revision path >>= compare_published bytes) w ≡ (ok r, v)
      → Holds bytes r v × (v.pending ≡ none)
  published_ok w {r} {v} timed clear h =
      >>=-elim (read_with_revision path) (compare_published bytes) w h λ published u e rest.
        let (fd, describes) = read_with_revision-Describes path w timed e in
        let (same, revised, back) = compare_published_ok bytes published u rest in
        let untouched =
          Keeps_result Untouched (read_with_revision path)
            (Keeps-read_with_revision Untouched Untouched-IsPreorder Untouched-step path) w e in
        (
          (
            fd,
            subst (λ z. Describes z fd v) (λ i. record { bytes = same i; revision = revised i })
                (subst (Describes published fd) (sym back) describes),
          ),
          ap (λ u'. u'.pending) back ∙ untouched.pending ∙ clear,
        )

  -- From the open temporary file on.
  after_temp_ok :
      (original : Option emacs_relay.Fs.Metadata) (temp : FilePath × ℕ) (w : World)
      {r : ConditionalWrite} {v : World}
      → Own w.pid path expected temp
      → IsTimed w.env
      → (stage path bytes expected original temp
            >> (publish expected temp.0 path
                >> (read_with_revision path >>= compare_published bytes)))
          w
        ≡ (ok r, v)
      → ((u : World) × (x : World) × (stage path bytes expected original temp w ≡ (ok tt, u))
          × Agreed expected path u
          × (publish expected temp.0 path u ≡ (ok tt, x))
          × ((read_with_revision path >>= compare_published bytes) x ≡ (ok r, v)))
        × Holds bytes r v
        × (v.pending ≡ none)
  after_temp_ok original temp w {r} {v} own timed h =
      >>=-elim (stage path bytes expected original temp) _ w h λ _ u1 e1 h1.
        >>=-elim (publish expected temp.0 path) _ u1 h1 λ _ u2 e2 h2.
          let (u, sound, check) =
            stage_ok w.pid path expected bytes original temp w own (refl, timed) e1 in
          let sound1 =
            Sound-later w.pid path expected (conflict_for_existing expected path) u
              (Keeps-conflict_for_existing (Confined w.pid path expected)
                (Confined-IsPreorder w.pid path expected) (Confined-step w.pid path expected)
                expected path)
              check sound in
          let sound2 =
            Sound-later w.pid path expected (publish expected temp.0 path) u1
              (Keeps-publish w.pid path expected temp.0 own expected refl) e2 sound1 in
          let (agreed, clear) = publish_ok expected temp.0 path u u1 sound.1 check e2 in
          let (holds, still) = published_ok u2 sound2.1 clear h2 in
          ((u1, u2, e1, agreed, e2, h2), holds, still)

  write_body_ok :
      (w : World) {r : ConditionalWrite} {v : World}
      → IsTimed w.env
      → write_body path bytes expected w ≡ (ok r, v)
      → (length bytes ≤ max_read_bytes)
        × (is_utf8 bytes ≡ true)
        × Published path bytes expected w r v
        × Holds bytes r v
        × (v.pending ≡ none)
  unfolding write_body
  write_body_ok w {r} {v} timed h = >>=-elim _ _ w h λ _ u1 e1 h1. >>=-elim _ _ u1 h1 λ _ u2 e2 h2.
      >>=-elim (conflict_for_existing expected path) _ u2 h2 λ _ u3 e3 h3.
        >>=-elim (checked_lstat path) _ u3 h3 λ original u4 e4 h4.
          >>=-elim (new_temp 100 (directory_of path)) _ u4 h4 λ temp u5 e5 h5.
            let (small, s1) = refuse_if_ok _ _ w e1 in
            let (text, s2) = refuse_if_ok _ _ u1 e2 in
            let R = Confined w.pid path expected in
            let P = Confined-IsPreorder w.pid path expected in
            let others = Confined-step w.pid path expected in
            let back = sym (s2 ∙ s1) in
            let sound4 =
              Sound-later w.pid path expected (checked_lstat path) u3
                (Keeps-checked_lstat R P others path) e4
                (Sound-later w.pid path expected (conflict_for_existing expected path) u2
                  (Keeps-conflict_for_existing R P others expected path) e3
                  (subst (Sound w.pid path expected) back (refl, timed))) in
            let new = Gives-new_temp w.pid path expected 100 in
            let own = given_ok w.pid path expected (Own w.pid path expected) _ u4 new e5 sound4.0 in
            let sound5 =
              Sound-later w.pid path expected (new_temp 100 (directory_of path)) u4
                (Keeps-given w.pid path expected (Own w.pid path expected) _ new) e5 sound4 in
            let (run, holds, clear) =
              after_temp_ok original temp u5
                (subst (λ n. Own n path expected temp) (sym sound5.0) own) sound5.1 h5 in
            (
              ltb→le max_read_bytes (length bytes) small,
              accepted (is_utf8 bytes) text,
              record {
                after_check = u3;
                after_look = u4;
                after_open = u5;
                before = run.0;
                after = run.1;
                original = original;
                temp = temp;
                checked =
                    subst (λ u. conflict_for_existing expected path u ≡ (ok tt, u3)) (sym back) e3;
                looked = e4;
                opened = e5;
                staged = run.2;
                agreed = run.3;
                published = run.4;
                verified = run.5;
              },
              holds,
              clear,
            )

-- If every change of a file moves its change time, then a conditional write that succeeds was of at most
-- 16 megabytes of UTF-8; in its run both checks passed and a file was published over the path when the
-- path was as expected: the last thing seen before was a regular file with the expected revision, or at
-- that moment nothing had the name; and at the end there is a regular file that holds exactly those
-- bytes under the returned revision.
pub conditional_write-Holds :
    (path : FilePath) (bytes : List ℕ) (expected : ExpectedRevision) (w : World)
    {r : ConditionalWrite} {v : World}
    → IsTimed w.env
    → conditional_write path bytes expected w ≡ (ok r, v)
    → (length bytes ≤ max_read_bytes)
      × (is_utf8 bytes ≡ true)
      × Published path bytes expected w r v
      × Holds bytes r v
unfolding conditional_write dropping
conditional_write-Holds path bytes expected w {r} {v} timed h =
    let u = (write_body path bytes expected w).1 in
    let (small, text, published, holds, clear) =
      write_body_ok path bytes expected w timed (ap (λ p. (p.0, u)) h) in
    let same = ap (λ p. drop_world p u) (sym clear) ∙ ap (λ p. p.1) h in
    (
      small,
      text,
      subst (Published path bytes expected w r) same published,
      subst (Holds bytes r) same holds,
    )
