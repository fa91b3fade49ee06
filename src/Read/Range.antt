-- ===== src/Read/Range.antt =====
-- What `read_range` of server/src/revisions/read.rs returns.
use emacs_relay.Common.{
  ℕ, ◌-◌, ◌≤◌, ◌<◌, min, ◌≡◌, ap, sym, subst, ◌∙◌, ◌||◌, false, Option, none, some, List, [], ltb,
  ltb→lt, Bool-cases, inl, inr, take, drop, arith,
}
use emacs_relay.Fs.{Metadata, FilePath, World, Result, ok, >>=-elim, map_err-eq-ok}
use emacs_relay.Fs.Calls.{step}
use emacs_relay.Fs.Kept.{Onward-between, IsTimed}
use emacs_relay.Revision.{RevisionError, read_attempts, final_type}
use emacs_relay.Revision.Facts.{metadata_equal_iff}
use emacs_relay.Read.{
  open_checked, compare_range, range_body, range_attempt, read_range, max_range_bytes,
}
use emacs_relay.Read.ReadOnly.{
  Untouched, Untouched-IsPreorder, Untouched-step, Keeps-open_checked, Keeps-range_attempt,
}
use emacs_relay.Read.Rounds.{Runs, Runs-step, Runs-IsTimed, file_metadata_ok, read_to_end_ok}
use emacs_relay.Read.Stable.{refuse_type_ok, refuse_if_ok, IsTimed-later, attempts_ok}

-- The bytes from `start` to `end` of a regular file with one name, cut off at the size that its metadata
-- give.
abbrev pub IsRange : ℕ → ℕ → List ℕ → ℕ → World → Type 0
IsRange start end bytes fd v =
    let node = v.fs.inodes fd in
    (final_type node.metadata ≡ none)
    × (bytes ≡ take (min end node.metadata.size - start) (drop start node.bytes))

compare_range_ok :
    (before after : Metadata) (bytes : List ℕ) (w : World) {r : List ℕ} {v : World}
    → compare_range before after bytes w ≡ (ok (some r), v)
    → (after ≡ before) × (r ≡ bytes) × (v ≡ w)
compare_range_ok before after bytes w h = ground (arith, metadata_equal_iff before after)

ranges_agree :
    (start end fd : ℕ) (before : Metadata) (bytes r : List ℕ) (after : Metadata) (w u1 u2 v : World)
    → IsTimed w.env
    → before ≡ (w.fs.inodes fd).metadata
    → final_type before ≡ none
    → Runs fd w u1
      × (u1.fs.inodes fd ≡ w.fs.inodes fd
          → bytes ≡ take (min end before.size - start) (drop start (w.fs.inodes fd).bytes))
    → (after ≡ (u2.fs.inodes fd).metadata) × (u2 ≡ step u1)
    → (after ≡ before) × (r ≡ bytes) × (v ≡ u2)
    → IsRange start end r fd v
ranges_agree start end fd before bytes r after w u1 u2 v timed first regular read second same =
    let x = w.fs.inodes fd in
    let y = (step u1).fs.inodes fd in
    let at : v ≡ step u1 = same.2 ∙ second.1 in
    let last : after ≡ y.metadata = second.0 ∙ ap (λ u. (u.fs.inodes fd).metadata) second.1 in
    let still : (u1.fs.inodes fd ≡ x) × (y ≡ u1.fs.inodes fd) =
      Onward-between x (u1.fs.inodes fd) y read.0.1
        (Runs-step fd u1 (Runs-IsTimed fd w u1 read.0 timed)).1 (sym last ∙ same.0 ∙ first) in
    subst (IsRange start end r fd) (sym at) (
      subst (λ m. final_type m ≡ none) (sym same.0 ∙ last) regular,
      same.1
          ∙ read.1 still.0
          ∙ ap (λ m. take (min end m.size - start) (drop start x.bytes)) (sym same.0 ∙ last)
          ∙ ap (λ z. take (min end y.metadata.size - start) (drop start z.bytes))
              (sym (still.1 ∙ still.0)),
    )

-- Nothing lies behind the end of the file.
past_end :
    (start end fd : ℕ) (before : Metadata) (r : List ℕ) (w v : World)
    → before ≡ (w.fs.inodes fd).metadata
    → final_type before ≡ none
    → min end before.size < start
    → ◌≡◌ {A = Result RevisionError (Option (List ℕ)) × World} (ok (some []), w) (ok (some r), v)
    → IsRange start end r fd v
past_end start end fd before r w v first regular behind h =
    let none_left : min end before.size - start ≡ 0 = omega arith in
    subst (IsRange start end r fd) (ap (λ p. p.1) h) (
      subst (λ m. final_type m ≡ none) first regular,
      subst (λ m. r ≡ take (min end m.size - start) (drop start (w.fs.inodes fd).bytes)) first
          (rw none_left cc),
    )

range_body-IsRange :
    (start end fd : ℕ) (before : Metadata) (w : World) (r : List ℕ) (v : World)
    → IsTimed w.env
    → before ≡ (w.fs.inodes fd).metadata
    → final_type before ≡ none
    → range_body start end fd before w ≡ (ok (some r), v)
    → IsRange start end r fd v
unfolding range_body
range_body-IsRange start end fd before w r v timed first regular h =
    elim (Bool-cases (ltb (min end before.size) start)) [
      | inl behind ↦
          past_end start end fd before r w v first regular
            (ltb→lt (min end before.size) start behind) (rw (behind, range_body) at h)
      | inr within ↦ >>=-elim _ _ w (rw (within, range_body) at h) λ bytes u1 e1 h1.
          >>=-elim _ _ u1 h1 λ after u2 e2 h2.
            ranges_agree start end fd before bytes r after w u1 u2 v timed first regular
              (read_to_end_ok fd start (min end before.size - start) w timed
                (map_err-eq-ok _ _ w e1))
              (file_metadata_ok fd u1 (map_err-eq-ok _ _ u1 e2))
              (compare_range_ok before after bytes u2 h2)
    ]

range_attempt-IsRange :
    (path : FilePath) (start end : ℕ) (w : World) (r : List ℕ) (v : World)
    → IsTimed w.env
    → range_attempt path start end w ≡ (ok (some r), v)
    → (fd : ℕ) × IsRange start end r fd v
unfolding range_attempt
range_attempt-IsRange path start end w r v timed h = >>=-elim _ _ w h λ fd u1 e1 h1.
    >>=-elim _ _ u1 h1 λ before u2 e2 h2. >>=-elim _ _ u2 h2 λ _ u3 e3 h3.
      let timed1 =
        IsTimed-later (open_checked path) w
          (Keeps-open_checked Untouched Untouched-IsPreorder Untouched-step path) timed e1 in
      let (first, s2) = file_metadata_ok fd u1 (map_err-eq-ok _ _ u1 e2) in
      let (regular, s3) = refuse_type_ok _ u2 e3 in
      (
        fd,
        range_body-IsRange start end fd before u3 r v
            (subst (λ u. IsTimed u.env) (sym (s3 ∙ s2)) timed1)
            (first ∙ ap (λ u. (u.fs.inodes fd).metadata) (sym s3)) regular h3,
      )

-- If every change of a file moves its change time, a range read that succeeds was asked for at most one
-- megabyte, the right way round, and returns exactly that range of one state of a regular file.
pub read_range-IsRange :
    (path : FilePath) (start end : ℕ) (w : World) {bytes : List ℕ} {v : World}
    → IsTimed w.env
    → read_range path start end w ≡ (ok bytes, v)
    → (start ≤ end) × (end - start ≤ max_range_bytes) × (fd : ℕ) × IsRange start end bytes fd v
unfolding read_range
read_range-IsRange path start end w {bytes} {v} timed h = >>=-elim _ _ w h λ _ u e rest.
    let (allowed, s) = refuse_if_ok _ _ w e in
    let (fd, range) =
      attempts_ok (λ r' v'. (fd : ℕ) × IsRange start end r' fd v') (range_attempt path start end)
        (Keeps-range_attempt Untouched Untouched-IsPreorder Untouched-step path start end)
        (λ w' r' v'. range_attempt-IsRange path start end w' r' v') read_attempts u bytes v
        (subst (λ x. IsTimed x.env) (sym s) timed) rest in
    (in_order allowed, short allowed, fd, range)
  where
    in_order : (ltb end start || ltb max_range_bytes (end - start)) ≡ false → start ≤ end
    in_order q = ground arith

    short :
        (ltb end start || ltb max_range_bytes (end - start)) ≡ false → end - start ≤ max_range_bytes
    short q = ground arith
