-- ===== src/Read/Tail/Taken.antt =====
-- What `tail_read` of server/src/revisions/read.rs gives of a file to which others append meanwhile.
use emacs_relay.Common.{
  ℕ, ◌+◌, ◌-◌, ◌^◌, ◌≤◌, ◌<◌, min, ◌≡◌, refl, ap, sym, subst, ◌∙◌, ◌||◌, Bool-cases, inl, inr, some,
  List, [], arith, length, ltb, if◌then◌else◌, StandsAt,
}
use emacs_relay.Fs.{Metadata, FilePath, World, ok, >>=-elim, map_err-eq-ok}
use emacs_relay.Fs.Calls.{step}
use emacs_relay.Revision.{final_type}
use emacs_relay.Read.{refuse_type, open_checked}
use emacs_relay.Read.Rounds.{file_metadata_ok}
use emacs_relay.Read.Stable.{refuse_type_ok}
use emacs_relay.Read.Tail.{
  TailRead, Known, max_tail_bytes, differs, truncated_or_rotated, tail_start, tail_end, tail_bytes,
  tail_reply, tail_of, tail_read,
}
use emacs_relay.Read.Tail.Grown.{
  IsAppending, Appended, Appended-IsPreorder, Appended-step, length-Grown, at_end,
}
use emacs_relay.Read.Tail.Opened.{open_checked_ok}
use emacs_relay.Read.Tail.Pieces.{IsPiece, read_to_end-IsPiece}

module _ (path : FilePath) (i : ℕ) where
  abbrev content : World → List ℕ
  content w = (w.fs.inodes i).bytes

  -- The bytes that are wanted lie in the file.
  tail_bytes_ok :
      (start want_end : ℕ) (w : World) (bytes : List ℕ) (v : World)
      → IsAppending path i w.env
      → want_end ≤ length (content w)
      → tail_bytes i start want_end w ≡ (ok bytes, v)
      → StandsAt bytes start (content v) × (length bytes ≡ want_end - start) × Appended path i w v
  tail_bytes_ok start want_end w bytes v appending inside h =
      elim (Bool-cases (ltb start want_end)) [
        | inl wanted ↦
            let read : IsPiece path i start (want_end - start) [] w bytes v =
              read_to_end-IsPiece path i start (want_end - start) w bytes v appending
                (map_err-eq-ok _ _ w (rw wanted at h)) in
            (
              subst (λ p. StandsAt p start (content v)) (sym read.out_lem) read.stands,
              ap length read.out_lem ∙ read.whole (ground arith),
              read.grown,
            )
        | inr unwanted ↦
            at_end
              (λ out u.
                StandsAt out start (content u)
                × (length out ≡ want_end - start)
                × Appended path i w u)
              [] bytes w v (refl, ground arith, (Appended-IsPreorder path i).self w)
              (rw unwanted at h)
      ]

  -- The reply to a client that knows `known`, where others only append.
  pub record IsTaken (known : Known) (max_bytes : ℕ) (w : World) (t : TailRead) (v : World)
      : Type 0 where
    pub stands : StandsAt t.bytes t.start (content v)
    pub ends : t.actual_end ≡ t.start + length t.bytes
    pub reach : t.actual_end ≡ min (t.start + min max_bytes max_tail_bytes) t.file_size
    pub as_long : length (content w) ≤ t.file_size
    pub inside : t.file_size ≤ length (content v)
    pub dev : t.dev ≡ (v.fs.inodes i).metadata.dev
    pub ino : t.ino ≡ (v.fs.inodes i).metadata.ino
    pub flagged :
        t.truncated_or_rotated
        ≡ ((differs known.dev t.dev || differs known.ino t.ino) || ltb t.file_size known.offset)
    pub anchored : t.start ≡ (if t.truncated_or_rotated then 0 else known.offset)
    pub grown : Appended path i w v

  -- Saturation plays no part below 2 ^ 64, and the start is never behind the end of the file.
  reach_lem :
      (known : Known) (m : Metadata) (max_bytes n : ℕ)
      → m.size < 2 ^ 64
      → n ≡ tail_end known m max_bytes - tail_start known m
      → tail_start known m + n ≡ min (tail_start known m + min max_bytes max_tail_bytes) m.size
  unfolding truncated_or_rotated
  reach_lem known m max_bytes n small e = ground arith

  tail_reply-IsTaken :
      (known : Known) (max_bytes : ℕ) (m : Metadata) (bytes : List ℕ) (w u v : World)
      → IsAppending path i w.env
      → length (content v) < 2 ^ 64
      → m ≡ (u.fs.inodes i).metadata
      → m.size ≡ length (content u)
      → Appended path i w u
      → StandsAt bytes (tail_start known m) (content v)
        × (length bytes ≡ tail_end known m max_bytes - tail_start known m)
        × Appended path i u v
      → IsTaken known max_bytes w (tail_reply known m bytes) v
  unfolding truncated_or_rotated
  tail_reply-IsTaken known max_bytes m bytes w u v appending small at size before read =
      let now = read.2.1 (subst (IsAppending path i) (sym before.0) appending) in
      let later = length-Grown path i u.fs v.fs now in
      record {
        stands = read.0;
        ends = refl;
        reach = reach_lem known m max_bytes (length bytes) (omega (arith, later)) read.1;
        as_long = omega (arith, length-Grown path i w.fs u.fs (before.1 appending));
        inside = omega (arith, later);
        dev = ap (λ x. x.dev) at ∙ sym now.dev;
        ino = ap (λ x. x.ino) at ∙ sym now.ino;
        flagged = refl;
        anchored = refl;
        grown = (Appended-IsPreorder path i).chain w u v before read.2;
      }

  module _ (w : World) (appending : IsAppending path i w.env) (named : w.fs.names path ≡ some i)
      (sized : (w.fs.inodes i).metadata.size ≡ length (content w)) where
    tail_of-IsTaken :
        (known : Known) (max_bytes : ℕ) (u : World) (t : TailRead) (v : World)
        → Appended path i w u
        → length (content v) < 2 ^ 64
        → tail_of known max_bytes i u ≡ (ok t, v)
        → IsTaken known max_bytes w t v
    unfolding tail_of
    tail_of-IsTaken known max_bytes u t v before small h =
        let P = Appended-IsPreorder path i in
        >>=-elim _ _ u h λ m u1 e1 h1. >>=-elim (refuse_type (final_type m)) _ u1 h1 λ _ u2 e2 h2.
          >>=-elim (tail_bytes i (tail_start known m) (tail_end known m max_bytes)) _ u2 h2
            λ bytes u3 e3 h3.
              let (at, now) = file_metadata_ok i u (map_err-eq-ok _ _ u e1) in
              let (regular, same) = refuse_type_ok (final_type m) u1 e2 in
              let until : Appended path i w u2 =
                subst (Appended path i w) (sym (same ∙ now))
                  (P.chain w u (step u) before (Appended-step path i u)) in
              let here : m ≡ (u2.fs.inodes i).metadata =
                at ∙ ap (λ x. (x.fs.inodes i).metadata) (sym same) in
              let size : m.size ≡ length (content u2) =
                ap (λ x. x.size) here ∙ (until.1 appending).sized sized in
              let still = subst (IsAppending path i) (sym until.0) appending in
              at_end (λ t v. length (content v) < 2 ^ 64 → IsTaken known max_bytes w t v)
                (tail_reply known m bytes) t u3 v
                (λ small'.
                  tail_reply-IsTaken known max_bytes m bytes w u2 u3 appending small' here size
                    until
                    (tail_bytes_ok (tail_start known m) (tail_end known m max_bytes) u2 bytes u3
                      still (ground (arith, size)) e3))
                h3 small

    pub tail_read-IsTaken :
        (known : Known) (max_bytes : ℕ) (t : TailRead) (v : World)
        → length (content v) < 2 ^ 64
        → tail_read path known max_bytes w ≡ (ok t, v)
        → IsTaken known max_bytes w t v
    unfolding tail_read
    tail_read-IsTaken known max_bytes t v small h =
        >>=-elim (open_checked path) (tail_of known max_bytes) w h λ fd u e h1.
          let (at, before) = open_checked_ok path i w fd u appending named e in
          tail_of-IsTaken known max_bytes u t v before small
            (subst (λ j. tail_of known max_bytes j u ≡ (ok t, v)) at h1)
