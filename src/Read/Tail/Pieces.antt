-- ===== src/Read/Tail/Pieces.antt =====
-- The loop of `read_to_end` under `tail_read` of server/src/revisions/read.rs, where others only append.
use emacs_relay.Common.{
  ℕ, zero, suc, ◌+◌, ◌-◌, ◌≤◌, ◌<◌, min, ◌≡◌, refl, ap, sym, subst, ◌∙◌, inl, inr, arith, List, [],
  ◌∷◌, ◌++◌, append-nil, append_assoc, Bool-cases, ◌==◌, length, take, drop, length-append,
  length-take, length-drop, StandsAt, StandsAt-chain, take-StandsAt,
}
use emacs_relay.Fs.{FilePath, IoError, World, ok, M, >>=-elim}
use emacs_relay.Fs.Calls.{seen, step, read_some, read_on, read_rounds, read_to_end}
use emacs_relay.Read.Rounds.{read_some_ok}
use emacs_relay.Read.Tail.Grown.{
  IsAppending, Appended, Appended-IsPreorder, Appended-step, StandsAt-Grown, length-Grown, at_end,
}

module _ (path : FilePath) (i : ℕ) where
  -- What the loop of `read_to_end` gives: a piece of the file, and all that was asked for if it was there.
  pub record IsPiece (offset limit : ℕ) (acc : List ℕ) (w : World) (out : List ℕ) (v : World)
      : Type 0 where
    pub piece : List ℕ
    pub out_lem : out ≡ acc ++ piece
    pub stands : StandsAt piece offset (v.fs.inodes i).bytes
    pub grown : Appended path i w v
    pub whole : offset + limit ≤ length (w.fs.inodes i).bytes → length piece ≡ limit

  module _ (w : World) (appending : IsAppending path i w.env) where
    -- Nothing more was read.
    stopped :
        (offset limit : ℕ) (acc : List ℕ) (u : World)
        → Appended path i w u
        → (offset + limit ≤ length (w.fs.inodes i).bytes → limit ≡ 0)
        → IsPiece offset limit acc w acc u
    stopped offset limit acc u g none_left = record {
      piece = [];
      out_lem = sym (append-nil acc);
      stands = refl;
      grown = g;
      whole = λ inside. sym (none_left inside);
    }

    -- One piece was read, and the rounds behind it give the next one.
    joined :
        (offset limit : ℕ) (acc p out : List ℕ) (v : World)
        → StandsAt p offset ((seen w).inodes i).bytes
        → length p ≤ limit
        → IsPiece (offset + length p) (limit - length p) (acc ++ p) (step w) out v
        → IsPiece offset limit acc w out v
    joined offset limit acc p out v here short ih = record {
      piece = p ++ ih.piece;
      out_lem = ih.out_lem ∙ append_assoc acc p ih.piece;
      stands =
          StandsAt-chain p ih.piece offset (v.fs.inodes i).bytes
            (StandsAt-Grown path i p offset (seen w) v.fs (ih.grown.1 appending) here) ih.stands;
      grown = (Appended-IsPreorder path i).chain w (step w) v (Appended-step path i w) ih.grown;
      whole = λ inside.
          let before = length-Grown path i w.fs (seen w) (appending.appends w.now w.fs) in
          omega (arith, ih.whole (omega (arith, before)), length-append p ih.piece);
    }

    -- The call gives nothing only where the file ends.
    after_read :
        (fuel offset limit k : ℕ) (acc : List ℕ)
        → 0 < k
        → k ≤ limit
        → ((p out : List ℕ) (v : World)
            → 0 < length p
            → read_rounds fuel i (offset + length p) (limit - length p) (acc ++ p) (step w)
              ≡ (ok out, v)
            → IsPiece (offset + length p) (limit - length p) (acc ++ p) (step w) out v)
        → (p out : List ℕ) (v : World) → p ≡ take k (drop offset ((seen w).inodes i).bytes)
        → read_on
            (λ p. read_rounds fuel i (offset + length p) (limit - length p) (acc ++ p))
            acc
            p
            (step w)
          ≡ (ok out, v)
        → IsPiece offset limit acc w out v
    after_read fuel offset limit k acc pos within ih [] out v e h =
        at_end (λ out v. IsPiece offset limit acc w out v) acc out (step w) v
          (stopped offset limit acc (step w) (Appended-step path i w) λ inside. omega (
            arith,
            ap length e,
            length-take k (drop offset ((seen w).inodes i).bytes),
            length-drop offset ((seen w).inodes i).bytes,
            length-Grown path i w.fs (seen w) (appending.appends w.now w.fs),
          ))
          h
    after_read fuel offset limit k acc pos within ih (b ∷ p) out v e h =
        let content = ((seen w).inodes i).bytes in
        joined offset limit acc (b ∷ p) out v
          (subst (λ q. StandsAt q offset content) (sym e) (take-StandsAt k offset content))
          (omega (arith, ap length e, length-take k (drop offset content)))
          (ih (b ∷ p) out v (omega arith) h)

  read_rounds-IsPiece :
      (fuel offset limit : ℕ) (acc : List ℕ) (w : World) (out : List ℕ) (v : World)
      → IsAppending path i w.env
      → limit ≤ fuel
      → read_rounds fuel i offset limit acc w ≡ (ok out, v)
      → IsPiece offset limit acc w out v
  unfolding read_rounds
  read_rounds-IsPiece zero offset limit acc w out v appending enough h =
      at_end (λ out v. IsPiece offset limit acc w out v) acc out w v
        (stopped w appending offset limit acc w ((Appended-IsPreorder path i).self w)
          (λ _. omega arith))
        h
  read_rounds-IsPiece (suc fuel) offset limit acc w out v appending enough h =
      elim (Bool-cases (limit == 0)) [
        | inl stop ↦
            at_end (λ out v. IsPiece offset limit acc w out v) acc out w v
              (stopped w appending offset limit acc w ((Appended-IsPreorder path i).self w)
                (λ _. ground arith))
              (rw (stop, read_rounds) at h)
        | inr go_on ↦
            let next : List ℕ → M IoError (List ℕ) =
              λ p. read_rounds fuel i (offset + length p) (limit - length p) (acc ++ p) in
            >>=-elim (read_some i offset limit) (read_on next acc) w (rw (go_on, read_rounds) at h)
              λ p u e rest.
                let (piece, now) = read_some_ok i offset limit w e in
                after_read w appending fuel offset limit (min limit (suc (w.env w.now).chunk)) acc
                  (ground arith) (omega arith)
                  (λ q out v some_read run.
                    read_rounds-IsPiece fuel (offset + length q) (limit - length q) (acc ++ q)
                      (step w) out v appending (omega arith) run)
                  p out v piece (subst (λ u. read_on next acc p u ≡ (ok out, v)) now rest)
      ]

  pub read_to_end-IsPiece :
      (offset limit : ℕ) (w : World) (out : List ℕ) (v : World)
      → IsAppending path i w.env
      → read_to_end i offset limit w ≡ (ok out, v)
      → IsPiece offset limit [] w out v
  unfolding read_to_end
  read_to_end-IsPiece offset limit w out v appending h =
      read_rounds-IsPiece limit offset limit [] w out v appending (omega arith) h
