-- ===== src/Read/Tail/Lengths.antt =====
-- How much `tail_read` of server/src/revisions/read.rs reads at most.
use emacs_relay.Common.{
  ℕ, zero, suc, ◌+◌, ◌-◌, ◌≤◌, min, ◌≡◌, ap, sym, List, [], ◌∷◌, ◌++◌, length, length-append,
  length-take, ltb, Bool-cases, inl, inr, ◌==◌, arith, drop,
}
use emacs_relay.Fs.{World, IoError, Result, ok, err, M, >>=-elim, map_err-eq-ok}
use emacs_relay.Fs.Calls.{seen, read_rounds, read_to_end, read_on, read_some}
use emacs_relay.Read.Rounds.{read_some_ok}
use emacs_relay.Read.Tail.Moments.{}
use emacs_relay.Read.Tail.{tail_bytes}

abbrev value_or : {E A : Type 0} → A → Result E A → A
value_or a (ok b) = b
value_or a (err e) = a

returned :
    {E A : Type 0} (a : A) (w : World) (b : A) (v : World)
    → ◌≡◌ {A = Result E A × World} (ok a, w) (ok b, v)
    → b ≡ a
returned a w b v h = sym (ap (λ p. value_or a p.0) h)

-- A piece of at most `limit` bytes and then at most what is left of the limit.
within_limit :
    (acc : List ℕ) (limit : ℕ) (more : List ℕ → M IoError (List ℕ)) (u : World) (out : List ℕ)
    (v : World)
    → ((p : List ℕ) → more p u ≡ (ok out, v) → length out ≤ length (acc ++ p) + (limit - length p))
    → (piece : List ℕ) → length piece ≤ limit
    → read_on more acc piece u ≡ (ok out, v)
    → length out ≤ length acc + limit
within_limit acc limit more u out v ih [] h e = omega (arith, ap length (returned acc u out v e))
within_limit acc limit more u out v ih (b ∷ piece) h e =
    omega (arith, ih (b ∷ piece) e, length-append acc (b ∷ piece))

-- `take(limit)` is kept by every run of the loop.
length-read_rounds :
    (fuel fd offset limit : ℕ) (acc : List ℕ) (w : World) (out : List ℕ) (v : World)
    → read_rounds fuel fd offset limit acc w ≡ (ok out, v)
    → length out ≤ length acc + limit
unfolding read_rounds
length-read_rounds zero fd offset limit acc w out v h =
    omega (arith, ap length (returned acc w out v h))
length-read_rounds (suc fuel) fd offset limit acc w out v h = elim (Bool-cases (limit == 0)) [
  | inl stop ↦ omega (arith, ap length (returned acc w out v (rw (stop, read_rounds) at h)))
  | inr more ↦
      let next : List ℕ → M IoError (List ℕ) =
        λ p. read_rounds fuel fd (offset + length p) (limit - length p) (acc ++ p) in
      >>=-elim (read_some fd offset limit) (read_on next acc) w (rw (more, read_rounds) at h)
        λ piece u e rest.
          within_limit acc limit next u out v
            (λ p.
              length-read_rounds fuel fd (offset + length p) (limit - length p) (acc ++ p) u out v)
            piece
            (omega (
              arith,
              ap length (read_some_ok fd offset limit w e).0,
              length-take (min limit (suc (w.env w.now).chunk))
                  (drop offset ((seen w).inodes fd).bytes),
            ))
            rest
]

length-read_to_end :
    (fd offset limit : ℕ) (w : World) {out : List ℕ} {v : World}
    → read_to_end fd offset limit w ≡ (ok out, v)
    → length out ≤ limit
unfolding read_to_end
length-read_to_end fd offset limit w {out} {v} h =
    omega (arith, length-read_rounds limit fd offset limit [] w out v h)

pub length-tail_bytes :
    (fd start want_end : ℕ) (w : World) (out : List ℕ) (v : World)
    → tail_bytes fd start want_end w ≡ (ok out, v)
    → length out ≤ want_end - start
length-tail_bytes fd start want_end w out v h = elim (Bool-cases (ltb start want_end)) [
  | inl some_wanted ↦
      length-read_to_end fd start (want_end - start) w (map_err-eq-ok _ _ w (rw some_wanted at h))
  | inr none_wanted ↦ omega (arith, ap length (returned [] w out v (rw none_wanted at h)))
]
