-- ===== src/Read/Rounds.antt =====
-- `take(limit).read_to_end` on a file that stays as it is reads that part of the file, in however many
-- short reads the kernel answers.
use emacs_relay.Common.{
  ℕ, zero, suc, ◌+◌, ◌-◌, ◌≤◌, ◌<◌, min, ◌≡◌, refl, ap, sym, subst, ◌∙◌, inl, inr, arith, List, [],
  ◌∷◌, false, ◌++◌, append-nil, append_assoc, Bool-cases, ◌==◌, ==_iff, length, take, drop,
  take-nil, take-eq-nil, take_more, drop_add,
}
use emacs_relay.Fs.{Metadata, IoError, World, Result, ok, M, >>=-elim}
use emacs_relay.Fs.Calls.{seen, step, file_metadata, read_some, read_on, read_rounds, read_to_end}
use emacs_relay.Fs.Kept.{Kept, Onward-trans, Onward-between, IsTimed, query_ok}

-- The descriptor's inode when the call answers.
pub file_metadata_ok :
    (fd : ℕ) (w : World) {m : Metadata} {v : World}
    → file_metadata fd w ≡ (ok m, v)
    → (m ≡ (v.fs.inodes fd).metadata) × (v ≡ step w)
unfolding file_metadata
file_metadata_ok fd w h =
    let (a, e) = query_ok (λ t fs. ok (fs.inodes fd).metadata) w h in (ground (arith, a, e), e)

pub read_some_ok :
    (fd offset limit : ℕ) (w : World) {piece : List ℕ} {v : World}
    → read_some fd offset limit w ≡ (ok piece, v)
    → (piece ≡ take (min limit (suc (w.env w.now).chunk)) (drop offset ((seen w).inodes fd).bytes))
      × (v ≡ step w)
unfolding read_some
read_some_ok fd offset limit w h =
    let (a, e) =
      query_ok (λ t fs. ok (take (min limit (suc t.chunk)) (drop offset (fs.inodes fd).bytes))) w
        h in
    (cc, e)

-- What a run of a descriptor's calls keeps: the environment, and time on the inode.
abbrev pub Runs : ℕ → World → World → Type 0
Runs fd w v = (v.env ≡ w.env) × Kept fd w.fs v.fs

pub Runs-step : (fd : ℕ) (w : World) → IsTimed w.env → Runs fd w (step w)
Runs-step fd w timed = (refl, timed.kept w.now fd w.fs)

pub Runs-trans : (fd : ℕ) (u v w : World) → Runs fd u v → Runs fd v w → Runs fd u w
Runs-trans fd u v w (e, k) (e', k') =
    (e' ∙ e, Onward-trans (u.fs.inodes fd) (v.fs.inodes fd) (w.fs.inodes fd) k k')

pub Runs-IsTimed : (fd : ℕ) (w v : World) → Runs fd w v → IsTimed w.env → IsTimed v.env
Runs-IsTimed fd w v r timed = subst IsTimed (sym r.0) timed

-- An empty answer to a read that asked for something means that the file ends there.
nothing_left :
    (limit chunk : ℕ) (content : List ℕ)
    → (limit == 0) ≡ false
    → [] ≡ take (min limit (suc chunk)) content
    → take limit content ≡ []
nothing_left limit chunk content more e =
    let empty = take-eq-nil (min limit (suc chunk)) content (ground arith) (sym e) in
    ap (take limit) empty ∙ take-nil limit

-- One more piece and the rest of the file behind it.
piece_more :
    (offset limit k : ℕ) (content acc piece : List ℕ)
    → k ≤ limit
    → piece ≡ take k (drop offset content)
    → (acc ++ piece) ++ take (limit - length piece) (drop (offset + length piece) content)
      ≡ acc ++ take limit (drop offset content)
piece_more offset limit k content acc piece h e =
    append_assoc acc piece (take (limit - length piece) (drop (offset + length piece) content))
    ∙ ap (λ t. acc ++ (piece ++ take (limit - length piece) t))
        (drop_add offset (length piece) content)
    ∙ ap (λ t. acc ++ t)
        (subst
          (λ p.
            p ++ take (limit - length p) (drop (length p) (drop offset content))
            ≡ take limit (drop offset content))
          (sym e) (take_more k limit (drop offset content) h))

abbrev Outcome : ℕ → ℕ → List ℕ → ℕ → World → List ℕ → World → Type 0
Outcome offset limit acc fd w out v =
    Runs fd w v
    × (v.fs.inodes fd ≡ w.fs.inodes fd
        → out ≡ acc ++ take limit (drop offset (w.fs.inodes fd).bytes))

-- The loop returns what it has.
finished :
    (offset limit : ℕ) (acc : List ℕ) (fd : ℕ) (w u : World) {out : List ℕ} {v : World}
    → Runs fd w u
    → (u.fs.inodes fd ≡ w.fs.inodes fd → take limit (drop offset (w.fs.inodes fd).bytes) ≡ [])
    → ◌≡◌ {A = Result IoError (List ℕ) × World} (ok acc, u) (ok out, v)
    → Outcome offset limit acc fd w out v
finished offset limit acc fd w u runs empty h =
    let back = ap (λ p. p.1) h in
    (
      subst (Runs fd w) back runs,
      λ same. let rest = empty (ap (λ x. x.fs.inodes fd) back ∙ same) in cc (rest, append-nil acc),
    )

-- One piece was read, in the step from `w`; `ih` is what holds of the rounds behind it.
after_piece :
    (fuel fd offset limit : ℕ) (acc : List ℕ) (w : World)
    → IsTimed w.env
    → (limit == 0) ≡ false
    → ((p out : List ℕ) (v : World)
        → 0 < length p
        → read_rounds fuel fd (offset + length p) (limit - length p) (acc ++ p) (step w)
          ≡ (ok out, v)
        → Outcome (offset + length p) (limit - length p) (acc ++ p) fd (step w) out v)
    → (piece out : List ℕ) (v : World)
    → piece ≡ take (min limit (suc (w.env w.now).chunk)) (drop offset ((seen w).inodes fd).bytes)
    → read_on
        (λ p. read_rounds fuel fd (offset + length p) (limit - length p) (acc ++ p))
        acc
        piece
        (step w)
      ≡ (ok out, v)
    → Outcome offset limit acc fd w out v
after_piece fuel fd offset limit acc w timed more ih [] out v e h =
    let content : (seen w).inodes fd ≡ w.fs.inodes fd
        → take limit (drop offset (w.fs.inodes fd).bytes) ≡ [] =
      λ same.
        nothing_left limit (w.env w.now).chunk (drop offset (w.fs.inodes fd).bytes) more
          (e ∙ ap (λ x. take (min limit (suc (w.env w.now).chunk)) (drop offset x.bytes)) same) in
    finished offset limit acc fd w (step w) (Runs-step fd w timed) content h
after_piece fuel fd offset limit acc w timed more ih (b ∷ piece) out v e h =
    let p : List ℕ = b ∷ piece in
    let k = min limit (suc (w.env w.now).chunk) in
    let first = Runs-step fd w timed in
    let (runs, exact) = ih p out v (omega arith) h in
    let before = w.fs.inodes fd in
    (
      Runs-trans fd w (step w) v first runs,
      λ same.
          let (mid, end) =
            Onward-between before ((seen w).inodes fd) (v.fs.inodes fd) first.1 runs.1
              (ap (λ x. x.metadata) same) in
          exact end
          ∙ ap (λ x. (acc ++ p) ++ take (limit - length p) (drop (offset + length p) x.bytes)) mid
          ∙ piece_more offset limit k before.bytes acc p (omega arith)
              (e ∙ ap (λ x. take k (drop offset x.bytes)) mid),
    )

none_asked :
    (limit offset fd : ℕ) (w : World)
    → limit ≡ 0
    → w.fs.inodes fd ≡ w.fs.inodes fd
    → take limit (drop offset (w.fs.inodes fd).bytes) ≡ []
none_asked limit offset fd w e same = ap (λ n. take n (drop offset (w.fs.inodes fd).bytes)) e

read_rounds_lem :
    (fuel fd offset limit : ℕ) (acc : List ℕ) (w : World) (out : List ℕ) (v : World)
    → IsTimed w.env
    → limit ≤ fuel
    → read_rounds fuel fd offset limit acc w ≡ (ok out, v)
    → Outcome offset limit acc fd w out v
unfolding read_rounds
read_rounds_lem zero fd offset limit acc w out v timed enough h =
    finished offset limit acc fd w w (refl, inl refl) (none_asked limit offset fd w (omega arith)) h
read_rounds_lem (suc fuel) fd offset limit acc w out v timed enough h =
    elim (Bool-cases (limit == 0)) [
      | inl stop ↦
          finished offset limit acc fd w w (refl, inl refl)
            (none_asked limit offset fd w ((==_iff limit 0).0 stop)) (rw (stop, read_rounds) at h)
      | inr more ↦
          let next : List ℕ → M IoError (List ℕ) =
            λ p. read_rounds fuel fd (offset + length p) (limit - length p) (acc ++ p) in
          >>=-elim (read_some fd offset limit) (read_on next acc) w (rw (more, read_rounds) at h)
            λ piece u reads rest.
              let (exact, moved) = read_some_ok fd offset limit w reads in
              after_piece fuel fd offset limit acc w timed more
                (λ p out' v' some_read run.
                  read_rounds_lem fuel fd (offset + length p) (limit - length p) (acc ++ p) (step w)
                    out' v' (Runs-IsTimed fd w (step w) (Runs-step fd w timed) timed)
                    (omega (arith, (==_iff limit 0).1)) run)
                piece out v exact (subst (λ x. read_on next acc piece x ≡ (ok out, v)) moved rest)
    ]

-- What `read_to_end` gives, if the inode is the same before and after.
pub read_to_end_ok :
    (fd offset limit : ℕ) (w : World) {bytes : List ℕ} {v : World}
    → IsTimed w.env
    → read_to_end fd offset limit w ≡ (ok bytes, v)
    → Runs fd w v
      × (v.fs.inodes fd ≡ w.fs.inodes fd → bytes ≡ take limit (drop offset (w.fs.inodes fd).bytes))
unfolding read_to_end
read_to_end_ok fd offset limit w {bytes} {v} timed h =
    read_rounds_lem limit fd offset limit [] w bytes v timed (omega arith) h
