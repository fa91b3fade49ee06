-- ===== src/Read/Tail/Moments.antt =====
-- Where the bytes that `tail_read` of server/src/revisions/read.rs returns come from, whatever others do to
-- the file meanwhile: each piece stood at its place in the file at a moment of the run.
use emacs_relay.Common.{
  ℕ, zero, suc, ◌+◌, ◌-◌, min, ◌≡◌, ap, sym, subst, ◌∙◌, inl, inr, Bool-cases, ◌==◌, Option, none,
  some, List, [], ◌∷◌, ◌++◌, append-nil, append_assoc, length, take, drop, ltb, arith, StandsAt,
  take-StandsAt, if◌then◌else◌,
}
use emacs_relay.Fs.{
  is_symlink, FilePath, FileSystem, IoError, World, Result, ok, err, M, >>=-elim, map_err-eq-ok,
}
use emacs_relay.Fs.Calls.{
  no_such_file, too_many_links, seen, step, open_nofollow, read_some, read_on, read_rounds,
  read_to_end,
}
use emacs_relay.Fs.Kept.{query_ok}
use emacs_relay.Fs.Keeps.{IsPreorder, Keeps, Keeps_result, Keeps-read_rounds}
use emacs_relay.Read.Rounds.{read_some_ok}
use emacs_relay.Read.Tail.{tail_bytes}
use emacs_relay.Read.Tail.Grown.{at_end}

-- A world that a run of calls which only look comes to.
pub data Reached (w : World) : World → Type 0 where
  at_once : Reached w w
  later : {v : World} → Reached w v → Reached w (step v)

pub Reached-IsPreorder : IsPreorder Reached
Reached-IsPreorder = record { self = λ w. at_once; chain = chain }
  where
    chain : (u v w : World) → Reached u v → Reached v w → Reached u w
    chain u v w r at_once = r
    chain u v w r (later s) = later (chain u v _ r s)

pub Reached-step : (w : World) → Reached w (step w)
Reached-step w = later at_once

-- A moment of the run from `w` to `v`.
abbrev pub Moment : World → World → World → Type 0
Moment w v u = Reached w u × Reached u v

-- Pieces one behind the other from an offset on, each as the file had it at a moment of the run.
pub data Gathered (i : ℕ) (w v : World) : ℕ → List ℕ → Type 0 where
  nothing : {offset : ℕ} → Gathered i w v offset []
  piece :
      {offset : ℕ} {u : World} (p rest : List ℕ)
      → Moment w v u
      → StandsAt p offset (u.fs.inodes i).bytes
      → Gathered i w v (offset + length p) rest
      → Gathered i w v offset (p ++ rest)

module _ (i : ℕ) (w : World) where
  record Rest (offset : ℕ) (acc out : List ℕ) (v : World) : Type 0 where
    more : List ℕ
    out_lem : out ≡ acc ++ more
    gathered : Gathered i w v offset more

  no_more : (offset : ℕ) (acc : List ℕ) (v : World) → Rest offset acc acc v
  no_more offset acc v = record { more = []; out_lem = sym (append-nil acc); gathered = nothing }

  -- The call gives a piece of what it finds, or ends the loop.
  after_read :
      (next : List ℕ → M IoError (List ℕ)) (offset k : ℕ) (acc : List ℕ) (u : World) (out : List ℕ)
      (v : World)
      → Reached w u
      → ((p : List ℕ) → Keeps Reached (next p))
      → ((p : List ℕ) → next p (step u) ≡ (ok out, v) → Rest (offset + length p) (acc ++ p) out v)
      → (p : List ℕ) → p ≡ take k (drop offset ((seen u).inodes i).bytes)
      → read_on next acc p (step u) ≡ (ok out, v)
      → Rest offset acc out v
  after_read next offset k acc u out v before keeps ih [] e h =
      at_end (Rest offset acc) acc out (step u) v (no_more offset acc (step u)) h
  after_read next offset k acc u out v before keeps ih (b ∷ p) e h =
      let content = ((seen u).inodes i).bytes in
      let rest = ih (b ∷ p) h in
      let behind = Keeps_result Reached _ (keeps (b ∷ p)) (step u) h in
      record {
        more = (b ∷ p) ++ rest.more;
        out_lem = rest.out_lem ∙ append_assoc acc (b ∷ p) rest.more;
        gathered =
            piece (b ∷ p) rest.more (later before, behind)
              (subst (λ q. StandsAt q offset content) (sym e) (take-StandsAt k offset content))
              rest.gathered;
      }

  read_rounds-Rest :
      (fuel offset limit : ℕ) (acc : List ℕ) (u : World) (out : List ℕ) (v : World)
      → Reached w u
      → read_rounds fuel i offset limit acc u ≡ (ok out, v)
      → Rest offset acc out v
  unfolding read_rounds
  read_rounds-Rest zero offset limit acc u out v before h =
      at_end (Rest offset acc) acc out u v (no_more offset acc u) h
  read_rounds-Rest (suc fuel) offset limit acc u out v before h = elim (Bool-cases (limit == 0)) [
    | inl stop ↦
        at_end (Rest offset acc) acc out u v (no_more offset acc u) (rw (stop, read_rounds) at h)
    | inr go_on ↦
        let next : List ℕ → M IoError (List ℕ) =
          λ p. read_rounds fuel i (offset + length p) (limit - length p) (acc ++ p) in
        >>=-elim (read_some i offset limit) (read_on next acc) u (rw (go_on, read_rounds) at h)
          λ p x e rest.
            let (exact, now) = read_some_ok i offset limit u e in
            after_read next offset (min limit (suc (u.env u.now).chunk)) acc u out v before
              (λ q. Keeps-read_rounds Reached Reached-IsPreorder Reached-step fuel i _ _ _)
              (λ q run.
                read_rounds-Rest fuel (offset + length q) (limit - length q) (acc ++ q) (step u) out
                  v (later before) run)
              p exact (subst (λ x. read_on next acc p x ≡ (ok out, v)) now rest)
  ]

  read_to_end-Gathered :
      (offset limit : ℕ) (u : World) (out : List ℕ) (v : World)
      → Reached w u
      → read_to_end i offset limit u ≡ (ok out, v)
      → Gathered i w v offset out
  unfolding read_to_end
  read_to_end-Gathered offset limit u out v before h =
      let rest = read_rounds-Rest limit offset limit [] u out v before h in
      subst (Gathered i w v offset) (sym rest.out_lem) rest.gathered

  pub tail_bytes-Gathered :
      (start want_end : ℕ) (u : World) (out : List ℕ) (v : World)
      → Reached w u
      → tail_bytes i start want_end u ≡ (ok out, v)
      → Gathered i w v start out
  tail_bytes-Gathered start want_end u out v before h = elim (Bool-cases (ltb start want_end)) [
    | inl wanted ↦
        read_to_end-Gathered start (want_end - start) u out v before
          (map_err-eq-ok _ _ u (rw wanted at h))
    | inr unwanted ↦
        at_end (λ out v. Gathered i w v start out) [] out u v nothing (rw unwanted at h)
  ]

opened :
    (o : Option ℕ) (fs : FileSystem) (fd : ℕ)
    → elim o as (λ _. Result IoError ℕ) [
      | none ↦ err no_such_file
      | some j ↦ if is_symlink (fs.inodes j).metadata then err too_many_links else ok j
    ]
      ≡ ok fd
    → o ≡ some fd
opened none fs fd h = cc
opened (some j) fs fd h = ground arith

-- The descriptor is that of the file which the path names as it is opened.
pub open_nofollow_names :
    (path : FilePath) (w : World) {fd : ℕ} {v : World}
    → open_nofollow path w ≡ (ok fd, v)
    → (v.fs.names path ≡ some fd) × (v ≡ step w)
unfolding open_nofollow
open_nofollow_names path w {fd} {v} h =
    let (a, s) =
      query_ok
        (λ t fs. elim (fs.names path) [
          | none ↦ err no_such_file
          | some j ↦ if is_symlink (fs.inodes j).metadata then err too_many_links else ok j
        ])
        w h in
    (ap (λ x. x.fs.names path) s ∙ opened ((seen w).names path) (seen w) fd a, s)
