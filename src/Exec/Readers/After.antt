-- ===== src/Exec/Readers/After.antt =====
-- One read of an output reader of server/src/fs_handlers.rs, and what it keeps.
use emacs_relay.Common.{
  ℕ, ◌+◌, ◌%◌, ◌^◌, ◌≤◌, ◌<◌, ◌≡◌, refl, sym, ap, ◌∙◌, Bool, true, false, List, [], ◌++◌, length,
  length-append, append-nil, ltb, ltb→lt, ltb→le, arith,
}
use emacs_relay.Fs.{ok, err}
use emacs_relay.Exec.Readers.{
  exec_output_limit, Reader, reading, exceeding, sent, Read, eof, piece, failed, IsRead, on_read,
  of_piece, counted,
}

-- The bytes that a reader holds or has handed over.
abbrev pub held : Reader → List ℕ
held (reading buf) = buf
held exceeding = []
held (sent (ok buf)) = buf
held (sent (err e)) = []

-- What a reader may have added beyond the limit: its last read.
abbrev pub spent : Reader → ℕ
spent (reading buf) = 0
spent exceeding = 8192
spent (sent (ok buf)) = 0
spent (sent (err e)) = 8192

pub spent_le : (r : Reader) → spent r ≤ 8192
spent_le (reading buf) = omega arith
spent_le exceeding = omega arith
spent_le (sent (ok buf)) = omega arith
spent_le (sent (err e)) = omega arith

-- A reader that goes on or has succeeded holds all that its pipe gave.
abbrev pub Whole : List ℕ → Reader → Type 0
Whole given (reading buf) = buf ≡ given
Whole given exceeding = Unit
Whole given (sent (ok buf)) = buf ≡ given
Whole given (sent (err e)) = Unit

pub held_le : (given : List ℕ) (r : Reader) → Whole given r → length (held r) ≤ length given
held_le given (reading buf) h = omega (arith, ap length h)
held_le given exceeding h = omega arith
held_le given (sent (ok buf)) h = omega (arith, ap length h)
held_le given (sent (err e)) h = omega arith

abbrev pub Excess : Reader → ℕ → Type 0
Excess (reading buf) used = Unit
Excess exceeding used = exec_output_limit < used
Excess (sent r) used = Unit

pub Excess-later : (r : Reader) (m n : ℕ) → m ≤ n → Excess r m → Excess r n
Excess-later (reading buf) m n l h = tt
Excess-later exceeding m n l h = omega arith
Excess-later (sent r) m n l h = tt

-- One reader after a read, where `other` is what the other pipe gave, `kept` what its reader holds and
-- `beyond` what it may have added beyond the limit.
pub record After (given : List ℕ) (other kept beyond used : ℕ) (used' : ℕ) (r : Reader)
    : Type 0 where
  pub count : used' ≡ length given + other
  pub bound : used' ≤ exec_output_limit + (spent r + beyond)
  pub within : length (held r) + kept ≤ exec_output_limit
  pub whole : Whole given r
  pub excess : Excess r used'
  pub later : used ≤ used'

module _ (given : List ℕ) (other kept beyond used : ℕ) where
  counted-After :
      (buf p : List ℕ) (total : ℕ) (full : Bool)
      → ltb exec_output_limit total ≡ full
      → total ≡ used + length p
      → length p ≤ 8192
      → buf ≡ given
      → used ≡ length given + other
      → kept ≤ other
      → used ≤ exec_output_limit + beyond
      → length buf + kept ≤ exec_output_limit
      → After
          (given ++ p)
          other
          kept
          beyond
          used
          (counted full total (buf ++ p)).0
          (counted full total (buf ++ p)).1
  counted-After buf p total true e t l w n k b h = record {
    count = omega (arith, length-append given p);
    bound = omega arith;
    within = omega arith;
    whole = tt;
    excess = ltb→lt exec_output_limit total e;
    later = omega arith;
  }
  counted-After buf p total false e t l w n k b h = record {
    count = omega (arith, length-append given p);
    bound = omega (arith, ltb→le exec_output_limit total e);
    within = omega (arith, length-append buf p, ap length w, ltb→le exec_output_limit total e);
    whole = ap (λ g. g ++ p) w;
    excess = tt;
    later = omega arith;
  }

  pub on_read-After :
      (r : Read) (buf : List ℕ)
      → IsRead r
      → buf ≡ given
      → used ≡ length given + other
      → kept ≤ other
      → used ≤ exec_output_limit + beyond
      → beyond ≤ 8192
      → length buf + kept ≤ exec_output_limit
      → After
          (given ++ of_piece r)
          other
          kept
          beyond
          used
          (on_read r used buf).0
          (on_read r used buf).1
  unfolding on_read
  on_read-After eof buf i e n k b s h = record {
    count = omega (arith, length-append given []);
    bound = omega arith;
    within = h;
    whole = e ∙ sym (append-nil given);
    excess = tt;
    later = omega arith;
  }
  on_read-After (failed m) buf i e n k b s h = record {
    count = omega (arith, length-append given []);
    bound = omega arith;
    within = omega arith;
    whole = tt;
    excess = tt;
    later = omega arith;
  }
  on_read-After (piece p) buf i e n k b s h =
      let fits : (used + length p) % 2 ^ 64 ≡ used + length p = omega (arith, i.1) in
      counted-After buf p _ _ refl fits i.1 e n k b h
