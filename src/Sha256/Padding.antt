-- ===== src/Sha256/Padding.antt =====
-- What the padding of `sha256` in server/src/revisions/types.rs makes of a message.
use emacs_relay.Common.{ℕ, zero, suc, ◌+◌, ◌*◌, ◌%◌, ◌^◌, ◌≤◌, ◌<◌, ◌-◌, ◌≡◌, sym, ap, ◌∙◌, arith}
use emacs_relay.Common.{List, [], ◌∷◌, ◌++◌, append-nil, append_assoc, length, replicate}
use emacs_relay.Common.{length-append, length-replicate}
use emacs_relay.Sha256.Words.{be64}
use emacs_relay.Sha256.{pad_zeros, pad}

pad_zeros_lem :
    (fuel : ℕ) (padded : List ℕ) (z : ℕ)
    → z ≤ fuel
    → z < 64
    → (length padded + 8 + z) % 64 ≡ 0
    → pad_zeros fuel padded ≡ padded ++ replicate z 0
unfolding pad_zeros
pad_zeros_lem zero padded zero hz h64 h = sym (append-nil padded)
pad_zeros_lem zero padded (suc z) hz h64 h = absurd (omega arith)
pad_zeros_lem (suc fuel) padded zero hz h64 h = ground (arith, append-nil padded)
pad_zeros_lem (suc fuel) padded (suc z) hz h64 h = ground (
  arith,
  length-append padded (0 ∷ []),
  append_assoc padded (0 ∷ []) (replicate z 0),
  pad_zeros_lem fuel (padded ++ (0 ∷ [])) z,
)

-- The number of zeros that bring a message of `n` bytes to a whole number of chunks.
abbrev pub zeros : ℕ → ℕ
zeros n = (119 - n % 64) % 64

-- The padded message is the message, the byte 0x80, the fewest zeros that fill the last chunk, and
-- the length in bits as eight bytes; its own length is a multiple of 64.
pub pad_shape :
    (bytes : List ℕ)
    → (pad bytes
        ≡ bytes
          ++ (0x80 ∷ (replicate (zeros (length bytes)) 0 ++ be64 (8 * length bytes % 2 ^ 64))))
      × (length (pad bytes) % 64 ≡ 0)
unfolding pad be64
pad_shape bytes =
    let n = length bytes in
    let start : List ℕ = bytes ++ (0x80 ∷ []) in
    let filled : pad_zeros 64 start ≡ start ++ replicate (zeros n) 0 =
      pad_zeros_lem 64 start (zeros n) (omega arith) (omega arith)
        (omega (arith, length-append bytes (0x80 ∷ []))) in
    let tail : List ℕ = be64 (n % 2 ^ 64 * 8 % 2 ^ 64) in
    let whole : pad bytes ≡ bytes ++ (0x80 ∷ (replicate (zeros n) 0 ++ tail)) =
      ap (λ t. t ++ tail) filled
      ∙ append_assoc start (replicate (zeros n) 0) tail
      ∙ append_assoc bytes (0x80 ∷ []) (replicate (zeros n) 0 ++ tail) in
    let same : n % 2 ^ 64 * 8 % 2 ^ 64 ≡ 8 * n % 2 ^ 64 = omega arith in
    (
      whole ∙ ap (λ t. bytes ++ (0x80 ∷ (replicate (zeros n) 0 ++ be64 t))) same,
      omega (
        arith,
        ap length whole,
        length-append bytes (0x80 ∷ (replicate (zeros n) 0 ++ tail)),
        length-append (replicate (zeros n) 0) tail,
        length-replicate {A = ℕ} (zeros n) 0,
      ),
    )
