-- ===== src/Common/Bits.antt =====
-- The permission mask of a file's mode in plain arithmetic.
use Prim.Native.Nat.{ℕ, zero, suc, ◌+◌, ◌*◌, ◌/◌, ◌%◌, ◌≤◌, min, bit_and, digits, bit_and-bitwise}
use mathlib.Core.Path.{◌≡◌, refl, ap}
use native.Mathlib.Omega.{arith}

-- What the conjunction computes, with the number of its rounds as an argument.
abbrev masked : ℕ → ℕ → ℕ → ℕ
masked rounds mode mask = digits (λ x. zero) min rounds mode mask

-- Rounds beyond the size of the mode change nothing.
spare_rounds :
    (total rounds mode mask : ℕ)
    → mode ≤ rounds
    → rounds ≤ total
    → masked total mode mask ≡ masked rounds mode mask
spare_rounds zero zero mode mask h k = refl
spare_rounds zero (suc rounds) mode mask h k = absurd (omega arith)
spare_rounds (suc total) zero zero mask h k = refl
spare_rounds (suc total) zero (suc mode) mask h k = absurd (omega arith)
spare_rounds (suc total) (suc rounds) zero mask h k = refl
spare_rounds (suc total) (suc rounds) (suc mode) mask h k =
    let half = suc mode / 2 in
    let low = min (suc mode % 2) (mask % 2) in
    ap (λ t. t * 2 + low) (spare_rounds total rounds half (mask / 2) (omega arith) (omega arith))

-- One round of the conjunction takes the lowest binary digit off both.
halves :
    (mode mask : ℕ)
    → bit_and mode mask ≡ bit_and (mode / 2) (mask / 2) * 2 + min (mode % 2) (mask % 2)
halves zero mask = omega (arith, bit_and-bitwise 0 mask, bit_and-bitwise 0 (mask / 2))
halves (suc mode) mask =
    let half = suc mode / 2 in
    let enough : masked mode half (mask / 2) ≡ masked half half (mask / 2) =
      spare_rounds mode half half (mask / 2) (omega arith) (omega arith) in
    omega (arith, bit_and-bitwise (suc mode) mask, bit_and-bitwise half (mask / 2), enough)

nothing : (bound mode : ℕ) → mode ≤ bound → bit_and mode 0 ≡ 0
nothing bound zero h = refl
nothing zero (suc mode) h = absurd (omega arith)
nothing (suc bound) (suc mode) h =
    omega (arith, halves (suc mode) 0, nothing bound (suc mode / 2) (omega arith))

-- The bits for others, for the group, for the owner, and the three special ones: an octal digit each.
others : (mode : ℕ) → bit_and mode 0o7 ≡ mode % 8
others mode = omega (
  arith,
  halves mode 7,
  halves (mode / 2) 3,
  halves (mode / 2 / 2) 1,
  nothing (mode / 2 / 2 / 2) (mode / 2 / 2 / 2) (omega arith),
)

group : (mode : ℕ) → bit_and mode 0o77 ≡ mode % 64
group mode = omega (
  arith,
  halves mode 63,
  halves (mode / 2) 31,
  halves (mode / 2 / 2) 15,
  others (mode / 2 / 2 / 2),
)

owner : (mode : ℕ) → bit_and mode 0o777 ≡ mode % 512
owner mode = omega (
  arith,
  halves mode 511,
  halves (mode / 2) 255,
  halves (mode / 2 / 2) 127,
  group (mode / 2 / 2 / 2),
)

pub permission_mask : (mode : ℕ) → bit_and mode 0o7777 ≡ mode % 4096
permission_mask mode = omega (
  arith,
  halves mode 4095,
  halves (mode / 2) 2047,
  halves (mode / 2 / 2) 1023,
  owner (mode / 2 / 2 / 2),
)

nibble : (mode : ℕ) → bit_and mode 15 ≡ mode % 16
nibble mode = omega (arith, halves mode 15, others (mode / 2))

-- Three zeros below the mask, one more octal digit of the mode that does not matter.
under_120 : (mode : ℕ) → bit_and mode 120 ≡ mode / 8 % 16 * 8
under_120 mode = omega (
  arith,
  halves mode 120,
  halves (mode / 2) 60,
  halves (mode / 2 / 2) 30,
  nibble (mode / 2 / 2 / 2),
)

under_960 : (mode : ℕ) → bit_and mode 960 ≡ mode / 64 % 16 * 64
under_960 mode = omega (
  arith,
  halves mode 960,
  halves (mode / 2) 480,
  halves (mode / 2 / 2) 240,
  under_120 (mode / 2 / 2 / 2),
)

under_7680 : (mode : ℕ) → bit_and mode 7680 ≡ mode / 512 % 16 * 512
under_7680 mode = omega (
  arith,
  halves mode 7680,
  halves (mode / 2) 3840,
  halves (mode / 2 / 2) 1920,
  under_960 (mode / 2 / 2 / 2),
)

-- The four bits of the file type, above twelve others.
type_mask : (mode : ℕ) → bit_and mode 0o170000 ≡ mode / 4096 % 16 * 4096
type_mask mode = omega (
  arith,
  halves mode 61440,
  halves (mode / 2) 30720,
  halves (mode / 2 / 2) 15360,
  under_7680 (mode / 2 / 2 / 2),
)

-- New permissions leave the type as it is.
pub type_mask_add :
    (mode bits : ℕ)
    → bit_and (bit_and mode 0o170000 + bits % 0o10000) 0o170000 ≡ bit_and mode 0o170000
type_mask_add mode bits =
    omega (arith, type_mask mode, type_mask (bit_and mode 0o170000 + bits % 0o10000))

pub type_mask_regular : (bits : ℕ) → bit_and (0o100000 + bits % 0o10000) 0o170000 ≡ 0o100000
type_mask_regular bits = omega (arith, type_mask (0o100000 + bits % 0o10000))
