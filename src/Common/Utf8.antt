-- ===== src/Common/Utf8.antt =====
-- `std::str::from_utf8(bytes).is_ok()`: the table of well-formed byte sequences, read by a state that
-- holds the number of continuation bytes still due and the range of the next one.
use Prim.Native.Nat.{ℕ, zero, suc}
use mathlib.Core.Bool.{Bool, false, ◌&&◌}
use mathlib.Core.Option.{Option, none, some}
use mathlib.Core.List.{List, [], ◌∷◌}
use emacs_relay.Common.Tests.{ltb, leb, ◌==◌, if◌then◌else◌}

pub record Due : Type 0 where
  pub count : ℕ
  pub low : ℕ
  pub high : ℕ

abbrev pub due : ℕ → ℕ → ℕ → Due
due count low high = record { count = count; low = low; high = high }

abbrev pub begin : ℕ → Option Due
begin b =
    if ltb b 0x80
    then some (due 0 0x80 0xbf)
    else if ltb b 0xc2
    then none
    else if ltb b 0xe0
    then some (due 1 0x80 0xbf)
    else if b == 0xe0
    then some (due 2 0xa0 0xbf)
    else if b == 0xed
    then some (due 2 0x80 0x9f)
    else if ltb b 0xf0
    then some (due 2 0x80 0xbf)
    else if b == 0xf0
    then some (due 3 0x90 0xbf)
    else if ltb b 0xf4
    then some (due 3 0x80 0xbf)
    else if b == 0xf4
    then some (due 3 0x80 0x8f)
    else none

abbrev pub advance : ℕ → Due → ℕ → Option Due
advance zero d b = begin b
advance (suc n) d b = if leb d.low b && leb b d.high then some (due n 0x80 0xbf) else none

unfoldable pub utf8_from : Due → List ℕ → Bool
utf8_from d [] = d.count == 0
utf8_from d (b ∷ bytes) = elim (advance d.count d b) [ none ↦ false | some d' ↦ utf8_from d' bytes ]

unfoldable pub is_utf8 : List ℕ → Bool
unfolding utf8_from
is_utf8 = utf8_from (due 0 0x80 0xbf)
