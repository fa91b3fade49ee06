-- ===== src/Sha256/Words.antt =====
-- The u32 operations that `sha256` of server/src/revisions/types.rs uses, and its `{word:08x}`.
use emacs_relay.Common.{ℕ, zero, suc, ◌+◌, ◌-◌, ◌*◌, ◌/◌, ◌%◌, ◌^◌, String}
use emacs_relay.Common.{List, [], ◌∷◌, get_or}
use Prim.Native.Char.{Char}
use Prim.Native.Nat.{bit_or}

-- `wrapping_add`
unfoldable pub add32 : ℕ → ℕ → ℕ
add32 a b = (a + b) % 2 ^ 32

-- `!a`
unfoldable pub not32 : ℕ → ℕ
not32 a = 2 ^ 32 - 1 - a

-- `w >> k`
unfoldable pub shift_right : ℕ → ℕ → ℕ
shift_right w k = w / 2 ^ k

-- `w.rotate_right(k)`
unfoldable pub rotate_right : ℕ → ℕ → ℕ
rotate_right w k = bit_or (w / 2 ^ k) (w * 2 ^ (32 - k) % 2 ^ 32)

-- `u32::from_be_bytes`
unfoldable pub be32 : List ℕ → ℕ
be32 bytes =
    ((get_or bytes 0 0 * 256 + get_or bytes 1 0) * 256 + get_or bytes 2 0) * 256 + get_or bytes 3 0

-- `u64::to_be_bytes`
unfoldable pub be64 : ℕ → List ℕ
be64 n =
    (n / 2 ^ 56 % 256)
    ∷ (n / 2 ^ 48 % 256)
    ∷ (n / 2 ^ 40 % 256)
    ∷ (n / 2 ^ 32 % 256)
    ∷ (n / 2 ^ 24 % 256)
    ∷ (n / 2 ^ 16 % 256)
    ∷ (n / 2 ^ 8 % 256)
    ∷ (n % 256)
    ∷ []

abbrev pub hex_chars : List Char
hex_chars =
    "0" ∷ "1" ∷ "2" ∷ "3" ∷ "4" ∷ "5" ∷ "6" ∷ "7" ∷ "8" ∷ "9" ∷ "a" ∷ "b" ∷ "c" ∷ "d" ∷ "e" ∷ "f"
    ∷ []

unfoldable pub hex_digit : ℕ → Char
hex_digit n = get_or hex_chars (n % 16) "0"

-- The `n` lowest hexadecimal digits of `w`, the highest first, in front of `rest`.
unfoldable pub hex_digits : ℕ → ℕ → String → String
unfolding hex_digit
hex_digits zero w rest = rest
hex_digits (suc n) w rest = hex_digits n (w / 16) (String.◌∷◌ (hex_digit w) rest)

-- `format!("{w:08x}")` of a u32
unfoldable pub hex8 : ℕ → String
unfolding hex_digits
hex8 w = hex_digits 8 w ""
