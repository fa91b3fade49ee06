-- ===== src/Sha256.antt =====
-- The hash of server/src/revisions/types.rs (`sha256`). A u32 is a number below 2 ^ 32, a byte one
-- below 256, and every wrapping sum has its `% 2 ^ 32` written out.
pub mod Words
pub mod Padding
pub mod Schedule
mod Runs
use emacs_relay.Common.{ℕ, zero, suc, ◌+◌, ◌-◌, ◌*◌, ◌/◌, ◌%◌, ◌^◌, ◌<>◌, String, ◌≡◌, refl}
use emacs_relay.Common.{List, [], ◌∷◌, ◌++◌, length, get_or, set, take, drop, replicate}
use emacs_relay.Common.{◌==◌, if◌then◌else◌}
use Words.{add32, not32, rotate_right, shift_right, hex8, be32, be64}
use Prim.Native.Nat.{bit_and, bit_xor}

-- `[a, b, c, d, e, f, g, h]`
pub record Hash : Type 0 where
  pub a : ℕ
  pub b : ℕ
  pub c : ℕ
  pub d : ℕ
  pub e : ℕ
  pub f : ℕ
  pub g : ℕ
  pub h : ℕ

abbrev pub initial : Hash
initial = record {
  a = 0x6a09e667;
  b = 0xbb67ae85;
  c = 0x3c6ef372;
  d = 0xa54ff53a;
  e = 0x510e527f;
  f = 0x9b05688c;
  g = 0x1f83d9ab;
  h = 0x5be0cd19;
}

abbrev pub round_constants : List ℕ
round_constants =
    0x428a2f98 ∷ 0x71374491 ∷ 0xb5c0fbcf ∷ 0xe9b5dba5 ∷ 0x3956c25b ∷ 0x59f111f1 ∷ 0x923f82a4
    ∷ 0xab1c5ed5 ∷ 0xd807aa98 ∷ 0x12835b01 ∷ 0x243185be ∷ 0x550c7dc3 ∷ 0x72be5d74 ∷ 0x80deb1fe
    ∷ 0x9bdc06a7 ∷ 0xc19bf174 ∷ 0xe49b69c1 ∷ 0xefbe4786 ∷ 0x0fc19dc6 ∷ 0x240ca1cc ∷ 0x2de92c6f
    ∷ 0x4a7484aa ∷ 0x5cb0a9dc ∷ 0x76f988da ∷ 0x983e5152 ∷ 0xa831c66d ∷ 0xb00327c8 ∷ 0xbf597fc7
    ∷ 0xc6e00bf3 ∷ 0xd5a79147 ∷ 0x06ca6351 ∷ 0x14292967 ∷ 0x27b70a85 ∷ 0x2e1b2138 ∷ 0x4d2c6dfc
    ∷ 0x53380d13 ∷ 0x650a7354 ∷ 0x766a0abb ∷ 0x81c2c92e ∷ 0x92722c85 ∷ 0xa2bfe8a1 ∷ 0xa81a664b
    ∷ 0xc24b8b70 ∷ 0xc76c51a3 ∷ 0xd192e819 ∷ 0xd6990624 ∷ 0xf40e3585 ∷ 0x106aa070 ∷ 0x19a4c116
    ∷ 0x1e376c08 ∷ 0x2748774c ∷ 0x34b0bcb5 ∷ 0x391c0cb3 ∷ 0x4ed8aa4a ∷ 0x5b9cca4f ∷ 0x682e6ff3
    ∷ 0x748f82ee ∷ 0x78a5636f ∷ 0x84c87814 ∷ 0x8cc70208 ∷ 0x90befffa ∷ 0xa4506ceb ∷ 0xbef9a3f7
    ∷ 0xc67178f2 ∷ []

-- `while (padded.len() + 8) % 64 != 0 { padded.push(0) }`, on fuel.
pub pad_zeros : ℕ → List ℕ → List ℕ
pad_zeros zero padded = padded
pad_zeros (suc fuel) padded =
    let more = pad_zeros fuel (padded ++ (0 ∷ [])) in
    if (length padded + 8) % 64 == 0 then padded else more

-- The padded message. The loop pushes at most 63 zeros, so 64 rounds are enough.
pub pad : List ℕ → List ℕ
pad bytes =
    let bit_len = length bytes % 2 ^ 64 * 8 % 2 ^ 64 in
    pad_zeros 64 (bytes ++ (0x80 ∷ [])) ++ be64 bit_len

-- The first loop over `words`: entry `index` is read from four bytes of the chunk.
pub load_words : ℕ → ℕ → List ℕ → List ℕ → List ℕ
load_words zero index chunk words = words
load_words (suc more) index chunk words =
    load_words more (index + 1) chunk (set words index (be32 (take 4 (drop (index * 4) chunk))))

pub small_sigma0 : ℕ → ℕ
small_sigma0 w = bit_xor (bit_xor (rotate_right w 7) (rotate_right w 18)) (shift_right w 3)

pub small_sigma1 : ℕ → ℕ
small_sigma1 w = bit_xor (bit_xor (rotate_right w 17) (rotate_right w 19)) (shift_right w 10)

-- The value that the second loop stores at `index`.
pub next_word : List ℕ → ℕ → ℕ
next_word words index =
    add32
      (add32 (add32 (get_or words (index - 16) 0) (small_sigma0 (get_or words (index - 15) 0)))
        (get_or words (index - 7) 0))
      (small_sigma1 (get_or words (index - 2) 0))

-- `for index in 16..64`
pub extend_words : ℕ → ℕ → List ℕ → List ℕ
extend_words zero index words = words
extend_words (suc more) index words =
    extend_words more (index + 1) (set words index (next_word words index))

pub message_schedule : List ℕ → List ℕ
message_schedule chunk = extend_words 48 16 (load_words 16 0 chunk (replicate 64 0))

pub big_sigma1 : ℕ → ℕ
big_sigma1 e = bit_xor (bit_xor (rotate_right e 6) (rotate_right e 11)) (rotate_right e 25)

pub big_sigma0 : ℕ → ℕ
big_sigma0 a = bit_xor (bit_xor (rotate_right a 2) (rotate_right a 13)) (rotate_right a 22)

pub choose : ℕ → ℕ → ℕ → ℕ
choose e f g = bit_xor (bit_and e f) (bit_and (not32 e) g)

pub majority : ℕ → ℕ → ℕ → ℕ
majority a b c = bit_xor (bit_xor (bit_and a b) (bit_and a c)) (bit_and b c)

pub round : Hash → ℕ → ℕ → Hash
round s k w =
    let temp1 = add32 (add32 (add32 (add32 s.h (big_sigma1 s.e)) (choose s.e s.f s.g)) k) w in
    let temp2 = add32 (big_sigma0 s.a) (majority s.a s.b s.c) in
    record {
      a = add32 temp1 temp2;
      b = s.a;
      c = s.b;
      d = s.c;
      e = add32 s.d temp1;
      f = s.e;
      g = s.f;
      h = s.g;
    }

-- `for index in 0..64`
pub rounds : ℕ → ℕ → List ℕ → Hash → Hash
rounds zero index words s = s
rounds (suc more) index words s =
    rounds more (index + 1) words (round s (get_or round_constants index 0) (get_or words index 0))

pub add_hash : Hash → Hash → Hash
add_hash s t = record {
  a = add32 s.a t.a;
  b = add32 s.b t.b;
  c = add32 s.c t.c;
  d = add32 s.d t.d;
  e = add32 s.e t.e;
  f = add32 s.f t.f;
  g = add32 s.g t.g;
  h = add32 s.h t.h;
}

pub compress : Hash → List ℕ → Hash
compress hash chunk = add_hash hash (rounds 64 0 (message_schedule chunk) hash)

-- `for chunk in padded.chunks_exact(64)`, a round for each whole chunk.
pub compress_all : ℕ → List ℕ → Hash → Hash
compress_all zero bytes hash = hash
compress_all (suc chunks) bytes hash =
    compress_all chunks (drop 64 bytes) (compress hash (take 64 bytes))

-- `hash.iter().map(|word| format!("{word:08x}")).collect()`
unfoldable pub show_hash : Hash → String
show_hash s =
    hex8 s.a
    <> (hex8 s.b <> (hex8 s.c <> (hex8 s.d <> (hex8 s.e <> (hex8 s.f <> (hex8 s.g <> hex8 s.h))))))

unfoldable pub sha256 : List ℕ → String
unfolding show_hash pad pad_zeros compress_all compress add_hash rounds round majority choose
    big_sigma0 big_sigma1 message_schedule extend_words next_word small_sigma0 small_sigma1
    load_words add32 not32 rotate_right shift_right hex8 be32 be64
sha256 bytes =
    let padded = pad bytes in show_hash (compress_all (length padded / 64) padded initial)

pub sha256-show_hash : (bytes : List ℕ) → (s : Hash) × (sha256 bytes ≡ show_hash s)
unfolding sha256
sha256-show_hash bytes = (compress_all (length (pad bytes) / 64) (pad bytes) initial, refl)
