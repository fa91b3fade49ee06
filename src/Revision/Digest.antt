-- ===== src/Revision/Digest.antt =====
-- The digest that `sha256` of server/src/revisions/types.rs gives is one that a valid revision may hold,
-- and so the server's own revisions are valid.
use Prim.Native.Char.{Char, code}
use text.Mathlib.TextLemmas.{nil-append, cons-append}
use emacs_relay.Common.{
  ℕ, zero, suc, ◌+◌, ◌%◌, ◌/◌, ◌≡◌, refl, ap, sym, append_assoc, ◌∙◌, ◌<>◌, String, true, List, [],
  ◌∷◌, ◌++◌, get_or, utf8_bytes, length, length-append, All, bytes_of, arith,
}
use emacs_relay.Common.Bits.{permission_mask}
use emacs_relay.Fs.{Metadata}
use emacs_relay.Revision.{from_metadata, is_valid_file_revision}
use emacs_relay.Revision.Valid.{
  IsHexByte, is_lower_hex_iff, IsDigest, IsNsec, is_valid_file_revision_iff,
}
use emacs_relay.Sha256.{Hash, show_hash, sha256, sha256-show_hash}
use emacs_relay.Sha256.Words.{hex_chars, hex_digit, hex_digits, hex8}

All-get_or {ℓ κ} :
    {A : Type ℓ} (P : A → Type κ) (xs : List A) (i : ℕ) (d : A) → All P xs → P d → P (get_or xs i d)
All-get_or P [] i d h hd = hd
All-get_or P (x ∷ xs) zero d h hd = h.0
All-get_or P (x ∷ xs) (suc i) d h hd = All-get_or P xs i d h.1 hd

abbrev IsHexChar : Char → Type 0
IsHexChar c = (utf8_bytes (code c) ≡ code c ∷ []) × IsHexByte (code c)

hex_chars-All : All IsHexChar hex_chars
hex_chars-All = ground arith

hex_digit-IsHexChar : (w : ℕ) → IsHexChar (hex_digit w)
unfolding hex_digit
hex_digit-IsHexChar w =
    All-get_or IsHexChar hex_chars (w % 16) "0" hex_chars-All
      (refl, (is_lower_hex_iff (code "0")).0 refl)

-- The digits of a word are as many bytes, each a hexadecimal digit.
bytes_of-hex_digits :
    (n w : ℕ) (rest : String)
    → All IsHexByte (bytes_of rest)
    → (length (bytes_of (hex_digits n w rest)) ≡ n + length (bytes_of rest))
      × All IsHexByte (bytes_of (hex_digits n w rest))
unfolding hex_digits
bytes_of-hex_digits zero w rest h = (omega arith, h)
bytes_of-hex_digits (suc n) w rest h =
    let (one, hex) = hex_digit-IsHexChar w in
    let longer : String = String.◌∷◌ (hex_digit w) rest in
    let front : bytes_of longer ≡ code (hex_digit w) ∷ bytes_of rest =
      ap (λ t. t ++ bytes_of rest) one in
    let ih = bytes_of-hex_digits n (w / 16) longer (rw front (hex, h)) in
    (omega (arith, ih.0, ap length front), ih.1)

bytes_of-append : (s t : String) → bytes_of (s <> t) ≡ bytes_of s ++ bytes_of t
bytes_of-append String.[] t = ap bytes_of (nil-append t)
bytes_of-append (String.◌∷◌ c s) t =
    ap bytes_of (cons-append c s t)
    ∙ ap (λ u. utf8_bytes (code c) ++ u) (bytes_of-append s t)
    ∙ sym (append_assoc (utf8_bytes (code c)) (bytes_of s) (bytes_of t))

All-append : (xs ys : List ℕ) → All IsHexByte xs → All IsHexByte ys → All IsHexByte (xs ++ ys)
All-append [] ys hx hy = hy
All-append (x ∷ xs) ys hx hy = (hx.0, All-append xs ys hx.1 hy)

-- `n` hexadecimal digits.
abbrev IsHexText : ℕ → String → Type 0
IsHexText n s = (length (bytes_of s) ≡ n) × All IsHexByte (bytes_of s)

IsHexText-append :
    (n m : ℕ) (s t : String) → IsHexText n s → IsHexText m t → IsHexText (n + m) (s <> t)
IsHexText-append n m s t hs ht = rw (bytes_of-append s t) (
  omega (arith, length-append (bytes_of s) (bytes_of t)),
  All-append (bytes_of s) (bytes_of t) hs.1 ht.1,
)

hex8-IsHexText : (w : ℕ) → IsHexText 8 (hex8 w)
unfolding hex8
hex8-IsHexText w = bytes_of-hex_digits 8 w "" tt

-- A word more in front.
word-IsHexText : (n w : ℕ) (t : String) → IsHexText n t → IsHexText (8 + n) (hex8 w <> t)
word-IsHexText n w t h = IsHexText-append 8 n (hex8 w) t (hex8-IsHexText w) h

show_hash-IsHexText : (s : Hash) → IsHexText 64 (show_hash s)
unfolding show_hash
show_hash-IsHexText s =
    let t1 = hex8 s.h in
    let t2 = hex8 s.g <> t1 in
    let t3 = hex8 s.f <> t2 in
    let t4 = hex8 s.e <> t3 in
    let t5 = hex8 s.d <> t4 in
    let t6 = hex8 s.c <> t5 in
    let t7 = hex8 s.b <> t6 in
    word-IsHexText 56 s.a t7 (
      word-IsHexText 48 s.b t6 (
        word-IsHexText 40 s.c t5 (
          word-IsHexText 32 s.d t4 (
            word-IsHexText 24 s.e t3
              (word-IsHexText 16 s.f t2 (word-IsHexText 8 s.g t1 (hex8-IsHexText s.h)))))))

-- `sha256` always gives 64 lower-case hexadecimal digits.
pub sha256-IsDigest : (bytes : List ℕ) → IsDigest (sha256 bytes)
sha256-IsDigest bytes = let (s, e) = sha256-show_hash bytes in rw e (show_hash-IsHexText s)

-- The revision that the server makes of a regular file's metadata and of a hash is a valid one, if the
-- kernel's nanosecond counts are below 10 ^ 9.
pub from_metadata-is_valid :
    (m : Metadata) (bytes : List ℕ)
    → IsNsec m.mtime_nsec
    → IsNsec m.ctime_nsec
    → is_valid_file_revision (from_metadata m (sha256 bytes)) ≡ true
from_metadata-is_valid m bytes hm hc =
    (is_valid_file_revision_iff (from_metadata m (sha256 bytes))).1 (
      unfold from_metadata in
      record {
        schema = refl;
        mtime_nsec = hm;
        ctime_nsec = hc;
        mode = omega (arith, permission_mask m.mode);
        sha256 = sha256-IsDigest bytes;
      })
