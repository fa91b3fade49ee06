-- ===== src/Main/Frames.antt =====
-- The framing of server/src/main.rs read back.
use emacs_relay.Common.{
  ℕ, zero, suc, ◌%◌, ◌^◌, ◌≤◌, ◌<◌, ◌≡◌, refl, ap, subst, ◌∙◌, append-nil, append_assoc, true,
  false, none, some, List, [], ◌∷◌, ◌++◌, ltb, length, length-append, take-length_append,
  drop-length_append, All, arith,
}
use emacs_relay.Framing.{frame_size_allowed, max_frame_bytes}
use emacs_relay.Main.{
  to_le_bytes, from_le_bytes, frame, write_frames, read_exact, read_payload, next_frame, and_more,
  read_frames,
}

from_le_bytes-to_le_bytes : (n : ℕ) → n < 2 ^ 32 → from_le_bytes (to_le_bytes n) ≡ n
unfolding from_le_bytes to_le_bytes
from_le_bytes-to_le_bytes n h = omega arith

read_exact-append :
    (bytes rest : List ℕ) → read_exact (length bytes) (bytes ++ rest) ≡ some (bytes, rest)
unfolding read_exact
read_exact-append bytes rest =
    rw (not_short, take-length_append bytes rest, drop-length_append bytes rest) refl
  where
    not_short : ltb (length (bytes ++ rest)) (length bytes) ≡ false
    not_short = ground (arith, length-append bytes rest)

allowed : (n : ℕ) → n ≤ max_frame_bytes → frame_size_allowed n ≡ true
unfolding frame_size_allowed
allowed n h = ground arith

next_frame-frame :
    (payload rest : List ℕ)
    → length payload ≤ max_frame_bytes
    → next_frame (frame payload ++ rest) ≡ some (payload, rest)
unfolding next_frame frame read_exact to_le_bytes
next_frame-frame payload rest h =
    let n = length payload in
    let size : from_le_bytes (to_le_bytes (n % 2 ^ 32)) ≡ n =
      from_le_bytes-to_le_bytes (n % 2 ^ 32) (omega arith) ∙ omega (arith, h) in
    ap read_payload (read_exact-append (to_le_bytes (n % 2 ^ 32)) (payload ++ rest))
    ∙ rw (size, allowed n h) (read_exact-append payload rest)

frame_size : (payload : List ℕ) → 4 ≤ length (frame payload)
unfolding frame to_le_bytes
frame_size payload = omega arith

nothing_left : next_frame [] ≡ none
unfolding next_frame read_exact
nothing_left = refl

read_frames_lem :
    (payloads : List (List ℕ)) (rest : List ℕ) (rounds : ℕ)
    → All (λ p. length p ≤ max_frame_bytes) payloads
    → next_frame rest ≡ none
    → length payloads ≤ rounds
    → read_frames rounds (write_frames payloads ++ rest) ≡ payloads
unfolding read_frames write_frames
read_frames_lem [] rest zero fits over h = refl
read_frames_lem [] rest (suc rounds) fits over h = ap (and_more (read_frames rounds)) over
read_frames_lem (payload ∷ more) rest zero fits over h = absurd (omega (arith, h))
read_frames_lem (payload ∷ more) rest (suc rounds) fits over h =
    let behind = write_frames more ++ rest in
    ap (λ input. read_frames (suc rounds) input)
      (append_assoc (frame payload) (write_frames more) rest)
    ∙ ap (and_more (read_frames rounds)) (next_frame-frame payload behind fits.0)
    ∙ ap (λ read. payload ∷ read) (read_frames_lem more rest rounds fits.1 over (omega (arith, h)))

rounds_enough : (payloads : List (List ℕ)) → length payloads ≤ length (write_frames payloads)
unfolding write_frames
rounds_enough [] = omega arith
rounds_enough (payload ∷ rest) = omega (
  arith,
  length-append (frame payload) (write_frames rest),
  frame_size payload,
  rounds_enough rest,
)

-- Behind the frames may come the start of one, or the announcement of one that is too large.
pub read_frames-append :
    (payloads : List (List ℕ)) (rest : List ℕ)
    → All (λ p. length p ≤ max_frame_bytes) payloads
    → next_frame rest ≡ none
    → let input = write_frames payloads ++ rest in read_frames (length input) input ≡ payloads
read_frames-append payloads rest fits over =
    let input = write_frames payloads ++ rest in
    read_frames_lem payloads rest (length input) fits over
      (omega (arith, length-append (write_frames payloads) rest, rounds_enough payloads))

-- Where every payload fits a frame, the loop reads back from the writer's bytes exactly the payloads, in
-- order, and as many rounds as there are bytes are enough.
pub read_frames-write_frames :
    (payloads : List (List ℕ))
    → All (λ p. length p ≤ max_frame_bytes) payloads
    → let input = write_frames payloads in read_frames (length input) input ≡ payloads
read_frames-write_frames payloads fits =
    subst (λ input. read_frames (length input) input ≡ payloads)
      (append-nil (write_frames payloads)) (read_frames-append payloads [] fits nothing_left)
