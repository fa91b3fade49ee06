-- ===== src/Main.antt =====
-- The frames and the main loop of server/src/main.rs. The input is the list of the bytes that arrive until
-- the client closes the connection, and the queue to the workers is the list of the requests sent to
-- it; that a full queue makes the loop wait changes neither.
pub mod Frames
pub mod Serving
pub mod Served
pub mod Events
pub mod Pool
use emacs_relay.Common.{
  ℕ, zero, suc, ◌+◌, ◌*◌, ◌/◌, ◌%◌, ◌^◌, Bool, true, false, ◌||◌, Option, none, some, List, [], ◌∷◌,
  ◌++◌, String, str_eq, ltb, if◌then◌else◌, length, take, drop,
}
use emacs_relay.Json.{Json}
use emacs_relay.Framing.{Channel, frame_size_allowed}
use emacs_relay.Control.{Control, Host, text_of, handle_ctl}

-- `u32::to_le_bytes` and `u32::from_le_bytes`
unfoldable pub to_le_bytes : ℕ → List ℕ
to_le_bytes n = n % 256 ∷ n / 256 % 256 ∷ n / 65536 % 256 ∷ n / 16777216 % 256 ∷ []

unfoldable pub from_le_bytes : List ℕ → ℕ
from_le_bytes [] = 0
from_le_bytes (b ∷ bs) = b + 256 * from_le_bytes bs

-- What the writer thread puts out for one payload; `as u32` takes the length modulo 2 ^ 32.
unfoldable pub frame : List ℕ → List ℕ
frame payload = to_le_bytes (length payload % 2 ^ 32) ++ payload

unfoldable pub write_frames : List (List ℕ) → List ℕ
write_frames [] = []
write_frames (payload ∷ rest) = frame payload ++ write_frames rest

-- `read_exact`: none at the end of the input.
unfoldable pub read_exact : ℕ → List ℕ → Option (List ℕ × List ℕ)
read_exact n input = if ltb (length input) n then none else some (take n input, drop n input)

-- The payload of a frame whose length is known, if the length is allowed.
abbrev pub read_payload : Option (List ℕ × List ℕ) → Option (List ℕ × List ℕ)
read_payload none = none
read_payload (some (lenbuf, input)) =
    let n = from_le_bytes lenbuf in if frame_size_allowed n then read_exact n input else none

unfoldable pub next_frame : List ℕ → Option (List ℕ × List ℕ)
next_frame input = read_payload (read_exact 4 input)

-- The payloads that the loop reads, up to the first frame that is incomplete or too large. Each takes four
-- bytes at least, so as many rounds as there are bytes are enough.
abbrev pub and_more : (List ℕ → List (List ℕ)) → Option (List ℕ × List ℕ) → List (List ℕ)
and_more more none = []
and_more more (some (payload, rest)) = payload ∷ more rest

unfoldable pub read_frames : ℕ → List ℕ → List (List ℕ)
read_frames zero input = []
read_frames (suc rounds) input = and_more (read_frames rounds) (next_frame input)

module _ (J : Json) (host : Host) where
  -- The replies so far, the watch table, and the requests for the workers.
  pub record Server : Type 0 where
    pub replies : Channel J
    pub control : Control
    pub jobs : List J.Value

  abbrev pub is_control : String → Bool
  is_control op = str_eq op "hello" || str_eq op "watch" || str_eq op "unwatch"

  -- One payload: what is no JSON is passed over.
  abbrev pub dispatch : Option J.Value → Server → Server
  dispatch none s = s
  dispatch (some req) s =
      if is_control (text_of J host req "op")
      then record s {
        replies = (handle_ctl J host req s.replies s.control).0;
        control = (handle_ctl J host req s.replies s.control).1;
      }
      else record s { jobs = s.jobs ++ (req ∷ []) }

  unfoldable pub serve : List (List ℕ) → Server → Server
  serve [] s = s
  serve (payload ∷ rest) s = serve rest (dispatch (J.from_slice payload) s)

  -- The loop over the whole input.
  unfoldable pub run : List ℕ → Server → Server
  run input s = serve (read_frames (length input) input) s
