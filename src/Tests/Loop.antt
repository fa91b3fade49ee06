-- ===== src/Tests/Loop.antt =====
-- The theorems on the main loop and on events at a sample.
use emacs_relay.Common.{ℕ, ◌≡◌, refl, Option, none, some, ◌++◌, pos, [], ◌∷◌, List, length, arith}
use emacs_relay.Json.{Json, IsLawful}
use emacs_relay.Json.Object.{object}
use emacs_relay.Json.Tree.{tree_json}
use emacs_relay.Main.{
  Server, write_frames, frame, to_le_bytes, read_exact, next_frame, read_frames, run,
}
use emacs_relay.Main.Frames.{read_frames-write_frames}
use emacs_relay.Main.Served.{IsServed, requests, run-IsServed}
use emacs_relay.Main.Events.{file_name}
use emacs_relay.Tests.Server.{accept, host_with, one}

abbrev J : Json
J = tree_json

abbrev payloads : List (List ℕ)
payloads = (b'{' ∷ b'}' ∷ []) ∷ [] ∷ (b'1' ∷ []) ∷ []

framed :
    write_frames payloads ≡ 2 ∷ 0 ∷ 0 ∷ 0 ∷ b'{' ∷ b'}' ∷ 0 ∷ 0 ∷ 0 ∷ 0 ∷ 1 ∷ 0 ∷ 0 ∷ 0 ∷ b'1' ∷ []
unfolding write_frames frame to_le_bytes
framed = refl

read_frames-write_frames_example :
    read_frames (length (write_frames payloads)) (write_frames payloads) ≡ payloads
read_frames-write_frames_example =
    read_frames-write_frames payloads (omega arith, (omega arith, (omega arith, tt)))

-- A client that sends a hello, something that is no JSON, and a stat.
abbrev request_of : List ℕ → Option J.Value
request_of (h ∷ []) = some (object J (("op", J.text "hello") ∷ ("id", J.signed (pos 3)) ∷ []))
request_of (s ∷ t ∷ []) = some (object J (("op", J.text "stat") ∷ []))
request_of bytes = none

abbrev K : Json
K = record tree_json { from_slice = request_of }

K-IsLawful : IsLawful K
K-IsLawful = record {
  get-empty = λ k. refl;
  get-insert = λ m k j v. refl;
  as_object-of_object = λ m. refl;
  as_str-text = λ s. refl;
  as_u64-unsigned = λ n h. refl;
  as_i64-signed = λ z h. refl;
}

abbrev sent_in : List (List ℕ)
sent_in = (b'h' ∷ []) ∷ [] ∷ (b's' ∷ b't' ∷ []) ∷ []

abbrev idle : Server K (host_with (some accept))
idle = record { replies = []; control = one; jobs = [] }

-- Behind the three frames stands the start of a fourth.
over : next_frame (1 ∷ 0 ∷ []) ≡ none
unfolding next_frame read_exact
over = refl

run-IsServed_example :
    let host = host_with (some accept) in
    IsServed K host idle
      (run K host (write_frames sent_in ++ (1 ∷ 0 ∷ [])) idle)
      (requests K host sent_in)
run-IsServed_example =
    run-IsServed K (host_with (some accept)) sent_in (1 ∷ 0 ∷ []) idle K-IsLawful
      (omega arith, (omega arith, (omega arith, tt))) over

name_examples :
    (file_name "/b/new.txt" ≡ some "new.txt")
    × (file_name "/" ≡ none)
    × (file_name "a/.." ≡ none)
    × (file_name "/b/dir/" ≡ some "dir")
unfolding file_name
name_examples = (refl, refl, refl, refl)
