-- ===== src/Sha256/Schedule.antt =====
-- The message schedule that `sha256` of server/src/revisions/types.rs fills in place.
use emacs_relay.Common.{ℕ, zero, suc, ◌+◌, ◌*◌, ◌-◌, ◌≤◌, ◌<◌, ◌≡◌, ◌≢◌, refl, ◌∙◌, arith}
use emacs_relay.Common.{List, [], ◌∷◌, length, get_or, set, take, drop, replicate, length-set}
use emacs_relay.Common.{ltb, if◌then◌else◌}
use emacs_relay.Sha256.Words.{be32}
use emacs_relay.Sha256.{load_words, extend_words, next_word, message_schedule}

get_or-set_self : (xs : List ℕ) (i v : ℕ) → i < length xs → get_or (set xs i v) i 0 ≡ v
get_or-set_self [] i v h = elim h [ ]
get_or-set_self (x ∷ xs) zero v h = refl
get_or-set_self (x ∷ xs) (suc i) v h = get_or-set_self xs i v (omega arith)

get_or-set_ne : (xs : List ℕ) (i j v : ℕ) → i ≢ j → get_or (set xs i v) j 0 ≡ get_or xs j 0
get_or-set_ne [] i j v h = refl
get_or-set_ne (x ∷ xs) zero zero v h = absurd (h refl)
get_or-set_ne (x ∷ xs) zero (suc j) v h = refl
get_or-set_ne (x ∷ xs) (suc i) zero v h = refl
get_or-set_ne (x ∷ xs) (suc i) (suc j) v h = get_or-set_ne xs i j v (omega arith)

abbrev chunk_word : List ℕ → ℕ → ℕ
chunk_word chunk i = be32 (take 4 (drop (i * 4) chunk))

length-load_words :
    (more index : ℕ) (chunk words : List ℕ)
    → length (load_words more index chunk words) ≡ length words
unfolding load_words
length-load_words zero index chunk words = refl
length-load_words (suc more) index chunk words =
    length-load_words more (index + 1) chunk (set words index (chunk_word chunk index))
    ∙ length-set words index (chunk_word chunk index)

load_words_below :
    (more index : ℕ) (chunk words : List ℕ) (j : ℕ)
    → j < index
    → get_or (load_words more index chunk words) j 0 ≡ get_or words j 0
unfolding load_words
load_words_below zero index chunk words j h = refl
load_words_below (suc more) index chunk words j h =
    load_words_below more (index + 1) chunk (set words index (chunk_word chunk index)) j
      (omega arith)
    ∙ get_or-set_ne words index j (chunk_word chunk index) (omega arith)

load_words_lem :
    (more index : ℕ) (chunk words : List ℕ) (j : ℕ)
    → index ≤ j
    → j < index + more
    → index + more ≤ length words
    → get_or (load_words more index chunk words) j 0 ≡ chunk_word chunk j
unfolding load_words
load_words_lem zero index chunk words j lo hi fits = absurd (omega arith)
load_words_lem (suc more) index chunk words j lo hi fits =
    let next : List ℕ = set words index (chunk_word chunk index) in
    ground (
      arith,
      length-set words index (chunk_word chunk index),
      get_or-set_self words index (chunk_word chunk index),
      load_words_below more (index + 1) chunk next j,
      load_words_lem more (index + 1) chunk next j,
    )

extend_words_below :
    (more index : ℕ) (words : List ℕ) (j : ℕ)
    → j < index
    → get_or (extend_words more index words) j 0 ≡ get_or words j 0
unfolding extend_words
extend_words_below zero index words j h = refl
extend_words_below (suc more) index words j h =
    extend_words_below more (index + 1) (set words index (next_word words index)) j (omega arith)
    ∙ get_or-set_ne words index j (next_word words index) (omega arith)

-- What is stored at `index` reads only entries below it.
next_word_agrees :
    (words later : List ℕ) (index : ℕ)
    → 16 ≤ index
    → ((j : ℕ) → j < index → get_or later j 0 ≡ get_or words j 0)
    → next_word later index ≡ next_word words index
unfolding next_word
next_word_agrees words later index h same = cc (
  same (index - 16) (omega arith),
  same (index - 15) (omega arith),
  same (index - 7) (omega arith),
  same (index - 2) (omega arith),
)

extend_words_lem :
    (more index : ℕ) (words : List ℕ) (j : ℕ)
    → 16 ≤ index
    → index ≤ j
    → j < index + more
    → index + more ≤ length words
    → let w = extend_words more index words in get_or w j 0 ≡ next_word w j
unfolding extend_words
extend_words_lem zero index words j h lo hi fits = absurd (omega arith)
extend_words_lem (suc more) index words j h lo hi fits =
    let v = next_word words index in
    let next : List ℕ = set words index v in
    let final : List ℕ = extend_words more (index + 1) next in
    let kept : (i : ℕ) → i < index → get_or final i 0 ≡ get_or words i 0 = λ i hi.
      extend_words_below more (index + 1) next i (omega arith)
      ∙ get_or-set_ne words index i v (omega arith) in
    ground (
      arith,
      length-set words index v,
      get_or-set_self words index v,
      extend_words_below more (index + 1) next j,
      next_word_agrees words final index h kept,
      extend_words_lem more (index + 1) next j,
    )

-- In the finished schedule the first 16 words are the chunk's, read big-endian, and each of the
-- other 48 meets the recurrence over the finished schedule itself.
pub message_schedule_lem :
    (chunk : List ℕ) (j : ℕ)
    → j < 64
    → let w = message_schedule chunk in
      get_or w j 0 ≡ (if ltb j 16 then be32 (take 4 (drop (j * 4) chunk)) else next_word w j)
unfolding message_schedule
message_schedule_lem chunk j hi =
    let blank : List ℕ = replicate 64 0 in
    let loaded : List ℕ = load_words 16 0 chunk blank in
    let size : length loaded ≡ 64 = length-load_words 16 0 chunk blank in
    ground (
      arith,
      extend_words_below 48 16 loaded j,
      load_words_lem 16 0 chunk blank j,
      extend_words_lem 48 16 loaded j,
    )
