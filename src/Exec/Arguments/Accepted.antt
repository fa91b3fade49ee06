-- ===== src/Exec/Arguments/Accepted.antt =====
-- Which requests `exec` of server/src/fs_handlers.rs accepts.
use emacs_relay.Common.{
  ℕ, ◌<◌, ◌≡◌, refl, ap, sym, subst, ◌∙◌, String, Bool, true, false, Option, none, some, List, [],
  ◌∷◌, ltb, ltb→lt, if◌then◌else◌, arith,
}
use emacs_relay.Fs.{Result, ok, err}
use emacs_relay.Json.{Json}
use emacs_relay.Json.Object.{field}
use emacs_relay.Revision.Wire.{◌>>=◌, ok_or, and_then}
use emacs_relay.Framing.{expand_home}
use emacs_relay.Control.{Host}
use emacs_relay.Exec.Arguments.{
  Arguments, and_also, collect, texts, first_of, positive, timeout_of, cwd_of, expanded_cwd,
  arguments, exec_arguments,
}

abbrev or_zero : Option ℕ → ℕ
or_zero none = 0
or_zero (some n) = n

module _ {A B : Type 0} where
  chain_ok :
      (r : Result String A) (f : A → Result String B) {b : B}
      → (r >>= f) ≡ ok b
      → (a : A) × (r ≡ ok a) × (f a ≡ ok b)
  chain_ok (ok a) f h = (a, refl, h)
  chain_ok (err e) f h = cc

-- The JSON values are these texts, one for one and in order.
abbrev pub AreTexts : (J : Json) → List J.Value → List String → Type 0
AreTexts J [] [] = Unit {0}
AreTexts J [] (s ∷ ss) = ⊥
AreTexts J (v ∷ vs) [] = ⊥
AreTexts J (v ∷ vs) (s ∷ ss) = (J.as_str v ≡ some s) × AreTexts J vs ss

abbrev collect_onto : Option String → Option (List String) → Option (List String)
collect_onto none rest = none
collect_onto (some s) rest = and_also s rest

abbrev or_empty : Option (List String) → List String
or_empty none = []
or_empty (some ss) = ss

module _ {A : Type 0} where
  ok_or_ok : (message : String) (o : Option A) {a : A} → ok_or message o ≡ ok a → o ≡ some a
  ok_or_ok message none h = cc
  ok_or_ok message (some a) h = cc

module _ (J : Json) (host : Host) where
  texts_of :
      (vs : List J.Value) (ss : List String)
      → collect (texts J host vs) ≡ some ss
      → AreTexts J vs ss
  texts_of [] [] h = tt
  texts_of [] (s ∷ ss) h = cc
  texts_of (v ∷ vs) ss h =
      go (texts_of vs) (J.as_str v) refl (collect (texts J host vs)) refl (collected (J.as_str v) h)
    where
      collected :
          (o : Option String)
          → collect (o ∷ texts J host vs) ≡ some ss
          → collect_onto o (collect (texts J host vs)) ≡ some ss
      collected none h = h
      collected (some s) h = h

      go :
          ((rest : List String) → collect (texts J host vs) ≡ some rest → AreTexts J vs rest)
          → (o : Option String) → J.as_str v ≡ o
          → (rest : Option (List String)) → collect (texts J host vs) ≡ rest
          → collect_onto o rest ≡ some ss
          → AreTexts J (v ∷ vs) ss
      go ih none e rest e' h = cc
      go ih (some s) e none e' h = cc
      go ih (some s) e (some rest) e' h =
          subst (AreTexts J (v ∷ vs)) (ap (or_empty) h) (e, ih rest e')

  -- A working directory is a text, whose `~` stands for the home directory.
  abbrev pub IsCwd : Option J.Value → Option String → Type 0
  IsCwd none cwd = cwd ≡ none
  IsCwd (some value) cwd =
      (text : String) × (J.as_str value ≡ some text) × (cwd ≡ some (expand_home host.home text))

  cwd_of_ok : (o : Option J.Value) {cwd : Option String} → cwd_of J host o ≡ ok cwd → IsCwd o cwd
  cwd_of_ok none h = cc
  cwd_of_ok (some value) {cwd} h = go (J.as_str value) refl h
    where
      go :
          (o : Option String)
          → J.as_str value ≡ o
          → expanded_cwd J host (ok_or "exec: \"cwd\" must be a string" o) ≡ ok cwd
          → IsCwd (some value) cwd
      go none e h = cc
      go (some text) e h = (text, e, cc)

  first_of_ok :
      (message : String) (vs : List J.Value) {l : List J.Value}
      → first_of J host message vs ≡ ok l
      → vs ≡ l
  first_of_ok message [] h = cc
  first_of_ok message (v ∷ vs) h = cc

  positive-some : (o : Option ℕ) {n : ℕ} → positive J host o ≡ some n → 0 < n
  positive-some none h = cc
  positive-some (some k) {n} h = go (ltb 0 k) refl h
    where
      go : (b : Bool) → ltb 0 k ≡ b → (if b then some k else none) ≡ some n → 0 < n
      go true e q = omega (arith, ltb→lt 0 k e, ap or_zero q)
      go false e q = cc

  positive_same : (o : Option ℕ) {n : ℕ} → positive J host o ≡ some n → o ≡ some n
  positive_same none h = cc
  positive_same (some k) {n} h = go (ltb 0 k) h
    where
      go : (b : Bool) → (if b then some k else none) ≡ some n → some k ≡ some n
      go true q = q
      go false q = cc

  -- A time limit that is not given is 30 seconds, and one that is given is a positive number.
  abbrev pub IsLimit : Option J.Value → ℕ → Type 0
  IsLimit none n = n ≡ 30000
  IsLimit (some value) n = (J.as_u64 value ≡ some n) × (0 < n)

  timeout_of_ok : (o : Option J.Value) {n : ℕ} → timeout_of J host o ≡ ok n → IsLimit o n
  timeout_of_ok none h = ground arith
  timeout_of_ok (some value) {n} h =
      let given = ok_or_ok _ (positive J host (J.as_u64 value)) h in
      (positive_same (J.as_u64 value) given, positive-some (J.as_u64 value) given)

  arguments_ok :
      (argv : List String) (timeout_ms : ℕ) (cwd : Option String) {a : Arguments}
      → arguments J host argv timeout_ms cwd ≡ ok a
      → (argv ≡ a.program ∷ a.args) × (a.timeout_ms ≡ timeout_ms) × (a.cwd ≡ cwd)
  arguments_ok [] timeout_ms cwd h = cc
  arguments_ok (program ∷ args) timeout_ms cwd h = ground arith

  -- Whatever JSON a client sends, a request that `exec` accepts has an array of texts for its command, the
  -- program first and the arguments behind it, one for one and in order; its time limit is the
  -- positive number that it gives, or 30 seconds where it gives none; and its working directory is the
  -- text that it gives, with the home directory for a `~`, or none where it gives none.
  pub exec_arguments-accepted :
      (req : J.Value) {a : Arguments}
      → exec_arguments J host req ≡ ok a
      → (vs : List J.Value) × (and_then (field J req "command") J.as_array ≡ some vs)
        × AreTexts J vs (a.program ∷ a.args)
        × IsLimit (field J req "timeout_ms") a.timeout_ms
        × IsCwd (field J req "cwd") a.cwd
  unfolding exec_arguments
  exec_arguments-accepted req {a} h =
      let (command, e1, h1) = chain_ok _ _ h in
      let (listed, e2, h2) = chain_ok _ _ h1 in
      let (argv, e3, h3) = chain_ok _ _ h2 in
      let (timeout_ms, e4, h4) = chain_ok _ _ h3 in
      let (cwd, e5, h5) =
        chain_ok (cwd_of J host (field J req "cwd")) (arguments J host argv timeout_ms) h4 in
      let (split, limit, where_to) = arguments_ok argv timeout_ms cwd h5 in
      let given = timeout_of_ok (field J req "timeout_ms") e4 in
      (
        command,
        ok_or_ok _ _ e1,
        subst (AreTexts J command) split (
            texts_of command argv
              (ap (λ l. collect (texts J host l)) (first_of_ok _ command e2) ∙ ok_or_ok _ _ e3)),
        subst (IsLimit (field J req "timeout_ms")) (sym limit) given,
        subst (IsCwd (field J req "cwd")) (sym where_to) (cwd_of_ok (field J req "cwd") e5),
      )
