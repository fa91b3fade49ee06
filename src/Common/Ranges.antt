-- ===== src/Common/Ranges.antt =====
-- A piece that stands at an offset of a list, and what stays of it when the list grows at its end.
use Prim.Native.Nat.{ℕ, zero, suc, ◌+◌, ◌≤◌}
use mathlib.Core.Path.{◌≡◌, refl, ap, sym, ◌∙◌}
use mathlib.Core.List.{List, [], ◌∷◌, ◌++◌}
use native.Mathlib.Omega.{arith}
use emacs_relay.Common.Lists.{length, take, drop, length-append, length-take, length-drop, drop_add}

module _ {ℓ} {A : Type ℓ} where
  abbrev pub StandsAt : List A → ℕ → List A → Type ℓ
  StandsAt piece offset content = piece ≡ take (length piece) (drop offset content)

  drop_append : (n : ℕ) (xs ys : List A) → n ≤ length xs → drop n (xs ++ ys) ≡ drop n xs ++ ys
  drop_append zero xs ys h = refl
  drop_append (suc n) [] ys h = absurd (omega arith)
  drop_append (suc n) (x ∷ xs) ys h = drop_append n xs ys (omega arith)

  take_append : (n : ℕ) (xs ys : List A) → n ≤ length xs → take n (xs ++ ys) ≡ take n xs
  take_append zero xs ys h = refl
  take_append (suc n) [] ys h = absurd (omega arith)
  take_append (suc n) (x ∷ xs) ys h = ap (λ t. x ∷ t) (take_append n xs ys (omega arith))

  take_add : (m n : ℕ) (xs : List A) → take (m + n) xs ≡ take m xs ++ take n (drop m xs)
  take_add zero n xs = ap (λ k. take k xs) (omega arith)
  take_add (suc m) n [] =
      let e : suc m + n ≡ suc (m + n) = omega arith in ap (λ k. take k []) e ∙ sym (take_none n)
    where
      take_none : (n : ℕ) → take {A = A} n [] ≡ []
      take_none zero = refl
      take_none (suc n) = refl
  take_add (suc m) n (x ∷ xs) =
      let e : suc m + n ≡ suc (m + n) = omega arith in
      ap (λ k. take k (x ∷ xs)) e ∙ ap (λ t. x ∷ t) (take_add m n xs)

  -- The list grows at its end.
  pub StandsAt-append :
      (piece : List A) (offset : ℕ) (content more : List A)
      → StandsAt piece offset content
      → StandsAt piece offset (content ++ more)
  StandsAt-append [] offset content more h = refl
  StandsAt-append (x ∷ piece) offset content more h =
      let inside : offset ≤ length content = omega (
        arith,
        ap length h,
        length-take (suc (length piece)) (drop offset content),
        length-drop offset content,
      ) in
      let long : suc (length piece) ≤ length (drop offset content) =
        omega (arith, ap length h, length-take (suc (length piece)) (drop offset content)) in
      h
      ∙ sym (take_append (suc (length piece)) (drop offset content) more long)
      ∙ ap (take (suc (length piece))) (sym (drop_append offset content more inside))

  -- Two pieces, one behind the other.
  pub StandsAt-chain :
      (piece next : List A) (offset : ℕ) (content : List A)
      → StandsAt piece offset content
      → StandsAt next (offset + length piece) content
      → StandsAt (piece ++ next) offset content
  StandsAt-chain piece next offset content h k =
      ap (λ p. p ++ next) h
      ∙ ap (λ q. take (length piece) (drop offset content) ++ q)
          (k ∙ ap (take (length next)) (drop_add offset (length piece) content))
      ∙ sym (take_add (length piece) (length next) (drop offset content))
      ∙ ap (λ n. take n (drop offset content)) (sym (length-append piece next))

  pub take-StandsAt :
      (n offset : ℕ) (content : List A) → StandsAt (take n (drop offset content)) offset content
  take-StandsAt n offset content = go n (drop offset content)
    where
      go : (n : ℕ) (xs : List A) → take n xs ≡ take (length (take n xs)) xs
      go zero xs = refl
      go (suc n) [] = refl
      go (suc n) (x ∷ xs) = ap (λ t. x ∷ t) (go n xs)
