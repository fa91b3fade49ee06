-- ===== src/Common/Everywhere.antt =====
-- What holds of every element of a list, and of the parts of a list that is joined.
use Prim.Native.Nat.{ℕ, zero, suc}
use mathlib.Core.Path.{◌≡◌, ap, sym, ◌∙◌}
use mathlib.Core.List.{List, [], ◌∷◌, ◌++◌}
use emacs_relay.Common.Lists.{All, length, drop, drop-length_append, set, get_or}

module _ {A : Type 0} where
  pub append_cancel : (xs ys zs : List A) → xs ++ ys ≡ xs ++ zs → ys ≡ zs
  append_cancel xs ys zs h =
      sym (drop-length_append xs ys) ∙ ap (drop (length xs)) h ∙ drop-length_append xs zs

  module _ (P : A → Type 0) where
    pub All-append : (xs ys : List A) → All P xs → All P ys → All P (xs ++ ys)
    All-append [] ys h k = k
    All-append (x ∷ xs) ys h k = (h.0, All-append xs ys h.1 k)

    pub All-front : (xs ys : List A) → All P (xs ++ ys) → All P xs
    All-front [] ys h = tt
    All-front (x ∷ xs) ys h = (h.0, All-front xs ys h.1)

    pub All-back : (xs ys : List A) → All P (xs ++ ys) → All P ys
    All-back [] ys h = h
    All-back (x ∷ xs) ys h = All-back xs ys h.1

    pub All-set : (xs : List A) (i : ℕ) (v : A) → All P xs → P v → All P (set xs i v)
    All-set [] i v h k = tt
    All-set (x ∷ xs) zero v h k = (k, h.1)
    All-set (x ∷ xs) (suc i) v h k = (h.0, All-set xs i v h.1 k)

    pub All-get_or : (xs : List A) (i : ℕ) (d : A) → All P xs → P d → P (get_or xs i d)
    All-get_or [] i d h k = k
    All-get_or (x ∷ xs) zero d h k = h.0
    All-get_or (x ∷ xs) (suc i) d h k = All-get_or xs i d h.1 k
