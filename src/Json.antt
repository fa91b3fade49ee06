-- ===== src/Json.antt =====
-- The interface of serde_json, which the server only calls: values, objects, the readers `get`,
-- `as_u64` and so on, and the two directions of the text form. The laws are what its documentation
-- says of an object that was built by insertions and of a number or text that was put into a value.
pub mod Object
pub mod Tree
use emacs_relay.Common.{ℕ, ◌<◌, ◌^◌, ◌≡◌, String, Bool, Option, none, some, List}
use emacs_relay.Common.{ℤ, IsI64, str_eq, if◌then◌else◌}

pub record Json : Type 1 where
  pub Value : Type 0
  pub Object : Type 0
  pub null : Value
  pub boolean : Bool → Value
  pub unsigned : ℕ → Value
  pub signed : ℤ → Value
  pub text : String → Value
  pub array : List Value → Value
  pub of_object : Object → Value
  pub empty : Object
  pub insert : Object → String → Value → Object
  pub get : Object → String → Option Value
  pub as_object : Value → Option Object
  pub as_array : Value → Option (List Value)
  pub as_str : Value → Option String
  pub as_u64 : Value → Option ℕ
  pub as_i64 : Value → Option ℤ
  pub as_bool : Value → Option Bool
  pub is_null : Value → Bool
  pub to_bytes : Value → List ℕ
  pub from_slice : List ℕ → Option Value

pub record IsLawful (J : Json) : Type 0 where
  pub get-empty : (k : String) → J.get J.empty k ≡ none
  pub get-insert :
      (m : J.Object) (k j : String) (v : J.Value)
      → J.get (J.insert m k v) j ≡ (if str_eq k j then some v else J.get m j)
  pub as_object-of_object : (m : J.Object) → J.as_object (J.of_object m) ≡ some m
  pub as_str-text : (s : String) → J.as_str (J.text s) ≡ some s
  pub as_u64-unsigned : (n : ℕ) → n < 2 ^ 64 → J.as_u64 (J.unsigned n) ≡ some n
  pub as_i64-signed : (z : ℤ) → IsI64 z → J.as_i64 (J.signed z) ≡ some z
