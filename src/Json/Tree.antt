-- ===== src/Json/Tree.antt =====
-- A plain JSON value that meets the laws of the interface: the theorems that take serde_json as a
-- parameter are applied to it.
use emacs_relay.Common.{
  ℕ, refl, String, Bool, true, false, Option, none, some, List, [], ◌∷◌, ℤ, pos, str_eq,
  if◌then◌else◌,
}
use emacs_relay.Json.{Json, IsLawful}

mutual
  pub data Value : Type 0 where
    null : Value
    boolean : Bool → Value
    unsigned : ℕ → Value
    signed : ℤ → Value
    text : String → Value
    array : Items → Value
    of_object : Fields → Value

  pub data Items : Type 0 where
    nil : Items
    cons : Value → Items → Items

  pub data Fields : Type 0 where
    end : Fields
    entry : String → Value → Fields → Fields

abbrev to_items : List Value → Items
to_items [] = nil
to_items (v ∷ vs) = cons v (to_items vs)

abbrev of_items : Items → List Value
of_items nil = []
of_items (cons v vs) = v ∷ of_items vs

abbrev get : Fields → String → Option Value
get end k = none
get (entry j v fs) k = if str_eq j k then some v else get fs k

abbrev as_object : Value → Option Fields
as_object (of_object fs) = some fs
as_object _ = none

abbrev as_array : Value → Option (List Value)
as_array (array vs) = some (of_items vs)
as_array _ = none

abbrev as_str : Value → Option String
as_str (text s) = some s
as_str _ = none

abbrev as_u64 : Value → Option ℕ
as_u64 (unsigned n) = some n
as_u64 (signed z) = elim z [ pos n ↦ some n | _ ↦ none ]
as_u64 _ = none

abbrev as_i64 : Value → Option ℤ
as_i64 (unsigned n) = some (pos n)
as_i64 (signed z) = some z
as_i64 _ = none

abbrev as_bool : Value → Option Bool
as_bool (boolean b) = some b
as_bool _ = none

abbrev is_null : Value → Bool
is_null null = true
is_null _ = false

abbrev pub tree_json : Json
tree_json = record {
  Value = Value;
  Object = Fields;
  null = null;
  boolean = boolean;
  unsigned = unsigned;
  signed = signed;
  text = text;
  array = λ vs. array (to_items vs);
  of_object = of_object;
  empty = end;
  insert = λ fs k v. entry k v fs;
  get = get;
  as_object = as_object;
  as_array = as_array;
  as_str = as_str;
  as_u64 = as_u64;
  as_i64 = as_i64;
  as_bool = as_bool;
  is_null = is_null;
  to_bytes = λ v. [];
  from_slice = λ bytes. none;
}

pub tree_json-IsLawful : IsLawful tree_json
tree_json-IsLawful = record {
  get-empty = λ k. refl;
  get-insert = λ m k j v. refl;
  as_object-of_object = λ m. refl;
  as_str-text = λ s. refl;
  as_u64-unsigned = λ n h. refl;
  as_i64-signed = λ z h. refl;
}
