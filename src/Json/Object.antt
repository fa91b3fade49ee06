-- ===== src/Json/Object.antt =====
-- `json!({ … })`, `Value::get` and `Map::insert` on a reply, as the server's code writes them.
use emacs_relay.Common.{◌≡◌, refl, ◌∙◌, String, Option, none, some, List, [], ◌∷◌, arith}
use emacs_relay.Common.{str_eq, if◌then◌else◌}
use emacs_relay.Json.{Json, IsLawful}

module _ (J : Json) where
  abbrev pub Fields : Type 0
  Fields = List (String × J.Value)

  unfoldable pub insert_all : J.Object → Fields → J.Object
  insert_all m [] = m
  insert_all m ((k, v) ∷ fs) = insert_all (J.insert m k v) fs

  -- `json!({ "k": v, … })`
  unfoldable pub object : Fields → J.Value
  unfolding insert_all
  object fs = J.of_object (insert_all J.empty fs)

  -- `value.get("k")`: none where the value is no object.
  unfoldable pub field : J.Value → String → Option J.Value
  field v k = elim (J.as_object v) [ none ↦ none | some m ↦ J.get m k ]

  -- `if let Value::Object(ref mut m) = v { m.insert(k, x); … }`
  unfoldable pub add_fields : J.Value → Fields → J.Value
  unfolding insert_all
  add_fields v fs = elim (J.as_object v) [ none ↦ v | some m ↦ J.of_object (insert_all m fs) ]

  -- The value that stands under a key once all fields are in: the last one wins.
  abbrev pub found : Option J.Value → String → Fields → Option J.Value
  found old k [] = old
  found old k ((j, v) ∷ fs) = found (if str_eq j k then some v else old) k fs

  module _ (L : IsLawful J) where
    get-insert_all :
        (m : J.Object) (k : String) (fs : Fields)
        → J.get (insert_all m fs) k ≡ found (J.get m k) k fs
    unfolding insert_all
    get-insert_all m k [] = refl
    get-insert_all m k ((j, v) ∷ fs) =
        get-insert_all (J.insert m j v) k fs ∙ (λ i. found (L.get-insert m j k v i) k fs)

    pub get-insert_all_empty :
        (k : String) (fs : Fields) → J.get (insert_all J.empty fs) k ≡ found none k fs
    get-insert_all_empty k fs = get-insert_all J.empty k fs ∙ (λ i. found (L.get-empty k i) k fs)

    -- A field of an object literal.
    pub field-object : (fs : Fields) (k : String) → field (object fs) k ≡ found none k fs
    unfolding field object
    field-object fs k =
        ground (arith, L.as_object-of_object (insert_all J.empty fs), get-insert_all_empty k fs)

    -- A field of an object literal that fields were added to.
    pub field-add_fields :
        (fs gs : Fields) (k : String)
        → field (add_fields (object fs) gs) k ≡ found (found none k fs) k gs
    unfolding field object add_fields
    field-add_fields fs gs k = ground (
      arith,
      L.as_object-of_object (insert_all J.empty fs),
      L.as_object-of_object (insert_all (insert_all J.empty fs) gs),
      get-insert_all (insert_all J.empty fs) k gs,
      get-insert_all_empty k fs,
    )
