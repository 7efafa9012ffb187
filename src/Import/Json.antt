-- ===== src/Import/Json.antt =====
-- JSON values as `json.loads` yields them, over a type `N` of numbers (Python's `int` and `float`).
use topografisk_gdb_api.Prelude.{
  String, Bool, true, false, Option, none, some, List, [], ◌∷◌, ◌==◌, if◌then◌else◌,
}

mutual
  pub data Json (N : Type 0) : Type 0 where
    null : Json N
    boolean : Bool → Json N
    number : N → Json N
    text : String → Json N
    array : Items N → Json N
    object : Fields N → Json N

  pub data Items (N : Type 0) : Type 0 where
    nil : Items N
    cons : Json N → Items N → Items N

  pub data Fields (N : Type 0) : Type 0 where
    end : Fields N
    field : String → Json N → Fields N → Fields N

module _ {N : Type 0} where
  -- `fields.get(name)` where a missing key is told from a null.
  unfoldable pub find_field : String → Fields N → Option (Json N)
  find_field name end = none
  find_field name (field k v rest) = if k == name then some v else find_field name rest

  -- `fields.get(name)`
  unfoldable pub get_field : String → Fields N → Json N
  get_field name end = null
  get_field name (field k v rest) = if k == name then v else get_field name rest

  -- `fields[name] = value`
  unfoldable pub put_field : String → Json N → Fields N → Fields N
  put_field name value end = field name value end
  put_field name value (field k v rest) =
      if k == name then field k value rest else field k v (put_field name value rest)

  -- The `isinstance` tests.
  abbrev pub as_object : Json N → Option (Fields N)
  as_object (object fields) = some fields
  as_object null = none
  as_object _ = none

  abbrev pub to_list : Items N → List (Json N)
  to_list nil = []
  to_list (cons v vs) = v ∷ to_list vs

  abbrev pub of_list : List (Json N) → Items N
  of_list [] = nil
  of_list (v ∷ vs) = cons v (of_list vs)

  abbrev pub as_array : Json N → Option (List (Json N))
  as_array (array items) = some (to_list items)
  as_array null = none
  as_array _ = none

  abbrev pub as_text : Json N → Option String
  as_text (text s) = some s
  as_text null = none
  as_text _ = none

  abbrev pub is_null : Json N → Bool
  is_null null = true
  is_null (boolean b) = false
  is_null _ = false

  -- `value == "…"`
  abbrev pub is_text : String → Json N → Bool
  is_text s (text t) = t == s
  is_text s null = false
  is_text s _ = false
