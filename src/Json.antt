-- ===== src/Json.antt =====
-- JSON values as `json.loads` builds them, with the pairs of an object in the order of the text, and
-- the hook that rejects a repeated key. The grammar of JSON text and the SHA-256 function are
-- parameters: the standard library's decoder and `hashlib`.
use coffee_order_system.Prelude.{
  ℕ, Bool, true, false, Option, none, some, List, [], ◌∷◌, ◌==◌, text_eq, if◌then◌else◌, contains,
  Text, txt, ℤ,
}
use coffee_order_system.Outcome.{Result, ok, violation, exception, value, violation_of, fail}

mutual
  pub data Json : Type 0 where
    null : Json
    bool : Bool → Json
    int : ℤ → Json
    float : Text → Json
    str : Text → Json
    arr : Items → Json
    obj : Fields → Json

  pub data Items : Type 0 where
    nil : Items
    cons : Json → Items → Items

  pub data Fields : Type 0 where
    end : Fields
    field : Text → Json → Fields → Fields

-- The decoder of the standard library, `none` for a text that it refuses, and the digest.
pub record Library : Type 0 where
  pub json : List ℕ → Option Json
  pub sha256 : List ℕ → Text

unfoldable pub keys : Fields → List Text
keys end = []
keys (field k v fs) = k ∷ keys fs

unfoldable pub get : Text → Fields → Option Json
get k end = none
get k (field j v fs) = if j == k then some v else get k fs

-- `payload[k]`
unfoldable pub get_item : Text → Fields → Result Json
unfolding get
get_item k fs = elim (get k fs) [ none ↦ exception (txt "KeyError") | some v ↦ ok v ]

-- The loop of `_reject_duplicate_json_keys`: the first key that the dict already has.
unfoldable pub repeated_key : List Text → Fields → Option Text
repeated_key seen end = none
repeated_key seen (field k v fs) = elim (contains seen k) [
  | true ↦ some k
  | false ↦ repeated_key (k ∷ seen) fs
]

abbrev or_else : Option Text → Option Text → Option Text
or_else none b = b
or_else (some a) b = some a

-- The hook runs at the end of each object, so the inner objects come first.
unfoldable mutual
  pub duplicate_in : Json → Option Text
  duplicate_in null = none
  duplicate_in (bool b) = none
  duplicate_in (int i) = none
  duplicate_in (float t) = none
  duplicate_in (str t) = none
  duplicate_in (arr xs) = duplicate_in_items xs
  duplicate_in (obj fs) = or_else (duplicate_in_fields fs) (repeated_key [] fs)

  pub duplicate_in_items : Items → Option Text
  duplicate_in_items nil = none
  duplicate_in_items (cons x xs) = or_else (duplicate_in x) (duplicate_in_items xs)

  pub duplicate_in_fields : Fields → Option Text
  duplicate_in_fields end = none
  duplicate_in_fields (field k v fs) = or_else (duplicate_in v) (duplicate_in_fields fs)

unfoldable pub as_object : Text → Text → Json → Result Fields
as_object check_id label (obj fs) = ok fs
as_object check_id label _ =
    violation (violation_of fail check_id (value (txt "not an object") label))

-- `_parse_json_object`
unfoldable pub parse_json_object : Library → List ℕ → Text → Text → Result Fields
unfolding duplicate_in repeated_key as_object
parse_json_object library raw check_id label = elim (library.json raw) [
  | none ↦ violation (violation_of fail check_id (value (txt "not JSON") label))
  | some payload ↦ elim (duplicate_in payload) [
    | some key ↦ violation (violation_of fail check_id (value (txt "duplicate key") key))
    | none ↦ as_object check_id label payload
  ]
]
