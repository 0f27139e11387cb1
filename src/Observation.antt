-- ===== src/Observation.antt =====
-- minireplay/observation.py: result contracts, JSON pointers and the projection of a native result.
pub mod Parts
pub mod Pointer
pub mod Child
pub mod Masked
pub mod Project
pub mod Repeated
pub mod Laws
pub mod Errors
mod Tests
use minireplayer.Prelude.{
  ℕ, String, Bool, true, false, not, ◌&&◌, ◌||◌, Option, none, some, List, [], ◌∷◌, ◌++◌, Dict,
  Result, ok, raise, validation_error, type_error, ◌>>=◌, ◌>>◌, require, raise_if, all, elem,
  if◌then◌else◌, ◌==◌, string_eq,
}
use minireplayer.Json.{
  Value, Fields, Items, obj, arr, str, bool, null, int, negative, float, end, field, nil, cons, get,
  has, is_text,
}
use minireplayer.Json.Text.{starts_with}

-- constants.py, `RESULT_CONTRACT_SCHEMA`
abbrev pub result_contract_schema : String
result_contract_schema = "native-agent-replay.result-contract/v2"

-- the index that `int(part)` gives; `back n` is -(n + 1)
pub data Index : Type 0 where
  front back : ℕ → Index

-- What the module takes from Python and util.py: `int` on a text, with none for a `ValueError`, and
-- the digest of a value.
pub record Library : Type 0 where
  pub int_of : String → Option Index
  pub sha256_json : Value → String

abbrev exact_text : Value
exact_text = str "exact"

-- `exact_result_contract`
unfoldable pub exact_result_contract : Fields
exact_result_contract =
    field "schema_version" (str result_contract_schema)
      (field "kind" (str "exact") (field "fields" (arr nil) end))

-- `recorded_output_result_contract`
unfoldable pub recorded_output_result_contract : String → Fields
recorded_output_result_contract pointer = field "schema_version" (str result_contract_schema) (
    field "kind" (str "recorded-observation") (
      field "fields"
        (arr
          (cons (obj (field "json_pointer" (str pointer) (field "optional" (bool true) end))) nil))
        end))

unfoldable pub keys_in : List String → Fields → Bool
keys_in ks end = true
keys_in ks (field k v rest) = elem k ks && keys_in ks rest

-- `set(value) == {...}`
unfoldable pub has_inventory : List String → Fields → Bool
has_inventory ks d = keys_in ks d && all (λ k. has k d) ks

-- a contracted field: its pointer and whether it is optional
abbrev pub Contracted : Type 0
Contracted = String × Bool

-- what a field of a contract says, for an object with the right inventory
abbrev pub contracted : List String → Value → Value → Result Contracted
contracted seen (str pointer) (bool optional) = do
  require (starts_with "/" pointer && not (elem pointer seen))
  ok (pointer, optional)
contracted seen _ _ = raise validation_error

-- one turn of the loop over the fields of a contract
unfoldable pub contract_field : List String → Value → Result Contracted
contract_field seen (obj d) = do
  require (has_inventory ("json_pointer" ∷ "optional" ∷ []) d)
  contracted seen (get "json_pointer" d) (get "optional" d)
contract_field seen _ = raise validation_error

-- the loop: every field is accepted with the pointers seen before it
unfoldable pub contract_fields : List String → Items → Result (List Contracted)
contract_fields seen nil = ok []
contract_fields seen (cons v vs) = do
  f ← contract_field seen v
  rest ← contract_fields (f.0 ∷ seen) vs
  ok (f ∷ rest)

-- `kind in {"exact", "recorded-observation"}`: whether it is exact. A list or an object has no hash.
unfoldable pub contract_kind : Value → Result Bool
contract_kind (str s) =
    if s == "exact"
    then ok true
    else if s == "recorded-observation"
    then ok false
    else raise validation_error
contract_kind (arr xs) = raise type_error
contract_kind (obj d) = raise type_error
contract_kind _ = raise validation_error

abbrev pub no_items : Items → Bool
no_items nil = true
no_items (cons v vs) = false

-- the fields of a contract of a kind, which are a list; an exact contract has none and any other some
unfoldable pub contract_body : Bool → Value → Result (List Contracted)
contract_body exact (arr items) = do
  raise_if (exact && not (no_items items)) validation_error
  raise_if (not exact && no_items items) validation_error
  contract_fields [] items
contract_body exact _ = raise validation_error

-- `validate_result_contract`, with what an accepted contract says: whether it is exact, and its fields
unfoldable pub read_contract : Value → Result (Bool × List Contracted)
read_contract (obj d) = do
  require (has_inventory ("schema_version" ∷ "kind" ∷ "fields" ∷ []) d)
  require (is_text result_contract_schema (get "schema_version" d))
  exact ← contract_kind (get "kind" d)
  fields ← contract_body exact (get "fields" d)
  ok (exact, fields)
read_contract _ = raise validation_error

-- `validate_result_contract`
unfoldable pub validate_result_contract : Value → Result (Unit {0})
validate_result_contract value = do _ ← read_contract value; ok tt

-- the value that stands for what was observed
abbrev pub mask : Value
mask = str "<recorded-framework-observation>"

unfoldable pub evidence_of : Library → String → Value → Value
evidence_of lib pointer actual = obj (
    field "json_pointer" (str pointer) (
      field "kind" (str "recorded-framework-observation")
        (field "actual_sha256" (str (lib.sha256_json actual)) end)))

-- `ObservationProjection`
pub record Projection : Type 0 where
  pub value : Value
  pub evidence : List Value
