-- ===== src/Observation/Tests.antt =====
-- Runs of the projection on concrete results.
use minireplayer.Prelude.{
  String, ◌≡◌, refl, true, false, Option, none, some, [], ◌∷◌, ok, raise, In, validation_error,
  type_error, elem, all, if◌then◌else◌, ◌==◌, string_eq,
}
use minireplayer.Json.{
  Value, obj, arr, str, int, bool, end, field, nil, cons, has, get, put, is_text,
}
use minireplayer.Json.Text.{starts_with, after_prefix, replace, replace_from}
use minireplayer.Observation.Masked.{IsMasked}
use minireplayer.Observation.Laws.{
  Returns, project_result-project_result, project_result-recorded_output,
}
use minireplayer.Observation.Errors.{project_result-OnlyValidation}
use minireplayer.Observation.{
  Contracted, Index, front, back, Library, mask, Projection, evidence_of, read_contract,
  validate_result_contract, result_contract_schema, recorded_output_result_contract,
  exact_result_contract, has_inventory, keys_in, contract_kind, contract_body, contract_fields,
  contract_field,
}
use minireplayer.Observation.Parts.{parts_of, pointer_part, split_slash}
use minireplayer.Observation.Pointer.{
  get_pointer, pointer_parent, set_pointer, child, with_child, item_at, put_at, place_in, place_of,
  size,
}
use minireplayer.Observation.Project.{project_result, project_fields}

abbrev int_of : String → Option Index
int_of s =
    if s == "0"
    then some (front 0)
    else if s == "1"
    then some (front 1)
    else if s == "-1"
    then some (back 0)
    else none

abbrev lib : Library
lib = record { int_of = int_of; sha256_json = λ v. "sha" }

abbrev one_field : String → Value → Value
one_field k v = obj (field k v end)

abbrev result : Value
result = obj (
    field "output" (str "seen")
      (field "rows" (arr (cons (int 1) (cons (one_field "a/b" (int 2)) nil))) end))

abbrev contract_of : Value → Value → Value
contract_of kind fields = obj (
    field "schema_version" (str result_contract_schema)
      (field "kind" kind (field "fields" fields end)))

abbrev last_row : Value
last_row = obj (field "json_pointer" (str "/rows/-1/a~1b") (field "optional" (bool false) end))

abbrev rows_contract : Value
rows_contract = contract_of (str "recorded-observation") (arr (cons last_row nil))

parts_escaped : parts_of "/rows/-1/a~1b" ≡ "rows" ∷ "-1" ∷ "a/b" ∷ []
unfolding parts_of pointer_part split_slash replace replace_from starts_with after_prefix
parts_escaped = refl

abbrev rows_projected : Projection
rows_projected = record {
  value = obj (
      field "output" (str "seen")
        (field "rows" (arr (cons (int 1) (cons (one_field "a/b" mask) nil))) end));
  evidence = evidence_of lib "/rows/-1/a~1b" (int 2) ∷ [];
}

last_row_masked : project_result lib result rows_contract ≡ ok rows_projected
unfolding project_result read_contract has_inventory keys_in elem all has is_text get contract_kind
    contract_body contract_fields contract_field starts_with after_prefix project_fields get_pointer
    pointer_parent parts_of pointer_part split_slash replace replace_from put child item_at place_in
    place_of put_at set_pointer size with_child evidence_of
last_row_masked = refl

missing_raises : project_result lib (arr nil) rows_contract ≡ raise validation_error
unfolding project_result read_contract has_inventory keys_in elem all has is_text get contract_kind
    contract_body contract_fields contract_field starts_with after_prefix project_fields get_pointer
    pointer_parent parts_of pointer_part split_slash replace replace_from put child item_at place_in
    place_of put_at set_pointer size with_child evidence_of
missing_raises = refl

unhashable_kind : validate_result_contract (contract_of (arr nil) (arr nil)) ≡ raise type_error
unfolding validate_result_contract read_contract has_inventory keys_in elem all has is_text get
    contract_kind contract_body contract_fields contract_field starts_with after_prefix
unhashable_kind = refl

exact_accepted : read_contract (obj exact_result_contract) ≡ ok (true, [])
unfolding read_contract has_inventory keys_in elem all has is_text get contract_kind contract_body
    contract_fields contract_field starts_with after_prefix exact_result_contract
exact_accepted = refl

rows_accepted : read_contract rows_contract ≡ ok (false, ("/rows/-1/a~1b", false) ∷ [])
unfolding read_contract has_inventory keys_in elem all has is_text get contract_kind contract_body
    contract_fields contract_field starts_with after_prefix
rows_accepted = refl

project_result-project_result_example :
    ((f : Contracted)
      → In f (("/rows/-1/a~1b", false) ∷ [])
      → IsMasked lib (parts_of f.0) rows_projected.value)
    × ((q : Projection)
        → project_result lib rows_projected.value rows_contract ≡ ok q
        → q.value ≡ rows_projected.value)
    × (rows_projected.evidence ≡ [] → rows_projected.value ≡ result)
project_result-project_result_example =
    project_result-project_result lib result rows_contract (("/rows/-1/a~1b", false) ∷ [])
      rows_projected rows_accepted last_row_masked

output_slash : starts_with "/" "/output" ≡ true
unfolding starts_with after_prefix
output_slash = refl

project_result-recorded_output_example :
    Returns (project_result lib result (obj (recorded_output_result_contract "/output")))
    × ((w other : Value)
        → set_pointer lib (parts_of "/output") w result ≡ some other
        → (p q : Projection) × (project_result lib result
              (obj (recorded_output_result_contract "/output"))
            ≡ ok p)
          × (project_result lib other (obj (recorded_output_result_contract "/output")) ≡ ok q)
          × (p.value ≡ q.value))
project_result-recorded_output_example =
    project_result-recorded_output lib "/output" result output_slash

project_result-OnlyValidation_example : validation_error ≡ validation_error
unfolding get
project_result-OnlyValidation_example =
    project_result-OnlyValidation lib (arr nil) rows_contract validation_error tt missing_raises
