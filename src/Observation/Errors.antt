-- ===== src/Observation/Errors.antt =====
-- minireplayer/observation.py: which exceptions a contract and a projection raise.
use minireplayer.Prelude.{
  String, ◌≡◌, inl, inr, Bool, true, false, not, ◌&&◌, List, [], ◌∷◌, Exception, Result, ok, raise,
  validation_error, ◌>>=◌, require, raise_if, elem, ◌==◌, string_eq, Bool-cases, Option-cases,
}
use minireplayer.Json.{Value, Items, obj, arr, str, bool, nil, cons, get, is_text}
use minireplayer.Json.Text.{starts_with}
use minireplayer.Observation.{
  Library, Contracted, mask, Projection, read_contract, contract_kind, contract_body,
  contract_fields, contract_field, contracted, has_inventory, no_items, result_contract_schema,
}
use minireplayer.Observation.Parts.{parts_of}
use minireplayer.Observation.Pointer.{get_pointer, set_pointer}
use minireplayer.Observation.Project.{with_evidence, project_fields, project_read, project_result}

-- A run raises a validation error or nothing.
abbrev OnlyValidation {ℓ} : {A : Type ℓ} → Result A → Type ℓ
OnlyValidation m = (e : Exception) → m ≡ raise e → e ≡ validation_error

ok_only {ℓ} : {A : Type ℓ} (a : A) → OnlyValidation (ok a)
ok_only a e h = cc

raise_only {ℓ} : (A : Type ℓ) → OnlyValidation {A = A} (raise validation_error)
raise_only A e h = cc

bind_only {ℓ κ} :
    {A : Type ℓ} {B : Type κ} (m : Result A) (f : A → Result B)
    → OnlyValidation m
    → ((a : A) → OnlyValidation (f a))
    → OnlyValidation (m >>= f)
bind_only (ok a) f h k e g = k a e g
bind_only (raise x) f h k e g = h e (cc)

require_only : (b : Bool) → OnlyValidation (require b)
require_only true = ok_only tt
require_only false = raise_only _

raise_if_only : (b : Bool) → OnlyValidation (raise_if b validation_error)
raise_if_only true = raise_only _
raise_if_only false = ok_only tt

contracted_only : (seen : List String) (v w : Value) → OnlyValidation (contracted seen v w)
contracted_only seen (str pointer) (bool optional) =
    bind_only (require (starts_with "/" pointer && not (elem pointer seen))) _ (require_only _)
      (λ u. ok_only (pointer, optional))
contracted_only seen (str pointer) _ = raise_only _
contracted_only seen _ w = raise_only _

contract_field_only : (seen : List String) (v : Value) → OnlyValidation (contract_field seen v)
unfolding contract_field
contract_field_only seen (obj d) =
    bind_only (require (has_inventory ("json_pointer" ∷ "optional" ∷ []) d)) _ (require_only _)
      (λ u. contracted_only seen (get "json_pointer" d) (get "optional" d))
contract_field_only seen _ = raise_only _

contract_fields_only : (seen : List String) (vs : Items) → OnlyValidation (contract_fields seen vs)
unfolding contract_fields
contract_fields_only seen nil = ok_only []
contract_fields_only seen (cons v vs) =
    bind_only (contract_field seen v) _ (contract_field_only seen v) (λ f.
      bind_only (contract_fields (f.0 ∷ seen) vs) _ (contract_fields_only (f.0 ∷ seen) vs)
        (λ rest. ok_only (f ∷ rest)))

contract_body_only : (exact : Bool) (v : Value) → OnlyValidation (contract_body exact v)
unfolding contract_body
contract_body_only exact (arr items) =
    bind_only (raise_if (exact && not (no_items items)) validation_error) _ (raise_if_only _) (λ u.
      bind_only (raise_if (not exact && no_items items) validation_error) _ (raise_if_only _)
        (λ w. contract_fields_only [] items))
contract_body_only exact _ = raise_only _

-- `{"exact"}` can be asked for the value.
abbrev pub IsHashable : Value → Type 0
IsHashable (arr xs) = ⊥
IsHashable (obj d) = ⊥
IsHashable _ = Unit

contract_kind_only : (v : Value) → IsHashable v → OnlyValidation (contract_kind v)
unfolding contract_kind
contract_kind_only (str s) h = elim (Bool-cases (s == "exact")) [
  | inl y ↦ rw y (ok_only true)
  | inr n ↦ elim (Bool-cases (s == "recorded-observation")) [
    | inl y ↦ rw (n, y) (ok_only false)
    | inr m ↦ rw (n, m) (raise_only _)
  ]
]
contract_kind_only (arr xs) h = absurd h
contract_kind_only (obj d) h = absurd h
contract_kind_only _ h = raise_only _

abbrev pub HasHashableKind : Value → Type 0
HasHashableKind (obj d) = IsHashable (get "kind" d)
HasHashableKind _ = Unit

read_contract_only : (v : Value) → HasHashableKind v → OnlyValidation (read_contract v)
unfolding read_contract
read_contract_only (obj d) h =
    bind_only (require (has_inventory ("schema_version" ∷ "kind" ∷ "fields" ∷ []) d)) _
      (require_only _)
      (λ u.
        bind_only (require (is_text result_contract_schema (get "schema_version" d))) _
          (require_only _)
          (λ w.
            bind_only (contract_kind (get "kind" d)) _ (contract_kind_only (get "kind" d) h)
              (λ exact.
                bind_only (contract_body exact (get "fields" d)) _
                  (contract_body_only exact (get "fields" d)) (λ fields. ok_only (exact, fields)))))
read_contract_only _ h = raise_only _

with_evidence_only :
    (e : Value) (m : Result Projection) → OnlyValidation m → OnlyValidation (with_evidence e m)
with_evidence_only e (ok p) h e' g = ok_only _ e' g
with_evidence_only e (raise x) h e' g = h e' cc

project_fields_only :
    (lib : Library) (fs : List Contracted) (v : Value) → OnlyValidation (project_fields lib fs v)
unfolding project_fields
project_fields_only lib [] v = ok_only _
project_fields_only lib ((pointer, optional) ∷ rest) v =
    elim (Option-cases (get_pointer lib (parts_of pointer) v)) [
      | inl n ↦ elim (Bool-cases optional) [
        | inl y ↦ rw (project_fields, n, y) (project_fields_only lib rest v)
        | inr o ↦ rw (project_fields, n, o) (raise_only _)
      ]
      | inr (c, g) ↦ elim (Option-cases (set_pointer lib (parts_of pointer) mask v)) [
        | inl n ↦ rw (project_fields, g, n) (raise_only _)
        | inr (v', s) ↦
            rw (project_fields, g, s)
              (with_evidence_only _ (project_fields lib rest v') (project_fields_only lib rest v'))
      ]
    ]

project_read_only :
    (lib : Library) (v : Value) (r : Bool × List Contracted) → OnlyValidation (project_read lib v r)
project_read_only lib v (true, fields) = ok_only _
project_read_only lib v (false, fields) = project_fields_only lib fields v

-- A projection raises only validation errors, for every value and every contract, accepted or
-- not, whose kind is neither a list nor an object.
pub project_result-OnlyValidation :
    (lib : Library) (value contract : Value) (e : Exception)
    → HasHashableKind contract
    → project_result lib value contract ≡ raise e
    → e ≡ validation_error
unfolding project_result
project_result-OnlyValidation lib value contract e h =
    bind_only (read_contract contract) (project_read lib value) (read_contract_only contract h)
      (project_read_only lib value) e
