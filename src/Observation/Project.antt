-- ===== src/Observation/Project.antt =====
-- minireplay/observation.py: `project_result`.
use minireplayer.Prelude.{
  ◌≡◌, refl, Bool, true, false, none, some, List, [], ◌∷◌, Result, ok, raise, validation_error,
  ◌>>=◌, bind-ok,
}
use minireplayer.Json.{Value, Items, arr, nil, cons}
use minireplayer.Observation.{
  Library, Contracted, mask, evidence_of, Projection, read_contract, validate_result_contract,
}
use minireplayer.Observation.Parts.{parts_of}
use minireplayer.Observation.Pointer.{get_pointer, set_pointer}

abbrev pub with_evidence : Value → Result Projection → Result Projection
with_evidence e (raise x) = raise x
with_evidence e (ok p) = ok (record { value = p.value; evidence = e ∷ p.evidence })

-- the loop over the fields of a contract
unfoldable pub project_fields : Library → List Contracted → Value → Result Projection
project_fields lib [] projected = ok (record { value = projected; evidence = [] })
project_fields lib ((pointer, optional) ∷ rest) projected =
    elim (get_pointer lib (parts_of pointer) projected) [
      | none ↦ elim optional [
        | true ↦ project_fields lib rest projected
        | false ↦ raise validation_error
      ]
      | some actual ↦ elim (set_pointer lib (parts_of pointer) mask projected) [
        | none ↦ raise validation_error
        | some changed ↦
            with_evidence (evidence_of lib pointer actual) (project_fields lib rest changed)
      ]
    ]

abbrev pub project_read : Library → Value → Bool × List Contracted → Result Projection
project_read lib value (true, fields) = ok (record { value = value; evidence = [] })
project_read lib value (false, fields) = project_fields lib fields value

-- `project_result`
unfoldable pub project_result : Library → Value → Value → Result Projection
project_result lib value contract = read_contract contract >>= project_read lib value

unfoldable pub items_of : List Value → Items
items_of [] = nil
items_of (v ∷ vs) = cons v (items_of vs)

-- `project_result(...).evidence`, as the ledger uses it
unfoldable pub project_evidence : Library → Value → Value → Result Value
project_evidence lib value contract = do
  p ← project_result lib value contract
  ok (arr (items_of p.evidence))

-- A projection that returns has accepted its contract.
pub project_evidence-accepted :
    (lib : Library) (value contract evidence : Value)
    → project_evidence lib value contract ≡ ok evidence
    → validate_result_contract contract ≡ ok tt
unfolding project_evidence project_result validate_result_contract
project_evidence-accepted lib value contract evidence h =
    let (p, g, e) = bind-ok (project_result lib value contract) _ evidence h in
    let (r, g', e') = bind-ok (read_contract contract) _ p g in rw g' refl
