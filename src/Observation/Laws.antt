-- ===== src/Observation/Laws.antt =====
-- minireplay/observation.py: what a projection promises of a value and a contract.
use minireplayer.Prelude.{
  String, ◌≡◌, refl, sym, ap, ◌∙◌, inl, inr, true, false, some, List, [], ◌∷◌, Result, ok,
  Option-cases, All, In, elem, all,
}
use minireplayer.Json.{Value, obj, has, get, is_text}
use minireplayer.Json.Text.{starts_with}
use minireplayer.Observation.{
  Library, Contracted, mask, evidence_of, Projection, read_contract,
  recorded_output_result_contract, contract_kind, contract_body, contract_fields, contract_field,
  has_inventory, keys_in,
}
use minireplayer.Observation.Parts.{parts_of}
use minireplayer.Observation.Pointer.{get_pointer, set_pointer}
use minireplayer.Observation.Project.{with_evidence, project_fields, project_result}
use minireplayer.Observation.Masked.{
  IsMasked, get_pointer-set_pointer, get_pointer_of_set_pointer, set_pointer_of_get_pointer,
  set_pointer-set_pointer,
}
use minireplayer.Observation.Repeated.{project_fields-IsMasked, project_fields-masked, no_evidence}

project_read_of :
    (lib : Library) (value contract : Value) (fields : List Contracted)
    → read_contract contract ≡ ok (false, fields)
    → project_result lib value contract ≡ project_fields lib fields value
unfolding project_result
project_read_of lib value contract fields h = rw h refl

-- For a contract that is accepted and not exact, in a projection that returns every contracted
-- pointer reads the mask or nothing, a second projection that returns leaves the projected value
-- as it is, and a projection without evidence is the value itself.
pub project_result-project_result :
    (lib : Library) (value contract : Value) (fields : List Contracted) (p : Projection)
    → read_contract contract ≡ ok (false, fields)
    → project_result lib value contract ≡ ok p
    → ((f : Contracted) → In f fields → IsMasked lib (parts_of f.0) p.value)
      × ((q : Projection) → project_result lib p.value contract ≡ ok q → q.value ≡ p.value)
      × (p.evidence ≡ [] → p.value ≡ value)
project_result-project_result lib value contract fields p h g =
    let run = sym (project_read_of lib value contract fields h) ∙ g in
    let masked = project_fields-IsMasked lib fields value p run in
    (
      masked,
      λ q k.
          project_fields-masked lib fields p.value q masked
            (sym (project_read_of lib p.value contract fields h) ∙ k),
      no_evidence lib fields value p run,
    )

abbrev IsOptional : Contracted → Type 0
IsOptional f = f.1 ≡ true

abbrev pub Returns {ℓ} : {A : Type ℓ} → Result A → Type ℓ
Returns {A = A} m = (a : A) × (m ≡ ok a)

with_evidence-Returns :
    (e : Value) (m : Result Projection) → Returns m → Returns (with_evidence e m)
with_evidence-Returns e m (p, h) =
    (record { value = p.value; evidence = e ∷ p.evidence }, ap (with_evidence e) h)

-- The loop over fields that are all optional returns, whatever the document is.
project_fields-Returns :
    (lib : Library) (fs : List Contracted) (v : Value)
    → All IsOptional fs
    → Returns (project_fields lib fs v)
unfolding project_fields
project_fields-Returns lib [] v o = (_, refl)
project_fields-Returns lib ((pointer, optional) ∷ rest) v (e, o) =
    elim (Option-cases (get_pointer lib (parts_of pointer) v)) [
      | inl n ↦ rw (project_fields, n, e) (project_fields-Returns lib rest v o)
      | inr (c, g) ↦
          let (v', s) = set_pointer_of_get_pointer lib (parts_of pointer) mask v c g in
          rw (project_fields, g, s)
            (with_evidence-Returns _ _ (project_fields-Returns lib rest v' o))
    ]

recorded_output-read :
    (pointer : String)
    → starts_with "/" pointer ≡ true
    → read_contract (obj (recorded_output_result_contract pointer))
      ≡ ok (false, (pointer, true) ∷ [])
unfolding recorded_output_result_contract read_contract has_inventory keys_in elem all has is_text
    get contract_kind contract_body contract_fields contract_field
recorded_output-read pointer h = rw h refl

-- the projection of a document under one optional field that is there
covered_alone :
    (lib : Library) (pointer : String) (v c v' : Value)
    → get_pointer lib (parts_of pointer) v ≡ some c
    → set_pointer lib (parts_of pointer) mask v ≡ some v'
    → project_fields lib ((pointer, true) ∷ []) v
      ≡ ok (record { value = v'; evidence = evidence_of lib pointer c ∷ [] })
unfolding project_fields
covered_alone lib pointer v c v' g s = rw (project_fields, g, s) refl

-- Under the contract of a recorded output at a pointer that starts with a slash, the projection
-- of every value returns; and for two values, of which the second is the first with another value
-- written at the pointer, the projected values are the same, whatever the evidence says of them.
pub project_result-recorded_output :
    (lib : Library) (pointer : String) (value : Value)
    → starts_with "/" pointer ≡ true
    → let contract = obj (recorded_output_result_contract pointer) in
      Returns (project_result lib value contract)
      × ((w other : Value)
          → set_pointer lib (parts_of pointer) w value ≡ some other
          → (p q : Projection) × (project_result lib value contract ≡ ok p)
            × (project_result lib other contract ≡ ok q)
            × (p.value ≡ q.value))
project_result-recorded_output lib pointer value h =
    let contract = obj (recorded_output_result_contract pointer) in
    let accepted = recorded_output-read pointer h in
    let run : (v : Value)
        → project_result lib v contract ≡ project_fields lib ((pointer, true) ∷ []) v =
      λ v. project_read_of lib v contract ((pointer, true) ∷ []) accepted in
    let parts = parts_of pointer in
    (
      rw (run value) (project_fields-Returns lib ((pointer, true) ∷ []) value (refl, tt)),
      λ w other s.
          let (c, g) = get_pointer_of_set_pointer lib parts w value other s in
          let (u, m) = set_pointer_of_get_pointer lib parts mask value c g in
          (
            _,
            _,
            run value ∙ covered_alone lib pointer value c u g m,
            run other
                ∙ covered_alone lib pointer other w u
                    (get_pointer-set_pointer lib parts w value other s)
                    (set_pointer-set_pointer lib parts mask w value other s ∙ m),
            refl,
          ),
    )
