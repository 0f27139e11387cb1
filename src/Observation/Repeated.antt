-- ===== src/Observation/Repeated.antt =====
-- minireplay/observation.py: what a projection leaves at the contracted pointers, and what a second
-- projection does.
use minireplayer.Prelude.{
  String, ◌≡◌, refl, sym, ap, ◌∙◌, inl, inr, Bool, true, false, none, some, List, [], ◌∷◌,
  Exception, Result, ok, raise, Option-cases, some_inj, ok_injective, In, subst,
}
use minireplayer.Json.{Value}
use minireplayer.Observation.{Library, Contracted, mask, Projection}
use minireplayer.Observation.Parts.{parts_of}
use minireplayer.Observation.Pointer.{get_pointer, set_pointer}
use minireplayer.Observation.Project.{with_evidence, project_fields}
use minireplayer.Observation.Child.{none≢some}
use minireplayer.Observation.Masked.{
  IsMasked, IsMasked-set_pointer, get_pointer-set_pointer, set_pointer_of_get_pointer,
  set_pointer_self,
}

-- What one field of a contract does to a document, when the loop goes on.
data Projected (lib : Library) (f : Contracted) (v : Value) : Value → Type 0 where
  missing : get_pointer lib (parts_of f.0) v ≡ none → Projected lib f v v
  covered :
      (actual v' : Value)
      → get_pointer lib (parts_of f.0) v ≡ some actual
      → set_pointer lib (parts_of f.0) mask v ≡ some v'
      → Projected lib f v v'

with_evidence-ok :
    (e : Value) (m : Result Projection) (p : Projection)
    → with_evidence e m ≡ ok p
    → (q : Projection) × (m ≡ ok q) × (q.value ≡ p.value) × ((e ∷ q.evidence) ≡ p.evidence)
with_evidence-ok e (ok q) p h =
    (q, refl, ap (λ r. r.value) (ok_injective _ _ h), ap (λ r. r.evidence) (ok_injective _ _ h))
with_evidence-ok e (raise x) p h = cc

-- A loop that returns has gone on, from what its first field left, to the same value.
record Next (lib : Library) (f : Contracted) (rest : List Contracted) (v : Value) (p : Projection)
    : Type 0 where
  left : Value
  by_field : Projected lib f v left
  later : Projection
  goes_on : project_fields lib rest left ≡ ok later
  value_eq : later.value ≡ p.value
  unless_evidence : p.evidence ≡ [] → (left ≡ v) × (later.evidence ≡ [])

some_evidence : (e : Value) (es : List Value) (es' : List Value) → (e ∷ es) ≡ es' → es' ≡ [] → ⊥
some_evidence e es es' h g = cc

ok≢raise {ℓ} : {A : Type ℓ} {a : A} {e : Exception} → raise e ≡ ok a → ⊥
ok≢raise h = cc

Next-missing :
    (lib : Library) (pointer : String) (optional : Bool) (rest : List Contracted) (v : Value)
    (p : Projection)
    → get_pointer lib (parts_of pointer) v ≡ none
    → project_fields lib ((pointer, optional) ∷ rest) v ≡ ok p
    → Next lib (pointer, optional) rest v p
unfolding project_fields
Next-missing lib pointer true rest v p n h = record {
  left = v;
  by_field = missing n;
  later = p;
  goes_on = rw (project_fields, n) at h;
  value_eq = refl;
  unless_evidence = λ e. (refl, e);
}
Next-missing lib pointer false rest v p n h = absurd (ok≢raise (rw (project_fields, n) at h))

Next-covered :
    (lib : Library) (pointer : String) (optional : Bool) (rest : List Contracted) (v c : Value)
    (p : Projection)
    → get_pointer lib (parts_of pointer) v ≡ some c
    → project_fields lib ((pointer, optional) ∷ rest) v ≡ ok p
    → Next lib (pointer, optional) rest v p
unfolding project_fields
Next-covered lib pointer optional rest v c p g h =
    let (v', s) = set_pointer_of_get_pointer lib (parts_of pointer) mask v c g in
    let (q, m, r, e) =
      with_evidence-ok _ (project_fields lib rest v') p (rw s at (rw (project_fields, g) at h)) in
    record {
      left = v';
      by_field = covered c v' g s;
      later = q;
      goes_on = m;
      value_eq = r;
      unless_evidence = λ z. absurd (some_evidence _ q.evidence p.evidence e z);
    }

project_fields-Next :
    (lib : Library) (f : Contracted) (rest : List Contracted) (v : Value) (p : Projection)
    → project_fields lib (f ∷ rest) v ≡ ok p
    → Next lib f rest v p
project_fields-Next lib (pointer, optional) rest v p h =
    elim (Option-cases (get_pointer lib (parts_of pointer) v)) [
      | inl n ↦ Next-missing lib pointer optional rest v p n h
      | inr (c, g) ↦ Next-covered lib pointer optional rest v c p g h
    ]

IsMasked-Projected :
    (lib : Library) (parts : List String) (f : Contracted) (v v' : Value)
    → Projected lib f v v'
    → IsMasked lib parts v
    → IsMasked lib parts v'
IsMasked-Projected lib parts f v _ (missing n) h = h
IsMasked-Projected lib parts f v v' (covered c _ g s) h =
    IsMasked-set_pointer lib parts (parts_of f.0) v v' h s

IsMasked-of_Projected :
    (lib : Library) (f : Contracted) (v v' : Value)
    → Projected lib f v v'
    → IsMasked lib (parts_of f.0) v'
IsMasked-of_Projected lib f v _ (missing n) = inl n
IsMasked-of_Projected lib f v v' (covered c _ g s) =
    inr (get_pointer-set_pointer lib (parts_of f.0) mask v v' s)

IsMasked-project_fields :
    (lib : Library) (parts : List String) (fs : List Contracted) (v : Value) (p : Projection)
    → project_fields lib fs v ≡ ok p
    → IsMasked lib parts v
    → IsMasked lib parts p.value
unfolding project_fields
IsMasked-project_fields lib parts [] v p h m =
    subst (IsMasked lib parts) (ap (λ r. r.value) (ok_injective _ _ h)) m
IsMasked-project_fields lib parts (f ∷ rest) v p h m =
    let n = project_fields-Next lib f rest v p h in
    subst (IsMasked lib parts) n.value_eq (
      IsMasked-project_fields lib parts rest n.left n.later n.goes_on
        (IsMasked-Projected lib parts f v n.left n.by_field m))

pub project_fields-IsMasked :
    (lib : Library) (fs : List Contracted) (v : Value) (p : Projection)
    → project_fields lib fs v ≡ ok p
    → (f : Contracted) → In f fs
    → IsMasked lib (parts_of f.0) p.value
project_fields-IsMasked lib [] v p h g m = absurd m
project_fields-IsMasked lib (f ∷ rest) v p h g m =
    let n = project_fields-Next lib f rest v p h in
    elim m [
      | inl e ↦ subst (IsMasked lib (parts_of g.0)) n.value_eq (
          IsMasked-project_fields lib (parts_of g.0) rest n.left n.later n.goes_on (
            subst (λ k. IsMasked lib (parts_of k.0) n.left) (sym e)
              (IsMasked-of_Projected lib f v n.left n.by_field)))
      | inr m' ↦
          subst (IsMasked lib (parts_of g.0)) n.value_eq
            (project_fields-IsMasked lib rest n.left n.later n.goes_on g m')
    ]

-- A field whose pointer reads the mask or nothing leaves the document as it is.
Projected-self :
    (lib : Library) (f : Contracted) (v v' : Value)
    → Projected lib f v v'
    → IsMasked lib (parts_of f.0) v
    → v' ≡ v
Projected-self lib f v _ (missing n) m = refl
Projected-self lib f v v' (covered c _ g s) (inl n) = absurd (none≢some (sym n ∙ g))
Projected-self lib f v v' (covered c _ g s) (inr m) =
    some_inj (sym s ∙ set_pointer_self lib (parts_of f.0) v mask m)

pub project_fields-masked :
    (lib : Library) (fs : List Contracted) (v : Value) (p : Projection)
    → ((f : Contracted) → In f fs → IsMasked lib (parts_of f.0) v)
    → project_fields lib fs v ≡ ok p
    → p.value ≡ v
unfolding project_fields
project_fields-masked lib [] v p k h = sym (ap (λ r. r.value) (ok_injective _ _ h))
project_fields-masked lib (f ∷ rest) v p k h =
    let n = project_fields-Next lib f rest v p h in
    let e = Projected-self lib f v n.left n.by_field (k f (inl refl)) in
    sym n.value_eq
    ∙ project_fields-masked lib rest n.left n.later
        (λ g m. subst (IsMasked lib (parts_of g.0)) (sym e) (k g (inr m))) n.goes_on
    ∙ e

pub no_evidence :
    (lib : Library) (fs : List Contracted) (v : Value) (p : Projection)
    → project_fields lib fs v ≡ ok p
    → p.evidence ≡ []
    → p.value ≡ v
unfolding project_fields
no_evidence lib [] v p h e = sym (ap (λ r. r.value) (ok_injective _ _ h))
no_evidence lib (f ∷ rest) v p h e =
    let n = project_fields-Next lib f rest v p h in
    let (same, none_later) = n.unless_evidence e in
    sym n.value_eq ∙ no_evidence lib rest n.left n.later n.goes_on none_later ∙ same
