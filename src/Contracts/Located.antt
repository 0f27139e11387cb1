-- ===== src/Contracts/Located.antt =====
-- minireplayer/contracts.py: what binding does at each place of a JSON value.
use mathlib.Core.Option
use minireplayer.Prelude.{
  zero, suc, String, ◌≡◌, refl, sym, ap, ◌∙◌, Bool, true, false, Option, none, some, List, [], ◌∷◌,
  string_eq, Bool-cases, ℕ, inl, inr, Dict, if◌then◌else◌, ◌==◌,
}
use minireplayer.Json.{
  Value, Items, Fields, null, bool, int, negative, float, str, arr, obj, nil, cons, end, field,
}
use minireplayer.Contracts.{
  visit, visit_items, visit_fields, declared_field, Adapter, typed_path_fields,
  bind_deployment_path, bind_typed_fields,
}

-- a step into a JSON value: to the first field of that name, or to an item
pub data Place : Type 0 where
  under : String → Place
  entry : ℕ → Place

abbrev find : String → Fields → Option Value
find k end = none
find k (field j v rest) = if k == j then some v else find k rest

abbrev nth : ℕ → Items → Option Value
nth n nil = none
nth zero (cons x xs) = some x
nth (suc n) (cons x xs) = nth n xs

abbrev step : Place → Value → Option Value
step (under k) (obj d) = find k d
step (entry n) (arr xs) = nth n xs
step _ _ = none

-- what stands at a place of a value
abbrev pub at : List Place → Value → Option Value
at [] v = some v
at (p ∷ ps) v = elim (step p v) [ none ↦ none | some w ↦ at ps w ]

abbrev name_of : Option String → Place → Option String
name_of f (under k) = some k
name_of f (entry n) = f

-- the field that a place belongs to: the items of a list belong to the field of the list
abbrev pub name_at : Option String → List Place → Option String
name_at f [] = f
name_at f (p ∷ ps) = name_at (name_of f p) ps

-- what stands at a place, without the fields and items that it holds
abbrev pub outline : Option Value → Option Value
outline none = none
outline (some (arr xs)) = some (arr nil)
outline (some (obj d)) = some (obj end)
outline (some v) = some v

-- a text that belongs to a path field is bound, all else is as it was
abbrev pub bound : List String → (String → String) → Option String → Option Value → Option Value
bound declared g f (some (str s)) = some (str (if declared_field declared f then g s else s))
bound declared g f o = o

module _ (declared : List String) (g : String → String) where
  find-visit :
      (k : String) (d : Fields)
      → find k (visit_fields declared g d) ≡ Option.map (visit declared g (some k)) (find k d)
  unfolding visit
  find-visit k end = refl
  find-visit k (field j v rest) = elim (Bool-cases (k == j)) [
    | inl y ↦
        rw y (ap (λ x. some (visit declared g (some x) v)) (sym ((string_eq.beq_iff k j).0 y)))
    | inr n ↦ rw n (find-visit k rest)
  ]

  nth-visit :
      (f : Option String) (n : ℕ) (xs : Items)
      → nth n (visit_items declared g f xs) ≡ Option.map (visit declared g f) (nth n xs)
  unfolding visit
  nth-visit f n nil = refl
  nth-visit f zero (cons x xs) = refl
  nth-visit f (suc n) (cons x xs) = nth-visit f n xs

  text_if : (b : Bool) (s : String) → (if b then str (g s) else str s) ≡ str (if b then g s else s)
  text_if true s = refl
  text_if false s = refl

  step-visit :
      (f : Option String) (p : Place) (v : Value)
      → step p (visit declared g f v) ≡ Option.map (visit declared g (name_of f p)) (step p v)
  unfolding visit
  step-visit f (under k) (obj d) = find-visit k d
  step-visit f (entry n) (arr xs) = nth-visit f n xs
  step-visit f (under k) (arr xs) = refl
  step-visit f (entry n) (obj d) = refl
  step-visit f (under k) null = refl
  step-visit f (under k) (bool b) = refl
  step-visit f (under k) (int n) = refl
  step-visit f (under k) (negative n) = refl
  step-visit f (under k) (float s) = refl
  step-visit f (under k) (str s) = ap (step (under k)) (text_if (declared_field declared f) s)
  step-visit f (entry m) null = refl
  step-visit f (entry m) (bool b) = refl
  step-visit f (entry m) (int n) = refl
  step-visit f (entry m) (negative n) = refl
  step-visit f (entry m) (float s) = refl
  step-visit f (entry m) (str s) = ap (step (entry m)) (text_if (declared_field declared f) s)

  onward :
      (f : Option String) (ps : List Place)
      → ((w : Value)
          → at ps (visit declared g f w) ≡ Option.map (visit declared g (name_at f ps)) (at ps w))
      → (o : Option Value)
      → elim (Option.map (visit declared g f) o) as (λ _. Option Value) [
        | none ↦ none
        | some w ↦ at ps w
      ]
        ≡ Option.map
            (visit declared g (name_at f ps))
            (elim o as (λ _. Option Value) [ none ↦ none | some w ↦ at ps w ])
  onward f ps h none = refl
  onward f ps h (some w) = h w

  at-visit :
      (f : Option String) (ps : List Place) (v : Value)
      → at ps (visit declared g f v) ≡ Option.map (visit declared g (name_at f ps)) (at ps v)
  at-visit f [] v = refl
  at-visit f (p ∷ ps) v =
      ap (λ o. elim o as (λ _. Option Value) [ none ↦ none | some w ↦ at ps w ]) (step-visit f p v)
      ∙ onward (name_of f p) ps (λ w. at-visit (name_of f p) ps w) (step p v)

  outline-visit :
      (f : Option String) (o : Option Value)
      → outline (Option.map (visit declared g f) o) ≡ bound declared g f (outline o)
  unfolding visit
  outline-visit f none = refl
  outline-visit f (some null) = refl
  outline-visit f (some (bool b)) = refl
  outline-visit f (some (int n)) = refl
  outline-visit f (some (negative n)) = refl
  outline-visit f (some (float s)) = refl
  outline-visit f (some (str s)) =
      ap (λ v. outline (some v)) (text_if (declared_field declared f) s)
  outline-visit f (some (arr xs)) = refl
  outline-visit f (some (obj d)) = refl

-- At every place of a JSON value, at any depth: binding leaves a list where a list was and an object
-- where an object was, binds a text there if the field that it belongs to, directly or as an item of
-- lists, is a path field of the adapter, leaves every other value as it is, and adds nothing.
pub bind_typed_fields-at :
    (adapter : Adapter) (value : Value) (path_map : Dict String String) (ps : List Place)
    → outline (at ps (bind_typed_fields adapter value path_map))
      ≡ bound
          (typed_path_fields adapter)
          (λ s. bind_deployment_path s path_map)
          (name_at none ps)
          (outline (at ps value))
unfolding bind_typed_fields
bind_typed_fields-at adapter value path_map ps =
    let g : String → String = λ s. bind_deployment_path s path_map in
    let declared = typed_path_fields adapter in
    ap outline (at-visit declared g none ps value)
    ∙ outline-visit declared g (name_at none ps) (at ps value)
