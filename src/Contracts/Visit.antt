-- ===== src/Contracts/Visit.antt =====
-- Binding goes through a JSON value: what is not text under a declared field is left alone.
use minireplayer.Prelude.{
  String, ◌≡◌, refl, ap, ap₂, true, Option, none, some, List, string_eq, Bool-cases, inl, inr, Dict,
}
use minireplayer.Json.{
  Value, Items, Fields, null, bool, int, negative, float, str, arr, obj, nil, cons, end, field,
}
use minireplayer.Contracts.{
  visit, visit_items, visit_fields, declared_field, Adapter, typed_path_fields,
  bind_deployment_path, bind_typed_fields,
}

-- every text under a declared field satisfies `P`
abbrev mutual
  pub AllTexts : List String → (String → Type 0) → Option String → Value → Type 0
  AllTexts declared P f (str s) = declared_field declared f ≡ true → P s
  AllTexts declared P f (arr xs) = AllItems declared P f xs
  AllTexts declared P f (obj d) = AllFields declared P d
  AllTexts declared P f null = Unit
  AllTexts declared P f (bool b) = Unit
  AllTexts declared P f (int n) = Unit
  AllTexts declared P f (negative n) = Unit
  AllTexts declared P f (float s) = Unit

  pub AllItems : List String → (String → Type 0) → Option String → Items → Type 0
  AllItems declared P f nil = Unit
  AllItems declared P f (cons x xs) = AllTexts declared P f x × AllItems declared P f xs

  pub AllFields : List String → (String → Type 0) → Fields → Type 0
  AllFields declared P end = Unit
  AllFields declared P (field k v rest) = AllTexts declared P (some k) v × AllFields declared P rest

visit_text :
    (declared : List String) (g h : String → String) (f : Option String) (s : String)
    → (declared_field declared f ≡ true → h (g s) ≡ s)
    → visit declared h f (visit declared g f (str s)) ≡ str s
unfolding visit
visit_text declared g h f s back = elim (Bool-cases (declared_field declared f)) [
  | inl y ↦ rw (y, y) (ap str (back y))
  | inr n ↦ rw (n, n) refl
]

mutual
  unfolding visit

  visit_back :
      (declared : List String) (g h : String → String) (f : Option String) (v : Value)
      → AllTexts declared (λ s. h (g s) ≡ s) f v
      → visit declared h f (visit declared g f v) ≡ v
  visit_back declared g h f null a = refl
  visit_back declared g h f (bool b) a = refl
  visit_back declared g h f (int n) a = refl
  visit_back declared g h f (negative n) a = refl
  visit_back declared g h f (float s) a = refl
  visit_back declared g h f (str s) a = visit_text declared g h f s a
  visit_back declared g h f (arr xs) a = ap arr (visit_items_back declared g h f xs a)
  visit_back declared g h f (obj d) a = ap obj (visit_fields_back declared g h d a)

  visit_items_back :
      (declared : List String) (g h : String → String) (f : Option String) (xs : Items)
      → AllItems declared (λ s. h (g s) ≡ s) f xs
      → visit_items declared h f (visit_items declared g f xs) ≡ xs
  visit_items_back declared g h f nil a = refl
  visit_items_back declared g h f (cons x xs) a =
      ap₂ cons (visit_back declared g h f x a.0) (visit_items_back declared g h f xs a.1)

  visit_fields_back :
      (declared : List String) (g h : String → String) (d : Fields)
      → AllFields declared (λ s. h (g s) ≡ s) d
      → visit_fields declared h (visit_fields declared g d) ≡ d
  visit_fields_back declared g h end a = refl
  visit_fields_back declared g h (field k v rest) a =
      ap₂ (field k) (visit_back declared g h (some k) v a.0)
        (visit_fields_back declared g h rest a.1)

-- If the second mapping takes back what the first one does to each text under a path field of the
-- adapter, then binding a JSON value by the one and then by the other gives the value back.
pub bind_typed_fields-bind :
    (adapter : Adapter) (value : Value) (there back : Dict String String)
    → AllTexts
        (typed_path_fields adapter)
        (λ s. bind_deployment_path (bind_deployment_path s there) back ≡ s)
        none
        value
    → bind_typed_fields adapter (bind_typed_fields adapter value there) back ≡ value
unfolding bind_typed_fields
bind_typed_fields-bind adapter value there back h =
    visit_back (typed_path_fields adapter) (λ s. bind_deployment_path s there)
      (λ s. bind_deployment_path s back) none value h
