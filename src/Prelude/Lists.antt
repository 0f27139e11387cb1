-- ===== src/Prelude/Lists.antt =====
-- Lists over native numbers, and the filters and quantifiers that Python's comprehensions use.
use Prim.Native.Nat.{ℕ, zero, suc, ◌+◌, ◌≤◌}
use mathlib.Core.Path.{◌≡◌, refl, sym, ap, ◌∙◌}
use mathlib.Core.Bool.{Bool, true, false, ◌&&◌, ◌||◌}
use mathlib.Core.List.{List, [], ◌∷◌, ◌++◌, map}
use mathlib.Core.Logic.{◌⊎◌, inl, inr}
use mathlib.Core.Option.{Option, none, some}
use native.Mathlib.Omega.{arith}
use minireplayer.Prelude.Tests.{if◌then◌else◌, Bool-cases, and_iff}
use minireplayer.Prelude.Equality.{Eq}

module _ {ℓ} {A : Type ℓ} where
  abbrev pub length : List A → ℕ
  length [] = 0
  length (x ∷ xs) = suc (length xs)

  abbrev pub get_elem? : List A → ℕ → Option A
  get_elem? [] i = none
  get_elem? (x ∷ xs) zero = some x
  get_elem? (x ∷ xs) (suc i) = get_elem? xs i

  abbrev pub take : ℕ → List A → List A
  take zero xs = []
  take (suc n) [] = []
  take (suc n) (x ∷ xs) = x ∷ take n xs

  abbrev pub drop : ℕ → List A → List A
  drop zero xs = xs
  drop (suc n) [] = []
  drop (suc n) (x ∷ xs) = drop n xs

  -- `[x for x in xs if p(x)]`
  unfoldable pub keep : (A → Bool) → List A → List A
  keep p [] = []
  keep p (x ∷ xs) = let rest = keep p xs in if p x then x ∷ rest else rest

  -- `all(p(x) for x in xs)` and `any(p(x) for x in xs)`
  unfoldable pub all : (A → Bool) → List A → Bool
  all p [] = true
  all p (x ∷ xs) = p x && all p xs

  unfoldable pub any : (A → Bool) → List A → Bool
  any p [] = false
  any p (x ∷ xs) = p x || any p xs

  pub length-append : (xs ys : List A) → length (xs ++ ys) ≡ length xs + length ys
  length-append [] ys = omega arith
  length-append (x ∷ xs) ys = omega (arith, length-append xs ys)

-- A predicate by recursion computes to tuples, which the tactics read and build.
abbrev pub All {ℓ κ} : {A : Type ℓ} → (A → Type κ) → List A → Type κ
All P [] = Unit
All P (x ∷ xs) = P x × All P xs

module _ {ℓ} {A : Type ℓ} (p : A → Bool) where
  pub length-keep-le : (xs : List A) → length (keep p xs) ≤ length xs
  unfolding keep
  length-keep-le [] = omega arith
  length-keep-le (x ∷ xs) = ground (arith, length-keep-le xs)

  -- A filter that drops nothing is the identity.
  pub keep-eq_of_length : (xs : List A) → length (keep p xs) ≡ length xs → keep p xs ≡ xs
  unfolding keep
  keep-eq_of_length [] h = refl
  keep-eq_of_length (x ∷ xs) h = ground (arith, keep-eq_of_length xs, length-keep-le xs)

  pub keep-All : (xs : List A) → All (λ x. p x ≡ true) (keep p xs)
  unfolding keep
  keep-All [] = tt
  keep-All (x ∷ xs) = ground (arith, keep-All xs)

module _ {ℓ} {A : Type ℓ} ⦃e : Eq A⦄ where
  -- `a in xs`, for a list or a set
  unfoldable pub elem : A → List A → Bool
  elem a [] = false
  elem a (x ∷ xs) = e.beq a x || elem a xs

-- Membership that is taken apart by cases.
abbrev pub In : {A : Type 0} → A → List A → Type 0
In a [] = ⊥
In a (x ∷ xs) = (a ≡ x) ⊎ In a xs

abbrev pub Subset : {A : Type 0} → List A → List A → Type 0
Subset {A = A} xs ys = (a : A) → In a xs → In a ys

module _ {A : Type 0} (p : A → Bool) where
  pub In-keep : (a : A) (xs : List A) → In a xs → p a ≡ true → In a (keep p xs)
  unfolding keep
  In-keep a [] m h = absurd m
  In-keep a (x ∷ xs) (inl e) h = rw (ap p (sym e) ∙ h) (inl e)
  In-keep a (x ∷ xs) (inr m) h = elim (Bool-cases (p x)) [
    | inl y ↦ rw y (inr (In-keep a xs m h))
    | inr n ↦ rw n (In-keep a xs m h)
  ]

  kept_head :
      (a x : A) (xs : List A)
      → (In a (keep p xs) → In a xs × (p a ≡ true))
      → p x ≡ true
      → (a ≡ x) ⊎ In a (keep p xs)
      → ((a ≡ x) ⊎ In a xs) × (p a ≡ true)
  kept_head a x xs ih y (inl e) = (inl e, ap p e ∙ y)
  kept_head a x xs ih y (inr m) = (inr (ih m).0, (ih m).1)

  pub In-of_keep : (a : A) (xs : List A) → In a (keep p xs) → In a xs × (p a ≡ true)
  unfolding keep
  In-of_keep a [] m = absurd m
  In-of_keep a (x ∷ xs) m = elim (Bool-cases (p x)) [
    | inl y ↦ kept_head a x xs (In-of_keep a xs) y (rw y at m)
    | inr n ↦ let r = In-of_keep a xs (rw n at m) in (inr r.0, r.1)
  ]

  pub all_of_In : (xs : List A) → ((a : A) → In a xs → p a ≡ true) → all p xs ≡ true
  unfolding all
  all_of_In [] h = refl
  all_of_In (x ∷ xs) h = rw (h x (inl refl)) (all_of_In xs (λ a m. h a (inr m)))

  pub In-of_all : (xs : List A) → all p xs ≡ true → (a : A) → In a xs → p a ≡ true
  unfolding all
  In-of_all [] h a m = absurd m
  In-of_all (x ∷ xs) h a (inl e) = ap p e ∙ ((and_iff (p x) (all p xs)).0 h).0
  In-of_all (x ∷ xs) h a (inr m) = In-of_all xs ((and_iff (p x) (all p xs)).0 h).1 a m

  -- A filter that drops nothing keeps only what passes.
  pub keep_all : (xs : List A) → length (keep p xs) ≡ length xs → (a : A) → In a xs → p a ≡ true
  keep_all xs h a m = (In-of_keep a xs (rw (keep-eq_of_length p xs h) m)).1

  -- A filter that all pass is the identity.
  pub keep-eq_self : (xs : List A) → ((a : A) → In a xs → p a ≡ true) → keep p xs ≡ xs
  unfolding keep
  keep-eq_self [] h = refl
  keep-eq_self (x ∷ xs) h = rw (h x (inl refl)) (ap (◌∷◌ x) (keep-eq_self xs (λ a m. h a (inr m))))

module _ {A : Type 0} ⦃e : Eq A⦄ where
  pub elem_of_In : (a : A) (xs : List A) → In a xs → elem a xs ≡ true
  unfolding elem
  elem_of_In a [] m = absurd m
  elem_of_In a (x ∷ xs) (inl q) = rw ((e.beq_iff a x).1 q)
  elem_of_In a (x ∷ xs) (inr m) = ground (arith, elem_of_In a xs m)

  pub In-of_elem : (a : A) (xs : List A) → elem a xs ≡ true → In a xs
  unfolding elem
  In-of_elem a [] h = cc
  In-of_elem a (x ∷ xs) h = elim (Bool-cases (e.beq a x)) [
    | inl y ↦ inl ((e.beq_iff a x).0 y)
    | inr n ↦ inr (In-of_elem a xs (rw n at h))
  ]

module _ {A B : Type 0} (f : A → B) where
  pub In-map : (a : A) (xs : List A) → In a xs → In (f a) (map f xs)
  In-map a [] m = m
  In-map a (x ∷ xs) (inl e) = inl (ap f e)
  In-map a (x ∷ xs) (inr m) = inr (In-map a xs m)

  pub In-of_map : (b : B) (xs : List A) → In b (map f xs) → (a : A) × In a xs × (b ≡ f a)
  In-of_map b [] m = absurd m
  In-of_map b (x ∷ xs) (inl e) = (x, inl refl, e)
  In-of_map b (x ∷ xs) (inr m) = let r = In-of_map b xs m in (r.0, inr r.1, r.2)

module _ {A : Type 0} (a : A) where
  pub In-append_left : (xs ys : List A) → In a xs → In a (xs ++ ys)
  In-append_left [] ys m = absurd m
  In-append_left (x ∷ xs) ys (inl e) = inl e
  In-append_left (x ∷ xs) ys (inr m) = inr (In-append_left xs ys m)

  pub In-append_right : (xs ys : List A) → In a ys → In a (xs ++ ys)
  In-append_right [] ys m = m
  In-append_right (x ∷ xs) ys m = inr (In-append_right xs ys m)

  pub In-of_append : (xs ys : List A) → In a (xs ++ ys) → In a xs ⊎ In a ys
  In-of_append [] ys m = inr m
  In-of_append (x ∷ xs) ys (inl e) = inl (inl e)
  In-of_append (x ∷ xs) ys (inr m) = elim (In-of_append xs ys m) [
    | inl l ↦ inl (inr l)
    | inr r ↦ inr r
  ]
