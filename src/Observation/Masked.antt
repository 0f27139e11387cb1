-- ===== src/Observation/Masked.antt =====
-- minireplay/observation.py: what a pointer reads after another pointer was written.
use minireplayer.Prelude.{
  String, ◌≡◌, refl, sym, ap, ◌∙◌, ◌⊎◌, inl, inr, Option, none, some, List, [], ◌∷◌, Option-cases,
  some_inj, subst,
}
use std.Path.{fun_ext}
use minireplayer.Json.{Value}
use minireplayer.Observation.{Library, mask}
use minireplayer.Observation.Pointer.{
  and_then, child, with_child, pointer_parent, get_pointer, set_pointer,
}
use minireplayer.Observation.Child.{
  none≢some, and_then-some, child-with_child, child_of_with_child, with_child_of_child,
  with_child_self, with_child-with_child,
}

-- what a path of parts reads from the root on, with the whole document for no parts
unfoldable reach : Library → List String → Value → Option Value
reach lib [] v = some v
reach lib (x ∷ xs) v = and_then (child lib x v) (reach lib xs)

unfoldable write : Library → List String → Value → Value → Option Value
write lib [] w v = some w
write lib (x ∷ xs) w v =
    and_then (child lib x v) (λ c. and_then (write lib xs w c) (λ c'. with_child lib x c' v))

and_then-unit : {A : Type 0} (o : Option A) → and_then o (λ a. some a) ≡ o
and_then-unit none = refl
and_then-unit (some a) = refl

get_pointer-reach :
    (lib : Library) (x : String) (xs : List String) (v : Value)
    → get_pointer lib (x ∷ xs) v ≡ reach lib (x ∷ xs) v
unfolding get_pointer pointer_parent reach
get_pointer-reach lib x [] v = sym (and_then-unit (child lib x v))
get_pointer-reach lib x (y ∷ ys) v = elim (Option-cases (child lib x v)) [
  | inl n ↦ rw n refl
  | inr (c, e) ↦ rw e (get_pointer-reach lib y ys c)
]

set_pointer-write :
    (lib : Library) (x : String) (xs : List String) (w v : Value)
    → set_pointer lib (x ∷ xs) w v ≡ write lib (x ∷ xs) w v
unfolding set_pointer write
set_pointer-write lib x [] w v = elim (Option-cases (child lib x v)) [
  | inl n ↦ elim (Option-cases (with_child lib x w v)) [
    | inl m ↦ rw (n, m) refl
    | inr (v', m) ↦
        let (c, e) = child_of_with_child lib x w v v' m in absurd (none≢some (sym n ∙ e))
  ]
  | inr (c, e) ↦ rw e refl
]
set_pointer-write lib x (y ∷ ys) w v =
    ap (λ f. and_then (child lib x v) (λ c. and_then (f c) (λ c'. with_child lib x c' v)))
      (fun_ext (λ c. set_pointer-write lib y ys w c))

-- A path hides a document where it reads the mask or nothing.
abbrev Hidden : Library → List String → Value → Type 0
Hidden lib xs v = (reach lib xs v ≡ none) ⊎ (reach lib xs v ≡ some mask)

Hidden-under :
    (lib : Library) (x : String) (xs : List String) (v c : Value)
    → child lib x v ≡ some c
    → Hidden lib xs c
    → Hidden lib (x ∷ xs) v
unfolding reach
Hidden-under lib x xs v c e h = rw e h

Hidden-below :
    (lib : Library) (x : String) (xs : List String) (v c : Value)
    → child lib x v ≡ some c
    → Hidden lib (x ∷ xs) v
    → Hidden lib xs c
unfolding reach
Hidden-below lib x xs v c e h = rw e at h

mask_leaf : (lib : Library) (x : String) (xs : List String) → reach lib (x ∷ xs) mask ≡ none
unfolding reach child
mask_leaf lib x xs = refl

mask_unwritten :
    (lib : Library) (y : String) (ys : List String) → write lib (y ∷ ys) mask mask ≡ none
unfolding write child
mask_unwritten lib y ys = refl

Hidden-write :
    (lib : Library) (xs ys : List String) (v v' : Value)
    → Hidden lib xs v
    → write lib ys mask v ≡ some v'
    → Hidden lib xs v'
unfolding reach write
Hidden-write lib [] ys v v' (inl h) g = absurd (none≢some (sym h))
Hidden-write lib [] [] v v' (inr h) g = inr (sym g)
Hidden-write lib [] (y ∷ ys) v v' (inr h) g = absurd (
    none≢some (sym (mask_unwritten lib y ys) ∙ ap (write lib (y ∷ ys) mask) (sym (some_inj h)) ∙ g))
Hidden-write lib (x ∷ xs) [] v v' h g =
    inl (subst (λ u. reach lib (x ∷ xs) u ≡ none) (some_inj g) (mask_leaf lib x xs))
Hidden-write lib (x ∷ xs) (y ∷ ys) v v' h g =
    let (c, e, g₁) = and_then-some (child lib y v) _ v' g in
    let (c', e₁, g₂) = and_then-some (write lib ys mask c) _ v' g₁ in
    let written = child-with_child lib y c' v v' g₂ in
    elim (written.else_where x) [
      | inl q ↦
          subst (λ o. (and_then o (reach lib xs) ≡ none) ⊎ (and_then o (reach lib xs) ≡ some mask))
            (sym q) h
      | inr (q, r) ↦
          Hidden-under lib x xs v' c' r
            (Hidden-write lib xs ys c c' (Hidden-below lib x xs v c (q ∙ e) h) e₁)
    ]

reach-write :
    (lib : Library) (ys : List String) (w v v' : Value)
    → write lib ys w v ≡ some v'
    → reach lib ys v' ≡ some w
unfolding reach write
reach-write lib [] w v v' g = sym g
reach-write lib (y ∷ ys) w v v' g =
    let (c, e, g₁) = and_then-some (child lib y v) _ v' g in
    let (c', e₁, g₂) = and_then-some (write lib ys w c) _ v' g₁ in
    rw ((child-with_child lib y c' v v' g₂).here) (reach-write lib ys w c c' e₁)

write_of_reach :
    (lib : Library) (ys : List String) (w v c : Value)
    → reach lib ys v ≡ some c
    → (v' : Value) × (write lib ys w v ≡ some v')
unfolding reach write
write_of_reach lib [] w v c h = (w, refl)
write_of_reach lib (y ∷ ys) w v c h =
    let (b, e, h₁) = and_then-some (child lib y v) (reach lib ys) c h in
    let (b', g) = write_of_reach lib ys w b c h₁ in
    let (v', q) = with_child_of_child lib y b' v b e in (v', rw e (rw g q))

reach_of_write :
    (lib : Library) (ys : List String) (w v v' : Value)
    → write lib ys w v ≡ some v'
    → (c : Value) × (reach lib ys v ≡ some c)
unfolding reach write
reach_of_write lib [] w v v' h = (v, refl)
reach_of_write lib (y ∷ ys) w v v' h =
    let (b, e, g) = and_then-some (child lib y v) _ v' h in
    let (b', e₁, g₁) = and_then-some (write lib ys w b) _ v' g in
    rw e (reach_of_write lib ys w b b' e₁)

write_self :
    (lib : Library) (ys : List String) (v c : Value)
    → reach lib ys v ≡ some c
    → write lib ys c v ≡ some v
unfolding reach write
write_self lib [] v c h = sym h
write_self lib (y ∷ ys) v c h =
    let (b, e, h₁) = and_then-some (child lib y v) (reach lib ys) c h in
    rw e (rw (write_self lib ys b c h₁) (with_child_self lib y b v e))

write-write :
    (lib : Library) (ys : List String) (a w v v' : Value)
    → write lib ys w v ≡ some v'
    → write lib ys a v' ≡ write lib ys a v
unfolding write
write-write lib [] a w v v' h = refl
write-write lib (y ∷ ys) a w v v' h =
    let (c, e, g) = and_then-some (child lib y v) _ v' h in
    let (c', e₁, g₁) = and_then-some (write lib ys w c) _ v' g in
    rw ((child-with_child lib y c' v v' g₁).here, e, write-write lib ys a w c c' e₁)
      (ap (and_then (write lib ys a c)) (fun_ext (λ b. with_child-with_child lib y b c' v v' g₁)))

-- A pointer, by its parts, reads the mask or nothing.
abbrev pub IsMasked : Library → List String → Value → Type 0
IsMasked lib parts v = (get_pointer lib parts v ≡ none) ⊎ (get_pointer lib parts v ≡ some mask)

-- A pointer that reads the mask or nothing does so after the mask was written at any pointer.
pub IsMasked-set_pointer :
    (lib : Library) (parts others : List String) (v v' : Value)
    → IsMasked lib parts v
    → set_pointer lib others mask v ≡ some v'
    → IsMasked lib parts v'
unfolding get_pointer pointer_parent set_pointer
IsMasked-set_pointer lib [] others v v' h g = inl refl
IsMasked-set_pointer lib parts [] v v' h g = absurd (none≢some g)
IsMasked-set_pointer lib (x ∷ xs) (y ∷ ys) v v' h g = rw (get_pointer-reach lib x xs v') (
    Hidden-write lib (x ∷ xs) (y ∷ ys) v v' (rw (get_pointer-reach lib x xs v) at h)
      (sym (set_pointer-write lib y ys mask v) ∙ g))

-- What was written at a pointer is read there.
pub get_pointer-set_pointer :
    (lib : Library) (parts : List String) (w v v' : Value)
    → set_pointer lib parts w v ≡ some v'
    → get_pointer lib parts v' ≡ some w
unfolding set_pointer
get_pointer-set_pointer lib [] w v v' g = absurd (none≢some g)
get_pointer-set_pointer lib (y ∷ ys) w v v' g =
    get_pointer-reach lib y ys v'
    ∙ reach-write lib (y ∷ ys) w v v' (sym (set_pointer-write lib y ys w v) ∙ g)

-- A pointer that reads something can be written.
pub set_pointer_of_get_pointer :
    (lib : Library) (parts : List String) (w v c : Value)
    → get_pointer lib parts v ≡ some c
    → (v' : Value) × (set_pointer lib parts w v ≡ some v')
unfolding get_pointer pointer_parent
set_pointer_of_get_pointer lib [] w v c g = absurd (none≢some g)
set_pointer_of_get_pointer lib (y ∷ ys) w v c g =
    let (v', q) = write_of_reach lib (y ∷ ys) w v c (sym (get_pointer-reach lib y ys v) ∙ g) in
    (v', set_pointer-write lib y ys w v ∙ q)

-- A pointer that can be written reads something.
pub get_pointer_of_set_pointer :
    (lib : Library) (parts : List String) (w v v' : Value)
    → set_pointer lib parts w v ≡ some v'
    → (c : Value) × (get_pointer lib parts v ≡ some c)
unfolding set_pointer
get_pointer_of_set_pointer lib [] w v v' g = absurd (none≢some g)
get_pointer_of_set_pointer lib (y ∷ ys) w v v' g =
    let (c, e) = reach_of_write lib (y ∷ ys) w v v' (sym (set_pointer-write lib y ys w v) ∙ g) in
    (c, get_pointer-reach lib y ys v ∙ e)

-- Writing what a pointer reads changes nothing.
pub set_pointer_self :
    (lib : Library) (parts : List String) (v c : Value)
    → get_pointer lib parts v ≡ some c
    → set_pointer lib parts c v ≡ some v
unfolding get_pointer pointer_parent
set_pointer_self lib [] v c g = absurd (none≢some g)
set_pointer_self lib (y ∷ ys) v c g =
    set_pointer-write lib y ys c v
    ∙ write_self lib (y ∷ ys) v c (sym (get_pointer-reach lib y ys v) ∙ g)

-- The last of two writes at a pointer counts.
pub set_pointer-set_pointer :
    (lib : Library) (parts : List String) (a w v v' : Value)
    → set_pointer lib parts w v ≡ some v'
    → set_pointer lib parts a v' ≡ set_pointer lib parts a v
unfolding set_pointer
set_pointer-set_pointer lib [] a w v v' g = absurd (none≢some g)
set_pointer-set_pointer lib (y ∷ ys) a w v v' g =
    set_pointer-write lib y ys a v'
    ∙ write-write lib (y ∷ ys) a w v v' (sym (set_pointer-write lib y ys w v) ∙ g)
    ∙ sym (set_pointer-write lib y ys a v)
