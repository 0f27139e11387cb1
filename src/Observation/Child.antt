-- ===== src/Observation/Child.antt =====
-- minireplayer/observation.py: what `cursor[part] = w` leaves at every part of the container.
use minireplayer.Prelude.{
  ℕ, zero, suc, ◌<◌, String, ◌≡◌, refl, sym, ap, ◌⊎◌, inl, inr, true, Option, none, some, arith,
  Bool-cases, Option-cases, some_inj, ◌==◌, string_eq, beq_refl, subst,
}
use minireplayer.Json.{Value, Fields, Items, obj, arr, nil, cons, end, field, get, has, put}
use minireplayer.Json.Access.{get-put, has-put}
use minireplayer.Observation.{Index, front, back, Library}
use minireplayer.Observation.Pointer.{
  size, item_at, put_at, place_of, place_in, child, with_child, and_then,
}

pub none≢some {ℓ} : {A : Type ℓ} {a : A} → none ≡ some a → ⊥
none≢some h = cc

size-put_at : (i : ℕ) (w : Value) (xs : Items) → size (put_at i w xs) ≡ size xs
unfolding size put_at
size-put_at i w nil = refl
size-put_at zero w (cons x xs) = refl
size-put_at (suc i) w (cons x xs) = ap suc (size-put_at i w xs)

item_at-put_at :
    (i j : ℕ) (w : Value) (xs : Items)
    → item_at i (put_at j w xs) ≡ item_at i xs ⊎ ((i ≡ j) × (item_at i (put_at j w xs) ≡ some w))
unfolding item_at put_at
item_at-put_at i j w nil = inl refl
item_at-put_at zero zero w (cons x xs) = inr (refl, refl)
item_at-put_at zero (suc j) w (cons x xs) = inl refl
item_at-put_at (suc i) zero w (cons x xs) = inl refl
item_at-put_at (suc i) (suc j) w (cons x xs) = elim (item_at-put_at i j w xs) [
  | inl e ↦ inl e
  | inr (q, e) ↦ inr (ap suc q, e)
]

put_at-found : (i : ℕ) (w : Value) (xs : Items) → i < size xs → item_at i (put_at i w xs) ≡ some w
unfolding size item_at put_at
put_at-found i w nil h = absurd (omega (arith, h))
put_at-found zero w (cons x xs) h = refl
put_at-found (suc i) w (cons x xs) h = put_at-found i w xs (omega (arith, h))

put_at_self : (i : ℕ) (c : Value) (xs : Items) → item_at i xs ≡ some c → put_at i c xs ≡ xs
unfolding item_at put_at
put_at_self i c nil h = refl
put_at_self zero c (cons x xs) h = ap (λ y. cons y xs) (sym (some_inj h))
put_at_self (suc i) c (cons x xs) h = ap (cons x) (put_at_self i c xs h)

put_at-put_at : (i : ℕ) (c w : Value) (xs : Items) → put_at i c (put_at i w xs) ≡ put_at i c xs
unfolding put_at
put_at-put_at i c w nil = refl
put_at-put_at zero c w (cons x xs) = refl
put_at-put_at (suc i) c w (cons x xs) = ap (cons x) (put_at-put_at i c w xs)

put_self : (k : String) (c : Value) (d : Fields) → has k d ≡ true → get k d ≡ c → put k c d ≡ d
unfolding has put get
put_self k c end h g = cc
put_self k c (field j v rest) h g = elim (Bool-cases (k == j)) [
  | inl y ↦ rw y (ap (λ u. field j u rest) (sym (rw y at g)))
  | inr n ↦ rw n (ap (field j v) (put_self k c rest (rw n at h) (rw n at g)))
]

put-put : (k : String) (v w : Value) (d : Fields) → put k v (put k w d) ≡ put k v d
unfolding put
put-put k v w end = rw (beq_refl k) refl
put-put k v w (field j u rest) = elim (Bool-cases (k == j)) [
  | inl y ↦ rw (y, y) refl
  | inr n ↦ rw (n, n) (ap (field j u) (put-put k v w rest))
]

place_of-lt : (i : Index) (n k : ℕ) → place_of i n ≡ some k → k < n
unfolding place_of
place_of-lt (front i) n k h = ground arith
place_of-lt (back i) n k h = ground arith

-- What `cursor[y] = w` leaves of a container `v` in which `y` is there.
pub record Written (lib : Library) (y : String) (w v v' : Value) : Type 0 where
  pub here : child lib y v' ≡ some w
  pub else_where :
      (x : String)
      → child lib x v' ≡ child lib x v
        ⊎ ((child lib x v ≡ child lib y v) × (child lib x v' ≡ some w))

object_else :
    (lib : Library) (x y : String) (w : Value) (d : Fields)
    → child lib x (obj (put y w d)) ≡ child lib x (obj d)
      ⊎ ((child lib x (obj d) ≡ child lib y (obj d)) × (child lib x (obj (put y w d)) ≡ some w))
unfolding child
object_else lib x y w d = elim (Bool-cases (x == y)) [
  | inl e ↦ inr (
    ap (λ k. child lib k (obj d)) ((string_eq.beq_iff x y).0 e),
    rw (has-put x y w d, get-put x y w d, e) refl,
  )
  | inr n ↦ inl (rw (has-put x y w d, get-put x y w d, n) refl)
]

object-Written :
    (lib : Library) (y : String) (w : Value) (d : Fields)
    → Written lib y w (obj d) (obj (put y w d))
unfolding child
object-Written lib y w d = record {
  here = rw (has-put y y w d, get-put y y w d, beq_refl y) refl;
  else_where = λ x. object_else lib x y w d;
}

place_in-put_at :
    (lib : Library) (x : String) (i : ℕ) (w : Value) (xs : Items)
    → place_in lib x (put_at i w xs) ≡ place_in lib x xs
unfolding place_in
place_in-put_at lib x i w xs = rw (size-put_at i w xs) refl

pub and_then-some :
    {A B : Type 0} (o : Option A) (f : A → Option B) (b : B)
    → and_then o f ≡ some b
    → (a : A) × (o ≡ some a) × (f a ≡ some b)
and_then-some none f b h = cc
and_then-some (some a) f b h = (a, refl, h)

place_in-lt :
    (lib : Library) (y : String) (xs : Items) (k : ℕ) → place_in lib y xs ≡ some k → k < size xs
unfolding place_in
place_in-lt lib y xs k h =
    let (i, _, g) = and_then-some (lib.int_of y) (λ i. place_of i (size xs)) k h in
    place_of-lt i (size xs) k g

items_else :
    (i j : ℕ) (w : Value) (xs : Items)
    → item_at i (put_at j w xs) ≡ item_at i xs
      ⊎ ((item_at i xs ≡ item_at j xs) × (item_at i (put_at j w xs) ≡ some w))
items_else i j w xs = elim (item_at-put_at i j w xs) [
  | inl e ↦ inl e
  | inr (q, e) ↦ inr (ap (λ k. item_at k xs) q, e)
]

items-Written :
    (lib : Library) (y : String) (j : ℕ) (w : Value) (xs : Items)
    → place_in lib y xs ≡ some j
    → Written lib y w (arr xs) (arr (put_at j w xs))
unfolding child
items-Written lib y j w xs h = record {
  here = rw (place_in-put_at lib y j w xs, h) (put_at-found j w xs (place_in-lt lib y xs j h));
  else_where = λ x. elim (Option-cases (place_in lib x xs)) [
    | inl n ↦ inl (rw (place_in-put_at lib x j w xs, n) refl)
    | inr (i, g) ↦ rw (place_in-put_at lib x j w xs, g, h) (items_else i j w xs)
  ];
}

pub child-with_child :
    (lib : Library) (y : String) (w v v' : Value)
    → with_child lib y w v ≡ some v'
    → Written lib y w v v'
unfolding with_child
child-with_child lib y w (obj d) v' h = elim (Bool-cases (has y d)) [
  | inl t ↦ subst (Written lib y w (obj d)) (some_inj (rw t at h)) (object-Written lib y w d)
  | inr n ↦ absurd (none≢some (rw n at h))
]
child-with_child lib y w (arr xs) v' h =
    let (j, g, q) = and_then-some (place_in lib y xs) (λ i. some (arr (put_at i w xs))) v' h in
    subst (Written lib y w (arr xs)) (some_inj q) (items-Written lib y j w xs g)
child-with_child lib y w _ v' h = absurd (none≢some h)

item_at-lt : (i : ℕ) (xs : Items) → i < size xs → (c : Value) × (item_at i xs ≡ some c)
unfolding size item_at
item_at-lt i nil h = absurd (omega (arith, h))
item_at-lt zero (cons x xs) h = (x, refl)
item_at-lt (suc i) (cons x xs) h = item_at-lt i xs (omega (arith, h))

-- A part that is there can be written, and one that can be written is there.
pub with_child_of_child :
    (lib : Library) (y : String) (w v c : Value)
    → child lib y v ≡ some c
    → (v' : Value) × (with_child lib y w v ≡ some v')
unfolding child with_child
with_child_of_child lib y w (obj d) c h = elim (Bool-cases (has y d)) [
  | inl t ↦ (obj (put y w d), rw t refl)
  | inr n ↦ absurd (none≢some (rw n at h))
]
with_child_of_child lib y w (arr xs) c h =
    let (j, g, q) = and_then-some (place_in lib y xs) (λ i. item_at i xs) c h in
    (arr (put_at j w xs), rw g refl)
with_child_of_child lib y w _ c h = absurd (none≢some h)

pub child_of_with_child :
    (lib : Library) (y : String) (w v v' : Value)
    → with_child lib y w v ≡ some v'
    → (c : Value) × (child lib y v ≡ some c)
unfolding child with_child
child_of_with_child lib y w (obj d) v' h = elim (Bool-cases (has y d)) [
  | inl t ↦ (get y d, rw t refl)
  | inr n ↦ absurd (none≢some (rw n at h))
]
child_of_with_child lib y w (arr xs) v' h =
    let (j, g, q) = and_then-some (place_in lib y xs) (λ i. some (arr (put_at i w xs))) v' h in
    rw g (item_at-lt j xs (place_in-lt lib y xs j g))
child_of_with_child lib y w _ v' h = absurd (none≢some h)

-- Writing what is there changes nothing.
pub with_child_self :
    (lib : Library) (y : String) (c v : Value)
    → child lib y v ≡ some c
    → with_child lib y c v ≡ some v
unfolding child with_child
with_child_self lib y c (obj d) h = elim (Bool-cases (has y d)) [
  | inl t ↦ rw t (ap (λ e. some (obj e)) (put_self y c d t (some_inj (rw t at h))))
  | inr n ↦ absurd (none≢some (rw n at h))
]
with_child_self lib y c (arr xs) h =
    let (j, g, q) = and_then-some (place_in lib y xs) (λ i. item_at i xs) c h in
    rw g (ap (λ ys. some (arr ys)) (put_at_self j c xs q))
with_child_self lib y c _ h = absurd (none≢some h)

-- The last of two writes counts.
pub with_child-with_child :
    (lib : Library) (y : String) (a w v v' : Value)
    → with_child lib y w v ≡ some v'
    → with_child lib y a v' ≡ with_child lib y a v
unfolding with_child
with_child-with_child lib y a w (obj d) v' h = elim (Bool-cases (has y d)) [
  | inl t ↦
      subst (λ u. with_child lib y a u ≡ with_child lib y a (obj d)) (some_inj (rw t at h))
        (rw (has-put y y w d, beq_refl y, t, put-put y a w d) refl)
  | inr n ↦ absurd (none≢some (rw n at h))
]
with_child-with_child lib y a w (arr xs) v' h =
    let (j, g, q) = and_then-some (place_in lib y xs) (λ i. some (arr (put_at i w xs))) v' h in
    subst (λ u. with_child lib y a u ≡ with_child lib y a (arr xs)) (some_inj q)
      (rw (place_in-put_at lib y j w xs, g, put_at-put_at j a w xs) refl)
with_child-with_child lib y a w _ v' h = absurd (none≢some h)
