-- ===== src/Schema/Chain/Sorted.antt =====
-- minireplayer/schema.py: the order in which the artifact events are walked.
use minireplayer.Prelude.{
  ℕ, ◌≤◌, ◌≡◌, inl, inr, ◌⊎◌, true, false, List, [], ◌∷◌, arith, In, Bool-cases,
}
use minireplayer.Schema.Chain.{Event, key_leb, place, in_order}

-- The times of the events do not go down, from a time on.
abbrev pub Ascending : ℕ → List Event → Type 0
Ascending t [] = Unit
Ascending t (e ∷ es) = (t ≤ e.completed_at_ns) × Ascending e.completed_at_ns es

key_leb-le : (a b : Event) → key_leb a b ≡ true → a.completed_at_ns ≤ b.completed_at_ns
unfolding key_leb
key_leb-le a b h = ground arith

key_leb-ge : (a b : Event) → key_leb a b ≡ false → b.completed_at_ns ≤ a.completed_at_ns
unfolding key_leb
key_leb-ge a b h = ground arith

Ascending-place :
    (t : ℕ) (e : Event) (es : List Event)
    → t ≤ e.completed_at_ns
    → Ascending t es
    → Ascending t (place e es)
unfolding place
Ascending-place t e [] h a = (h, tt)
Ascending-place t e (x ∷ xs) h (b, a) = elim (Bool-cases (key_leb e x)) [
  | inl y ↦ rw y (h, (key_leb-le e x y, a))
  | inr n ↦ rw n (b, Ascending-place x.completed_at_ns e xs (key_leb-ge e x n) a)
]

pub Ascending-in_order : (es : List Event) → Ascending 0 (in_order es)
unfolding in_order
Ascending-in_order [] = tt
Ascending-in_order (e ∷ es) =
    Ascending-place 0 e (in_order es) (omega arith) (Ascending-in_order es)

In-place : (a e : Event) (es : List Event) → (a ≡ e) ⊎ In a es → In a (place e es)
unfolding place
In-place a e [] m = m
In-place a e (x ∷ xs) m = elim (Bool-cases (key_leb e x)) [
  | inl y ↦ rw y m
  | inr n ↦ rw n (elim m [
    | inl q ↦ inr (In-place a e xs (inl q))
    | inr (inl q) ↦ inl q
    | inr (inr r) ↦ inr (In-place a e xs (inr r))
  ])
]

In-of_place : (a e : Event) (es : List Event) → In a (place e es) → (a ≡ e) ⊎ In a es
unfolding place
In-of_place a e [] m = m
In-of_place a e (x ∷ xs) m = elim (Bool-cases (key_leb e x)) [
  | inl y ↦ rw y at m
  | inr n ↦ elim (rw n at m) [
    | inl q ↦ inr (inl q)
    | inr r ↦ elim (In-of_place a e xs r) [ inl q ↦ inl q | inr s ↦ inr (inr s) ]
  ]
]

pub In-in_order : (a : Event) (es : List Event) → In a es → In a (in_order es)
unfolding in_order
In-in_order a [] m = m
In-in_order a (e ∷ es) (inl q) = In-place a e (in_order es) (inl q)
In-in_order a (e ∷ es) (inr m) = In-place a e (in_order es) (inr (In-in_order a es m))

pub In-of_in_order : (a : Event) (es : List Event) → In a (in_order es) → In a es
unfolding in_order
In-of_in_order a [] m = m
In-of_in_order a (e ∷ es) m = elim (In-of_place a e (in_order es) m) [
  | inl q ↦ inl q
  | inr r ↦ inr (In-of_in_order a es r)
]
