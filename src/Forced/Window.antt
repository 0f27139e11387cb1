-- ===== src/Forced/Window.antt =====
-- minireplay/forced.py: `committed_sample_window` finds the one place of the committed tokens.
use minireplayer.Prelude.{
  ℕ, zero, suc, ◌+◌, ◌≤◌, ◌<◌, ◌≡◌, refl, sym, ap, ◌∙◌, subst, inl, inr, ◌↔◌, Bool, true, false,
  List, [], ◌∷◌, ok, length, take, drop, ltb, In, if◌then◌else◌, ◌==◌, nat_eq, list_eq, Bool-cases,
  arith, ap₂, ltb→lt, lt→ltb, require-ok,
}
use minireplayer.Forced.{starts_from, the_only, committed_sample_window}

-- the committed tokens stand at a start
abbrev pub IsAt : List ℕ → List ℕ → ℕ → Type 0
IsAt sampled committed start = take (length committed) (drop start sampled) ≡ committed

-- a start among those that the search finds, at its distance from the first
abbrev IsFound : ℕ → List ℕ → List ℕ → ℕ → Type 0
IsFound n c xs i = (k : ℕ) × (i ≡ n + k) × (k ≤ length xs) × IsAt xs c k

IsFound-later :
    (n : ℕ) (c : List ℕ) (x : ℕ) (xs : List ℕ) (i : ℕ)
    → IsFound (suc n) c xs i
    → IsFound n c (x ∷ xs) i
IsFound-later n c x xs i (k, e, le, at) = (suc k, omega (arith, e), omega (arith, le), at)

IsFound-now :
    (n : ℕ) (c xs : List ℕ) (i : ℕ) → (take (length c) xs == c) ≡ true → i ≡ n → IsFound n c xs i
IsFound-now n c xs i y e = (0, omega (arith, e), omega arith, (list_eq.beq_iff _ _).0 y)

starts-IsFound : (n : ℕ) (c xs : List ℕ) (i : ℕ) → In i (starts_from n c xs) → IsFound n c xs i
unfolding starts_from
starts-IsFound n c [] i m = elim (Bool-cases (take (length c) [] == c)) [
  | inl y ↦ elim (rw y at m) [ inl e ↦ IsFound-now n c [] i y e | inr v ↦ absurd v ]
  | inr f ↦ absurd (rw f at m)
]
starts-IsFound n c (x ∷ xs) i m = elim (Bool-cases (take (length c) (x ∷ xs) == c)) [
  | inl y ↦ elim (rw y at m) [
    | inl e ↦ IsFound-now n c (x ∷ xs) i y e
    | inr v ↦ IsFound-later n c x xs i (starts-IsFound (suc n) c xs i v)
  ]
  | inr f ↦ IsFound-later n c x xs i (starts-IsFound (suc n) c xs i (rw f at m))
]

starts-In :
    (n : ℕ) (c xs : List ℕ) (k : ℕ) → k ≤ length xs → IsAt xs c k → In (n + k) (starts_from n c xs)
unfolding starts_from
starts-In n c [] zero le at = rw ((list_eq.beq_iff _ _).1 at) (inl (omega arith))
starts-In n c [] (suc k) le at = absurd (ground (arith, le))
starts-In n c (x ∷ xs) zero le at = rw ((list_eq.beq_iff _ _).1 at) (inl (omega arith))
starts-In n c (x ∷ xs) (suc k) le at = in_rest _ n (starts_from (suc n) c xs) (n + suc k) (
    subst (λ i. In i (starts_from (suc n) c xs)) (omega arith)
      (starts-In (suc n) c xs k (omega (arith, le)) at))
  where
    in_rest : (b : Bool) (n : ℕ) (l : List ℕ) (i : ℕ) → In i l → In i (if b then n ∷ l else l)
    in_rest true n l i m = inr m
    in_rest false n l i m = m

only : (c xs : List ℕ) (s k : ℕ) → starts_from 0 c xs ≡ s ∷ [] → k ≤ length xs → IsAt xs c k → k ≡ s
only c xs s k one le at = elim (subst (In (0 + k)) one (starts-In 0 c xs k le at)) [
  | inl e ↦ omega (arith, e)
  | inr v ↦ absurd v
]

if_not_head : (b : Bool) (n : ℕ) (l : List ℕ) → (b ≡ true → ⊥) → (if b then n ∷ l else l) ≡ l
if_not_head true n l h = absurd (h refl)
if_not_head false n l h = refl

starts-none :
    (n : ℕ) (c xs : List ℕ) → ((k : ℕ) → k ≤ length xs → IsAt xs c k → ⊥) → starts_from n c xs ≡ []
unfolding starts_from
starts-none n c [] h = if_not_head _ n [] (λ y. h 0 (omega arith) ((list_eq.beq_iff _ _).0 y))
starts-none n c (x ∷ xs) h =
    if_not_head _ n (starts_from (suc n) c xs) (λ y. h 0 (omega arith) ((list_eq.beq_iff _ _).0 y))
    ∙ starts-none (suc n) c xs (λ k le at. h (suc k) (omega (arith, le)) at)

-- the committed tokens stand at one start and at no other
abbrev pub IsUnique : List ℕ → List ℕ → ℕ → Type 0
IsUnique xs c s = (s ≤ length xs) × IsAt xs c s × ((k : ℕ) → k ≤ length xs → IsAt xs c k → k ≡ s)

starts-only : (n : ℕ) (c xs : List ℕ) (s : ℕ) → IsUnique xs c s → starts_from n c xs ≡ (n + s) ∷ []
unfolding starts_from
starts-only n c [] zero (le, at, u) =
    rw ((list_eq.beq_iff _ _).1 at) (ap (λ i. i ∷ []) (omega arith))
starts-only n c [] (suc s) (le, at, u) = absurd (ground (arith, le))
starts-only n c (x ∷ xs) zero (le, at, u) = rw ((list_eq.beq_iff _ _).1 at) (
    ap₂ ◌∷◌ (omega arith)
      (starts-none (suc n) c xs (λ k l a. absurd (omega (arith, u (suc k) (omega (arith, l)) a)))))
starts-only n c (x ∷ xs) (suc s) (le, at, u) =
    if_not_head _ n (starts_from (suc n) c xs)
      (λ y. absurd (omega (arith, u 0 (omega arith) ((list_eq.beq_iff _ _).0 y))))
    ∙ starts-only (suc n) c xs s
        (omega (arith, le), at, λ k l a. omega (arith, u (suc k) (omega (arith, l)) a))
    ∙ ap (λ i. i ∷ []) (omega arith)

the_only-ok : (l : List ℕ) (s : ℕ) → the_only l ≡ ok s → l ≡ s ∷ []
the_only-ok [] s h = cc
the_only-ok (x ∷ []) s h = cc
the_only-ok (x ∷ y ∷ l) s h = cc

-- The search gives a start exactly when there are committed tokens and they stand at that start
-- among the sampled ones and nowhere else.
pub committed_sample_window_iff :
    (sampled committed : List ℕ) (start : ℕ)
    → (committed_sample_window sampled committed ≡ ok start)
      ↔ ((0 < length committed) × IsUnique sampled committed start)
unfolding committed_sample_window
committed_sample_window_iff xs c s = (
  λ h.
      let both = require-ok (ltb 0 (length c)) (the_only (starts_from 0 c xs)) s h in
      let one = the_only-ok (starts_from 0 c xs) s both.1 in
      let at = starts-IsFound 0 c xs s (subst (In s) (sym one) (inl refl)) in
      let here : s ≡ at.0 = at.1 ∙ omega arith in
      (
        ltb→lt 0 (length c) both.0,
        (
          omega (arith, here, at.2),
          subst (IsAt xs c) (sym here) at.3,
          λ k le a. only c xs s k one le a,
        ),
      ),
  λ (p, u). rw (lt→ltb 0 (length c) p, starts-only 0 c xs s u) (ap ok (omega arith)),
)
