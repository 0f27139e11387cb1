-- ===== src/Prelude/Queues.antt =====
-- Queues that are handed over from the front, each with the place of its next entry.
use Prim.Native.Nat.{ℕ, zero, suc, ◌+◌}
use native.Mathlib.Numerals.{unary_clauses}
use mathlib.Core.Path.{◌≡◌, refl}
use mathlib.Core.List.{List, [], ◌∷◌, ◌++◌}
use mathlib.Core.Logic.{inl, inr}
use mathlib.Core.Option.{some}
use minireplayer.Prelude.Tests.{if◌then◌else◌, Bool-cases}
use minireplayer.Prelude.Equality.{Eq}
use minireplayer.Prelude.Lists.{drop, get_elem?}
use minireplayer.Prelude.Dicts.{Dict, insert, lookup_or, lookup_or-insert}

pub drop-next :
    {V : Type 0} (xs : List V) (i : ℕ) (x : V)
    → get_elem? xs i ≡ some x
    → x ∷ drop (i + 1) xs ≡ drop i xs
drop-next [] i x h = cc
drop-next (y ∷ xs) zero x h = cc
drop-next (y ∷ xs) (suc i) x h = simp unary_clauses (simp unary_clauses at (drop-next xs i x h))

module _ {K V : Type 0} ⦃e : Eq K⦄ (k j : K) where
  -- a lane that hands its next entry over moves on by it, and the others stay
  pub handed-insert :
      (m : Dict K ℕ) (qs : Dict K (List V)) (x : V)
      → get_elem? (lookup_or j [] qs) (lookup_or j 0 m) ≡ some x
      → (if e.beq k j then x ∷ [] else [])
          ++ drop (lookup_or k 0 (insert j (lookup_or j 0 m + 1) m)) (lookup_or k [] qs)
        ≡ drop (lookup_or k 0 m) (lookup_or k [] qs)
  handed-insert m qs x h =
      rw (lookup_or-insert k j 0 (lookup_or j 0 m + 1) m) (elim (Bool-cases (e.beq k j)) [
        | inl y ↦ rw (y, (e.beq_iff k j).0 y) (drop-next (lookup_or j [] qs) (lookup_or j 0 m) x h)
        | inr n ↦ rw n refl
      ])
