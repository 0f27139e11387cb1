-- ===== src/Prelude/Dicts.antt =====
-- A Python dict as an association list in insertion order.
use mathlib.Core.Path.{◌≡◌}
use mathlib.Core.List.{List, [], ◌∷◌}
use mathlib.Core.Option.{Option, none, some}
use native.Mathlib.Omega.{arith}
use minireplayer.Prelude.Tests.{if◌then◌else◌}
use minireplayer.Prelude.Equality.{Eq}

abbrev pub Dict {ℓ κ} : Type ℓ → Type κ → Type (ℓ ⊔ κ)
Dict K V = List (K × V)

module _ {ℓ κ} {K : Type ℓ} {V : Type κ} ⦃e : Eq K⦄ where
  -- `d.get(k)`
  unfoldable pub lookup : K → Dict K V → Option V
  lookup k [] = none
  lookup k ((j, v) ∷ m) = let rest = lookup k m in if e.beq k j then some v else rest

  -- `d.get(k, default)`
  unfoldable pub lookup_or : K → V → Dict K V → V
  lookup_or k d m = elim (lookup k m) [ none ↦ d | some v ↦ v ]

  -- `d[k] = v`: a key that is there keeps its place
  unfoldable pub insert : K → V → Dict K V → Dict K V
  insert k v [] = (k, v) ∷ []
  insert k v ((j, w) ∷ m) =
      let rest = insert k v m in if e.beq k j then (j, v) ∷ m else (j, w) ∷ rest

  -- `d.pop(k, None)`: the dict without the key
  unfoldable pub remove : K → Dict K V → Dict K V
  remove k [] = []
  remove k ((j, w) ∷ m) = let rest = remove k m in if e.beq k j then rest else (j, w) ∷ rest

  pub lookup-insert :
      (j k : K) (v : V) (m : Dict K V)
      → lookup j (insert k v m) ≡ (if e.beq j k then some v else lookup j m)
  unfolding lookup insert
  lookup-insert j k v [] = ground arith
  lookup-insert j k v ((i, w) ∷ m) =
      ground (arith, e.beq_iff k i, e.beq_iff j i, e.beq_iff j k, lookup-insert j k v m)

  pub lookup-remove :
      (j k : K) (m : Dict K V) → lookup j (remove k m) ≡ (if e.beq j k then none else lookup j m)
  unfolding lookup remove
  lookup-remove j k [] = ground arith
  lookup-remove j k ((i, w) ∷ m) =
      ground (arith, e.beq_iff k i, e.beq_iff j i, e.beq_iff j k, lookup-remove j k m)

  pub lookup_or-insert :
      (j k : K) (d v : V) (m : Dict K V)
      → lookup_or j d (insert k v m) ≡ (if e.beq j k then v else lookup_or j d m)
  unfolding lookup_or
  lookup_or-insert j k d v m = ground (arith, lookup-insert j k v m)
