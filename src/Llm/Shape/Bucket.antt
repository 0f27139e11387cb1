-- ===== src/Llm/Shape/Bucket.antt =====
-- minireplay/llm_store.py: the bounds of `_size_bucket`.
use minireplayer.Prelude.{
  ℕ, zero, suc, ◌+◌, ◌*◌, ◌≤◌, ◌<◌, ◌≡◌, refl, ◌⊎◌, inl, inr, ltb, ltb→lt, Bool-cases, arith,
}
use minireplayer.Llm.Shape.{grow, bucket_bound}

-- a bound that a loop from `start` gives for a size
abbrev IsTight : ℕ → ℕ → ℕ → Type 0
IsTight start size bound = (size ≤ bound) × ((bound ≡ start) ⊎ (bound < size * 4))

grown :
    (start size bound : ℕ)
    → start < size
    → IsTight (start * 4) size bound
    → IsTight start size bound
grown start size bound h (le, inl e) = (le, inr (omega (arith, h, e)))
grown start size bound h (le, inr lt) = (le, inr lt)

grow-IsTight :
    (fuel size start : ℕ)
    → 0 < start
    → size ≤ start + fuel
    → IsTight start size (grow fuel size start)
unfolding grow
grow-IsTight zero size start p h = (omega (arith, h), inl refl)
grow-IsTight (suc fuel) size start p h = elim (Bool-cases (ltb start size)) [
  | inl y ↦
      rw (grow, y)
        (grown start size (grow fuel size (start * 4)) (ltb→lt start size y)
          (grow-IsTight fuel size (start * 4) (omega (arith, p)) (omega (arith, p, h))))
  | inr n ↦ rw (grow, n) (ground (arith, n), inl refl)
]

-- The loop ends, at a bound that the size does not exceed; the bound is the smallest one, or less
-- than four times the size.
pub bucket_bound-IsTight :
    (size : ℕ)
    → (size ≤ bucket_bound size) × ((bucket_bound size ≡ 16) ⊎ (bucket_bound size < size * 4))
unfolding bucket_bound
bucket_bound-IsTight size = grow-IsTight size size 16 (omega arith) (omega arith)

near :
    (m n b c : ℕ)
    → b ≡ c
    → IsTight 16 m b
    → IsTight 16 n c
    → ((m ≤ 16) × (n ≤ 16)) ⊎ ((m < n * 4) × (n < m * 4))
near m n b c e (lm, inl x) (ln, y) = inl (omega (arith, e, lm, x), omega (arith, e, ln, x))
near m n b c e (lm, inr x) (ln, inl y) = inl (omega (arith, e, lm, y), omega (arith, e, ln, y))
near m n b c e (lm, inr x) (ln, inr y) = inr (omega (arith, e, lm, y), omega (arith, e, ln, x))

-- Two sizes with one bound are both small, or each is less than four times the other.
pub same_bucket :
    (m n : ℕ)
    → bucket_bound m ≡ bucket_bound n
    → ((m ≤ 16) × (n ≤ 16)) ⊎ ((m < n * 4) × (n < m * 4))
same_bucket m n h =
    let tight_m = bucket_bound-IsTight m in
    let tight_n = bucket_bound-IsTight n in
    near m n (bucket_bound m) (bucket_bound n) h tight_m tight_n
