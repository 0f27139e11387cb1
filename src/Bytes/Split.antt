-- ===== src/Bytes/Split.antt =====
-- Splitting at the first occurrence of a separator.
use minireplayer.Prelude.{
  ℕ, suc, ◌+◌, ◌≤◌, ◌≡◌, refl, sym, ap, ◌∙◌, inl, inr, Option, none, some, [], ◌∷◌, ◌++◌, nat_beq,
  Bool-cases, some_inj, length, arith, subst,
}
use minireplayer.Bytes.{Bytes, Lacks, after, extend_before, here_or, split_at}

pub after-append : (p s t r : Bytes) → after p s ≡ some r → after p (s ++ t) ≡ some (r ++ t)
unfolding after
after-append [] s t r h = ap (λ x. some (x ++ t)) (some_inj h)
after-append (c ∷ p) [] t r h = cc
after-append (c ∷ p) (d ∷ s) t r h = ground (arith, after-append p s t r)

-- a text that is long enough does not come to start with `p` by what follows it
pub after-append_none :
    (p s t : Bytes) → length p ≤ length s → after p s ≡ none → after p (s ++ t) ≡ none
unfolding after
after-append_none [] s t l h = cc
after-append_none (c ∷ p) [] t l h = absurd (ground (arith, l))
after-append_none (c ∷ p) (d ∷ s) t l h = ground (arith, after-append_none p s t, l)

after-rest : (p s r : Bytes) (d : ℕ) → after p s ≡ some r → Lacks d s → Lacks d r
unfolding after
after-rest [] s r d h l = subst (Lacks d) (some_inj h) l
after-rest (c ∷ p) [] r d h l = cc
after-rest (c ∷ p) (e ∷ s) r d h l = elim (Bool-cases (nat_beq c e)) [
  | inl y ↦ after-rest p s r d (rw y at h) l.1
  | inr n ↦ cc (rw n at h)
]

length-after : (p s r : Bytes) → after p s ≡ some r → length s ≡ length p + length r
unfolding after
length-after [] s r h = omega (arith, ap length (some_inj h))
length-after (c ∷ p) [] r h = cc
length-after (c ∷ p) (d ∷ s) r h = ground (arith, length-after p s r)

-- what a split of a text that is not empty has found
data IsFirst (p : Bytes) (c : ℕ) (t before rest : Bytes) : Type 0 where
  here : after p (c ∷ t) ≡ some rest → before ≡ [] → IsFirst p c t before rest
  later :
      (b : Bytes)
      → after p (c ∷ t) ≡ none
      → before ≡ c ∷ b
      → split_at p t ≡ some (b, rest)
      → IsFirst p c t before rest

extend-some :
    (c : ℕ) (o : Option (Bytes × Bytes)) (x : Bytes × Bytes)
    → extend_before c o ≡ some x
    → (b : Bytes) × (o ≡ some (b, x.1)) × (x.0 ≡ c ∷ b)
extend-some c none x h = cc
extend-some c (some (b, r)) x h = (b, cc, cc)

here_or-IsFirst :
    (p t : Bytes) (c : ℕ) (o : Option Bytes) (b r : Bytes)
    → after p (c ∷ t) ≡ o
    → here_or o (extend_before c (split_at p t)) ≡ some (b, r)
    → IsFirst p c t b r
here_or-IsFirst p t c none b r g h =
    let e = extend-some c (split_at p t) (b, r) h in later e.0 g e.2 e.1
here_or-IsFirst p t c (some s) b r g h =
    here (g ∙ ap some (ap (λ x. x.1) (some_inj h))) (sym (ap (λ x. x.0) (some_inj h)))

split_at-IsFirst :
    (p t : Bytes) (c : ℕ) (b r : Bytes) → split_at p (c ∷ t) ≡ some (b, r) → IsFirst p c t b r
unfolding split_at
split_at-IsFirst p t c b r h = here_or-IsFirst p t c _ b r refl h

split_at-nil : (p b r : Bytes) → split_at p [] ≡ some (b, r) → ⊥
unfolding split_at
split_at-nil p b r h = cc

length-first :
    (p : Bytes) (c : ℕ) (t b r : Bytes)
    → ((b' : Bytes) → split_at p t ≡ some (b', r) → length t ≡ length b' + (length p + length r))
    → IsFirst p c t b r
    → suc (length t) ≡ length b + (length p + length r)
length-first p c t b r ih (here g e) = omega (arith, length-after p (c ∷ t) r g, ap length e)
length-first p c t b r ih (later b' g e h) = omega (arith, ih b' h, ap length e)

-- a split takes the separator and what stands before it
pub length-split_at :
    (p s b r : Bytes) → split_at p s ≡ some (b, r) → length s ≡ length b + (length p + length r)
length-split_at p [] b r h = absurd (split_at-nil p b r h)
length-split_at p (c ∷ t) b r h =
    length-first p c t b r (λ b' g. length-split_at p t b' r g) (split_at-IsFirst p t c b r h)

first-append :
    (p : Bytes) (c : ℕ) (s t b r : Bytes)
    → ((b' : Bytes) → split_at p s ≡ some (b', r) → split_at p (s ++ t) ≡ some (b', r ++ t))
    → IsFirst p c s b r
    → split_at p ((c ∷ s) ++ t) ≡ some (b, r ++ t)
unfolding split_at
first-append p c s t b r ih (here g e) =
    rw (after-append p (c ∷ s) t r g) (ap (λ x. some (x, r ++ t)) (sym e))
first-append p c s t b r ih (later b' g e h) =
    rw (after-append_none p (c ∷ s) t (omega (arith, length-split_at p s b' r h)) g, ih b' h)
      (ap (λ x. some (x, r ++ t)) (sym e))

-- what comes after a separator that was found changes nothing before it
pub split_at-append :
    (p s t b r : Bytes) → split_at p s ≡ some (b, r) → split_at p (s ++ t) ≡ some (b, r ++ t)
split_at-append p [] t b r h = absurd (split_at-nil p b r h)
split_at-append p (c ∷ s) t b r h =
    first-append p c s t b r (λ b' g. split_at-append p s t b' r g) (split_at-IsFirst p s c b r h)

after-Lacks : (p s : Bytes) (d : ℕ) → Lacks d s → after (d ∷ p) s ≡ none
unfolding after
after-Lacks p [] d l = refl
after-Lacks p (c ∷ s) d l = ground (arith, l.0)

-- a separator whose first byte does not occur is not found
pub split_at-Lacks : (p s : Bytes) (d : ℕ) → Lacks d s → split_at (d ∷ p) s ≡ none
unfolding split_at
split_at-Lacks p [] d l = refl
split_at-Lacks p (c ∷ s) d l = rw (after-Lacks p (c ∷ s) d l, split_at-Lacks p s d l.1) refl

first-Lacks :
    (p : Bytes) (c : ℕ) (s b r : Bytes) (d : ℕ)
    → ((b' : Bytes) → split_at p s ≡ some (b', r) → Lacks d r)
    → IsFirst p c s b r
    → Lacks d (c ∷ s)
    → Lacks d r
first-Lacks p c s b r d ih (here g e) l = after-rest p (c ∷ s) r d g l
first-Lacks p c s b r d ih (later b' g e h) l = ih b' h

-- what is left of a text without a byte is without it
pub rest-Lacks : (p s b r : Bytes) (d : ℕ) → split_at p s ≡ some (b, r) → Lacks d s → Lacks d r
rest-Lacks p [] b r d h l = absurd (split_at-nil p b r h)
rest-Lacks p (c ∷ s) b r d h l =
    first-Lacks p c s b r d (λ b' g. rest-Lacks p s b' r d g l.1) (split_at-IsFirst p s c b r h) l
