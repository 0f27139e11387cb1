-- ===== src/Forced/Audit/Settled.antt =====
-- minireplay/forced.py: what the reader's futures are settled with.
use minireplayer.Prelude.{
  ℕ, String, ◌≡◌, refl, sym, ◌∙◌, subst, ◌⊎◌, inl, inr, false, Option, none, some, List, [], ◌∷◌,
  Result, In, lookup, insert, remove, lookup-insert, lookup-remove, nat_beq, nat_eq, nat_beq_iff,
  string_eq, Bool-cases, ◌==◌, Dict,
}
use minireplayer.Json.{Fields}
use minireplayer.Forced.Audit.{Reader, settle_if_open, settle, settle_all, futures_of}

abbrev pub IsSettled : ℕ → Reader → Type 0
IsSettled f r = (x : Result Fields) × (lookup f r.settled ≡ some x)

abbrev pub Waits : String → ℕ → Reader → Type 0
Waits i f r = In f (futures_of (lookup i r.waiters))

-- What `settle` and `settle_all` keep: who was seen, who waits, and who was settled.
abbrev pub Settles : Reader → Reader → Type 0
Settles r r' =
    (r'.seen ≡ r.seen) × ((r'.waiters ≡ r.waiters) × ((f : ℕ) → IsSettled f r → IsSettled f r'))

inserted :
    (f g : ℕ) (x : Result Fields) (m : Dict ℕ (Result Fields))
    → (g ≡ f) ⊎ ((y : Result Fields) × (lookup g m ≡ some y))
    → (y : Result Fields) × (lookup g (insert f x m) ≡ some y)
inserted f g x m h = elim (Bool-cases (nat_beq g f)) [
  | inl e ↦ (x, lookup-insert g f x m ∙ rw e refl)
  | inr n ↦ elim h [
    | inl e ↦ absurd (cc (n, (nat_beq_iff g f).1 e))
    | inr (y, e) ↦ (y, lookup-insert g f x m ∙ rw n e)
  ]
]

settle_if-Settles :
    (o : Option (Result Fields)) (f : ℕ) (x : Result Fields) (r : Reader)
    → lookup f r.settled ≡ o
    → Settles r (settle_if_open o f x r) × IsSettled f (settle_if_open o f x r)
settle_if-Settles none f x r h =
    ((refl, (refl, λ g s. inserted f g x r.settled (inr s))), inserted f f x r.settled (inl refl))
settle_if-Settles (some y) f x r h = ((refl, (refl, λ g s. s)), (y, h))

pub settle-Settles :
    (f : ℕ) (x : Result Fields) (r : Reader) → Settles r (settle f x r) × IsSettled f (settle f x r)
unfolding settle
settle-Settles f x r = settle_if-Settles (lookup f r.settled) f x r refl

Settles-trans : (r s t : Reader) → Settles r s → Settles s t → Settles r t
Settles-trans r s t (a, (b, c)) (d, (e, f)) = (d ∙ a, (e ∙ b, λ g h. f g (c g h)))

pub settle_all-Settles :
    (fs : List ℕ) (x : Result Fields) (r : Reader)
    → Settles r (settle_all fs x r) × ((f : ℕ) → In f fs → IsSettled f (settle_all fs x r))
unfolding settle_all
settle_all-Settles [] x r = ((refl, (refl, λ g s. s)), λ f m. absurd m)
settle_all-Settles (f ∷ fs) x r =
    let (first, done) = settle-Settles f x r in
    let (rest, all_done) = settle_all-Settles fs x (settle f x r) in
    (
      Settles-trans r (settle f x r) (settle_all fs x (settle f x r)) first rest,
      λ g m. elim m [
        | inl e ↦ rest.1.1 g (subst (λ k. IsSettled k (settle f x r)) (sym e) done)
        | inr n ↦ all_done g n
      ],
    )

pub remove_other :
    (j i : String) (m : Dict String (List ℕ))
    → (j == i) ≡ false
    → lookup j (remove i m) ≡ lookup j m
remove_other j i m n = lookup-remove j i m ∙ rw n refl

pub remove_same : (i : String) (m : Dict String (List ℕ)) → lookup i (remove i m) ≡ none
remove_same i m = lookup-remove i i m ∙ rw ((string_eq.beq_iff i i).1 refl) refl

pub insert_other :
    (j i : String) (x : List ℕ) (m : Dict String (List ℕ))
    → (j == i) ≡ false
    → lookup j (insert i x m) ≡ lookup j m
insert_other j i x m n = lookup-insert j i x m ∙ rw n refl

pub insert_same :
    (i : String) (x : List ℕ) (m : Dict String (List ℕ)) → lookup i (insert i x m) ≡ some x
insert_same i x m = lookup-insert i i x m ∙ rw ((string_eq.beq_iff i i).1 refl) refl
