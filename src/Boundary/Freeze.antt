-- ===== src/Boundary/Freeze.antt =====
-- minireplay/boundary.py: what `freeze_source_cutoff` leaves.
use minireplayer.Prelude.{
  ℕ, suc, String, ◌≡◌, refl, sym, ap, ◌∙◌, ◌⊎◌, inl, inr, Bool, false, not, Option, none, some,
  List, [], ◌∷◌, map, Result, ok, raise, length, In, elem, elem_of_In, any, pair_eq, string_eq,
  Subset, Dict, subst, lookup, Bool-cases, Option-cases, some_inj, ◌==◌,
}
use minireplayer.Json.{Fields}
use minireplayer.Boundary.{kind_eq, Python, Identity, Reservation, Ledger, Action, continue}
use minireplayer.Boundary.Life.{continue-lem}
use minireplayer.Boundary.Complete.{logical_arguments, under, identity}
use minireplayer.Boundary.Cutoff.{freeze_source_cutoff, freeze_each, truncate}
use minireplayer.Boundary.Account.{has_unexpected_active, reserved_identity}

-- An action that answers has gone through its next part.
continue-ok :
    {A B : Type 0} (P : Ledger → B → Type 0) (done : Ledger × Result A) (next : A → Action B)
    → ((a : A) → done.1 ≡ ok a → (b : B) → (next a done.0).1 ≡ ok b → P (next a done.0).0 b)
    → (b : B) → (continue done next).1 ≡ ok b
    → P (continue done next).0 b
unfolding continue
continue-ok P (l, ok a) next k b h = k a refl b h
continue-ok P (l, raise e) next k b h = cc

-- the loop over `rs` from `l` has truncated all of them, and given each a tail
abbrev pub IsFrozen : Ledger → Dict String Reservation → Ledger → List Fields → Type 0
IsFrozen l rs l' tails =
    (l'.active ≡ l.active)
    × (length tails ≡ length rs)
    × ((i : Identity) → In i (map reserved_identity rs) ⊎ In i l.truncated → In i l'.truncated)

shift : {A : Type 0} (i x : A) (xs ts : List A) → In i (x ∷ xs) ⊎ In i ts → In i xs ⊎ In i (x ∷ ts)
shift i x xs ts (inl (inl e)) = inr (inl e)
shift i x xs ts (inl (inr m)) = inl m
shift i x xs ts (inr m) = inr (inr m)

ok_inj : {A : Type 0} {x y : A} → ok x ≡ ok y → x ≡ y
ok_inj h = cc

freeze_each-IsFrozen :
    (py : Python) (cutoff : ℕ) (rs : Dict String Reservation) (l : Ledger) (tails : List Fields)
    → (freeze_each py cutoff rs l).1 ≡ ok tails
    → IsFrozen l rs (freeze_each py cutoff rs l).0 tails
unfolding freeze_each truncate
freeze_each-IsFrozen py cutoff [] l tails h =
    (refl, ap length (sym (ok_inj h)), λ i m. elim m [ inl n ↦ absurd n | inr n ↦ n ])
freeze_each-IsFrozen py cutoff ((i, r) ∷ rest) l tails h =
    continue-ok (IsFrozen l ((i, r) ∷ rest)) (truncate cutoff r l, logical_arguments py l r.request)
      _
      (λ (arguments, workspace) h₁.
        continue-ok (IsFrozen l ((i, r) ∷ rest)) (freeze_each py cutoff rest (truncate cutoff r l))
          _
          (λ ts h₂ b h₃.
            let ih = freeze_each-IsFrozen py cutoff rest (truncate cutoff r l) ts h₂ in
            (
              ih.0,
              ap length (sym (ok_inj h₃)) ∙ ap suc ih.1,
              λ j m. ih.2 j (shift j _ (map reserved_identity rest) l.truncated m),
            )))
      tails h

any-none :
    {A : Type 0} (p : A → Bool) (xs : List A) → ((a : A) → In a xs → p a ≡ false) → any p xs ≡ false
unfolding any
any-none p [] k = refl
any-none p (x ∷ xs) k = rw (k x (inl refl)) (any-none p xs (λ a m. k a (inr m)))

-- A freeze that answers leaves the same reservations active, writes one tail for each of them, and
-- has marked all of them truncated, so that no operation is active unexpectedly.
pub freeze-IsFrozen :
    (py : Python) (cutoff : ℕ) (l : Ledger) (tails : List Fields)
    → (freeze_source_cutoff py cutoff l).1 ≡ ok tails
    → IsFrozen l l.active (freeze_source_cutoff py cutoff l).0 tails
      × (has_unexpected_active (freeze_source_cutoff py cutoff l).0 ≡ false)
unfolding freeze_source_cutoff has_unexpected_active
freeze-IsFrozen py cutoff l tails h =
    let l₁ = record l { source_cutoff_at_ns = some cutoff } in
    let l' = (freeze_each py cutoff l.active l₁).0 in
    let frozen = freeze_each-IsFrozen py cutoff l.active l₁ tails h in
    (
      frozen,
      any-none (λ i. not (elem i l'.truncated)) (map reserved_identity l'.active)
          (λ i m. ap not (
            elem_of_In i l'.truncated
              (frozen.2 i (inl (subst (λ a. In i (map reserved_identity a)) frozen.0 m))))),
    )

lookup-In :
    (i : String) (r : Reservation) (m : Dict String Reservation)
    → lookup i m ≡ some r
    → In (identity r) (map reserved_identity m)
unfolding lookup
lookup-In i r [] h = cc
lookup-In i r ((j, x) ∷ m) h = elim (Bool-cases (i == j)) [
  | inl y ↦ inl (ap identity (sym (some_inj (rw y at h))))
  | inr n ↦ inr (lookup-In i r m (rw n at h))
]

pub under-some :
    (n : Option String) (m : Dict String Reservation) (i : String) (r : Reservation)
    → under n m ≡ some (i, r)
    → In (identity r) (map reserved_identity m)
under-some none m i r h = cc
under-some (some j) m i r h = elim (Option-cases (lookup j m)) [
  | inl g ↦ cc
  | inr (x, g) ↦
      subst (λ y. In (identity y) (map reserved_identity m)) (ap (λ p. p.1) (some_inj (rw g at h)))
        (lookup-In j x m g)
]

-- A freeze, also one that raises, keeps what was truncated.
freeze_each-Subset :
    (py : Python) (cutoff : ℕ) (rs : Dict String Reservation) (l : Ledger)
    → Subset l.truncated (freeze_each py cutoff rs l).0.truncated
unfolding freeze_each truncate
freeze_each-Subset py cutoff [] l i m = m
freeze_each-Subset py cutoff ((j, r) ∷ rest) l i m =
    let P : Ledger → Type 0 = λ l'. In i l'.truncated in
    continue-lem P (truncate cutoff r l, logical_arguments py l r.request) _ (inr m)
      (λ (arguments, workspace) l₁ m₁.
        continue-lem P (freeze_each py cutoff rest l₁) _ (freeze_each-Subset py cutoff rest l₁ i m₁)
          (λ tails l₂ m₂. m₂))

pub freeze-Subset :
    (py : Python) (cutoff : ℕ) (l : Ledger)
    → Subset l.truncated (freeze_source_cutoff py cutoff l).0.truncated
unfolding freeze_source_cutoff
freeze-Subset py cutoff l =
    freeze_each-Subset py cutoff l.active (record l { source_cutoff_at_ns = some cutoff })
