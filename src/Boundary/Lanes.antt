-- ===== src/Boundary/Lanes.antt =====
-- minireplay/boundary.py: what a run of claims hands over to each lane.
use mathlib.Core.List.{append_assoc}
use minireplayer.Prelude.{
  ℕ, String, ◌≡◌, refl, ap, ◌∙◌, inl, inr, Bool, false, some, List, [], ◌∷◌, ◌++◌, Result, ok,
  raise, Bool-cases, drop, get_elem?, lookup_or, handed-insert, if◌then◌else◌, ◌==◌, pair_eq,
  string_eq, option_eq, Eq, Dict,
}
use minireplayer.Json.{Fields}
use minireplayer.Boundary.{Kind, kind_eq, Python, Key, Ledger}
use minireplayer.Boundary.Claim.{claim, advance, intercept}
use minireplayer.Boundary.Order.{
  Claimed, granted, entered, blocked, refused, claim-Claimed, queue, place, tails, key_of,
}

-- one request for a claim, with what the window's state is for it
pub record Call : Type 0 where
  pub over : String → Bool
  pub kind : Kind
  pub actor : String
  pub payload : Fields

abbrev claim_call : Python → Call → Ledger → Ledger × Result Fields
claim_call py c l = claim py c.over c.kind c.actor c.payload l

-- the ledger after a run of claims
unfoldable pub after : Python → List Call → Ledger → Ledger
after py [] l = l
after py (c ∷ cs) l = after py cs (claim_call py c l).0

-- the record that a claim on the lane `j` hands over to the lane `k`
abbrev given_to : Key → Key → Result Fields → List Fields
given_to k j (ok e) = if k == j then e ∷ [] else []
given_to k j (raise _) = []

-- the records that a run of claims hands over to a lane
unfoldable pub handed : Python → Key → List Call → Ledger → List Fields
handed py k [] l = []
handed py k (c ∷ cs) l =
    given_to k (key_of py c.kind c.actor c.payload l) (claim_call py c l).1
    ++ handed py k cs (claim_call py c l).0

module _ {K : Type 0} ⦃e : Eq K⦄ (k j : K) where
  -- a lane without tails enters none
  not_own :
      (ts : Dict K (List Fields)) (i : ℕ) (x : Fields)
      → get_elem? (lookup_or j [] ts) i ≡ some x
      → lookup_or k [] ts ≡ []
      → e.beq k j ≡ false
  not_own ts i x h t = elim (Bool-cases (e.beq k j)) [
    | inl y ↦ absurd (cc (h, t, (e.beq_iff k j).0 y))
    | inr n ↦ n
  ]

-- what a claim leaves alone
claim-queues :
    (py : Python) (j : Key) (l l' : Ledger) (r : Result Fields)
    → Claimed py j l l' r
    → (l'.expected ≡ l.expected) × (l'.cutoff_expected ≡ l.cutoff_expected)
unfolding advance intercept
claim-queues py j l l' r (granted e h) = (refl, refl)
claim-queues py j l l' r (entered e g h c) = (refl, refl)
claim-queues py j l l' r (blocked e g h c) = (refl, refl)
claim-queues py j l l' r refused = (refl, refl)

claim-handed :
    (py : Python) (k j : Key) (l l' : Ledger) (r : Result Fields)
    → Claimed py j l l' r
    → tails k l ≡ []
    → given_to k j r ++ drop (place k l') (queue k l) ≡ drop (place k l) (queue k l)
unfolding advance intercept
claim-handed py k j l l' r (granted e h) t = handed-insert k j l.cursor l.expected e h
claim-handed py k j l l' r (entered e g h c) t =
    rw (not_own k j l.cutoff_expected (lookup_or j 0 l.cutoff_cursor) e h t) refl
claim-handed py k j l l' r (blocked e g h c) t = refl
claim-handed py k j l l' r refused t = refl

-- the queues and the tails are the same at the end of a run
after-queues :
    (py : Python) (cs : List Call) (l : Ledger)
    → ((after py cs l).expected ≡ l.expected)
      × ((after py cs l).cutoff_expected ≡ l.cutoff_expected)
unfolding after
after-queues py [] l = (refl, refl)
after-queues py (c ∷ cs) l =
    let rest = after-queues py cs (claim_call py c l).0 in
    let this = claim-queues py _ l _ _ (claim-Claimed py c.over c.kind c.actor c.payload l) in
    (rest.0 ∙ this.0, rest.1 ∙ this.1)

-- Whatever requests of whatever lanes come in whatever order, and however many of them are
-- refused: the records that a lane without cutoff tails has handed over, followed by the records
-- that are left of its queue at the end, are the records that were left at the start.
pub handed-after :
    (py : Python) (k : Key) (cs : List Call) (l : Ledger)
    → tails k l ≡ []
    → handed py k cs l ++ drop (place k (after py cs l)) (queue k (after py cs l))
      ≡ drop (place k l) (queue k l)
unfolding handed after
handed-after py k [] l t = refl
handed-after py k (c ∷ cs) l t =
    let l' = (claim_call py c l).0 in
    let fits = claim-Claimed py c.over c.kind c.actor c.payload l in
    let same = claim-queues py _ l _ _ fits in
    append_assoc _ (handed py k cs l') _
    ∙ ap (◌++◌ _) (
        handed-after py k cs l' (ap (lookup_or k []) same.1 ∙ t)
        ∙ ap (λ qs. drop (place k l') (lookup_or k [] qs)) same.0)
    ∙ claim-handed py k _ l _ _ fits t
