-- ===== src/Services/Finished.antt =====
-- minireplay/services.py: when a replay is over.
use minireplayer.Prelude.{
  ℕ, String, ◌≡◌, refl, sym, subst, Bool, true, false, ◌&&◌, ◌||◌, none, some, List, [], ◌∷◌, ok,
  elem, Subset, and_iff, get_elem?, lookup_or, string_eq, pair_eq, ok_injective, ◌⊎◌, inl, inr,
  Dict, In, Bool-cases, ◌==◌, lookup, not, ltb, length, zero, suc, arith, In-of_all, beq_refl, all,
  ap₂, some_inj, Option-cases,
}
use minireplayer.Json.{Fields}
use minireplayer.Boundary.{Python}
use minireplayer.Boundary.Account.{and_then}
use minireplayer.Boundary.Account as Operations
use minireplayer.Boundary.Accounting as OperationsAccounting
use minireplayer.Boundary.Accounting.{and_then-true}
use minireplayer.Llm.Store.{RequestIdentity, Lane, key, Store}
use minireplayer.Llm.Store.Claim.{claim, claim_past}
use minireplayer.Llm.Store.Replay.{held, handle}
use minireplayer.Llm.Store.Account as Requests
use minireplayer.Llm.Store.Accounting as RequestsAccounting
use minireplayer.Llm.Store.Accounting.{IsUnique, IsDict}
use minireplayer.Llm.Store.Run.{World, IsSound}
use minireplayer.Services.{
  Services, expected_complete, cutoff_actor_complete, cutoff_actor_prefix_consumed, is_over,
  has_unexpected_active, assert_consumed,
}

-- A replay whose two services are complete, with no unexpected operation active, passes the check at
-- teardown.
pub complete-assert_consumed :
    (py : Python) (now later : ℕ) (r : Services)
    → expected_complete py now later r ≡ true
    → has_unexpected_active r ≡ false
    → assert_consumed py r ≡ ok tt
unfolding expected_complete has_unexpected_active assert_consumed
complete-assert_consumed py now later r h u =
    let (b, l) =
      (and_iff (Operations.expected_complete py now r.boundary)
          (Requests.expected_complete later r.llm)).0
        h in
    rw
      (
        OperationsAccounting.expected_complete-consumed py now r.boundary b u,
        RequestsAccounting.expected_complete-consumed later r.llm l,
      )
      refl

-- An actor that was open at the source's cutoff and is complete in both services has entered all its
-- recorded work, when the ledger has delivered only what it completed, and the store is in a state
-- that a replay reaches and holds each attempt once.
pub actor_complete-prefix_consumed :
    (py : Python) (now later : ℕ) (actor : String) (r : Services) (w : World)
    → Subset r.boundary.delivered r.boundary.completed
    → w.store ≡ r.llm
    → IsSound w
    → IsUnique r.llm
    → IsDict r.llm.expected
    → cutoff_actor_complete py now later actor r ≡ ok true
    → cutoff_actor_prefix_consumed py actor r ≡ true
unfolding cutoff_actor_complete cutoff_actor_prefix_consumed
actor_complete-prefix_consumed py now later actor r w sub same sound unique dict h =
    let (known, rest) = and_then-true (ok (elem actor r.cutoff_actors)) _ h in
    let (b, l) =
      and_then-true (Operations.actor_expected_complete py now actor r.boundary) _ rest in
    (and_iff _ _).1 (
      ok_injective _ _ known,
      (and_iff _ _).1 (
        OperationsAccounting.actor_complete-prefix py now actor r.boundary sub b,
        subst (λ s. Requests.actor_expected_prefix_consumed actor s ≡ true) same
            (RequestsAccounting.actor_complete-prefix later w actor sound
              (subst IsUnique (sym same) unique)
              (subst (λ (s : Store). IsDict s.expected) (sym same) dict)
              (subst (λ s. Requests.actor_expected_complete later actor s ≡ ok true) (sym same) l)),
      ),
    )

lookup-pair : {V : Type 0} (k : Lane) (v : V) (m : Dict Lane V) → lookup k m ≡ some v → In (k, v) m
unfolding lookup
lookup-pair k v [] h = cc
lookup-pair {V} k v ((j, w) ∷ m) h = elim (Bool-cases (k == j)) [
  | inl y ↦
      inl (
        ap₂ (λ (x : Lane) (z : V). (x, z)) ((pair_eq.beq_iff k j).0 y) (sym (some_inj (rw y at h))))
  | inr n ↦ inr (lookup-pair k v m (rw n at h))
]

lookup_or-In :
    {V : Type 0} (k : Lane) (m : Dict Lane (List V))
    → (lookup_or k [] m ≡ []) ⊎ In (k, lookup_or k [] m) m
unfolding lookup_or
lookup_or-In k m = elim (Option-cases (lookup k m)) [
  | inl n ↦ inl (rw (lookup_or, n) refl)
  | inr (q, e) ↦ inr (rw (lookup_or, e) (lookup-pair k q m e))
]

get_elem-above :
    {A : Type 0} (xs : List A) (i : ℕ) → not (ltb i (length xs)) ≡ true → get_elem? xs i ≡ none
get_elem-above [] i h = refl
get_elem-above (x ∷ xs) zero h = ground (arith, h)
get_elem-above (x ∷ xs) (suc i) h = get_elem-above xs i (ground (arith, h))

-- an actor that has entered its prefix has nothing left in any of its lanes
lane_over :
    (s : Store) (k : Lane)
    → Requests.actor_expected_prefix_consumed k.0 s ≡ true
    → get_elem? (lookup_or k [] s.expected) (lookup_or k 0 s.replay_sequence) ≡ none
unfolding Requests.actor_expected_prefix_consumed
lane_over s k h = elim (lookup_or-In k s.expected) [
  | inl e ↦ rw e refl
  | inr m ↦
      let each =
        In-of_all (Requests.queue_entered k.0 s) s.expected ((and_iff s.setting.replay _).0 h).1 _
          m in
      get_elem-above (lookup_or k [] s.expected) (lookup_or k 0 s.replay_sequence) (
        left (k.0 == k.0) _ (all (Requests.slot_entered s) (lookup_or k [] s.expected))
          (beq_refl k.0) each)
]
  where
    left : (b c d : Bool) → b ≡ true → (not b || (c && d)) ≡ true → c ≡ true
    left b c d e h = ground (arith, e, h)

over_prefix :
    (py : Python) (now later : ℕ) (r : Services) (actor : String)
    → cutoff_actor_prefix_consumed py actor r ≡ true
    → is_over py now later r actor ≡ true
unfolding is_over
over_prefix py now later r actor h = rw h (or_true (expected_complete py now later r))
  where
    or_true : (b : Bool) → (b || true) ≡ true
    or_true true = refl
    or_true false = refl

-- Once an actor that was open at the source's cutoff has entered all its recorded work, every further
-- model request of it is held: it is neither answered nor an error.
pub prefix_consumed-held :
    (py : Python) (now later : ℕ) (r : Services) (i : RequestIdentity) (body : Fields)
    (api : String)
    → cutoff_actor_prefix_consumed py i.actor_id r ≡ true
    → (handle py (is_over py now later r) i body api r.llm).1 ≡ held
unfolding cutoff_actor_prefix_consumed handle claim claim_past
prefix_consumed-held py now later r i body api h =
    let both = (and_iff (elem i.actor_id r.cutoff_actors) _).0 h in
    let requests =
      ((and_iff (Operations.actor_expected_prefix_consumed py i.actor_id r.boundary) _).0
        both.1).1 in
    rw (lane_over r.llm (key i) requests, over_prefix py now later r i.actor_id h) refl
