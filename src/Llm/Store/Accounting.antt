-- ===== src/Llm/Store/Accounting.antt =====
-- minireplay/llm_store.py: how the questions about a replay's progress hang together.
use minireplayer.Prelude.{
  ℕ, zero, suc, ◌<◌, String, ◌≡◌, refl, sym, ap, ◌∙◌, subst, inl, inr, Bool, true, false, not, ◌&&◌,
  Option, none, some, List, [], ◌∷◌, Result, ok, length, take, get_elem?, lookup, lookup_or, all,
  any, elem, In, In-of_elem, all_of_In, and_iff, Bool-cases, ltb, ltb→lt, arith, Dict, ◌==◌,
  string_eq, pair_eq, ok_injective,
}
use minireplayer.Boundary.Account.{all_of, ran_for}
use minireplayer.Boundary.Accounting.{and_then-true, queue_if, replay_if}
use minireplayer.Llm.Slot.{Slot}
use minireplayer.Llm.Store.{Lane, Store}
use minireplayer.Llm.Store.Account.{
  is_delivered, queue_delivered, tail_ran, expected_complete, slot_settled, queue_settled,
  actor_expected_complete, slot_entered, queue_entered, actor_expected_prefix_consumed, missing,
  assert_consumed,
}
use minireplayer.Llm.Store.Lanes.{queue, place}
use minireplayer.Llm.Store.Run.{World, PassedId, IsSound}

any-not :
    {A : Type 0} (p : A → Bool) (xs : List A) → all p xs ≡ true → any (λ x. not (p x)) xs ≡ false
unfolding all any
any-not p [] h = refl
any-not p (x ∷ xs) h = let both = (and_iff (p x) (all p xs)).0 h in rw both.0 (any-not p xs both.1)

missing-none :
    (s : Store) (qs : Dict Lane (List Slot)) → all (queue_delivered s) qs ≡ true → missing s qs ≡ []
unfolding missing all
missing-none s [] h = refl
missing-none s ((k, q) ∷ qs) h =
    let both = (and_iff (all (is_delivered s) q) (all (queue_delivered s) qs)).0 h in
    rw (any-not (is_delivered s) q both.0) (missing-none s qs both.1)

-- A store whose recorded requests and tails are complete passes the check at teardown.
pub expected_complete-consumed :
    (now : ℕ) (s : Store) → expected_complete now s ≡ true → assert_consumed s ≡ ok tt
unfolding expected_complete assert_consumed
expected_complete-consumed now s h =
    let rest =
      ((and_iff s.setting.replay
          (all (queue_delivered s) s.expected && all (tail_ran now s) s.truncated_elapsed)).0
        h).1 in
    rw
      (missing-none s s.expected
        ((and_iff (all (queue_delivered s) s.expected) (all (tail_ran now s) s.truncated_elapsed)).0
          rest).0)
      refl

all_of-In :
    {A : Type 0} (f : A → Result Bool) (xs : List A)
    → all_of f xs ≡ ok true
    → (a : A) → In a xs
    → f a ≡ ok true
unfolding all_of
all_of-In f [] h a m = absurd m
all_of-In f (x ∷ xs) h a (inl e) = ap f e ∙ (and_then-true (f x) (all_of f xs) h).0
all_of-In f (x ∷ xs) h a (inr m) = all_of-In f xs (and_then-true (f x) (all_of f xs) h).1 a m

-- each recorded attempt has its own identifier
abbrev pub IsUnique : Store → Type 0
IsUnique s =
    (j k : Lane) (a b : ℕ) (d e : Slot)
    → get_elem? (queue j s) a ≡ some d
    → get_elem? (queue k s) b ≡ some e
    → d.attempt_id ≡ e.attempt_id
    → (j ≡ k) × (a ≡ b)

-- each lane has one queue
abbrev pub IsDict : Dict Lane (List Slot) → Type 0
IsDict qs = (k : Lane) (q : List Slot) → In (k, q) qs → lookup_or k [] qs ≡ q

In-take_elem :
    {A : Type 0} (n : ℕ) (xs : List A) (x : A)
    → In x (take n xs)
    → (i : ℕ) × (i < n) × (get_elem? xs i ≡ some x)
In-take_elem zero xs x m = absurd m
In-take_elem (suc n) [] x m = absurd m
In-take_elem (suc n) (y ∷ xs) x (inl e) = (0, omega arith, ap some (sym e))
In-take_elem (suc n) (y ∷ xs) x (inr m) =
    let (i, l, g) = In-take_elem n xs x m in (suc i, omega (arith, l), g)

get_elem-below :
    {A : Type 0} (xs : List A) (i : ℕ)
    → i < length xs
    → (x : A) × (get_elem? xs i ≡ some x) × In x xs
get_elem-below [] i h = absurd (omega (arith, h))
get_elem-below (x ∷ xs) zero h = (x, refl, inl refl)
get_elem-below (x ∷ xs) (suc i) h =
    let (y, g, m) = get_elem-below xs i (omega (arith, h)) in (y, g, inr m)

ran_for-started :
    (now : ℕ) (started required : Option ℕ)
    → ran_for now started required ≡ ok true
    → (n : ℕ) × (started ≡ some n)
ran_for-started now (some n) (some r) h = (n, refl)
ran_for-started now none (some r) h = cc
ran_for-started now started none h = cc

module _ (now : ℕ) (w : World) (sound : IsSound w) where
  abbrev s : Store
  s = w.store

  settled-PassedId :
      (e : Slot)
      → slot_settled now s e ≡ ok true
      → PassedId s e.attempt_id × (slot_entered s e ≡ true)
  unfolding slot_settled slot_entered is_delivered
  settled-PassedId e h =
      let (a, (b, (c, (d, t)))) = sound in
      elim (Bool-cases (elem e.attempt_id s.truncated)) [
        | inl y ↦
            let (n, q) =
              ran_for-started now _ (lookup e.attempt_id s.truncated_elapsed) (rw y at h) in
            (t e.attempt_id n q, rw (y, q) refl)
        | inr f ↦
            let (x, i, p, v) = c e.attempt_id (
              d e.attempt_id
                (In-of_elem e.attempt_id s.delivered (ok_injective _ true (rw f at h)))) in
            ((x, i, p), rw f refl)
      ]

  module _ (unique : IsUnique s) where
    -- no request of a settled queue is left to be handed over
    all_handed :
        (k : Lane)
        → ((e : Slot) → In e (queue k s) → slot_settled now s e ≡ ok true)
        → (b : Bool) → ltb (place k s) (length (queue k s)) ≡ b
        → not b ≡ true
    all_handed k h false l = refl
    all_handed k h true l =
        let (e, g, m) = get_elem-below (queue k s) (place k s) (ltb→lt _ _ l) in
        let (x, i, (j, p)) = (settled-PassedId e (h e m)).0 in
        let (b, less, g') = In-take_elem (place j s) (queue j s) x p in
        let (lane, same) = unique k j (place k s) b e x g g' i in
        absurd (omega (arith, same, less, ap (λ n. place n s) lane))

    actor_queue-entered :
        (actor : String) (k : Lane) (q : List Slot)
        → lookup_or k [] s.expected ≡ q
        → queue_settled now actor s (k, q) ≡ ok true
        → queue_entered actor s (k, q) ≡ true
    actor_queue-entered actor k q d h =
        queue_if (k.0 == actor) _ (all_of (slot_settled now s) q)
          (λ r.
            let each = all_of-In (slot_settled now s) q r in
            (and_iff _ _).1 (
              subst (λ x. not (ltb (place k s) (length x)) ≡ true) d
                  (all_handed k (λ e m. each e (subst (In e) d m))
                    (ltb (place k s) (length (queue k s))) refl),
              all_of_In (slot_entered s) q (λ e m. (settled-PassedId e (each e m)).1),
            ))
          h

-- In a state that a replay can reach, with each attempt identifier recorded once, an actor whose
-- recorded requests and tails are complete has been handed all its requests.
pub actor_complete-prefix :
    (now : ℕ) (w : World) (actor : String)
    → IsSound w
    → IsUnique w.store
    → IsDict w.store.expected
    → actor_expected_complete now actor w.store ≡ ok true
    → actor_expected_prefix_consumed actor w.store ≡ true
unfolding actor_expected_complete actor_expected_prefix_consumed
actor_complete-prefix now w actor sound unique dict h =
    replay_if w.store.setting.replay _ (all_of (queue_settled now actor w.store) w.store.expected)
      (λ r. all_of_In (queue_entered actor w.store) w.store.expected (λ (k, q) m.
        actor_queue-entered now w sound unique actor k q (dict k q m)
          (all_of-In (queue_settled now actor w.store) w.store.expected r (k, q) m)))
      h
