-- ===== src/Llm/Store/Tails.antt =====
-- minireplay/llm_store.py: the requests that are open at the cutoff.
use minireplayer.Prelude.{
  ℕ, String, ◌≡◌, refl, sym, ap, ◌∙◌, subst, ◌⊎◌, inl, inr, Bool, true, false, none, some, List, [],
  ◌∷◌, ◌++◌, map, In, lookup, insert, ltb, Dict, if◌then◌else◌, ◌==◌, string_eq, Bool-cases,
  some_inj,
}
use minireplayer.Json.{Value, Fields, int, put}
use minireplayer.Boundary.{Python}
use minireplayer.Llm.Store.{Store}
use minireplayer.Llm.Store.Record.{
  Call, Answer, attempt_line, write_attempt, write_lines, finish_inflight, is_late,
}
use minireplayer.Llm.Store.Account.{elapsed_of, freeze_each, freeze_source_cutoff}

abbrev ids : Dict String Fields → List String
ids m = map (λ (p : String × Fields). p.0) m

-- A freeze leaves what is open and what was written, and has truncated what was open.
abbrev pub IsFrozen : ℕ → Store → Dict String Fields → Store → List Fields → Type 0
IsFrozen cutoff s open' s' tails =
    (s'.inflight ≡ s.inflight)
    × (s'.attempts ≡ s.attempts)
    × (s'.source_cutoff_at_ns ≡ s.source_cutoff_at_ns)
    × (tails
        ≡ map (λ (p : String × Fields). put "elapsed_ns" (int (elapsed_of cutoff p.1)) p.1) open')
    × ((i : String) → In i (ids open') ⊎ In i s.truncated → In i s'.truncated)

freeze_each-IsFrozen :
    (cutoff : ℕ) (open' : Dict String Fields) (s : Store)
    → IsFrozen cutoff s open' (freeze_each cutoff open' s).0 (freeze_each cutoff open' s).1
unfolding freeze_each
freeze_each-IsFrozen cutoff [] s =
    (refl, refl, refl, refl, λ i m. elim m [ inl v ↦ absurd v | inr n ↦ n ])
freeze_each-IsFrozen cutoff ((j, entry) ∷ rest) s =
    let (a, b, c, d, e) = freeze_each-IsFrozen cutoff rest (record s {
      truncated = j ∷ s.truncated;
      truncated_elapsed = insert j (elapsed_of cutoff entry) s.truncated_elapsed;
    }) in
    (
      a,
      b,
      c,
      ap (◌∷◌ (put "elapsed_ns" (int (elapsed_of cutoff entry)) entry)) d,
      λ i m. e i (elim m [ inl (inl q) ↦ inr (inl q) | inl (inr n) ↦ inl n | inr n ↦ inr (inr n) ]),
    )

-- At the cutoff each request in flight gets one tail, in their order, with the time that it has run,
-- is marked as truncated, and stays in flight.
pub freeze_source_cutoff-IsFrozen :
    (cutoff : ℕ) (s : Store)
    → IsFrozen cutoff
        (record s { source_cutoff_at_ns = some cutoff })
        s.inflight
        (freeze_source_cutoff cutoff s).0
        (freeze_source_cutoff cutoff s).1
unfolding freeze_source_cutoff
freeze_source_cutoff-IsFrozen cutoff s =
    freeze_each-IsFrozen cutoff s.inflight (record s { source_cutoff_at_ns = some cutoff })

tail-In :
    (cutoff : ℕ) (i : String) (v : Fields) (m : Dict String Fields)
    → lookup i m ≡ some v
    → In
        (put "elapsed_ns" (int (elapsed_of cutoff v)) v)
        (map (λ (p : String × Fields). put "elapsed_ns" (int (elapsed_of cutoff p.1)) p.1) m)
unfolding lookup
tail-In cutoff i v [] h = cc
tail-In cutoff i v ((j, w) ∷ m) h = elim (Bool-cases (i == j)) [
  | inl y ↦
      inl (ap (λ x. put "elapsed_ns" (int (elapsed_of cutoff x)) x) (sym (some_inj (rw y at h))))
  | inr n ↦ inr (tail-In cutoff i v m (rw n at h))
]

lookup-In :
    {V : Type 0} (i : String) (v : V) (m : Dict String V)
    → lookup i m ≡ some v
    → In i (map (λ (p : String × V). p.0) m)
unfolding lookup
lookup-In i v [] h = cc
lookup-In i v ((j, w) ∷ m) h = elim (Bool-cases (i == j)) [
  | inl y ↦ inl ((string_eq.beq_iff i j).0 y)
  | inr n ↦ inr (lookup-In i v m (rw n at h))
]

late_at :
    (cutoff ended : ℕ) (s : Store)
    → s.source_cutoff_at_ns ≡ some cutoff
    → is_late ended s ≡ ltb cutoff ended
unfolding is_late
late_at cutoff ended s h = ap (λ o. elim o [ none ↦ false | some n ↦ ltb n ended ]) h

written :
    (py : Python) (dumps : Value → String) (span_id : String) (c : Call) (a : Answer) (cutoff : ℕ)
    (s : Store)
    → s.source_cutoff_at_ns ≡ some cutoff
    → (write_attempt py dumps span_id c a s).attempts ≡ (
        if ltb cutoff a.ended
        then s.attempts
        else s.attempts ++ attempt_line py dumps span_id c a ∷ [])
unfolding write_attempt write_lines finish_inflight
written py dumps span_id c a cutoff s h =
    pick (is_late a.ended s)
    ∙ ap (λ b. if b then s.attempts else s.attempts ++ attempt_line py dumps span_id c a ∷ [])
        (late_at cutoff a.ended s h)
  where
    pick :
        (b : Bool)
        → (if b
            then finish_inflight c.attempt_id s
            else write_lines py dumps span_id c a (finish_inflight c.attempt_id s)).attempts
          ≡ (if b then s.attempts else s.attempts ++ attempt_line py dumps span_id c a ∷ [])
    pick true = refl
    pick false = refl

keeps_truncated :
    (py : Python) (dumps : Value → String) (span_id : String) (c : Call) (a : Answer) (s : Store)
    → (write_attempt py dumps span_id c a s).truncated ≡ s.truncated
unfolding write_attempt write_lines finish_inflight
keeps_truncated py dumps span_id c a s = pick (is_late a.ended s)
  where
    pick :
        (b : Bool)
        → (if b
            then finish_inflight c.attempt_id s
            else write_lines py dumps span_id c a (finish_inflight c.attempt_id s)).truncated
          ≡ s.truncated
    pick true = refl
    pick false = refl

-- For a request that is in flight at the cutoff, the freeze answers with a tail: its entry with the
-- time that it has run. After its answer is written it is still marked as truncated, and the answer
-- has left no line if it ended after the cutoff, and its line as well if it had ended before.
pub frozen-write_attempt :
    (py : Python) (dumps : Value → String) (span_id : String) (c : Call) (a : Answer) (cutoff : ℕ)
    (s : Store) (entry : Fields)
    → lookup c.attempt_id s.inflight ≡ some entry
    → In (put "elapsed_ns" (int (elapsed_of cutoff entry)) entry) (freeze_source_cutoff cutoff s).1
      × In c.attempt_id
          (write_attempt py dumps span_id c a (freeze_source_cutoff cutoff s).0).truncated
      × ((write_attempt py dumps span_id c a (freeze_source_cutoff cutoff s).0).attempts ≡ (
          if ltb cutoff a.ended
          then s.attempts
          else s.attempts ++ attempt_line py dumps span_id c a ∷ []))
frozen-write_attempt py dumps span_id c a cutoff s entry h =
    let (_, lines, bound, tails, marked) = freeze_source_cutoff-IsFrozen cutoff s in
    (
      subst (In (put "elapsed_ns" (int (elapsed_of cutoff entry)) entry)) (sym tails)
          (tail-In cutoff c.attempt_id entry s.inflight h),
      subst (In c.attempt_id)
          (sym (keeps_truncated py dumps span_id c a (freeze_source_cutoff cutoff s).0))
          (marked c.attempt_id (inl (lookup-In c.attempt_id entry s.inflight h))),
      written py dumps span_id c a cutoff (freeze_source_cutoff cutoff s).0 bound
          ∙ ap (λ l. if ltb cutoff a.ended then l else l ++ attempt_line py dumps span_id c a ∷ [])
              lines,
    )
