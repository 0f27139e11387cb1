-- ===== src/Llm/Store/Account.antt =====
-- minireplay/llm_store.py: the cutoff and the accounting of what a replay has consumed.
use minireplayer.Prelude.{
  ℕ, ◌-◌, String, Bool, true, false, not, ◌&&◌, ◌||◌, none, some, List, [], ◌∷◌, ◌++◌, map, Dict,
  Result, ok, raise, mismatch_error, elem, all, any, keep, lookup, lookup_or, insert, length, take,
  min, ltb, if◌then◌else◌, ◌==◌, string_eq, pair_eq,
}
use minireplayer.Json.{Value, Fields, int, get, put, nat?}
use minireplayer.Boundary.Account.{all_of, ran, ran_for, is_some, is_empty}
use minireplayer.Llm.Slot.{Slot}
use minireplayer.Llm.Store.{Lane, Store}

-- `int(entry["started_at_ns"])` and `int(entry.get("interrupted_at_ns", cutoff))`, of entries that
-- hold the clock's numbers
unfoldable pub clock_or : ℕ → Value → ℕ
clock_or default v = elim (nat? v) [ none ↦ default | some n ↦ n ]

unfoldable pub elapsed_of : ℕ → Fields → ℕ
elapsed_of cutoff entry =
    min cutoff (clock_or cutoff (get "interrupted_at_ns" entry))
    - clock_or 0 (get "started_at_ns" entry)

-- the loop of `freeze_source_cutoff`
unfoldable pub freeze_each : ℕ → Dict String Fields → Store → Store × List Fields
freeze_each cutoff [] s = (s, [])
freeze_each cutoff ((i, entry) ∷ rest) s =
    let elapsed = elapsed_of cutoff entry in
    let (s', tails) = freeze_each cutoff rest (record s {
      truncated = i ∷ s.truncated;
      truncated_elapsed = insert i elapsed s.truncated_elapsed;
    }) in
    (s', put "elapsed_ns" (int elapsed) entry ∷ tails)

-- `freeze_source_cutoff`
unfoldable pub freeze_source_cutoff : ℕ → Store → Store × List Fields
freeze_source_cutoff cutoff s =
    freeze_each cutoff s.inflight (record s { source_cutoff_at_ns = some cutoff })

unfoldable pub is_delivered : Store → Slot → Bool
is_delivered s e = elem e.attempt_id s.delivered

abbrev pub queue_delivered : Store → Lane × List Slot → Bool
queue_delivered s (k, queue) = all (is_delivered s) queue

abbrev pub tail_ran : ℕ → Store → String × ℕ → Bool
tail_ran now s (i, required) = ran now required (lookup i s.truncated_started)

-- `expected_complete`
unfoldable pub expected_complete : ℕ → Store → Bool
expected_complete now s =
    s.setting.replay
    && (all (queue_delivered s) s.expected && all (tail_ran now s) s.truncated_elapsed)

-- what `actor_expected_complete` asks of a recorded request
unfoldable pub slot_settled : ℕ → Store → Slot → Result Bool
slot_settled now s e =
    if elem e.attempt_id s.truncated
    then ran_for now (lookup e.attempt_id s.truncated_started)
        (lookup e.attempt_id s.truncated_elapsed)
    else ok (is_delivered s e)

abbrev pub queue_settled : ℕ → String → Store → Lane × List Slot → Result Bool
queue_settled now actor s (k, queue) =
    if k.0 == actor then all_of (slot_settled now s) queue else ok true

-- `actor_expected_complete`
unfoldable pub actor_expected_complete : ℕ → String → Store → Result Bool
actor_expected_complete now actor s =
    if s.setting.replay then all_of (queue_settled now actor s) s.expected else ok false

-- what `actor_expected_prefix_consumed` asks of a recorded request
unfoldable pub slot_entered : Store → Slot → Bool
slot_entered s e =
    not (elem e.attempt_id s.truncated) || is_some (lookup e.attempt_id s.truncated_started)

abbrev pub queue_entered : String → Store → Lane × List Slot → Bool
queue_entered actor s (k, queue) =
    not (k.0 == actor)
    || (not (ltb (lookup_or k 0 s.replay_sequence) (length queue)) && all (slot_entered s) queue)

-- `actor_expected_prefix_consumed`
unfoldable pub actor_expected_prefix_consumed : String → Store → Bool
actor_expected_prefix_consumed actor s = s.setting.replay && all (queue_entered actor s) s.expected

-- `missing` of `outstanding`: the lanes with undelivered requests, and how many
unfoldable pub missing : Store → Dict Lane (List Slot) → List (Lane × ℕ)
missing s [] = []
missing s ((k, queue) ∷ rest) =
    let later = missing s rest in
    if any (λ e. not (is_delivered s e)) queue
    then (k, length (keep (λ e. not (is_delivered s e)) queue)) ∷ later
    else later

-- `claimed_not_delivered`, in the order of the lanes in place of the order of the names
unfoldable pub claimed_not_delivered : Store → Dict Lane (List Slot) → List String
claimed_not_delivered s [] = []
claimed_not_delivered s ((k, queue) ∷ rest) =
    map (λ (e : Slot). e.attempt_id)
      (keep (λ e. not (is_delivered s e)) (take (lookup_or k 0 s.replay_sequence) queue))
    ++ claimed_not_delivered s rest

-- `evidence_not_delivered`, in the order of the store in place of the order of the names
unfoldable pub evidence_not_delivered : Store → List String
evidence_not_delivered s = keep (λ i. not (elem i s.delivered)) s.completed

-- `assert_consumed`
unfoldable pub assert_consumed : Store → Result (Unit {0})
assert_consumed s = if is_empty (missing s s.expected) then ok tt else raise mismatch_error
