-- ===== src/Boundary/Start.antt =====
-- minireplay/boundary.py: `_load_expected` and `start`.
use minireplayer.Prelude.{
  ℕ, ◌-◌, String, Bool, true, false, Option, none, some, List, [], ◌∷◌, ◌++◌, Dict, Result, ok,
  raise, validation_error, mismatch_error, value_error, ◌>>=◌, ◌>>◌, require, elem, insert, lookup,
  lookup_or, leb, if◌then◌else◌, ◌==◌, string_eq, pair_eq, option_eq,
}
use minireplayer.Json.{
  Value, Fields, str, obj, end, get, get_or, has, put, text?, nat?, object?, is_text,
}
use minireplayer.Contracts.{to_physical, rebind_embedded_coral_paths, recorded_workspace_path_map}
use minireplayer.Boundary.{
  Kind, dispatch, tool, grader, artifact, kind_eq, kind_of, Python, spell, Key, Identity, Ledger,
  Action, continue, identity_of, lane_of, item, issue_order, is_coral,
}
use minireplayer.Boundary.Claim.{workspace_path, resolved, is_composite, claim}

-- the source paths that a record proves, checked against what its actor has shown before
unfoldable pub note_paths : Dict String String → Dict String String → Result (Dict String String)
note_paths [] mapping = ok mapping
note_paths ((physical, name) ∷ rest) mapping = elim (lookup physical mapping) [
  | none ↦ note_paths rest (insert physical name mapping)
  | some previous ↦ require (previous == name) >> note_paths rest mapping
]

-- `_remember_source_paths`
unfoldable pub remember_source_paths : Python → Fields → Ledger → Result Ledger
remember_source_paths py r l = do
  let actor = spell py (get "actor_id" r)
  let old = lookup_or actor [] l.source_path_maps
  recovered ←
      recorded_workspace_path_map l.setting.adapter (get_or "native_arguments" (obj end) r)
        (get_or "arguments" (obj end) r)
  mapping ← note_paths recovered (elim (text? (get "native_workspace_path" r)) [
    | none ↦ old
    | some w ↦ insert w "/native-workspace" old
  ])
  ok (record l { source_path_maps = insert actor mapping l.source_path_maps })

-- `queue.sort(key=_issue_order)` is stable: a record goes before the first that was issued later
unfoldable pub enqueue : Fields → List Fields → Result (List Fields)
enqueue r [] = ok (r ∷ [])
enqueue r (x ∷ xs) = do
  a ← issue_order r
  b ← issue_order x
  rest ← enqueue r xs
  ok (if leb a b then r ∷ x ∷ xs else x ∷ rest)

unfoldable pub sort_queue : List Fields → Result (List Fields)
sort_queue [] = ok []
sort_queue (r ∷ rs) = issue_order r >>= λ _. sort_queue rs >>= enqueue r

unfoldable pub sort_queues : Dict Key (List Fields) → Result (Dict Key (List Fields))
sort_queues [] = ok []
sort_queues ((key, queue) ∷ rest) = do
  sorted ← sort_queue queue
  others ← sort_queues rest
  ok ((key, sorted) ∷ others)

abbrev pub has_source_paths : Kind → Bool
has_source_paths dispatch = true
has_source_paths tool = true
has_source_paths grader = false
has_source_paths artifact = false

-- a dispatch establishes the lane that its tool inherits
abbrev pub set_lane : Kind → String → Option String → Ledger → Ledger
set_lane dispatch record_id lane l = record l {
  lane_of_record = insert record_id lane l.lane_of_record;
}
set_lane tool record_id lane l = l
set_lane grader record_id lane l = l
set_lane artifact record_id lane l = l

-- `self._lane_of_record[str(record["dispatch_id"])] = lane`, for a dispatch alone
unfoldable pub note_lane : Python → Kind → Fields → Option String → Ledger → Result Ledger
note_lane py dispatch r lane l =
    item "dispatch_id" r >>= λ i. ok (set_lane dispatch (spell py i) lane l)
note_lane py _ r lane l = ok l

unfoldable pub load_record : Python → Kind → Fields → Ledger → Result Ledger
load_record py kind r l = do
  l₁ ← (if has_source_paths kind then remember_source_paths py r l else ok l)
  let lane = lane_of py l₁ kind r
  l₂ ← note_lane py kind r lane l₁
  actor ← item "actor_id" r
  let key : Key = (kind, (spell py actor, lane))
  ok (record l₂ { expected = insert key (lookup_or key [] l₂.expected ++ r ∷ []) l₂.expected })

unfoldable pub load_records : Python → Kind → List Fields → Ledger → Result Ledger
load_records py kind [] l = ok l
load_records py kind (r ∷ rs) l = load_record py kind r l >>= load_records py kind rs

-- a composite tail can be entered, and has to run for as long as the source saw it run
unfoldable pub expect_tail : Python → Kind → Fields → Ledger → Result Ledger
expect_tail py kind r l =
    if is_composite r
    then (item "elapsed_ns" r >>= λ elapsed. elim (nat? elapsed) [
      | none ↦ raise value_error
      | some n ↦ ok (record l {
        truncated = identity_of py kind r ∷ l.truncated;
        truncated_elapsed = insert (identity_of py kind r) n l.truncated_elapsed;
      })
    ])
    else ok l

-- one cutoff tail of a known kind
unfoldable pub load_tail : Python → Kind → Fields → Ledger → Result Ledger
load_tail py kind r l =
    let lane = lane_of py l kind r in
    let l₁ = set_lane kind (spell py (get "record_id" r)) lane l in
    item "actor_id" r >>= λ actor.
    let key : Key = (kind, (spell py actor, lane)) in
    expect_tail py kind r (record l₁ {
      cutoff_expected =
          insert key (lookup_or key [] l₁.cutoff_expected ++ r ∷ []) l₁.cutoff_expected;
    })

unfoldable pub load_tails : Python → List Fields → Ledger → Result Ledger
load_tails py [] l = ok l
load_tails py (r ∷ rs) l =
    elim (kind_of (get "kind" r)) [ none ↦ ok l | some kind ↦ load_tail py kind r l ]
    >>= load_tails py rs

-- What a bundle hands over.
pub record Bundle : Type 0 where
  pub dispatches : List Fields
  pub tools : List Fields
  pub graders : List Fields
  pub artifacts : List Fields
  pub tails : List Fields

-- `_load_expected`
unfoldable pub load_expected : Python → Bundle → Ledger → Result Ledger
load_expected py b l = do
  l₁ ← load_records py dispatch b.dispatches l
  l₂ ← load_records py tool b.tools l₁
  l₃ ← load_records py grader b.graders l₂
  l₄ ← load_records py artifact b.artifacts l₃
  l₅ ← load_tails py b.tails l₄
  queues ← sort_queues l₅.expected
  tail_queues ← sort_queues l₅.cutoff_expected
  ok (record l₅ { expected = queues; cutoff_expected = tail_queues })

-- The tokens that `secrets` draws for one call, and the clock at it.
pub record Fresh : Type 0 where
  pub reservation_id : String
  pub record_id : String
  pub span_id : String
  pub now : ℕ

-- `_resolve_trigger`; `llm` is `attempt_for_model_call` of the LLM store, if there is one
unfoldable pub resolve_trigger : Option (Value → Option String) → Fields → Result Fields
resolve_trigger llm payload = elim (object? (get "origin" payload)) [
  | none ↦ raise validation_error
  | some origin ↦ elim llm [
    | none ↦ ok payload
    | some attempt_of ↦
        if is_text "auto" (get "trigger_id" origin)
        then elim (attempt_of (get "model_call_id" origin)) [
          | none ↦ raise mismatch_error
          | some attempt ↦ ok (put "origin" (obj (put "trigger_id" (str attempt) origin)) payload)
        ]
        else ok payload
  ]
]

-- the checks of `start` on its payload before the claim
unfoldable pub prepare : Python → Option (Value → Option String) → Kind → Fields → Result Fields
prepare py llm dispatch payload = resolve_trigger llm payload
prepare py llm tool payload =
    py.validate_result_contract (get "result_contract" payload) >> ok payload
prepare py llm _ payload = ok payload

-- the response of `start`
pub record Opened : Type 0 where
  pub reservation_id : String
  pub record_id : String
  pub span_id : String
  pub execution_arguments : Option Value
  pub simulated_execution : Option (ℕ × String)

abbrev pub hint_or : Value → String → String
hint_or v fresh = elim (text? v) [ none ↦ fresh | some hint ↦ hint ]

-- the identifiers of the new reservation: the recorded ones, else the hints, else fresh ones
unfoldable pub ids_for : Python → Kind → Fields → Option Fields → Fresh → Result (String × String)
ids_for py kind payload (some expected) fresh = do
  span_id ← item "span_id" expected
  ok ((identity_of py kind expected).1, spell py span_id)
ids_for py kind payload none fresh = ok (
  hint_or (get "record_id_hint" payload) fresh.record_id,
  hint_or (get "span_id_hint" payload) fresh.span_id,
)

-- a composite tail is timed from its entry, on the ledger's own clock
unfoldable pub enter_tail : Identity → ℕ → Ledger → Ledger
enter_tail identity now l =
    if elem identity l.truncated
    then record l { truncated_started = insert identity now l.truncated_started }
    else l

-- the reservation that `start` opens, and what it changes beside
unfoldable pub reserve :
    Python → Kind → String → ℕ → Fields → Option Fields → Fresh → String × String → Ledger → Ledger
reserve py kind actor started payload expected fresh ids l =
    let lane = lane_of py l kind payload in
    let named = set_lane kind ids.0 lane l in
    enter_tail (kind, ids.0) fresh.now
      (record named {
        active =
            insert fresh.reservation_id
              (record {
                kind = kind;
                record_id = ids.0;
                span_id = ids.1;
                actor_id = actor;
                lane = lane;
                started_at_ns = started;
                request = payload;
                expected = expected;
              })
              named.active;
      })

-- the recorded arguments of a dispatch, expanded into this run's directories
unfoldable pub execution_arguments : Python → Ledger → String → Fields → Fields → Result Value
execution_arguments py l actor payload expected = do
  arguments ← item "arguments" expected
  workspace ← workspace_path payload
  let native = to_physical l.setting.adapter arguments l.setting.places (resolved py workspace)
  ok (
      if is_coral l.setting.adapter
      then rebind_embedded_coral_paths native (lookup_or actor [] l.source_path_maps)
          l.setting.places (resolved py workspace)
      else native)

abbrev pub number_of : Value → Result ℕ
number_of v = elim (nat? v) [ none ↦ raise value_error | some n ↦ ok n ]

-- the duration and status that a tool is held for in llm-only mode
unfoldable pub simulated : Python → Fields → Result (ℕ × String)
simulated py expected = do
  ended ← item "ended_at_ns" expected
  e ← number_of ended
  started ← item "started_at_ns" expected
  s ← number_of started
  ok (e - s, spell py (get_or "status" (str "ok") expected))

unfoldable pub opened :
    Python
    → Kind
    → String
    → Fields
    → Option Fields
    → Fresh
    → String × String
    → Ledger
    → Result Opened
opened py kind actor payload none fresh ids l = ok (record {
  reservation_id = fresh.reservation_id;
  record_id = ids.0;
  span_id = ids.1;
  execution_arguments = none;
  simulated_execution = none;
})
opened py kind actor payload (some expected) fresh ids l = do
  arguments ←
      (if kind == dispatch
        then (execution_arguments py l actor payload expected >>= λ a. ok (some a))
        else ok none)
  held ←
      (if kind == tool
        then (if l.setting.llm_only then (simulated py expected >>= λ s. ok (some s)) else ok none)
        else ok none)
  ok (record {
    reservation_id = fresh.reservation_id;
    record_id = ids.0;
    span_id = ids.1;
    execution_arguments = arguments;
    simulated_execution = held;
  })

-- `start` after the claim
unfoldable pub admit : Python → Kind → String → ℕ → Fields → Option Fields → Fresh → Action Opened
admit py kind actor started payload expected fresh l =
    continue (l, ids_for py kind payload expected fresh)
      (λ ids l₁. (
        reserve py kind actor started payload expected fresh ids l₁,
        opened py kind actor payload expected fresh ids
            (reserve py kind actor started payload expected fresh ids l₁),
      ))

-- the claim of a replay, and the reservation after it
unfoldable pub claim_and_admit :
    Python → (String → Bool) → Kind → String → ℕ → Fields → Fresh → Action Opened
claim_and_admit py over kind actor started payload fresh l =
    if l.setting.replay
    then continue (claim py over kind actor payload l)
        (λ expected. admit py kind actor started payload (some expected) fresh)
    else admit py kind actor started payload none fresh l

-- what `start` reads of its payload: the kind, the actor and the start time
unfoldable pub heading : Fresh → Fields → Result (Kind × (String × ℕ))
heading fresh payload = elim (kind_of (get "kind" payload)) [
  | none ↦ raise validation_error
  | some kind ↦ elim (text? (get "actor_id" payload)) [
    | none ↦ raise validation_error
    | some actor ↦
        if has "started_at_ns" payload
        then elim (nat? (get "started_at_ns" payload)) [
          | none ↦ raise validation_error
          | some started ↦ ok (kind, (actor, started))
        ]
        else ok (kind, (actor, fresh.now))
  ]
]

-- `start` for a kind, an actor and a start time
unfoldable pub start_headed :
    Python
    → Option (Value → Option String)
    → (String → Bool)
    → Fresh
    → Fields
    → Kind × (String × ℕ)
    → Action Opened
start_headed py llm over fresh payload (kind, (actor, started)) l =
    continue (l, prepare py llm kind payload)
      (λ prepared. claim_and_admit py over kind actor started prepared fresh)

-- `start`
unfoldable pub start :
    Python → Option (Value → Option String) → (String → Bool) → Fresh → Fields → Action Opened
start py llm over fresh payload l =
    continue (l, heading fresh payload) (start_headed py llm over fresh payload)
