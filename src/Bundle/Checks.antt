-- ===== src/Bundle/Checks.antt =====
-- minireplayer/bundle.py: the checks of the cutoff tails, of the actors and of the dispatches that a
-- coral recording has to account for.
use minireplayer.Prelude.{
  String, Bool, true, false, not, Option, none, some, List, [], ◌∷◌, ◌++◌, Result, ok, raise,
  validation_error, type_error, ◌>>=◌, ◌>>◌, require, elem, all, string_eq, pair_eq,
}
use minireplayer.Json.{
  Value, Fields, Items, obj, arr, str, int, nil, cons, get, get_or, text?, is_true,
}
use minireplayer.Boundary.{
  Kind, dispatch, tool, grader, artifact, kind_of, id_field, Python, spell, item,
}
use minireplayer.Schema.{require_among, is_name_or_none}
use minireplayer.Bundle.{Library, CallId, calls_of}
use minireplayer.Bundle.Calls.{ToolCall, response_tool_calls}

abbrev is_duration : Value → Bool
is_duration (int n) = true
is_duration _ = false

abbrev is_name : Option String → Bool
is_name none = false
is_name (some s) = true

-- one entry of a section of the tails; only an operation says how it is entered
unfoldable pub validate_tail : Bool → Value → Result (Unit {0})
validate_tail operation (obj entry) = do
  require (is_true (get "cutoff_truncated" entry))
  require (is_duration (get "elapsed_ns" entry))
  require (is_name (text? (get "actor_id" entry)))
  require (is_name_or_none (get "causal_lane" entry))
  elim operation [
    | true ↦
        require_among ("block-before-entry" ∷ "enter-and-preserve-descendants" ∷ [])
          (get_or "replay_entry" (str "block-before-entry") entry)
    | false ↦ ok tt
  ]
validate_tail operation _ = raise validation_error

unfoldable pub validate_entries : Bool → Items → Result (Unit {0})
validate_entries operation nil = ok tt
validate_entries operation (cons entry rest) =
    validate_tail operation entry >> validate_entries operation rest

abbrev validate_section : Bool → Value → Result (Unit {0})
validate_section operation (arr entries) = validate_entries operation entries
validate_section operation _ = raise validation_error

-- `_validate_cutoff_tails`
unfoldable pub validate_cutoff_tails : Value → Result (Unit {0})
validate_cutoff_tails (obj tails) = do
  validate_section true (get "operations" tails)
  validate_section false (get "llm_requests" tails)
validate_cutoff_tails _ = raise validation_error

-- `{str(record[key]) for record in records}`
unfoldable pub spelled_all : Python → String → List Fields → Result (List String)
spelled_all py key [] = ok []
spelled_all py key (r ∷ rs) = do
  v ← item key r
  rest ← spelled_all py key rs
  ok (spell py v ∷ rest)

-- what has to be new: a text that is not empty and that is not closed
unfoldable pub require_open : List String → Value → Result (Unit {0})
require_open closed v = elim (text? v) [
  | none ↦ raise validation_error
  | some i ↦ require (not (elem i closed))
]

-- `kind in ledgers`: a list or an object has no hash
unfoldable pub ledger_kind : Value → Result Kind
ledger_kind (arr xs) = raise type_error
ledger_kind (obj d) = raise type_error
ledger_kind v = elim (kind_of v) [ none ↦ raise validation_error | some kind ↦ ok kind ]

unfoldable pub require_open_operations : (Kind → List String) → List Fields → Result (Unit {0})
require_open_operations closed [] = ok tt
require_open_operations closed (entry ∷ rest) = do
  kind ← ledger_kind (get "kind" entry)
  require_open (closed kind) (get "record_id" entry)
  require_open_operations closed rest

unfoldable pub require_open_requests : List String → List Fields → Result (Unit {0})
require_open_requests closed [] = ok tt
require_open_requests closed (entry ∷ rest) =
    require_open closed (get "attempt_id" entry) >> require_open_requests closed rest

-- the identifiers of the closed records of a kind
abbrev pub closed_ids : List String → List String → List String → List String → Kind → List String
closed_ids d t g a dispatch = d
closed_ids d t g a tool = t
closed_ids d t g a grader = g
closed_ids d t g a artifact = a

-- `_require_cutoff_tails_disjoint`
unfoldable pub require_cutoff_tails_disjoint :
    Python → List Fields → List Fields → (Kind → List Fields) → List Fields → Result (Unit {0})
require_cutoff_tails_disjoint py operations requests ledgers llm = do
  d ← spelled_all py (id_field dispatch) (ledgers dispatch)
  t ← spelled_all py (id_field tool) (ledgers tool)
  g ← spelled_all py (id_field grader) (ledgers grader)
  a ← spelled_all py (id_field artifact) (ledgers artifact)
  l ← spelled_all py "attempt_id" llm
  require_open_operations (closed_ids d t g a) operations
  require_open_requests l requests

-- `_require_actor_coverage`, for the actors of the manifest
unfoldable pub require_actor_coverage :
    Python → List Fields → (Kind → List Fields) → List Fields → Result (Unit {0})
require_actor_coverage py actors ledgers llm = do
  declared ← spelled_all py "actor_id" actors
  l ← spelled_all py "actor_id" llm
  d ← spelled_all py "actor_id" (ledgers dispatch)
  t ← spelled_all py "actor_id" (ledgers tool)
  g ← spelled_all py "actor_id" (ledgers grader)
  a ← spelled_all py "actor_id" (ledgers artifact)
  require (all (λ actor. elem actor declared) (l ++ (d ++ (t ++ (g ++ a)))))

-- the calls of an attempt, each under the actor of the attempt
unfoldable pub emitted_by : Python → Fields → List ToolCall → Result (List CallId)
emitted_by py attempt [] = ok []
emitted_by py attempt (call ∷ rest) = do
  actor ← item "actor_id" attempt
  more ← emitted_by py attempt rest
  ok ((spell py actor, call.native_call_id) ∷ more)

-- `emitted`: the calls that the model made
unfoldable pub emitted : Python → Library → List Fields → Result (List CallId)
emitted py lib [] = ok []
emitted py lib (attempt ∷ rest) = do
  response ← item "response" attempt
  calls ← response_tool_calls lib response
  now ← emitted_by py attempt calls
  later ← emitted py lib rest
  ok (now ++ later)

-- `_require_coral_dispatch_coverage`
unfoldable pub require_coral_dispatch_coverage :
    Python → Library → Bool → List Fields → List Fields → List Fields → Result (Unit {0})
require_coral_dispatch_coverage py lib false llm dispatches operations = ok tt
require_coral_dispatch_coverage py lib true llm dispatches operations = do
  made ← emitted py lib llm
  dispatched ← calls_of py dispatches
  tails ← calls_of py operations
  require (all (λ call. elem call (dispatched ++ tails)) made)
