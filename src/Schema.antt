-- ===== src/Schema.antt =====
-- minireplayer/schema.py: the checks of the records of a bundle, one by one. The check of an LLM
-- attempt is Llm/Slot. A check that raises nothing is `ok tt`.
pub mod Graph
pub mod Chain
pub mod Written
pub mod Called
mod Tests
use minireplayer.Prelude.{
  String, Bool, true, false, not, ◌&&◌, ◌||◌, Option, none, some, List, [], ◌∷◌, Result, ok, raise,
  type_error, ◌>>=◌, ◌>>◌, require, elem, leb, ltb, ℕ, ◌==◌, string_eq,
}
use minireplayer.Json.{Value, Fields, null, str, arr, obj, int, negative, get, has, is_text, nat?}
use minireplayer.Llm.Slot.{string, object, digest, boolean, is_integer}

-- `value in {...}` for texts: a list or an object has no hash
unfoldable pub among : List String → Value → Result Bool
among names (str s) = ok (elem s names)
among names (arr xs) = raise type_error
among names (obj d) = raise type_error
among names _ = ok false

unfoldable pub require_among : List String → Value → Result (Unit {0})
require_among names v = among names v >>= require

-- `_string` of the named fields, in order
unfoldable pub strings : List String → Fields → Result (Unit {0})
strings [] value = ok tt
strings (name ∷ names) value = do _ ← string (get name value); strings names value

-- `a <= b` for integers
unfoldable pub integer_le : Value → Value → Bool
integer_le (int a) (int b) = leb a b
integer_le (negative a) (int b) = true
integer_le (negative a) (negative b) = leb b a
integer_le _ _ = false

-- `_timespan`
unfoldable pub timespan : Fields → Result (Unit {0})
timespan value = do
  require (is_integer (get "started_at_ns" value))
  require (is_integer (get "ended_at_ns" value))
  require (integer_le (get "started_at_ns" value) (get "ended_at_ns" value))

-- `value is None or isinstance(value, str)`
unfoldable pub is_text_or_none : Value → Bool
is_text_or_none null = true
is_text_or_none (str s) = true
is_text_or_none _ = false

-- `value is None or (isinstance(value, str) and bool(value))`
unfoldable pub is_name_or_none : Value → Bool
is_name_or_none null = true
is_name_or_none (str s) = not (s == "")
is_name_or_none _ = false

abbrev pub is_none : Value → Bool
is_none null = true
is_none _ = false

-- `validate_span`
unfoldable pub validate_span : Fields → Result (Unit {0})
validate_span value = do
  require (is_text "minireplay.span/v1" (get "schema_version" value))
  strings ("span_id" ∷ "actor_id" ∷ "kind" ∷ []) value
  require (is_text_or_none (get "parent_span_id" value))
  timespan value

abbrev pub same_truth : Bool → Bool → Bool
same_truth true b = b
same_truth false b = not b

-- `validate_dispatch`; `sha256_json` is util.py's
unfoldable pub validate_dispatch : (Value → String) → Fields → Result (Unit {0})
validate_dispatch sha256_json value = do
  require (is_text "minireplay.dispatch/v1" (get "schema_version" value))
  strings ("dispatch_id" ∷ "span_id" ∷ "actor_id" ∷ "name" ∷ []) value
  arguments ← object (get "arguments" value)
  require (is_text (sha256_json (obj arguments)) (get "arguments_sha256" value))
  origin ← object (get "origin" value)
  _ ← string (get "kind" origin)
  require (is_name_or_none (get "causal_lane" value))
  require_among ("executed" ∷ "rejected" ∷ "failed-before-entry" ∷ []) (get "status" value)
  let execution = get "execution_call_id" value
  require (is_text_or_none execution)
  require (same_truth (is_text "executed" (get "status" value)) (not (is_none execution)))
  timespan value

abbrev pub statuses : List String
statuses = "ok" ∷ "error" ∷ "timeout" ∷ []

-- `value is True`
abbrev pub is_exactly_true : Value → Bool
is_exactly_true (Value.bool true) = true
is_exactly_true _ = false

-- `validate_tool`; `validate_result_contract` is observation.py's
unfoldable pub validate_tool :
    (Value → String) → (Value → Result (Unit {0})) → Fields → Result (Unit {0})
validate_tool sha256_json validate_result_contract value = do
  require (is_text "minireplay.tool-call/v1" (get "schema_version" value))
  strings ("call_id" ∷ "span_id" ∷ "actor_id" ∷ "name" ∷ "implementation" ∷ []) value
  require (is_name_or_none (get "dispatch_id" value))
  arguments ← object (get "arguments" value)
  require (is_name_or_none (get "causal_lane" value))
  require (not (is_none (get "dispatch_id" value)) || not (is_none (get "causal_lane" value)))
  require (is_text (sha256_json (obj arguments)) (get "arguments_sha256" value))
  validate_result_contract (get "result_contract" value)
  require (has "result" value)
  require (has "native_result" value)
  require_among statuses (get "status" value)
  require (is_exactly_true (get "native_execution" value))
  _ ← boolean (get "exception_raised" value)
  timespan value

-- `validate_grader`
unfoldable pub validate_grader : Fields → Result (Unit {0})
validate_grader value = do
  require (is_text "minireplay.grader/v1" (get "schema_version" value))
  strings ("attempt_id" ∷ "span_id" ∷ "actor_id" ∷ "implementation" ∷ "grader_kind" ∷ []) value
  require_among statuses (get "status" value)
  timespan value

abbrev at_least_one : Option ℕ → Bool
at_least_one none = false
at_least_one (some n) = ltb 0 n

abbrev check_read_from : Bool → Value → Result (Unit {0})
check_read_from true v = do _ ← string v; ok tt
check_read_from false v = require (is_none v)

-- `validate_artifact`
unfoldable pub validate_artifact : Fields → Result (Unit {0})
validate_artifact value = do
  require (is_text "minireplay.artifact/v1" (get "schema_version" value))
  strings ("event_id" ∷ "logical_path" ∷ "actor_id" ∷ "span_id" ∷ []) value
  require_among ("create" ∷ "write" ∷ "read" ∷ []) (get "operation" value)
  require (at_least_one (nat? (get "version" value)))
  _ ← digest (get "bytes_sha256" value)
  require (is_integer (get "completed_at_ns" value))
  check_read_from (is_text "read" (get "operation" value)) (get "read_from" value)

abbrev is_list : Value → Bool
is_list (arr xs) = true
is_list _ = false

-- `validate_terminal`
unfoldable pub validate_terminal : Fields → Result (Unit {0})
validate_terminal value = do
  require (is_text "minireplay.terminal/v1" (get "schema_version" value))
  require_among ("success" ∷ "failure" ∷ []) (get "status" value)
  require (is_list (get "task_terminals" value))
