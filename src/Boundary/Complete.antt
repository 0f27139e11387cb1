-- ===== src/Boundary/Complete.antt =====
-- minireplay/boundary.py: `complete`, the records that it writes, and `mark_delivered`.
use minireplayer.Prelude.{
  ℕ, String, Bool, true, false, not, ◌&&◌, Option, none, some, [], ◌∷◌, ◌++◌, Dict, Result, ok,
  raise, validation_error, ◌>>=◌, ◌>>◌, require, elem, remove, lookup, leb, ltb, if◌then◌else◌,
  ◌==◌, string_eq, pair_eq,
}
use minireplayer.Json.{
  Value, Fields, bool, int, float, str, arr, nil, obj, end, field, get, get_or, has, put, nat?,
  is_true, truth, opt_str,
}
use minireplayer.Boundary.{
  Kind, dispatch, tool, grader, artifact, kind_eq, kind_text, id_field, Python, Identity,
  Reservation, Ledger, Action, continue, item,
}
use minireplayer.Boundary.Claim.{workspace_path, logical}
use minireplayer.Boundary.Start.{Fresh}

-- `{**common, **more}` for keys that `common` does not have
unfoldable pub extend : Fields → Fields → Fields
extend common end = common
extend common (field k v rest) = extend (put k v common) rest

unfoldable pub schema : Kind → String
schema dispatch = "minireplay.dispatch/v1"
schema tool = "minireplay.tool-call/v1"
schema grader = "minireplay.grader/v1"
schema artifact = "minireplay.artifact/v1"

-- `common` of `_build_record`
unfoldable pub common : Reservation → ℕ → Fields
common r ended = field "schema_version" (str (schema r.kind)) (
    field (id_field r.kind) (str r.record_id) (
      field "span_id" (str r.span_id) (
        field "actor_id" (str r.actor_id) (
          field "process_role" (get "process_role" r.request)
            (field "started_at_ns" (int r.started_at_ns) (field "ended_at_ns" (int ended) end))))))

-- the arguments of a request under run-independent names, and its workspace
unfoldable pub logical_arguments : Python → Ledger → Fields → Result (Value × Value)
logical_arguments py l request = do
  workspace ← workspace_path request
  ok (logical py l (get_or "arguments" (obj end) request) workspace [], opt_str workspace)

-- `_dispatch_record`
unfoldable pub dispatch_record : Python → Ledger → Reservation → Fields → ℕ → Result Fields
dispatch_record py l r payload ended = do
  (arguments, workspace) ← logical_arguments py l r.request
  ok (
      extend (common r ended) (
        field "causal_lane" (opt_str r.lane) (
          field "session_id" (get "session_id" r.request) (
            field "parser_identity" (get "parser_identity" r.request) (
              field "dispatcher_identity" (get "dispatcher_identity" r.request) (
                field "native_call_id" (get "native_call_id" r.request) (
                  field "name" (get "name" r.request) (
                    field "arguments" arguments (
                      field "arguments_sha256" (str (py.sha256_json arguments)) (
                        field "native_arguments" (get_or "arguments" (obj end) r.request) (
                          field "native_workspace_path" workspace (
                            field "origin" (get "origin" r.request) (
                              field "status" (get "status" payload) (
                                field "execution_call_id" (get "execution_call_id" payload)
                                  end))))))))))))))

-- what a tool record says of its end: status, exception flag, and the result for the framework
unfoldable pub tool_ending : Option Fields → Fields → Result (Value × (Bool × Value))
tool_ending none payload = ok (
  get_or "status" (str "ok") payload,
  (truth (get_or "exception_raised" (bool false) payload), get "result" payload),
)
tool_ending (some expected) payload = do
  result ← item "result" expected
  ok (
      if is_true (get "exception_raised" expected)
      then (get_or "status" (str "error") expected, (true, result))
      else (
        get_or "status" (str "ok") payload,
        (truth (get_or "exception_raised" (bool false) payload), result),
      ))

-- `_tool_record`: the recorded result for the framework, and this run's own beside it
unfoldable pub tool_record : Python → Ledger → Reservation → Fields → ℕ → Result Fields
tool_record py l r payload ended = do
  (arguments, workspace) ← logical_arguments py l r.request
  contract ← item "result_contract" r.request
  evidence ← py.project_result (get "result" payload) contract
  (status, (exception_raised, result)) ← tool_ending r.expected payload
  ok (
      extend (common r ended) (
        field "causal_lane" (opt_str r.lane) (
          field "dispatch_id" (get "dispatch_id" r.request) (
            field "name" (get "name" r.request) (
              field "implementation" (get "implementation" r.request) (
                field "arguments" arguments (
                  field "arguments_sha256" (str (py.sha256_json arguments)) (
                    field "native_arguments" (get_or "arguments" (obj end) r.request) (
                      field "native_workspace_path" workspace (
                        field "result_contract" contract (
                          field "semantic_timeout_s" (get "semantic_timeout_s" r.request) (
                            field "result" result (
                              field "native_result" (get "result" payload) (
                                field "native_observations" evidence (
                                  field "status" status (
                                    field "exception_raised" (bool exception_raised) (
                                      field "native_execution"
                                        (get_or "native_execution" (bool true) payload)
                                        (field "cpu_seconds"
                                          (get_or "cpu_seconds" (float "0.0") payload)
                                          (field "child_processes"
                                            (get_or "child_processes" (arr nil) payload)
                                            end)))))))))))))))))))

-- `_grader_record`
unfoldable pub grader_record : Reservation → Fields → ℕ → Fields
grader_record r payload ended = extend (common r ended) (
    field "implementation" (get "implementation" r.request) (
      field "grader_kind" (get "grader_kind" r.request) (
        field "trigger_id" (get "trigger_id" r.request) (
          field "status" (get_or "status" (str "ok") payload) (
            field "result" (get "result" payload) (
              field "llm_attempt_ids" (get_or "llm_attempt_ids" (arr nil) payload) (
                field "tool_call_ids" (get_or "tool_call_ids" (arr nil) payload) (
                  field "artifact_versions" (get_or "artifact_versions" (arr nil) payload)
                    (field "cpu_seconds" (get_or "cpu_seconds" (float "0.0") payload) end)))))))))

-- `_artifact_record`
unfoldable pub artifact_record : Reservation → Fields → ℕ → Fields
artifact_record r payload ended = extend (common r ended) (
    field "logical_path" (get "logical_path" r.request) (
      field "physical_path" (get "physical_path" payload) (
        field "operation" (get "operation" r.request) (
          field "version" (get "version" r.request) (
            field "bytes_sha256" (get "bytes_sha256" payload) (
              field "size" (get "size" payload) (
                field "mode" (get "mode" payload) (
                  field "triggered_by" (get_or "triggered_by" (arr nil) payload) (
                    field "read_from" (get "read_from" payload) (
                      field "completed_at_ns" (int ended) (
                        field "native_execution" (get_or "native_execution" (bool true) payload)
                          end)))))))))))

-- `_build_record`
unfoldable pub build_record : Python → Ledger → Reservation → Fields → ℕ → Result Fields
build_record py l r payload ended = elim r.kind [
  | dispatch ↦ dispatch_record py l r payload ended
  | tool ↦ tool_record py l r payload ended
  | grader ↦ ok (grader_record r payload ended)
  | artifact ↦ ok (artifact_record r payload ended)
]

-- `_write_span`
unfoldable pub span_of : Reservation → Fields → ℕ → Fields
span_of r written ended = field "schema_version" (str "minireplay.span/v1") (
    field "span_id" (str r.span_id) (
      field "parent_span_id" (get "parent_span_id" r.request) (
        field "actor_id" (str r.actor_id) (
          field "kind" (str (kind_text r.kind)) (
            field "name"
              (if truth (get "name" r.request)
                then get "name" r.request
                else str (kind_text r.kind))
              (field "status" (get_or "status" (str "ok") written) (
                field "started_at_ns" (int r.started_at_ns)
                  (field "ended_at_ns" (int ended) end))))))))

-- The response of `complete`. A withheld one carries `_hold_for_cutoff` and is never sent.
pub data Completion : Type 0 where
  withheld : Completion
  plain : (dropped : Bool) → Completion
  no_replay : (dropped : Bool) → Completion
  replayed : (framework_result : Value) (framework_exception : Option Value) → Completion

-- `_completion_response`
unfoldable pub completion_response : Reservation → Bool → Result Completion
completion_response r dropped =
    if not (r.kind == tool) then ok (plain dropped) else elim r.expected [
      | none ↦ ok (no_replay dropped)
      | some expected ↦
          if dropped
          then ok (no_replay dropped)
          else (item "result" expected >>= λ result. ok (
              replayed result
                (if is_true (get "exception_raised" expected) then some result else none)))
    ]

abbrev pub identity : Reservation → Identity
identity r = (r.kind, r.record_id)

-- `_hold_truncated`: the run of a tail is noted, and no result is handed over
unfoldable pub hold_truncated : Reservation → Fields → ℕ → Ledger → Ledger
hold_truncated r payload ended l = record l {
  tail_runtime =
      l.tail_runtime
      ++ field "schema_version" (str "minireplay.cutoff-tail-runtime/v1") (
          field "kind" (str (kind_text r.kind)) (
            field "record_id" (str r.record_id) (
              field "actor_id" (str r.actor_id) (
                field "started_at_ns" (int r.started_at_ns) (
                  field "native_completed_at_ns" (int ended) (
                    field "status" (get_or "status" (str "ok") payload)
                      (field "cpu_seconds" (get_or "cpu_seconds" (float "0.0") payload) end)))))))
        ∷ [];
}

-- the window closed before the operation ended
unfoldable pub ended_late : Ledger → ℕ → Bool
ended_late l ended =
    not l.setting.replay
    && elim l.source_cutoff_at_ns [ none ↦ false | some cutoff ↦ ltb cutoff ended ]

-- `append_jsonl`, `_write_span` and the marks of a completion
unfoldable pub write_completion : Reservation → Fields → ℕ → Bool → Ledger → Ledger
write_completion r written ended defer_delivery l = record l {
  ledgers = l.ledgers ++ (r.kind, written) ∷ [];
  spans = l.spans ++ span_of r written ended ∷ [];
  completed = identity r ∷ l.completed;
  delivered = (if defer_delivery then l.delivered else identity r ∷ l.delivered);
}

-- a record is written unless the window closed before the operation ended
unfoldable pub record_unless_late : Reservation → ℕ → Bool → Fields → Action Completion
record_unless_late r ended defer_delivery written l =
    if ended_late l ended
    then (l, completion_response r true)
    else (write_completion r written ended defer_delivery l, completion_response r false)

-- the part of `complete` that a truncated operation holds and another records
unfoldable pub finish : Python → Reservation → Fields → Bool → ℕ → Action Completion
finish py r payload defer_delivery ended l =
    if elem (identity r) l.truncated
    then (hold_truncated r payload ended l, ok withheld)
    else continue (l, build_record py l r payload ended) (record_unless_late r ended defer_delivery)

-- the end time of a completion, not before its start
unfoldable pub end_time : Fresh → Reservation → Fields → Result ℕ
end_time fresh r payload =
    (if has "ended_at_ns" payload
      then elim (nat? (get "ended_at_ns" payload)) [ none ↦ raise validation_error | some n ↦ ok n ]
      else ok fresh.now)
    >>= λ ended. require (leb r.started_at_ns ended) >> ok ended

-- `complete` on the reservation that was taken from the active ones
unfoldable pub complete_reserved : Python → Fresh → Reservation → Fields → Bool → Action Completion
complete_reserved py fresh r payload defer_delivery l =
    continue (l, end_time fresh r payload) (finish py r payload defer_delivery)

abbrev pub as_text : Value → Option String
as_text (str s) = some s
as_text _ = none

abbrev pub tag : String → Option Reservation → Option (String × Reservation)
tag i none = none
tag i (some r) = some (i, r)

abbrev pub under : Option String → Dict String Reservation → Option (String × Reservation)
under none active = none
under (some i) active = tag i (lookup i active)

-- the active reservation that a payload names
unfoldable pub active_under : Fields → Ledger → Option (String × Reservation)
active_under payload l = under (as_text (get "reservation_id" payload)) l.active

-- `complete`; the reservation is taken before anything of it is checked
unfoldable pub complete_found :
    Python → Fresh → Fields → Bool → Option (String × Reservation) → Action Completion
complete_found py fresh payload defer_delivery none l = (l, raise validation_error)
complete_found py fresh payload defer_delivery (some (reservation_id, r)) l =
    complete_reserved py fresh r payload defer_delivery
      (record l { active = remove reservation_id l.active })

unfoldable pub complete : Python → Fresh → Fields → Bool → Action Completion
complete py fresh payload defer_delivery l =
    complete_found py fresh payload defer_delivery (active_under payload l) l

-- `mark_delivered`
unfoldable pub mark_delivered : Identity → Action (Unit {0})
mark_delivered i l =
    if elem i l.completed
    then (record l { delivered = i ∷ l.delivered }, ok tt)
    else (l, raise validation_error)
