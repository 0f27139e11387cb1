-- ===== src/Bundle/PreDispatch.antt =====
-- minireplayer/bundle.py: `materialize_pre_dispatch_tails`, the markers of calls that the model made
-- and that no operation entered.
use Prim.Native.String.{◌++◌ as text_append}
use minireplayer.Prelude.{
  ℕ, String, Bool, true, false, not, ◌&&◌, ◌||◌, Option, none, some, List, [], ◌∷◌, ◌++◌, Result,
  ok, raise, value_error, ◌>>=◌, elem, leb, ltb, nat_beq, if◌then◌else◌, ◌==◌, string_eq, pair_eq,
}
use minireplayer.Json.{
  Value, Fields, obj, arr, str, int, bool, nil, cons, end, field, get, get_or, is_text, text?, nat?,
}
use minireplayer.Json.Text.{starts_with}
use minireplayer.Schema.Chain.{text_leb}
use minireplayer.Boundary.{Python, spell, item}
use minireplayer.Observation.{result_contract_schema}
use minireplayer.LaneRecord.{spell_or}
use minireplayer.Bundle.{Library, CallId, calls_of, cons_some}
use minireplayer.Bundle.Calls.{ToolCall, response_tool_calls}

-- the start of a child of a model call, and the span that it names as its parent
abbrev pub Candidate : Type 0
Candidate = ℕ × String

unfoldable pub required_time : Fields → String → Result ℕ
required_time r key = item key r >>= λ v. elim (nat? v) [ none ↦ raise value_error | some n ↦ ok n ]

abbrev text_starts : String → Option String → Bool
text_starts prefix none = false
text_starts prefix (some s) = starts_with prefix s

abbrev is_free : List String → Option String → Bool
is_free claimed none = false
is_free claimed (some parent) = not (elem parent claimed)

abbrev text_of : Value → Option String
text_of (str s) = some s
text_of _ = none

-- a request of a child session that names a parent that is not claimed, and began late enough
unfoldable pub candidate : String → String → ℕ → List String → Fields → Result (Option Candidate)
candidate actor session after claimed child =
    let parent = text? (get "parent_span_id" child) in
    if is_text actor (get "actor_id" child)
      && (text_starts (text_append session "/child-") (text_of (get "session_id" child))
          && is_free claimed parent)
    then (required_time child "started_at_ns" >>= λ started. ok (
        if leb after started
        then elim parent [ none ↦ none | some p ↦ some (started, p) ]
        else none))
    else ok none

unfoldable pub candidates :
    String → String → ℕ → List String → List Fields → Result (List Candidate)
candidates actor session after claimed [] = ok []
candidates actor session after claimed (child ∷ rest) = do
  o ← candidate actor session after claimed child
  others ← candidates actor session after claimed rest
  ok (cons_some o others)

abbrev candidate_leb : Candidate → Candidate → Bool
candidate_leb a b = ltb a.0 b.0 || (nat_beq a.0 b.0 && text_leb a.1 b.1)

abbrev lower : Candidate → Option Candidate → Candidate
lower a none = a
lower a (some b) = if candidate_leb a b then a else b

-- `sorted(...)[0]`
unfoldable pub least : List Candidate → Option Candidate
least [] = none
least (a ∷ rest) = some (lower a (least rest))

-- The local variables: the tails so far, the calls that have an operation, and the parents claimed.
pub record Rendering : Type 0 where
  pub operations : List Fields
  pub observed : List CallId
  pub claimed : List String

-- `child_parent_for`, for a composite call of the coral adapter
unfoldable pub child_parent_for :
    List Fields → String → String → ℕ → List String → Result (Option String)
child_parent_for llm actor session after claimed = do
  found ← candidates actor session after claimed llm
  ok (elim (least found) [ none ↦ none | some (started, parent) ↦ some parent ])

abbrev is_none : Option String → Bool
is_none none = true
is_none (some s) = false

unfoldable pub replay_entry : Option String → String
replay_entry none = "block-before-entry"
replay_entry (some parent) = "enter-and-preserve-descendants"

-- What a marker says of its call.
pub record Marked : Type 0 where
  pub actor : String
  pub call : ToolCall
  pub attempt : Fields
  pub ended : Value
  pub attempt_id : Value
  pub digest : String
  pub parent : Option String

-- `common`, with `pre_dispatch` as it is given
unfoldable pub common : Python → Marked → Bool → Fields → Fields
common py m pre_dispatch rest = field "cutoff_truncated" (bool true) (
    field "pre_dispatch" (bool pre_dispatch) (
      field "replay_entry" (str (replay_entry m.parent)) (
        field "actor_id" (str m.actor) (
          field "process_role" (get_or "process_role" (str "agent") m.attempt) (
            field "lane" (str (text_append "model-call:" m.call.native_call_id)) (
              field "causal_lane" (str (text_append "model-call:" m.call.native_call_id)) (
                field "session_id" (get "session_id" m.attempt) (
                  field "origin"
                    (obj (
                      field "kind" (str "llm_structured") (
                        field "trigger_id" m.attempt_id
                          (field "model_call_id" (str m.call.native_call_id) end))))
                    (field "name" (str m.call.name) (
                      field "arguments" (obj m.call.arguments) (
                        field "native_arguments" (obj m.call.arguments) (
                          field "arguments_sha256" (str (py.sha256_json (obj m.call.arguments))) (
                            field "source_started_at_ns" m.ended
                              (field "elapsed_ns" (int 0) rest))))))))))))))

unfoldable pub dispatch_id : Marked → String
dispatch_id m = text_append "predispatch-" m.digest

unfoldable pub dispatch_marker : Python → Marked → Fields
dispatch_marker py m = common py m (is_none m.parent) (
    field "kind" (str "dispatch") (
      field "dispatch_id" (str (dispatch_id m)) (
        field "record_id" (str (dispatch_id m)) (
          field "span_id" (str (text_append "span-predispatch-" m.digest)) (
            field "parser_identity" (str "opencode.message.part.tool") (
              field "dispatcher_identity" (str "opencode.tool.execute.before")
                (field "native_call_id" (str m.call.native_call_id) end)))))))

abbrev optional_field : String → Value
optional_field pointer = obj (field "json_pointer" (str pointer) (field "optional" (bool true) end))

-- the contract of a composite call
unfoldable pub composite_contract : Value
composite_contract = obj (
    field "schema_version" (str result_contract_schema) (
      field "kind" (str "recorded-observation") (
        field "fields"
          (arr (
            cons (optional_field "/output") (
              cons (optional_field "/error") (
                cons (optional_field "/metadata/parentSessionId")
                  (cons (optional_field "/metadata/sessionId") nil)))))
          end)))

unfoldable pub tool_marker : Python → Marked → String → Fields
tool_marker py m parent = common py m false (
    field "kind" (str "tool") (
      field "call_id" (str (text_append "pretool-" m.digest)) (
        field "record_id" (str (text_append "pretool-" m.digest)) (
          field "span_id" (str parent) (
            field "parent_span_id" (str (text_append "span-predispatch-" m.digest)) (
              field "dispatch_id" (str (dispatch_id m)) (
                field "implementation" (str "opencode-native-replay-plugin")
                  (field "result_contract" composite_contract end))))))))

-- the markers of a call: one for its dispatch, and one for the tool that replay enters
unfoldable pub markers : Python → Marked → List Fields
markers py m =
    dispatch_marker py m ∷ elim m.parent [ none ↦ [] | some parent ↦ tool_marker py m parent ∷ [] ]

abbrev claim_parent : Option String → List String → List String
claim_parent none claimed = claimed
claim_parent (some parent) claimed = parent ∷ claimed

unfoldable pub add_markers : Python → Marked → Rendering → Rendering
add_markers py m r = record {
  operations = r.operations ++ markers py m;
  observed = (m.actor, m.call.native_call_id) ∷ r.observed;
  claimed = claim_parent m.parent r.claimed;
}

-- the parent of a call, which only a composite call of the coral adapter can have
unfoldable pub parent_of :
    Python → Bool → List Fields → String → Fields → ToolCall → List String → Result (Option String)
parent_of py coral llm actor attempt call claimed =
    let session = spell_or py (get "session_id" attempt) "" in
    if coral && (call.name == "task" && not (session == ""))
    then (required_time attempt "ended_at_ns" >>= λ after.
        child_parent_for llm actor session after claimed)
    else ok none

-- one turn of the inner loop
unfoldable pub render_call :
    Python
    → Library
    → Bool
    → List Fields
    → String
    → Fields
    → ToolCall
    → Rendering
    → Result Rendering
render_call py lib coral llm actor attempt call r =
    if elem (actor, call.native_call_id) r.observed
    then ok r
    else (parent_of py coral llm actor attempt call r.claimed >>= λ parent.
        item "attempt_id" attempt >>= λ attempt_id. item "ended_at_ns" attempt >>= λ ended. ok (
          add_markers py
            (record {
              actor = actor;
              call = call;
              attempt = attempt;
              ended = ended;
              attempt_id = attempt_id;
              digest = lib.call_digest actor call.native_call_id;
              parent = parent;
            })
            r))

unfoldable pub render_calls :
    Python
    → Library
    → Bool
    → List Fields
    → String
    → Fields
    → List ToolCall
    → Rendering
    → Result Rendering
render_calls py lib coral llm actor attempt [] r = ok r
render_calls py lib coral llm actor attempt (call ∷ rest) r =
    render_call py lib coral llm actor attempt call r
    >>= render_calls py lib coral llm actor attempt rest

-- the loop over the attempts
unfoldable pub render_attempts :
    Python → Library → Bool → List Fields → List Fields → Rendering → Result Rendering
render_attempts py lib coral llm [] r = ok r
render_attempts py lib coral llm (attempt ∷ rest) r = do
  actor ← item "actor_id" attempt
  response ← item "response" attempt
  calls ← response_tool_calls lib response
  next ← render_calls py lib coral llm (spell py actor) attempt calls r
  render_attempts py lib coral llm rest next

-- `materialize_pre_dispatch_tails`, for the operations among the tails; the requests are copied
unfoldable pub materialize_pre_dispatch_tails :
    Python → Library → Bool → List Fields → List Fields → List Fields → Result (List Fields)
materialize_pre_dispatch_tails py lib coral llm dispatches operations = do
  observed ← calls_of py (dispatches ++ operations)
  r ←
      render_attempts py lib coral llm llm
        (record { operations = operations; observed = observed; claimed = [] })
  ok r.operations
