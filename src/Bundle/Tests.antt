-- ===== src/Bundle/Tests.antt =====
-- An answer that is streamed in two pieces, whose call no dispatch entered.
use minireplayer.Prelude.{
  String, ◌≡◌, ◌≢◌, refl, sym, ◌∙◌, ok_injective, subst, true, none, some, [], ◌∷◌, Option, Result,
  ok, raise, validation_error, value_error, elem, all, insert, lookup, lookup_or, string_eq,
  pair_eq, if◌then◌else◌, ◌==◌,
}
use minireplayer.Json.{
  Value, Fields, null, str, int, arr, nil, cons, obj, end, field, get, get_or, has, truth,
}
use minireplayer.Boundary.{Python, spell, item}
use minireplayer.LaneRecord.{spell_or}
use minireplayer.Observation.{Index, front}
use minireplayer.Bundle.{Library, index_eq, calls_of}
use minireplayer.Bundle.Calls.{
  ToolCall, response_tool_calls, slots_of, consume_chunks, consume, consume_choices, consume_choice,
  consume_calls, consume_call, add_pieces, finished, arguments_of,
}
use minireplayer.Bundle.PreDispatch.{
  Marked, dispatch_marker, markers, add_markers, parent_of, render_call, render_calls,
  render_attempts, materialize_pre_dispatch_tails,
}
use minireplayer.Bundle.Checks.{require_coral_dispatch_coverage, emitted, emitted_by}
use minireplayer.Bundle.Covered.{materialize-require_coral_dispatch_coverage}
use minireplayer.Bundle.Accepted.{AreTails, materialize-AreTails}
use mathlib.Core.Bool.{false≢true}

abbrev int_of : Value → Result Index
int_of (int n) = ok (front n)
int_of _ = raise value_error

abbrev loads : String → Option Value
loads text = if text == "{\"cmd\":1}" then some (obj (field "cmd" (int 1) end)) else none

abbrev lib : Library
lib = record { int_of = int_of; loads = loads; call_digest = λ actor call. "d1" }

abbrev py : Python
py = record {
  repr = λ v. "None";
  sha256_json = λ v. "sha256";
  resolve = λ path. path;
  validate_result_contract = λ v. ok tt;
  project_result = λ v contract. ok null;
}

abbrev one : Value → Value
one v = arr (cons v nil)

abbrev chunk : Fields → Value
chunk call = obj (
    field "payload"
      (obj (
        field "choices"
          (one (obj (field "delta" (obj (field "tool_calls" (one (obj call)) end)) end))) end))
      end)

abbrev first_piece : Fields
first_piece = field "id" (str "call-1") (
    field "function" (obj (field "name" (str "bash") (field "arguments" (str "{\"cmd\"") end))) end)

abbrev second_piece : Fields
second_piece = field "function" (obj (field "arguments" (str ":1}") end)) end

abbrev response : Value
response = obj (field "chunks" (arr (cons (chunk first_piece) (cons (chunk second_piece) nil))) end)

abbrev call : ToolCall
call = record {
  native_call_id = "call-1";
  name = "bash";
  raw_arguments = "{\"cmd\":1}";
  arguments = field "cmd" (int 1) end;
}

put_together : response_tool_calls lib response ≡ ok (call ∷ [])
unfolding response_tool_calls slots_of consume_chunks consume consume_choices consume_choice
    consume_calls consume_call add_pieces finished arguments_of get get_or has insert lookup
    lookup_or
put_together = refl

abbrev attempt : Fields
attempt = field "attempt_id" (str "llm-1") (
    field "actor_id" (str "agent-1") (
      field "session_id" (str "session-1")
        (field "ended_at_ns" (int 40) (field "response" response end))))

abbrev marked : Marked
marked = record {
  actor = "agent-1";
  call = call;
  attempt = attempt;
  ended = int 40;
  attempt_id = str "llm-1";
  digest = "d1";
  parent = none;
}

one_marker :
    materialize_pre_dispatch_tails py lib true (attempt ∷ []) [] []
    ≡ ok (dispatch_marker py marked ∷ [])
unfolding response_tool_calls slots_of consume_chunks consume consume_choices consume_choice
    consume_calls consume_call add_pieces finished arguments_of get get_or has insert lookup
    lookup_or materialize_pre_dispatch_tails calls_of render_attempts render_calls render_call
    parent_of spell_or truth spell item elem add_markers markers
one_marker = refl

not_marked :
    require_coral_dispatch_coverage py lib true (attempt ∷ []) [] [] ≡ raise validation_error
unfolding response_tool_calls slots_of consume_chunks consume consume_choices consume_choice
    consume_calls consume_call add_pieces finished arguments_of get get_or has insert lookup
    lookup_or require_coral_dispatch_coverage emitted emitted_by calls_of spell item elem all
not_marked = refl

materialize-require_coral_dispatch_coverage_example :
    require_coral_dispatch_coverage py lib true (attempt ∷ []) [] (dispatch_marker py marked ∷ [])
    ≡ ok tt
materialize-require_coral_dispatch_coverage_example =
    materialize-require_coral_dispatch_coverage py lib true (attempt ∷ []) [] []
      (dispatch_marker py marked ∷ []) one_marker

attempt_actor : item "actor_id" attempt ≡ ok (str "agent-1")
unfolding item get has
attempt_actor = refl

actor_named : spell py (str "agent-1") ≢ ""
unfolding spell
actor_named e = false≢true ((string_eq.beq_iff "agent-1" "").1 e)

materialize-AreTails_example : AreTails (dispatch_marker py marked ∷ [])
materialize-AreTails_example =
    materialize-AreTails py lib true (attempt ∷ []) [] [] (dispatch_marker py marked ∷ [])
      (
        λ actor e.
            subst (λ v. spell py v ≢ "") (ok_injective _ _ (sym attempt_actor ∙ e)) actor_named,
        tt,
      )
      tt one_marker
