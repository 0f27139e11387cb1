-- ===== src/Schema/Tests.antt =====
-- A stage whose dispatch ran a tool, and the record of a tool call that the ledger writes.
use minireplayer.Prelude.{
  String, ◌≡◌, ◌≢◌, ◌↔◌, refl, sym, ◌∙◌, inl, inr, some_inj, arith, ◌==◌, false, true, none, some,
  List, [], ◌∷◌, ok, raise, elem, all, validation_error, string_eq, pair_eq, option_eq, nat_eq,
}
use mathlib.Core.Bool.{false≢true}
use minireplayer.Json.{
  Fields, null, str, bool, float, arr, nil, obj, end, field, get, get_or, has, is_text, text?,
  truth, opt_str,
}
use minireplayer.Contracts.{mini_swe, bind_typed_fields, visit}
use minireplayer.Boundary.{tool, kind_eq, Python, Reservation, Ledger, item}
use minireplayer.Boundary.Claim.{workspace_path, logical}
use minireplayer.Boundary.Complete.{tool_record, tool_ending, logical_arguments, extend, common}
use minireplayer.Cutoff.{Kind, Row, Stage, Tail, open_parents, close_stage, span_ids}
use minireplayer.Observation.{
  Library, exact_result_contract, validate_result_contract, read_contract, has_inventory, keys_in,
  contract_kind, contract_body, contract_fields,
}
use minireplayer.Observation.Project.{project_evidence, project_result, items_of}
use minireplayer.Schema.{validate_tool, statuses, among, require_among, is_name_or_none}
use minireplayer.Schema.Graph.{validate_causal_graph, executions, require_all}
use minireplayer.Schema.Graph.Accepted.{Distinct, IsCausal, validate_causal_graph_iff}
use minireplayer.Schema.Graph.Pruned.{close_stage-validate_causal_graph}
use minireplayer.Schema.Written.{IsNamed}
use minireplayer.Schema.Called.{with_observation, IsCalled, tool_record-validate_tool}

abbrev row : String → Row
row i = record {
  id = i;
  span_id = some "span-1";
  dispatch_id = none;
  execution_call_id = none;
  read_from = none;
  llm_attempt_ids = [];
  tool_call_ids = [];
  artifact_versions = [];
}

abbrev ran : Row
ran = record (row "dispatch-1") { execution_call_id = some "tool-1" }

abbrev lost : Row
lost = record (row "dispatch-2") { execution_call_id = some "tool-2" }

abbrev rows_of : Kind → List Row
rows_of Kind.dispatch = ran ∷ lost ∷ []
rows_of Kind.tool = record (row "tool-1") { dispatch_id = some "dispatch-1" } ∷ []
rows_of Kind.grader = []
rows_of Kind.artifact = []
rows_of Kind.llm = []

abbrev stage : Stage
stage = record {
  kept = rows_of;
  spans = record { span_id = "span-1"; parent_span_id = some "span-0" } ∷ [];
}

abbrev tails : List Tail
tails =
    record { replay_entry = some "enter-and-preserve-descendants"; span_id = some "span-0" } ∷ []

differ : (a b : String) → (a == b) ≡ false → a ≢ b
differ a b h e = false≢true (sym h ∙ (string_eq.beq_iff a b).1 e)

two_executions : Distinct (executions (rows_of Kind.dispatch))
unfolding executions
two_executions =
    (λ m. elim m [ inl e ↦ differ "tool-1" "tool-2" refl (some_inj e) | inr n ↦ n ], (λ n. n, tt))

close_stage-validate_causal_graph_example :
    (t : Stage) × (close_stage tails stage ≡ some t)
    × (validate_causal_graph t.spans (t.kept Kind.dispatch) (t.kept Kind.tool) (open_parents tails)
        ≡ ok tt)
close_stage-validate_causal_graph_example =
    close_stage-validate_causal_graph tails stage two_executions

validate_causal_graph_iff_example :
    (validate_causal_graph stage.spans (rows_of Kind.dispatch) (rows_of Kind.tool) ("span-0" ∷ [])
      ≡ ok tt)
    ↔ IsCausal stage.spans (rows_of Kind.dispatch) (rows_of Kind.tool) ("span-0" ∷ [])
validate_causal_graph_iff_example =
    validate_causal_graph_iff stage.spans (rows_of Kind.dispatch) (rows_of Kind.tool)
      ("span-0" ∷ [])

dispatch_lost :
    validate_causal_graph stage.spans (rows_of Kind.dispatch) (rows_of Kind.tool) ("span-0" ∷ [])
    ≡ raise validation_error
unfolding validate_causal_graph require_all elem span_ids
dispatch_lost = refl

abbrev lib : Library
lib = record { int_of = λ s. none; sha256_json = λ v. "sha256" }

abbrev py : Python
py = record {
  repr = λ v. "None";
  sha256_json = λ v. "sha256";
  resolve = λ path. path;
  validate_result_contract = λ v. ok tt;
  project_result = λ v contract. ok null;
}

abbrev ledger : Ledger
ledger = record {
  setting = record {
    replay = false;
    llm_only = false;
    adapter = mini_swe;
    places = record { run_root = "/data/run"; workspace = "/data/run/workspace"; repo = "/repo" };
    fast_claim = false;
    causal_lanes_enabled = true;
  };
  active = [];
  expected = [];
  cursor = [];
  cutoff_expected = [];
  cutoff_cursor = [];
  cutoff_intercepted = [];
  completed = [];
  delivered = [];
  lane_of_record = [];
  source_path_maps = [];
  truncated = [];
  truncated_elapsed = [];
  truncated_started = [];
  source_cutoff_at_ns = none;
  ledgers = [];
  spans = [];
  tail_runtime = [];
}

abbrev reservation : Reservation
reservation = record {
  kind = tool;
  record_id = "tool-1";
  span_id = "span-1";
  actor_id = "agent-1";
  lane = some "model-call:call-1";
  started_at_ns = 10;
  request = field "name" (str "bash") (
      field "implementation" (str "shell") (
        field "dispatch_id" (str "dispatch-1")
          (field "result_contract" (obj exact_result_contract) end)));
  expected = none;
}

abbrev payload : Fields
payload = field "result" (str "done") end

named : IsNamed reservation 20
named = record {
  record_named = differ "tool-1" "" refl;
  span_named = differ "span-1" "" refl;
  actor_named = differ "agent-1" "" refl;
  in_time = omega arith;
}

called : IsCalled reservation payload "bash" "shell"
unfolding get get_or has is_name_or_none opt_str
called = record {
  named = refl;
  name_some = differ "bash" "" refl;
  implemented = refl;
  implementation_some = differ "shell" "" refl;
  dispatched = refl;
  lane_some = λ e. differ "model-call:call-1" "" refl (some_inj e);
  placed = refl;
  native = refl;
}

logical_empty :
    logical_arguments (with_observation lib py) ledger reservation.request ≡ ok (obj end, null)
unfolding logical_arguments workspace_path logical get get_or has text? bind_typed_fields visit
    opt_str
logical_empty = refl

ended_well : tool_ending none payload ≡ ok (str "ok", (false, str "done"))
unfolding tool_ending get get_or has truth
ended_well = refl

ok_known : require_among statuses (str "ok") ≡ ok tt
unfolding require_among among elem
ok_known = refl

abbrev recorded_ending : Fields
recorded_ending = field "causal_lane" (str "model-call:call-1") (
    field "dispatch_id" (str "dispatch-1") (
      field "name" (str "bash") (
        field "implementation" (str "shell") (
          field "arguments" (obj end) (
            field "arguments_sha256" (str "sha256") (
              field "native_arguments" (obj end) (
                field "native_workspace_path" null (
                  field "result_contract" (obj exact_result_contract) (
                    field "semantic_timeout_s" null (
                      field "result" (str "done") (
                        field "native_result" (str "done") (
                          field "native_observations" (arr nil) (
                            field "status" (str "ok") (
                              field "exception_raised" (bool false) (
                                field "native_execution" (bool true) (
                                  field "cpu_seconds" (float "0.0")
                                    (field "child_processes" (arr nil) end)))))))))))))))))

written_ok :
    tool_record (with_observation lib py) ledger reservation payload 20
    ≡ ok (extend (common reservation 20) recorded_ending)
unfolding tool_record logical_arguments workspace_path logical get get_or has text?
    bind_typed_fields visit opt_str item with_observation project_evidence project_result
    read_contract has_inventory keys_in elem all is_text contract_kind contract_body contract_fields
    items_of tool_ending truth exact_result_contract
written_ok = refl

tool_record-validate_tool_example :
    validate_tool py.sha256_json validate_result_contract
      (extend (common reservation 20) recorded_ending)
    ≡ ok tt
tool_record-validate_tool_example =
    tool_record-validate_tool lib py ledger reservation payload
      (extend (common reservation 20) recorded_ending) end null 20 "bash" "shell" (str "ok")
      (str "done") false refl named called logical_empty ended_well ok_known written_ok
