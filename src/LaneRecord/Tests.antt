-- ===== src/LaneRecord/Tests.antt =====
-- A grader that starts before the cutoff and completes after it, and a scope that is still open.
use Prim.Native.String.{[] as nothing, ◌∷◌ as more}
use minireplayer.Prelude.{
  ℕ, zero, suc, String, ◌≡◌, refl, sym, ap, ◌∙◌, true, false, inl, none, some, List, [], ◌∷◌, ok,
  elem, insert, remove, lookup, keep, not, ltb, string_eq, pair_eq, option_eq,
}
use minireplayer.Json.{
  Fields, null, str, int, obj, end, field, get, get_or, has, put, is_text, nat?, text?, truth,
  opt_str,
}
use minireplayer.Contracts.{mini_swe, bind_typed_fields, visit}
use minireplayer.Boundary.{
  grader, kind_eq, kind_of, Python, spell, Reservation, Ledger, continue, item, lane_of,
}
use minireplayer.Boundary.Claim.{workspace_path, logical}
use minireplayer.Boundary.Start.{
  Fresh, start, start_headed, heading, prepare, claim_and_admit, admit, ids_for, reserve, opened,
  enter_tail,
}
use minireplayer.Boundary.Complete.{
  logical_arguments, complete, complete_found, complete_reserved, finish, end_time, active_under,
  build_record, record_unless_late, ended_late, write_completion, completion_response,
}
use minireplayer.Boundary.Cutoff.{freeze_source_cutoff, freeze_each, truncate, tail_of}
use minireplayer.Schema.{among, require_among}
use minireplayer.LaneRecord.{Logs, event_schema, spell_or}
use minireplayer.LaneRecord.Events.{
  Timed, is_event, starts_something, place_log, by_name, all_lines, check_event, check_events,
  event_leb, place_event, by_time, events,
}
use minireplayer.LaneRecord.Materialize.{
  nothing_played, payload_of, start_payload, opened_as, open_local, note_started, note_completed,
  play_start, play_complete, play_local, close_local, complete_payload, play_one, play,
  materialize_lane_recording,
}
use minireplayer.LaneRecord.Sorted.{has_key}
use minireplayer.LaneRecord.Timely.{Ascending, play-by_time}
use minireplayer.LaneRecord.Scopes.{
  note_start, note_event, collect, Row, ending_of, row_of, rows_of, place_row, rows_in_order,
  composite_scope_rows,
}
use minireplayer.LaneRecord.Spanned.{IsSpanned, composite_scope_rows-IsSpanned}
use minireplayer.LaneRecord.Materialized.{
  IsFresh, IsMaterialized, materialize_lane_recording-IsMaterialized,
}

abbrev py : Python
py = record {
  repr = λ v. "None";
  sha256_json = λ v. "sha256";
  resolve = λ path. path;
  validate_result_contract = λ v. ok tt;
  project_result = λ v contract. ok null;
}

-- a text of so many strokes
unfoldable strokes : ℕ → String
strokes zero = nothing
strokes (suc n) = more "i" (strokes n)

-- the number of strokes
unfoldable tally : String → ℕ
tally nothing = 0
tally (more c s) = suc (tally s)

tally-strokes : (i : ℕ) → tally (strokes i) ≡ i
unfolding strokes tally
tally-strokes zero = refl
tally-strokes (suc i) = ap suc (tally-strokes i)

strokes_injective : (i j : ℕ) → strokes i ≡ strokes j → i ≡ j
strokes_injective i j h = sym (tally-strokes i) ∙ ap tally h ∙ tally-strokes j

unfoldable draw : ℕ → Fresh
draw i = record { reservation_id = strokes i; record_id = "record"; span_id = "span"; now = 0 }

abbrev ledger : Ledger
ledger = record {
  setting = record {
    replay = false;
    llm_only = false;
    adapter = mini_swe;
    places = record { run_root = "/data/run"; workspace = "/data/run/workspace"; repo = "/repo" };
    fast_claim = false;
    causal_lanes_enabled = true;
  };
  active = [];
  expected = [];
  cursor = [];
  cutoff_expected = [];
  cutoff_cursor = [];
  cutoff_intercepted = [];
  completed = [];
  delivered = [];
  lane_of_record = [];
  source_path_maps = [];
  truncated = [];
  truncated_elapsed = [];
  truncated_started = [];
  source_cutoff_at_ns = none;
  ledgers = [];
  spans = [];
  tail_runtime = [];
}

abbrev event_of : String → ℕ → Fields → Fields
event_of name at rest =
    field "schema_version" event_schema
      (field "event" (str name) (field "at_ns" (int at) (field "actor_id" (str "agent-1") rest)))

abbrev grade : Fields
grade =
    field "kind" (str "grader")
      (field "actor_id" (str "agent-1") (field "started_at_ns" (int 10) end))

abbrev grade_event : Fields
grade_event = event_of "start" 10 (
    field "reservation_id" (str "local-1") (
      field "record_id" (str "grader-1")
        (field "span_id" (str "span-1") (field "payload" (obj grade) end))))

abbrev late_event : Fields
late_event =
    event_of "complete" 30 (field "reservation_id" (str "local-1") (field "payload" (obj end) end))

abbrev scope_event : Fields
scope_event = event_of "scope-start" 5 (field "scope_id" (str "scope-1") end)

abbrev logs : Logs
logs = ("lane-b", late_event ∷ []) ∷ ("lane-a", grade_event ∷ scope_event ∷ []) ∷ []

abbrev in_order : List Timed
in_order = (5, scope_event) ∷ (10, grade_event) ∷ (30, late_event) ∷ []

events_ok : events logs ≡ ok in_order
unfolding events by_name place_log all_lines check_events check_event require_among among elem
    is_text get nat? by_time place_event event_leb starts_something is_event
events_ok = refl

new : IsFresh draw ledger
unfolding draw
new = record { records = refl; idle = refl; all_different = strokes_injective }

abbrev graded : Reservation
graded = record {
  kind = grader;
  record_id = "grader-1";
  span_id = "span-1";
  actor_id = "agent-1";
  lane = none;
  started_at_ns = 10;
  request = put "span_id_hint" (str "span-1") (put "record_id_hint" (str "grader-1") grade);
  expected = none;
}

abbrev cut : Ledger
cut = record ledger {
  active = (strokes 0, graded) ∷ [];
  truncated = (grader, "grader-1") ∷ [];
  truncated_elapsed = ((grader, "grader-1"), 10) ∷ [];
  source_cutoff_at_ns = some 20;
}

open_at_cutoff :
    materialize_lane_recording py draw 20 logs ledger
    ≡ (cut, ok (tail_of py 10 graded (obj end) null ∷ []))
unfolding events by_name place_log all_lines check_events check_event require_among among elem
    is_text get nat? by_time place_event event_leb starts_something is_event
    materialize_lane_recording play play_one play_local play_start play_complete open_local
    note_started note_completed opened_as start_payload payload_of continue item has put spell start
    start_headed heading kind_of text? prepare claim_and_admit admit ids_for reserve enter_tail
    opened lane_of insert lookup draw freeze_source_cutoff freeze_each truncate logical_arguments
    workspace_path logical get_or bind_typed_fields visit opt_str strokes
open_at_cutoff = refl

-- a second grader, which starts and completes in time
abbrev short_grade : Fields
short_grade =
    field "kind" (str "grader")
      (field "actor_id" (str "agent-1") (field "started_at_ns" (int 6) end))

abbrev short_event : Fields
short_event = event_of "start" 6 (
    field "reservation_id" (str "local-2") (
      field "record_id" (str "grader-2")
        (field "span_id" (str "span-2") (field "payload" (obj short_grade) end))))

abbrev short_end : Fields
short_end = event_of "complete" 15 (
    field "reservation_id" (str "local-2")
      (field "payload" (obj (field "ended_at_ns" (int 15) (field "status" (str "ok") end))) end))

abbrev busy_logs : Logs
busy_logs =
    ("lane-b", late_event ∷ short_end ∷ []) ∷ ("lane-a", grade_event ∷ short_event ∷ []) ∷ []

abbrev busy : Ledger
busy = (materialize_lane_recording py draw 20 busy_logs ledger).0

abbrev busy_tails : List Fields
busy_tails = tail_of py 10 graded (obj end) null ∷ []

one_of_two_open : (materialize_lane_recording py draw 20 busy_logs ledger).1 ≡ ok busy_tails
unfolding events by_name place_log all_lines check_events check_event require_among among elem
    is_text get nat? by_time place_event event_leb starts_something is_event
    materialize_lane_recording play play_one play_local play_start play_complete open_local
    note_started note_completed opened_as start_payload payload_of continue item has put spell start
    start_headed heading kind_of text? prepare claim_and_admit admit ids_for reserve enter_tail
    opened lane_of insert lookup draw freeze_source_cutoff freeze_each truncate logical_arguments
    workspace_path logical get_or bind_typed_fields visit opt_str strokes close_local
    complete_payload complete complete_found complete_reserved finish end_time active_under remove
    build_record record_unless_late ended_late write_completion completion_response
one_of_two_open = refl

materialize_lane_recording-IsMaterialized_example :
    IsMaterialized py draw 20 busy_logs ledger busy busy_tails
materialize_lane_recording-IsMaterialized_example =
    materialize_lane_recording-IsMaterialized py draw 20 busy_logs ledger busy busy_tails new
      (ap (λ r. (busy, r)) one_of_two_open)

play-by_time_example :
    Ascending 0 (by_time ((30, late_event) ∷ (10, grade_event) ∷ []))
    × (keep (has_key 30 false) (by_time ((30, late_event) ∷ (10, grade_event) ∷ []))
        ≡ keep (has_key 30 false) ((30, late_event) ∷ (10, grade_event) ∷ []))
    × ((play py draw 20
          (by_time ((30, late_event) ∷ (10, grade_event) ∷ []))
          nothing_played
          ledger).0
        ≡ (play py draw 20
            (keep (λ t. not (ltb 20 t.0)) (by_time ((30, late_event) ∷ (10, grade_event) ∷ [])))
            nothing_played
            ledger).0)
play-by_time_example =
    play-by_time py draw 20 ((30, late_event) ∷ (10, grade_event) ∷ []) nothing_played ledger 30
      false

abbrev envelope : Row
envelope = record {
  scope_id = "scope-1";
  actor_id = "agent-1";
  session_id = "agent-1";
  name = "composite";
  causal_lane = "";
  started_at_ns = 5;
  ended_at_ns = 20;
  status = "truncated";
  cutoff_truncated = true;
}

one_envelope : composite_scope_rows py 20 logs ≡ ok (envelope ∷ [])
unfolding events by_name place_log all_lines check_events check_event require_among among elem
    is_text get nat? by_time place_event event_leb starts_something is_event composite_scope_rows
    collect note_event note_start lookup insert rows_of row_of ending_of item has spell spell_or
    truth rows_in_order place_row
one_envelope = refl

composite_scope_rows-IsSpanned_example :
    (ts : List Timed) × (events logs ≡ ok ts) × IsSpanned py ts 20 envelope
composite_scope_rows-IsSpanned_example =
    composite_scope_rows-IsSpanned py 20 logs (envelope ∷ []) one_envelope envelope (inl refl)
