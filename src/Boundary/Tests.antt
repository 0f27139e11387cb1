-- ===== src/Boundary/Tests.antt =====
-- Graders of one actor: a record run with one of them open, and a replay of two.
use minireplayer.Prelude.{
  String, ◌≡◌, refl, Bool, true, false, none, some, List, [], ◌∷◌, ◌++◌, ok, raise,
  validation_error, mismatch_error, drop, insert, elem, remove, lookup, lookup_or, nat_eq,
  string_eq, pair_eq, option_eq,
}
use minireplayer.Json.{Fields, null, str, obj, end, field, get, get_or, has, text?, opt_str, nat?}
use minireplayer.Json.Same.{same_all, same, width}
use minireplayer.Contracts.{mini_swe, bind_typed_fields, run_path_map, visit}
use minireplayer.Boundary.{
  grader, kind_eq, Python, Key, Reservation, Setting, Ledger, lane_of, item, claim_identity,
  continue,
}
use minireplayer.Boundary.Claim.{
  claim, claim_at, claim_closed, claimable, matches, advance, workspace_path, logical, update,
}
use minireplayer.Boundary.Start.{Fresh}
use minireplayer.Boundary.Complete.{
  complete, active_under, logical_arguments, complete_found, complete_reserved, finish, end_time,
  hold_truncated,
}
use minireplayer.Boundary.Cutoff.{freeze_source_cutoff, freeze_each, truncate, tail_of}
use minireplayer.Boundary.Serve.{
  Server, handle_start, handle_complete, answer_complete, acknowledge, Phase, starting,
}
use minireplayer.Boundary.Order.{Claimed, claim-Claimed, queue, place}
use minireplayer.Boundary.Lanes.{Call, handed, after, handed-after}
use minireplayer.Boundary.Life.{IsKept}
use minireplayer.Boundary.Reach.{starts, completes, acknowledges, next, done, Steps-IsKept}
use minireplayer.Boundary.Tails.{IsHeld, complete-complete}
use minireplayer.Boundary.Held.{freeze-IsHeld}

abbrev py : Python
py = record {
  repr = λ v. "None";
  sha256_json = λ v. "sha256";
  resolve = λ path. path;
  validate_result_contract = λ v. ok tt;
  project_result = λ v contract. ok null;
}

abbrev nobody : String → Bool
nobody actor = false

abbrev setting : Bool → Setting
setting replay = record {
  replay = replay;
  llm_only = false;
  adapter = mini_swe;
  places = record { run_root = "/data/run"; workspace = "/data/run/workspace"; repo = "/repo" };
  fast_claim = false;
  causal_lanes_enabled = true;
}

abbrev fresh_ledger : Bool → Ledger
fresh_ledger replay = record {
  setting = setting replay;
  active = [];
  expected = [];
  cursor = [];
  cutoff_expected = [];
  cutoff_cursor = [];
  cutoff_intercepted = [];
  completed = [];
  delivered = [];
  lane_of_record = [];
  source_path_maps = [];
  truncated = [];
  truncated_elapsed = [];
  truncated_started = [];
  source_cutoff_at_ns = none;
  ledgers = [];
  spans = [];
  tail_runtime = [];
}

-- a grader's record and the request for it
abbrev graded : String → String → Fields
graded attempt implementation = field "attempt_id" (str attempt) (
    field "span_id" (str "span-1") (
      field "actor_id" (str "agent-1")
        (field "grader_kind" (str "pytest") (field "implementation" (str implementation) end))))

abbrev asked : String → Fields
asked implementation = field "kind" (str "grader") (
    field "actor_id" (str "agent-1")
      (field "grader_kind" (str "pytest") (field "implementation" (str implementation) end)))

abbrev lane : Key
lane = (grader, ("agent-1", none))

abbrev two_graded : Ledger
two_graded = record (fresh_ledger true) {
  expected = (lane, graded "attempt-1" "unit" ∷ graded "attempt-2" "full" ∷ []) ∷ [];
}

-- one that matches, one that drifts from the record, and one of an actor that the recording lacks
abbrev calls : List Call
calls =
    record { over = nobody; kind = grader; actor = "agent-1"; payload = asked "unit" }
    ∷ record { over = nobody; kind = grader; actor = "agent-1"; payload = asked "unit" }
    ∷ record { over = nobody; kind = grader; actor = "agent-2"; payload = asked "unit" }
    ∷ []

claim_first :
    claim py nobody grader "agent-1" (asked "unit") two_graded
    ≡ (record two_graded { cursor = (lane, 1) ∷ [] }, ok (graded "attempt-1" "unit"))
unfolding claim claim_at claim_closed matches claimable claim_identity item same_all same width
    lane_of lookup_or lookup insert advance has get
claim_first = refl

claim_drift :
    claim py nobody grader "agent-1" (asked "full") two_graded ≡ (two_graded, raise mismatch_error)
unfolding claim claim_at claim_closed matches claimable claim_identity item same_all same width
    lane_of lookup_or lookup insert advance has get
claim_drift = refl

claim-Claimed_example :
    Claimed py lane two_graded
      (claim py nobody grader "agent-1" (asked "unit") two_graded).0
      (claim py nobody grader "agent-1" (asked "unit") two_graded).1
unfolding lane_of
claim-Claimed_example = claim-Claimed py nobody grader "agent-1" (asked "unit") two_graded

handed-after_example :
    handed py lane calls two_graded
      ++ drop (place lane (after py calls two_graded)) (queue lane (after py calls two_graded))
    ≡ drop (place lane two_graded) (queue lane two_graded)
unfolding lookup_or lookup
handed-after_example = handed-after py lane calls two_graded refl

-- an open grader of a record run
abbrev open_grader : Reservation
open_grader = record {
  kind = grader;
  record_id = "attempt-1";
  span_id = "span-1";
  actor_id = "agent-1";
  lane = none;
  started_at_ns = 5;
  request = asked "unit";
  expected = none;
}

abbrev one_open : Ledger
one_open = record (fresh_ledger false) { active = ("reservation-1", open_grader) ∷ [] }

abbrev completion : Fields
completion = field "reservation_id" (str "reservation-1") (field "status" (str "ok") end)

abbrev drawn : Fresh
drawn = record {
  reservation_id = "reservation-1";
  record_id = "record-1";
  span_id = "span-1";
  now = 7;
}

complete-complete_example :
    complete py drawn completion true (complete py drawn completion true one_open).0
    ≡ ((complete py drawn completion true one_open).0, raise validation_error)
complete-complete_example =
    complete-complete py drawn drawn completion completion true true one_open refl

abbrev one_truncated : Ledger
one_truncated = record one_open { truncated = (grader, "attempt-1") ∷ [] }

-- two graders of a record run are open, and the first completes after the freeze
abbrev second_grader : Reservation
second_grader = record open_grader { record_id = "attempt-2"; span_id = "span-2" }

abbrev two_open : Server
two_open = record {
  ledger = record (fresh_ledger false) {
    active = ("reservation-1", open_grader) ∷ ("reservation-2", second_grader) ∷ [];
  };
  hard_failure = none;
}

abbrev second_completion : Fields
second_completion = field "reservation_id" (str "reservation-2") (field "status" (str "ok") end)

abbrev two_tails : List Fields
two_tails = tail_of py 4 open_grader (obj end) null ∷ tail_of py 4 second_grader (obj end) null ∷ []

freeze_two : (freeze_source_cutoff py 9 two_open.ledger).1 ≡ ok two_tails
unfolding freeze_source_cutoff freeze_each continue truncate logical_arguments logical
    workspace_path update bind_typed_fields visit run_path_map insert get get_or has text? opt_str
freeze_two = refl

abbrev frozen_two : Server
frozen_two = record two_open { ledger = (freeze_source_cutoff py 9 two_open.ledger).0 }

abbrev one_completed : Server
one_completed = (handle_complete py drawn completion frozen_two).0

second_open :
    active_under second_completion one_completed.ledger ≡ some ("reservation-2", second_grader)
unfolding freeze_source_cutoff freeze_each continue truncate logical_arguments logical
    workspace_path update bind_typed_fields visit run_path_map insert get get_or has text? opt_str
    handle_complete answer_complete complete complete_found complete_reserved finish end_time nat?
    hold_truncated elem remove lookup active_under
second_open = refl

freeze-IsHeld_example :
    IsHeld one_completed.ledger (complete py drawn second_completion true one_completed.ledger)
unfolding active_under lookup get
freeze-IsHeld_example =
    freeze-IsHeld py 9 two_open two_tails drawn second_completion true "reservation-2" second_grader
      freeze_two (next (completes drawn completion) done) refl second_open

-- the first of two recorded operations is done, and the second is a tail that ran for 4
abbrev half_done : Ledger
half_done = record two_graded {
  completed = (grader, "attempt-1") ∷ [];
  delivered = (grader, "attempt-1") ∷ [];
  truncated = (grader, "attempt-2") ∷ [];
  truncated_elapsed = ((grader, "attempt-2"), 4) ∷ [];
  truncated_started = ((grader, "attempt-2"), 10) ∷ [];
}

abbrev server : Server
server = record { ledger = fresh_ledger false; hard_failure = some starting }

abbrev server₁ : Server
server₁ = (handle_start py none nobody drawn (asked "unit") server).0

abbrev server₂ : Server
server₂ = (handle_complete py drawn completion server₁).0

Steps-IsKept_example :
    IsKept (acknowledge (some (grader, "record-1")) server₂).ledger
    × ((p : Phase)
        → some starting ≡ some p
        → (acknowledge (some (grader, "record-1")) server₂).hard_failure ≡ some p)
Steps-IsKept_example =
    Steps-IsKept py
      (next (starts none nobody drawn (asked "unit") {s = server})
        (next (completes drawn completion) (next (acknowledges (some (grader, "record-1"))) done)))
      ((λ i m. m), refl, refl)
