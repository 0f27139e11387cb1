-- ===== src/Boundary/Cutoff.antt =====
-- minireplay/boundary.py: `freeze_source_cutoff`.
use minireplayer.Prelude.{
  ℕ, ◌-◌, String, Bool, true, false, ◌&&◌, some, List, [], ◌∷◌, Dict, ok, insert, if◌then◌else◌,
  ◌==◌, pair_eq, string_eq,
}
use minireplayer.Json.{
  Value, Fields, bool, int, str, obj, end, field, get, get_or, put, is_text, opt_str,
}
use minireplayer.Boundary.{
  Kind, dispatch, tool, grader, artifact, kind_eq, kind_text, id_field, Python, Reservation, Ledger,
  Action, continue,
}
use minireplayer.Boundary.Complete.{logical_arguments, identity}

abbrev is_call : Kind → Bool
is_call dispatch = true
is_call tool = true
is_call grader = false
is_call artifact = false

unfoldable pub replay_entry : Reservation → String
replay_entry r =
    if is_text "task" (get "name" r.request) && is_call r.kind
    then "enter-and-preserve-descendants"
    else "block-before-entry"

-- a tool tail names the dispatch that it belongs to
unfoldable pub parent_dispatch : Reservation → Fields → Fields
parent_dispatch r tail =
    if r.kind == tool then put "dispatch_id" (get "dispatch_id" r.request) tail else tail

-- the tail that is written for an operation that still runs
unfoldable pub tail_of : Python → ℕ → Reservation → Value → Value → Fields
tail_of py elapsed r arguments workspace = parent_dispatch r (
    put (id_field r.kind) (str r.record_id) (
      field "cutoff_truncated" (bool true) (
        field "kind" (str (kind_text r.kind)) (
          field "record_id" (str r.record_id) (
            field "span_id" (str r.span_id) (
              field "actor_id" (str r.actor_id) (
                field "lane" (opt_str r.lane) (
                  field "causal_lane" (opt_str r.lane) (
                    field "session_id" (get "session_id" r.request) (
                      field "origin" (get "origin" r.request) (
                        field "parent_span_id" (get "parent_span_id" r.request) (
                          field "name" (get "name" r.request) (
                            field "implementation" (get "implementation" r.request) (
                              field "grader_kind" (get "grader_kind" r.request) (
                                field "logical_path" (get "logical_path" r.request) (
                                  field "operation" (get "operation" r.request) (
                                    field "version" (get "version" r.request) (
                                      field "arguments" arguments (
                                        field "native_arguments"
                                          (get_or "arguments" (obj end) r.request)
                                          (field "native_workspace_path" workspace (
                                            field "arguments_sha256"
                                              (str (py.sha256_json arguments))
                                              (field "result_contract"
                                                (get "result_contract" r.request)
                                                (field "source_started_at_ns" (int r.started_at_ns)
                                                  (field "elapsed_ns" (int elapsed) (
                                                    field "replay_entry" (str (replay_entry r))
                                                      end)))))))))))))))))))))))))

-- the operation is open at the cutoff, and has run for so long
unfoldable pub truncate : ℕ → Reservation → Ledger → Ledger
truncate cutoff r l = record l {
  truncated = identity r ∷ l.truncated;
  truncated_elapsed = insert (identity r) (cutoff - r.started_at_ns) l.truncated_elapsed;
}

-- the loop of `freeze_source_cutoff`
unfoldable pub freeze_each : Python → ℕ → Dict String Reservation → Action (List Fields)
freeze_each py cutoff [] l = (l, ok [])
freeze_each py cutoff ((_, r) ∷ rest) l =
    continue (truncate cutoff r l, logical_arguments py l r.request)
      (λ (arguments, workspace) l₁. continue (freeze_each py cutoff rest l₁) (λ tails l₂.
        (l₂, ok (tail_of py (cutoff - r.started_at_ns) r arguments workspace ∷ tails))))

-- `freeze_source_cutoff`
unfoldable pub freeze_source_cutoff : Python → ℕ → Action (List Fields)
freeze_source_cutoff py cutoff l =
    freeze_each py cutoff l.active (record l { source_cutoff_at_ns = some cutoff })
