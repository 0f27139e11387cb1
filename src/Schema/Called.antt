-- ===== src/Schema/Called.antt =====
-- minireplayer/schema.py, minireplayer/boundary.py and minireplayer/observation.py: which tool
-- records that the ledger writes at a completion pass the checks of a bundle.
use minireplayer.Prelude.{
  ℕ, String, ◌≡◌, ◌≢◌, refl, Bool, true, not, ◌||◌, some, ok, bind-ok, ok_injective, subst,
  beq_refl, le→leb, string_eq,
}
use minireplayer.Json.{Value, Fields, str, bool, obj, get, get_or, put, has, is_text, opt_str}
use minireplayer.Boundary.{tool, id_field, Reservation, Ledger, Python, item}
use minireplayer.Boundary.Complete.{
  common, schema, tool_record, tool_ending, extend, logical_arguments,
}
use minireplayer.Llm.Slot.{object, boolean, is_integer}
use minireplayer.Observation.{Library, validate_result_contract}
use minireplayer.Observation.Project.{project_evidence, project_evidence-accepted}
use minireplayer.Schema.{
  strings, timespan, integer_le, is_name_or_none, is_none, require_among, validate_tool, statuses,
}
use minireplayer.Schema.Written.{IsNamed, string-ok, is_name_or_none-opt_str}

-- the ledger with observation.py in its place
unfoldable pub with_observation : Library → Python → Python
with_observation lib py = record py {
  validate_result_contract = validate_result_contract;
  project_result = project_evidence lib;
}

-- What a tool call asks for and how it ended, as the check of tools wants it.
pub record IsCalled (r : Reservation) (payload : Fields) (name implementation : String)
    : Type 0 where
  pub named : get "name" r.request ≡ str name
  pub name_some : name ≢ ""
  pub implemented : get "implementation" r.request ≡ str implementation
  pub implementation_some : implementation ≢ ""
  pub dispatched : is_name_or_none (get "dispatch_id" r.request) ≡ true
  pub lane_some : r.lane ≢ some ""
  pub placed :
      (not (is_none (get "dispatch_id" r.request)) || not (is_none (opt_str r.lane))) ≡ true
  pub native : get_or "native_execution" (bool true) payload ≡ bool true

written_tool :
    (lib : Library) (py : Python) (l : Ledger) (r : Reservation)
    (payload written arguments : Fields) (workspace : Value) (ended : ℕ)
    (name implementation : String) (status result : Value) (raised : Bool)
    → IsNamed r ended
    → IsCalled r payload name implementation
    → logical_arguments (with_observation lib py) l r.request ≡ ok (obj arguments, workspace)
    → tool_ending r.expected payload ≡ ok (status, (raised, result))
    → require_among statuses status ≡ ok tt
    → tool_record (with_observation lib py) l (record r { kind = tool }) payload ended ≡ ok written
    → validate_tool py.sha256_json validate_result_contract written ≡ ok tt
unfolding validate_tool tool_record strings get has is_text timespan is_integer integer_le extend
    common put schema id_field object boolean with_observation
written_tool lib py l r payload written arguments workspace ended name implementation status result
      raised n d a t s h =
    let (contract, c, h₁) = bind-ok (item "result_contract" r.request) _ written (rw a at h) in
    let (evidence, e, h₂) =
      bind-ok (project_evidence lib (get "result" payload) contract) _ written h₁ in
    subst (λ w. validate_tool py.sha256_json validate_result_contract w ≡ ok tt)
      (ok_injective _ _ (rw t at h₂))
      (rw
        (
          d.named,
          d.implemented,
          string-ok r.record_id n.record_named,
          string-ok r.span_id n.span_named,
          string-ok r.actor_id n.actor_named,
          string-ok name d.name_some,
          string-ok implementation d.implementation_some,
          d.dispatched,
          is_name_or_none-opt_str r.lane d.lane_some,
          d.placed,
          beq_refl (py.sha256_json (obj arguments)),
          project_evidence-accepted lib (get "result" payload) contract evidence e,
          s,
          d.native,
          le→leb r.started_at_ns ended n.in_time,
        )
        refl)

-- The record that the ledger writes for a tool, with the projections of observation.py, passes the
-- check of tools, its result contract included, where the reservation is named and in time, its
-- arguments are an object, the request names tool and implementation and stands in a lane or under
-- a dispatch, the execution was native, and the status that the record takes is a known one.
pub tool_record-validate_tool :
    (lib : Library) (py : Python) (l : Ledger) (r : Reservation)
    (payload written arguments : Fields) (workspace : Value) (ended : ℕ)
    (name implementation : String) (status result : Value) (raised : Bool)
    → r.kind ≡ tool
    → IsNamed r ended
    → IsCalled r payload name implementation
    → logical_arguments (with_observation lib py) l r.request ≡ ok (obj arguments, workspace)
    → tool_ending r.expected payload ≡ ok (status, (raised, result))
    → require_among statuses status ≡ ok tt
    → tool_record (with_observation lib py) l r payload ended ≡ ok written
    → validate_tool py.sha256_json validate_result_contract written ≡ ok tt
tool_record-validate_tool lib py l r payload written arguments workspace ended name implementation
      status result raised k n d a t s h =
    written_tool lib py l r payload written arguments workspace ended name implementation status
      result raised n d a t s
      (subst
        (λ q.
          tool_record (with_observation lib py) l (record r { kind = q }) payload ended
          ≡ ok written)
        k h)
