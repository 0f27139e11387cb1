-- ===== src/LaneRecord.antt =====
-- minireplayer/lane_record.py: the logs of the lanes. A log is a list of events under the name of
-- its file, and an append that raises leaves the logs as they are.
pub mod Events
pub mod Materialize
pub mod Sorted
pub mod Timely
pub mod Tracked
pub mod Completing
pub mod Opened
pub mod Played
pub mod Remembered
pub mod Matched
pub mod Materialized
pub mod Scopes
pub mod Paired
pub mod Collected
pub mod Spanned
mod Tests
use minireplayer.Prelude.{
  String, Bool, true, false, Option, none, some, List, [], ◌∷◌, ◌++◌, Dict, Result, ok, raise,
  validation_error, ◌>>=◌, ◌>>◌, insert, lookup_or, if◌then◌else◌, ◌==◌, string_eq,
}
use minireplayer.Json.{Value, Fields, bool, str, obj, end, field, get, has, put, text?, truth}
use minireplayer.Boundary.{Kind, tool, kind_of, kind_text, kind_eq, Python, spell, item}
use minireplayer.Boundary.Start.{Fresh, hint_or}

-- constants.py, `LANE_RECORD_EVENT_SCHEMA`
abbrev pub event_schema : Value
event_schema = str "minireplay.lane-record-event/v1"

abbrev pub Logs : Type 0
Logs = Dict String (List Fields)

-- `value or default`, as a text
unfoldable pub spell_or : Python → Value → String → String
spell_or py v default = if truth v then spell py v else default

-- `append_lane_event`; `lane_path` is `_lane_path`, the name that a SHA-256 gives a lane
unfoldable pub append_lane_event : Python → (String → String → String) → Fields → Logs → Result Logs
append_lane_event py lane_path event logs = do
  actor ← item "actor_id" event
  let actor_id = spell py actor
  let path = lane_path actor_id (spell_or py (get "session_id" event) actor_id)
  ok (insert path (lookup_or path [] logs ++ event ∷ []) logs)

-- the identifiers that `local_start` answers with
pub record Local : Type 0 where
  pub reservation_id : String
  pub record_id : String
  pub span_id : String

unfoldable pub local_ids : Fields → Fresh → Local
local_ids payload fresh = record {
  reservation_id = fresh.reservation_id;
  record_id = hint_or (get "record_id_hint" payload) fresh.record_id;
  span_id = fresh.span_id;
}

unfoldable pub start_event : String → String → Local → Value → Fields → Fields
start_event actor session ids at payload = field "schema_version" event_schema (
    field "event" (str "start") (
      field "actor_id" (str actor) (
        field "session_id" (str session) (
          field "reservation_id" (str ids.reservation_id) (
            field "record_id" (str ids.record_id) (
              field "span_id" (str ids.span_id)
                (field "at_ns" at (field "payload" (obj payload) end))))))))

abbrev required_kind : Option Kind → Result Kind
required_kind none = raise validation_error
required_kind (some kind) = ok kind

abbrev required_text : Option String → Result String
required_text none = raise validation_error
required_text (some s) = ok s

-- `local_start`; `fresh` is what `secrets` draws
unfoldable pub local_start :
    Python → (String → String → String) → Fresh → Fields → Logs → Result (Logs × Local)
local_start py lane_path fresh payload logs = do
  _ ← required_kind (kind_of (str (spell py (get "kind" payload))))
  actor ← required_text (text? (get "actor_id" payload))
  let session = spell_or py (get "session_id" payload) actor
  let ids = local_ids payload fresh
  at ← item "started_at_ns" payload
  after ← append_lane_event py lane_path (start_event actor session ids at payload) logs
  ok (after, ids)

-- `payload.pop(key, None)`
unfoldable pub without : String → Fields → Fields
without key end = end
without key (field k v rest) =
    let later = without key rest in if key == k then later else field k v later

unfoldable pub complete_event : String → String → String → String → Value → Value → Fields → Fields
complete_event kind record_id actor session reservation at payload =
    field "schema_version" event_schema (
      field "event" (str "complete") (
        field "actor_id" (str actor) (
          field "session_id" (str session) (
            field "reservation_id" reservation (
              field "record_id" (str record_id) (
                field "kind" (str kind) (field "at_ns" at (field "payload" (obj payload) end))))))))

-- `payload.pop("_lane_session_id", actor_id)`, as a text
unfoldable pub popped_session : Python → String → Fields → String
popped_session py actor payload =
    if has "_lane_session_id" payload then spell py (get "_lane_session_id" payload) else actor

-- `local_complete`, for the kind, record and actor of a reservation
unfoldable pub local_complete :
    Python
    → (String → String → String)
    → String × (String × String)
    → Fields
    → Logs
    → Result (Logs × Fields)
local_complete py lane_path (kind, (record_id, actor)) payload logs = do
  let session = popped_session py actor payload
  let rest = without "_lane_session_id" payload
  reservation ← item "reservation_id" rest
  at ← item "ended_at_ns" rest
  after ←
      append_lane_event py lane_path
        (complete_event kind record_id actor session reservation at rest) logs
  ok (
    after,
    (if kind == "tool"
        then field "valid" (bool true) (field "result_replay_required" (bool false) end)
        else field "valid" (bool true) end),
  )

-- `local_composite_scope_start`; `scope_id` is drawn
unfoldable pub local_composite_scope_start :
    Python
    → (String → String → String)
    → String
    → (actor session name causal_lane : String) → Value
    → Logs
    → Result (Logs × String)
local_composite_scope_start py lane_path scope_id actor session name causal_lane at logs = do
  after ←
      append_lane_event py lane_path
        (field "schema_version" event_schema (
          field "event" (str "scope-start") (
            field "actor_id" (str actor) (
              field "session_id" (str session) (
                field "scope_id" (str scope_id) (
                  field "name" (str name)
                    (field "causal_lane" (str causal_lane) (field "at_ns" at end))))))))
        logs
  ok (after, scope_id)

-- `local_composite_scope_complete`
unfoldable pub local_composite_scope_complete :
    Python
    → (String → String → String)
    → (actor session scope_id status : String) → Value
    → Logs
    → Result Logs
local_composite_scope_complete py lane_path actor session scope_id status at =
    append_lane_event py lane_path (
      field "schema_version" event_schema (
        field "event" (str "scope-complete") (
          field "actor_id" (str actor) (
            field "session_id" (str session) (
              field "scope_id" (str scope_id)
                (field "status" (str status) (field "at_ns" at end)))))))
