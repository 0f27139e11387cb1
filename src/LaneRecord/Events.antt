-- ===== src/LaneRecord/Events.antt =====
-- minireplayer/lane_record.py: `_events`, the events of all logs in the order of their times.
use minireplayer.Prelude.{
  ℕ, String, Bool, not, ◌&&◌, ◌||◌, Option, none, some, List, [], ◌∷◌, ◌++◌, Result, ok, raise,
  validation_error, ◌>>=◌, ◌>>◌, require, nat_beq, ltb, if◌then◌else◌,
}
use minireplayer.Json.{Fields, get, is_text, nat?}
use minireplayer.Schema.{require_among}
use minireplayer.Schema.Chain.{text_leb}
use minireplayer.LaneRecord.{Logs}

-- an event with the time that `int(value["at_ns"])` gives
abbrev pub Timed : Type 0
Timed = ℕ × Fields

unfoldable pub is_event : String → Fields → Bool
is_event name event = is_text name (get "event" event)

-- `value["event"] in {"start", "scope-start"}`
unfoldable pub starts_something : Fields → Bool
starts_something event = is_event "start" event || is_event "scope-start" event

unfoldable pub place_log : String × List Fields → Logs → Logs
place_log log [] = log ∷ []
place_log log (x ∷ xs) =
    let rest = place_log log xs in if text_leb log.0 x.0 then log ∷ x ∷ xs else x ∷ rest

-- `sorted(root.glob(...))`: no two logs have the same name
unfoldable pub by_name : Logs → Logs
by_name [] = []
by_name (log ∷ logs) = place_log log (by_name logs)

unfoldable pub all_lines : Logs → List Fields
all_lines [] = []
all_lines ((_, events) ∷ logs) = events ++ all_lines logs

abbrev pub timed : Option ℕ → Fields → Result Timed
timed none event = raise validation_error
timed (some at) event = ok (at, event)

-- the checks of one event, whose time is not negative, as the clock gives it
unfoldable pub check_event : Fields → Result Timed
check_event event = do
  require (is_text "minireplay.lane-record-event/v1" (get "schema_version" event))
  require_among ("start" ∷ "complete" ∷ "scope-start" ∷ "scope-complete" ∷ []) (get "event" event)
  timed (nat? (get "at_ns" event)) event

unfoldable pub check_events : List Fields → Result (List Timed)
check_events [] = ok []
check_events (event ∷ rest) = do t ← check_event event; ts ← check_events rest; ok (t ∷ ts)

-- `<=` on the keys `(at_ns, event is no start)`
unfoldable pub event_leb : Timed → Timed → Bool
event_leb a b =
    ltb a.0 b.0 || (nat_beq a.0 b.0 && (starts_something a.1 || not (starts_something b.1)))

unfoldable pub place_event : Timed → List Timed → List Timed
place_event t [] = t ∷ []
place_event t (x ∷ xs) =
    let rest = place_event t xs in if event_leb t x then t ∷ x ∷ xs else x ∷ rest

-- `sorted(values, key=...)`, which keeps the order of equal keys
unfoldable pub by_time : List Timed → List Timed
by_time [] = []
by_time (t ∷ ts) = place_event t (by_time ts)

-- `_events`
unfoldable pub events : Logs → Result (List Timed)
events logs = do values ← check_events (all_lines (by_name logs)); ok (by_time values)
