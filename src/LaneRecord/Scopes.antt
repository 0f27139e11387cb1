-- ===== src/LaneRecord/Scopes.antt =====
-- minireplayer/lane_record.py: `composite_scope_rows`, the diagnostic envelopes of a recording.
use minireplayer.Prelude.{
  ℕ, String, Bool, true, false, not, ◌&&◌, ◌||◌, Option, none, some, List, [], ◌∷◌, Dict, Result,
  ok, raise, validation_error, ◌>>=◌, insert, lookup, ltb, nat_beq, if◌then◌else◌, string_eq,
}
use minireplayer.Json.{get}
use minireplayer.Schema.Chain.{text_leb}
use minireplayer.Boundary.{Python, spell, item}
use minireplayer.LaneRecord.{Logs, spell_or}
use minireplayer.LaneRecord.Events.{Timed, is_event, events}

-- the local variables `starts` and `completions`
pub record Scopes : Type 0 where
  pub starts : Dict String Timed
  pub completions : Dict String Timed

abbrev pub no_scopes : Scopes
no_scopes = record { starts = []; completions = [] }

abbrev pub is_there : Option Timed → Bool
is_there none = false
is_there (some t) = true

-- a start of a scope that has not started
unfoldable pub note_start : String → Timed → Scopes → Result Scopes
note_start scope t s =
    if is_there (lookup scope s.starts)
    then raise validation_error
    else ok (record s { starts = insert scope t s.starts })

-- the first completion of a scope that has started
unfoldable pub note_completion : String → Timed → Scopes → Result Scopes
note_completion scope t s =
    if not (is_there (lookup scope s.starts))
    then raise validation_error
    else if is_there (lookup scope s.completions)
    then raise validation_error
    else ok (record s { completions = insert scope t s.completions })

unfoldable pub note_event : Python → Timed → Scopes → Result Scopes
note_event py t s =
    let scope = spell py (get "scope_id" t.1) in
    if is_event "scope-start" t.1
    then note_start scope t s
    else if is_event "scope-complete" t.1
    then note_completion scope t s
    else ok s

-- the loop over the events
unfoldable pub collect : Python → List Timed → Scopes → Result Scopes
collect py [] s = ok s
collect py (t ∷ ts) s = note_event py t s >>= collect py ts

pub record Row : Type 0 where
  pub scope_id : String
  pub actor_id : String
  pub session_id : String
  pub name : String
  pub causal_lane : String
  pub started_at_ns : ℕ
  pub ended_at_ns : ℕ
  pub status : String
  pub cutoff_truncated : Bool

-- the end of a scope: when, its status, and whether the cutoff cut it
abbrev pub Ending : Type 0
Ending = ℕ × (String × Bool)

unfoldable pub ending_of : Python → ℕ → Option Timed → Ending
ending_of py cutoff none = (cutoff, ("truncated", true))
ending_of py cutoff (some (at, completion)) =
    if ltb cutoff at
    then (cutoff, ("truncated", true))
    else (at, (spell_or py (get "status" completion) "ok", false))

unfoldable pub row_of : Python → String → Timed → Ending → Result Row
row_of py scope (started, start) (ended, (status, truncated)) = do
  actor ← item "actor_id" start
  ok (record {
    scope_id = scope;
    actor_id = spell py actor;
    session_id = spell_or py (get "session_id" start) (spell py actor);
    name = spell_or py (get "name" start) "composite";
    causal_lane = spell_or py (get "causal_lane" start) "";
    started_at_ns = started;
    ended_at_ns = ended;
    status = status;
    cutoff_truncated = truncated;
  })

-- the loop over the scopes: one that began after the cutoff has no row
unfoldable pub rows_of : Python → ℕ → Dict String Timed → Dict String Timed → Result (List Row)
rows_of py cutoff completions [] = ok []
rows_of py cutoff completions ((scope, start) ∷ rest) =
    let later = rows_of py cutoff completions rest in
    if ltb cutoff start.0
    then later
    else (row_of py scope start (ending_of py cutoff (lookup scope completions)) >>= λ row.
        later >>= λ rows. ok (row ∷ rows))

-- `<=` on the keys `(started_at_ns, scope_id)`
unfoldable pub row_leb : Row → Row → Bool
row_leb a b =
    ltb a.started_at_ns b.started_at_ns
    || (nat_beq a.started_at_ns b.started_at_ns && text_leb a.scope_id b.scope_id)

unfoldable pub place_row : Row → List Row → List Row
place_row r [] = r ∷ []
place_row r (x ∷ xs) = let rest = place_row r xs in if row_leb r x then r ∷ x ∷ xs else x ∷ rest

unfoldable pub rows_in_order : List Row → List Row
rows_in_order [] = []
rows_in_order (r ∷ rs) = place_row r (rows_in_order rs)

-- `composite_scope_rows`
unfoldable pub composite_scope_rows : Python → ℕ → Logs → Result (List Row)
composite_scope_rows py cutoff logs = do
  ts ← events logs
  s ← collect py ts no_scopes
  rows ← rows_of py cutoff s.completions s.starts
  ok (rows_in_order rows)
