-- ===== src/LaneRecord/Materialize.antt =====
-- minireplayer/lane_record.py: `materialize_lane_recording`, which plays the events of the logs to a
-- `BoundaryLedger` in record mode.
use minireplayer.Prelude.{
  ℕ, suc, String, false, not, ◌||◌, none, some, List, [], ◌∷◌, Dict, Result, ok, raise,
  validation_error, type_error, ◌>>=◌, elem, insert, lookup, ltb, if◌then◌else◌, string_eq,
}
use minireplayer.Json.{Value, Fields, str, obj, has, put}
use minireplayer.Boundary.{Python, spell, Action, continue, item}
use minireplayer.Boundary.Start.{Fresh, Opened, start}
use minireplayer.Boundary.Complete.{complete}
use minireplayer.Boundary.Cutoff.{freeze_source_cutoff}
use minireplayer.LaneRecord.{Logs}
use minireplayer.LaneRecord.Events.{Timed, is_event, events}

-- The local variables, and how many reservations the ledger has drawn.
pub record Playing : Type 0 where
  pub reservations : Dict String String
  pub started : List String
  pub completed : List String
  pub drawn : ℕ

abbrev pub nothing_played : Playing
nothing_played = record { reservations = []; started = []; completed = []; drawn = 0 }

-- `dict(event["payload"])`, of the object that the logs hold; what else `dict` takes is refused
unfoldable pub payload_of : Fields → Result Fields
payload_of event = item "payload" event >>= λ v. elim v [ obj d ↦ ok d | _ ↦ raise type_error ]

-- the payload of a start under the identifiers of its log
unfoldable pub start_payload : Python → Fields → Result Fields
start_payload py event = do
  payload ← payload_of event
  record_id ← item "record_id" event
  span_id ← item "span_id" event
  ok (
      put "span_id_hint" (str (spell py span_id)) (
        if has "record_id_hint" payload
        then payload
        else put "record_id_hint" (str (spell py record_id)) payload))

-- the payload of a completion under the identifier that the ledger gave
unfoldable pub complete_payload : String → Fields → Result Fields
complete_payload materialized event = do
  payload ← payload_of event
  ok (put "reservation_id" (str materialized) payload)

-- what the loop remembers of a start
unfoldable pub opened_as : String → Opened → Playing → Playing
opened_as local opened p = record p {
  reservations = insert local opened.reservation_id p.reservations;
  drawn = suc p.drawn;
}

-- `ledger.start` on the event's payload; `draw` gives what `secrets` and the clock give next
unfoldable pub open_local : Python → (ℕ → Fresh) → String → Fields → Playing → Action Playing
open_local py draw local event p l =
    continue (l, start_payload py event)
      (λ payload l₁.
        continue (start py none (λ _. false) (draw p.drawn) payload l₁)
          (λ opened l₂. (l₂, ok (opened_as local opened p))))

-- `ledger.complete` on the event's payload
unfoldable pub close_local : Python → (ℕ → Fresh) → String → Fields → Playing → Action Playing
close_local py draw materialized event p l =
    continue (l, complete_payload materialized event)
      (λ payload l₁.
        continue (complete py (draw p.drawn) payload false l₁) (λ completion l₂. (l₂, ok p)))

unfoldable pub note_started : String → Playing → Playing
note_started local p = record p { started = local ∷ p.started }

unfoldable pub note_completed : String → Playing → Playing
note_completed local p = record p { completed = local ∷ p.completed }

-- a start: what began after the cutoff is remembered and not played
unfoldable pub play_start : Python → (ℕ → Fresh) → ℕ → String → Timed → Playing → Action Playing
play_start py draw cutoff local (at, event) p l =
    if elem local p.started
    then (l, raise validation_error)
    else if ltb cutoff at
    then (l, ok (note_started local p))
    else open_local py draw local event (note_started local p) l

-- a completion: one after the cutoff, or of what was not played, is remembered and not played
unfoldable pub play_complete : Python → (ℕ → Fresh) → ℕ → String → Timed → Playing → Action Playing
play_complete py draw cutoff local (at, event) p l =
    if not (elem local p.started)
    then (l, raise validation_error)
    else if elem local p.completed
    then (l, raise validation_error)
    else elim (lookup local p.reservations) [
      | none ↦ (l, ok (note_completed local p))
      | some materialized ↦
          if ltb cutoff at
          then (l, ok (note_completed local p))
          else close_local py draw materialized event (note_completed local p) l
    ]

-- an event with its reservation
unfoldable pub play_local : Python → (ℕ → Fresh) → ℕ → Timed → Playing → Value → Action Playing
play_local py draw cutoff t p reservation =
    if is_event "start" t.1
    then play_start py draw cutoff (spell py reservation) t p
    else play_complete py draw cutoff (spell py reservation) t p

-- one turn of the loop; the events of composite scopes are passed over
unfoldable pub play_one : Python → (ℕ → Fresh) → ℕ → Timed → Playing → Action Playing
play_one py draw cutoff t p l =
    if is_event "scope-start" t.1 || is_event "scope-complete" t.1
    then (l, ok p)
    else continue (l, item "reservation_id" t.1) (play_local py draw cutoff t p)

-- the loop
unfoldable pub play : Python → (ℕ → Fresh) → ℕ → List Timed → Playing → Action Playing
play py draw cutoff [] p l = (l, ok p)
play py draw cutoff (t ∷ ts) p l = continue (play_one py draw cutoff t p l) (play py draw cutoff ts)

-- `materialize_lane_recording`, on a new ledger in record mode
unfoldable pub materialize_lane_recording : Python → (ℕ → Fresh) → ℕ → Logs → Action (List Fields)
materialize_lane_recording py draw cutoff logs l =
    continue (l, events logs)
      (λ ts l₁.
        continue (play py draw cutoff ts nothing_played l₁) (λ p. freeze_source_cutoff py cutoff))
