-- ===== src/Llm/Store.antt =====
-- minireplay/llm_store.py: the state of the LLM store and the operations on it. The replies that it
-- writes to a connection are effects of the caller's framework and are left out.
pub mod Claim
pub mod Record
pub mod Stream
pub mod Replay
pub mod Account
pub mod Recorded
pub mod Lanes
pub mod Streamed
pub mod Promoted
pub mod Run
pub mod Sound
pub mod Accounting
pub mod Tails
mod Tests
use minireplayer.Prelude.{
  ℕ, ◌+◌, String, Bool, true, false, ◌&&◌, Option, none, some, List, [], ◌∷◌, Dict, Result, ok,
  raise, lookup_or, insert, leb, if◌then◌else◌, ◌==◌, string_eq, pair_eq, ◌++◌,
}
use minireplayer.Json.{Fields}
use minireplayer.Llm.Calls.{Index}
use minireplayer.Llm.Slot.{Slot}

-- `RequestIdentity`
pub record RequestIdentity : Type 0 where
  pub actor_id : String
  pub session_id : String
  pub role : String
  pub target_id : String
  pub parent_span_id : Option String

-- actor, session and role
abbrev pub Lane : Type 0
Lane = String × (String × String)

-- `RequestIdentity.key`
abbrev pub key : RequestIdentity → Lane
key i = (i.actor_id, (i.session_id, i.role))

abbrev or_text : Option String → String → String
or_text none default = default
or_text (some s) default = s

-- `_identity`, from `request.headers.get`
unfoldable pub identity : (String → Option String) → RequestIdentity
identity header = record {
  actor_id = or_text (header "X-Native-Replay-Actor") "unknown";
  session_id = or_text (header "X-Native-Replay-Session") "unknown";
  role = or_text (header "X-Native-Replay-Role") "agent";
  target_id = or_text (header "X-Native-Replay-Target") "default";
  parent_span_id = header "X-Native-Replay-Parent-Span";
}

-- What the constructor fixes.
pub record Setting : Type 0 where
  pub replay : Bool
  pub replay_mode : String
  pub upstreams : Dict String String

-- `replay_mode in FORCED_REPLAY_MODES`
unfoldable pub is_forced : String → Bool
is_forced mode = if mode == "full" then true else mode == "llm-only"

-- The state. `attempts`, `spans` and `tail_runtime` are the lines that were appended to the files of
-- the stage directory, and `sessions` the actors and sessions whose marker was written.
pub record Store : Type 0 where
  pub setting : Setting
  pub record_sequence : Dict Lane ℕ
  pub replay_sequence : Dict Lane ℕ
  pub expected : Dict Lane (List Slot)
  pub model_calls : Index
  pub consumed : ℕ
  pub completed : List String
  pub delivered : List String
  pub inflight : Dict String Fields
  pub truncated : List String
  pub truncated_elapsed : Dict String ℕ
  pub truncated_started : Dict String ℕ
  pub source_cutoff_at_ns : Option ℕ
  pub attempts : List Fields
  pub spans : List Fields
  pub tail_runtime : List Fields
  pub sessions : List (String × String)

-- `queue.sort(key=lambda item: item["sequence"])`, which keeps the order of equal keys: `s` goes in
-- front of the first one with a larger number
unfoldable pub place_by_sequence : Slot → List Slot → List Slot
place_by_sequence s [] = s ∷ []
place_by_sequence s (t ∷ ts) =
    let rest = place_by_sequence s ts in if leb t.sequence s.sequence then t ∷ rest else s ∷ t ∷ ts

unfoldable pub sort_by_sequence : List Slot → List Slot
sort_by_sequence slots = sorted_onto [] slots
  where
    sorted_onto : List Slot → List Slot → List Slot
    sorted_onto done [] = done
    sorted_onto done (s ∷ ss) = sorted_onto (place_by_sequence s done) ss

abbrev pub lane_of : Slot → Lane
lane_of s = (s.actor_id, (s.session_id, s.role))

-- `self._expected.setdefault(key, []).append(record)` over the records of the bundle
unfoldable pub append_slots : Dict Lane (List Slot) → List Slot → Dict Lane (List Slot)
append_slots m [] = m
append_slots m (s ∷ ss) =
    append_slots (insert (lane_of s) (lookup_or (lane_of s) [] m ++ (s ∷ [])) m) ss

unfoldable pub sort_lanes : Dict Lane (List Slot) → Dict Lane (List Slot)
sort_lanes [] = []
sort_lanes ((k, queue) ∷ rest) = (k, sort_by_sequence queue) ∷ sort_lanes rest

-- the queues of the constructor
unfoldable pub expected_of : List Slot → Dict Lane (List Slot)
expected_of slots = sort_lanes (append_slots [] slots)
