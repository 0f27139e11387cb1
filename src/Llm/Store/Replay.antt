-- ===== src/Llm/Store/Replay.antt =====
-- minireplay/llm_store.py: replaying. `_handle` claims the next recorded request of the lane, and
-- `_replay` serves it: the recorded answer is written as evidence, sent and marked as delivered.
use minireplayer.Prelude.{
  ℕ, ◌+◌, String, Bool, false, ◌||◌, List, [], ◌∷◌, ◌++◌, Result, ok, raise, Exception,
  workload_complete, insert, any, elem, if◌then◌else◌, string_eq,
}
use minireplayer.Json.{Value, Fields, int, str, obj, end, field, get, put, truth}
use minireplayer.Boundary.{Python}
use minireplayer.Llm.Tokens.{stream_payload_is_terminal}
use minireplayer.Llm.Calls.{index_calls}
use minireplayer.Llm.Slot.{Slot}
use minireplayer.Llm.Store.{RequestIdentity, Store, is_forced}
use minireplayer.Llm.Store.Claim.{claim}
use minireplayer.Llm.Store.Record.{span_line}

-- What `_handle` does with a request: it is never answered (`held`), it is one of the source's tails
-- (`tail`), it is served, first by the engine if the mode asks for that, or it fails the run.
pub data Decision : Type 0 where
  held : Decision
  tail : Slot → Decision
  serve : (engine_first : Bool) → Slot → Decision
  fails : Exception → Decision

abbrev pub refuse : Exception → Decision
refuse workload_complete = held
refuse e = fails e

abbrev pub decide : Store × Result Slot → Store × Decision
decide (s, raise e) = (s, refuse e)
decide (s, ok e) = (
  s,
  (if elem e.attempt_id s.truncated then tail e else serve (is_forced s.setting.replay_mode) e),
)

-- `_handle` of a replay, up to the answer of the engine; the text that it keeps in `hard_failure`
-- where this raises is left out
unfoldable pub handle :
    Python → (String → Bool) → RequestIdentity → Fields → String → Store → Store × Decision
handle py over i body api s = decide (claim py over i body api s)

-- the line of llm.jsonl
unfoldable pub replay_line : String → ℕ → ℕ → Slot → Fields
replay_line mode started ended e =
    put "replay_mode" (str mode)
      (put "ended_at_ns" (int ended) (put "started_at_ns" (int started) e.whole))

-- `_write_replay_attempt`
unfoldable pub write_replay_attempt : RequestIdentity → ℕ → ℕ → Slot → Store → Store
write_replay_attempt i started ended e s = record s {
  attempts = s.attempts ++ replay_line s.setting.replay_mode started ended e ∷ [];
  spans = s.spans ++ span_line e.span_id i.parent_span_id e.actor_id e.role "ok" started ended ∷ [];
  completed = e.attempt_id ∷ s.completed;
}

-- `_replay` up to the answer: the calls of the recorded answer are indexed and the evidence is written
unfoldable pub write_evidence : RequestIdentity → ℕ → ℕ → Slot → Store → Store
write_evidence i started ended e s =
    write_replay_attempt i started ended e
      (record s { model_calls = index_calls e.attempt_id e.response s.model_calls })

-- `_replay` after the answer
unfoldable pub deliver : Slot → Store → Store
deliver e s = record s { delivered = e.attempt_id ∷ s.delivered; consumed = s.consumed + 1 }

-- `_hold_truncated`, which reads the clock twice
unfoldable pub hold_truncated : ℕ → ℕ → Slot → Store → Store
hold_truncated now later e s = record s {
  truncated_started = insert e.attempt_id now s.truncated_started;
  tail_runtime =
      s.tail_runtime
      ++ field "schema_version" (str "minireplay.cutoff-tail-runtime/v1") (
          field "kind" (str "llm") (
            field "record_id" (str e.attempt_id)
              (field "actor_id" (str e.actor_id) (field "started_at_ns" (int later) end))))
        ∷ [];
}

abbrev pub is_terminal_payload : String → Value → Bool
is_terminal_payload api (obj d) = stream_payload_is_terminal api d
is_terminal_payload api _ = false

-- `stream_complete` of `_replay_stream`, which decides whether a client may go before the end
unfoldable pub is_complete : String → List Fields → Bool
is_complete api chunks =
    any (λ c. truth (get "done" c)) chunks
    || any (λ c. is_terminal_payload api (get "payload" c)) chunks
