-- ===== src/Llm/Store/Stream.antt =====
-- minireplay/llm_store.py: `_record_stream`, the recording of a streamed answer. Each event of the
-- stream is a step; a connection that the client has closed fails the write of its event.
use minireplayer.Prelude.{
  ℕ, String, Bool, true, false, ◌||◌, Option, none, some, List, [], ◌∷◌, ◌++◌, Result, ok, raise,
  Exception, value_error, attribute_error, insert, lookup, if◌then◌else◌, ◌==◌, string_eq, list_eq,
  nat_eq,
}
use minireplayer.Json.{Value, Items, Fields, bool, int, str, arr, nil, cons, obj, end, field, put}
use minireplayer.Bytes.{Bytes, codes}
use minireplayer.Boundary.{Python}
use minireplayer.Llm.Sse.{sse_payload}
use minireplayer.Llm.Sse
use minireplayer.Llm.Tokens.{
  Token, collect_token_fields, strip_token_fields, stream_payload_is_terminal,
}
use minireplayer.Llm.Calls.{index_calls}
use minireplayer.Llm.Store.{Store}
use minireplayer.Llm.Store.Record.{Call, Answer, token_values, write_attempt}

-- an entry of the recorded chunks
pub data Chunk : Type 0 where
  finished : Chunk
  payload : Value → Chunk

-- what the handler of a stream keeps
pub record Stream : Type 0 where
  pub chunks : List Chunk
  pub prompt : List Token
  pub response : List Token
  pub complete : Bool

abbrev pub opened : Stream
opened = record { chunks = []; prompt = []; response = []; complete = false }

-- how a step ends: the next event follows, the client was gone, or an exception
pub data Turn : Type 0 where
  next reset : Turn
  failed : Exception → Turn

abbrev pub State : Type 0
State = (Stream × Store) × Turn

-- the end of a stream that the engine sends
unfoldable pub on_done : Bool → Stream → Store → State
on_done true r s = ((record r { chunks = r.chunks ++ finished ∷ []; complete = true }, s), next)
on_done false r s = ((r, s), (if r.complete then next else reset))

abbrev pub first_known : List Token → List Token → List Token
first_known [] found = found
first_known known found = known

-- the tokens of an event
unfoldable pub take_tokens : Value → Stream → Stream
take_tokens parsed r =
    let found = collect_token_fields parsed in
    record r { prompt = first_known r.prompt found.prompt; response = r.response ++ found.response }

abbrev pub is_terminal : String → Value → Option Bool
is_terminal api (obj d) = some (stream_payload_is_terminal api d)
is_terminal api _ = none

unfoldable pub keep_chunk : Value → Option Bool → Stream → Store → State
keep_chunk clean none r s =
    ((record r { chunks = r.chunks ++ payload clean ∷ [] }, s), failed attribute_error)
keep_chunk clean (some terminal) r s = (
  (record r { chunks = r.chunks ++ payload clean ∷ []; complete = r.complete || terminal }, s),
  next,
)

-- an event that holds a JSON value: its tokens are taken, the calls that it names are indexed, and
-- then it is written without the tokens
unfoldable pub on_value : String → String → Value → Bool → Stream → Store → State
on_value api attempt parsed connected r s =
    let clean = strip_token_fields parsed in
    let r₁ = take_tokens parsed r in
    let s₁ = record s { model_calls = index_calls attempt clean s.model_calls } in
    if connected then keep_chunk clean (is_terminal api clean) r₁ s₁ else ((r₁, s₁), reset)

abbrev pub on_parsed : String → String → Option Value → Bool → Stream → Store → State
on_parsed api attempt none connected r s = ((r, s), failed value_error)
on_parsed api attempt (some v) connected r s = on_value api attempt v connected r s

-- what the loop does with the payload of an event; `loads` is `json.loads`
unfoldable pub on_payload :
    (Bytes → Option Value) → String → String → Option Bytes → Bool → Stream → Store → State
on_payload loads api attempt none connected r s = ((r, s), next)
on_payload loads api attempt (some text) connected r s =
    if text == codes "[DONE]"
    then on_done connected r s
    else on_parsed api attempt (loads text) connected r s

abbrev pub and_next : State → (Stream → Store → State) → State
and_next ((r, s), next) rest = rest r s
and_next ((r, s), reset) rest = ((r, s), reset)
and_next ((r, s), failed e) rest = ((r, s), failed e)

-- the loop over the events, each with whether the client still reads when it is written
unfoldable pub on_events :
    (Bytes → Option Value) → String → String → List (Bytes × Bool) → Stream → Store → State
on_events loads api attempt [] r s = ((r, s), next)
on_events loads api attempt ((event, connected) ∷ rest) r s =
    and_next (on_payload loads api attempt (sse_payload event) connected r s)
      (on_events loads api attempt rest)

abbrev pub turn_of : Result (Unit {0}) → Bool → Turn
turn_of (raise e) connected = failed e
turn_of (ok _) true = next
turn_of (ok _) false = reset

-- the end of the body: the rest of the buffer is checked and the end is written
unfoldable pub on_end : Bytes → Bool → Stream → Store → State
on_end buffer connected r s = ((r, s), turn_of (Sse.finish buffer) connected)

abbrev pub chunk_object : Chunk → Fields
chunk_object finished = field "done" (bool true) end
chunk_object (payload v) = field "done" (bool false) (field "payload" v end)

unfoldable pub chunk_items : List Chunk → Items
chunk_items [] = nil
chunk_items (c ∷ cs) = cons (obj (chunk_object c)) (chunk_items cs)

-- `{"chunks": chunks}`
abbrev pub chunks_value : List Chunk → Value
chunks_value cs = obj (field "chunks" (arr (chunk_items cs)) end)

unfoldable pub interrupted_entry : ℕ → String → Stream → Fields → Fields
interrupted_entry now reason r entry =
    put "partial_response_token_ids" (arr (token_values r.response)) (
      put "partial_prompt_token_ids" (arr (token_values r.prompt)) (
        put "partial_response" (chunks_value r.chunks)
          (put "interruption" (str reason) (put "interrupted_at_ns" (int now) entry))))

abbrev pub interrupt_entry : ℕ → String → Stream → String → Option Fields → Store → Store
interrupt_entry now reason r attempt none s = s
interrupt_entry now reason r attempt (some entry) s = record s {
  inflight = insert attempt (interrupted_entry now reason r entry) s.inflight;
}

-- `_mark_stream_interrupted`
unfoldable pub mark_stream_interrupted : ℕ → String → String → Stream → Store → Store
mark_stream_interrupted now attempt reason r s =
    interrupt_entry now reason r attempt (lookup attempt s.inflight) s

-- what the handler knows when the answer has ended
pub record Closing : Type 0 where
  pub status_code : ℕ
  pub engine : Value
  pub now : ℕ
  pub span_id : String

abbrev pub answer_of : Closing → Stream → Answer
answer_of z r = record {
  response = chunks_value r.chunks;
  stream = true;
  status_code = z.status_code;
  tokens = record { prompt = r.prompt; response = r.response };
  engine = z.engine;
  ended = z.now;
}

-- the end of `_record_stream`: an attempt is written if the stream was complete, and stays in flight
-- if it was not
unfoldable pub close_stream :
    Python → (Value → String) → Call → Closing → State → Store × Result (Unit {0})
close_stream py dumps c z ((r, s), failed e) = (s, raise e)
close_stream py dumps c z ((r, s), next) = (
  (if r.complete
      then write_attempt py dumps z.span_id c (answer_of z r) s
      else mark_stream_interrupted z.now c.attempt_id "upstream-ended-before-terminal" r s),
  ok tt,
)
close_stream py dumps c z ((r, s), reset) = (
  (if r.complete
      then write_attempt py dumps z.span_id c (answer_of z r) s
      else mark_stream_interrupted z.now c.attempt_id "client-disconnected-before-terminal" r s),
  ok tt,
)

-- `_record_stream`, from the events of the whole body and what is left of it
unfoldable pub record_stream :
    Python
    → (Bytes → Option Value)
    → (Value → String)
    → Call
    → Closing
    → List (Bytes × Bool)
    → Bytes
    → Bool
    → Store
    → Store × Result (Unit {0})
record_stream py loads dumps c z events buffer connected s =
    close_stream py dumps c z
      (and_next (on_events loads c.api c.attempt_id events opened s) (on_end buffer connected))
