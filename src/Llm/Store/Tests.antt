-- ===== src/Llm/Store/Tests.antt =====
-- Two recorded requests of one lane, a stream that is cut, and a request that is open at the cutoff.
use minireplayer.Prelude.{
  String, ◌≡◌, refl, Bool, true, false, Option, none, some, List, [], ◌∷◌, ◌++◌, ok, lookup,
  lookup_or, drop, In, elem, all, string_eq, pair_eq,
}
use minireplayer.Json.{
  Value, Fields, null, int, str, bool, obj, put, end, field, get, has, text?, nat?,
}
use minireplayer.Json.Same.{same, width}
use minireplayer.Bytes.{Bytes, codes}
use minireplayer.Boundary.{Python}
use minireplayer.Llm.Slot.{Slot, validate_llm, digest, string}
use minireplayer.Llm.Store.{RequestIdentity, Lane, Store, is_forced}
use minireplayer.Llm.Store.Claim.{claim, claim_next, has_shape, advance}
use minireplayer.Llm.Store.Record.{Answer, attempt_line, write_attempt}
use minireplayer.Llm.Store.Record
use minireplayer.Llm.Store.Stream.{Closing, record_stream}
use minireplayer.Llm.Store.Replay.{handle, write_evidence, deliver}
use minireplayer.Llm.Store.Recorded.{slot_of, attempt_line-validate, claim-recorded}
use minireplayer.Llm.Store.Lanes.{Call, queue, place, handed, after, handed_rest}
use minireplayer.Llm.Store.Promoted.{Closed, record_stream-Closed}
use minireplayer.Llm.Store.Run.{World, Steps, start, step, IsSound, accept, request, served, sent}
use minireplayer.Llm.Store.Sound.{steps-IsSound}
use minireplayer.Llm.Store.Account.{freeze_source_cutoff, elapsed_of}
use minireplayer.Llm.Store.Tails.{frozen-write_attempt}

abbrev hex : String
hex = "0123456789abcdef0123456789abcdef0123456789abcdef0123456789abcdef"

abbrev py : Python
py = record {
  repr = λ v. "1";
  sha256_json = λ v. hex;
  resolve = λ path. path;
  validate_result_contract = λ v. ok tt;
  project_result = λ v contract. ok null;
}

abbrev body : Fields
body = field "model" (str "m") (field "stream" (bool true) end)

abbrev dumps : Value → String
dumps v = "body"

abbrev loads : String → Option Value
loads text = some (obj body)

abbrev caller : RequestIdentity
caller = record {
  actor_id = "agent-1";
  session_id = "s";
  role = "agent";
  target_id = "default";
  parent_span_id = none;
}

abbrev call : Record.Call
call = record {
  attempt_id = "llm-1";
  caller = caller;
  sequence = 0;
  api = "chat.completions";
  body = body;
  started = 5;
}

abbrev answer : Answer
answer = record {
  response = null;
  stream = false;
  status_code = 200;
  tokens = record { prompt = []; response = [] };
  engine = null;
  ended = 9;
}

attempt_line-validate_example :
    validate_llm py loads (attempt_line py dumps "span-1" call answer)
    ≡ ok (slot_of py dumps "span-1" call answer)
unfolding digest string text? all elem same width has get nat?
attempt_line-validate_example =
    attempt_line-validate py loads dumps "span-1" call answer
      (refl, (refl, (refl, (refl, (refl, (refl, refl)))))) refl refl refl refl

line_read :
    validate_llm py loads (attempt_line py dumps "span-1" call answer)
    ≡ ok (slot_of py dumps "span-1" call answer)
unfolding digest string text? all elem same width has get nat?
line_read =
    attempt_line-validate py loads dumps "span-1" call answer
      (refl, (refl, (refl, (refl, (refl, (refl, refl)))))) refl refl refl refl

abbrev first_slot : Slot
first_slot = slot_of py dumps "span-1" call answer

abbrev lane : Lane
lane = ("agent-1", ("s", "agent"))

abbrev fresh : Bool → Store
fresh replay = record {
  setting = record { replay = replay; replay_mode = "tool-only"; upstreams = [] };
  record_sequence = [];
  replay_sequence = [];
  expected = [];
  model_calls = [];
  consumed = 0;
  completed = [];
  delivered = [];
  inflight = [];
  truncated = [];
  truncated_elapsed = [];
  truncated_started = [];
  source_cutoff_at_ns = none;
  attempts = [];
  spans = [];
  tail_runtime = [];
  sessions = [];
}

abbrev one_slot : Store
one_slot = record (fresh true) { expected = (lane, first_slot ∷ []) ∷ [] }

abbrev nobody : String → Bool
nobody actor = false

claim-recorded_example :
    claim py nobody caller body "chat.completions" one_slot ≡ (advance lane one_slot, ok first_slot)
unfolding lookup_or lookup digest string text? all elem same width has get nat?
claim-recorded_example =
    claim-recorded py loads dumps "span-1" call answer nobody one_slot first_slot
      (refl, (refl, (refl, (refl, (refl, (refl, refl)))))) refl refl refl refl line_read refl

-- a request that matches, and one more than was recorded
abbrev requests : List Call
requests =
    record { over = nobody; caller = caller; body = body; api = "chat.completions" }
    ∷ record { over = nobody; caller = caller; body = body; api = "chat.completions" }
    ∷ []

handed_rest_example :
    handed py lane requests one_slot
      ++ drop (place lane (after py requests one_slot)) (queue lane (after py requests one_slot))
    ≡ drop (place lane one_slot) (queue lane one_slot)
handed_rest_example = handed_rest py lane requests one_slot

-- the end of a stream, which the client does not read
abbrev stream_events : List (Bytes × Bool)
stream_events = (codes "data: {}", true) ∷ (codes "data: [DONE]", false) ∷ []

abbrev parses : Bytes → Option Value
parses text = some (obj end)

abbrev closing : Closing
closing = record { status_code = 200; engine = null; now = 20; span_id = "span-1" }

record_stream-Closed_example :
    Closed py dumps call closing
      (fresh false)
      (record_stream py parses dumps call closing stream_events [] true (fresh false)).0
record_stream-Closed_example =
    record_stream-Closed py dumps call closing (fresh false) parses stream_events [] true

abbrev one_open : Store
one_open = record (fresh false) { inflight = ("llm-1", field "started_at_ns" (int 5) end) ∷ [] }

-- the answer ended at 9, before the cutoff at 12, and is written after it
frozen-write_attempt_example :
    In
      (put "elapsed_ns"
        (int (elapsed_of 12 (field "started_at_ns" (int 5) end)))
        (field "started_at_ns" (int 5) end))
      (freeze_source_cutoff 12 one_open).1
    × In "llm-1"
        (write_attempt py dumps "span-1" call answer (freeze_source_cutoff 12 one_open).0).truncated
    × ((write_attempt py dumps "span-1" call answer (freeze_source_cutoff 12 one_open).0).attempts
        ≡ attempt_line py dumps "span-1" call answer ∷ [])
unfolding lookup
frozen-write_attempt_example =
    frozen-write_attempt py dumps "span-1" call answer 12 one_open
      (field "started_at_ns" (int 5) end) refl

abbrev idle : World
idle = record { store = one_slot; serving = []; sending = [] }

idle-IsSound : IsSound idle
unfolding lookup
idle-IsSound =
    ((λ e m. absurd m), ((λ e m. absurd m), ((λ i m. absurd m), ((λ i m. absurd m), λ i n h. cc))))

abbrev asked : World
asked = accept 3 3 (handle py nobody caller body "chat.completions" one_slot) idle

abbrev answering : World
answering = record {
  store = write_evidence caller 3 4 first_slot asked.store;
  serving = [];
  sending = first_slot ∷ [];
}

abbrev answered : World
answered = record { store = deliver first_slot answering.store; serving = []; sending = [] }

-- a request that is claimed, served and delivered
answered_run : Steps py idle answered
unfolding accept handle claim claim_next has_shape lookup_or lookup elem is_forced advance
answered_run =
    step
      (step (step start (request nobody caller body "chat.completions" 3 3))
        (served caller 3 4 [] [] first_slot refl))
      (sent [] [] first_slot refl)

steps-IsSound_example : IsSound answered
steps-IsSound_example = steps-IsSound py idle answered answered_run idle-IsSound
