-- ===== src/Llm/Store/Record.antt =====
-- minireplay/llm_store.py: recording. A handler takes a sequence number and notes its request as in
-- flight (`_record`), and writes the attempt once the engine has answered (`_write_attempt`).
use Prim.Native.String.{◌++◌ as text_append}
use minireplayer.Prelude.{
  ℕ, ◌+◌, String, Bool, true, false, Option, none, some, List, [], ◌∷◌, ◌++◌, Result, ok, raise,
  mismatch_error, insert, lookup, lookup_or, remove, ltb, if◌then◌else◌, string_eq, pair_eq,
}
use minireplayer.Json.{
  Value, Items, Fields, bool, int, negative, str, arr, nil, cons, obj, end, field, opt_str,
}
use minireplayer.Boundary.{Python}
use minireplayer.Llm.Tokens.{Token, token, minus, Tokens}
use minireplayer.Llm.Shape.{request_shape}
use minireplayer.Llm.Store.{RequestIdentity, key, Store}

-- what the handler of a forwarded request keeps
pub record Call : Type 0 where
  pub attempt_id : String
  pub caller : RequestIdentity
  pub sequence : ℕ
  pub api : String
  pub body : Fields
  pub started : ℕ

-- `self._inflight[attempt_id]`
unfoldable pub inflight_entry : Python → String → Call → Fields
inflight_entry py span_id c = field "cutoff_truncated" (bool true) (
    field "attempt_id" (str c.attempt_id) (
      field "span_id" (str span_id) (
        field "actor_id" (str c.caller.actor_id) (
          field "session_id" (str c.caller.session_id) (
            field "role" (str c.caller.role) (
              field "target_id" (str c.caller.target_id) (
                field "api" (str c.api) (
                  field "sequence" (int c.sequence) (
                    field "request" (obj c.body) (
                      field "request_sha256" (str (py.sha256_json (obj c.body))) (
                        field "request_shape_sha256"
                          (str (py.sha256_json (request_shape py c.body)))
                          (field "started_at_ns" (int c.started) end))))))))))))

-- the number that `_record` takes for its lane
unfoldable pub take_sequence : RequestIdentity → Store → Store
take_sequence i s = record s {
  record_sequence = insert (key i) (lookup_or (key i) 0 s.record_sequence + 1) s.record_sequence;
}

unfoldable pub note_inflight : Python → String → Call → Store → Store
note_inflight py span_id c s = record s {
  inflight = insert c.attempt_id (inflight_entry py span_id c) s.inflight;
}

abbrev pub begin_at : Python → String → Call → Option String → Store → Store × Result Call
begin_at py span_id c none s = (s, raise mismatch_error)
begin_at py span_id c (some url) s = (note_inflight py span_id c s, ok c)

-- `_record` up to the request to the engine; the two identifiers are fresh ones, and the target
-- without an upstream has taken its number all the same
unfoldable pub begin_record :
    Python → String → String → RequestIdentity → Fields → String → ℕ → Store → Store × Result Call
begin_record py attempt_id span_id i body api started s =
    begin_at py span_id
      (record {
        attempt_id = attempt_id;
        caller = i;
        sequence = lookup_or (key i) 0 s.record_sequence;
        api = api;
        body = body;
        started = started;
      })
      (lookup i.target_id s.setting.upstreams) (take_sequence i s)

abbrev token_value : Token → Value
token_value (token n) = int n
token_value (minus n) = negative n

unfoldable pub token_values : List Token → Items
token_values [] = nil
token_values (t ∷ ts) = cons (token_value t) (token_values ts)

-- what the engine answered, and when
pub record Answer : Type 0 where
  pub response : Value
  pub stream : Bool
  pub status_code : ℕ
  pub tokens : Tokens
  pub engine : Value
  pub ended : ℕ

-- the line of llm.jsonl; `dumps` is `json.dumps` of the request in its own order
unfoldable pub attempt_line : Python → (Value → String) → String → Call → Answer → Fields
attempt_line py dumps span_id c a = field "schema_version" (str "minireplay.llm-attempt/v1") (
    field "attempt_id" (str c.attempt_id) (
      field "span_id" (str span_id) (
        field "actor_id" (str c.caller.actor_id) (
          field "session_id" (str c.caller.session_id) (
            field "role" (str c.caller.role) (
              field "target_id" (str c.caller.target_id) (
                field "sequence" (int c.sequence) (
                  field "api" (str c.api) (
                    field "request" (obj c.body) (
                      field "request_ordered_json" (str (dumps (obj c.body))) (
                        field "request_sha256" (str (py.sha256_json (obj c.body))) (
                          field "request_shape_sha256"
                            (str (py.sha256_json (request_shape py c.body)))
                            (field "response" a.response (
                              field "stream" (bool a.stream) (
                                field "status_code" (int a.status_code) (
                                  field "prompt_token_ids" (arr (token_values a.tokens.prompt)) (
                                    field "response_token_ids"
                                      (arr (token_values a.tokens.response))
                                      (field "engine" a.engine (
                                        field "started_at_ns" (int c.started)
                                          (field "ended_at_ns" (int a.ended) end))))))))))))))))))))

-- the line of spans.jsonl
unfoldable pub span_line : String → Option String → String → String → String → ℕ → ℕ → Fields
span_line span_id parent actor role status started ended =
    field "schema_version" (str "minireplay.span/v1") (
      field "span_id" (str span_id) (
        field "parent_span_id" (opt_str parent) (
          field "actor_id" (str actor) (
            field "kind" (str "llm") (
              field "name" (str (text_append "llm:" role)) (
                field "status" (str status)
                  (field "started_at_ns" (int started) (field "ended_at_ns" (int ended) end))))))))

-- `_finish_inflight`
unfoldable pub finish_inflight : String → Store → Store
finish_inflight i s = record s { inflight = remove i s.inflight }

-- the answer came after the window was closed
unfoldable pub is_late : ℕ → Store → Bool
is_late ended s = elim (s.source_cutoff_at_ns) [ none ↦ false | some cutoff ↦ ltb cutoff ended ]

unfoldable pub write_lines : Python → (Value → String) → String → Call → Answer → Store → Store
write_lines py dumps span_id c a s = record s {
  attempts = s.attempts ++ attempt_line py dumps span_id c a ∷ [];
  spans =
      s.spans
      ++ span_line span_id c.caller.parent_span_id c.caller.actor_id c.caller.role
          (if ltb a.status_code 400 then "ok" else "error") c.started a.ended
        ∷ [];
  consumed = s.consumed + 1;
}

-- `_write_attempt`
unfoldable pub write_attempt : Python → (Value → String) → String → Call → Answer → Store → Store
write_attempt py dumps span_id c a s =
    let ended = finish_inflight c.attempt_id s in
    if is_late a.ended s then ended else write_lines py dumps span_id c a ended
