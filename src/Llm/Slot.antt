-- ===== src/Llm/Slot.antt =====
-- minireplay/schema.py: `validate_llm`, the check of a recorded LLM attempt. What it has checked is
-- read into a record, whose fields the store reads later.
use minireplayer.Prelude.{
  ℕ, String, Bool, true, false, ◌&&◌, Option, none, some, Result, ok, raise, validation_error,
  ◌>>=◌, ◌>>◌, require, elem, all, length, nat_beq, nat_eq, string_eq,
}
use minireplayer.Json.{
  Value, Items, Fields, null, bool, int, negative, str, arr, obj, nil, cons, get, has, is_text,
  text?, nat?,
}
use minireplayer.Json.Same.{same}
use minireplayer.Bytes.{codes}
use minireplayer.Boundary.{Python}

pub record Slot : Type 0 where
  pub attempt_id : String
  pub span_id : String
  pub actor_id : String
  pub session_id : String
  pub role : String
  pub target_id : String
  pub api : String
  pub sequence : ℕ
  pub request : Fields
  pub request_shape_sha256 : String
  pub response : Value
  pub stream : Bool
  -- the whole record, as it was read
  pub whole : Fields

-- `_string`
unfoldable pub string : Value → Result String
string (str s) = elim (text? (str s)) [ none ↦ raise validation_error | some t ↦ ok t ]
string _ = raise validation_error

-- `_object`
unfoldable pub object : Value → Result Fields
object (obj d) = ok d
object _ = raise validation_error

-- `_digest`
unfoldable pub digest : Value → Result String
digest v = do
  text ← string v
  require (
      nat_beq (length (codes text)) 64 && all (λ c. elem c (codes "0123456789abcdef")) (codes text))
  ok text

-- `isinstance(value, int) and value >= 0`, which holds for Booleans too
unfoldable pub natural : Value → Result ℕ
natural v = elim (nat? v) [ none ↦ raise validation_error | some n ↦ ok n ]

unfoldable pub boolean : Value → Result Bool
boolean (bool b) = ok b
boolean _ = raise validation_error

-- `isinstance(value, int) and not isinstance(value, bool)`
unfoldable pub is_integer : Value → Bool
is_integer (int n) = true
is_integer (negative n) = true
is_integer _ = false

unfoldable pub are_integers : Items → Bool
are_integers nil = true
are_integers (cons x xs) = is_integer x && are_integers xs

abbrev pub is_integer_list : Value → Bool
is_integer_list (arr xs) = are_integers xs
is_integer_list _ = false

abbrev is_same_object : Option Value → Fields → Bool
is_same_object (some (obj d)) request = same (obj d) (obj request)
is_same_object _ request = false

-- the ordered encoding of the request, where there is one; `loads` is `json.loads`
abbrev check_ordered : (String → Option Value) → Value → Fields → Result (Unit {0})
check_ordered loads null request = ok tt
check_ordered loads v request = do text ← string v; require (is_same_object (loads text) request)

-- `validate_llm`
unfoldable pub validate_llm : Python → (String → Option Value) → Fields → Result Slot
validate_llm py loads value = do
  require (is_text "minireplay.llm-attempt/v1" (get "schema_version" value))
  attempt_id ← string (get "attempt_id" value)
  span_id ← string (get "span_id" value)
  actor_id ← string (get "actor_id" value)
  session_id ← string (get "session_id" value)
  role ← string (get "role" value)
  target_id ← string (get "target_id" value)
  api ← string (get "api" value)
  sequence ← natural (get "sequence" value)
  request ← object (get "request" value)
  check_ordered loads (get "request_ordered_json" value) request
  require (is_text (py.sha256_json (obj request)) (get "request_sha256" value))
  request_shape_sha256 ← digest (get "request_shape_sha256" value)
  require (has "response" value)
  stream ← boolean (get "stream" value)
  require (is_integer (get "status_code" value))
  require (is_integer_list (get "prompt_token_ids" value))
  require (is_integer_list (get "response_token_ids" value))
  ok (record {
    attempt_id = attempt_id;
    span_id = span_id;
    actor_id = actor_id;
    session_id = session_id;
    role = role;
    target_id = target_id;
    api = api;
    sequence = sequence;
    request = request;
    request_shape_sha256 = request_shape_sha256;
    response = get "response" value;
    stream = stream;
    whole = value;
  })
