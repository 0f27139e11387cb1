-- ===== src/Llm/Tokens.antt =====
-- minireplay/llm_store.py: `strip_token_fields`, `collect_token_fields`,
-- `stream_payload_is_terminal` and `_index_model_calls`.
pub mod Stripped
use minireplayer.Prelude.{
  ℕ, String, Bool, true, false, not, ◌&&◌, ◌||◌, Option, none, some, List, [], ◌∷◌, ◌++◌, Dict,
  lookup, if◌then◌else◌, elem, ◌==◌, string_eq,
}
use minireplayer.Json.{
  Value, Items, Fields, null, bool, int, negative, float, str, arr, obj, nil, cons, end, field, get,
  nat?, is_text,
}

-- `_TOKEN_FIELDS`
unfoldable pub is_token_field : String → Bool
is_token_field k = elem k ("prompt_token_ids" ∷ "token_ids" ∷ "raw_message_tokens" ∷ [])

-- `strip_token_fields`
unfoldable mutual
  pub strip_token_fields : Value → Value
  strip_token_fields (obj d) = obj (strip_fields d)
  strip_token_fields (arr xs) = arr (strip_items xs)
  strip_token_fields (str s) = str s
  strip_token_fields (float s) = float s
  strip_token_fields (int n) = int n
  strip_token_fields (negative n) = negative n
  strip_token_fields (bool b) = bool b
  strip_token_fields null = null

  pub strip_items : Items → Items
  strip_items nil = nil
  strip_items (cons x xs) = cons (strip_token_fields x) (strip_items xs)

  pub strip_fields : Fields → Fields
  strip_fields end = end
  strip_fields (field k v rest) =
      let kept = field k (strip_token_fields v) (strip_fields rest) in
      let dropped = strip_fields rest in if is_token_field k then dropped else kept

-- a token as a value that is an integer; a negative one is kept as it is
pub data Token : Type 0 where
  token minus : ℕ → Token

-- `int(t)` if `isinstance(t, int)`
unfoldable pub token_of : Value → List Token
token_of (int n) = token n ∷ []
token_of (negative n) = minus n ∷ []
token_of (bool true) = token 1 ∷ []
token_of (bool false) = token 0 ∷ []
token_of _ = []

unfoldable pub tokens_of : Items → List Token
tokens_of nil = []
tokens_of (cons x xs) = token_of x ++ tokens_of xs

-- the lists of `collect_token_fields`
pub record Tokens : Type 0 where
  pub prompt : List Token
  pub response : List Token

abbrev pub unless_known : List Token → Value → List Token
unless_known [] (arr xs) = tokens_of xs
unless_known known _ = known

abbrev pub append_tokens : List Token → Value → List Token
append_tokens known (arr xs) = known ++ tokens_of xs
append_tokens known _ = known

-- what the visit of an object notes of its own fields
unfoldable pub note_tokens : Fields → Tokens → Tokens
note_tokens d t = record {
  prompt = unless_known t.prompt (get "prompt_token_ids" d);
  response = append_tokens t.response (get "token_ids" d);
}

-- `visit`
unfoldable mutual
  pub visit_tokens : Value → Tokens → Tokens
  visit_tokens (obj d) t = visit_children d (note_tokens d t)
  visit_tokens (arr xs) t = visit_items xs t
  visit_tokens (str s) t = t
  visit_tokens (float s) t = t
  visit_tokens (int n) t = t
  visit_tokens (negative n) t = t
  visit_tokens (bool b) t = t
  visit_tokens null t = t

  pub visit_items : Items → Tokens → Tokens
  visit_items nil t = t
  visit_items (cons x xs) t = visit_items xs (visit_tokens x t)

  pub visit_children : Fields → Tokens → Tokens
  visit_children end t = t
  visit_children (field k v rest) t = visit_children rest (visit_tokens v t)

-- `collect_token_fields`
unfoldable pub collect_token_fields : Value → Tokens
collect_token_fields v = visit_tokens v (record { prompt = []; response = [] })

abbrev is_finished : Value → Bool
is_finished null = false
is_finished _ = true

abbrev is_finished_choice : Value → Bool
is_finished_choice (obj d) = is_finished (get "finish_reason" d)
is_finished_choice _ = false

unfoldable pub any_finished : Items → Bool
any_finished nil = false
any_finished (cons x xs) = is_finished_choice x || any_finished xs

abbrev any_finished_in : Value → Bool
any_finished_in (arr xs) = any_finished xs
any_finished_in _ = false

-- `stream_payload_is_terminal`
unfoldable pub stream_payload_is_terminal : String → Fields → Bool
stream_payload_is_terminal api payload =
    if api == "chat.completions"
    then any_finished_in (get "choices" payload)
    else is_text "response.completed" (get "type" payload)
      || is_text "response.failed" (get "type" payload)
      || is_text "response.incomplete" (get "type" payload)
