-- ===== src/Llm/Shape.antt =====
-- minireplay/llm_store.py: `request_shape` and its two projections of live requests.
pub mod Bucket
use Prim.Native.String.{count, ◌++◌ as text_append}
use minireplayer.Prelude.{
  ℕ, zero, suc, ◌*◌, String, Bool, true, false, not, ◌&&◌, ◌||◌, Option, none, some, List, [], ◌∷◌,
  leb, ltb, nat_beq, if◌then◌else◌, elem, ◌==◌, string_eq,
}
use minireplayer.Json.{
  Value, Items, Fields, null, bool, int, negative, float, str, arr, obj, nil, cons, end, field, get,
  is_text,
}
use minireplayer.Json.Text.{after_prefix, starts_with, until, split_text}
use minireplayer.Boundary.{Python}

-- `while size > bound: bound *= 4` on fuel
unfoldable pub grow : ℕ → ℕ → ℕ → ℕ
grow zero size bound = bound
grow (suc fuel) size bound =
    let more = grow fuel size (bound * 4) in if ltb bound size then more else bound

-- the bound of `_size_bucket`; the fuel is enough
unfoldable pub bucket_bound : ℕ → ℕ
bucket_bound size = grow size size 16

-- `_size_bucket`
unfoldable pub size_bucket : Python → String → String
size_bucket py s =
    if nat_beq (count s) 0 then "0" else text_append "1-" (py.repr (int (bucket_bound (count s))))

abbrev or_default : String → String
or_default s = if s == "" then "application/octet-stream" else s

abbrev text_or_empty : Option String → String
text_or_empty none = ""
text_or_empty (some s) = s

-- `_inline_data_shape`, of a text that starts with `data:`
unfoldable pub inline_data_shape : String → Value
inline_data_shape value =
    let header = text_or_empty (after_prefix "data:" (until b',' value)) in
    obj (
      field "kind" (str "inline-data")
        (field "media_type" (str (or_default (until b';' header))) end))

-- `field in _SHAPE_STRUCTURAL`
unfoldable pub is_structural : Option String → Bool
is_structural none = false
is_structural (some key) = elem key ("name" ∷ "role" ∷ "type" ∷ [])

unfoldable pub text_shape : Python → Option String → String → Value
text_shape py key s =
    if is_structural key
    then str s
    else if starts_with "data:" s
    then inline_data_shape s
    else obj (field "kind" (str "text") (field "size_bucket" (str (size_bucket py s)) end))

-- `_shape`
unfoldable mutual
  pub shape : Python → Option String → Value → Value
  shape py key (obj d) = obj (shape_fields py d)
  shape py key (arr xs) = arr (shape_items py key xs)
  shape py key (str s) = text_shape py key s
  shape py key (float s) = float s
  shape py key (int n) = int n
  shape py key (negative n) = negative n
  shape py key (bool b) = bool b
  shape py key null = null

  pub shape_items : Python → Option String → Items → Items
  shape_items py key nil = nil
  shape_items py key (cons x xs) = cons (shape py key x) (shape_items py key xs)

  pub shape_fields : Python → Fields → Fields
  shape_fields py end = end
  shape_fields py (field k v rest) = field k (shape py (some k) v) (shape_fields py rest)

-- the fields whose keys pass a test
unfoldable pub filter_fields : (String → Bool) → Fields → Fields
filter_fields p end = end
filter_fields p (field k v rest) =
    let others = filter_fields p rest in if p k then field k v others else others

-- the values of the top level are shaped without their keys
unfoldable pub shape_values : Python → Fields → Fields
shape_values py end = end
shape_values py (field k v rest) = field k (shape py none v) (shape_values py rest)

unfoldable pub is_payload : String → Bool
is_payload k = elem k ("messages" ∷ "input" ∷ "prompt" ∷ [])

abbrev pub configuration : Fields → Value
configuration body = obj (filter_fields (λ k. not (is_payload k)) body)

-- `request_shape`
unfoldable pub request_shape : Python → Fields → Value
request_shape py body = obj (
    field "payload" (obj (shape_values py (filter_fields is_payload body)))
      (field "configuration" (configuration body) end))

-- `_contains_inline_data`
unfoldable mutual
  pub contains_inline_data : Value → Bool
  contains_inline_data (str s) = starts_with "data:" s
  contains_inline_data (obj d) = any_inline_field d
  contains_inline_data (arr xs) = any_inline_item xs
  contains_inline_data (float s) = false
  contains_inline_data (int n) = false
  contains_inline_data (negative n) = false
  contains_inline_data (bool b) = false
  contains_inline_data null = false

  pub any_inline_item : Items → Bool
  any_inline_item nil = false
  any_inline_item (cons x xs) = contains_inline_data x || any_inline_item xs

  pub any_inline_field : Fields → Bool
  any_inline_field end = false
  any_inline_field (field k v rest) = contains_inline_data v || any_inline_field rest

abbrev is_inline_message : Value → Bool
is_inline_message (obj d) = contains_inline_data (get "content" d)
is_inline_message _ = false

abbrev is_system_message : Value → Bool
is_system_message (obj d) = is_text "system" (get "role" d)
is_system_message _ = false

abbrev last_or : Value → Option Value → Option Value
last_or x none = some x
last_or x (some y) = some y

-- `inline_messages[-1]`, if there is one
unfoldable pub latest_inline : Items → Option Value
latest_inline nil = none
latest_inline (cons x xs) =
    let later = latest_inline xs in if is_inline_message x then last_or x later else later

unfoldable pub system_messages : Items → Items
system_messages nil = nil
system_messages (cons x xs) =
    let later = system_messages xs in if is_system_message x then cons x later else later

abbrev is_other_payload : String → Bool
is_other_payload k = elem k ("input" ∷ "prompt" ∷ [])

unfoldable pub multimodal_shape : Python → Fields → Items → Value → Value
multimodal_shape py body messages latest = obj (
    field "payload"
      (obj (
        field "messages"
          (obj (
            field "system" (arr (shape_items py none (system_messages messages)))
              (field "latest_inline" (shape py none latest) end)))
          (shape_values py (filter_fields is_other_payload body))))
      (field "configuration" (configuration body) end))

abbrev multimodal_of : Python → Fields → Value → Option Value
multimodal_of py body (arr messages) = elim (latest_inline messages) [
  | none ↦ none
  | some latest ↦ some (multimodal_shape py body messages latest)
]
multimodal_of py body _ = none

-- `_live_multimodal_request_shape`
unfoldable pub live_multimodal_request_shape : Python → Fields → Option Value
live_multimodal_request_shape py body = multimodal_of py body (get "messages" body)

abbrev opening : String
opening = "<document_part>"

abbrev closing : String
closing = "</document_part>"

abbrev redact_rest : String → String → Option (String × String) → Option String
redact_rest before inner none = none
redact_rest before inner (some (chunk, after)) = some (
    text_append before
      (text_append opening (text_append "\n<live-document-chunk>\n" (text_append closing after))))

-- a text with its document part replaced, if it has one
unfoldable pub redact_text : String → Option String
redact_text s = elim (split_text opening s) [
  | none ↦ none
  | some (before, inner) ↦ redact_rest before inner (split_text closing inner)
]

-- `redact`, with whether it found a document part
unfoldable mutual
  pub redact : Value → Value × Bool
  redact (obj d) = (obj (redact_fields d).0, (redact_fields d).1)
  redact (arr xs) = (arr (redact_items xs).0, (redact_items xs).1)
  redact (str s) = elim (redact_text s) [ none ↦ (str s, false) | some t ↦ (str t, true) ]
  redact (float s) = (float s, false)
  redact (int n) = (int n, false)
  redact (negative n) = (negative n, false)
  redact (bool b) = (bool b, false)
  redact null = (null, false)

  pub redact_items : Items → Items × Bool
  redact_items nil = (nil, false)
  redact_items (cons x xs) =
      (cons (redact x).0 (redact_items xs).0, (redact x).1 || (redact_items xs).1)

  pub redact_fields : Fields → Fields × Bool
  redact_fields end = (end, false)
  redact_fields (field k v rest) =
      (field k (redact v).0 (redact_fields rest).0, (redact v).1 || (redact_fields rest).1)

-- `_live_document_request_shape`
unfoldable pub live_document_request_shape : Python → Fields → Option Value
live_document_request_shape py body =
    if (redact_fields body).1 then some (request_shape py (redact_fields body).0) else none
