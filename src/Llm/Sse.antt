-- ===== src/Llm/Sse.antt =====
-- minireplay/llm_store.py: `SSEDecoder`, `sse_payload` and `encode_sse`.
pub mod Chunks
pub mod Encoding
use minireplayer.Prelude.{
  ℕ, zero, suc, Bool, true, false, Option, none, some, List, [], ◌∷◌, ◌++◌, Result, ok, raise,
  validation_error, length, if◌then◌else◌,
}
use minireplayer.Bytes.{Bytes, codes, after, split_at, lines, strip}

abbrev pub blank_line : Bytes
blank_line = 10 ∷ 10 ∷ []

abbrev pub blank_crlf_line : Bytes
blank_crlf_line = 13 ∷ 10 ∷ 13 ∷ 10 ∷ []

abbrev pub or_else : Option (Bytes × Bytes) → Option (Bytes × Bytes) → Option (Bytes × Bytes)
or_else none o = o
or_else (some x) o = some x

-- one pass over the separators: the first that occurs in the buffer is split at
unfoldable pub next_event : Bytes → Option (Bytes × Bytes)
next_event buffer = or_else (split_at blank_line buffer) (split_at blank_crlf_line buffer)

abbrev pub with_event :
    Option (Bytes × Bytes) → (Bytes → List Bytes × Bytes) → Bytes → List Bytes × Bytes
with_event none loop buffer = ([], buffer)
with_event (some (event, rest)) loop buffer = (event ∷ (loop rest).0, (loop rest).1)

-- `while True` on fuel: the events, and the buffer that is left
unfoldable pub drain : ℕ → Bytes → List Bytes × Bytes
drain zero buffer = ([], buffer)
drain (suc fuel) buffer = with_event (next_event buffer) (drain fuel) buffer

-- `SSEDecoder.feed` on a buffer; an event takes two bytes at least, so the fuel is enough
unfoldable pub feed : Bytes → Bytes → List Bytes × Bytes
feed buffer chunk = drain (length (buffer ++ chunk)) (buffer ++ chunk)

abbrev is_blank : Bytes → Bool
is_blank [] = true
is_blank (_ ∷ _) = false

-- `SSEDecoder.finish`
unfoldable pub finish : Bytes → Result (Unit {0})
finish buffer = if is_blank (strip buffer) then ok tt else raise validation_error

abbrev pub data_prefix : Bytes
data_prefix = codes "data:"

abbrev pub payload_or : Option Bytes → Option Bytes → Option Bytes
payload_or none later = later
payload_or (some rest) later = some (strip rest)

unfoldable pub first_data : List Bytes → Option Bytes
first_data [] = none
first_data (line ∷ rest) = payload_or (after data_prefix line) (first_data rest)

-- `sse_payload`, before its bytes are decoded
unfoldable pub sse_payload : Bytes → Option Bytes
sse_payload event = first_data (lines event)

-- `encode_sse`, of a payload that is encoded already
unfoldable pub encode_sse : Bytes → Bytes
encode_sse payload = codes "data: " ++ (payload ++ blank_line)
