-- ===== src/Llm/Sse/Encoding.antt =====
-- minireplay/llm_store.py: an event that was encoded is decoded as it was.
use mathlib.Core.List.{append_assoc}
use minireplayer.Prelude.{◌≡◌, refl, ap, ◌∙◌, some, [], ◌∷◌, ◌++◌, arith}
use minireplayer.Bytes.{Bytes, codes, Lacks, after, split_at, lines, strip, strip_left, is_space}
use minireplayer.Llm.Sse.{next_event, blank_line, first_data, sse_payload, encode_sse, feed}
use minireplayer.Llm.Sse.Chunks.{events, events-some, next_event-Lacks}

-- a text without a line feed, up to the blank line after it
split_at-blank_line :
    (s t : Bytes) → Lacks 10 s → split_at blank_line (s ++ (blank_line ++ t)) ≡ some (s, t)
unfolding split_at after
split_at-blank_line [] t l = refl
split_at-blank_line (c ∷ s) t l = rw (split_at-blank_line s t l.1) (ground (arith, l.0))

lines-Lacks : (s : Bytes) → Lacks 10 s → lines s ≡ s ∷ []
unfolding lines
lines-Lacks [] l = refl
lines-Lacks (c ∷ s) l = rw (lines-Lacks s l.1) (ground (arith, l.0))

event-Lacks : (payload : Bytes) → Lacks 10 payload → Lacks 10 (codes "data: " ++ payload)
event-Lacks payload l =
    (omega arith, (omega arith, (omega arith, (omega arith, (omega arith, (omega arith, l))))))

first_data-event :
    (payload : Bytes) → first_data ((codes "data: " ++ payload) ∷ []) ≡ some (strip payload)
unfolding first_data after strip strip_left is_space
first_data-event payload = refl

-- A payload in one line, without white space around it, is what the decoder finds in the event that
-- was encoded, and the event is the first of the stream, where neither the payload nor the rest of
-- the stream holds a carriage return.
pub payload-encode_sse :
    (payload rest : Bytes)
    → Lacks 10 payload
    → Lacks 13 (encode_sse payload ++ rest)
    → strip payload ≡ payload
    → (event : Bytes) × (feed [] (encode_sse payload ++ rest)
        ≡ (event ∷ (feed [] rest).0, (feed [] rest).1))
      × (sse_payload event ≡ some payload)
unfolding feed events encode_sse sse_payload
payload-encode_sse payload rest l r h =
    let event = codes "data: " ++ payload in
    let whole : encode_sse payload ++ rest ≡ event ++ (blank_line ++ rest) =
      append_assoc event blank_line rest in
    let first : next_event (encode_sse payload ++ rest) ≡ some (event, rest) =
      next_event-Lacks (encode_sse payload ++ rest) r
      ∙ ap (split_at blank_line) whole
      ∙ split_at-blank_line event rest (event-Lacks payload l) in
    (
      event,
      events-some (encode_sse payload ++ rest) event rest first,
      ap first_data (lines-Lacks event (event-Lacks payload l))
          ∙ first_data-event payload
          ∙ ap some h,
    )
