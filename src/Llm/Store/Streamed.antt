-- ===== src/Llm/Store/Streamed.antt =====
-- minireplay/llm_store.py: which streams become recorded attempts, and what their chunks are.
use minireplayer.Prelude.{
  String, ◌≡◌, refl, sym, ap, ap₂, ◌∙◌, inl, inr, Bool, true, false, ◌||◌, Option, none, some, List,
  [], ◌∷◌, ◌++◌, map, any, if◌then◌else◌, ◌==◌, list_eq, nat_eq, Option-cases, string_eq,
}
use minireplayer.Json.{Value, obj, arr, str, float, int, negative, bool, null, get, truth}
use minireplayer.Bytes.{Bytes, codes}
use minireplayer.Llm.Sse.{sse_payload}
use minireplayer.Llm.Tokens.{strip_token_fields, stream_payload_is_terminal}
use minireplayer.Llm.Store.{Store}
use minireplayer.Llm.Store.Replay.{is_complete, is_terminal_payload}
use minireplayer.Llm.Store.Stream.{
  Chunk, finished, payload, Stream, opened, next, reset, failed, State, on_done, take_tokens,
  is_terminal, keep_chunk, on_value, on_payload, on_events, and_next, chunk_object,
}

-- whether a chunk ends its stream
abbrev pub ends : String → Chunk → Bool
ends api finished = true
ends api (payload (obj d)) = stream_payload_is_terminal api d
ends api (payload _) = false

or_true : (b : Bool) → (b || true) ≡ true
or_true true = refl
or_true false = refl

or_none : (b : Bool) → (b || false) ≡ b
or_none true = refl
or_none false = refl

or_assoc : (a b c : Bool) → (a || (b || c)) ≡ ((a || b) || c)
or_assoc true b c = refl
or_assoc false b c = refl

or_swap : (a b c d : Bool) → ((a || b) || (c || d)) ≡ ((a || c) || (b || d))
or_swap true b c d = refl
or_swap false true true d = refl
or_swap false true false d = refl
or_swap false false c d = refl

any-snoc :
    {A : Type 0} (p : A → Bool) (x : A) (xs : List A) → any p (xs ++ x ∷ []) ≡ (any p xs || p x)
unfolding any
any-snoc p x [] = or_none (p x)
any-snoc p x (y ∷ xs) = ap (◌||◌ (p y)) (any-snoc p x xs) ∙ or_assoc (p y) (any p xs) (p x)

-- the flag of a stream says whether one of its chunks ends it
abbrev pub IsTold : String → Stream → Type 0
IsTold api r = r.complete ≡ any (ends api) r.chunks

module _ (api : String) where
  -- what the steps keep: the flag, and the lines that were written
  abbrev pub Keeps : Store → State → Type 0
  Keeps s t = IsTold api t.0.0 × (t.0.1.attempts ≡ s.attempts)

  on_done-Keeps : (b : Bool) (r : Stream) (s : Store) → IsTold api r → Keeps s (on_done b r s)
  unfolding on_done
  on_done-Keeps true r s h =
      (sym (any-snoc (ends api) finished r.chunks ∙ or_true (any (ends api) r.chunks)), refl)
  on_done-Keeps false r s h = (h, refl)

  unended-IsTold :
      (c : Chunk)
      → ends api c ≡ false
      → (r : Stream) → IsTold api r
      → r.complete ≡ any (ends api) (r.chunks ++ c ∷ [])
  unended-IsTold c n r h =
      h ∙ sym (any-snoc (ends api) c r.chunks ∙ ap (◌||◌ (any (ends api) r.chunks)) n ∙ or_none _)

  keep_chunk-Keeps :
      (v : Value) (r : Stream) (s : Store)
      → IsTold api r
      → Keeps s (keep_chunk v (is_terminal api v) r s)
  unfolding keep_chunk
  keep_chunk-Keeps (obj d) r s h = (
    ap (λ b. b || stream_payload_is_terminal api d) h
        ∙ sym (any-snoc (ends api) (payload (obj d)) r.chunks),
    refl,
  )
  keep_chunk-Keeps (arr x) r s h = (unended-IsTold (payload (arr x)) refl r h, refl)
  keep_chunk-Keeps (str x) r s h = (unended-IsTold (payload (str x)) refl r h, refl)
  keep_chunk-Keeps (float x) r s h = (unended-IsTold (payload (float x)) refl r h, refl)
  keep_chunk-Keeps (int x) r s h = (unended-IsTold (payload (int x)) refl r h, refl)
  keep_chunk-Keeps (negative x) r s h = (unended-IsTold (payload (negative x)) refl r h, refl)
  keep_chunk-Keeps (bool x) r s h = (unended-IsTold (payload (bool x)) refl r h, refl)
  keep_chunk-Keeps null r s h = (unended-IsTold (payload null) refl r h, refl)

  if-Keeps :
      (b : Bool) (s : Store) (t u : State) → Keeps s t → Keeps s u → Keeps s (if b then t else u)
  if-Keeps true s t u h k = h
  if-Keeps false s t u h k = k

  on_value-Keeps :
      (i : String) (v : Value) (b : Bool) (r : Stream) (s : Store)
      → IsTold api r
      → Keeps s (on_value api i v b r s)
  unfolding on_value take_tokens
  on_value-Keeps i v true r s h = keep_chunk-Keeps (strip_token_fields v) (take_tokens v r) _ h
  on_value-Keeps i v false r s h = (h, refl)

  on_payload-Keeps :
      (loads : Bytes → Option Value) (i : String) (text : Option Bytes) (b : Bool) (r : Stream)
      (s : Store)
      → IsTold api r
      → Keeps s (on_payload loads api i text b r s)
  unfolding on_payload
  on_payload-Keeps loads i none b r s h = (h, refl)
  on_payload-Keeps loads i (some text) b r s h =
      if-Keeps (text == codes "[DONE]") s _ _ (on_done-Keeps b r s h)
        (elim (Option-cases (loads text)) [
          | inl n ↦ rw n (h, refl)
          | inr (v, e) ↦ rw e (on_value-Keeps i v b r s h)
        ])

  pub and_next-Keeps :
      (s : Store) (t : State) (rest : Stream → Store → State)
      → Keeps s t
      → ((r : Stream) (s' : Store) → IsTold api r → Keeps s' (rest r s'))
      → Keeps s (and_next t rest)
  and_next-Keeps s ((r, s'), next) rest (h, e) k = let (told, same) = k r s' h in (told, same ∙ e)
  and_next-Keeps s ((r, s'), reset) rest h k = h
  and_next-Keeps s ((r, s'), failed x) rest h k = h

  pub on_events-Keeps :
      (loads : Bytes → Option Value) (i : String) (events : List (Bytes × Bool)) (r : Stream)
      (s : Store)
      → IsTold api r
      → Keeps s (on_events loads api i events r s)
  unfolding on_events
  on_events-Keeps loads i [] r s h = (h, refl)
  on_events-Keeps loads i ((event, b) ∷ rest) r s h =
      and_next-Keeps s _ _ (on_payload-Keeps loads i (sse_payload event) b r s h)
        (λ r' s'. on_events-Keeps loads i rest r' s')

  ends_both :
      (c : Chunk)
      → (truth (get "done" (chunk_object c))
          || is_terminal_payload api (get "payload" (chunk_object c)))
        ≡ ends api c
  unfolding truth get
  ends_both finished = refl
  ends_both (payload (obj d)) = refl
  ends_both (payload (arr x)) = refl
  ends_both (payload (str x)) = refl
  ends_both (payload (float x)) = refl
  ends_both (payload (int x)) = refl
  ends_both (payload (negative x)) = refl
  ends_both (payload (bool x)) = refl
  ends_both (payload null) = refl

  pub is_complete-chunks :
      (cs : List Chunk) → is_complete api (map chunk_object cs) ≡ any (ends api) cs
  unfolding is_complete any
  is_complete-chunks [] = refl
  is_complete-chunks (c ∷ cs) =
      or_swap (truth (get "done" (chunk_object c))) _ _ _
      ∙ ap₂ ◌||◌ (ends_both c) (is_complete-chunks cs)

  -- At the end of the events of a stream, whatever they are and wherever the client went away, the flag
  -- of the recording is the one that a replay computes from the recorded chunks.
  pub complete-is_complete :
      (loads : Bytes → Option Value) (i : String) (events : List (Bytes × Bool)) (s : Store)
      → (on_events loads api i events opened s).0.0.complete
        ≡ is_complete api (map chunk_object (on_events loads api i events opened s).0.0.chunks)
  unfolding any
  complete-is_complete loads i events s =
      (on_events-Keeps loads i events opened s refl).0
      ∙ sym (is_complete-chunks (on_events loads api i events opened s).0.0.chunks)
