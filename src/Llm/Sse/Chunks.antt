-- ===== src/Llm/Sse/Chunks.antt =====
-- minireplay/llm_store.py: the events of a stream do not depend on its chunks.
use mathlib.Core.List.{append_assoc, append-nil}
use minireplayer.Prelude.{
  ℕ, zero, suc, ◌≤◌, ◌≡◌, refl, sym, ap, ◌∙◌, subst, inl, inr, Option, none, some, List, [], ◌∷◌,
  ◌++◌, length, Option-cases, arith,
}
use minireplayer.Bytes.{Bytes, Lacks, split_at}
use minireplayer.Bytes.Split.{length-split_at, split_at-append, split_at-Lacks, rest-Lacks}
use minireplayer.Llm.Sse.{next_event, blank_line, blank_crlf_line, or_else, drain, feed}

next_event-shorter : (s b r : Bytes) → next_event s ≡ some (b, r) → suc (length r) ≤ length s
unfolding next_event
next_event-shorter s b r h = elim (Option-cases (split_at blank_line s)) [
  | inl n ↦ omega (arith, length-split_at blank_crlf_line s b r (rw n at h))
  | inr ((b', r'), e) ↦ omega (arith, length-split_at blank_line s b r (e ∙ rw e at h))
]

next_event-nil : (s : Bytes) → length s ≤ 0 → next_event s ≡ none
unfolding next_event split_at
next_event-nil [] h = refl
next_event-nil (c ∷ s) h = absurd (ground (arith, h))

drain-done : (n : ℕ) (s : Bytes) → length s ≤ n → next_event (drain n s).1 ≡ none
unfolding drain
drain-done zero s h = next_event-nil s h
drain-done (suc n) s h = elim (Option-cases (next_event s)) [
  | inl e ↦ rw (drain, e) e
  | inr ((b, r), e) ↦ rw (drain, e) (drain-done n r (omega (arith, next_event-shorter s b r e, h)))
]

-- The loop of the decoder ends, and no complete event is left in its buffer.
pub feed-done : (buffer chunk : Bytes) → next_event (feed buffer chunk).1 ≡ none
unfolding feed
feed-done buffer chunk = drain-done (length (buffer ++ chunk)) (buffer ++ chunk) (omega arith)

-- more fuel than enough makes no difference
drain-fuel : (n m : ℕ) (s : Bytes) → length s ≤ n → length s ≤ m → drain n s ≡ drain m s
unfolding drain
drain-fuel zero zero s h k = refl
drain-fuel zero (suc m) s h k = rw (drain, next_event-nil s h) refl
drain-fuel (suc n) zero s h k = rw (drain, next_event-nil s k) refl
drain-fuel (suc n) (suc m) s h k = elim (Option-cases (next_event s)) [
  | inl e ↦ rw (drain, e) refl
  | inr ((b, r), e) ↦
      rw (drain, e)
        (ap (λ x. (b ∷ x.0, x.1))
          (drain-fuel n m r (omega (arith, next_event-shorter s b r e, h))
            (omega (arith, next_event-shorter s b r e, k))))
]

-- the events of a buffer, and what is left of it
unfoldable pub events : Bytes → List Bytes × Bytes
events s = drain (length s) s

events-none : (s : Bytes) → next_event s ≡ none → events s ≡ ([], s)
unfolding events drain
events-none [] h = refl
events-none (c ∷ s) h = rw (drain, h) refl

pub events-some :
    (s b r : Bytes) → next_event s ≡ some (b, r) → events s ≡ (b ∷ (events r).0, (events r).1)
unfolding events drain
events-some [] b r h = absurd (ground (arith, next_event-shorter [] b r h))
events-some (c ∷ s) b r h =
    rw (drain, h)
      (ap (λ x. (b ∷ x.0, x.1))
        (drain-fuel (length s) (length r) r (ground (arith, next_event-shorter (c ∷ s) b r h))
          (omega arith)))

Lacks-append_left : (d : ℕ) (s t : Bytes) → Lacks d (s ++ t) → Lacks d s
Lacks-append_left d [] t l = tt
Lacks-append_left d (c ∷ s) t l = (l.0, Lacks-append_left d s t l.1)

-- without a carriage return only the blank line separates
pub next_event-Lacks : (s : Bytes) → Lacks 13 s → next_event s ≡ split_at blank_line s
unfolding next_event
next_event-Lacks s l =
    rw (split_at-Lacks (10 ∷ 13 ∷ 10 ∷ []) s 13 l) (or_none (split_at blank_line s))
  where
    or_none : (o : Option (Bytes × Bytes)) → or_else o none ≡ o
    or_none none = refl
    or_none (some x) = refl

-- An event of a text stays its first event when more follows.
next_event-append :
    (s t b r : Bytes)
    → Lacks 13 (s ++ t)
    → next_event s ≡ some (b, r)
    → (next_event (s ++ t) ≡ some (b, r ++ t)) × Lacks 13 (r ++ t)
next_event-append s t b r l h =
    let split = sym (next_event-Lacks s (Lacks-append_left 13 s t l)) ∙ h in
    let more = split_at-append blank_line s t b r split in
    (next_event-Lacks (s ++ t) l ∙ more, rest-Lacks blank_line (s ++ t) b (r ++ t) 13 more l)

abbrev then_events : List Bytes × Bytes → Bytes → List Bytes × Bytes
then_events (done, left) t = (done ++ (events (left ++ t)).0, (events (left ++ t)).1)

events-append :
    (n : ℕ) (s t : Bytes)
    → length s ≤ n
    → Lacks 13 (s ++ t)
    → events (s ++ t) ≡ then_events (events s) t
events-append zero s t h l = rw (events-none s (next_event-nil s h)) refl
events-append (suc n) s t h l = elim (Option-cases (next_event s)) [
  | inl e ↦ rw (events-none s e) refl
  | inr ((b, r), e) ↦
      let more = next_event-append s t b r l e in
      let shorter = next_event-shorter s b r e in
      events-some (s ++ t) b (r ++ t) more.0
      ∙ ap (λ x. (b ∷ x.0, x.1)) (events-append n r t (omega (arith, shorter, h)) more.1)
      ∙ ap (λ x. then_events x t) (sym (events-some s b r e))
]

left-Lacks : (n : ℕ) (s t : Bytes) → length s ≤ n → Lacks 13 (s ++ t) → Lacks 13 ((events s).1 ++ t)
left-Lacks zero s t h l = rw (events-none s (next_event-nil s h)) l
left-Lacks (suc n) s t h l = elim (Option-cases (next_event s)) [
  | inl e ↦ rw (events-none s e) l
  | inr ((b, r), e) ↦
      let shorter = next_event-shorter s b r e in
      rw (events-some s b r e)
        (left-Lacks n r t (omega (arith, shorter, h)) (next_event-append s t b r l e).1)
]

-- what a decoder gives for the chunks of a stream
unfoldable pub feed_all : Bytes → List Bytes → List Bytes × Bytes
feed_all buffer [] = ([], buffer)
feed_all buffer (chunk ∷ chunks) =
    let now = feed buffer chunk in let later = feed_all now.1 chunks in (now.0 ++ later.0, later.1)

abbrev pub joined : List Bytes → Bytes
joined [] = []
joined (chunk ∷ chunks) = chunk ++ joined chunks

-- However a stream without carriage returns is cut into chunks, the decoder gives the events that
-- it gives for the stream as one chunk, and keeps the same rest; `buffer` holds no whole event.
pub feed_all-joined :
    (buffer : Bytes) (chunks : List Bytes)
    → next_event buffer ≡ none
    → Lacks 13 (buffer ++ joined chunks)
    → feed_all buffer chunks ≡ feed buffer (joined chunks)
unfolding feed_all feed events
feed_all-joined buffer [] h l = sym (ap events (append-nil buffer) ∙ events-none buffer h)
feed_all-joined buffer (chunk ∷ chunks) h l =
    let whole : buffer ++ (chunk ++ joined chunks) ≡ (buffer ++ chunk) ++ joined chunks =
      sym (append_assoc buffer chunk (joined chunks)) in
    let plain = subst (Lacks 13) whole l in
    let rest =
      left-Lacks (length (buffer ++ chunk)) (buffer ++ chunk) (joined chunks) (omega arith) plain in
    let ih = feed_all-joined (feed buffer chunk).1 chunks (feed-done buffer chunk) rest in
    ap (λ x. ((feed buffer chunk).0 ++ x.0, x.1)) ih
    ∙ sym (
        ap events whole
        ∙ events-append (length (buffer ++ chunk)) (buffer ++ chunk) (joined chunks) (omega arith)
            plain)
