-- ===== src/Llm/Store/Promoted.antt =====
-- minireplay/llm_store.py: only complete streams become recorded attempts.
use minireplayer.Prelude.{
  ℕ, String, ◌≡◌, refl, sym, ap, ◌∙◌, inl, inr, Bool, true, false, Option, List, [], ◌∷◌, ◌++◌, map,
  any, if◌then◌else◌, list_eq, nat_eq, Option-cases, lookup, string_eq,
}
use minireplayer.Json.{Value}
use minireplayer.Bytes.{Bytes}
use minireplayer.Boundary.{Python}
use minireplayer.Llm.Store.{Store}
use minireplayer.Llm.Store.Record.{
  Call, attempt_line, write_attempt, write_lines, finish_inflight, is_late,
}
use minireplayer.Llm.Store.Replay.{is_complete}
use minireplayer.Llm.Store.Stream.{
  Stream, opened, next, reset, failed, State, on_events, on_end, and_next, chunk_object,
  mark_stream_interrupted, Closing, answer_of, close_stream, record_stream,
}
use minireplayer.Llm.Store.Streamed.{
  IsTold, Keeps, and_next-Keeps, on_events-Keeps, is_complete-chunks,
}

-- What becomes of a streamed request: no line is written, or the line of a stream that is complete.
pub data Closed (py : Python) (dumps : Value → String) (c : Call) (z : Closing) (s : Store)
    : Store → Type 0 where
  dropped : (s' : Store) → s'.attempts ≡ s.attempts → Closed py dumps c z s s'
  promoted :
      (r : Stream) (s' : Store)
      → is_complete c.api (map chunk_object r.chunks) ≡ true
      → s'.attempts ≡ s.attempts ++ attempt_line py dumps z.span_id c (answer_of z r) ∷ []
      → Closed py dumps c z s s'

module _ (py : Python) (dumps : Value → String) (c : Call) (z : Closing) (s : Store) where
  mark-attempts :
      (now : ℕ) (i reason : String) (r : Stream) (s' : Store)
      → (mark_stream_interrupted now i reason r s').attempts ≡ s'.attempts
  unfolding mark_stream_interrupted
  mark-attempts now i reason r s' = elim (Option-cases (lookup i s'.inflight)) [
    | inl n ↦ rw n refl
    | inr (entry, e) ↦ rw e refl
  ]

  write-Closed :
      (late : Bool) (r : Stream) (s' : Store)
      → is_complete c.api (map chunk_object r.chunks) ≡ true
      → s'.attempts ≡ s.attempts
      → Closed py dumps c z s (
          if late
          then finish_inflight c.attempt_id s'
          else write_lines py dumps z.span_id c (answer_of z r) (finish_inflight c.attempt_id s'))
  unfolding finish_inflight write_lines
  write-Closed true r s' h e = dropped _ e
  write-Closed false r s' h e =
      promoted r _ h (ap (λ l. l ++ attempt_line py dumps z.span_id c (answer_of z r) ∷ []) e)

  settle-Closed :
      (b : Bool) (reason : String) (r : Stream) (s' : Store)
      → r.complete ≡ b
      → IsTold c.api r
      → s'.attempts ≡ s.attempts
      → Closed py dumps c z s (
          if b
          then write_attempt py dumps z.span_id c (answer_of z r) s'
          else mark_stream_interrupted z.now c.attempt_id reason r s')
  unfolding write_attempt
  settle-Closed true reason r s' b h e =
      write-Closed (is_late z.now s') r s' (is_complete-chunks c.api r.chunks ∙ sym h ∙ b) e
  settle-Closed false reason r s' b h e =
      dropped _ (mark-attempts z.now c.attempt_id reason r s' ∙ e)

  close-Closed :
      (t : State) → Keeps c.api s t → Closed py dumps c z s (close_stream py dumps c z t).0
  unfolding close_stream
  close-Closed ((r, s'), next) (h, e) = settle-Closed r.complete _ r s' refl h e
  close-Closed ((r, s'), reset) (h, e) = settle-Closed r.complete _ r s' refl h e
  close-Closed ((r, s'), failed x) (h, e) = dropped s' e

  -- A streamed request leaves no line in llm.jsonl, or the one line of a stream whose recorded chunks
  -- are complete: a stream that was cut before its end is never promoted to a recorded attempt.
  pub record_stream-Closed :
      (loads : Bytes → Option Value) (events : List (Bytes × Bool)) (buffer : Bytes)
      (connected : Bool)
      → Closed py dumps c z s (record_stream py loads dumps c z events buffer connected s).0
  unfolding record_stream on_end any
  record_stream-Closed loads events buffer connected =
      close-Closed
        (and_next (on_events loads c.api c.attempt_id events opened s) (on_end buffer connected))
        (and_next-Keeps c.api s _ _ (on_events-Keeps c.api loads c.attempt_id events opened s refl)
          (λ r s' h. (h, refl)))
