-- ===== src/Llm/Store/Lanes.antt =====
-- minireplay/llm_store.py: what a run of claims hands over to each lane.
use mathlib.Core.List.{append_assoc}
use minireplayer.Prelude.{
  ℕ, String, ◌≡◌, refl, ap, ◌∙◌, inl, inr, Bool, true, false, some, List, [], ◌∷◌, ◌++◌, Result, ok,
  raise, Option-cases, drop, get_elem?, lookup_or, handed-insert, Exception, if◌then◌else◌, ◌==◌,
  pair_eq, string_eq, ◌||◌, mismatch_error, workload_complete,
}
use minireplayer.Json.{Fields}
use minireplayer.Boundary.{Python}
use minireplayer.Llm.Slot.{Slot}
use minireplayer.Llm.Store.{RequestIdentity, Lane, key, Store}
use minireplayer.Llm.Store.Claim.{
  has_shape, claim, claim_next, claim_past, advance, lane_complete, mark_session,
}

abbrev pub queue : Lane → Store → List Slot
queue k s = lookup_or k [] s.expected

abbrev pub place : Lane → Store → ℕ
place k s = lookup_or k 0 s.replay_sequence

-- What a claim does: it hands over the next recorded request, whose API and shape are the request's,
-- or it is refused and leaves the queues and their places.
pub data Claimed (py : Python) (i : RequestIdentity) (body : Fields) (api : String) (s : Store)
    : Store → Result Slot → Type 0 where
  granted :
      (e : Slot)
      → get_elem? (queue (key i) s) (place (key i) s) ≡ some e
      → e.api ≡ api
      → has_shape py i body e ≡ true
      → Claimed py i body api s (advance (key i) s) (ok e)
  refused : (x : Exception) → Claimed py i body api s s (raise x)
  marked :
      lane_complete (queue (key i) s) s ≡ true
      → Claimed py i body api s (mark_session i s) (raise workload_complete)

module _ (py : Python) (i : RequestIdentity) (body : Fields) (api : String) (s : Store) where
  past-Claimed :
      (over b : Bool)
      → lane_complete (queue (key i) s) s ≡ b
      → Claimed py i body api s
          (if b then mark_session i s else s)
          (if over || b then raise workload_complete else raise mismatch_error)
  past-Claimed true true h = marked h
  past-Claimed false true h = marked h
  past-Claimed true false h = refused workload_complete
  past-Claimed false false h = refused mismatch_error

  next-Claimed :
      (e : Slot)
      → get_elem? (queue (key i) s) (place (key i) s) ≡ some e
      → (a b : Bool) → (e.api == api) ≡ a
      → has_shape py i body e ≡ b
      → (done : Store × Result Slot)
      → done ≡ (
          if a
          then (if b then (advance (key i) s, ok e) else (s, raise mismatch_error))
          else (s, raise mismatch_error))
      → Claimed py i body api s done.0 done.1
  next-Claimed e h true true p q done d = rw d (granted e h ((string_eq.beq_iff _ _).0 p) q)
  next-Claimed e h true false p q done d = rw d (refused mismatch_error)
  next-Claimed e h false b p q done d = rw d (refused mismatch_error)

  pub claim-Claimed :
      (over : String → Bool)
      → Claimed py i body api s (claim py over i body api s).0 (claim py over i body api s).1
  unfolding claim claim_past claim_next
  claim-Claimed over = elim (Option-cases (get_elem? (queue (key i) s) (place (key i) s))) [
    | inl n ↦ rw n (past-Claimed (over i.actor_id) (lane_complete (queue (key i) s) s) refl)
    | inr (e, h) ↦ rw h (
        next-Claimed e h (e.api == api) (has_shape py i body e) refl refl
          (claim_next py i body api e s) refl)
  ]

-- one request for a claim, with what the window's state is for it
pub record Call : Type 0 where
  pub over : String → Bool
  pub caller : RequestIdentity
  pub body : Fields
  pub api : String

abbrev claim_call : Python → Call → Store → Store × Result Slot
claim_call py c s = claim py c.over c.caller c.body c.api s

-- the store after a run of claims
unfoldable pub after : Python → List Call → Store → Store
after py [] s = s
after py (c ∷ cs) s = after py cs (claim_call py c s).0

abbrev given_to : Lane → Lane → Result Slot → List Slot
given_to k j (ok e) = if k == j then e ∷ [] else []
given_to k j (raise _) = []

-- the recorded requests that a run of claims hands over to a lane
unfoldable pub handed : Python → Lane → List Call → Store → List Slot
handed py k [] s = []
handed py k (c ∷ cs) s =
    given_to k (key c.caller) (claim_call py c s).1 ++ handed py k cs (claim_call py c s).0

module _ (py : Python) (k : Lane) where
  claim-handed :
      (i : RequestIdentity) (body : Fields) (api : String) (s s' : Store) (r : Result Slot)
      → Claimed py i body api s s' r
      → (s'.expected ≡ s.expected)
        × (given_to k (key i) r ++ drop (place k s') (queue k s) ≡ drop (place k s) (queue k s))
  unfolding advance mark_session
  claim-handed i body api s s' r (granted e h a b) =
      (refl, handed-insert k (key i) s.replay_sequence s.expected e h)
  claim-handed i body api s s' r (refused x) = (refl, refl)
  claim-handed i body api s s' r (marked h) = (refl, refl)

  -- Whatever requests of whatever lanes come in whatever order, and however many of them are
  -- refused: the recorded requests that were handed over for a lane, followed by those that are
  -- left of its queue at the end, are those that were left at the start.
  pub handed_rest :
      (cs : List Call) (s : Store)
      → handed py k cs s ++ drop (place k (after py cs s)) (queue k (after py cs s))
        ≡ drop (place k s) (queue k s)
  unfolding handed after
  handed_rest [] s = refl
  handed_rest (c ∷ cs) s =
      let s' = (claim_call py c s).0 in
      let (same, this) =
        claim-handed c.caller c.body c.api s s' _
          (claim-Claimed py c.caller c.body c.api s c.over) in
      append_assoc _ (handed py k cs s') _
      ∙ ap (◌++◌ _) (handed_rest cs s' ∙ ap (λ qs. drop (place k s') (lookup_or k [] qs)) same)
      ∙ this
