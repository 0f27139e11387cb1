-- ===== src/Llm/Store/Claim.antt =====
-- minireplay/llm_store.py: `_claim`.
use minireplayer.Prelude.{
  ◌+◌, String, Bool, false, ◌&&◌, ◌||◌, Option, none, some, List, [], ◌∷◌, Result, ok, raise,
  mismatch_error, workload_complete, get_elem?, elem, all, insert, lookup_or, if◌then◌else◌, ◌==◌,
  string_eq, pair_eq,
}
use minireplayer.Json.{Value, Fields}
use minireplayer.Json.Same.{same}
use minireplayer.Boundary.{Python}
use minireplayer.Llm.Shape.{
  request_shape, live_multimodal_request_shape, live_document_request_shape,
}
use minireplayer.Llm.Slot.{Slot}
use minireplayer.Llm.Store.{RequestIdentity, Lane, key, Store}

-- two live shapes, where both requests have one, that are equal
abbrev both_same : Option Value → Option Value → Bool
both_same (some v) (some w) = same v w
both_same _ _ = false

-- whether a request has the recorded shape, or the recorded live shape
unfoldable pub has_shape : Python → RequestIdentity → Fields → Slot → Bool
has_shape py i body e =
    py.sha256_json (request_shape py body) == e.request_shape_sha256
    || both_same (live_multimodal_request_shape py e.request)
        (live_multimodal_request_shape py body)
    || (i.role == "document"
        && both_same (live_document_request_shape py e.request)
            (live_document_request_shape py body))

-- `lane_complete`
unfoldable pub lane_complete : List Slot → Store → Bool
lane_complete [] s = false
lane_complete (e ∷ es) s = all (λ r. elem (r.attempt_id) s.delivered) (e ∷ es)

-- `mark_session_prefix_consumed`
unfoldable pub mark_session : RequestIdentity → Store → Store
mark_session i s = record s { sessions = (i.actor_id, i.session_id) ∷ s.sessions }

-- `_claim` on a lane that has no recorded request left; `over` is what `run_complete` or
-- `actor_complete` answers for the actor
unfoldable pub claim_past : (String → Bool) → RequestIdentity → Store → Store × Result Slot
claim_past over i s =
    let complete = lane_complete (lookup_or (key i) [] s.expected) s in
    (
      (if complete then mark_session i s else s),
      (if over i.actor_id || complete then raise workload_complete else raise mismatch_error),
    )

-- `self._replay_sequence[key] = sequence + 1`
unfoldable pub advance : Lane → Store → Store
advance k s = record s {
  replay_sequence = insert k (lookup_or k 0 s.replay_sequence + 1) s.replay_sequence;
}

unfoldable pub claim_next :
    Python → RequestIdentity → Fields → String → Slot → Store → Store × Result Slot
claim_next py i body api e s =
    if e.api == api
    then (if has_shape py i body e then (advance (key i) s, ok e) else (s, raise mismatch_error))
    else (s, raise mismatch_error)

abbrev claim_at :
    Python
    → (String → Bool)
    → RequestIdentity
    → Fields
    → String
    → Option Slot
    → Store
    → Store × Result Slot
claim_at py over i body api none s = claim_past over i s
claim_at py over i body api (some e) s = claim_next py i body api e s

-- `_claim`
unfoldable pub claim :
    Python → (String → Bool) → RequestIdentity → Fields → String → Store → Store × Result Slot
claim py over i body api s =
    claim_at py over i body api
      (get_elem? (lookup_or (key i) [] s.expected) (lookup_or (key i) 0 s.replay_sequence)) s
