-- ===== src/Services/Tests.antt =====
-- One actor that was open at the source's cutoff, with no recorded model request left.
use minireplayer.Prelude.{
  ℕ, String, ◌≡◌, refl, Bool, true, false, none, some, List, [], ◌∷◌, ok, elem, any, all, string_eq,
  lookup, lookup_or, inl, inr, get_elem?, sym, ◌∙◌, subst, pair_eq, zero, suc, ◌==◌, if◌then◌else◌,
  insert, lookup_or-insert,
}
use minireplayer.Json.{null, end}
use minireplayer.Contracts.{mini_swe}
use minireplayer.Boundary.{Python, Ledger}
use minireplayer.Boundary.Account as Operations
use minireplayer.Llm.Slot.{Slot}
use minireplayer.Llm.Store.{Lane, Store}
use minireplayer.Llm.Store.Replay.{held, handle, replay_line}
use minireplayer.Llm.Store.Lanes.{queue}
use minireplayer.Llm.Store.Account as Requests
use minireplayer.Llm.Store.Accounting.{IsUnique, IsDict}
use minireplayer.Llm.Store.Run.{World, IsSound}
use minireplayer.Services.{
  Services, expected_complete, cutoff_actor_complete, cutoff_actor_prefix_consumed, is_over,
  has_unexpected_active, assert_consumed,
}
use minireplayer.Services.Finished.{
  complete-assert_consumed, actor_complete-prefix_consumed, prefix_consumed-held,
}

abbrev py : Python
py = record {
  repr = λ v. "1";
  sha256_json = λ v. "sha256";
  resolve = λ path. path;
  validate_result_contract = λ v. ok tt;
  project_result = λ v contract. ok null;
}

abbrev ledger : Ledger
ledger = record {
  setting = record {
    replay = true;
    llm_only = false;
    adapter = mini_swe;
    places = record { run_root = "/data/run"; workspace = "/data/run/workspace"; repo = "/repo" };
    fast_claim = false;
    causal_lanes_enabled = true;
  };
  active = [];
  expected = [];
  cursor = [];
  cutoff_expected = [];
  cutoff_cursor = [];
  cutoff_intercepted = [];
  completed = [];
  delivered = [];
  lane_of_record = [];
  source_path_maps = [];
  truncated = [];
  truncated_elapsed = [];
  truncated_started = [];
  source_cutoff_at_ns = none;
  ledgers = [];
  spans = [];
  tail_runtime = [];
}

abbrev slot : String → ℕ → Slot
slot i n = record {
  attempt_id = i;
  span_id = "span-1";
  actor_id = "agent-1";
  session_id = "s";
  role = "agent";
  target_id = "default";
  api = "responses";
  sequence = n;
  request = end;
  request_shape_sha256 = "sha256";
  response = null;
  stream = false;
  whole = end;
}

abbrev lane : Lane
lane = ("agent-1", ("s", "agent"))

-- one recorded request, which was served and delivered
abbrev store : Store
store = record {
  setting = record { replay = true; replay_mode = "tool-only"; upstreams = [] };
  record_sequence = [];
  replay_sequence = (lane, 1) ∷ [];
  expected = (lane, slot "llm-1" 0 ∷ []) ∷ [];
  model_calls = [];
  consumed = 1;
  completed = "llm-1" ∷ [];
  delivered = "llm-1" ∷ [];
  inflight = [];
  truncated = [];
  truncated_elapsed = [];
  truncated_started = [];
  source_cutoff_at_ns = none;
  attempts = replay_line "tool-only" 3 4 (slot "llm-1" 0) ∷ [];
  spans = [];
  tail_runtime = [];
  sessions = [];
}

abbrev services : Services
services = record { boundary = ledger; llm = store; cutoff_actors = "agent-1" ∷ []; started = true }

complete-assert_consumed_example : assert_consumed py services ≡ ok tt
unfolding expected_complete has_unexpected_active Operations.expected_complete
    Requests.expected_complete Operations.has_unexpected_active all any elem Requests.is_delivered
complete-assert_consumed_example = complete-assert_consumed py 9 9 services refl refl

prefix_consumed-held_example :
    (handle py
      (is_over py 9 9 services)
      (record {
        actor_id = "agent-1";
        session_id = "s";
        role = "agent";
        target_id = "default";
        parent_span_id = none;
      })
      end
      "responses"
      store).1
    ≡ held
unfolding cutoff_actor_prefix_consumed Operations.actor_expected_prefix_consumed
    Requests.actor_expected_prefix_consumed all elem lookup_or lookup Requests.slot_entered
prefix_consumed-held_example =
    prefix_consumed-held py 9 9 services
      (record {
        actor_id = "agent-1";
        session_id = "s";
        role = "agent";
        target_id = "default";
        parent_span_id = none;
      })
      end "responses" refl

abbrev world : World
world = record { store = store; serving = []; sending = [] }

world-IsSound : IsSound world
unfolding lookup lookup_or
world-IsSound = (
  (λ e m. absurd m),
  (
    (λ e m. absurd m),
    (
      λ i m. elim m [
        | inl q ↦ (slot "llm-1" 0, q, (lane, inl refl), ("tool-only", 3, 4, inl refl))
        | inr v ↦ absurd v
      ],
      ((λ i m. m), λ i n h. cc),
    ),
  ),
)

only_one : (a : ℕ) (e : Slot) → get_elem? (slot "llm-1" 0 ∷ []) a ≡ some e → a ≡ 0
only_one zero e h = refl
only_one (suc a) e h = cc

in_lane_if :
    (b : Bool) (k : Lane) (a : ℕ) (e : Slot)
    → (k == lane) ≡ b
    → get_elem? (if b then slot "llm-1" 0 ∷ [] else []) a ≡ some e
    → (k ≡ lane) × (a ≡ 0)
in_lane_if true k a e y h = ((pair_eq.beq_iff k lane).0 y, only_one a e h)
in_lane_if false k a e n h = cc

in_lane :
    (k : Lane) (a : ℕ) (e : Slot) → get_elem? (queue k store) a ≡ some e → (k ≡ lane) × (a ≡ 0)
unfolding insert lookup_or lookup
in_lane k a e h = in_lane_if (k == lane) k a e refl (
    subst (λ (l : List Slot). get_elem? l a ≡ some e)
      (lookup_or-insert k lane [] (slot "llm-1" 0 ∷ []) []) h)

world-IsUnique : IsUnique store
world-IsUnique j k a b d e g h i =
    let (x, y) = in_lane j a d g in let (z, w) = in_lane k b e h in (x ∙ sym z, y ∙ sym w)

world-IsDict : IsDict store.expected
unfolding lookup_or lookup
world-IsDict k q m = elim m [
  | inl e ↦ subst (λ (p : Lane × List Slot). lookup_or p.0 [] store.expected ≡ p.1) (sym e) refl
  | inr v ↦ absurd v
]

actor_complete-prefix_consumed_example : cutoff_actor_prefix_consumed py "agent-1" services ≡ true
unfolding cutoff_actor_complete Operations.actor_expected_complete Requests.actor_expected_complete
    elem Requests.slot_settled Requests.is_delivered Operations.all_of
actor_complete-prefix_consumed_example =
    actor_complete-prefix_consumed py 9 9 "agent-1" services world (λ i m. m) refl world-IsSound
      world-IsUnique world-IsDict refl
