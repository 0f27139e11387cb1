-- ===== src/Boundary/Claim.antt =====
-- minireplay/boundary.py: `_claim` and the comparison that it makes.
use minireplayer.Prelude.{
  ◌+◌, String, Bool, true, false, ◌||◌, Option, none, some, List, [], ◌∷◌, Dict, Result, ok, raise,
  mismatch_error, workload_complete, ◌>>=◌, ◌>>◌, require, get_elem?, elem, all, insert, lookup_or,
  if◌then◌else◌, ◌==◌, string_eq, pair_eq, option_eq,
}
use minireplayer.Json.{Value, Fields, str, obj, end, get, get_or, put, text?, is_true, is_text}
use minireplayer.Json.Text.{starts_with}
use minireplayer.Json.Same.{same_all}
use minireplayer.Contracts.{
  bind_typed_fields, run_path_map, recorded_path_map, restore_embedded_coral_source_paths,
}
use minireplayer.Boundary.{
  Kind, grader, artifact, kind_eq, Python, spell, Key, Ledger, Action, identity_of, lane_of,
  claim_identity, model_call_id, is_coral,
}

-- `_workspace_path`
unfoldable pub workspace_path : Fields → Result (Option String)
workspace_path payload = elim (text? (get "workspace_path" payload)) [
  | none ↦ ok none
  | some path ↦ require (starts_with "/" path) >> ok (some path)
]

-- `dict.update`
unfoldable pub update : Dict String String → Dict String String → Dict String String
update m [] = m
update m ((k, v) ∷ rest) = update (insert k v m) rest

-- `_logical`
unfoldable pub logical : Python → Ledger → Value → Option String → Dict String String → Value
logical py l arguments workspace source_path_map =
    let own = run_path_map l.setting.places in
    bind_typed_fields l.setting.adapter arguments (
      update
        (elim workspace [ none ↦ own | some w ↦ insert (py.resolve w) "/native-workspace" own ])
        source_path_map)

abbrev pub resolved : Python → Option String → Option String
resolved py none = none
resolved py (some w) = some (py.resolve w)

-- the part of `_claimable` for a dispatch or a tool: the arguments under recorded names
unfoldable pub claim_arguments : Python → Ledger → Fields → Fields → Result Value
claim_arguments py l payload expected = do
  source_path_map ←
      recorded_path_map l.setting.adapter (get_or "native_arguments" (obj end) expected)
        (get_or "arguments" (obj end) expected)
  workspace ← workspace_path payload
  let arguments = logical py l (get_or "arguments" (obj end) payload) workspace source_path_map
  let actor = spell py (get "actor_id" payload)
  ok (
      if is_coral l.setting.adapter
      then restore_embedded_coral_source_paths arguments (lookup_or actor [] l.source_path_maps)
          l.setting.places (resolved py workspace)
      else arguments)

-- `_claimable`
unfoldable pub claimable : Python → Ledger → Kind → Fields → Fields → Result Fields
claimable py l grader payload expected = ok payload
claimable py l artifact payload expected = ok payload
claimable py l _ payload expected = do
  arguments ← claim_arguments py l payload expected
  ok (put "arguments_sha256" (str (py.sha256_json arguments)) payload)

-- whether the observed identity is the recorded one
unfoldable pub matches : Python → Ledger → Kind → Fields → Fields → Result Bool
matches py l kind payload expected = do
  value ← claimable py l kind payload expected
  observed ← claim_identity kind value
  recorded ← claim_identity kind expected
  ok (same_all observed recorded)

unfoldable pub is_composite : Fields → Bool
is_composite record' = is_text "enter-and-preserve-descendants" (get "replay_entry" record')

abbrev pub same_call : Option String → Option String → Bool
same_call none observed = false
same_call (some call) none = false
same_call (some call) (some other) = other == call

-- whether a request meets the next cutoff tail of its lane
unfoldable pub tail_matches : Python → Ledger → Kind → Fields → Fields → Result Bool
tail_matches py l kind payload cutoff =
    if is_true (get "pre_dispatch" cutoff)
    then ok (same_call (model_call_id cutoff) (model_call_id payload))
    else if l.setting.fast_claim
    then ok true
    else matches py l kind payload cutoff

-- `self._cursor[key] = cursor + 1`
unfoldable pub advance : Key → Ledger → Ledger
advance key l = record l { cursor = insert key (lookup_or key 0 l.cursor + 1) l.cursor }

-- what a claim does when the comparison was made, with `done` as what it does on a match
abbrev pub on_match : Result Bool → Ledger × Result Fields → Action Fields
on_match (ok true) done l = done
on_match (ok false) done l = (l, raise mismatch_error)
on_match (raise e) done l = (l, raise e)

-- the branch of `_claim` for a lane with closed work left
unfoldable pub claim_closed : Python → Key → Fields → Fields → Action Fields
claim_closed py key payload expected l =
    if l.setting.fast_claim
    then (advance key l, ok expected)
    else on_match (matches py l key.0 payload expected) (advance key l, ok expected) l

unfoldable pub intercept : Python → Key → Fields → Ledger → Ledger
intercept py key cutoff l = record l {
  cutoff_cursor = insert key (lookup_or key 0 l.cutoff_cursor + 1) l.cutoff_cursor;
  cutoff_intercepted = identity_of py key.0 cutoff ∷ l.cutoff_intercepted;
}

-- a composite tail is entered, any other holds its request
abbrev pub enter_or_hold : Fields → Result Fields
enter_or_hold cutoff = if is_composite cutoff then ok cutoff else raise workload_complete

-- the branch for a lane whose closed work is done and that has a tail left
unfoldable pub claim_tail : Python → Key → Fields → Fields → Action Fields
claim_tail py key payload cutoff l =
    on_match (tail_matches py l key.0 payload cutoff)
      (intercept py key cutoff l, enter_or_hold cutoff) l

-- `lane_complete`
unfoldable pub lane_complete : Python → Kind → List Fields → Ledger → Bool
lane_complete py kind [] l = false
lane_complete py kind (r ∷ rs) l = all (λ q. elem (identity_of py kind q) l.delivered) (r ∷ rs)

-- `_claim` past the closed work of a lane, at its next tail; `over` is what `run_complete` or
-- `actor_complete` answers for the actor
unfoldable pub claim_past : Python → (String → Bool) → Key → Fields → Option Fields → Action Fields
claim_past py over key payload (some cutoff) l = claim_tail py key payload cutoff l
claim_past py over key payload none l = (
  l,
  (if over key.1.0 || lane_complete py key.0 (lookup_or key [] l.expected) l
      then raise workload_complete
      else raise mismatch_error),
)

-- `_claim` at the next closed record of its lane
unfoldable pub claim_at : Python → (String → Bool) → Key → Fields → Option Fields → Action Fields
claim_at py over key payload (some expected) l = claim_closed py key payload expected l
claim_at py over key payload none l =
    claim_past py over key payload
      (get_elem? (lookup_or key [] l.cutoff_expected) (lookup_or key 0 l.cutoff_cursor)) l

-- `_claim`
unfoldable pub claim : Python → (String → Bool) → Kind → String → Fields → Action Fields
claim py over kind actor payload l =
    let key : Key = (kind, (actor, lane_of py l kind payload)) in
    claim_at py over key payload
      (get_elem? (lookup_or key [] l.expected) (lookup_or key 0 l.cursor)) l
