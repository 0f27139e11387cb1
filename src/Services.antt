-- ===== src/Services.antt =====
-- minireplay/services.py: the two services of a replay, the ledger of the native operations and the
-- store of the model calls, and what can be asked only of both.
pub mod Finished
mod Tests
use minireplayer.Prelude.{
  ℕ, String, Bool, true, false, ◌&&◌, ◌||◌, Option, none, some, List, [], ◌∷◌, ◌++◌, Result, ok,
  raise, infrastructure_error, ◌>>=◌, ◌>>◌, raise_if, elem, if◌then◌else◌, string_eq,
}
use minireplayer.Json.{Fields}
use minireplayer.Boundary.{Python, Ledger, item, spell}
use minireplayer.Boundary.Account.{and_then}
use minireplayer.Boundary.Account as Operations
use minireplayer.Boundary.Cutoff as Closing
use minireplayer.Llm.Store.{Store}
use minireplayer.Llm.Store.Account as Requests

-- `started` says that the services' loops run
pub record Services : Type 0 where
  pub boundary : Ledger
  pub llm : Store
  pub cutoff_actors : List String
  pub started : Bool

-- `{str(entry["actor_id"]) for section in ... for entry in ...}`
unfoldable pub tail_actors : Python → List Fields → Result (List String)
tail_actors py [] = ok []
tail_actors py (entry ∷ rest) = do
  actor ← item "actor_id" entry
  actors ← tail_actors py rest
  ok (spell py actor ∷ actors)

-- `_cutoff_actors`, from `bundle.cutoff_actor_ids()` and the tails of both sections
unfoldable pub cutoff_actors_of : Python → List String → List Fields → Result (List String)
cutoff_actors_of py ids tails = do actors ← tail_actors py tails; ok (ids ++ actors)

abbrev pub is_failed : Option String → Bool
is_failed none = false
is_failed (some _) = true

-- `assert_healthy`, from the `hard_failure` of the two services
unfoldable pub assert_healthy : Option String → Option String → Result (Unit {0})
assert_healthy boundary llm =
    raise_if (is_failed boundary) infrastructure_error
    >> raise_if (is_failed llm) infrastructure_error

-- `expected_complete`; each service reads the clock for itself
unfoldable pub expected_complete : Python → ℕ → ℕ → Services → Bool
expected_complete py now later r =
    Operations.expected_complete py now r.boundary && Requests.expected_complete later r.llm

-- `cutoff_actor_complete`
unfoldable pub cutoff_actor_complete : Python → ℕ → ℕ → String → Services → Result Bool
cutoff_actor_complete py now later actor r = and_then (ok (elem actor r.cutoff_actors)) (
    and_then (Operations.actor_expected_complete py now actor r.boundary)
      (Requests.actor_expected_complete later actor r.llm))

-- `cutoff_actor_prefix_consumed`
unfoldable pub cutoff_actor_prefix_consumed : Python → String → Services → Bool
cutoff_actor_prefix_consumed py actor r =
    elem actor r.cutoff_actors
    && (Operations.actor_expected_prefix_consumed py actor r.boundary
        && Requests.actor_expected_prefix_consumed actor r.llm)

-- what a claim asks of both services: `run_complete` or `actor_complete` of the actor
unfoldable pub is_over : Python → ℕ → ℕ → Services → String → Bool
is_over py now later r actor =
    expected_complete py now later r || cutoff_actor_prefix_consumed py actor r

-- `has_unexpected_active`
unfoldable pub has_unexpected_active : Services → Bool
has_unexpected_active r = Operations.has_unexpected_active r.boundary

-- `assert_consumed`
unfoldable pub assert_consumed : Python → Services → Result (Unit {0})
assert_consumed py r = Operations.assert_consumed py r.boundary >> Requests.assert_consumed r.llm

-- what the freeze of the ledger leaves and answers, followed by the freeze of the store
unfoldable pub freeze_llm :
    ℕ → Services → Ledger × Result (List Fields) → Services × Result (List Fields × List Fields)
freeze_llm cutoff r (l, raise e) = (record r { boundary = l }, raise e)
freeze_llm cutoff r (l, ok operations) =
    let (s, requests) = Requests.freeze_source_cutoff cutoff r.llm in
    (record r { boundary = l; llm = s }, ok (operations, requests))

-- `freeze_source_cutoff`
unfoldable pub freeze_source_cutoff :
    Python → ℕ → Services → Services × Result (List Fields × List Fields)
freeze_source_cutoff py cutoff r =
    if r.started
    then freeze_llm cutoff r (Closing.freeze_source_cutoff py cutoff r.boundary)
    else (r, raise infrastructure_error)
