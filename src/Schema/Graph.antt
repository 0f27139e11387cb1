-- ===== src/Schema/Graph.antt =====
-- minireplayer/schema.py: `validate_causal_graph`, the check that the closed prefix is closed, over
-- records as the pruning of minireplay/cutoff.py reads them.
pub mod Accepted
pub mod Pruned
use minireplayer.Prelude.{
  String, Bool, true, false, not, Option, none, some, List, [], ◌∷◌, ◌++◌, map, Result, ok, raise,
  ◌>>=◌, ◌>>◌, require, elem, string_eq,
}
use minireplayer.Cutoff.{Row, Span, absent_or_in, span_ids}

-- every record of a list passes
unfoldable pub require_all : {A : Type 0} → (A → Bool) → List A → Result (Unit {0})
require_all p [] = ok tt
require_all p (x ∷ xs) = require (p x) >> require_all p xs

-- the loop that gives every execution its owner; `owned` has the executions that have one
unfoldable pub own_executions : List String → List (Option String) → Result (Unit {0})
own_executions owned [] = ok tt
own_executions owned (none ∷ rest) = own_executions owned rest
own_executions owned (some execution ∷ rest) =
    require (not (elem execution owned)) >> own_executions (execution ∷ owned) rest

unfoldable pub executions : List Row → List (Option String)
executions = map (λ r. r.execution_call_id)

-- `validate_causal_graph`
unfoldable pub validate_causal_graph :
    List Span → List Row → List Row → List String → Result (Unit {0})
validate_causal_graph spans dispatches tools open_parents = do
  require_all (λ s. absent_or_in s.parent_span_id (span_ids spans ++ open_parents)) spans
  require_all (λ r. absent_or_in r.execution_call_id (map (λ t. t.id) tools)) dispatches
  require_all (λ r. absent_or_in r.dispatch_id (map (λ d. d.id) dispatches)) tools
  own_executions [] (executions dispatches)
