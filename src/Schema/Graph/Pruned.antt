-- ===== src/Schema/Graph/Pruned.antt =====
-- minireplayer/schema.py and minireplayer/cutoff.py: the check of the causal graph after the pruning.
use minireplayer.Prelude.{
  ℕ, zero, suc, String, ◌≡◌, sym, inl, inr, Bool, Option, none, some, List, [], ◌∷◌, ok, In,
  Bool-cases, keep, In-of_keep, In-map, In-of_map, some_inj, ◌==◌, subst, string_eq,
}
use minireplayer.Cutoff.{
  dispatch, tool, Row, Stage, Tail, open_parents, round, prune, changed, close_stage, spelled,
  text_of,
}
use minireplayer.Cutoff.Closed.{IsClosed}
use minireplayer.Cutoff.Closing.{close_stage-closes}
use minireplayer.Schema.Graph.{executions, validate_causal_graph}
use minireplayer.Schema.Graph.Accepted.{Distinct, IsCausal, validate_causal_graph_iff}

In-executions-keep :
    (p : Row → Bool) (rows : List Row) (a : Option String)
    → In a (executions (keep p rows))
    → In a (executions rows)
unfolding executions
In-executions-keep p rows a m =
    let (r, there, e) = In-of_map (λ r. r.execution_call_id) a (keep p rows) m in
    rw e (In-map (λ r. r.execution_call_id) r rows (In-of_keep p r rows there).0)

Distinct-tail : (a : Option String) (xs : List (Option String)) → Distinct (a ∷ xs) → Distinct xs
Distinct-tail none xs d = d
Distinct-tail (some a) xs (f, d) = d

Distinct-cons :
    (a : Option String) (xs ys : List (Option String))
    → ((b : Option String) → In b ys → In b xs)
    → Distinct (a ∷ xs)
    → Distinct ys
    → Distinct (a ∷ ys)
Distinct-cons none xs ys h d e = e
Distinct-cons (some a) xs ys h (f, d) e = (λ m. f (h (some a) m), e)

Distinct-keep :
    (p : Row → Bool) (rows : List Row)
    → Distinct (executions rows)
    → Distinct (executions (keep p rows))
unfolding executions keep
Distinct-keep p [] d = tt
Distinct-keep p (r ∷ rows) d = elim (Bool-cases (p r)) [
  | inl y ↦ rw y (
      Distinct-cons r.execution_call_id (executions rows) (executions (keep p rows))
        (In-executions-keep p rows) d
        (Distinct-keep p rows (Distinct-tail r.execution_call_id (executions rows) d)))
  | inr n ↦ rw n (Distinct-keep p rows (Distinct-tail r.execution_call_id (executions rows) d))
]

Distinct-round :
    (open_ids : List String) (s : Stage)
    → Distinct (executions (s.kept dispatch))
    → Distinct (executions ((round open_ids s).kept dispatch))
unfolding round
Distinct-round open_ids s d = Distinct-keep _ _ (Distinct-keep _ (s.kept dispatch) d)

Distinct-prune :
    (open_ids : List String) (fuel : ℕ) (s t : Stage)
    → Distinct (executions (s.kept dispatch))
    → prune open_ids fuel s ≡ some t
    → Distinct (executions (t.kept dispatch))
unfolding prune
Distinct-prune open_ids zero s t d h = cc
Distinct-prune open_ids (suc fuel) s t d h = elim (Bool-cases (changed s (round open_ids s))) [
  | inl y ↦
      Distinct-prune open_ids fuel (round open_ids s) t (Distinct-round open_ids s d) (rw y at h)
  | inr n ↦
      subst (λ u. Distinct (executions (u.kept dispatch))) (some_inj (rw n at h))
        (Distinct-round open_ids s d)
]

spelled-text_of : (o : Option String) (a : String) → In a (spelled o) → text_of o ≡ a
spelled-text_of none a m = absurd m
spelled-text_of (some s) a m = elim (Bool-cases (s == "")) [
  | inl y ↦ absurd (rw y at m)
  | inr n ↦ elim (rw n at m) [ inl e ↦ sym e | inr m' ↦ absurd m' ]
]

IsCausal-of_closed :
    (open_ids : List String) (t : Stage)
    → IsClosed open_ids t
    → Distinct (executions (t.kept dispatch))
    → IsCausal t.spans (t.kept dispatch) (t.kept tool) open_ids
IsCausal-of_closed open_ids t c d = record {
  parented = λ p m.
      let (k, r, there, e) = c.owned p m in
      c.rooted k r p there m (spelled-text_of r.span_id p.span_id e);
  executed = λ r m. c.linked dispatch r m;
  dispatched = λ r m. c.linked tool r m;
  owned_once = d;
}

-- For every stage in which no two dispatches name one execution, and all cutoff tails, the pruning
-- ends with a stage that the check of the causal graph accepts.
pub close_stage-validate_causal_graph :
    (tails : List Tail) (s : Stage)
    → Distinct (executions (s.kept dispatch))
    → (t : Stage) × (close_stage tails s ≡ some t)
      × (validate_causal_graph t.spans (t.kept dispatch) (t.kept tool) (open_parents tails) ≡ ok tt)
unfolding close_stage
close_stage-validate_causal_graph tails s d =
    let (t, e, closed, part) = close_stage-closes tails s in
    (
      t,
      e,
      (validate_causal_graph_iff t.spans (t.kept dispatch) (t.kept tool) (open_parents tails)).1 (
          IsCausal-of_closed (open_parents tails) t closed
            (Distinct-prune (open_parents tails) _ s t d e)),
    )
