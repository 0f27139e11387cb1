-- ===== src/Cutoff/Closing.antt =====
-- What `close_stage_at_cutoff` writes back: it ends, and its result is a closed part of the stage.
use minireplayer.Prelude.{
  ℕ, zero, suc, ◌<◌, String, ◌≡◌, ap, inl, inr, Option, some, List, arith, Subset, Bool-cases,
}
use minireplayer.Cutoff.{Kind, Stage, Tail, open_parents, round, size, changed, prune, close_stage}
use minireplayer.Cutoff.Closed.{IsClosed}
use minireplayer.Cutoff.Fixpoint.{
  size-round-lt, In-of_round, In-of_spans_round, round_still, still-IsClosed,
}

-- every record and span of the one is in the other, under the same kind
pub record IsPart (t s : Stage) : Type 0 where
  pub rows : (k : Kind) → Subset (t.kept k) (s.kept k)
  pub spans : Subset t.spans s.spans

pub IsPart-refl : (s : Stage) → IsPart s s
IsPart-refl s = record { rows = λ k r m. m; spans = λ p m. m }

pub IsPart-trans : {t u s : Stage} → IsPart t u → IsPart u s → IsPart t s
IsPart-trans a b = record {
  rows = λ k r m. b.rows k r (a.rows k r m);
  spans = λ p m. b.spans p (a.spans p m);
}

round-IsPart : (open_ids : List String) (s : Stage) → IsPart (round open_ids s) s
round-IsPart open_ids s = record {
  rows = λ k. In-of_round open_ids s k;
  spans = In-of_spans_round open_ids s;
}

abbrev pub Closes : List String → Stage → Option Stage → Type 0
Closes open_ids s o = (t : Stage) × (o ≡ some t) × IsClosed open_ids t × IsPart t s

pub prune-closes :
    (open_ids : List String) (fuel : ℕ) (s : Stage)
    → size s < fuel
    → Closes open_ids s (prune open_ids fuel s)
unfolding prune
prune-closes open_ids zero s h = absurd (omega arith)
prune-closes open_ids (suc fuel) s h = elim (Bool-cases (changed s (round open_ids s))) [
  | inl more ↦
      let (t, e, closed, part) =
        prune-closes open_ids fuel (round open_ids s)
          (omega (arith, size-round-lt open_ids s more)) in
      rw more (t, e, closed, IsPart-trans part (round-IsPart open_ids s))
  | inr done ↦
      rw done
        (s, ap some (round_still open_ids s done), still-IsClosed open_ids s done, IsPart-refl s)
]

-- For every stage and every list of cutoff tails the pruning ends with a result. In it each
-- reference of a tool, dispatch, artifact or grader leads to a record that is there, each span
-- that a record names has its parent there or among the open composite parents, each span is named
-- by a record, and every record and span stems from the stage, under the same kind.
pub close_stage-closes :
    (tails : List Tail) (s : Stage) → Closes (open_parents tails) s (close_stage tails s)
unfolding close_stage
close_stage-closes tails s = prune-closes (open_parents tails) (suc (size s)) s (omega arith)
