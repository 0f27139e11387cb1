-- ===== src/Cutoff/Tests.antt =====
-- A stage in which a tool outlives its dispatch, beside a closed branch under an open composite
-- task.
use mathlib.Core.Bool.{false≢true}
use mathlib.Core.Option
use minireplayer.Prelude.{
  String, ◌≡◌, refl, inl, inr, subst, sym, ap, ◌∙◌, ◌≢◌, In, none, some, List, [], ◌∷◌, elem, keep,
  all, string_eq, nat_eq,
}
use minireplayer.Cutoff.{
  Kind, dispatch, tool, grader, artifact, llm, Row, Span, Stage, Tail, open_parents, close_stage,
  prune, round, changed, size, ids_of, is_supported, orphans, is_orphan, span_ids, live_spans,
  named_spans, text_of,
}
use minireplayer.Cutoff.Closed.{IsClosed, Linked, Parented}
use minireplayer.Cutoff.Closing.{IsPart, Closes, close_stage-closes}
use minireplayer.Cutoff.Greatest.{IsSelection, close_stage-greatest}

abbrev blank : String → String → Row
blank i s = record {
  id = i;
  span_id = some s;
  dispatch_id = none;
  execution_call_id = none;
  read_from = none;
  llm_attempt_ids = [];
  tool_call_ids = [];
  artifact_versions = [];
}

abbrev child : Row
child = record (blank "tool-1" "span-1") { dispatch_id = none }

abbrev stray : Row
stray = record (blank "tool-2" "span-2") { dispatch_id = some "dispatch-2" }

abbrev tails : List Tail
tails =
    record { replay_entry = some "enter-and-preserve-descendants"; span_id = some "span-0" }
    ∷ record { replay_entry = some "block-before-entry"; span_id = some "span-9" }
    ∷ []

abbrev tools_only : List Row → Kind → List Row
tools_only rows tool = rows
tools_only rows dispatch = []
tools_only rows grader = []
tools_only rows artifact = []
tools_only rows llm = []

abbrev child_span : Span
child_span = record { span_id = "span-1"; parent_span_id = some "span-0" }

abbrev stage : Stage
stage = record {
  kept = tools_only (child ∷ stray ∷ []);
  spans = child_span ∷ record { span_id = "span-2"; parent_span_id = none } ∷ [];
}

abbrev closed_part : Stage
closed_part = record { kept = tools_only (child ∷ []); spans = child_span ∷ [] }

open_parents_test : open_parents tails ≡ "span-0" ∷ []
unfolding open_parents
open_parents_test = refl

close_stage_test : Option.map (λ t. t.kept tool) (close_stage tails stage) ≡ some (child ∷ [])
unfolding close_stage prune round changed size ids_of is_supported orphans is_orphan span_ids
    live_spans named_spans open_parents keep all elem
close_stage_test = refl

different : ◌≢◌ {A = String} "span-1" "span-2"
different e = false≢true ((string_eq.beq_iff "span-1" "span-2").1 e)

only_child : (k : Kind) (r : Row) → In r (closed_part.kept k) → (k ≡ tool) × (r ≡ child)
only_child tool r (inl e) = (refl, e)
only_child tool r (inr m) = absurd m
only_child dispatch r m = absurd m
only_child grader r m = absurd m
only_child artifact r m = absurd m
only_child llm r m = absurd m

child-Linked : (k : Kind) → Linked closed_part.kept k child
child-Linked grader = (λ a m. absurd m, λ a m. absurd m, λ a m. absurd m)
child-Linked tool = tt
child-Linked dispatch = tt
child-Linked artifact = tt
child-Linked llm = tt

closed_part-IsClosed : IsClosed (open_parents tails) closed_part
unfolding open_parents
closed_part-IsClosed = record {
  linked = λ k r m. rw (only_child k r m).1 (child-Linked k);
  rooted = λ k r p m there e. elim there [
    | inl at ↦
        subst (λ q. Parented ("span-0" ∷ []) (child_span ∷ []) q.parent_span_id) (sym at)
          (inr (inl refl))
    | inr none_left ↦ absurd none_left
  ];
  owned = λ p m. elim m [
    | inl at ↦ (tool, child, inl refl, inl (ap (λ q. q.span_id) at))
    | inr none_left ↦ absurd none_left
  ];
}

closed_part-IsSelection : IsSelection closed_part stage
closed_part-IsSelection = record {
  part = record {
    rows = λ k r m. rows_in k r m;
    spans = λ p m. elim m [ inl at ↦ inl at | inr none_left ↦ absurd none_left ];
  };
  saturated = λ k r p m there e.
      saturated_at p there (ap (λ q. text_of q.span_id) (sym (only_child k r m).1) ∙ e);
}
  where
    rows_in : (k : Kind) (r : Row) → In r (closed_part.kept k) → In r (stage.kept k)
    rows_in tool r (inl e) = inl e
    rows_in tool r (inr m) = absurd m
    rows_in dispatch r m = absurd m
    rows_in grader r m = absurd m
    rows_in artifact r m = absurd m
    rows_in llm r m = absurd m

    saturated_at : (p : Span) → In p stage.spans → "span-1" ≡ p.span_id → In p closed_part.spans
    saturated_at p (inl at) e = inl at
    saturated_at p (inr (inl at)) e = absurd (different (e ∙ ap (λ q. q.span_id) at))
    saturated_at p (inr (inr m)) e = absurd m

abbrev result : Closes (open_parents tails) stage (close_stage tails stage)
result = close_stage-closes tails stage

close_stage-greatest_example :
    (t : Stage) × (close_stage tails stage ≡ some t)
    × IsClosed (open_parents tails) t
    × IsPart t stage
    × IsPart closed_part t
    × (close_stage tails t ≡ some t)
close_stage-greatest_example =
    close_stage-greatest tails stage closed_part closed_part-IsClosed closed_part-IsSelection
