-- ===== src/Cutoff/Greatest.antt =====
-- The pruning drops no more than it must: what is closed already survives it.
use minireplayer.Prelude.{
  ℕ, zero, suc, String, ◌≡◌, ap, ◌∙◌, inl, inr, true, false, not, Option, none, some, List, arith,
  length, keep, elem, In, Subset, In-keep, keep-eq_self, subst, some_inj, elem_of_In, Bool-cases,
  string_eq,
}
use minireplayer.Cutoff.{
  Kind, dispatch, tool, grader, artifact, llm, Row, Span, Stage, Tail, text_of, open_parents,
  ids_of, is_supported, live_spans, round, size, changed, prune, close_stage,
}
use minireplayer.Cutoff.Closed.{
  Has, Resolves, Linked, Parented, IsClosed, test_of_Linked, not_orphan_of_Parented, live_of_owner,
}
use minireplayer.Cutoff.Fixpoint.{rooted, In-of_spans_round, round_still}
use minireplayer.Cutoff.Closing.{IsPart, IsPart-refl, close_stage-closes}

-- A part of the stage that holds, with a record, the stage's spans of that record's identifier.
pub record IsSelection (u s : Stage) : Type 0 where
  pub part : IsPart u s
  pub saturated :
      (k : Kind) (r : Row) (p : Span)
      → In r (u.kept k)
      → In p s.spans
      → text_of r.span_id ≡ p.span_id
      → In p u.spans

module _ (xs ys : List Row) (sub : Subset xs ys) where
  Has-mono : {a : String} → Has xs a → Has ys a
  Has-mono (r, m, e) = (r, sub r m, e)

  Resolves-mono : (o : Option String) → Resolves xs o → Resolves ys o
  Resolves-mono none r = tt
  Resolves-mono (some a) r = Has-mono r

Linked-mono :
    (kept more : Kind → List Row) (k : Kind) (r : Row)
    → ((j : Kind) → Subset (kept j) (more j))
    → Linked kept k r
    → Linked more k r
Linked-mono kept more tool r h l =
    Resolves-mono (kept dispatch) (more dispatch) (h dispatch) r.dispatch_id l
Linked-mono kept more dispatch r h l =
    Resolves-mono (kept tool) (more tool) (h tool) r.execution_call_id l
Linked-mono kept more artifact r h l =
    Resolves-mono (kept artifact) (more artifact) (h artifact) r.read_from l
Linked-mono kept more grader r h (a, b, c) = (
  λ x m. Has-mono (kept llm) (more llm) (h llm) (a x m),
  λ x m. Has-mono (kept tool) (more tool) (h tool) (b x m),
  λ x m. Has-mono (kept artifact) (more artifact) (h artifact) (c x m),
)
Linked-mono kept more llm r h l = tt

Parented-mono :
    (open_ids : List String) (ps qs : List Span) (o : Option String)
    → Subset ps qs
    → Parented open_ids ps o
    → Parented open_ids qs o
Parented-mono open_ids ps qs none h x = tt
Parented-mono open_ids ps qs (some a) h (inl (p, m, e)) = inl (p, h p m, e)
Parented-mono open_ids ps qs (some a) h (inr m) = inr m

module _ (open_ids : List String) (u s : Stage) (closed : IsClosed open_ids u) where
  rooted-In : IsSelection u s → (k : Kind) (r : Row) → In r (u.kept k) → rooted open_ids s r ≡ true
  rooted-In sel k r m = ap not (
      not_orphan_of_Parented open_ids s.spans (text_of r.span_id) λ p there e.
        Parented-mono open_ids u.spans s.spans p.parent_span_id sel.part.spans
          (closed.rooted k r p m (sel.saturated k r p m there e) e))

  rows-round : IsSelection u s → (k : Kind) → Subset (u.kept k) ((round open_ids s).kept k)
  unfolding round
  rows-round sel k r m =
      In-keep (rooted open_ids s) r _
        (In-keep (is_supported (ids_of s.kept) k) r (s.kept k) (sel.part.rows k r m) (
          test_of_Linked s.kept k r
            (Linked-mono u.kept s.kept k r sel.part.rows (closed.linked k r m))))
        (rooted-In sel k r m)

  spans-round : IsSelection u s → Subset u.spans (round open_ids s).spans
  unfolding round
  spans-round sel p m =
      let (k, r, there, e) = closed.owned p m in
      In-keep (λ q. elem q.span_id (live_spans (round open_ids s).kept)) p s.spans
        (sel.part.spans p m)
        (elem_of_In p.span_id _
          (live_of_owner p.span_id (round open_ids s).kept k r (rows-round sel k r there) e))

  IsSelection-round : IsSelection u s → IsSelection u (round open_ids s)
  IsSelection-round sel = record {
    part = record { rows = rows-round sel; spans = spans-round sel };
    saturated = λ k r p m there e. sel.saturated k r p m (In-of_spans_round open_ids s p there) e;
  }

prune_keeps :
    (open_ids : List String) (u : Stage) (fuel : ℕ) (s t : Stage)
    → IsClosed open_ids u
    → IsSelection u s
    → prune open_ids fuel s ≡ some t
    → IsPart u t
unfolding prune
prune_keeps open_ids u zero s t closed sel h = absurd (cc h)
prune_keeps open_ids u (suc fuel) s t closed sel h =
    let next = IsSelection-round open_ids u s closed sel in
    elim (Bool-cases (changed s (round open_ids s))) [
      | inl more ↦ prune_keeps open_ids u fuel (round open_ids s) t closed next (rw more at h)
      | inr done ↦
          let e : round open_ids s ≡ t = some_inj (rw done at h) in
          subst (λ x. IsPart u x) e next.part
    ]

pub close_stage_greatest :
    (tails : List Tail) (s u t : Stage)
    → IsClosed (open_parents tails) u
    → IsSelection u s
    → close_stage tails s ≡ some t
    → IsPart u t
unfolding close_stage
close_stage_greatest tails s u t = prune_keeps (open_parents tails) u (suc (size s)) s t

module _ (open_ids : List String) (s : Stage) (closed : IsClosed open_ids s) where
  whole-IsSelection : IsSelection s s
  whole-IsSelection = record { part = IsPart-refl s; saturated = λ k r p m there e. there }

  round_kept : (k : Kind) → (round open_ids s).kept k ≡ s.kept k
  unfolding round
  round_kept k =
      ap (keep (rooted open_ids s)) (
        keep-eq_self (is_supported (ids_of s.kept) k) (s.kept k)
          (λ r m. test_of_Linked s.kept k r (closed.linked k r m)))
      ∙ keep-eq_self (rooted open_ids s) (s.kept k)
          (rooted-In open_ids s s closed whole-IsSelection k)

  round_spans : (round open_ids s).spans ≡ s.spans
  unfolding round
  round_spans = keep-eq_self _ s.spans λ p m.
      let (k, r, there, e) = closed.owned p m in
      elem_of_In p.span_id _
        (live_of_owner p.span_id (round open_ids s).kept k r (rw (round_kept k) there) e)

  unchanged : changed s (round open_ids s) ≡ false
  unfolding changed
  unchanged = ground (
    arith,
    ap length (round_kept dispatch),
    ap length (round_kept tool),
    ap length (round_kept grader),
    ap length (round_kept artifact),
    ap length (round_kept llm),
    ap length round_spans,
  )

-- A closed stage is written back as it is, each ledger in its order.
pub close_stage_closed :
    (tails : List Tail) (s : Stage) → IsClosed (open_parents tails) s → close_stage tails s ≡ some s
unfolding close_stage prune
close_stage_closed tails s closed =
    let open_ids = open_parents tails in
    rw (unchanged open_ids s closed)
      (ap some (round_still open_ids s (unchanged open_ids s closed)))

-- For every stage and every list of cutoff tails the pruning ends with a result. In it each
-- reference of a tool, dispatch, artifact or grader leads to a record that is there, each span
-- that a record names has its parent there or among the open composite parents, each span is named
-- by a record, and every record and span stems from the stage, under the same kind. Nothing more is
-- lost than had to be: a part of the stage that is closed in this way, and holds the stage's spans
-- of its records, is in the result; and the result is pruned to itself.
pub close_stage-greatest :
    (tails : List Tail) (s u : Stage)
    → IsClosed (open_parents tails) u
    → IsSelection u s
    → (t : Stage) × (close_stage tails s ≡ some t)
      × IsClosed (open_parents tails) t
      × IsPart t s
      × IsPart u t
      × (close_stage tails t ≡ some t)
close_stage-greatest tails s u closed sel =
    let (t, e, ended, part) = close_stage-closes tails s in
    (
      t,
      e,
      ended,
      part,
      close_stage_greatest tails s u t closed sel e,
      close_stage_closed tails t ended,
    )
