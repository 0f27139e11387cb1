-- ===== src/Cutoff/Closed.antt =====
-- What it means that a stage is closed, said without the tests of the pruning, and the passage
-- between the two.
use minireplayer.Prelude.{
  String, ◌≡◌, refl, sym, ap, ◌∙◌, ◌⊎◌, inl, inr, Bool, true, false, not, ◌&&◌, Option, none, some,
  List, [], ◌∷◌, ◌++◌, map, arith, all, elem, In, In-keep, In-of_keep, In-map, In-of_map,
  In-of_append, In-append_left, In-append_right, In-of_elem, elem_of_In, In-of_all, all_of_In,
  Bool-cases, and_iff, string_eq,
}
use mathlib.Core.Bool.{false≢true}
use minireplayer.Cutoff.{
  Kind, dispatch, tool, grader, artifact, llm, Row, Span, Stage, ids_of, absent_or_in, is_supported,
  span_ids, is_orphan, orphans, named_spans, live_spans, spelled, text_of,
}

-- some record of the ledger has the identifier
abbrev pub Has : List Row → String → Type 0
Has rows a = (r : Row) × In r rows × (a ≡ r.id)

abbrev pub Resolves : List Row → Option String → Type 0
Resolves rows none = Unit
Resolves rows (some a) = Has rows a

-- the references of a record lead to records that are there
abbrev pub Linked : (Kind → List Row) → Kind → Row → Type 0
Linked kept tool r = Resolves (kept dispatch) r.dispatch_id
Linked kept dispatch r = Resolves (kept tool) r.execution_call_id
Linked kept artifact r = Resolves (kept artifact) r.read_from
Linked kept grader r =
    ((a : String) → In a r.llm_attempt_ids → Has (kept llm) a)
    × ((a : String) → In a r.tool_call_ids → Has (kept tool) a)
    × ((a : String) → In a r.artifact_versions → Has (kept artifact) a)
Linked kept llm r = Unit

-- the parent of a span is none, a span that is there, or an open composite parent
abbrev pub Parented : List String → List Span → Option String → Type 0
Parented open_ids spans none = Unit
Parented open_ids spans (some a) = ((p : Span) × In p spans × (a ≡ p.span_id)) ⊎ In a open_ids

pub record IsClosed (open_ids : List String) (t : Stage) : Type 0 where
  pub linked : (k : Kind) (r : Row) → In r (t.kept k) → Linked t.kept k r
  pub rooted :
      (k : Kind) (r : Row) (p : Span)
      → In r (t.kept k)
      → In p t.spans
      → text_of r.span_id ≡ p.span_id
      → Parented open_ids t.spans p.parent_span_id
  pub owned :
      (p : Span)
      → In p t.spans
      → (k : Kind) × (r : Row) × In r (t.kept k) × In p.span_id (spelled r.span_id)

clash : {b : Bool} → not b ≡ true → b ≡ true → ⊥
clash {b} h e = false≢true (ap not (sym e) ∙ h)

Has-of_elem : (rows : List Row) (a : String) → elem a (map (λ r. r.id) rows) ≡ true → Has rows a
Has-of_elem rows a h = In-of_map (λ r. r.id) a rows (In-of_elem a _ h)

elem_of_Has : (rows : List Row) (a : String) → Has rows a → elem a (map (λ r. r.id) rows) ≡ true
elem_of_Has rows a (r, m, e) = rw e (elem_of_In r.id _ (In-map (λ q. q.id) r rows m))

pub Resolves-of_test :
    (rows : List Row) (o : Option String)
    → absent_or_in o (map (λ r. r.id) rows) ≡ true
    → Resolves rows o
Resolves-of_test rows none h = tt
Resolves-of_test rows (some a) h = Has-of_elem rows a h

pub test_of_Resolves :
    (rows : List Row) (o : Option String)
    → Resolves rows o
    → absent_or_in o (map (λ r. r.id) rows) ≡ true
test_of_Resolves rows none h = refl
test_of_Resolves rows (some a) h = elem_of_Has rows a h

AllHas_of_test :
    (rows : List Row) (names : List String)
    → all (λ v. elem v (map (λ r. r.id) rows)) names ≡ true
    → (a : String) → In a names
    → Has rows a
AllHas_of_test rows names h a m =
    Has-of_elem rows a (In-of_all (λ v. elem v (map (λ r. r.id) rows)) names h a m)

test_of_AllHas :
    (rows : List Row) (names : List String)
    → ((a : String) → In a names → Has rows a)
    → all (λ v. elem v (map (λ r. r.id) rows)) names ≡ true
test_of_AllHas rows names h =
    all_of_In (λ v. elem v (map (λ r. r.id) rows)) names (λ a m. elem_of_Has rows a (h a m))

pub Linked-of_test :
    (kept : Kind → List Row) (k : Kind) (r : Row)
    → is_supported (ids_of kept) k r ≡ true
    → Linked kept k r
unfolding is_supported ids_of
Linked-of_test kept tool r h = Resolves-of_test (kept dispatch) r.dispatch_id h
Linked-of_test kept dispatch r h = Resolves-of_test (kept tool) r.execution_call_id h
Linked-of_test kept artifact r h = Resolves-of_test (kept artifact) r.read_from h
Linked-of_test kept grader r h =
    let in_ids =
      λ (k : Kind) (names : List String). all (λ v. elem v (map (λ q. q.id) (kept k))) names in
    let tests =
      and_iff (in_ids llm r.llm_attempt_ids && in_ids tool r.tool_call_ids)
        (in_ids artifact r.artifact_versions) in
    let first = and_iff (in_ids llm r.llm_attempt_ids) (in_ids tool r.tool_call_ids) in
    (
      AllHas_of_test (kept llm) r.llm_attempt_ids (first.0 (tests.0 h).0).0,
      AllHas_of_test (kept tool) r.tool_call_ids (first.0 (tests.0 h).0).1,
      AllHas_of_test (kept artifact) r.artifact_versions (tests.0 h).1,
    )
Linked-of_test kept llm r h = tt

pub test_of_Linked :
    (kept : Kind → List Row) (k : Kind) (r : Row)
    → Linked kept k r
    → is_supported (ids_of kept) k r ≡ true
unfolding is_supported ids_of
test_of_Linked kept tool r h = test_of_Resolves (kept dispatch) r.dispatch_id h
test_of_Linked kept dispatch r h = test_of_Resolves (kept tool) r.execution_call_id h
test_of_Linked kept artifact r h = test_of_Resolves (kept artifact) r.read_from h
test_of_Linked kept grader r (a, b, c) = ground (
  arith,
  test_of_AllHas (kept llm) r.llm_attempt_ids a,
  test_of_AllHas (kept tool) r.tool_call_ids b,
  test_of_AllHas (kept artifact) r.artifact_versions c,
)
test_of_Linked kept llm r h = refl

pub Parented_of_test :
    (open_ids : List String) (spans : List Span) (o : Option String)
    → absent_or_in o (span_ids spans ++ open_ids) ≡ true
    → Parented open_ids spans o
unfolding span_ids
Parented_of_test open_ids spans none h = tt
Parented_of_test open_ids spans (some a) h =
    elim (In-of_append a (span_ids spans) open_ids (In-of_elem a _ h)) [
      | inl m ↦ inl (In-of_map (λ p. p.span_id) a spans m)
      | inr m ↦ inr m
    ]

pub test_of_Parented :
    (open_ids : List String) (spans : List Span) (o : Option String)
    → Parented open_ids spans o
    → absent_or_in o (span_ids spans ++ open_ids) ≡ true
unfolding span_ids
test_of_Parented open_ids spans none h = refl
test_of_Parented open_ids spans (some a) (inl (p, m, e)) =
    elem_of_In a _
      (In-append_left a (span_ids spans) open_ids (rw e (In-map (λ q. q.span_id) p spans m)))
test_of_Parented open_ids spans (some a) (inr m) =
    elem_of_In a _ (In-append_right a (span_ids spans) open_ids m)

-- a text that is no orphan: every span of that identifier has its parent
pub Parented_of_not_orphan :
    (open_ids : List String) (spans : List Span) (a : String) (p : Span)
    → elem a (orphans open_ids spans) ≡ false
    → In p spans
    → a ≡ p.span_id
    → Parented open_ids spans p.parent_span_id
unfolding orphans is_orphan span_ids
Parented_of_not_orphan open_ids spans a p h m e =
    elim (Bool-cases (absent_or_in p.parent_span_id (span_ids spans ++ open_ids))) [
      | inl good ↦ Parented_of_test open_ids spans p.parent_span_id good
      | inr bad ↦
          let kept = In-keep (is_orphan (span_ids spans ++ open_ids)) p spans m (rw bad) in
          let found : elem a (orphans open_ids spans) ≡ true =
            elem_of_In a _ (rw e (In-map (λ q. q.span_id) p _ kept)) in
          absurd (false≢true (sym h ∙ found))
    ]

pub not_orphan_of_Parented :
    (open_ids : List String) (spans : List Span) (a : String)
    → ((p : Span) → In p spans → a ≡ p.span_id → Parented open_ids spans p.parent_span_id)
    → elem a (orphans open_ids spans) ≡ false
unfolding orphans is_orphan span_ids
not_orphan_of_Parented open_ids spans a h = elim (Bool-cases (elem a (orphans open_ids spans))) [
  | inr n ↦ n
  | inl y ↦
      let (p, m, e) = In-of_map (λ q. q.span_id) a _ (In-of_elem a _ y) in
      let (there, bad) = In-of_keep (is_orphan (span_ids spans ++ open_ids)) p spans m in
      let good = test_of_Parented open_ids spans p.parent_span_id (h p there e) in
      absurd (clash bad good)
]

In-of_named :
    (a : String) (rows : List Row)
    → In a (named_spans rows)
    → (r : Row) × In r rows × In a (spelled r.span_id)
unfolding named_spans
In-of_named a [] m = absurd m
In-of_named a (r ∷ rs) m = elim (In-of_append a (spelled r.span_id) (named_spans rs) m) [
  | inl here ↦ (r, inl refl, here)
  | inr more ↦ let (q, there, e) = In-of_named a rs more in (q, inr there, e)
]

In-named :
    (a : String) (rows : List Row) (r : Row)
    → In r rows
    → In a (spelled r.span_id)
    → In a (named_spans rows)
unfolding named_spans
In-named a [] r m h = absurd m
In-named a (q ∷ rs) r (inl e) h = In-append_left a (spelled q.span_id) (named_spans rs) (rw (← e) h)
In-named a (q ∷ rs) r (inr m) h =
    In-append_right a (spelled q.span_id) (named_spans rs) (In-named a rs r m h)

abbrev Owner : (Kind → List Row) → String → Type 0
Owner kept a = (k : Kind) × (r : Row) × In r (kept k) × In a (spelled r.span_id)

Owner-In :
    (k : Kind) (a : String) (kept : Kind → List Row) → In a (named_spans (kept k)) → Owner kept a
Owner-In k a kept m = let (r, there, e) = In-of_named a (kept k) m in (k, r, there, e)

pub Owner-of_live :
    (a : String) (kept : Kind → List Row) → elem a (live_spans kept) ≡ true → Owner kept a
unfolding live_spans
Owner-of_live a kept h = elim (In-of_append a (named_spans (kept dispatch)) _ (In-of_elem a _ h)) [
  | inl m ↦ Owner-In dispatch a kept m
  | inr m ↦ elim (In-of_append a (named_spans (kept tool)) _ m) [
    | inl m ↦ Owner-In tool a kept m
    | inr m ↦ elim (In-of_append a (named_spans (kept grader)) _ m) [
      | inl m ↦ Owner-In grader a kept m
      | inr m ↦ elim (In-of_append a (named_spans (kept artifact)) _ m) [
        | inl m ↦ Owner-In artifact a kept m
        | inr m ↦ Owner-In llm a kept m
      ]
    ]
  ]
]

pub live_of_owner :
    (a : String) (kept : Kind → List Row) (k : Kind) (r : Row)
    → In r (kept k)
    → In a (spelled r.span_id)
    → In a (live_spans kept)
unfolding live_spans
live_of_owner a kept dispatch r m h = In-append_left a _ _ (In-named a (kept dispatch) r m h)
live_of_owner a kept tool r m h =
    In-append_right a (named_spans (kept dispatch)) _
      (In-append_left a _ _ (In-named a (kept tool) r m h))
live_of_owner a kept grader r m h = In-append_right a (named_spans (kept dispatch)) _ (
    In-append_right a (named_spans (kept tool)) _
      (In-append_left a _ _ (In-named a (kept grader) r m h)))
live_of_owner a kept artifact r m h = In-append_right a (named_spans (kept dispatch)) _ (
    In-append_right a (named_spans (kept tool)) _ (
      In-append_right a (named_spans (kept grader)) _
        (In-append_left a _ _ (In-named a (kept artifact) r m h))))
live_of_owner a kept llm r m h = In-append_right a (named_spans (kept dispatch)) _ (
    In-append_right a (named_spans (kept tool)) _ (
      In-append_right a (named_spans (kept grader)) _
        (In-append_right a (named_spans (kept artifact)) _ (In-named a (kept llm) r m h))))
