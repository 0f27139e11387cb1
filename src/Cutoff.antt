-- ===== src/Cutoff.antt =====
-- minireplay/cutoff.py: close a recording at the sample boundary by pruning to a fixed point.
pub mod Closed
pub mod Fixpoint
pub mod Closing
pub mod Greatest
mod Tests
use minireplayer.Prelude.{
  ℕ, zero, suc, ◌+◌, ◌-◌, String, ◌≡◌, Bool, true, false, not, ◌&&◌, ◌||◌, Option, none, some, List,
  [], ◌∷◌, ◌++◌, map, length, keep, all, any, elem, ◌==◌, string_eq, nat_beq, if◌then◌else◌,
}

-- the keys of `_LEDGERS`
pub data Kind : Type 0 where
  dispatch tool grader artifact llm : Kind

-- A ledger record: the field that `_ID` names for its kind, and the links that the pruning reads
-- with `record.get`; a kind leaves the links of the other kinds unset.
pub record Row : Type 0 where
  pub id : String
  pub span_id : Option String
  pub dispatch_id : Option String
  pub execution_call_id : Option String
  pub read_from : Option String
  pub llm_attempt_ids : List String
  pub tool_call_ids : List String
  pub artifact_versions : List String

pub record Span : Type 0 where
  pub span_id : String
  pub parent_span_id : Option String

-- what is read of an entry of `cutoff_tails["operations"]`
pub record Tail : Type 0 where
  pub replay_entry : Option String
  pub span_id : Option String

pub record Stage : Type 0 where
  pub kept : Kind → List Row
  pub spans : List Span

abbrev pub truthy : Option String → Bool
truthy none = false
truthy (some s) = not (s == "")

-- `str(value)` of a text or `None`
abbrev pub text_of : Option String → String
text_of none = "None"
text_of (some s) = s

-- `isinstance(value, str) and value`, as the list of the texts that pass
abbrev pub spelled : Option String → List String
spelled none = []
spelled (some s) = if s == "" then [] else s ∷ []

unfoldable pub open_parents : List Tail → List String
open_parents [] = []
open_parents (t ∷ ts) =
    (if text_of t.replay_entry == "enter-and-preserve-descendants" then spelled t.span_id else [])
    ++ open_parents ts

unfoldable pub ids_of : (Kind → List Row) → Kind → List String
ids_of kept kind = map (λ r. r.id) (kept kind)

-- `value is None or str(value) in ids`
abbrev pub absent_or_in : Option String → List String → Bool
absent_or_in none ids = true
absent_or_in (some s) ids = elem s ids

-- the tests of the four `surviving` filters; all read the identifiers of the round's start
unfoldable pub is_supported : (Kind → List String) → Kind → Row → Bool
is_supported ids tool r = absent_or_in r.dispatch_id (ids dispatch)
is_supported ids dispatch r = absent_or_in r.execution_call_id (ids tool)
is_supported ids artifact r = absent_or_in r.read_from (ids artifact)
is_supported ids grader r =
    all (λ v. elem v (ids llm)) r.llm_attempt_ids
    && all (λ v. elem v (ids tool)) r.tool_call_ids
    && all (λ v. elem v (ids artifact)) r.artifact_versions
is_supported ids llm r = true

unfoldable pub span_ids : List Span → List String
span_ids = map (λ s. s.span_id)

-- a span whose parent is named and is neither a span nor an open composite parent
unfoldable pub is_orphan : List String → Span → Bool
is_orphan known s = not (absent_or_in s.parent_span_id known)

unfoldable pub orphans : List String → List Span → List String
orphans open_ids spans = span_ids (keep (is_orphan (span_ids spans ++ open_ids)) spans)

unfoldable pub named_spans : List Row → List String
named_spans [] = []
named_spans (r ∷ rs) = spelled r.span_id ++ named_spans rs

unfoldable pub live_spans : (Kind → List Row) → List String
live_spans kept =
    named_spans (kept dispatch)
    ++ (named_spans (kept tool)
        ++ (named_spans (kept grader) ++ (named_spans (kept artifact) ++ named_spans (kept llm))))

-- one pass of `while True`; the orphan filter runs on what the link filters kept
unfoldable pub round : List String → Stage → Stage
round open_ids s =
    let linked = λ (k : Kind). keep (is_supported (ids_of s.kept) k) (s.kept k) in
    let rooted = λ (k : Kind).
      keep (λ r. not (elem (text_of r.span_id) (orphans open_ids s.spans))) (linked k) in
    record { kept = rooted; spans = keep (λ p. elem p.span_id (live_spans rooted)) s.spans }

unfoldable pub size : Stage → ℕ
size s =
    length (s.kept dispatch)
    + length (s.kept tool)
    + length (s.kept grader)
    + length (s.kept artifact)
    + length (s.kept llm)
    + length s.spans

-- `changed`: some filter of the round dropped something
unfoldable pub changed : Stage → Stage → Bool
changed s t =
    not (nat_beq (length (t.kept tool)) (length (s.kept tool)))
    || not (nat_beq (length (t.kept dispatch)) (length (s.kept dispatch)))
    || not (nat_beq (length (t.kept artifact)) (length (s.kept artifact)))
    || not (nat_beq (length (t.kept grader)) (length (s.kept grader)))
    || not (nat_beq (length (t.kept llm)) (length (s.kept llm)))
    || not (nat_beq (length t.spans) (length s.spans))

-- the loop on fuel; `none` means that the fuel ran out
unfoldable pub prune : List String → ℕ → Stage → Option Stage
prune open_ids zero s = none
prune open_ids (suc fuel) s =
    let next = round open_ids s in
    let rest = prune open_ids fuel next in if changed s next then rest else some next

-- what `close_stage_at_cutoff` writes back, with fuel for one round more than there are records
unfoldable pub close_stage : List Tail → Stage → Option Stage
close_stage tails s = prune (open_parents tails) (suc (size s)) s

-- the numbers of the report: before, after and discarded, for a kind and for the spans
pub record Count : Type 0 where
  pub before : ℕ
  pub after : ℕ
  pub discarded : ℕ

unfoldable pub count_of : {A : Type 0} → List A → List A → Count
count_of old new = record {
  before = length old;
  after = length new;
  discarded = length old - length new;
}

pub record Report : Type 0 where
  pub ledgers : Kind → Count
  pub span : Count

unfoldable pub report_of : Stage → Stage → Report
report_of s t = record {
  ledgers = λ k. count_of (s.kept k) (t.kept k);
  span = count_of s.spans t.spans;
}
