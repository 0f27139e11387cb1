-- ===== src/Cutoff/Fixpoint.antt =====
-- The loop of `close_stage_at_cutoff` ends, at a stage that a further round leaves alone.
use mathlib.Core.Path.{fun_ext}
use minireplayer.Prelude.{
  ◌≤◌, ◌<◌, String, ◌≡◌, sym, ap, ◌∙◌, Bool, true, false, not, List, arith, length, keep, elem, In,
  length-keep-le, keep-eq_of_length, keep_all, In-of_keep, string_eq,
}
use minireplayer.Cutoff.{
  Kind, dispatch, tool, grader, artifact, llm, Row, Span, Stage, text_of, ids_of, is_supported,
  orphans, live_spans, round, size, changed,
}
use minireplayer.Cutoff.Closed.{IsClosed, Linked-of_test, Parented_of_not_orphan, Owner-of_live}

module _ {A : Type 0} (p q : A → Bool) (xs : List A) where
  keep-keep-le : length (keep q (keep p xs)) ≤ length xs
  keep-keep-le = omega (arith, length-keep-le q (keep p xs), length-keep-le p xs)

  module _ (same : length (keep q (keep p xs)) ≡ length xs) where
    inner_same : keep p xs ≡ xs
    inner_same =
        keep-eq_of_length p xs (omega (arith, length-keep-le q (keep p xs), length-keep-le p xs))

    keep-keep-eq : keep q (keep p xs) ≡ xs
    keep-keep-eq =
        keep-eq_of_length q (keep p xs) (omega (arith, ap length inner_same)) ∙ inner_same

    keep-keep_both : (a : A) → In a xs → (p a ≡ true) × (q a ≡ true)
    keep-keep_both a m =
        let outer : length (keep q xs) ≡ length xs =
          ap (λ ys. length (keep q ys)) (sym inner_same) ∙ same in
        (keep_all p xs (ap length inner_same) a m, keep_all q xs outer a m)

abbrev pub rooted : List String → Stage → Row → Bool
rooted open_ids s r = not (elem (text_of r.span_id) (orphans open_ids s.spans))

module _ (open_ids : List String) (s : Stage) where
  length-round-le : (k : Kind) → length ((round open_ids s).kept k) ≤ length (s.kept k)
  unfolding round
  length-round-le k = keep-keep-le (is_supported (ids_of s.kept) k) (rooted open_ids s) (s.kept k)

  length-spans-round-le : length (round open_ids s).spans ≤ length s.spans
  unfolding round
  length-spans-round-le = length-keep-le _ s.spans

  -- A round that drops something makes the stage smaller.
  pub size-round-lt : changed s (round open_ids s) ≡ true → size (round open_ids s) < size s
  unfolding changed size
  size-round-lt h = ground (
    arith,
    length-round-le dispatch,
    length-round-le tool,
    length-round-le grader,
    length-round-le artifact,
    length-round-le llm,
    length-spans-round-le,
  )

  pub In-of_round : (k : Kind) (r : Row) → In r ((round open_ids s).kept k) → In r (s.kept k)
  unfolding round
  In-of_round k r m =
      (In-of_keep (is_supported (ids_of s.kept) k) r (s.kept k)
        (In-of_keep (rooted open_ids s) r _ m).0).0

  pub In-of_spans_round : (p : Span) → In p (round open_ids s).spans → In p s.spans
  unfolding round
  In-of_spans_round p m = (In-of_keep _ p s.spans m).0

unchanged_lengths :
    (s t : Stage) → changed s t ≡ false → (k : Kind) → length (t.kept k) ≡ length (s.kept k)
unfolding changed
unchanged_lengths s t h dispatch = ground arith
unchanged_lengths s t h k = ground arith

unchanged_spans : (s t : Stage) → changed s t ≡ false → length t.spans ≡ length s.spans
unfolding changed
unchanged_spans s t h = ground arith

module _ (open_ids : List String) (s : Stage) (still : changed s (round open_ids s) ≡ false) where
  same_lengths : (k : Kind) → length ((round open_ids s).kept k) ≡ length (s.kept k)
  same_lengths = unchanged_lengths s (round open_ids s) still

  round_kept : (k : Kind) → (round open_ids s).kept k ≡ s.kept k
  unfolding round
  round_kept k =
      keep-keep-eq (is_supported (ids_of s.kept) k) (rooted open_ids s) (s.kept k) (same_lengths k)

  round_spans : (round open_ids s).spans ≡ s.spans
  unfolding round
  round_spans = keep-eq_of_length _ s.spans (unchanged_spans s (round open_ids s) still)

  pub round_still : round open_ids s ≡ s
  round_still = λ i. record { kept = fun_ext round_kept i; spans = round_spans i }

  passes :
      (k : Kind) (r : Row)
      → In r (s.kept k)
      → (is_supported (ids_of s.kept) k r ≡ true) × (rooted open_ids s r ≡ true)
  unfolding round
  passes k =
      keep-keep_both (is_supported (ids_of s.kept) k) (rooted open_ids s) (s.kept k)
        (same_lengths k)

  span_live : (p : Span) → In p s.spans → elem p.span_id (live_spans s.kept) ≡ true
  unfolding round
  span_live p m =
      ap (λ kept. elem p.span_id (live_spans kept)) (sym (fun_ext round_kept))
      ∙ keep_all _ s.spans (unchanged_spans s (round open_ids s) still) p m

  pub still-IsClosed : IsClosed open_ids s
  still-IsClosed = record {
    linked = λ k r m. Linked-of_test s.kept k r (passes k r m).0;
    rooted = λ k r p m there e.
        Parented_of_not_orphan open_ids s.spans (text_of r.span_id) p
          (ground (arith, (passes k r m).1)) there e;
    owned = λ p m. Owner-of_live p.span_id s.kept (span_live p m);
  }
