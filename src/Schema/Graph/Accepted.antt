-- ===== src/Schema/Graph/Accepted.antt =====
-- minireplayer/schema.py: what `validate_causal_graph` accepts.
use minireplayer.Prelude.{
  String, ◌≡◌, refl, sym, ap, ◌∙◌, ◌↔◌, inl, inr, Bool, true, false, not, Option, none, some, List,
  [], ◌∷◌, ◌++◌, map, Result, ok, raise, ◌>>◌, require-ok, elem, In, In-of_elem, elem_of_In,
  Bool-cases, some_inj, subst, string_eq,
}
use mathlib.Core.Bool.{false≢true}
use minireplayer.Cutoff.{Row, Span, absent_or_in, span_ids}
use minireplayer.Cutoff.Closed.{
  Resolves, Parented, Resolves-of_test, test_of_Resolves, Parented_of_test, test_of_Parented,
}
use minireplayer.Schema.Graph.{require_all, own_executions, executions, validate_causal_graph}

true≢false : true ≡ false → ⊥
true≢false h = false≢true (sym h)

none≢some : {a : String} → none ≡ some a → ⊥
none≢some h = cc

then-ok : (m n : Result (Unit {0})) → (m >> n) ≡ ok tt → (m ≡ ok tt) × (n ≡ ok tt)
then-ok (ok tt) n h = (refl, h)
then-ok (raise e) n h = cc

module _ {A : Type 0} (p : A → Bool) where
  require_all-ok : (xs : List A) → require_all p xs ≡ ok tt → (a : A) → In a xs → p a ≡ true
  unfolding require_all
  require_all-ok [] h a m = absurd m
  require_all-ok (x ∷ xs) h a (inl e) = ap p e ∙ (require-ok (p x) (require_all p xs) tt h).0
  require_all-ok (x ∷ xs) h a (inr m) =
      require_all-ok xs (require-ok (p x) (require_all p xs) tt h).1 a m

  ok-require_all : (xs : List A) → ((a : A) → In a xs → p a ≡ true) → require_all p xs ≡ ok tt
  unfolding require_all
  ok-require_all [] h = refl
  ok-require_all (x ∷ xs) h = rw (h x (inl refl)) (ok-require_all xs (λ a m. h a (inr m)))

-- No execution is named twice.
abbrev pub Distinct : List (Option String) → Type 0
Distinct [] = Unit
Distinct (none ∷ xs) = Distinct xs
Distinct (some a ∷ xs) = (In (some a) xs → ⊥) × Distinct xs

abbrev Apart : List String → List (Option String) → Type 0
Apart owned xs = (a : String) → In a owned → In (some a) xs → ⊥

not-elem : (a : String) (xs : List String) → not (elem a xs) ≡ true → In a xs → ⊥
not-elem a xs h m = elim (Bool-cases (elem a xs)) [
  | inl y ↦ absurd (true≢false (sym h ∙ ap not y))
  | inr n ↦ absurd (true≢false (sym (elem_of_In a xs m) ∙ n))
]

elem-not : (a : String) (xs : List String) → (In a xs → ⊥) → not (elem a xs) ≡ true
elem-not a xs h = elim (Bool-cases (elem a xs)) [
  | inl y ↦ absurd (h (In-of_elem a xs y))
  | inr n ↦ ap not n
]

own_executions-Distinct :
    (owned : List String) (xs : List (Option String))
    → own_executions owned xs ≡ ok tt
    → Distinct xs × Apart owned xs
unfolding own_executions
own_executions-Distinct owned [] h = (tt, λ a m n. n)
own_executions-Distinct owned (none ∷ xs) h =
    let (d, k) = own_executions-Distinct owned xs h in
    (d, λ a m n. elim n [ inl e ↦ absurd (none≢some (sym e)) | inr n' ↦ k a m n' ])
own_executions-Distinct owned (some x ∷ xs) h =
    let (t, rest) = require-ok (not (elem x owned)) (own_executions (x ∷ owned) xs) tt h in
    let (d, k) = own_executions-Distinct (x ∷ owned) xs rest in
    (
      (k x (inl refl), d),
      λ a m n. elim n [
        | inl e ↦ absurd (not-elem x owned t (subst (λ b. In b owned) (some_inj e) m))
        | inr n' ↦ k a (inr m) n'
      ],
    )

Distinct-own_executions :
    (owned : List String) (xs : List (Option String))
    → Distinct xs
    → Apart owned xs
    → own_executions owned xs ≡ ok tt
unfolding own_executions
Distinct-own_executions owned [] d k = refl
Distinct-own_executions owned (none ∷ xs) d k =
    Distinct-own_executions owned xs d (λ a m n. k a m (inr n))
Distinct-own_executions owned (some x ∷ xs) (fresh, d) k =
    rw (elem-not x owned (λ m. k x m (inl refl))) (
      Distinct-own_executions (x ∷ owned) xs d (λ a m n. elim m [
        | inl e ↦ fresh (subst (λ b. In (some b) xs) e n)
        | inr m' ↦ k a m' (inr n)
      ]))

-- What the check asks for, said without its tests.
pub record IsCausal (spans : List Span) (dispatches tools : List Row) (open_ids : List String)
    : Type 0 where
  pub parented : (p : Span) → In p spans → Parented open_ids spans p.parent_span_id
  pub executed : (r : Row) → In r dispatches → Resolves tools r.execution_call_id
  pub dispatched : (r : Row) → In r tools → Resolves dispatches r.dispatch_id
  pub owned_once : Distinct (executions dispatches)

-- The check of the causal graph accepts exactly the bundles in which the parent of every span is
-- none, a span or an open composite parent, the execution of every dispatch is none or a tool, the
-- dispatch of every tool is none or there, and no two dispatches name one execution.
pub validate_causal_graph_iff :
    (spans : List Span) (dispatches tools : List Row) (open_ids : List String)
    → (validate_causal_graph spans dispatches tools open_ids ≡ ok tt)
      ↔ IsCausal spans dispatches tools open_ids
unfolding validate_causal_graph
validate_causal_graph_iff spans dispatches tools open_ids = (
  λ h.
      let known = λ (s : Span). absent_or_in s.parent_span_id (span_ids spans ++ open_ids) in
      let run = λ (r : Row). absent_or_in r.execution_call_id (map (λ t. t.id) tools) in
      let asked = λ (r : Row). absent_or_in r.dispatch_id (map (λ d. d.id) dispatches) in
      let (h₁, g₁) = then-ok (require_all known spans) _ h in
      let (h₂, g₂) = then-ok (require_all run dispatches) _ g₁ in
      let (h₃, h₄) = then-ok (require_all asked tools) _ g₂ in
      record {
        parented = λ p m.
            Parented_of_test open_ids spans p.parent_span_id (require_all-ok known spans h₁ p m);
        executed = λ r m.
            Resolves-of_test tools r.execution_call_id (require_all-ok run dispatches h₂ r m);
        dispatched =
            λ r m. Resolves-of_test dispatches r.dispatch_id (require_all-ok asked tools h₃ r m);
        owned_once = (own_executions-Distinct [] (executions dispatches) h₄).0;
      },
  λ c.
      rw
        (
          ok-require_all (λ s. absent_or_in s.parent_span_id (span_ids spans ++ open_ids)) spans
              (λ p m. test_of_Parented open_ids spans p.parent_span_id (c.parented p m)),
          ok-require_all (λ r. absent_or_in r.execution_call_id (map (λ t. t.id) tools)) dispatches
              (λ r m. test_of_Resolves tools r.execution_call_id (c.executed r m)),
          ok-require_all (λ r. absent_or_in r.dispatch_id (map (λ d. d.id) dispatches)) tools
              (λ r m. test_of_Resolves dispatches r.dispatch_id (c.dispatched r m)),
        )
        (Distinct-own_executions [] (executions dispatches) c.owned_once (λ a m n. m)),
)
