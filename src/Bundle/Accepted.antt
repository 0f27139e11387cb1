-- ===== src/Bundle/Accepted.antt =====
-- minireplayer/bundle.py: the markers of the calls that no operation entered, under the check of the
-- cutoff tails.
use Prim.Native.String.{count, ◌++◌ as text_append}
use text.Mathlib.TextLemmas.{length-append}
use minireplayer.Prelude.{
  String, ◌≡◌, ◌≢◌, ◌+◌, refl, sym, ap, ◌∙◌, inl, inr, Option, none, some, Bool, true, false, List,
  [], ◌∷◌, ◌++◌, ok, bind-ok, ok_injective, elem, All, Bool-cases, Option-cases, subst, ◌==◌,
  string_eq, pair_eq, arith, zero,
}
use minireplayer.Json.{Value, Fields, obj, get, get_or, has, text?, is_true}
use minireplayer.Boundary.{Python, spell, item}
use minireplayer.Schema.{require_among, among, is_name_or_none}
use minireplayer.Bundle.{Library, calls_of}
use minireplayer.Bundle.Calls.{ToolCall, response_tool_calls}
use minireplayer.Bundle.PreDispatch.{
  Rendering, Marked, markers, dispatch_marker, tool_marker, common, replay_entry, add_markers,
  parent_of, render_call, render_calls, render_attempts, materialize_pre_dispatch_tails,
}
use minireplayer.Bundle.Checks.{validate_tail}

-- Every tail passes the check of the tails.
abbrev pub AreTails : List Fields → Type 0
AreTails tails = All (λ t. validate_tail true (obj t) ≡ ok tt) tails

-- Every attempt that names its actor names it by a text that is not empty.
abbrev pub HaveActors : Python → List Fields → Type 0
HaveActors py llm =
    All (λ r. (actor : Value) → item "actor_id" r ≡ ok actor → spell py actor ≢ "") llm

prefixed : (s : String) → text_append "model-call:" s ≢ ""
prefixed s e = nonzero (sym (length-append "model-call:" s) ∙ ap count e)
  where
    nonzero : 11 + count s ≡ zero → ⊥
    nonzero h = omega arith

named : (s : String) → s ≢ "" → (s == "") ≡ false
named s n = elim (Bool-cases (s == "")) [
  | inl y ↦ absurd (n ((string_eq.beq_iff s "").0 y))
  | inr f ↦ f
]

dispatch_marker-validate :
    (py : Python) (m : Marked)
    → m.actor ≢ ""
    → validate_tail true (obj (dispatch_marker py m)) ≡ ok tt
unfolding validate_tail dispatch_marker common get get_or has text? is_true is_name_or_none
    require_among among elem replay_entry
dispatch_marker-validate py m n = elim (Option-cases m.parent) [
  | inl e ↦ rw (named m.actor n, named _ (prefixed m.call.native_call_id), e) refl
  | inr (p, e) ↦ rw (named m.actor n, named _ (prefixed m.call.native_call_id), e) refl
]

tool_marker-validate :
    (py : Python) (m : Marked) (parent : String)
    → m.actor ≢ ""
    → validate_tail true (obj (tool_marker py m parent)) ≡ ok tt
unfolding validate_tail tool_marker common get get_or has text? is_true is_name_or_none
    require_among among elem replay_entry
tool_marker-validate py m parent n = elim (Option-cases m.parent) [
  | inl e ↦ rw (named m.actor n, named _ (prefixed m.call.native_call_id), e) refl
  | inr (p, e) ↦ rw (named m.actor n, named _ (prefixed m.call.native_call_id), e) refl
]

markers-AreTails : (py : Python) (m : Marked) → m.actor ≢ "" → AreTails (markers py m)
unfolding markers
markers-AreTails py m n = (dispatch_marker-validate py m n, entered m.parent)
  where
    entered :
        (p : Option String)
        → AreTails (elim p [ none ↦ [] | some parent ↦ tool_marker py m parent ∷ [] ])
    entered none = tt
    entered (some parent) = (tool_marker-validate py m parent n, tt)

AreTails-append : (xs ys : List Fields) → AreTails xs → AreTails ys → AreTails (xs ++ ys)
AreTails-append [] ys h g = g
AreTails-append (x ∷ xs) ys (h, hs) g = (h, AreTails-append xs ys hs g)

render_call-AreTails :
    (py : Python) (lib : Library) (coral : Bool) (llm : List Fields) (actor : String)
    (attempt : Fields) (call : ToolCall) (r r' : Rendering)
    → actor ≢ ""
    → AreTails r.operations
    → render_call py lib coral llm actor attempt call r ≡ ok r'
    → AreTails r'.operations
unfolding render_call add_markers
render_call-AreTails py lib coral llm actor attempt call r r' n v h =
    elim (Bool-cases (elem (actor, call.native_call_id) r.observed)) [
      | inl y ↦ subst (λ x. AreTails x.operations) (ok_injective _ _ (rw y at h)) v
      | inr f ↦
          let (parent, e, h₁) =
            bind-ok (parent_of py coral llm actor attempt call r.claimed) _ r' (rw f at h) in
          let (i, e₁, h₂) = bind-ok (item "attempt_id" attempt) _ r' h₁ in
          let (ended, e₂, h₃) = bind-ok (item "ended_at_ns" attempt) _ r' h₂ in
          subst (λ x. AreTails x.operations) (ok_injective _ _ h₃)
            (AreTails-append r.operations _ v (markers-AreTails py _ n))
    ]

render_calls-AreTails :
    (py : Python) (lib : Library) (coral : Bool) (llm : List Fields) (actor : String)
    (attempt : Fields) (calls : List ToolCall) (r r' : Rendering)
    → actor ≢ ""
    → AreTails r.operations
    → render_calls py lib coral llm actor attempt calls r ≡ ok r'
    → AreTails r'.operations
unfolding render_calls
render_calls-AreTails py lib coral llm actor attempt [] r r' n v h =
    subst (λ x. AreTails x.operations) (ok_injective _ _ h) v
render_calls-AreTails py lib coral llm actor attempt (call ∷ rest) r r' n v h =
    let (r₁, e, h₁) = bind-ok (render_call py lib coral llm actor attempt call r) _ r' h in
    render_calls-AreTails py lib coral llm actor attempt rest r₁ r' n
      (render_call-AreTails py lib coral llm actor attempt call r r₁ n v e) h₁

render_attempts-AreTails :
    (py : Python) (lib : Library) (coral : Bool) (llm attempts : List Fields) (r r' : Rendering)
    → HaveActors py attempts
    → AreTails r.operations
    → render_attempts py lib coral llm attempts r ≡ ok r'
    → AreTails r'.operations
unfolding render_attempts
render_attempts-AreTails py lib coral llm [] r r' n v h =
    subst (λ x. AreTails x.operations) (ok_injective _ _ h) v
render_attempts-AreTails py lib coral llm (attempt ∷ rest) r r' (n, ns) v h =
    let (actor, e, h₁) = bind-ok (item "actor_id" attempt) _ r' h in
    let (response, e₁, h₂) = bind-ok (item "response" attempt) _ r' h₁ in
    let (calls, e₂, h₃) = bind-ok (response_tool_calls lib response) _ r' h₂ in
    let (r₁, e₃, h₄) =
      bind-ok (render_calls py lib coral llm (spell py actor) attempt calls r) _ r' h₃ in
    render_attempts-AreTails py lib coral llm rest r₁ r' ns
      (render_calls-AreTails py lib coral llm (spell py actor) attempt calls r r₁ (n actor e) v e₃)
      h₄

-- For every adapter, all attempts, dispatches and tails: when the tails pass the check of the cutoff
-- tails, each attempt that names its actor names it by a text that is not empty, and the markers of
-- the calls that no operation entered are made, and this returns, then the tails with the markers
-- pass the check as well.
pub materialize-AreTails :
    (py : Python) (lib : Library) (coral : Bool) (llm dispatches operations rendered : List Fields)
    → HaveActors py llm
    → AreTails operations
    → materialize_pre_dispatch_tails py lib coral llm dispatches operations ≡ ok rendered
    → AreTails rendered
unfolding materialize_pre_dispatch_tails
materialize-AreTails py lib coral llm dispatches operations rendered n v h =
    let (observed, e, h₁) = bind-ok (calls_of py (dispatches ++ operations)) _ rendered h in
    let (r, e₁, h₂) = bind-ok (render_attempts py lib coral llm llm _) _ rendered h₁ in
    subst AreTails (ok_injective _ _ h₂) (render_attempts-AreTails py lib coral llm llm _ r n v e₁)
