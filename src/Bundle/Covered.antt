-- ===== src/Bundle/Covered.antt =====
-- minireplayer/bundle.py: the markers account for every call that the model made.
use minireplayer.Prelude.{
  String, ◌≡◌, ◌≢◌, refl, sym, ap, ◌∙◌, inl, inr, Bool, true, false, List, [], ◌∷◌, ◌++◌, ok,
  require, bind-ok, ok_injective, elem, all, In, In-of_append, In-of_elem, elem_of_In, all_of_In,
  Subset, All, Bool-cases, subst, ◌==◌, string_eq, pair_eq,
}
use mathlib.Core.Bool.{false≢true}
use minireplayer.Json.{Value, Fields}
use minireplayer.Boundary.{Python, spell, item}
use minireplayer.Bundle.{Library, CallId, calls_of}
use minireplayer.Bundle.Calls.{
  ToolCall, Slots, response_tool_calls, slots_of, finished, arguments_of,
}
use minireplayer.Bundle.PreDispatch.{
  Rendering, add_markers, parent_of, render_call, render_calls, render_attempts,
  materialize_pre_dispatch_tails,
}
use minireplayer.Bundle.Checks.{emitted, emitted_by, require_coral_dispatch_coverage}
use minireplayer.Bundle.Evident.{Evident, Evident-add_markers, calls_of-split}

-- Every call that is complete has an identifier.
abbrev AreNamed : List ToolCall → Type 0
AreNamed calls = All (λ (c : ToolCall). c.native_call_id ≢ "") calls

not_empty : (s : String) → (s == "") ≡ false → s ≢ ""
not_empty s h e = false≢true (sym h ∙ (string_eq.beq_iff s "").1 e)

finished-AreNamed :
    (lib : Library) (slots : Slots) (calls : List ToolCall)
    → finished lib slots ≡ ok calls
    → AreNamed calls
unfolding finished
finished-AreNamed lib [] calls h = subst AreNamed (ok_injective _ _ h) tt
finished-AreNamed lib ((k, p) ∷ rest) calls h = elim (Bool-cases (p.native_call_id == "")) [
  | inl y ↦ finished-AreNamed lib rest calls (rw y at h)
  | inr n ↦
      let (arguments, e, h₁) = bind-ok (arguments_of lib p.raw_arguments) _ calls (rw n at h) in
      let (later, e₁, h₂) = bind-ok (finished lib rest) _ calls h₁ in
      subst AreNamed (ok_injective _ _ h₂)
        (not_empty p.native_call_id n, finished-AreNamed lib rest later e₁)
]

response-AreNamed :
    (lib : Library) (v : Value) (calls : List ToolCall)
    → response_tool_calls lib v ≡ ok calls
    → AreNamed calls
unfolding response_tool_calls
response-AreNamed lib v calls h =
    let (slots, e, h₁) = bind-ok (slots_of lib v) (finished lib) calls h in
    finished-AreNamed lib slots calls h₁

-- What a part of the loop does: it keeps the evidence, and forgets no call.
record Goes (py : Python) (dispatches : List Fields) (r r' : Rendering) : Type 0 where
  evident : Evident py dispatches r'
  keeps : Subset r.observed r'.observed

render_call-Goes :
    (py : Python) (lib : Library) (coral : Bool) (llm dispatches : List Fields) (actor : String)
    (attempt : Fields) (call : ToolCall) (r r' : Rendering)
    → call.native_call_id ≢ ""
    → Evident py dispatches r
    → render_call py lib coral llm actor attempt call r ≡ ok r'
    → Goes py dispatches r r' × In (actor, call.native_call_id) r'.observed
unfolding render_call add_markers
render_call-Goes py lib coral llm dispatches actor attempt call r r' n v h =
    elim (Bool-cases (elem (actor, call.native_call_id) r.observed)) [
      | inl y ↦
          let e = ok_injective _ _ (rw y at h) in
          (
            record {
              evident = subst (Evident py dispatches) e v;
              keeps = λ c i. subst (λ x. In c x.observed) e i;
            },
            subst (λ x. In (actor, call.native_call_id) x.observed) e (In-of_elem _ r.observed y),
          )
      | inr f ↦
          let (parent, e, h₁) =
            bind-ok (parent_of py coral llm actor attempt call r.claimed) _ r' (rw f at h) in
          let (i, e₁, h₂) = bind-ok (item "attempt_id" attempt) _ r' h₁ in
          let (ended, e₂, h₃) = bind-ok (item "ended_at_ns" attempt) _ r' h₂ in
          let same = ok_injective _ _ h₃ in
          (
            record {
              evident =
                  subst (Evident py dispatches) same (Evident-add_markers py dispatches _ r n v);
              keeps = λ c i. subst (λ x. In c x.observed) same (inr i);
            },
            subst (λ x. In (actor, call.native_call_id) x.observed) same (inl refl),
          )
    ]

render_calls-Goes :
    (py : Python) (lib : Library) (coral : Bool) (llm dispatches : List Fields) (actor : String)
    (attempt : Fields) (calls : List ToolCall) (r r' : Rendering)
    → AreNamed calls
    → Evident py dispatches r
    → render_calls py lib coral llm actor attempt calls r ≡ ok r'
    → Goes py dispatches r r'
      × ((call : ToolCall) → In call calls → In (actor, call.native_call_id) r'.observed)
unfolding render_calls
render_calls-Goes py lib coral llm dispatches actor attempt [] r r' n v h = (
  record {
    evident = subst (Evident py dispatches) (ok_injective _ _ h) v;
    keeps = λ c i. subst (λ x. In c x.observed) (ok_injective _ _ h) i;
  },
  λ call m. absurd m,
)
render_calls-Goes py lib coral llm dispatches actor attempt (call ∷ rest) r r' (n, ns) v h =
    let (r₁, e, h₁) = bind-ok (render_call py lib coral llm actor attempt call r) _ r' h in
    let (g, i) = render_call-Goes py lib coral llm dispatches actor attempt call r r₁ n v e in
    let (g', k) =
      render_calls-Goes py lib coral llm dispatches actor attempt rest r₁ r' ns g.evident h₁ in
    (
      record { evident = g'.evident; keeps = λ c j. g'.keeps c (g.keeps c j) },
      λ c m. elim m [
        | inl q ↦ g'.keeps _ (subst (λ x. In (actor, x.native_call_id) r₁.observed) (sym q) i)
        | inr m' ↦ k c m'
      ],
    )

-- The calls of an attempt that the loop has been through are all observed.
emitted_by-Subset :
    (py : Python) (attempt : Fields) (actor : Value) (calls : List ToolCall) (seen : List CallId)
    → item "actor_id" attempt ≡ ok actor
    → ((call : ToolCall) → In call calls → In (spell py actor, call.native_call_id) seen)
    → (made : List CallId) × (emitted_by py attempt calls ≡ ok made) × Subset made seen
unfolding emitted_by
emitted_by-Subset py attempt actor [] seen e k = ([], refl, λ c m. absurd m)
emitted_by-Subset py attempt actor (call ∷ rest) seen e k =
    let (made, g, s) = emitted_by-Subset py attempt actor rest seen e (λ c m. k c (inr m)) in
    (
      (spell py actor, call.native_call_id) ∷ made,
      rw (e, g) refl,
      λ c m. elim m [
        | inl q ↦ subst (λ x. In x seen) (sym q) (k call (inl refl))
        | inr m' ↦ s c m'
      ],
    )

emitted-cons :
    (py : Python) (lib : Library) (attempt : Fields) (rest : List Fields) (response : Value)
    (calls : List ToolCall) (now later : List CallId)
    → item "response" attempt ≡ ok response
    → response_tool_calls lib response ≡ ok calls
    → emitted_by py attempt calls ≡ ok now
    → emitted py lib rest ≡ ok later
    → emitted py lib (attempt ∷ rest) ≡ ok (now ++ later)
unfolding emitted
emitted-cons py lib attempt rest response calls now later a b c d = rw (a, b, c, d) refl

render_attempts-covers :
    (py : Python) (lib : Library) (coral : Bool) (llm dispatches attempts : List Fields)
    (r r' : Rendering)
    → Evident py dispatches r
    → render_attempts py lib coral llm attempts r ≡ ok r'
    → Goes py dispatches r r'
      × ((made : List CallId) × (emitted py lib attempts ≡ ok made) × Subset made r'.observed)
unfolding render_attempts emitted
render_attempts-covers py lib coral llm dispatches [] r r' v h = (
  record {
    evident = subst (Evident py dispatches) (ok_injective _ _ h) v;
    keeps = λ c i. subst (λ x. In c x.observed) (ok_injective _ _ h) i;
  },
  ([], refl, λ c m. absurd m),
)
render_attempts-covers py lib coral llm dispatches (attempt ∷ rest) r r' v h =
    let (actor, e, h₁) = bind-ok (item "actor_id" attempt) _ r' h in
    let (response, e₁, h₂) = bind-ok (item "response" attempt) _ r' h₁ in
    let (calls, e₂, h₃) = bind-ok (response_tool_calls lib response) _ r' h₂ in
    let (r₁, e₃, h₄) =
      bind-ok (render_calls py lib coral llm (spell py actor) attempt calls r) _ r' h₃ in
    let (g, k) =
      render_calls-Goes py lib coral llm dispatches (spell py actor) attempt calls r r₁
        (response-AreNamed lib response calls e₂) v e₃ in
    let (g', (later, f, s)) =
      render_attempts-covers py lib coral llm dispatches rest r₁ r' g.evident h₄ in
    let (now, f', s') = emitted_by-Subset py attempt actor calls r₁.observed e k in
    (
      record { evident = g'.evident; keeps = λ c j. g'.keeps c (g.keeps c j) },
      (
        now ++ later,
        emitted-cons py lib attempt rest response calls now later e₁ e₂ f' f,
        λ c m. elim (In-of_append c now later m) [
          | inl m' ↦ g'.keeps c (s' c m')
          | inr m' ↦ s c m'
        ],
      ),
    )

covered :
    (py : Python) (lib : Library) (llm dispatches operations : List Fields) (made ids : List CallId)
    → emitted py lib llm ≡ ok made
    → calls_of py (dispatches ++ operations) ≡ ok ids
    → Subset made ids
    → require_coral_dispatch_coverage py lib true llm dispatches operations ≡ ok tt
unfolding require_coral_dispatch_coverage
covered py lib llm dispatches operations made ids e g s =
    let (a, b, f, f', q) = calls_of-split py dispatches operations ids g in
    let seen : all (λ call. elem call (a ++ b)) made ≡ true =
      all_of_In (λ call. elem call (a ++ b)) made
        (λ c m. elem_of_In c (a ++ b) (subst (In c) q (s c m))) in
    rw (e, f, f') (ap require seen)

covered_if :
    (py : Python) (lib : Library) (coral : Bool) (llm dispatches operations : List Fields)
    → require_coral_dispatch_coverage py lib true llm dispatches operations ≡ ok tt
    → require_coral_dispatch_coverage py lib coral llm dispatches operations ≡ ok tt
unfolding require_coral_dispatch_coverage
covered_if py lib false llm dispatches operations h = refl
covered_if py lib true llm dispatches operations h = h

-- For every adapter, all attempts, dispatches and tails: when the markers of the calls that no
-- operation entered are made, and this returns, the tails with the markers pass the check that every
-- call that the model made has a dispatch or a tail.
pub materialize-require_coral_dispatch_coverage :
    (py : Python) (lib : Library) (coral : Bool) (llm dispatches operations rendered : List Fields)
    → materialize_pre_dispatch_tails py lib coral llm dispatches operations ≡ ok rendered
    → require_coral_dispatch_coverage py lib coral llm dispatches rendered ≡ ok tt
unfolding materialize_pre_dispatch_tails
materialize-require_coral_dispatch_coverage py lib coral llm dispatches operations rendered h =
    let (observed, e, h₁) = bind-ok (calls_of py (dispatches ++ operations)) _ rendered h in
    let (r, e₁, h₂) = bind-ok (render_attempts py lib coral llm llm _) _ rendered h₁ in
    let (g, (made, f, s)) =
      render_attempts-covers py lib coral llm dispatches llm
        (record { operations = operations; observed = observed; claimed = [] }) r
        (observed, e, λ c m. m) e₁ in
    let (ids, k, t) = g.evident in
    covered_if py lib coral llm dispatches rendered (
      subst (λ ops. require_coral_dispatch_coverage py lib true llm dispatches ops ≡ ok tt)
        (ok_injective _ _ h₂)
        (covered py lib llm dispatches r.operations made ids f k (λ c m. t c (s c m))))
