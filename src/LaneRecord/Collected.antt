-- ===== src/LaneRecord/Collected.antt =====
-- minireplayer/lane_record.py: which events the scopes come from.
use minireplayer.Prelude.{
  String, ◌≡◌, refl, sym, ap, ◌∙◌, ◌⊎◌, inl, inr, true, false, Option, none, some, List, [], ◌∷◌,
  ok, bind-ok, ok_injective, insert, lookup, lookup-insert, In, Bool-cases, some_inj, subst, ◌==◌,
  string_eq, beq_refl,
}
use minireplayer.Json.{Value, str, get, is_text}
use minireplayer.Boundary.{Python, spell}
use minireplayer.LaneRecord.Events.{Timed, is_event}
use minireplayer.LaneRecord.Scopes.{
  Scopes, is_there, note_start, note_completion, note_event, collect,
}
use minireplayer.LaneRecord.Paired.{In-of_insert, not_raised}

-- The event is of that name, and of that scope.
abbrev pub IsOf : Python → String → String → Timed → Type 0
IsOf py name k t = (is_event name t.1 ≡ true) × (spell py (get "scope_id" t.1) ≡ k)

pub text_of : (s : String) (v : Value) → is_text s v ≡ true → v ≡ str s
unfolding is_text
text_of s (str x) h = ap str (sym ((string_eq.beq_iff s x).0 h))
text_of s v h = cc

no_start : (t : Timed) → is_event "scope-complete" t.1 ≡ true → is_event "scope-start" t.1 ≡ false
unfolding is_event is_text
no_start t h = ap (is_text "scope-start") (text_of "scope-complete" (get "event" t.1) h)

-- What an event does to the scopes: it starts one, completes one for the first time, or neither.
pub data Noted (py : Python) (t : Timed) (s : Scopes) : Scopes → Type 0 where
  starts :
      is_event "scope-start" t.1 ≡ true
      → Noted py t s (record s { starts = insert (spell py (get "scope_id" t.1)) t s.starts })
  completes :
      is_event "scope-complete" t.1 ≡ true
      → is_there (lookup (spell py (get "scope_id" t.1)) s.completions) ≡ false
      → Noted py t s
          (record s { completions = insert (spell py (get "scope_id" t.1)) t s.completions })
  neither : is_event "scope-complete" t.1 ≡ false → Noted py t s s

note_event-Noted :
    (py : Python) (t : Timed) (s s' : Scopes) → note_event py t s ≡ ok s' → Noted py t s s'
unfolding note_event note_start note_completion
note_event-Noted py t s s' h =
    let scope = spell py (get "scope_id" t.1) in
    elim (Bool-cases (is_event "scope-start" t.1)) [
      | inl y ↦ elim (Bool-cases (is_there (lookup scope s.starts))) [
        | inl z ↦ absurd (not_raised (rw (y, z) at h))
        | inr z ↦ subst (Noted py t s) (ok_injective _ _ (rw (y, z) at h)) (starts y)
      ]
      | inr n ↦ elim (Bool-cases (is_event "scope-complete" t.1)) [
        | inr m ↦ subst (Noted py t s) (ok_injective _ _ (rw (n, m) at h)) (neither m)
        | inl y ↦ elim (Bool-cases (is_there (lookup scope s.starts))) [
          | inr z ↦ absurd (not_raised (rw (n, y, z) at h))
          | inl z ↦ elim (Bool-cases (is_there (lookup scope s.completions))) [
            | inl w ↦ absurd (not_raised (rw (n, y, z, w) at h))
            | inr w ↦ subst (Noted py t s) (ok_injective _ _ (rw (n, y, z, w) at h)) (completes y w)
          ]
        ]
      ]
    ]

there : (o : Option Timed) (c : Timed) → o ≡ some c → is_there o ≡ false → ⊥
there none c g f = cc
there (some x) c g f = cc

module _ (py : Python) (k : String) where
  stays :
      (t c : Timed) (s s' : Scopes)
      → Noted py t s s'
      → lookup k s.completions ≡ some c
      → lookup k s'.completions ≡ some c
  stays t c s s' (starts y) e = e
  stays t c s s' (neither n) e = e
  stays t c s s' (completes y w) e =
      let scope = spell py (get "scope_id" t.1) in
      elim (Bool-cases (k == scope)) [
        | inl q ↦ absurd (
            there (lookup scope s.completions) c
              (subst (λ i. lookup i s.completions ≡ some c) ((string_eq.beq_iff k scope).0 q) e) w)
        | inr n ↦ rw (lookup-insert k scope t s.completions, n) e
      ]

  noted :
      (t : Timed) (s s' : Scopes)
      → Noted py t s s'
      → IsOf py "scope-complete" k t
      → lookup k s'.completions ≡ some t
  noted t s s' (starts y) (c, e) = absurd (not_both (sym y ∙ no_start t c))
    where
      not_both : true ≡ false → ⊥
      not_both h = cc
  noted t s s' (neither n) (c, e) = absurd (not_both (sym c ∙ n))
    where
      not_both : true ≡ false → ⊥
      not_both h = cc
  noted t s s' (completes y w) (c, e) =
      rw (lookup-insert k (spell py (get "scope_id" t.1)) t s.completions, e, beq_refl k) refl

  -- A completion that is known was known before or is the event; a start likewise.
  completion-from :
      (t c : Timed) (s s' : Scopes)
      → Noted py t s s'
      → lookup k s'.completions ≡ some c
      → (lookup k s.completions ≡ some c) ⊎ ((c ≡ t) × IsOf py "scope-complete" k t)
  completion-from t c s s' (starts y) e = inl e
  completion-from t c s s' (neither n) e = inl e
  completion-from t c s s' (completes y w) e =
      let scope = spell py (get "scope_id" t.1) in
      elim (Bool-cases (k == scope)) [
        | inl q ↦ inr (
          sym (some_inj (rw (lookup-insert k scope t s.completions, q) at e)),
          (y, sym ((string_eq.beq_iff k scope).0 q)),
        )
        | inr n ↦ inl (rw (lookup-insert k scope t s.completions, n) at e)
      ]

  start-from :
      (t b : Timed) (s s' : Scopes)
      → Noted py t s s'
      → In (k, b) s'.starts
      → In (k, b) s.starts ⊎ ((b ≡ t) × IsOf py "scope-start" k t)
  start-from t b s s' (completes y w) m = inl m
  start-from t b s s' (neither n) m = inl m
  start-from t b s s' (starts y) m =
      elim (In-of_insert (spell py (get "scope_id" t.1)) t s.starts (k, b) m) [
        | inl q ↦ inr (ap (λ x. x.1) q, (y, sym (ap (λ x. x.0) q)))
        | inr i ↦ inl i
      ]

  all-stay :
      (ts : List Timed) (c : Timed) (s s' : Scopes)
      → collect py ts s ≡ ok s'
      → lookup k s.completions ≡ some c
      → lookup k s'.completions ≡ some c
  unfolding collect
  all-stay [] c s s' h e = subst (λ x. lookup k x.completions ≡ some c) (ok_injective _ _ h) e
  all-stay (t ∷ ts) c s s' h e =
      let (s₁, g, h₁) = bind-ok (note_event py t s) (collect py ts) s' h in
      all-stay ts c s₁ s' h₁ (stays t c s s₁ (note_event-Noted py t s s₁ g) e)

  -- The completion of a scope among the events is the one that the loop knows.
  pub completion-known :
      (ts : List Timed) (c : Timed) (s s' : Scopes)
      → collect py ts s ≡ ok s'
      → In c ts
      → IsOf py "scope-complete" k c
      → lookup k s'.completions ≡ some c
  unfolding collect
  completion-known [] c s s' h m o = absurd m
  completion-known (t ∷ ts) c s s' h m o =
      let (s₁, g, h₁) = bind-ok (note_event py t s) (collect py ts) s' h in
      elim m [
        | inl e ↦ all-stay ts c s₁ s' h₁ (
            subst (λ x. lookup k s₁.completions ≡ some x) (sym e)
              (noted t s s₁ (note_event-Noted py t s s₁ g)
                (subst (IsOf py "scope-complete" k) e o)))
        | inr i ↦ completion-known ts c s₁ s' h₁ i o
      ]

  -- A completion that the loop knows, and a start, are among the events.
  pub completion-In :
      (ts : List Timed) (c : Timed) (s s' : Scopes)
      → collect py ts s ≡ ok s'
      → lookup k s'.completions ≡ some c
      → (lookup k s.completions ≡ some c) ⊎ (In c ts × IsOf py "scope-complete" k c)
  unfolding collect
  completion-In [] c s s' h e =
      inl (subst (λ x. lookup k x.completions ≡ some c) (sym (ok_injective _ _ h)) e)
  completion-In (t ∷ ts) c s s' h e =
      let (s₁, g, h₁) = bind-ok (note_event py t s) (collect py ts) s' h in
      elim (completion-In ts c s₁ s' h₁ e) [
        | inr (m, o) ↦ inr (inr m, o)
        | inl e₁ ↦ elim (completion-from t c s s₁ (note_event-Noted py t s s₁ g) e₁) [
          | inl e₀ ↦ inl e₀
          | inr (q, o) ↦ inr (inl q, subst (IsOf py "scope-complete" k) (sym q) o)
        ]
      ]

  pub start-In :
      (ts : List Timed) (b : Timed) (s s' : Scopes)
      → collect py ts s ≡ ok s'
      → In (k, b) s'.starts
      → In (k, b) s.starts ⊎ (In b ts × IsOf py "scope-start" k b)
  unfolding collect
  start-In [] b s s' h m = inl (subst (λ x. In (k, b) x.starts) (sym (ok_injective _ _ h)) m)
  start-In (t ∷ ts) b s s' h m =
      let (s₁, g, h₁) = bind-ok (note_event py t s) (collect py ts) s' h in
      elim (start-In ts b s₁ s' h₁ m) [
        | inr (i, o) ↦ inr (inr i, o)
        | inl m₁ ↦ elim (start-from t b s s₁ (note_event-Noted py t s s₁ g) m₁) [
          | inl m₀ ↦ inl m₀
          | inr (q, o) ↦ inr (inl q, subst (IsOf py "scope-start" k) (sym q) o)
        ]
      ]
