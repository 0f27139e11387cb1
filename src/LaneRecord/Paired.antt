-- ===== src/LaneRecord/Paired.antt =====
-- minireplayer/lane_record.py: the scopes that the loop over the events collects.
use minireplayer.Prelude.{
  ℕ, ◌≤◌, String, ◌≡◌, refl, sym, ap, ◌∙◌, ◌⊎◌, inl, inr, true, false, Option, some, List, [], ◌∷◌,
  Dict, ok, raise, Exception, bind-ok, ok_injective, insert, lookup, lookup-insert, ltb, arith, In,
  Bool-cases, some_inj, subst, ◌==◌, string_eq,
}
use minireplayer.Json.{get}
use minireplayer.Boundary.{Python, spell}
use minireplayer.LaneRecord.Events.{Timed, is_event}
use minireplayer.LaneRecord.Timely.{Ascending}
use minireplayer.LaneRecord.Scopes.{
  Scopes, is_there, note_start, note_completion, note_event, collect,
}

pub not_lt : (a b : ℕ) → ltb a b ≡ false → b ≤ a
not_lt a b h = ground arith

pub false≢true : false ≡ true → ⊥
false≢true h = cc

-- The scopes began up to a time, and none ended before it began.
pub record IsPaired (u : ℕ) (s : Scopes) : Type 0 where
  pub begun : (k : String) (t : Timed) → In (k, t) s.starts → t.0 ≤ u
  pub known :
      (k : String) (c : Timed)
      → lookup k s.completions ≡ some c
      → is_there (lookup k s.starts) ≡ true
  pub later :
      (k : String) (t c : Timed) → In (k, t) s.starts → lookup k s.completions ≡ some c → t.0 ≤ c.0

pub In-of_insert :
    (k : String) (t : Timed) (m : Dict String Timed) (e : String × Timed)
    → In e (insert k t m)
    → (e ≡ (k, t)) ⊎ In e m
unfolding insert
In-of_insert k t [] e (inl h) = inl h
In-of_insert k t [] e (inr h) = inr h
In-of_insert k t ((j, v) ∷ m) e h = elim (Bool-cases (k == j)) [
  | inl y ↦ elim (rw y at h) [
    | inl q ↦ inl (q ∙ ap (λ i. (i, t)) (sym ((string_eq.beq_iff k j).0 y)))
    | inr q ↦ inr (inr q)
  ]
  | inr n ↦ elim (rw n at h) [
    | inl q ↦ inr (inl q)
    | inr q ↦ elim (In-of_insert k t m e q) [ inl r ↦ inl r | inr r ↦ inr (inr r) ]
  ]
]

there-insert :
    (j k : String) (t : Timed) (m : Dict String Timed)
    → is_there (lookup j m) ≡ true
    → is_there (lookup j (insert k t m)) ≡ true
there-insert j k t m h = elim (Bool-cases (j == k)) [
  | inl y ↦ rw (lookup-insert j k t m, y) refl
  | inr n ↦ rw (lookup-insert j k t m, n) h
]

clash : (o : Option Timed) (c : Timed) → is_there o ≡ false → is_there o ≡ true → ⊥
clash o c h g = cc

IsPaired-start :
    (u : ℕ) (k : String) (t : Timed) (s : Scopes)
    → u ≤ t.0
    → is_there (lookup k s.starts) ≡ false
    → IsPaired u s
    → IsPaired t.0 (record s { starts = insert k t s.starts })
IsPaired-start u k t s b n p = record {
  begun = λ j v m. elim (In-of_insert k t s.starts (j, v) m) [
    | inl e ↦ omega (arith, ap (λ q. q.1.0) e)
    | inr m' ↦ omega (arith, p.begun j v m', b)
  ];
  known = λ j c h. there-insert j k t s.starts (p.known j c h);
  later = λ j v c m h. elim (In-of_insert k t s.starts (j, v) m) [
    | inl e ↦ absurd (
        clash _ c n
          (subst (λ i. is_there (lookup i s.starts) ≡ true) (ap (λ q. q.0) e) (p.known j c h)))
    | inr m' ↦ p.later j v c m' h
  ];
}

IsPaired-completion :
    (u : ℕ) (k : String) (t : Timed) (s : Scopes)
    → u ≤ t.0
    → is_there (lookup k s.starts) ≡ true
    → IsPaired u s
    → IsPaired t.0 (record s { completions = insert k t s.completions })
IsPaired-completion u k t s b y p = record {
  begun = λ j v m. omega (arith, p.begun j v m, b);
  known = λ j c h. elim (Bool-cases (j == k)) [
    | inl e ↦ subst (λ i. is_there (lookup i s.starts) ≡ true) (sym ((string_eq.beq_iff j k).0 e)) y
    | inr n ↦ p.known j c (rw (lookup-insert j k t s.completions, n) at h)
  ];
  later = λ j v c m h. elim (Bool-cases (j == k)) [
    | inl e ↦
        let q = some_inj (rw (lookup-insert j k t s.completions, e) at h) in
        omega (arith, p.begun j v m, b, ap (λ x. x.0) q)
    | inr n ↦ p.later j v c m (rw (lookup-insert j k t s.completions, n) at h)
  ];
}

IsPaired-later : (u w : ℕ) (s : Scopes) → u ≤ w → IsPaired u s → IsPaired w s
IsPaired-later u w s b p = record {
  begun = λ j v m. omega (arith, p.begun j v m, b);
  known = p.known;
  later = p.later;
}

pub not_raised {ℓ} : {A : Type ℓ} {e : Exception} {a : A} → raise e ≡ ok a → ⊥
not_raised h = cc

note_start-IsPaired :
    (u : ℕ) (k : String) (t : Timed) (s s' : Scopes)
    → u ≤ t.0
    → IsPaired u s
    → note_start k t s ≡ ok s'
    → IsPaired t.0 s'
unfolding note_start
note_start-IsPaired u k t s s' b p h = elim (Bool-cases (is_there (lookup k s.starts))) [
  | inl y ↦ absurd (not_raised (rw y at h))
  | inr n ↦ subst (IsPaired t.0) (ok_injective _ _ (rw n at h)) (IsPaired-start u k t s b n p)
]

note_completion-IsPaired :
    (u : ℕ) (k : String) (t : Timed) (s s' : Scopes)
    → u ≤ t.0
    → IsPaired u s
    → note_completion k t s ≡ ok s'
    → IsPaired t.0 s'
unfolding note_completion
note_completion-IsPaired u k t s s' b p h = elim (Bool-cases (is_there (lookup k s.starts))) [
  | inr n ↦ absurd (not_raised (rw n at h))
  | inl y ↦ elim (Bool-cases (is_there (lookup k s.completions))) [
    | inl z ↦ absurd (not_raised (rw (y, z) at h))
    | inr n ↦
        subst (IsPaired t.0) (ok_injective _ _ (rw (y, n) at h)) (IsPaired-completion u k t s b y p)
  ]
]

note_event-IsPaired :
    (py : Python) (u : ℕ) (t : Timed) (s s' : Scopes)
    → u ≤ t.0
    → IsPaired u s
    → note_event py t s ≡ ok s'
    → IsPaired t.0 s'
unfolding note_event
note_event-IsPaired py u t s s' b p h = elim (Bool-cases (is_event "scope-start" t.1)) [
  | inl y ↦ note_start-IsPaired u (spell py (get "scope_id" t.1)) t s s' b p (rw y at h)
  | inr n ↦ elim (Bool-cases (is_event "scope-complete" t.1)) [
    | inl y ↦ note_completion-IsPaired u (spell py (get "scope_id" t.1)) t s s' b p (rw (n, y) at h)
    | inr m ↦ subst (IsPaired t.0) (ok_injective _ _ (rw (n, m) at h)) (IsPaired-later u t.0 s b p)
  ]
]

-- some time up to which the scopes began
abbrev Paired : Scopes → Type 0
Paired s = (u : ℕ) × IsPaired u s

pub collect-Paired :
    (py : Python) (ts : List Timed) (u : ℕ) (s s' : Scopes)
    → Ascending u ts
    → IsPaired u s
    → collect py ts s ≡ ok s'
    → Paired s'
unfolding collect
collect-Paired py [] u s s' a p h = (u, subst (IsPaired u) (ok_injective _ _ h) p)
collect-Paired py (t ∷ ts) u s s' (b, a) p h =
    let (s₁, g, h₁) = bind-ok (note_event py t s) (collect py ts) s' h in
    collect-Paired py ts t.0 s₁ s' a (note_event-IsPaired py u t s s₁ b p g) h₁
