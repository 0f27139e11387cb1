-- ===== src/LaneRecord/Matched.antt =====
-- minireplayer/lane_record.py: the operations that the loop remembers are those that the events name.
use minireplayer.Prelude.{
  ℕ, String, ◌≡◌, refl, sym, ap, ◌∙◌, ◌⊎◌, ◌↔◌, inl, inr, true, false, ◌||◌, none, some, List, [],
  ◌∷◌, Result, ok, raise, bind-ok, require-ok, ok_injective, elem, In, In-of_elem, elem_of_In,
  Bool-cases, Option, ◌>>◌, subst, string_eq, ◌==◌, Exception,
}
use minireplayer.Json.{
  Value, Fields, str, arr, obj, null, bool, int, negative, float, get, is_text, nat?,
}
use minireplayer.Boundary.{Python, spell, Ledger}
use minireplayer.Boundary.Start.{Fresh}
use minireplayer.Schema.{require_among, among}
use minireplayer.LaneRecord.Events.{Timed, timed, is_event, check_event, check_events}
use minireplayer.LaneRecord.Materialize.{Playing, nothing_played, play_one, play}
use minireplayer.LaneRecord.Opened.{continue-inv, raised}
use minireplayer.LaneRecord.Collected.{text_of}
use minireplayer.LaneRecord.Remembered.{IsFor, is_scope, Turn, passed, opens, closes, play_one-Turn}

abbrev names : List String
names = "start" ∷ "complete" ∷ "scope-start" ∷ "scope-complete" ∷ []

-- The event has one of the four names.
abbrev pub IsKnown : Timed → Type 0
IsKnown t = require_among names (get "event" t.1) ≡ ok tt

not_both : true ≡ false → ⊥
not_both h = cc

flip : (a b : String) → (a == b) ≡ false → (b == a) ≡ false
flip a b h = elim (Bool-cases (b == a)) [
  | inl y ↦
      absurd (not_both (sym ((string_eq.beq_iff a b).1 (sym ((string_eq.beq_iff b a).0 y))) ∙ h))
  | inr n ↦ n
]

not_required : (e : Exception) → ◌≡◌ {A = Result (Unit {0})} (raise e) (ok tt) → ⊥
not_required e h = raised h

named :
    (v : Value)
    → require_among names v ≡ ok tt
    → (is_text "scope-start" v || is_text "scope-complete" v) ≡ false
    → is_text "start" v ≡ false
    → is_text "complete" v ≡ true
unfolding is_text require_among among elem
named (str s) h n m = elim (Bool-cases ("complete" == s)) [
  | inl y ↦ y
  | inr k ↦ elim (Bool-cases ("scope-start" == s)) [
    | inl y ↦ absurd (not_both (rw y at n))
    | inr a ↦ elim (Bool-cases ("scope-complete" == s)) [
      | inl y ↦ absurd (not_both (rw (a, y) at n))
      | inr b ↦ absurd (
          not_required _ (
            rw
              (
                flip "start" s m,
                flip "complete" s k,
                flip "scope-start" s a,
                flip "scope-complete" s b,
              )
              at h))
    ]
  ]
]
named null h n m = absurd (not_required _ h)
named (bool b) h n m = absurd (not_required _ h)
named (int i) h n m = absurd (not_required _ h)
named (negative i) h n m = absurd (not_required _ h)
named (float s) h n m = absurd (not_required _ h)
named (arr xs) h n m = absurd (not_required _ h)
named (obj d) h n m = absurd (not_required _ h)

timed-same : (o : Option ℕ) (event : Fields) (t : Timed) → timed o event ≡ ok t → event ≡ t.1
timed-same none event t h = absurd (raised h)
timed-same (some at) event t h = ap (λ x. x.1) (ok_injective _ _ h)

check_event-IsKnown : (event : Fields) (t : Timed) → check_event event ≡ ok t → IsKnown t
unfolding check_event
check_event-IsKnown event t h =
    let read = timed (nat? (get "at_ns" event)) event in
    let (a, h₁) =
      require-ok (is_text "minireplay.lane-record-event/v1" (get "schema_version" event))
        (require_among names (get "event" event) >> read) t h in
    let (u, k, h₂) = bind-ok (require_among names (get "event" event)) (λ _. read) t h₁ in
    subst (λ x. require_among names (get "event" x) ≡ ok tt)
      (timed-same (nat? (get "at_ns" event)) event t h₂) k

pub check_events-IsKnown :
    (events : List Fields) (ts : List Timed)
    → check_events events ≡ ok ts
    → (t : Timed) → In t ts
    → IsKnown t
unfolding check_events
check_events-IsKnown [] ts h t m = absurd (subst (In t) (sym (ok_injective _ _ h)) m)
check_events-IsKnown (event ∷ rest) ts h t m =
    let (u, e, h₁) = bind-ok (check_event event) _ ts h in
    let (us, e₁, h₂) = bind-ok (check_events rest) _ ts h₁ in
    elim (subst (In t) (sym (ok_injective _ _ h₂)) m) [
      | inl q ↦ subst IsKnown (sym q) (check_event-IsKnown event u e)
      | inr i ↦ check_events-IsKnown rest us e₁ t i
    ]

no_scope :
    (t : Timed) (name : String)
    → (is_text "scope-start" (str name) || is_text "scope-complete" (str name)) ≡ false
    → is_event name t.1 ≡ true
    → is_scope t ≡ false
unfolding is_event
no_scope t name h e =
    ap (λ v. is_text "scope-start" v || is_text "scope-complete" v)
      (text_of name (get "event" t.1) e)
    ∙ h

no_start : (t : Timed) → is_event "complete" t.1 ≡ true → is_event "start" t.1 ≡ false
unfolding is_event is_text
no_start t e = ap (is_text "start") (text_of "complete" (get "event" t.1) e)

module _ (py : Python) (k : String) (t : Timed) (p q : Playing) where
  started-from : Turn py t p q → In k q.started → In k p.started ⊎ IsFor py "start" k t
  started-from (passed y a b) m = inl (subst (In k) a m)
  started-from (closes v n y g a b) m = inl (subst (In k) a m)
  started-from (opens v y g a b) m = elim (subst (In k) a m) [
    | inl e ↦ inr (y, v, g, sym e)
    | inr i ↦ inl i
  ]

  started-to : Turn py t p q → In k p.started ⊎ IsFor py "start" k t → In k q.started
  unfolding is_text
  started-to (passed y a b) (inl m) = subst (In k) (sym a) m
  started-to (passed y a b) (inr (e, w, g, s)) =
      absurd (not_both (sym y ∙ no_scope t "start" refl e))
  started-to (closes v n y g a b) (inl m) = subst (In k) (sym a) m
  started-to (closes v n y g a b) (inr (e, w, g', s)) = absurd (not_both (sym e ∙ y))
  started-to (opens v y g a b) (inl m) = subst (In k) (sym a) (inr m)
  started-to (opens v y g a b) (inr (e, w, g', s)) =
      subst (In k) (sym a) (inl (sym s ∙ ap (spell py) (ok_injective _ _ (sym g' ∙ g))))

  completed-from :
      IsKnown t → Turn py t p q → In k q.completed → In k p.completed ⊎ IsFor py "complete" k t
  unfolding is_event
  completed-from c (passed y a b) m = inl (subst (In k) b m)
  completed-from c (opens v y g a b) m = inl (subst (In k) b m)
  completed-from c (closes v n y g a b) m = elim (subst (In k) b m) [
    | inl e ↦ inr (named (get "event" t.1) c n y, v, g, sym e)
    | inr i ↦ inl i
  ]

  completed-to : Turn py t p q → In k p.completed ⊎ IsFor py "complete" k t → In k q.completed
  unfolding is_text
  completed-to (passed y a b) (inl m) = subst (In k) (sym b) m
  completed-to (passed y a b) (inr (e, w, g, s)) =
      absurd (not_both (sym y ∙ no_scope t "complete" refl e))
  completed-to (opens v y g a b) (inl m) = subst (In k) (sym b) m
  completed-to (opens v y g a b) (inr (e, w, g', s)) = absurd (not_both (sym y ∙ no_start t e))
  completed-to (closes v n y g a b) (inl m) = subst (In k) (sym b) (inr m)
  completed-to (closes v n y g a b) (inr (e, w, g', s)) =
      subst (In k) (sym b) (inl (sym s ∙ ap (spell py) (ok_injective _ _ (sym g' ∙ g))))

-- An event among them has that name, and is for that reservation.
abbrev pub Names : Python → String → String → List Timed → Type 0
Names py name k ts = (t : Timed) × In t ts × IsFor py name k t

-- The loop remembers as started, and as completed, what it did before and what the events name.
module _ (py : Python) (draw : ℕ → Fresh) (cutoff : ℕ) (k : String) where
  either :
      {A : Type 0} (name : String) (t : Timed) (ts : List Timed)
      → (A ⊎ IsFor py name k t) ⊎ ((u : Timed) × In u ts × IsFor py name k u)
      → A ⊎ ((u : Timed) × In u (t ∷ ts) × IsFor py name k u)
  either name t ts (inl (inl a)) = inl a
  either name t ts (inl (inr f)) = inr (t, inl refl, f)
  either name t ts (inr (u, m, f)) = inr (u, inr m, f)

  split :
      {A : Type 0} (name : String) (t : Timed) (ts : List Timed)
      → A ⊎ ((u : Timed) × In u (t ∷ ts) × IsFor py name k u)
      → (A ⊎ IsFor py name k t) ⊎ ((u : Timed) × In u ts × IsFor py name k u)
  split name t ts (inl a) = inl (inl a)
  split name t ts (inr (u, inl e, f)) = inl (inr (subst (IsFor py name k) e f))
  split name t ts (inr (u, inr m, f)) = inr (u, m, f)

  onward : {A B C : Type 0} → (A → B) → A ⊎ C → B ⊎ C
  onward f (inl a) = inl (f a)
  onward f (inr c) = inr c

  play-started :
      (ts : List Timed) (p q : Playing) (l l' : Ledger)
      → play py draw cutoff ts p l ≡ (l', ok q)
      → In k q.started ↔ (In k p.started ⊎ ((t : Timed) × In t ts × IsFor py "start" k t))
  unfolding play
  play-started [] p q l l' h =
      let e = ok_injective _ _ (ap (λ x. x.1) h) in
      (
        λ m. inl (subst (λ x. In k x.started) (sym e) m),
        λ m. elim m [ inl i ↦ subst (λ x. In k x.started) e i | inr (t, i, f) ↦ absurd i ],
      )
  play-started (t ∷ ts) p q l l' h =
      let (p₁, e, g) =
        continue-inv (play_one py draw cutoff t p l) (play py draw cutoff ts) l' q h in
      let l₁ = (play_one py draw cutoff t p l).0 in
      let turn = play_one-Turn py draw cutoff t p p₁ l l₁ (ap (λ c. (l₁, c)) e) in
      let later = play-started ts p₁ q l₁ l' g in
      (
        λ m. either "start" t ts (onward (started-from py k t p p₁ turn) (later.0 m)),
        λ m. later.1 (onward (started-to py k t p p₁ turn) (split "start" t ts m)),
      )

  play-completed :
      (ts : List Timed) (p q : Playing) (l l' : Ledger)
      → ((t : Timed) → In t ts → IsKnown t)
      → play py draw cutoff ts p l ≡ (l', ok q)
      → In k q.completed ↔ (In k p.completed ⊎ ((t : Timed) × In t ts × IsFor py "complete" k t))
  unfolding play
  play-completed [] p q l l' known h =
      let e = ok_injective _ _ (ap (λ x. x.1) h) in
      (
        λ m. inl (subst (λ x. In k x.completed) (sym e) m),
        λ m. elim m [ inl i ↦ subst (λ x. In k x.completed) e i | inr (t, i, f) ↦ absurd i ],
      )
  play-completed (t ∷ ts) p q l l' known h =
      let (p₁, e, g) =
        continue-inv (play_one py draw cutoff t p l) (play py draw cutoff ts) l' q h in
      let l₁ = (play_one py draw cutoff t p l).0 in
      let turn = play_one-Turn py draw cutoff t p p₁ l l₁ (ap (λ c. (l₁, c)) e) in
      let later = play-completed ts p₁ q l₁ l' (λ u m. known u (inr m)) g in
      (
        λ m.
            either "complete" t ts
              (onward (completed-from py k t p p₁ (known t (inl refl)) turn) (later.0 m)),
        λ m. later.1 (onward (completed-to py k t p p₁ turn) (split "complete" t ts m)),
      )

  -- From the start of the loop.
  fresh_start : {A : Type 0} (xs : List String) → In k xs ↔ (⊥ ⊎ A) → (elem k xs ≡ true) ↔ A
  fresh_start xs h = (
    λ e. elim (h.0 (In-of_elem k xs e)) [ inl n ↦ absurd n | inr a ↦ a ],
    λ a. elem_of_In k xs (h.1 (inr a)),
  )

  pub nothing-started :
      (ts : List Timed) (q : Playing) (l l' : Ledger)
      → play py draw cutoff ts nothing_played l ≡ (l', ok q)
      → (elem k q.started ≡ true) ↔ Names py "start" k ts
  nothing-started ts q l l' h = fresh_start q.started (play-started ts nothing_played q l l' h)

  pub nothing-completed :
      (ts : List Timed) (q : Playing) (l l' : Ledger)
      → ((t : Timed) → In t ts → IsKnown t)
      → play py draw cutoff ts nothing_played l ≡ (l', ok q)
      → (elem k q.completed ≡ true) ↔ Names py "complete" k ts
  nothing-completed ts q l l' known h =
      fresh_start q.completed (play-completed ts nothing_played q l l' known h)
