-- ===== src/LaneRecord/Remembered.antt =====
-- minireplayer/lane_record.py: what the loop remembers as started and completed, and the events that
-- say so.
use minireplayer.Prelude.{
  ℕ, String, ◌≡◌, sym, ap, inl, inr, Bool, true, false, ◌||◌, none, ◌∷◌, Result, ok, raise,
  ok_injective, elem, lookup, ltb, Bool-cases, Option-cases, string_eq,
}
use minireplayer.Json.{Value, Fields}
use minireplayer.Boundary.{Python, spell, Ledger, item}
use minireplayer.Boundary.Start.{Fresh, start}
use minireplayer.Boundary.Complete.{complete}
use minireplayer.LaneRecord.Events.{Timed, is_event}
use minireplayer.LaneRecord.Materialize.{
  Playing, start_payload, complete_payload, opened_as, open_local, close_local, note_started,
  note_completed, play_start, play_complete, play_local, play_one,
}
use minireplayer.LaneRecord.Opened.{continue-inv, otherwise, raised}

-- The event is of that name, and its reservation is spelled so.
abbrev pub IsFor : Python → String → String → Timed → Type 0
IsFor py name k t =
    (is_event name t.1 ≡ true) × (v : Value) × (item "reservation_id" t.1 ≡ ok v) × (spell py v ≡ k)

abbrev pub is_scope : Timed → Bool
is_scope t = is_event "scope-start" t.1 || is_event "scope-complete" t.1

-- What a turn of the loop adds to the events' reservations that have started and completed.
pub data Turn (py : Python) (t : Timed) (p q : Playing) : Type 0 where
  passed : is_scope t ≡ true → q.started ≡ p.started → q.completed ≡ p.completed → Turn py t p q
  opens :
      (v : Value)
      → is_event "start" t.1 ≡ true
      → item "reservation_id" t.1 ≡ ok v
      → q.started ≡ spell py v ∷ p.started
      → q.completed ≡ p.completed
      → Turn py t p q
  closes :
      (v : Value)
      → is_scope t ≡ false
      → is_event "start" t.1 ≡ false
      → item "reservation_id" t.1 ≡ ok v
      → q.started ≡ p.started
      → q.completed ≡ spell py v ∷ p.completed
      → Turn py t p q

refused_turn :
    (l l' : Ledger) (e : _) (q : Playing)
    → ◌≡◌ {A = Ledger × Result Playing} (l, raise e) (l', ok q)
    → ⊥
refused_turn l l' e q h = raised (ap (λ x. x.1) h)

answered :
    (l l' : Ledger) (p q : Playing) → ◌≡◌ {A = Ledger × Result Playing} (l, ok p) (l', ok q) → p ≡ q
answered l l' p q h = ok_injective _ _ (ap (λ x. x.1) h)

module _ (py : Python) (draw : ℕ → Fresh) (cutoff : ℕ) where
  -- the loop's memory of starts and completions
  abbrev Same : Playing → Playing → Type 0
  Same p q = (q.started ≡ p.started) × (q.completed ≡ p.completed)

  Same-of : (p q : Playing) → p ≡ q → Same p q
  Same-of p q e = (ap (λ x. x.started) (sym e), ap (λ x. x.completed) (sym e))

  open_local-Same :
      (local : String) (event : Fields) (p q : Playing) (l l' : Ledger)
      → open_local py draw local event p l ≡ (l', ok q)
      → Same p q
  unfolding open_local opened_as
  open_local-Same local event p q l l' h =
      let (payload, g, k) = continue-inv (l, start_payload py event) _ l' q h in
      let (o, e, k') =
        continue-inv (start py none (λ _. false) (draw p.drawn) payload l) _ l' q k in
      let same = ok_injective _ _ (ap (λ x. x.1) k') in
      (ap (λ x. x.started) (sym same), ap (λ x. x.completed) (sym same))

  close_local-Same :
      (n : String) (event : Fields) (p q : Playing) (l l' : Ledger)
      → close_local py draw n event p l ≡ (l', ok q)
      → Same p q
  unfolding close_local
  close_local-Same n event p q l l' h =
      let (payload, g, k) = continue-inv (l, complete_payload n event) _ l' q h in
      let (c, e, k') = continue-inv (complete py (draw p.drawn) payload false l) _ l' q k in
      Same-of p q (ok_injective _ _ (ap (λ x. x.1) k'))

  play_start-Same :
      (local : String) (t : Timed) (p q : Playing) (l l' : Ledger)
      → play_start py draw cutoff local t p l ≡ (l', ok q)
      → Same (note_started local p) q
  unfolding play_start
  play_start-Same local t p q l l' h = elim (Bool-cases (elem local p.started)) [
    | inl y ↦ absurd (refused_turn l l' _ q (rw y at h))
    | inr n ↦ elim (Bool-cases (ltb cutoff t.0)) [
      | inl y ↦ Same-of _ q (answered l l' _ q (rw (n, y) at h))
      | inr m ↦ open_local-Same local t.1 (note_started local p) q l l' (rw (n, m) at h)
    ]
  ]

  play_complete-Same :
      (local : String) (t : Timed) (p q : Playing) (l l' : Ledger)
      → play_complete py draw cutoff local t p l ≡ (l', ok q)
      → Same (note_completed local p) q
  unfolding play_complete
  play_complete-Same local t p q l l' h = elim (Bool-cases (elem local p.started)) [
    | inr n ↦ absurd (refused_turn l l' _ q (rw n at h))
    | inl y ↦ elim (Bool-cases (elem local p.completed)) [
      | inl z ↦ absurd (refused_turn l l' _ q (rw (y, z) at h))
      | inr m ↦ elim (Option-cases (lookup local p.reservations)) [
        | inl e ↦ Same-of _ q (answered l l' _ q (rw (y, m, e) at h))
        | inr (i, e) ↦ elim (Bool-cases (ltb cutoff t.0)) [
          | inl b ↦ Same-of _ q (answered l l' _ q (rw (y, m, e, b) at h))
          | inr b ↦ close_local-Same i t.1 (note_completed local p) q l l' (rw (y, m, e, b) at h)
        ]
      ]
    ]
  ]

  pub play_one-Turn :
      (t : Timed) (p q : Playing) (l l' : Ledger)
      → play_one py draw cutoff t p l ≡ (l', ok q)
      → Turn py t p q
  unfolding play_one play_local note_started note_completed
  play_one-Turn t p q l l' h = elim (Bool-cases (is_scope t)) [
    | inl y ↦ let (a, b) = Same-of p q (answered l l' p q (rw y at h)) in passed y a b
    | inr n ↦
        let (v, g, k) =
          continue-inv (l, item "reservation_id" t.1) (play_local py draw cutoff t p) l' q
            (otherwise (is_scope t) _ _ _ n h) in
        elim (Bool-cases (is_event "start" t.1)) [
          | inl y ↦
              let (a, b) = play_start-Same (spell py v) t p q l l' (rw (play_local, y) at k) in
              opens v y g a b
          | inr m ↦
              let (a, b) = play_complete-Same (spell py v) t p q l l' (rw (play_local, m) at k) in
              closes v n m g a b
        ]
  ]
