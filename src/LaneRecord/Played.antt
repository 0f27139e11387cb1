-- ===== src/LaneRecord/Played.antt =====
-- minireplayer/lane_record.py: which operations are active while the loop plays events up to the cutoff.
use minireplayer.Prelude.{
  ℕ, suc, String, ◌≡◌, refl, sym, ap, ◌∙◌, inl, inr, Bool, true, false, not, ◌||◌, Option, none,
  some, List, [], ◌∷◌, Exception, Result, ok, raise, bind-ok, ok_injective, elem, In, insert,
  lookup, ltb, Bool-cases, subst, if◌then◌else◌, string_eq,
}
use minireplayer.Json.{Value, Fields, str, get}
use minireplayer.Json.Access.{get-put}
use minireplayer.Boundary.{Python, spell, Ledger, item}
use minireplayer.Boundary.Start.{Fresh, start}
use minireplayer.Boundary.Complete.{complete}
use minireplayer.LaneRecord.Events.{Timed, is_event}
use minireplayer.LaneRecord.Materialize.{
  Playing, payload_of, start_payload, complete_payload, opened_as, open_local, close_local,
  note_started, note_completed, play_start, play_complete, play_local, play_one, play,
}
use minireplayer.LaneRecord.Tracked.{IsTracked, IsTracked-open}
use minireplayer.LaneRecord.Completing.{IsTracked-close}
use minireplayer.LaneRecord.Opened.{
  continue-inv, otherwise, raised, start-OneMore, complete-OneLess,
}

when {ℓ} : {A : Type ℓ} (b : Bool) (x y z : A) → b ≡ true → (if b then x else y) ≡ z → x ≡ z
when true x y z h g = g
when false x y z h g = cc

refused :
    {A : Type 0} (l l' : Ledger) (e : Exception) (a : A)
    → ◌≡◌ {A = Ledger × Result A} (l, raise e) (l', ok a)
    → ⊥
refused l l' e a h = raised (ap (λ q. q.1) h)

module _ (py : Python) (draw : ℕ → Fresh)
    (injective : (i j : ℕ) → (draw i).reservation_id ≡ (draw j).reservation_id → i ≡ j)
    (cutoff : ℕ) where
  abbrev pub rid : ℕ → String
  rid i = (draw i).reservation_id

  -- The ledger records, and its active operations are those of the loop.
  abbrev Recording : Playing → Ledger → Type 0
  Recording p l = (l.setting.replay ≡ false) × IsTracked (λ i. (draw i).reservation_id) p l.active

  abbrev after : String → String → Playing → Playing
  after n local p = record {
    reservations = insert local n p.reservations;
    started = local ∷ p.started;
    completed = p.completed;
    drawn = suc p.drawn;
  }

  open_local-Recording :
      (local : String) (event : Fields) (p q : Playing) (l l' : Ledger)
      → elem local p.started ≡ false
      → open_local py draw local event (note_started local p) l ≡ (l', ok q)
      → Recording p l
      → Recording q l'
  unfolding open_local opened_as note_started
  open_local-Recording local event p q l l' f h (m, t) =
      let (payload, g, k) = continue-inv (l, start_payload py event) _ l' q h in
      let (o, e, k') =
        continue-inv (start py none (λ _. false) (draw p.drawn) payload l) _ l' q k in
      let l₁ = (start py none (λ _. false) (draw p.drawn) payload l).0 in
      let (same, more) =
        start-OneMore py none (λ _. false) (draw p.drawn) payload l l₁ o m (ap (λ r. (l₁, r)) e) in
      let ((r, a), s) = more in
      let n = (draw p.drawn).reservation_id in
      let tracked : IsTracked rid (after n local p) (insert n r l.active) =
        IsTracked-open rid injective local r p l.active t f in
      let here = ap (λ c. c.0) k' in
      let kept = ok_injective _ _ (ap (λ c. c.1) k') in
      (
        ap (λ c. c.setting.replay) (sym here) ∙ ap (λ c. c.replay) s ∙ m,
        subst (λ c. IsTracked rid q c.active) here
            (subst (λ c. IsTracked rid c l₁.active) kept
              (subst (IsTracked rid (after o.reservation_id local p)) (sym a) (
                subst (λ c. IsTracked rid (after c local p) (insert n r l.active)) (sym same)
                  tracked))),
      )

  payload_named :
      (n : String) (event payload : Fields)
      → complete_payload n event ≡ ok payload
      → get "reservation_id" payload ≡ str n
  unfolding complete_payload
  payload_named n event payload h =
      let (d, g, e) = bind-ok (payload_of event) _ payload h in
      subst (λ c. get "reservation_id" c ≡ str n) (ok_injective _ _ e)
        (get-put "reservation_id" "reservation_id" (str n) d)

  close_local-Recording :
      (local n : String) (event : Fields) (p q : Playing) (l l' : Ledger)
      → lookup local p.reservations ≡ some n
      → close_local py draw n event (note_completed local p) l ≡ (l', ok q)
      → Recording p l
      → Recording q l'
  unfolding close_local
  close_local-Recording local n event p q l l' e h (m, t) =
      let (payload, g, k) = continue-inv (l, complete_payload n event) _ l' q h in
      let fresh = draw (note_completed local p).drawn in
      let (c, d, k') = continue-inv (complete py fresh payload false l) _ l' q k in
      let l₁ = (complete py fresh payload false l).0 in
      let (a, s) =
        complete-OneLess py fresh payload false n l l₁ c (payload_named n event payload g)
          (ap (λ r. (l₁, r)) d) in
      let here = ap (λ x. x.0) k' in
      let kept = ok_injective _ _ (ap (λ x. x.1) k') in
      (
        ap (λ x. x.setting.replay) (sym here) ∙ ap (λ x. x.replay) s ∙ m,
        subst (λ x. IsTracked rid q x.active) here
            (subst (λ x. IsTracked rid x l₁.active) kept
              (subst (IsTracked rid (note_completed local p)) (sym a)
                (IsTracked-close rid local n p l.active t e))),
      )

  play_start-Recording :
      (local : String) (t : Timed) (p q : Playing) (l l' : Ledger)
      → ltb cutoff t.0 ≡ false
      → play_start py draw cutoff local t p l ≡ (l', ok q)
      → Recording p l
      → Recording q l'
  unfolding play_start
  play_start-Recording local t p q l l' b h r = elim (Bool-cases (elem local p.started)) [
    | inl y ↦ absurd (refused l l' _ q (when (elem local p.started) _ _ _ y h))
    | inr f ↦
        open_local-Recording local t.1 p q l l' f
          (otherwise (ltb cutoff t.0) _ _ _ b (otherwise (elem local p.started) _ _ _ f h)) r
  ]

  abbrev at_reservation :
      String → Timed → Playing → Ledger → Option String → Ledger × Result Playing
  at_reservation local t p l none = (l, ok (note_completed local p))
  at_reservation local t p l (some n) =
      if ltb cutoff t.0
      then (l, ok (note_completed local p))
      else close_local py draw n t.1 (note_completed local p) l

  play_complete-Recording :
      (local : String) (t : Timed) (p q : Playing) (l l' : Ledger)
      → ltb cutoff t.0 ≡ false
      → play_complete py draw cutoff local t p l ≡ (l', ok q)
      → Recording p l
      → Recording q l'
  unfolding play_complete
  play_complete-Recording local t p q l l' b h r = elim (Bool-cases (elem local p.started)) [
    | inr f ↦ absurd (refused l l' _ q (when (not (elem local p.started)) _ _ _ (ap not f) h))
    | inl y ↦
        let h₁ = otherwise (not (elem local p.started)) _ _ _ (ap not y) h in
        elim (Bool-cases (elem local p.completed)) [
          | inl z ↦ absurd (refused l l' _ q (when (elem local p.completed) _ _ _ z h₁))
          | inr f ↦
              let (n, e) = r.1.known local y in
              let h₂ = otherwise (elem local p.completed) _ _ _ f h₁ in
              close_local-Recording local n t.1 p q l l' e
                (otherwise (ltb cutoff t.0) _ _ _ b
                  (subst (λ o. at_reservation local t p l o ≡ (l', ok q)) e h₂))
                r
        ]
  ]

  still-Recording :
      (p q : Playing) (l l' : Ledger)
      → ◌≡◌ {A = Ledger × Result Playing} (l, ok p) (l', ok q)
      → Recording p l
      → Recording q l'
  still-Recording p q l l' h r =
      subst (Recording q) (ap (λ x. x.0) h)
        (subst (λ x. Recording x l) (ok_injective _ _ (ap (λ x. x.1) h)) r)

  play_local-Recording :
      (t : Timed) (v : Value) (p q : Playing) (l l' : Ledger)
      → ltb cutoff t.0 ≡ false
      → play_local py draw cutoff t p v l ≡ (l', ok q)
      → Recording p l
      → Recording q l'
  unfolding play_local
  play_local-Recording t v p q l l' b h r = elim (Bool-cases (is_event "start" t.1)) [
    | inl y ↦ play_start-Recording (spell py v) t p q l l' b (rw (play_local, y) at h) r
    | inr f ↦ play_complete-Recording (spell py v) t p q l l' b (rw (play_local, f) at h) r
  ]

  play_one-Recording :
      (t : Timed) (p q : Playing) (l l' : Ledger)
      → ltb cutoff t.0 ≡ false
      → play_one py draw cutoff t p l ≡ (l', ok q)
      → Recording p l
      → Recording q l'
  unfolding play_one
  play_one-Recording t p q l l' b h r =
      let scope = is_event "scope-start" t.1 || is_event "scope-complete" t.1 in
      elim (Bool-cases scope) [
        | inl y ↦ still-Recording p q l l' (when scope _ _ _ y h) r
        | inr f ↦
            let (v, g, k) =
              continue-inv (l, item "reservation_id" t.1) (play_local py draw cutoff t p) l' q
                (otherwise scope _ _ _ f h) in
            play_local-Recording t v p q l l' b k r
      ]

  pub play-Recording :
      (ts : List Timed) (p q : Playing) (l l' : Ledger)
      → ((t : Timed) → In t ts → ltb cutoff t.0 ≡ false)
      → play py draw cutoff ts p l ≡ (l', ok q)
      → Recording p l
      → Recording q l'
  unfolding play
  play-Recording [] p q l l' b h r = still-Recording p q l l' h r
  play-Recording (t ∷ ts) p q l l' b h r =
      let (p₁, e, k) =
        continue-inv (play_one py draw cutoff t p l) (play py draw cutoff ts) l' q h in
      let l₁ = (play_one py draw cutoff t p l).0 in
      play-Recording ts p₁ q l₁ l' (λ x m. b x (inr m)) k
        (play_one-Recording t p p₁ l l₁ (b t (inl refl)) (ap (λ c. (l₁, c)) e) r)
