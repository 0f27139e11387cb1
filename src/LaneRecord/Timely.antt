-- ===== src/LaneRecord/Timely.antt =====
-- minireplayer/lane_record.py: what the order of the events and the cutoff mean for the ledger.
use minireplayer.Prelude.{
  ℕ, ◌≤◌, ◌<◌, String, ◌≡◌, refl, sym, ap, ◌∙◌, inl, inr, Bool, true, false, not, List, [], ◌∷◌,
  Result, ok, raise, arith, elem, lookup, ltb, keep, Bool-cases, Option-cases, subst, ◌||◌, lt→ltb,
  ltb→lt, if◌then◌else◌, string_eq,
}
use minireplayer.Json.{Value}
use minireplayer.Boundary.{Python, spell, Ledger, Action, continue, item}
use minireplayer.Boundary.Start.{Fresh}
use minireplayer.LaneRecord.Opened.{continue-inv}
use minireplayer.LaneRecord.Events.{Timed, is_event, event_leb, place_event, by_time}
use minireplayer.LaneRecord.Sorted.{has_key, keep-by_time}
use minireplayer.LaneRecord.Materialize.{
  Playing, play_start, play_complete, play_local, play_one, play,
}

-- The times do not go down, from a time on.
abbrev pub Ascending : ℕ → List Timed → Type 0
Ascending t [] = Unit
Ascending t (e ∷ es) = (t ≤ e.0) × Ascending e.0 es

event_leb-le : (a b : Timed) → event_leb a b ≡ true → a.0 ≤ b.0
unfolding event_leb
event_leb-le a b h = ground arith

event_leb-ge : (a b : Timed) → event_leb a b ≡ false → b.0 ≤ a.0
unfolding event_leb
event_leb-ge a b h = ground arith

Ascending-place_event :
    (u : ℕ) (t : Timed) (ts : List Timed)
    → u ≤ t.0
    → Ascending u ts
    → Ascending u (place_event t ts)
unfolding place_event
Ascending-place_event u t [] h a = (h, tt)
Ascending-place_event u t (x ∷ xs) h (b, a) = elim (Bool-cases (event_leb t x)) [
  | inl y ↦ rw y (h, (event_leb-le t x y, a))
  | inr n ↦ rw n (b, Ascending-place_event x.0 t xs (event_leb-ge t x n) a)
]

pub Ascending-by_time : (ts : List Timed) → Ascending 0 (by_time ts)
unfolding by_time
Ascending-by_time [] = tt
Ascending-by_time (t ∷ ts) =
    Ascending-place_event 0 t (by_time ts) (omega arith) (Ascending-by_time ts)

-- the ledger after an action is that before it
abbrev Still {ℓ} : {A : Type ℓ} → Ledger → Ledger × Result A → Type 0
Still l done = done.0 ≡ l

Still-if :
    {A : Type 0} (l : Ledger) (b : Bool) (x y : Ledger × Result A)
    → (b ≡ true → Still l x)
    → (b ≡ false → Still l y)
    → Still l (if b then x else y)
Still-if l true x y h k = h refl
Still-if l false x y h k = k refl

Still-continue :
    {A B : Type 0} (l : Ledger) (m : Result A) (next : A → Action B)
    → ((a : A) → Still l (next a l))
    → Still l (continue (l, m) next)
unfolding continue
Still-continue l (ok a) next h = h a
Still-continue l (raise e) next h = refl

Still-next :
    {A B : Type 0} (l : Ledger) (done : Ledger × Result A) (next : A → Action B)
    → Still l done
    → ((a : A) (l' : Ledger) → l' ≡ l → Still l (next a l'))
    → Still l (continue done next)
unfolding continue
Still-next l (l', ok a) next e h = h a l' e
Still-next l (l', raise x) next e h = e

continue-same :
    {A B : Type 0} (done : Ledger × Result A) (next other : A → Action B)
    → ((a : A) (l : Ledger) → (next a l).0 ≡ (other a l).0)
    → (continue done next).0 ≡ (continue done other).0
unfolding continue
continue-same (l, ok a) next other h = h a l
continue-same (l, raise e) next other h = refl

module _ (py : Python) (draw : ℕ → Fresh) (cutoff : ℕ) where
  late_start :
      (local : String) (t : Timed) (p : Playing) (l : Ledger)
      → ltb cutoff t.0 ≡ true
      → Still l (play_start py draw cutoff local t p l)
  unfolding play_start
  late_start local t p l h = Still-if l (elem local p.started) _ _ (λ y. refl) (λ n. rw h refl)

  late_complete :
      (local : String) (t : Timed) (p : Playing) (l : Ledger)
      → ltb cutoff t.0 ≡ true
      → Still l (play_complete py draw cutoff local t p l)
  unfolding play_complete
  late_complete local t p l h =
      Still-if l (not (elem local p.started)) _ _ (λ y. refl)
        (λ n.
          Still-if l (elem local p.completed) _ _ (λ y. refl)
            (λ m. elim (Option-cases (lookup local p.reservations)) [
              | inl e ↦ rw e refl
              | inr (i, e) ↦ rw (e, h) refl
            ]))

  late_local :
      (t : Timed) (p : Playing) (v : Value) (l : Ledger)
      → ltb cutoff t.0 ≡ true
      → Still l (play_local py draw cutoff t p v l)
  unfolding play_local
  late_local t p v l h = elim (Bool-cases (is_event "start" t.1)) [
    | inl y ↦ rw y (late_start (spell py v) t p l h)
    | inr n ↦ rw n (late_complete (spell py v) t p l h)
  ]

  late_one :
      (t : Timed) (p : Playing) (l : Ledger)
      → ltb cutoff t.0 ≡ true
      → Still l (play_one py draw cutoff t p l)
  unfolding play_one
  late_one t p l h =
      Still-if l (is_event "scope-start" t.1 || is_event "scope-complete" t.1) (l, ok p)
        (continue (l, item "reservation_id" t.1) (play_local py draw cutoff t p)) (λ y. refl)
        (λ n.
          Still-continue l (item "reservation_id" t.1) (play_local py draw cutoff t p)
            (λ v. late_local t p v l h))

  abbrev IsLate : List Timed → Type 0
  IsLate [] = Unit
  IsLate (t ∷ ts) = (ltb cutoff t.0 ≡ true) × IsLate ts

  -- Events after the cutoff, in whatever order, leave the ledger as it is.
  play-late :
      (ts : List Timed) (p : Playing) (l : Ledger)
      → IsLate ts
      → Still l (play py draw cutoff ts p l)
  unfolding play
  play-late [] p l h = refl
  play-late (t ∷ ts) p l (h, hs) =
      Still-next l (play_one py draw cutoff t p l) (play py draw cutoff ts) (late_one t p l h)
        (λ q l' e. subst (λ k. (play py draw cutoff ts q k).0 ≡ l) (sym e) (play-late ts q l hs))

  abbrev pub timely : Timed → Bool
  timely t = not (ltb cutoff t.0)

  IsLate-rest : (u : ℕ) (ts : List Timed) → cutoff < u → Ascending u ts → IsLate ts
  IsLate-rest u [] h a = tt
  IsLate-rest u (t ∷ ts) h (b, a) =
      (lt→ltb cutoff t.0 (omega (arith, h, b)), IsLate-rest t.0 ts (omega (arith, h, b)) a)

  keep-late : (ts : List Timed) → IsLate ts → keep timely ts ≡ []
  unfolding keep
  keep-late [] h = refl
  keep-late (t ∷ ts) (h, hs) = rw h (keep-late ts hs)

  play-timely :
      (u : ℕ) (ts : List Timed) (p : Playing) (l : Ledger)
      → Ascending u ts
      → (play py draw cutoff ts p l).0 ≡ (play py draw cutoff (keep timely ts) p l).0
  unfolding play keep
  play-timely u [] p l a = refl
  play-timely u (t ∷ ts) p l (b, a) = elim (Bool-cases (ltb cutoff t.0)) [
    | inl y ↦
        let after = IsLate-rest t.0 ts (ltb→lt cutoff t.0 y) a in
        play-late (t ∷ ts) p l (y, after) ∙ rw (y, keep-late ts after) refl
    | inr n ↦ rw n (
        continue-same (play_one py draw cutoff t p l) (play py draw cutoff ts)
          (play py draw cutoff (keep timely ts)) (λ q l'. play-timely t.0 ts q l' a))
  ]

  -- A loop that returns on events in order returns on those up to the cutoff, with the same ledger.
  pub play-timely-ok :
      (u : ℕ) (ts : List Timed) (p q : Playing) (l l' : Ledger)
      → Ascending u ts
      → play py draw cutoff ts p l ≡ (l', ok q)
      → (q' : Playing) × (play py draw cutoff (keep timely ts) p l ≡ (l', ok q'))
  unfolding play keep continue
  play-timely-ok u [] p q l l' a h = (q, h)
  play-timely-ok u (t ∷ ts) p q l l' (b, a) h = elim (Bool-cases (ltb cutoff t.0)) [
    | inl y ↦
        let after = IsLate-rest t.0 ts (ltb→lt cutoff t.0 y) a in
        let same = sym (play-late (t ∷ ts) p l (y, after)) ∙ ap (λ r. r.0) h in
        (p, rw (y, keep-late ts after) (ap (λ k. (k, ok p)) same))
    | inr n ↦
        let (p₁, e, g) =
          continue-inv (play_one py draw cutoff t p l) (play py draw cutoff ts) l' q h in
        let l₁ = (play_one py draw cutoff t p l).0 in
        let (q', k) = play-timely-ok t.0 ts p₁ q l₁ l' a g in
        (
          q',
          rw n (
              subst (λ d. continue d (play py draw cutoff (keep timely ts)) ≡ (l', ok q'))
                (sym (ap (λ r. (l₁, r)) e)) k),
        )
  ]

-- Sorting the events puts them in the order of their times, and of those with any one key, a time
-- and whether something starts, it keeps all, adds none, and keeps the order; the ledger that the
-- loop over the sorted events leaves, also where it raises, is the one that those up to the cutoff
-- alone leave, in that order.
pub play-by_time :
    (py : Python) (draw : ℕ → Fresh) (cutoff : ℕ) (ts : List Timed) (p : Playing) (l : Ledger)
    (at : ℕ) (starting : Bool)
    → Ascending 0 (by_time ts)
      × (keep (has_key at starting) (by_time ts) ≡ keep (has_key at starting) ts)
      × ((play py draw cutoff (by_time ts) p l).0
          ≡ (play py draw cutoff (keep (λ t. not (ltb cutoff t.0)) (by_time ts)) p l).0)
play-by_time py draw cutoff ts p l at starting = (
  Ascending-by_time ts,
  keep-by_time at starting ts,
  play-timely py draw cutoff 0 (by_time ts) p l (Ascending-by_time ts),
)
