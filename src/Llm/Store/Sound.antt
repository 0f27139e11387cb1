-- ===== src/Llm/Store/Sound.antt =====
-- minireplay/llm_store.py: what a replay keeps, whatever the order of its steps.
use native.Mathlib.Numerals.{unary_clauses}
use minireplayer.Prelude.{
  ℕ, zero, suc, ◌+◌, String, ◌≡◌, refl, sym, ap, ◌∙◌, subst, inl, inr, Bool, true, false, some,
  List, [], ◌∷◌, ◌++◌, Result, Exception, workload_complete, take, get_elem?, lookup_or, insert,
  lookup_or-insert, lookup-insert, In, In-append_left, In-append_right, Bool-cases, elem,
  if◌then◌else◌, ◌==◌, string_eq, pair_eq, Eq, Dict,
}
use minireplayer.Json.{Fields}
use minireplayer.Boundary.{Python}
use minireplayer.Llm.Slot.{Slot}
use minireplayer.Llm.Store.{RequestIdentity, Lane, key, Store, is_forced}
use minireplayer.Llm.Store.Claim.{advance, mark_session}
use minireplayer.Llm.Store.Replay.{
  tail, serve, refuse, handle, decide, write_replay_attempt, write_evidence, deliver,
  hold_truncated,
}
use minireplayer.Llm.Store.Lanes.{queue, place, Claimed, granted, refused, marked, claim-Claimed}
use minireplayer.Llm.Store.Run.{
  World, accept, Step, request, served, sent, engine_failed, client_gone, Steps, start, step,
  Passed, IsSound,
}

In-take_suc : {A : Type 0} (n : ℕ) (xs : List A) (x : A) → In x (take n xs) → In x (take (n + 1) xs)
In-take_suc zero xs x m = absurd m
In-take_suc (suc n) [] x m = absurd m
In-take_suc (suc n) (y ∷ xs) x (inl e) = simp unary_clauses (inl e)
In-take_suc (suc n) (y ∷ xs) x (inr m) =
    simp unary_clauses (inr (simp unary_clauses at (In-take_suc n xs x m)))

In-take_next :
    {A : Type 0} (n : ℕ) (xs : List A) (x : A) → get_elem? xs n ≡ some x → In x (take (n + 1) xs)
In-take_next n [] x h = cc
In-take_next zero (y ∷ xs) x h = inl cc
In-take_next (suc n) (y ∷ xs) x h =
    simp unary_clauses (inr (simp unary_clauses at (In-take_next n xs x h)))

module _ {K V : Type 0} ⦃e : Eq K⦄ (k j : K) (m : Dict K ℕ) where
  -- a lane that moves on by one keeps what it has passed
  In-take-insert :
      (q : List V) (x : V)
      → In x (take (lookup_or k 0 m) q)
      → In x (take (lookup_or k 0 (insert j (lookup_or j 0 m + 1) m)) q)
  In-take-insert q x h =
      rw (lookup_or-insert k j 0 (lookup_or j 0 m + 1) m) (elim (Bool-cases (e.beq k j)) [
        | inl y ↦ rw y (
            subst (λ i. In x (take (lookup_or i 0 m + 1) q)) ((e.beq_iff k j).0 y)
              (In-take_suc _ q x h))
        | inr n ↦ rw n h
      ])

  In-take_here :
      (q : List V) (x : V)
      → get_elem? q (lookup_or j 0 m) ≡ some x
      → In x (take (lookup_or j 0 (insert j (lookup_or j 0 m + 1) m)) q)
  In-take_here q x h =
      rw (lookup_or-insert j j 0 (lookup_or j 0 m + 1) m, (e.beq_iff j j).1 refl)
        (In-take_next _ q x h)

-- the lanes have moved on, and markers were written
abbrev moved : Dict Lane ℕ → List (String × String) → Store → Store
moved m l s = record s { replay_sequence = m; sessions = l }

abbrev Keeps : Dict Lane ℕ → Store → Type 0
Keeps m s =
    (e : Slot) (k : Lane)
    → In e (take (place k s) (queue k s))
    → In e (take (lookup_or k 0 m) (queue k s))

moved-IsSound :
    (w : World) (m : Dict Lane ℕ) (l : List (String × String))
    → Keeps m w.store
    → IsSound w
    → IsSound (record w { store = moved m l w.store })
moved-IsSound w m l k (a, (b, (c, (d, t)))) = (
  (λ e h. let (j, p) = a e h in (j, k e j p)),
  (
    b,
    (
      (λ i h. let (e, q, (j, p), v) = c i h in (e, q, (j, k e j p), v)),
      (d, λ i n h. let (e, q, (j, p)) = t i n h in (e, q, (j, k e j p))),
    ),
  ),
)

-- A request that was handed over joins those that are served.
serving-IsSound :
    (w : World) (e : Slot)
    → Passed w.store e
    → IsSound w
    → IsSound (record w { serving = e ∷ w.serving })
serving-IsSound w e p (a, rest) =
    ((λ x h. elim h [ inl q ↦ subst (Passed w.store) (sym q) p | inr m ↦ a x m ]), rest)

-- a tail that is held is one that was handed over
tail-IsSound :
    (w : World) (now later : ℕ) (e : Slot)
    → Passed w.store e
    → IsSound w
    → IsSound (record w { store = hold_truncated now later e w.store })
unfolding hold_truncated
tail-IsSound w now later e p (a, (b, (c, (d, t)))) = (
  a,
  (
    b,
    (
      c,
      (
        d,
        λ i n h. elim (Bool-cases (i == e.attempt_id)) [
          | inl y ↦ (e, (string_eq.beq_iff i e.attempt_id).0 y, p)
          | inr f ↦
              t i n (rw f at (sym (lookup-insert i e.attempt_id now w.store.truncated_started) ∙ h))
        ],
      ),
    ),
  ),
)

refuse-IsSound :
    (now later : ℕ) (s : Store) (x : Exception) (w : World)
    → IsSound (record w { store = s })
    → IsSound (accept now later (s, refuse x) w)
unfolding accept
refuse-IsSound now later s workload_complete w h = h
refuse-IsSound now later s _ w h = h

module _ (py : Python) (i : RequestIdentity) (body : Fields) (api : String) (now later : ℕ)
    (w : World) where
  granted-IsSound :
      (b : Bool) (engine : Bool) (e : Slot) (s : Store)
      → Passed s e
      → IsSound (record w { store = s })
      → IsSound (accept now later (s, (if b then tail e else serve engine e)) w)
  unfolding accept
  granted-IsSound true engine e s p h = tail-IsSound (record w { store = s }) now later e p h
  granted-IsSound false engine e s p h = serving-IsSound (record w { store = s }) e p h

  claimed-IsSound :
      (s : Store) (r : Result Slot)
      → Claimed py i body api w.store s r
      → IsSound w
      → IsSound (accept now later (decide (s, r)) w)
  unfolding advance mark_session
  claimed-IsSound s r (granted e at a b) h =
      granted-IsSound (elem e.attempt_id w.store.truncated) (is_forced w.store.setting.replay_mode)
        e (advance (key i) w.store)
        (key i, In-take_here (key i) (key i) w.store.replay_sequence _ e at)
        (moved-IsSound w _ w.store.sessions
          (λ x k. In-take-insert k (key i) w.store.replay_sequence _ x) h)
  claimed-IsSound s r (refused x) h = refuse-IsSound now later w.store x w h
  claimed-IsSound s r (marked c) h =
      refuse-IsSound now later (mark_session i w.store) workload_complete w (
        moved-IsSound w w.store.replay_sequence ((i.actor_id, i.session_id) ∷ w.store.sessions)
          (λ x k m. m) h)

In-middle :
    {A : Type 0} (before later : List A) (x e : A)
    → In x (before ++ later)
    → In x (before ++ e ∷ later)
In-middle [] later x e m = inr m
In-middle (y ∷ before) later x e (inl q) = inl q
In-middle (y ∷ before) later x e (inr m) = inr (In-middle before later x e m)

In-at : {A : Type 0} (before later : List A) (e : A) → In e (before ++ e ∷ later)
In-at [] later e = inl refl
In-at (y ∷ before) later e = inr (In-at before later e)

module _ (py : Python) (w : World) where
  step-IsSound : (u : World) → Step py w u → IsSound w → IsSound u
  unfolding handle write_evidence write_replay_attempt deliver
  step-IsSound u (request over i body api now later) h =
      claimed-IsSound py i body api now later w _ _ (claim-Claimed py i body api w.store over) h
  step-IsSound u (served i started ended before later e q) (a, (b, (c, (d, t)))) = (
    (λ x m. a x (subst (In x) (sym q) (In-middle before later x e m))),
    (
      (λ x m. elim m [ inl y ↦ inl (ap (λ (z : Slot). z.attempt_id) y) | inr n ↦ inr (b x n) ]),
      (
        λ j m. elim m [
          | inl y ↦ (
            e,
            y,
            a e (subst (In e) (sym q) (In-at before later e)),
            (
              w.store.setting.replay_mode,
              started,
              ended,
              In-append_right _ w.store.attempts _ (inl refl),
            ),
          )
          | inr n ↦
              let (x, y, p, (k, s, v, o)) = c j n in
              (x, y, p, (k, s, v, In-append_left _ w.store.attempts _ o))
        ],
        (λ j m. inr (d j m), t),
      ),
    ),
  )
  step-IsSound u (sent before later e q) (a, (b, (c, (d, t)))) = (
    a,
    (
      (λ x m. b x (subst (In x) (sym q) (In-middle before later x e m))),
      (
        c,
        (
          (λ j m. elim m [
            | inl y ↦
                subst (λ k. In k w.store.completed) (sym y)
                  (b e (subst (In e) (sym q) (In-at before later e)))
            | inr n ↦ d j n
          ]),
          t,
        ),
      ),
    ),
  )
  step-IsSound u (engine_failed before later e q) (a, rest) =
      (λ x m. a x (subst (In x) (sym q) (In-middle before later x e m)), rest)
  step-IsSound u (client_gone before later e q) (a, (b, rest)) =
      (a, (λ x m. b x (subst (In x) (sym q) (In-middle before later x e m)), rest))

-- Along every run of a replay, from a sound state: what is being served was handed over by its lane,
-- what was completed was handed over and has its line in llm.jsonl, and what is delivered or being
-- sent was completed.
pub steps-IsSound : (py : Python) (w u : World) → Steps py w u → IsSound w → IsSound u
steps-IsSound py w u start h = h
steps-IsSound py w u (step {v} s t) h = step-IsSound py v u t (steps-IsSound py w v s h)
