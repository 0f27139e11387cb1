-- ===== src/LaneRecord/Tracked.antt =====
-- minireplayer/lane_record.py: the reservations of the loop, and the operations that the ledger has
-- active.
use minireplayer.Prelude.{
  ℕ, suc, ◌≤◌, ◌<◌, String, ◌≡◌, refl, sym, ap, ◌∙◌, inl, inr, Bool, true, false, ◌||◌, none, some,
  [], ◌∷◌, Dict, arith, elem, insert, lookup, lookup-insert, Bool-cases, Option-cases, ◌⊎◌,
  some_inj, subst, ◌==◌, string_eq,
}
use minireplayer.Boundary.{Reservation}
use minireplayer.LaneRecord.Materialize.{Playing, nothing_played}

-- `rid i` is the `i`-th identifier that is drawn. The reservations are numbered as they were
-- drawn, and the active ones are exactly those of what has started and has not completed.
pub record IsTracked (rid : ℕ → String) (p : Playing) (active : Dict String Reservation)
    : Type 0 where
  pub unused : (i : ℕ) → p.drawn ≤ i → lookup (rid i) active ≡ none
  pub numbered :
      (k n : String) → lookup k p.reservations ≡ some n → (i : ℕ) × (i < p.drawn) × (n ≡ rid i)
  pub apart :
      (j k n : String) → lookup j p.reservations ≡ some n → lookup k p.reservations ≡ some n → j ≡ k
  pub known :
      (k : String) → elem k p.started ≡ true → (n : String) × (lookup k p.reservations ≡ some n)
  pub begun : (k n : String) → lookup k p.reservations ≡ some n → elem k p.started ≡ true
  pub ended : (k : String) → elem k p.completed ≡ true → elem k p.started ≡ true
  pub is_open :
      (k n : String)
      → lookup k p.reservations ≡ some n
      → elem k p.completed ≡ false
      → (r : Reservation) × (lookup n active ≡ some r)
  pub is_closed :
      (k n : String)
      → lookup k p.reservations ≡ some n
      → elem k p.completed ≡ true
      → lookup n active ≡ none
  pub only :
      (n : String) (r : Reservation)
      → lookup n active ≡ some r
      → (k : String) × (lookup k p.reservations ≡ some n)

pub nothing-IsTracked : (rid : ℕ → String) → IsTracked rid nothing_played []
unfolding lookup elem
nothing-IsTracked rid = record {
  unused = λ i h. refl;
  numbered = λ k n h. cc;
  apart = λ j k n h g. cc;
  known = λ k h. cc;
  begun = λ k n h. cc;
  ended = λ k h. cc;
  is_open = λ k n h g. cc;
  is_closed = λ k n h g. cc;
  only = λ n r h. cc;
}

or_true : (b : Bool) → (b || true) ≡ true
or_true true = refl
or_true false = refl

pub true≢false : true ≡ false → ⊥
true≢false h = cc

pub none≢some {ℓ} : {A : Type ℓ} {a : A} → none ≡ some a → ⊥
none≢some h = cc

pub differs : (a b : String) → (a ≡ b → ⊥) → (a == b) ≡ false
differs a b h = elim (Bool-cases (a == b)) [
  | inl y ↦ absurd (h ((string_eq.beq_iff a b).0 y))
  | inr n ↦ n
]

module _ {V : Type 0} (j k : String) (v : V) (m : Dict String V) where
  insert_same : j ≡ k → lookup j (insert k v m) ≡ some v
  insert_same e = rw (lookup-insert j k v m, (string_eq.beq_iff j k).1 e) refl

  insert_other : (j == k) ≡ false → lookup j (insert k v m) ≡ lookup j m
  insert_other n = rw (lookup-insert j k v m, n) refl

module _ (rid : ℕ → String) (injective : (i j : ℕ) → rid i ≡ rid j → i ≡ j) where
  older : (i n : ℕ) → i < n → (rid i == rid n) ≡ false
  older i n h = differs (rid i) (rid n) (λ e. omega (arith, h, injective i n e))

  module _ (local : String) (r : Reservation) (p : Playing) (active : Dict String Reservation) where
    abbrev pub opened : Playing
    opened = record {
      reservations = insert local (rid p.drawn) p.reservations;
      started = local ∷ p.started;
      completed = p.completed;
      drawn = suc p.drawn;
    }

    new : IsTracked rid p active → elem local p.started ≡ false → lookup local p.reservations ≡ none
    new t f = elim (Option-cases (lookup local p.reservations)) [
      | inl n ↦ n
      | inr (n, e) ↦ absurd (true≢false (sym (t.begun local n e) ∙ f))
    ]

    opened-unused :
        IsTracked rid p active
        → (i : ℕ) → opened.drawn ≤ i
        → lookup (rid i) (insert (rid p.drawn) r active) ≡ none
    opened-unused t i h =
        insert_other (rid i) (rid p.drawn) r active
          (differs (rid i) (rid p.drawn) (λ e. omega (arith, h, injective i p.drawn e)))
        ∙ t.unused i (omega (arith, h))

    -- an entry of the reservations is the new one or one from before
    entry :
        (k n : String)
        → lookup k opened.reservations ≡ some n
        → ((k ≡ local) × (n ≡ rid p.drawn))
          ⊎ (((k == local) ≡ false) × (lookup k p.reservations ≡ some n))
    entry k n h = elim (Bool-cases (k == local)) [
      | inl y ↦
          let e = (string_eq.beq_iff k local).0 y in
          inl (e, some_inj (sym h ∙ insert_same k local (rid p.drawn) p.reservations e))
      | inr f ↦ inr (f, sym (insert_other k local (rid p.drawn) p.reservations f) ∙ h)
    ]

    old_number :
        IsTracked rid p active
        → (k n : String) → lookup k p.reservations ≡ some n
        → (n == rid p.drawn) ≡ false
    old_number t k n h =
        let (i, b, e) = t.numbered k n h in
        subst (λ m. (m == rid p.drawn) ≡ false) (sym e) (older i p.drawn b)

    opened-numbered :
        IsTracked rid p active
        → (k n : String) → lookup k opened.reservations ≡ some n
        → (i : ℕ) × (i < opened.drawn) × (n ≡ rid i)
    opened-numbered t k n h = elim (entry k n h) [
      | inl (e, q) ↦ (p.drawn, omega arith, q)
      | inr (f, g) ↦ let (i, b, q) = t.numbered k n g in (i, omega (arith, b), q)
    ]

    not_both :
        IsTracked rid p active
        → (k n : String) → lookup k p.reservations ≡ some n
        → n ≡ rid p.drawn
        → ⊥
    not_both t k n h e =
        true≢false (sym ((string_eq.beq_iff n (rid p.drawn)).1 e) ∙ old_number t k n h)

    opened-apart :
        IsTracked rid p active
        → (j k n : String) → lookup j opened.reservations ≡ some n
        → lookup k opened.reservations ≡ some n
        → j ≡ k
    opened-apart t j k n h g = elim (entry j n h) [
      | inl (e, q) ↦ elim (entry k n g) [
        | inl (e', q') ↦ e ∙ sym e'
        | inr (f, g') ↦ absurd (not_both t k n g' q)
      ]
      | inr (f, h') ↦ elim (entry k n g) [
        | inl (e', q') ↦ absurd (not_both t j n h' q')
        | inr (f', g') ↦ t.apart j k n h' g'
      ]
    ]

    opened-known :
        IsTracked rid p active
        → (k : String) → elem k opened.started ≡ true
        → (n : String) × (lookup k opened.reservations ≡ some n)
    unfolding elem
    opened-known t k h = elim (Bool-cases (k == local)) [
      | inl y ↦ (
        rid p.drawn,
        insert_same k local (rid p.drawn) p.reservations ((string_eq.beq_iff k local).0 y),
      )
      | inr f ↦
          let (n, e) = t.known k (rw f at h) in
          (n, insert_other k local (rid p.drawn) p.reservations f ∙ e)
    ]

    opened-begun :
        IsTracked rid p active
        → (k n : String) → lookup k opened.reservations ≡ some n
        → elem k opened.started ≡ true
    unfolding elem
    opened-begun t k n h = elim (entry k n h) [
      | inl (e, q) ↦ rw ((string_eq.beq_iff k local).1 e) refl
      | inr (f, g) ↦ rw (f, t.begun k n g) refl
    ]

    -- Opening an operation that has not started keeps the reservations tracked.
    pub IsTracked-open :
        IsTracked rid p active
        → elem local p.started ≡ false
        → IsTracked rid opened (insert (rid p.drawn) r active)
    unfolding elem
    IsTracked-open t f = record {
      unused = opened-unused t;
      numbered = opened-numbered t;
      apart = opened-apart t;
      known = opened-known t;
      begun = opened-begun t;
      ended = λ k h. rw (t.ended k h) (or_true (k == local));
      is_open = λ k n h g. elim (entry k n h) [
        | inl (e, q) ↦ (r, insert_same n (rid p.drawn) r active q)
        | inr (f', h') ↦
            let (r', e) = t.is_open k n h' g in
            (r', insert_other n (rid p.drawn) r active (old_number t k n h') ∙ e)
      ];
      is_closed = λ k n h g. elim (entry k n h) [
        | inl (e, q) ↦ absurd (true≢false (sym (t.ended k g) ∙ ap (λ x. elem x p.started) e ∙ f))
        | inr (f', h') ↦
            insert_other n (rid p.drawn) r active (old_number t k n h') ∙ t.is_closed k n h' g
      ];
      only = λ n x h. elim (Bool-cases (n == rid p.drawn)) [
        | inl y ↦ (
          local,
          insert_same local local (rid p.drawn) p.reservations refl
              ∙ ap some (sym ((string_eq.beq_iff n (rid p.drawn)).0 y)),
        )
        | inr f' ↦
            let (k, e) = t.only n x (sym (insert_other n (rid p.drawn) r active f') ∙ h) in
            (
              k,
              insert_other k local (rid p.drawn) p.reservations (
                    differs k local (λ q.
                      none≢some (sym (new t f) ∙ ap (λ z. lookup z p.reservations) (sym q) ∙ e)))
                  ∙ e,
            )
      ];
    }
