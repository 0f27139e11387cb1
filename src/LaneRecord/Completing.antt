-- ===== src/LaneRecord/Completing.antt =====
-- minireplayer/lane_record.py: the reservations of the loop after a completion.
use minireplayer.Prelude.{
  ℕ, String, ◌≡◌, refl, sym, ap, ◌∙◌, inl, inr, true, false, none, some, ◌∷◌, Dict, elem, remove,
  lookup, lookup-remove, Bool-cases, some_inj, subst, ◌==◌, string_eq,
}
use minireplayer.Boundary.{Reservation}
use minireplayer.LaneRecord.Materialize.{Playing, note_completed}
use minireplayer.LaneRecord.Tracked.{IsTracked, true≢false, none≢some, differs}

-- What the completion of an operation leaves of the active ones.
module _ (rid : ℕ → String) (local n : String) (p : Playing)
    (active : Dict String Reservation) where
  removed_same : (m : String) → m ≡ n → lookup m (remove n active) ≡ none
  removed_same m e = rw (lookup-remove m n active, (string_eq.beq_iff m n).1 e) refl

  removed_other : (m : String) → (m == n) ≡ false → lookup m (remove n active) ≡ lookup m active
  removed_other m f = rw (lookup-remove m n active, f) refl

  still_none : (m : String) → lookup m active ≡ none → lookup m (remove n active) ≡ none
  still_none m h = elim (Bool-cases (m == n)) [
    | inl y ↦ removed_same m ((string_eq.beq_iff m n).0 y)
    | inr f ↦ removed_other m f ∙ h
  ]

  another :
      IsTracked rid p active
      → lookup local p.reservations ≡ some n
      → (k m : String) → lookup k p.reservations ≡ some m
      → (k == local) ≡ false
      → (m == n) ≡ false
  another t l k m h f = differs m n (λ e. true≢false (
      sym (
        (string_eq.beq_iff k local).1
          (t.apart k local n (subst (λ x. lookup k p.reservations ≡ some x) e h) l))
      ∙ f))

  closed-open :
      IsTracked rid p active
      → lookup local p.reservations ≡ some n
      → (k m : String) → lookup k p.reservations ≡ some m
      → elem k (local ∷ p.completed) ≡ false
      → (r : Reservation) × (lookup m (remove n active) ≡ some r)
  unfolding elem
  closed-open t l k m h g = elim (Bool-cases (k == local)) [
    | inl y ↦ absurd (true≢false (rw y at g))
    | inr f ↦
        let (r, e) = t.is_open k m h (rw f at g) in (r, removed_other m (another t l k m h f) ∙ e)
  ]

  closed-closed :
      IsTracked rid p active
      → lookup local p.reservations ≡ some n
      → (k m : String) → lookup k p.reservations ≡ some m
      → elem k (local ∷ p.completed) ≡ true
      → lookup m (remove n active) ≡ none
  unfolding elem
  closed-closed t l k m h g = elim (Bool-cases (k == local)) [
    | inl y ↦
        removed_same m (
          some_inj
            (sym h ∙ ap (λ x. lookup x p.reservations) ((string_eq.beq_iff k local).0 y) ∙ l))
    | inr f ↦ still_none m (t.is_closed k m h (rw f at g))
  ]

  closed-ended :
      IsTracked rid p active
      → lookup local p.reservations ≡ some n
      → (k : String) → elem k (local ∷ p.completed) ≡ true
      → elem k p.started ≡ true
  unfolding elem
  closed-ended t l k g = elim (Bool-cases (k == local)) [
    | inl y ↦ ap (λ x. elem x p.started) ((string_eq.beq_iff k local).0 y) ∙ t.begun local n l
    | inr f ↦ t.ended k (rw f at g)
  ]

  -- Completing an operation that is open keeps the reservations tracked.
  pub IsTracked-close :
      IsTracked rid p active
      → lookup local p.reservations ≡ some n
      → IsTracked rid (note_completed local p) (remove n active)
  unfolding note_completed
  IsTracked-close t l = record {
    unused = λ i h. still_none (rid i) (t.unused i h);
    numbered = t.numbered;
    apart = t.apart;
    known = t.known;
    begun = t.begun;
    ended = closed-ended t l;
    is_open = closed-open t l;
    is_closed = closed-closed t l;
    only = λ m r h. t.only m r (elim (Bool-cases (m == n)) [
      | inl y ↦ absurd (none≢some (sym (removed_same m ((string_eq.beq_iff m n).0 y)) ∙ h))
      | inr f ↦ sym (removed_other m f) ∙ h
    ]);
  }
