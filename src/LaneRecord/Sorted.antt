-- ===== src/LaneRecord/Sorted.antt =====
-- minireplayer/lane_record.py: sorting the events loses none, adds none, and keeps the order of those
-- with one key.
use minireplayer.Prelude.{
  ℕ, ◌≡◌, refl, ap, ◌∙◌, inl, inr, Bool, true, false, not, ◌&&◌, List, [], ◌∷◌, arith, nat_beq,
  keep, In, subst, if◌then◌else◌, In-keep, In-of_keep, Bool-cases, nat_beq_iff,
}
use minireplayer.LaneRecord.Events.{Timed, starts_something, event_leb, place_event, by_time}

abbrev bool_beq : Bool → Bool → Bool
bool_beq true b = b
bool_beq false b = not b

-- the events with one key: a time, and whether something starts
abbrev pub has_key : ℕ → Bool → Timed → Bool
has_key at starting t = nat_beq at t.0 && bool_beq starting (starts_something t.1)

one_key :
    (at : ℕ) (starting : Bool) (t x : Timed)
    → has_key at starting t ≡ true
    → event_leb t x ≡ false
    → has_key at starting x ≡ false
unfolding event_leb
one_key at true t x h g = ground arith
one_key at false t x h g = ground arith

module _ (p : Timed → Bool)
    (apart : (t x : Timed) → p t ≡ true → event_leb t x ≡ false → p x ≡ false) where
  keep-place_event : (t : Timed) (ts : List Timed) → keep p (place_event t ts) ≡ keep p (t ∷ ts)
  unfolding place_event keep
  keep-place_event t [] = refl
  keep-place_event t (x ∷ xs) =
      let whole = keep-place_event t xs in
      elim (Bool-cases (event_leb t x)) [
        | inl y ↦ rw y refl
        | inr n ↦ elim (Bool-cases (p t)) [
          | inl k ↦
              let ih : keep p (place_event t xs) ≡ t ∷ keep p xs = rw k at whole in
              rw (n, k, apart t x k n) ih
          | inr k ↦
              let ih : keep p (place_event t xs) ≡ keep p xs = rw k at whole in rw (n, k, ih) refl
        ]
      ]

  keep-by_time_if : (ts : List Timed) → keep p (by_time ts) ≡ keep p ts
  unfolding by_time keep
  keep-by_time_if [] = refl
  keep-by_time_if (t ∷ ts) =
      keep-place_event t (by_time ts) ∙ ap (λ xs. if p t then t ∷ xs else xs) (keep-by_time_if ts)

-- The events with one key are the same before and after the sorting, in the same order.
pub keep-by_time :
    (at : ℕ) (starting : Bool) (ts : List Timed)
    → keep (has_key at starting) (by_time ts) ≡ keep (has_key at starting) ts
keep-by_time at starting = keep-by_time_if (has_key at starting) (one_key at starting)

own_key : (t : Timed) → has_key t.0 (starts_something t.1) t ≡ true
own_key t = rw ((nat_beq_iff t.0 t.0).1 refl) (same (starts_something t.1))
  where
    same : (b : Bool) → bool_beq b b ≡ true
    same true = refl
    same false = refl

pub In-of_by_time : (t : Timed) (ts : List Timed) → In t (by_time ts) → In t ts
In-of_by_time t ts m =
    let p = has_key t.0 (starts_something t.1) in
    (In-of_keep p t ts (
      subst (In t) (keep-by_time t.0 (starts_something t.1) ts)
        (In-keep p t (by_time ts) m (own_key t)))).0
