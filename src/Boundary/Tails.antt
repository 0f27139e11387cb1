-- ===== src/Boundary/Tails.antt =====
-- minireplay/boundary.py: what happens to an operation that the cutoff finds open.
use minireplayer.Prelude.{
  ℕ, String, ◌≡◌, refl, sym, ap, ◌∙◌, inl, inr, Bool, true, false, Option, none, some, Result, ok,
  raise, validation_error, if◌then◌else◌, elem, pair_eq, string_eq, Dict, remove, lookup,
  lookup-remove, beq_refl, Option-cases, subst,
}
use minireplayer.Json.{Fields, get}
use minireplayer.Boundary.{kind_eq, Python, Reservation, Ledger, continue}
use minireplayer.Boundary.Start.{Fresh}
use minireplayer.Boundary.Complete.{
  Completion, withheld, complete, complete_found, complete_reserved, finish, record_unless_late,
  write_completion, hold_truncated, ended_late, completion_response, build_record, active_under,
  identity, end_time, under, tag, as_text,
}
use minireplayer.Boundary.Life.{continue-lem, if_done-lem}

pub complete_found-active :
    (py : Python) (fresh : Fresh) (payload : Fields) (defer : Bool) (i : String) (r : Reservation)
    (l : Ledger)
    → (complete_found py fresh payload defer (some (i, r)) l).0.active ≡ remove i l.active
unfolding complete_found complete_reserved finish record_unless_late hold_truncated write_completion
complete_found-active py fresh payload defer i r l =
    let P : Ledger → Type 0 = λ l'. l'.active ≡ remove i l.active in
    continue-lem P (record l { active = remove i l.active }, end_time fresh r payload)
      (finish py r payload defer) refl
      (λ ended l₁ k₁.
        if_done-lem P (elem (identity r) l₁.truncated)
          (hold_truncated r payload ended l₁, ok withheld)
          (continue (l₁, build_record py l₁ r payload ended) (record_unless_late r ended defer)) k₁
          (continue-lem P (l₁, build_record py l₁ r payload ended)
            (record_unless_late r ended defer) k₁
            (λ written l₂ k₂.
              if_done-lem P (ended_late l₂ ended) (l₂, completion_response r true)
                (write_completion r written ended defer l₂, completion_response r false) k₂ k₂)))

lookup-remove_self : (i : String) (m : Dict String Reservation) → lookup i (remove i m) ≡ none
lookup-remove_self i m = rw (lookup-remove i i m, beq_refl i) refl

taken :
    (py : Python) (fresh : Fresh) (payload : Fields) (defer : Bool) (n : Option String) (l : Ledger)
    → under n (complete_found py fresh payload defer (under n l.active) l).0.active ≡ none
unfolding complete_found
taken py fresh payload defer none l = refl
taken py fresh payload defer (some i) l = elim (Option-cases (lookup i l.active)) [
  | inl h ↦ rw h (ap (tag i) h)
  | inr (r, h) ↦ rw h (
      ap (λ a. tag i (lookup i a)) (complete_found-active py fresh payload defer i r l)
      ∙ ap (tag i) (lookup-remove_self i l.active))
]

-- A reservation is completed once: whatever its first completion did, every later completion under
-- the same identifier raises a validation error and changes nothing.
pub complete-complete :
    (py : Python) (fresh fresh' : Fresh) (payload payload' : Fields) (defer defer' : Bool)
    (l : Ledger)
    → get "reservation_id" payload' ≡ get "reservation_id" payload
    → complete py fresh' payload' defer' (complete py fresh payload defer l).0
      ≡ ((complete py fresh payload defer l).0, raise validation_error)
unfolding complete active_under complete_found
complete-complete py fresh fresh' payload payload' defer defer' l h =
    let l' = (complete py fresh payload defer l).0 in
    ap (λ o. complete_found py fresh' payload' defer' o l')
      (ap (λ v. under (as_text v) l'.active) h
        ∙ taken py fresh payload defer (as_text (get "reservation_id" payload)) l)

-- what a completion that is held leaves alone, and the only response that it has
abbrev pub IsHeld : Ledger → Ledger × Result Completion → Type 0
IsHeld l done =
    ((c : Completion) → done.1 ≡ ok c → c ≡ withheld)
    × (done.0.ledgers ≡ l.ledgers)
    × (done.0.spans ≡ l.spans)
    × (done.0.completed ≡ l.completed)
    × (done.0.delivered ≡ l.delivered)

if-IsHeld :
    (l : Ledger) (b : Bool) (x y : Ledger × Result Completion)
    → b ≡ true
    → IsHeld l x
    → IsHeld l (if b then x else y)
if-IsHeld l true x y h k = k
if-IsHeld l false x y h k = cc

truncated-IsHeld :
    (py : Python) (r : Reservation) (payload : Fields) (defer : Bool) (m : Result ℕ) (l : Ledger)
    → elem (identity r) l.truncated ≡ true
    → IsHeld l (continue (l, m) (finish py r payload defer))
unfolding continue finish hold_truncated
truncated-IsHeld py r payload defer (raise e) l h = ((λ c k. cc), refl, refl, refl, refl)
truncated-IsHeld py r payload defer (ok ended) l h =
    if-IsHeld l (elem (identity r) l.truncated) (hold_truncated r payload ended l, ok withheld) _ h
      ((λ c k. cc), refl, refl, refl, refl)

found-IsHeld :
    (py : Python) (fresh : Fresh) (payload : Fields) (defer : Bool) (i : String) (r : Reservation)
    (l : Ledger)
    → elem (identity r) l.truncated ≡ true
    → IsHeld l (complete_found py fresh payload defer (some (i, r)) l)
unfolding complete_found complete_reserved
found-IsHeld py fresh payload defer i r l h =
    truncated-IsHeld py r payload defer (end_time fresh r payload)
      (record l { active = remove i l.active }) h

-- The completion of an operation that the cutoff found open, or of a composite tail, is held: no
-- response but the withheld one comes of it, and it writes no record and no span, and marks
-- nothing completed or delivered.
pub complete-IsHeld :
    (py : Python) (fresh : Fresh) (payload : Fields) (defer : Bool) (i : String) (r : Reservation)
    (l : Ledger)
    → active_under payload l ≡ some (i, r)
    → elem (identity r) l.truncated ≡ true
    → IsHeld l (complete py fresh payload defer l)
unfolding complete
complete-IsHeld py fresh payload defer i r l a h =
    subst (λ o. IsHeld l (complete_found py fresh payload defer o l)) (sym a)
      (found-IsHeld py fresh payload defer i r l h)
