-- ===== src/LaneRecord/Opened.antt =====
-- minireplayer/boundary.py: what `start` and `complete` make of the active reservations in record
-- mode, as the loop of minireplayer/lane_record.py meets them.
use minireplayer.Prelude.{
  ℕ, String, ◌≡◌, refl, sym, ap, ◌∙◌, inl, inr, Bool, true, false, Option, none, some, Exception,
  Result, ok, raise, ok_injective, insert, remove, lookup, elem, Bool-cases, subst, if◌then◌else◌,
  string_eq, pair_eq,
}
use minireplayer.Json.{Value, Fields, str, get}
use minireplayer.Boundary.{
  Kind, dispatch, tool, grader, artifact, kind_eq, Python, Reservation, Identity, Ledger, Action,
  continue, lane_of,
}
use minireplayer.Boundary.Start.{
  Fresh, Opened, opened, reserve, enter_tail, set_lane, admit, claim_and_admit, start_headed, start,
  heading, prepare, ids_for,
}
use minireplayer.Boundary.Complete.{
  Completion, withheld, complete, complete_found, complete_reserved, finish, record_unless_late,
  write_completion, hold_truncated, active_under, ended_late, completion_response, build_record,
  identity, end_time, under, as_text, tag,
}
use minireplayer.Boundary.Life.{continue-lem, if_done-lem}
use minireplayer.Boundary.Tails.{complete_found-active}

pub raised {ℓ} : {A : Type ℓ} {e : Exception} {a : A} → raise e ≡ ok a → ⊥
raised h = cc

pub otherwise {ℓ} :
    {A : Type ℓ} (b : Bool) (x y z : A) → b ≡ false → (if b then x else y) ≡ z → y ≡ z
otherwise true x y z h g = cc
otherwise false x y z h g = g

-- An action that returns has gone through its next part.
pub continue-inv :
    {A B : Type 0} (done : Ledger × Result A) (next : A → Action B) (l' : Ledger) (b : B)
    → continue done next ≡ (l', ok b)
    → (a : A) × (done.1 ≡ ok a) × (next a done.0 ≡ (l', ok b))
unfolding continue
continue-inv (l, ok a) next l' b h = (a, refl, h)
continue-inv (l, raise e) next l' b h = absurd (raised (ap (λ q. q.1) h))

set_lane-active :
    (kind : Kind) (i : String) (lane : Option String) (l : Ledger)
    → ((set_lane kind i lane l).active ≡ l.active) × ((set_lane kind i lane l).setting ≡ l.setting)
set_lane-active dispatch i lane l = (refl, refl)
set_lane-active tool i lane l = (refl, refl)
set_lane-active grader i lane l = (refl, refl)
set_lane-active artifact i lane l = (refl, refl)

enter_tail-active :
    (i : Identity) (now : ℕ) (l : Ledger)
    → ((enter_tail i now l).active ≡ l.active) × ((enter_tail i now l).setting ≡ l.setting)
unfolding enter_tail
enter_tail-active i now l = elim (Bool-cases (elem i l.truncated)) [
  | inl y ↦ rw y (refl, refl)
  | inr n ↦ rw n (refl, refl)
]

-- The ledger has one more operation active.
abbrev pub OneMore : String → Ledger → Ledger → Type 0
OneMore i l l' = ((r : Reservation) × (l'.active ≡ insert i r l.active)) × (l'.setting ≡ l.setting)

reserve-OneMore :
    (py : Python) (kind : Kind) (actor : String) (started : ℕ) (payload : Fields)
    (expected : Option Fields) (fresh : Fresh) (ids : String × String) (l : Ledger)
    → OneMore fresh.reservation_id l (reserve py kind actor started payload expected fresh ids l)
unfolding reserve
reserve-OneMore py kind actor started payload expected fresh ids l =
    let lane = lane_of py l kind payload in
    let (a, s) = set_lane-active kind ids.0 lane l in
    let (b, t) = enter_tail-active (kind, ids.0) fresh.now _ in
    ((_, b ∙ ap (insert fresh.reservation_id _) a), t ∙ s)

admit-OneMore :
    (py : Python) (kind : Kind) (actor : String) (started : ℕ) (payload : Fields) (fresh : Fresh)
    (l l' : Ledger) (o : Opened)
    → admit py kind actor started payload none fresh l ≡ (l', ok o)
    → (o.reservation_id ≡ fresh.reservation_id) × OneMore fresh.reservation_id l l'
unfolding admit opened
admit-OneMore py kind actor started payload fresh l l' o h =
    let (ids, g, k) = continue-inv (l, ids_for py kind payload none fresh) _ l' o h in
    (
      sym (ap (λ q. q.reservation_id) (ok_injective _ _ (ap (λ q. q.1) k))),
      subst (OneMore fresh.reservation_id l) (ap (λ q. q.0) k)
          (reserve-OneMore py kind actor started payload none fresh ids l),
    )

-- A start in record mode that answers has drawn the identifier of the reservation, and opened it.
pub start-OneMore :
    (py : Python) (llm : Option (Value → Option String)) (over : String → Bool) (fresh : Fresh)
    (payload : Fields) (l l' : Ledger) (o : Opened)
    → l.setting.replay ≡ false
    → start py llm over fresh payload l ≡ (l', ok o)
    → (o.reservation_id ≡ fresh.reservation_id) × OneMore fresh.reservation_id l l'
unfolding start start_headed claim_and_admit
start-OneMore py llm over fresh payload l l' o m h =
    let ((kind, (actor, started)), g, k) = continue-inv (l, heading fresh payload) _ l' o h in
    let (prepared, g', k') = continue-inv (l, prepare py llm kind payload) _ l' o k in
    admit-OneMore py kind actor started prepared fresh l l' o
      (otherwise l.setting.replay _ _ _ m k')

-- The ledger has one operation less active.
abbrev pub OneLess : String → Ledger → Ledger → Type 0
OneLess i l l' = (l'.active ≡ remove i l.active) × (l'.setting ≡ l.setting)

complete_found-setting :
    (py : Python) (fresh : Fresh) (payload : Fields) (defer : Bool) (i : String) (r : Reservation)
    (l : Ledger)
    → (complete_found py fresh payload defer (some (i, r)) l).0.setting ≡ l.setting
unfolding complete_found complete_reserved finish record_unless_late hold_truncated write_completion
complete_found-setting py fresh payload defer i r l =
    let P : Ledger → Type 0 = λ l'. l'.setting ≡ l.setting in
    continue-lem P (record l { active = remove i l.active }, end_time fresh r payload)
      (finish py r payload defer) refl
      (λ ended l₁ k₁.
        if_done-lem P (elem (identity r) l₁.truncated)
          (hold_truncated r payload ended l₁, ok withheld)
          (continue (l₁, build_record py l₁ r payload ended) (record_unless_late r ended defer)) k₁
          (continue-lem P (l₁, build_record py l₁ r payload ended)
            (record_unless_late r ended defer) k₁
            (λ written l₂ k₂.
              if_done-lem P (ended_late l₂ ended) (l₂, completion_response r true)
                (write_completion r written ended defer l₂, completion_response r false) k₂ k₂)))

found-OneLess :
    (py : Python) (fresh : Fresh) (payload : Fields) (defer : Bool) (i : String)
    (o : Option Reservation) (l l' : Ledger) (c : Completion)
    → complete_found py fresh payload defer (tag i o) l ≡ (l', ok c)
    → OneLess i l l'
unfolding complete_found
found-OneLess py fresh payload defer i none l l' c h = absurd (raised (ap (λ q. q.1) h))
found-OneLess py fresh payload defer i (some r) l l' c h = (
  sym (ap (λ q. q.0.active) h) ∙ complete_found-active py fresh payload defer i r l,
  sym (ap (λ q. q.0.setting) h) ∙ complete_found-setting py fresh payload defer i r l,
)

-- A completion that answers has taken the reservation that its payload names.
pub complete-OneLess :
    (py : Python) (fresh : Fresh) (payload : Fields) (defer : Bool) (i : String) (l l' : Ledger)
    (c : Completion)
    → get "reservation_id" payload ≡ str i
    → complete py fresh payload defer l ≡ (l', ok c)
    → OneLess i l l'
unfolding complete active_under
complete-OneLess py fresh payload defer i l l' c g h =
    found-OneLess py fresh payload defer i (lookup i l.active) l l' c (
      subst (λ v. complete_found py fresh payload defer (under (as_text v) l.active) l ≡ (l', ok c))
        g h)
