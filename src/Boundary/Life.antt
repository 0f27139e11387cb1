-- ===== src/Boundary/Life.antt =====
-- minireplay/boundary.py: the marks, lines and spans that a server of the boundary keeps in step,
-- over every order of its requests and acknowledgements.
use minireplayer.Prelude.{
  ℕ, String, ◌≡◌, refl, sym, ap, ◌∙◌, inl, inr, Bool, true, false, Option, none, some, List, [],
  ◌∷◌, Result, ok, raise, validation_error, if◌then◌else◌, length, length-append, In, Subset, elem,
  In-of_elem, remove, pair_eq, string_eq, option_eq, arith, Dict, subst,
}
use minireplayer.Json.{Value, Fields}
use minireplayer.Boundary.{
  Kind, dispatch, tool, grader, artifact, kind_eq, Python, Identity, Key, Reservation, Ledger,
  Action, continue,
}
use minireplayer.Boundary.Claim.{claim, advance, intercept}
use minireplayer.Boundary.Order.{Claimed, granted, entered, blocked, refused, claim-Claimed}
use minireplayer.Boundary.Start.{
  Fresh, start, start_headed, claim_and_admit, admit, reserve, set_lane, enter_tail, heading,
  prepare, ids_for,
}
use minireplayer.Boundary.Complete.{
  withheld, complete, complete_found, complete_reserved, finish, record_unless_late,
  write_completion, hold_truncated, ended_late, completion_response, build_record, active_under,
  mark_delivered, identity, end_time, logical_arguments,
}
use minireplayer.Boundary.Cutoff.{freeze_source_cutoff, freeze_each, truncate}

-- what a ledger has completed, delivered, and written
abbrev Marks : Type 0
Marks = List Identity × (List Identity × (List (Kind × Fields) × List Fields))

abbrev marks : Ledger → Marks
marks l = (l.completed, (l.delivered, (l.ledgers, l.spans)))

-- with what it has truncated
abbrev Holds : Type 0
Holds = Marks × List Identity

abbrev holds : Ledger → Holds
holds l = (marks l, l.truncated)

-- Only completed operations are delivered, and each completion wrote one line and one span.
abbrev pub IsKept : Ledger → Type 0
IsKept l =
    Subset l.delivered l.completed
    × (length l.ledgers ≡ length l.completed)
    × (length l.spans ≡ length l.completed)

IsKept-of_marks : (l l' : Ledger) → marks l' ≡ marks l → IsKept l → IsKept l'
IsKept-of_marks l l' h k =
    subst (λ m. Subset m.1.0 m.0 × (length m.1.1.0 ≡ length m.0) × (length m.1.1.1 ≡ length m.0))
      (sym h) k

-- An action that keeps the marks, or what `P` says of them.
pub continue-lem :
    {A B : Type 0} (P : Ledger → Type 0) (done : Ledger × Result A) (next : A → Action B)
    → P done.0
    → ((a : A) (l : Ledger) → P l → P (next a l).0)
    → P (continue done next).0
unfolding continue
continue-lem P (l, ok a) next h k = k a l h
continue-lem P (l, raise e) next h k = h

claimed-holds :
    (py : Python) (key : Key) (l l' : Ledger) (r : Result Fields)
    → Claimed py key l l' r
    → holds l' ≡ holds l
unfolding advance intercept
claimed-holds py key l l' r (granted e h) = refl
claimed-holds py key l l' r (entered e g h c) = refl
claimed-holds py key l l' r (blocked e g h c) = refl
claimed-holds py key l l' r refused = refl

set_lane-holds :
    (kind : Kind) (i : String) (lane : Option String) (l : Ledger)
    → holds (set_lane kind i lane l) ≡ holds l
set_lane-holds dispatch i lane l = refl
set_lane-holds tool i lane l = refl
set_lane-holds grader i lane l = refl
set_lane-holds artifact i lane l = refl

if-holds :
    (b : Bool) (m : Holds) (x y : Ledger)
    → holds x ≡ m
    → holds y ≡ m
    → holds (if b then x else y) ≡ m
if-holds true m x y h k = h
if-holds false m x y h k = k

pub if_done-lem :
    {A : Type 0} (P : Ledger → Type 0) (b : Bool) (x y : Ledger × Result A)
    → P x.0
    → P y.0
    → P (if b then x else y).0
if_done-lem P true x y h k = h
if_done-lem P false x y h k = k

admit-holds :
    (py : Python) (kind : Kind) (actor : String) (started : ℕ) (payload : Fields)
    (expected : Option Fields) (fresh : Fresh) (l : Ledger)
    → holds (admit py kind actor started payload expected fresh l).0 ≡ holds l
unfolding admit reserve enter_tail
admit-holds py kind actor started payload expected fresh l =
    continue-lem (λ l'. holds l' ≡ holds l) (l, ids_for py kind payload expected fresh) _ refl
      (λ ids l₁ h.
        if-holds _ (holds l) _ _ (set_lane-holds kind _ _ l₁ ∙ h) (set_lane-holds kind _ _ l₁ ∙ h))

claim_and_admit-holds :
    (py : Python) (over : String → Bool) (kind : Kind) (actor : String) (started : ℕ)
    (payload : Fields) (fresh : Fresh) (l : Ledger)
    → holds (claim_and_admit py over kind actor started payload fresh l).0 ≡ holds l
unfolding claim_and_admit
claim_and_admit-holds py over kind actor started payload fresh l =
    if_done-lem (λ l'. holds l' ≡ holds l) l.setting.replay
      (continue (claim py over kind actor payload l)
        (λ expected. admit py kind actor started payload (some expected) fresh))
      (admit py kind actor started payload none fresh l)
      (continue-lem (λ l'. holds l' ≡ holds l) (claim py over kind actor payload l)
        (λ expected. admit py kind actor started payload (some expected) fresh)
        (claimed-holds py _ l _ _ (claim-Claimed py over kind actor payload l))
        (λ e l₃ h₃. admit-holds py kind actor started payload (some e) fresh l₃ ∙ h₃))
      (admit-holds py kind actor started payload none fresh l)

start-holds :
    (py : Python) (llm : Option (Value → Option String)) (over : String → Bool) (fresh : Fresh)
    (payload : Fields) (l : Ledger)
    → holds (start py llm over fresh payload l).0 ≡ holds l
unfolding start start_headed
start-holds py llm over fresh payload l =
    continue-lem (λ l'. holds l' ≡ holds l) (l, heading fresh payload)
      (start_headed py llm over fresh payload) refl
      (λ (kind, (actor, started)) l₁ h₁.
        continue-lem (λ l'. holds l' ≡ holds l) (l₁, prepare py llm kind payload)
          (λ prepared. claim_and_admit py over kind actor started prepared fresh) h₁
          (λ prepared l₂ h₂.
            claim_and_admit-holds py over kind actor started prepared fresh l₂ ∙ h₂))

freeze_each-marks :
    (py : Python) (cutoff : ℕ) (rs : Dict String Reservation) (l : Ledger)
    → marks (freeze_each py cutoff rs l).0 ≡ marks l
unfolding freeze_each truncate
freeze_each-marks py cutoff [] l = refl
freeze_each-marks py cutoff ((i, r) ∷ rest) l =
    continue-lem (λ l'. marks l' ≡ marks l) (truncate cutoff r l, logical_arguments py l r.request)
      _ refl
      (λ (arguments, workspace) l₁ h₁.
        continue-lem (λ l'. marks l' ≡ marks l) (freeze_each py cutoff rest l₁) _
          (freeze_each-marks py cutoff rest l₁ ∙ h₁) (λ tails l₂ h₂. h₂))

write-IsKept :
    (r : Reservation) (written : Fields) (ended : ℕ) (defer : Bool) (l : Ledger)
    → IsKept l
    → IsKept (write_completion r written ended defer l)
unfolding write_completion
write-IsKept r written ended true l (d, n, m) = (
  (λ a h. inr (d a h)),
  simp length-append (omega (arith, n)),
  simp length-append (omega (arith, m)),
)
write-IsKept r written ended false l (d, n, m) = (
  (λ a h. elim h [ inl e ↦ inl e | inr k ↦ inr (d a k) ]),
  simp length-append (omega (arith, n)),
  simp length-append (omega (arith, m)),
)

complete_found-IsKept :
    (py : Python) (fresh : Fresh) (payload : Fields) (defer : Bool)
    (found : Option (String × Reservation)) (l : Ledger)
    → IsKept l
    → IsKept (complete_found py fresh payload defer found l).0
unfolding complete_found complete_reserved finish record_unless_late hold_truncated
complete_found-IsKept py fresh payload defer none l k = k
complete_found-IsKept py fresh payload defer (some (i, r)) l k =
    continue-lem IsKept (record l { active = remove i l.active }, end_time fresh r payload)
      (finish py r payload defer) k
      (λ ended l₁ k₁.
        if_done-lem IsKept (elem (identity r) l₁.truncated)
          (hold_truncated r payload ended l₁, ok withheld)
          (continue (l₁, build_record py l₁ r payload ended) (record_unless_late r ended defer)) k₁
          (continue-lem IsKept (l₁, build_record py l₁ r payload ended)
            (record_unless_late r ended defer) k₁
            (λ written l₂ k₂.
              if_done-lem IsKept (ended_late l₂ ended) (l₂, completion_response r true)
                (write_completion r written ended defer l₂, completion_response r false) k₂
                (write-IsKept r written ended defer l₂ k₂))))

pub start-IsKept :
    (py : Python) (llm : Option (Value → Option String)) (over : String → Bool) (fresh : Fresh)
    (payload : Fields) (l : Ledger)
    → IsKept l
    → IsKept (start py llm over fresh payload l).0
start-IsKept py llm over fresh payload l k =
    IsKept-of_marks l (start py llm over fresh payload l).0
      (ap (λ h. h.0) (start-holds py llm over fresh payload l)) k

pub start-truncated :
    (py : Python) (llm : Option (Value → Option String)) (over : String → Bool) (fresh : Fresh)
    (payload : Fields) (l : Ledger)
    → (start py llm over fresh payload l).0.truncated ≡ l.truncated
start-truncated py llm over fresh payload l =
    ap (λ h. h.1) (start-holds py llm over fresh payload l)

pub complete-IsKept :
    (py : Python) (fresh : Fresh) (payload : Fields) (defer : Bool) (l : Ledger)
    → IsKept l
    → IsKept (complete py fresh payload defer l).0
unfolding complete
complete-IsKept py fresh payload defer l k =
    complete_found-IsKept py fresh payload defer (active_under payload l) l k

pub freeze-IsKept :
    (py : Python) (cutoff : ℕ) (l : Ledger) → IsKept l → IsKept (freeze_source_cutoff py cutoff l).0
unfolding freeze_source_cutoff
freeze-IsKept py cutoff l k =
    IsKept-of_marks l (freeze_source_cutoff py cutoff l).0 (freeze_each-marks py cutoff l.active _)
      k

deliver_if :
    (i : Identity) (l : Ledger) (b : Bool)
    → elem i l.completed ≡ b
    → IsKept l
    → IsKept
        (if◌then◌else◌ {A = Ledger × Result (Unit {0})} b
          (record l { delivered = i ∷ l.delivered }, ok tt)
          (l, raise validation_error)).0
deliver_if i l true h (d, n, m) = (
  (λ a w. elim w [
    | inl e ↦ subst (λ x. In x l.completed) (sym e) (In-of_elem i l.completed h)
    | inr v ↦ d a v
  ]),
  n,
  m,
)
deliver_if i l false h k = k

pub deliver-IsKept : (i : Identity) (l : Ledger) → IsKept l → IsKept (mark_delivered i l).0
unfolding mark_delivered
deliver-IsKept i l k = deliver_if i l (elem i l.completed) refl k
