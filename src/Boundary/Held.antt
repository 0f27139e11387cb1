-- ===== src/Boundary/Held.antt =====
-- minireplayer/boundary.py: an operation that a freeze found open stays a truncated one, whatever comes
-- before its completion.
use minireplayer.Prelude.{
  ℕ, String, ◌≡◌, refl, sym, inl, Bool, true, false, Option, none, some, ok, raise, In, elem,
  elem_of_In, remove, subst, List, ◌∷◌, validation_error, pair_eq, string_eq, if◌then◌else◌, Subset,
}
use minireplayer.Json.{Fields}
use minireplayer.Boundary.{kind_eq, Python, Identity, Reservation, Ledger, continue}
use minireplayer.Boundary.Start.{Fresh, start}
use minireplayer.Boundary.Complete.{
  withheld, complete, complete_found, complete_reserved, finish, record_unless_late,
  write_completion, hold_truncated, ended_late, completion_response, build_record, active_under,
  identity, end_time, mark_delivered,
}
use minireplayer.Boundary.Cutoff.{freeze_source_cutoff}
use minireplayer.Boundary.Freeze.{freeze-IsFrozen, freeze-Subset, under-some}
use minireplayer.Boundary.Life.{continue-lem, if_done-lem, start-truncated}
use minireplayer.Boundary.Reach.{
  Step, Steps, starts, completes, acknowledges, freezes, done, next, start-Keeps, complete-Keeps,
}
use minireplayer.Boundary.Serve.{Server, handle_start, handle_complete, acknowledge}
use minireplayer.Boundary.Tails.{IsHeld, complete-IsHeld}

complete_found-truncated :
    (py : Python) (fresh : Fresh) (payload : Fields) (defer : Bool)
    (found : Option (String × Reservation)) (l : Ledger)
    → (complete_found py fresh payload defer found l).0.truncated ≡ l.truncated
unfolding complete_found complete_reserved finish record_unless_late hold_truncated write_completion
complete_found-truncated py fresh payload defer none l = refl
complete_found-truncated py fresh payload defer (some (i, r)) l =
    let P : Ledger → Type 0 = λ l'. l'.truncated ≡ l.truncated in
    continue-lem P (record l { active = remove i l.active }, end_time fresh r payload)
      (finish py r payload defer) refl
      (λ ended l₁ k₁.
        if_done-lem P (elem (identity r) l₁.truncated)
          (hold_truncated r payload ended l₁, ok withheld)
          (continue (l₁, build_record py l₁ r payload ended) (record_unless_late r ended defer)) k₁
          (continue-lem P (l₁, build_record py l₁ r payload ended)
            (record_unless_late r ended defer) k₁
            (λ written l₂ k₂.
              if_done-lem P (ended_late l₂ ended) (l₂, completion_response r true)
                (write_completion r written ended defer l₂, completion_response r false) k₂ k₂)))

deliver-truncated : (i : Identity) (l : Ledger) → (mark_delivered i l).0.truncated ≡ l.truncated
unfolding mark_delivered
deliver-truncated i l =
    if_done-lem (λ l'. l'.truncated ≡ l.truncated) (elem i l.completed)
      (record l { delivered = i ∷ l.delivered }, ok tt) (l, raise validation_error) refl refl

acknowledge-truncated :
    (i : Option Identity) (s : Server) → (acknowledge i s).ledger.truncated ≡ s.ledger.truncated
unfolding acknowledge
acknowledge-truncated none s = refl
acknowledge-truncated (some i) s = marked (elem i s.ledger.completed)
  where
    marked :
        (b : Bool)
        → (if b then record s { ledger = (mark_delivered i s.ledger).0 } else s).ledger.truncated
          ≡ s.ledger.truncated
    marked true = deliver-truncated i s.ledger
    marked false = refl

Step-Subset :
    (py : Python) {s t : Server} → Step py s t → Subset s.ledger.truncated t.ledger.truncated
unfolding handle_start handle_complete complete
Step-Subset py (starts llm over fresh payload {s = s}) i m =
    let r = start py llm over fresh payload s.ledger in
    subst (λ l. In i l.truncated) (sym (start-Keeps (record s { ledger = r.0 }) r.1).0)
      (subst (In i) (sym (start-truncated py llm over fresh payload s.ledger)) m)
Step-Subset py (completes fresh payload {s = s}) i m =
    let r = complete py fresh payload true s.ledger in
    subst (λ l. In i l.truncated) (sym (complete-Keeps (record s { ledger = r.0 }) r.1).0)
      (subst (In i)
        (sym
          (complete_found-truncated py fresh payload true (active_under payload s.ledger) s.ledger))
        m)
Step-Subset py (acknowledges a {s = s}) i m = subst (In i) (sym (acknowledge-truncated a s)) m
Step-Subset py (freezes cutoff {s = s}) i m = freeze-Subset py cutoff s.ledger i m

Steps-Subset :
    (py : Python) {s t : Server} → Steps py s t → Subset s.ledger.truncated t.ledger.truncated
Steps-Subset py done i m = m
Steps-Subset py (next step rest) i m = Steps-Subset py rest i (Step-Subset py step i m)

-- An operation that was active at a freeze that answered, and that is still active under the same
-- reservation after whatever requests, completions, acknowledgements and freezes came in whatever
-- order, is held when it completes then: it gets no response but the withheld one, and leaves no
-- record, span or mark.
pub freeze-IsHeld :
    (py : Python) (cutoff : ℕ) (s : Server) {t : Server} (tails : List Fields) (fresh : Fresh)
    (payload : Fields) (defer : Bool) (i : String) (r : Reservation)
    → (freeze_source_cutoff py cutoff s.ledger).1 ≡ ok tails
    → Steps py (record s { ledger = (freeze_source_cutoff py cutoff s.ledger).0 }) t
    → active_under payload s.ledger ≡ some (i, r)
    → active_under payload t.ledger ≡ some (i, r)
    → IsHeld t.ledger (complete py fresh payload defer t.ledger)
unfolding active_under
freeze-IsHeld py cutoff s {t = t} tails fresh payload defer i r h run a b =
    let frozen = (freeze-IsFrozen py cutoff s.ledger tails h).0 in
    complete-IsHeld py fresh payload defer i r t.ledger b (
      elem_of_In (identity r) t.ledger.truncated (
        Steps-Subset py run (identity r)
          (frozen.2 (identity r) (inl (under-some _ s.ledger.active i r a)))))
