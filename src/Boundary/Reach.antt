-- ===== src/Boundary/Reach.antt =====
-- minireplay/boundary.py: every order of requests, completions, acknowledgements and the freeze at
-- a server of the boundary.
use minireplayer.Prelude.{
  ℕ, String, ◌≡◌, refl, sym, ap, Bool, true, false, Option, none, some, Result, ok, raise,
  validation_error, mismatch_error, workload_complete, infrastructure_error, key_error, value_error,
  runtime_error, assertion_error, attribute_error, type_error, elem, pair_eq, string_eq,
  if◌then◌else◌, subst,
}
use minireplayer.Json.{Value, Fields}
use minireplayer.Boundary.{Python, kind_eq, Identity}
use minireplayer.Boundary.Start.{Fresh, Opened, start}
use minireplayer.Boundary.Complete.{
  Completion, withheld, plain, no_replay, replayed, complete, mark_delivered,
}
use minireplayer.Boundary.Cutoff.{freeze_source_cutoff}
use minireplayer.Boundary.Serve.{
  Server, Phase, handle_start, handle_complete, acknowledge, answer_start, answer_complete, fail,
  first_failure,
}
use minireplayer.Boundary.Life.{
  IsKept, start-IsKept, complete-IsKept, freeze-IsKept, deliver-IsKept,
}

-- What a server does next. An acknowledgement may come at any time after its completion.
pub data Step (py : Python) : Server → Server → Type 0 where
  starts :
      (llm : Option (Value → Option String)) (over : String → Bool) (fresh : Fresh)
      (payload : Fields) {s : Server}
      → Step py s (handle_start py llm over fresh payload s).0
  completes :
      (fresh : Fresh) (payload : Fields) {s : Server}
      → Step py s (handle_complete py fresh payload s).0
  acknowledges : (i : Option Identity) {s : Server} → Step py s (acknowledge i s)
  freezes :
      (cutoff : ℕ) {s : Server}
      → Step py s (record s { ledger = (freeze_source_cutoff py cutoff s.ledger).0 })

pub data Steps (py : Python) : Server → Server → Type 0 where
  done : {s : Server} → Steps py s s
  next : {s t u : Server} → Step py s t → Steps py t u → Steps py s u

-- A handler answers with the ledger that its operation left, and keeps the first failure.
abbrev pub Keeps : Server → Server → Type 0
Keeps s t =
    (t.ledger ≡ s.ledger) × ((p : Phase) → s.hard_failure ≡ some p → t.hard_failure ≡ some p)

fail-Keeps : (phase : Phase) (s : Server) → Keeps s (fail phase s)
unfolding fail
fail-Keeps phase s = (refl, λ p h. ap (λ o. some (first_failure phase o)) h)

pub start-Keeps : (s : Server) (r : Result Opened) → Keeps s (answer_start s r).0
unfolding answer_start
start-Keeps s (ok response) = (refl, λ p h. h)
start-Keeps s (raise mismatch_error) = fail-Keeps _ s
start-Keeps s (raise workload_complete) = (refl, λ p h. h)
start-Keeps s (raise validation_error) = (refl, λ p h. h)
start-Keeps s (raise infrastructure_error) = (refl, λ p h. h)
start-Keeps s (raise key_error) = (refl, λ p h. h)
start-Keeps s (raise value_error) = (refl, λ p h. h)
start-Keeps s (raise runtime_error) = (refl, λ p h. h)
start-Keeps s (raise assertion_error) = (refl, λ p h. h)
start-Keeps s (raise attribute_error) = (refl, λ p h. h)
start-Keeps s (raise type_error) = (refl, λ p h. h)

pub complete-Keeps : (s : Server) (r : Result Completion) → Keeps s (answer_complete s r).0
unfolding answer_complete
complete-Keeps s (ok withheld) = (refl, λ p h. h)
complete-Keeps s (ok (plain dropped)) = (refl, λ p h. h)
complete-Keeps s (ok (no_replay dropped)) = (refl, λ p h. h)
complete-Keeps s (ok (replayed result exception)) = (refl, λ p h. h)
complete-Keeps s (raise mismatch_error) = fail-Keeps _ s
complete-Keeps s (raise workload_complete) = (refl, λ p h. h)
complete-Keeps s (raise validation_error) = (refl, λ p h. h)
complete-Keeps s (raise infrastructure_error) = (refl, λ p h. h)
complete-Keeps s (raise key_error) = (refl, λ p h. h)
complete-Keeps s (raise value_error) = (refl, λ p h. h)
complete-Keeps s (raise runtime_error) = (refl, λ p h. h)
complete-Keeps s (raise assertion_error) = (refl, λ p h. h)
complete-Keeps s (raise attribute_error) = (refl, λ p h. h)
complete-Keeps s (raise type_error) = (refl, λ p h. h)

acknowledge_if :
    (i : Identity) (s : Server) (b : Bool)
    → IsKept s.ledger
    → IsKept (if b then record s { ledger = (mark_delivered i s.ledger).0 } else s).ledger
acknowledge_if i s true k = deliver-IsKept i s.ledger k
acknowledge_if i s false k = k

acknowledge-Keeps :
    (i : Option Identity) (s : Server)
    → (p : Phase) → s.hard_failure ≡ some p
    → (acknowledge i s).hard_failure ≡ some p
unfolding acknowledge
acknowledge-Keeps none s p h = h
acknowledge-Keeps (some i) s p h = kept (elem i s.ledger.completed)
  where
    kept :
        (b : Bool)
        → (if b then record s { ledger = (mark_delivered i s.ledger).0 } else s).hard_failure
          ≡ some p
    kept true = h
    kept false = h

acknowledge-lem :
    (i : Option Identity) (s : Server)
    → IsKept s.ledger
    → IsKept (acknowledge i s).ledger
      × ((p : Phase) → s.hard_failure ≡ some p → (acknowledge i s).hard_failure ≡ some p)
unfolding acknowledge
acknowledge-lem none s k = (k, λ p h. h)
acknowledge-lem (some i) s k =
    (acknowledge_if i s (elem i s.ledger.completed) k, acknowledge-Keeps (some i) s)

-- One step of a server keeps its ledger in step, and its first failure.
Step-lem :
    (py : Python) {s t : Server}
    → Step py s t
    → IsKept s.ledger
    → IsKept t.ledger × ((p : Phase) → s.hard_failure ≡ some p → t.hard_failure ≡ some p)
unfolding handle_start handle_complete
Step-lem py (starts llm over fresh payload {s = s}) k =
    let r = start py llm over fresh payload s.ledger in
    let kept = start-Keeps (record s { ledger = r.0 }) r.1 in
    (subst IsKept (sym kept.0) (start-IsKept py llm over fresh payload s.ledger k), kept.1)
Step-lem py (completes fresh payload {s = s}) k =
    let r = complete py fresh payload true s.ledger in
    let kept = complete-Keeps (record s { ledger = r.0 }) r.1 in
    (subst IsKept (sym kept.0) (complete-IsKept py fresh payload true s.ledger k), kept.1)
Step-lem py (acknowledges i {s = s}) k = acknowledge-lem i s k
Step-lem py (freezes cutoff {s = s}) k = (freeze-IsKept py cutoff s.ledger k, λ p h. h)

-- Whatever requests, completions, acknowledgements and freezes a server takes in whatever order: no
-- operation is delivered that was not completed, each completion has written exactly one record
-- and one span, if this was so before, and the first failure that was noted stays.
pub Steps-IsKept :
    (py : Python) {s t : Server}
    → Steps py s t
    → IsKept s.ledger
    → IsKept t.ledger × ((p : Phase) → s.hard_failure ≡ some p → t.hard_failure ≡ some p)
Steps-IsKept py done k = (k, λ p h. h)
Steps-IsKept py (next step rest) k =
    let now = Step-lem py step k in
    let later = Steps-IsKept py rest now.0 in (later.0, λ p h. later.1 p (now.1 p h))
