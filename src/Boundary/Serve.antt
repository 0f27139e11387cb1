-- ===== src/Boundary/Serve.antt =====
-- minireplay/boundary.py: `handle_start`, `handle_complete` and `_fail`. A handler that awaits is
-- cut there: `acknowledge` is what `handle_complete` does after its response was written.
use minireplayer.Prelude.{
  String, Bool, true, Option, none, some, Result, ok, raise, mismatch_error, workload_complete,
  Exception, elem, if◌then◌else◌, pair_eq, string_eq,
}
use minireplayer.Json.{Value, Fields}
use minireplayer.Boundary.{kind_eq, Python, Identity, Ledger}
use minireplayer.Boundary.Start.{Fresh, Opened, start}
use minireplayer.Boundary.Complete.{
  Completion, withheld, active_under, complete, mark_delivered, identity,
}

pub data Phase : Type 0 where
  starting completing : Phase

-- the ledger and the first failure that its handlers met
pub record Server : Type 0 where
  pub ledger : Ledger
  pub hard_failure : Option Phase

-- What the client sees: a response, nothing ever, a conflict with status 409, or the exception
-- that the handler does not catch.
pub data Reply (A : Type 0) : Type 0 where
  reply : A → Reply A
  held conflict : Reply A
  crashed : Exception → Reply A

-- `_fail`: only the first failure is kept
abbrev pub first_failure : Phase → Option Phase → Phase
first_failure phase none = phase
first_failure phase (some first) = first

unfoldable pub fail : Phase → Server → Server
fail phase s = record s { hard_failure = some (first_failure phase s.hard_failure) }

-- the answer of `handle_start` to what `start` did
unfoldable pub answer_start : Server → Result Opened → Server × Reply Opened
answer_start s (ok response) = (s, reply response)
answer_start s (raise mismatch_error) = (fail starting s, conflict)
answer_start s (raise workload_complete) = (s, held)
answer_start s (raise e) = (s, crashed e)

-- `handle_start`
unfoldable pub handle_start :
    Python
    → Option (Value → Option String)
    → (String → Bool)
    → Fresh
    → Fields
    → Server
    → Server × Reply Opened
handle_start py llm over fresh payload s =
    let done = start py llm over fresh payload s.ledger in
    answer_start (record s { ledger = done.0 }) done.1

-- the operation that a completion would deliver
unfoldable pub delivery_identity : Fields → Ledger → Option Identity
delivery_identity payload l = elim (active_under payload l) [
  | none ↦ none
  | some (_, r) ↦ some (identity r)
]

unfoldable pub answer_complete : Server → Result Completion → Server × Reply Completion
answer_complete s (ok withheld) = (s, held)
answer_complete s (ok response) = (s, reply response)
answer_complete s (raise mismatch_error) = (fail completing s, conflict)
answer_complete s (raise e) = (s, crashed e)

-- `handle_complete` up to the writing of its response
unfoldable pub handle_complete : Python → Fresh → Fields → Server → Server × Reply Completion
handle_complete py fresh payload s =
    let done = complete py fresh payload true s.ledger in
    answer_complete (record s { ledger = done.0 }) done.1

-- `handle_complete` after `write_eof`, for the operation that it noted first
unfoldable pub acknowledge : Option Identity → Server → Server
acknowledge none s = s
acknowledge (some i) s =
    if elem i s.ledger.completed then record s { ledger = (mark_delivered i s.ledger).0 } else s
