-- ===== src/Boundary/Account.antt =====
-- minireplay/boundary.py: the accounting of what a replay has consumed.
use minireplayer.Prelude.{
  ℕ, ◌-◌, String, Bool, true, false, not, ◌&&◌, ◌||◌, Option, none, some, List, [], ◌∷◌, ◌++◌, map,
  Dict, Result, ok, raise, mismatch_error, key_error, elem, all, any, keep, lookup, leb,
  if◌then◌else◌, ◌==◌, string_eq, pair_eq,
}
use minireplayer.Json.{Fields}
use minireplayer.Boundary.{kind_eq, Python, Identity, Key, Reservation, Ledger, identity_of}

-- whether an operation that started, if it did, has run for as long as is required of it
abbrev pub ran : ℕ → ℕ → Option ℕ → Bool
ran now required none = false
ran now required (some started) = leb required (now - started)

-- whether a tail was entered and has run for as long as the source saw it run
unfoldable pub served : ℕ → Ledger → Identity × ℕ → Bool
served now l (i, required) = ran now required (lookup i l.truncated_started)

-- what `expected_complete` asks of a recorded operation
unfoldable pub settled : Ledger → Identity → Bool
settled l i = elem i l.truncated || elem i l.delivered

unfoldable pub queue_settled : Python → Ledger → Key × List Fields → Bool
queue_settled py l (key, queue) = all (λ r. settled l (identity_of py key.0 r)) queue

-- `expected_complete`
unfoldable pub expected_complete : Python → ℕ → Ledger → Bool
expected_complete py now l =
    l.setting.replay
    && (all (queue_settled py l) l.expected && all (served now l) l.truncated_elapsed)

abbrev pub and_then : Result Bool → Result Bool → Result Bool
and_then (ok true) rest = rest
and_then (ok false) rest = ok false
and_then (raise e) rest = raise e

-- a loop that returns at the first `False` and may raise
unfoldable pub all_of : {A : Type 0} → (A → Result Bool) → List A → Result Bool
all_of test [] = ok true
all_of test (x ∷ xs) = and_then (test x) (all_of test xs)

-- the same with a required time from a table that may miss the operation
abbrev pub ran_for : ℕ → Option ℕ → Option ℕ → Result Bool
ran_for now started none = raise key_error
ran_for now started (some required) = ok (ran now required started)

-- what `actor_expected_complete` asks of a recorded operation
unfoldable pub actor_settled : ℕ → Ledger → Identity → Result Bool
actor_settled now l i =
    if elem i l.truncated
    then ran_for now (lookup i l.truncated_started) (lookup i l.truncated_elapsed)
    else ok (elem i l.delivered)

unfoldable pub actor_queue_settled : Python → ℕ → String → Ledger → Key × List Fields → Result Bool
actor_queue_settled py now actor l (key, queue) =
    if key.1.0 == actor
    then all_of (λ r. actor_settled now l (identity_of py key.0 r)) queue
    else ok true

-- `actor_expected_complete`
unfoldable pub actor_expected_complete : Python → ℕ → String → Ledger → Result Bool
actor_expected_complete py now actor l =
    if l.setting.replay then all_of (actor_queue_settled py now actor l) l.expected else ok false

abbrev pub is_some : Option ℕ → Bool
is_some none = false
is_some (some _) = true

-- what `actor_expected_prefix_consumed` asks of a recorded operation
unfoldable pub entered : Ledger → Identity → Bool
entered l i =
    if elem i l.truncated then is_some (lookup i l.truncated_started) else elem i l.completed

unfoldable pub actor_queue_entered : Python → String → Ledger → Key × List Fields → Bool
actor_queue_entered py actor l (key, queue) =
    not (key.1.0 == actor) || all (λ r. entered l (identity_of py key.0 r)) queue

-- `actor_expected_prefix_consumed`
unfoldable pub actor_expected_prefix_consumed : Python → String → Ledger → Bool
actor_expected_prefix_consumed py actor l =
    l.setting.replay && all (actor_queue_entered py actor l) l.expected

-- the recorded operations of all queues, by identity
unfoldable pub recorded : Python → Dict Key (List Fields) → List Identity
recorded py [] = []
recorded py ((key, queue) ∷ rest) = map (identity_of py key.0) queue ++ recorded py rest

abbrev pub reserved_identity : String × Reservation → Identity
reserved_identity (_, r) = (r.kind, r.record_id)

-- `outstanding`, in the order of the ledger in place of the order of the names
unfoldable pub missing : Python → Ledger → List Identity
missing py l = keep (λ i. not (settled l i)) (recorded py l.expected)

unfoldable pub evidence_not_delivered : Ledger → List Identity
evidence_not_delivered l = keep (λ i. not (elem i l.delivered)) l.completed

unfoldable pub unexpected_active : Ledger → List Identity
unexpected_active l = keep (λ i. not (elem i l.truncated)) (map reserved_identity l.active)

-- an entry of `truncated_progress`: the tail, whether it was entered, what is required of it and
-- how long it has run
unfoldable pub progress_of : ℕ → Ledger → Identity × ℕ → Identity × (Bool × (ℕ × ℕ))
progress_of now l (i, required) = elim (lookup i l.truncated_started) [
  | none ↦ (i, (false, (required, 0)))
  | some started ↦ (i, (true, (required, now - started)))
]

-- `truncated_progress`, in the order of the ledger
unfoldable pub truncated_progress : ℕ → Ledger → List (Identity × (Bool × (ℕ × ℕ)))
truncated_progress now l = map (progress_of now l) l.truncated_elapsed

abbrev pub is_empty : {A : Type 0} → List A → Bool
is_empty [] = true
is_empty (_ ∷ _) = false

-- `assert_consumed`
unfoldable pub assert_consumed : Python → Ledger → Result (Unit {0})
assert_consumed py l =
    if is_empty (missing py l) && is_empty (unexpected_active l)
    then ok tt
    else raise mismatch_error

-- `has_unexpected_active`
unfoldable pub has_unexpected_active : Ledger → Bool
has_unexpected_active l = any (λ i. not (elem i l.truncated)) (map reserved_identity l.active)
