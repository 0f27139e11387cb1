-- ===== src/Forced/Audit.antt =====
-- minireplay/forced.py, `ForcedAuditReader`: the reader of the engine's audit log, which hands each
-- record to the requests that wait for it. A future is a number, and what it was settled with is kept
-- in `settled`; one that was given up is settled with the error of its wait.
pub mod Pieces
pub mod Settled
pub mod Waiting
pub mod Leaving
pub mod Steps
mod Tests
use minireplayer.Prelude.{
  ℕ, String, Bool, true, false, Option, none, some, List, [], ◌∷◌, ◌++◌, Dict, Result, ok, raise,
  Exception, validation_error, mismatch_error, ◌>>=◌, ◌>>◌, require, raise_if, length, drop, keep,
  not, leb, elem, nat_beq, nat_eq, pair_eq, lookup, insert, remove, if◌then◌else◌, ◌==◌, string_eq,
}
use minireplayer.Json.{Value, Fields, str, obj, get, is_text, text?}
use minireplayer.Bytes.{Bytes, strip}
use minireplayer.Boundary.Account.{is_empty}

-- the log as it is when it is opened: device and inode, and its bytes
pub record Log : Type 0 where
  pub identity : ℕ × ℕ
  pub content : Bytes

pub record Reader : Type 0 where
  pub identity : Option (ℕ × ℕ)
  pub offset : ℕ
  pub partial : Bytes
  pub seen : Dict String Fields
  pub waiters : Dict String (List ℕ)
  pub settled : Dict ℕ (Result Fields)
  pub failure : Option Exception

abbrev reader_at : Option (ℕ × ℕ) → ℕ → Reader
reader_at identity offset = record {
  identity = identity;
  offset = offset;
  partial = [];
  seen = [];
  waiters = [];
  settled = [];
  failure = none;
}

-- the constructor, given the log if it is there
unfoldable pub new_reader : Bool → Option Log → Reader
new_reader start_at_end none = reader_at none 0
new_reader start_at_end (some f) =
    reader_at (some f.identity) (if start_at_end then length f.content else 0)

abbrev pub extend_line : ℕ → List Bytes × Bytes → List Bytes × Bytes
extend_line c ([], rest) = ([], c ∷ rest)
extend_line c (line ∷ lines, rest) = ((c ∷ line) ∷ lines, rest)

-- `split(b"\n")` with its last part, which no line feed ends, apart
unfoldable pub split_lines : Bytes → List Bytes × Bytes
split_lines [] = ([], [])
split_lines (c ∷ s) =
    let later = split_lines s in
    if nat_beq c 10 then ([] ∷ later.0, later.1) else extend_line c later

abbrev pub record_of : Option Value → Result Fields
record_of (some (obj d)) = ok d
record_of _ = raise validation_error

-- the loop over the lines; `loads` is `json.loads`, which a line may not survive
unfoldable pub parse_lines : (Bytes → Option Value) → List Bytes → Result (List Fields)
parse_lines loads [] = ok []
parse_lines loads (raw ∷ lines) =
    let later = parse_lines loads lines in
    if is_empty (strip raw)
    then later
    else (record_of (loads raw) >>= λ d. later >>= λ ds. ok (d ∷ ds))

-- the part of `_read_new_records` that looks at what is new
unfoldable pub take_chunk : (Bytes → Option Value) → Bytes → Reader → Reader × Result (List Fields)
take_chunk loads [] r = (r, ok [])
take_chunk loads (c ∷ chunk) r =
    let (lines, rest) = split_lines (r.partial ++ c ∷ chunk) in
    (record r { partial = rest }, parse_lines loads lines)

abbrev pub same_file : Option (ℕ × ℕ) → ℕ × ℕ → Bool
same_file none i = true
same_file (some j) i = i == j

-- `_read_new_records` of a log that is there
unfoldable pub read_log : (Bytes → Option Value) → Log → Reader → Reader × Result (List Fields)
read_log loads f r =
    if same_file r.identity f.identity
    then (let known = record r { identity = some f.identity } in
        if leb r.offset (length f.content)
        then take_chunk loads (drop r.offset f.content) (record known { offset = length f.content })
        else (known, raise validation_error))
    else (r, raise validation_error)

-- `_read_new_records`
unfoldable pub read_new_records :
    (Bytes → Option Value) → Option Log → Reader → Reader × Result (List Fields)
read_new_records loads none r = (r, ok [])
read_new_records loads (some f) r = read_log loads f r

abbrev pub settle_if_open : Option (Result Fields) → ℕ → Result Fields → Reader → Reader
settle_if_open none future x r = record r { settled = insert future x r.settled }
settle_if_open (some y) future x r = r

-- `if not future.done(): future.set_result(record)`, or `set_exception`
unfoldable pub settle : ℕ → Result Fields → Reader → Reader
settle future x r = settle_if_open (lookup future r.settled) future x r

unfoldable pub settle_all : List ℕ → Result Fields → Reader → Reader
settle_all [] x r = r
settle_all (future ∷ futures) x r = settle_all futures x (settle future x r)

abbrev pub futures_of : Option (List ℕ) → List ℕ
futures_of none = []
futures_of (some futures) = futures

-- a record whose identifier was checked
unfoldable pub publish_as : String → Fields → Reader → Reader
publish_as i d r =
    settle_all (futures_of (lookup i r.waiters)) (ok d)
      (record r { seen = insert i d r.seen; waiters = remove i r.waiters })

abbrev pub publish_new : Option Fields → String → Fields → Reader → Reader × Result (Unit {0})
publish_new none i d r = (publish_as i d r, ok tt)
publish_new (some e) i d r = (r, raise validation_error)

abbrev pub publish_named : Option String → Fields → Reader → Reader × Result (Unit {0})
publish_named none d r = (r, raise validation_error)
publish_named (some i) d r = publish_new (lookup i r.seen) i d r

-- the body of the loop of `_publish`
unfoldable pub publish_one : Fields → Reader → Reader × Result (Unit {0})
publish_one d r =
    if is_text "native-agent-replay.vllm-audit/v4" (get "schema_version" d)
    then publish_named (text? (get "request_id" d)) d r
    else (r, raise validation_error)

abbrev pub then_publish :
    Reader × Result (Unit {0}) → (Reader → Reader × Result (Unit {0})) → Reader × Result (Unit {0})
then_publish (r, ok _) rest = rest r
then_publish (r, raise e) rest = (r, raise e)

-- `_publish`
unfoldable pub publish : List Fields → Reader → Reader × Result (Unit {0})
publish [] r = (r, ok tt)
publish (d ∷ ds) r = then_publish (publish_one d r) (publish ds)

-- every future of every waiter
unfoldable pub all_futures : Dict String (List ℕ) → List ℕ
all_futures [] = []
all_futures ((i, futures) ∷ rest) = futures ++ all_futures rest

-- the handler of `_pump` for a failure of the reader
unfoldable pub fail : Exception → Reader → Reader
fail e r =
    settle_all (all_futures r.waiters) (raise e) (record r { failure = some e; waiters = [] })

abbrev pub pump_published : Reader × Result (Unit {0}) → Reader
pump_published (r, ok _) = r
pump_published (r, raise e) = fail e r

abbrev pub pump_read : Reader × Result (List Fields) → Reader
pump_read (r, ok ds) = pump_published (publish ds r)
pump_read (r, raise e) = fail e r

-- one round of `_pump`
unfoldable pub pump : (Bytes → Option Value) → Option Log → Reader → Reader
pump loads f r = pump_read (read_new_records loads f r)

abbrev pub wait_unless_seen : Option Fields → String → ℕ → Reader → Reader × Option (Result Fields)
wait_unless_seen (some d) i future r = (r, some (ok d))
wait_unless_seen none i future r =
    (record r { waiters = insert i (future ∷ futures_of (lookup i r.waiters)) r.waiters }, none)

abbrev pub wait_unless_failed :
    Option Exception → String → ℕ → Reader → Reader × Option (Result Fields)
wait_unless_failed (some e) i future r = (r, some (raise e))
wait_unless_failed none i future r = wait_unless_seen (lookup i r.seen) i future r

-- the start of `_wait_for_record`: an answer at once, or a future that waits (`none`)
unfoldable pub wait_for_record : String → ℕ → Reader → Reader × Option (Result Fields)
wait_for_record i future r = wait_unless_failed r.failure i future r

abbrev pub without : ℕ → List ℕ → List ℕ
without future futures = keep (λ f. not (nat_beq f future)) futures

abbrev pub keep_waiters : String → List ℕ → Reader → Reader
keep_waiters i [] r = record r { waiters = remove i r.waiters }
keep_waiters i (f ∷ fs) r = record r { waiters = insert i (f ∷ fs) r.waiters }

abbrev pub leave_some : String → ℕ → Option (List ℕ) → Reader → Reader
leave_some i future none r = r
leave_some i future (some futures) r = keep_waiters i (without future futures) r

-- the end of `_wait_for_record`, whether the future was answered or given up
unfoldable pub leave : String → ℕ → Reader → Reader
leave i future r = leave_some i future (lookup i r.waiters) r

-- `asyncio.wait_for` that times out
unfoldable pub time_out : String → ℕ → Reader → Reader
time_out i future r = leave i future (settle future (raise mismatch_error) r)
