-- ===== src/Forced/Audit/Steps.antt =====
-- minireplay/forced.py: the rounds of the reader and the requests that wait, in any order.
use minireplayer.Prelude.{ℕ, String, Option, string_eq, nat_eq}
use minireplayer.Json.{Value}
use minireplayer.Bytes.{Bytes}
use minireplayer.Forced.Audit.{Log, Reader, pump, wait_for_record, leave, time_out}
use minireplayer.Forced.Audit.Settled.{IsSettled}
use minireplayer.Forced.Audit.Leaving.{after_wait, leave-IsFair, time_out-IsFair, wait-IsFair}
use minireplayer.Forced.Audit.Waiting.{Asked, IsFair, pump-IsFair}

-- A step of the reader, with who has asked: a round of the pump, a new request, the end of a wait
-- whose future was settled, and the end of one that timed out.
pub data Step (r : Reader) (asked : Asked) : Reader → Asked → Type 0 where
  pumped : (loads : Bytes → Option Value) (f : Option Log) → Step r asked (pump loads f r) asked
  asks :
      (i : String) (future : ℕ)
      → Step r asked
          (wait_for_record i future r).0
          (after_wait (wait_for_record i future r).1 i future asked)
  answered : (i : String) (future : ℕ) → IsSettled future r → Step r asked (leave i future r) asked
  gave_up : (i : String) (future : ℕ) → Step r asked (time_out i future r) asked

pub data Steps (r : Reader) (asked : Asked) : Reader → Asked → Type 0 where
  start : Steps r asked r asked
  step : {s t : Reader} {a b : Asked} → Steps r asked s a → Step s a t b → Steps r asked t b

step-IsFair : (r s : Reader) (a b : Asked) → Step r a s b → IsFair r a → IsFair s b
step-IsFair r s a b (pumped loads f) h = pump-IsFair a loads f r h
step-IsFair r s a b (asks i future) h = wait-IsFair i future r a h
step-IsFair r s a b (answered i future x) h = leave-IsFair a i future r x h
step-IsFair r s a b (gave_up i future) h = time_out-IsFair a i future r h

-- Over every order of rounds, requests, answers and timeouts, from a fair state: no request waits for
-- a record that was published, and each request that had to wait still waits or its future was
-- settled, so that none is lost.
pub steps-IsFair :
    (r : Reader) (a : Asked) (s : Reader) (b : Asked) → Steps r a s b → IsFair r a → IsFair s b
steps-IsFair r a s b start h = h
steps-IsFair r a s b (step {s = t} {a = c} done next) h =
    step-IsFair t s c b next (steps-IsFair r a t c done h)
