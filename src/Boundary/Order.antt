-- ===== src/Boundary/Order.antt =====
-- minireplay/boundary.py: `_claim` hands the recorded operations of a lane over in their order.
use minireplayer.Prelude.{
  ℕ, String, ◌≡◌, refl, Bool, true, false, Option, none, some, List, [], Result, ok, raise,
  mismatch_error, workload_complete, get_elem?, lookup_or, if◌then◌else◌, pair_eq, string_eq,
  option_eq,
}
use minireplayer.Json.{Fields}
use minireplayer.Boundary.{Kind, kind_eq, Python, Key, Ledger, lane_of}
use minireplayer.Boundary.Claim.{
  claim, claim_at, claim_past, claim_closed, claim_tail, on_match, advance, intercept, matches,
  tail_matches, is_composite,
}

-- the queue of a lane, the tails of a lane, and the place in each
abbrev pub queue : Key → Ledger → List Fields
queue key l = lookup_or key [] l.expected

abbrev pub place : Key → Ledger → ℕ
place key l = lookup_or key 0 l.cursor

abbrev pub tails : Key → Ledger → List Fields
tails key l = lookup_or key [] l.cutoff_expected

abbrev pub tail_place : Key → Ledger → ℕ
tail_place key l = lookup_or key 0 l.cutoff_cursor

-- the lane of a call
abbrev pub key_of : Python → Kind → String → Fields → Ledger → Key
key_of py kind actor payload l = (kind, (actor, lane_of py l kind payload))

-- What a claim of a lane can do to the ledger.
pub data Claimed (py : Python) (key : Key) (l : Ledger) : Ledger → Result Fields → Type 0 where
  granted :
      (e : Fields)
      → get_elem? (queue key l) (place key l) ≡ some e
      → Claimed py key l (advance key l) (ok e)
  entered :
      (e : Fields)
      → get_elem? (queue key l) (place key l) ≡ none
      → get_elem? (tails key l) (tail_place key l) ≡ some e
      → is_composite e ≡ true
      → Claimed py key l (intercept py key e l) (ok e)
  blocked :
      (e : Fields)
      → get_elem? (queue key l) (place key l) ≡ none
      → get_elem? (tails key l) (tail_place key l) ≡ some e
      → is_composite e ≡ false
      → Claimed py key l (intercept py key e l) (raise workload_complete)
  refused : {e : _} → Claimed py key l l (raise e)

module _ (py : Python) (key : Key) (l : Ledger) where
  abbrev Fits : Ledger × Result Fields → Type 0
  Fits done = Claimed py key l done.0 done.1

  on_match-Claimed :
      (m : Result Bool) (done : Ledger × Result Fields) → Fits done → Fits (on_match m done l)
  on_match-Claimed (ok true) done h = h
  on_match-Claimed (ok false) done h = refused
  on_match-Claimed (raise e) done h = refused

  if-Claimed :
      (b : Bool) (x y : Ledger × Result Fields) → Fits x → Fits y → Fits (if b then x else y)
  if-Claimed true x y h k = h
  if-Claimed false x y h k = k

  over-Claimed :
      (b : Bool) → Claimed py key l l (if b then raise workload_complete else raise mismatch_error)
  over-Claimed true = refused
  over-Claimed false = refused

  enter-Claimed :
      (e : Fields)
      → get_elem? (queue key l) (place key l) ≡ none
      → get_elem? (tails key l) (tail_place key l) ≡ some e
      → (b : Bool) → is_composite e ≡ b
      → Claimed py key l (intercept py key e l) (if b then ok e else raise workload_complete)
  enter-Claimed e g h true c = entered e g h c
  enter-Claimed e g h false c = blocked e g h c

  past-Claimed :
      (over : String → Bool) (payload : Fields) (o : Option Fields)
      → get_elem? (queue key l) (place key l) ≡ none
      → get_elem? (tails key l) (tail_place key l) ≡ o
      → Fits (claim_past py over key payload o l)
  unfolding claim_past claim_tail
  past-Claimed over payload (some e) g h =
      on_match-Claimed (tail_matches py l key.0 payload e) _
        (enter-Claimed e g h (is_composite e) refl)
  past-Claimed over payload none g h = over-Claimed _

  at-Claimed :
      (over : String → Bool) (payload : Fields) (o : Option Fields)
      → get_elem? (queue key l) (place key l) ≡ o
      → Fits (claim_at py over key payload o l)
  unfolding claim_at claim_closed
  at-Claimed over payload (some e) h =
      if-Claimed l.setting.fast_claim _ _ (granted e h)
        (on_match-Claimed (matches py l key.0 payload e) _ (granted e h))
  at-Claimed over payload none h = past-Claimed over payload _ h refl

-- A claim hands over the record at the place of its lane and moves that place on by one; or, for a
-- lane whose closed work is done, enters a composite tail or holds the request at another tail; or
-- raises and leaves the ledger as it was. No tail is reached while closed work is left.
pub claim-Claimed :
    (py : Python) (over : String → Bool) (kind : Kind) (actor : String) (payload : Fields)
    (l : Ledger)
    → Claimed py
        (key_of py kind actor payload l)
        l
        (claim py over kind actor payload l).0
        (claim py over kind actor payload l).1
unfolding claim
claim-Claimed py over kind actor payload l =
    at-Claimed py (key_of py kind actor payload l) l over payload _ refl
