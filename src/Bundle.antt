-- ===== src/Bundle.antt =====
-- minireplayer/bundle.py: the tool calls of an answer, the tails of a recording, and the checks
-- that a bundle makes of them.
pub mod Calls
pub mod PreDispatch
pub mod Checks
pub mod Evident
pub mod Covered
pub mod Accepted
mod Tests
use minireplayer.Prelude.{
  String, Bool, true, false, ◌&&◌, Option, none, some, List, [], ◌∷◌, Result, ok, ◌>>=◌, nat_beq,
  nat_beq_iff, ◌≡◌, ◌↔◌, arith, Eq,
}
use minireplayer.Json.{Value, Fields, get, text?}
use minireplayer.Boundary.{Python, spell, item}
use minireplayer.Observation.{Index, front, back}

abbrev pub index_beq : Index → Index → Bool
index_beq (front a) (front b) = nat_beq a b
index_beq (back a) (back b) = nat_beq a b
index_beq _ _ = false

pub index_beq_iff : (i j : Index) → (index_beq i j ≡ true) ↔ (i ≡ j)
index_beq_iff (front a) (front b) = ground (arith, nat_beq_iff a b)
index_beq_iff (back a) (back b) = ground (arith, nat_beq_iff a b)
index_beq_iff (front a) (back b) = ground arith
index_beq_iff (back a) (front b) = ground arith

instance abbrev pub index_eq : Eq Index
index_eq = record { beq = index_beq; beq_iff = index_beq_iff }

-- What the module takes from Python: `int` of a value, `json.loads`, and the digest of an actor and
-- a call.
pub record Library : Type 0 where
  pub int_of : Value → Result Index
  pub loads : String → Option Value
  pub call_digest : String → String → String

-- an actor with a call of its
abbrev pub CallId : Type 0
CallId = String × String

abbrev pub cons_some : {A : Type 0} → Option A → List A → List A
cons_some none xs = xs
cons_some (some x) xs = x ∷ xs

-- the call that a record is of, where it names one
unfoldable pub call_of : Python → Fields → Result (Option CallId)
call_of py r = elim (text? (get "native_call_id" r)) [
  | none ↦ ok none
  | some call ↦ item "actor_id" r >>= λ actor. ok (some (spell py actor, call))
]

-- the calls that the records are of
unfoldable pub calls_of : Python → List Fields → Result (List CallId)
calls_of py [] = ok []
calls_of py (r ∷ rs) = do o ← call_of py r; rest ← calls_of py rs; ok (cons_some o rest)
