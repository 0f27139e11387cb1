-- ===== src/Boundary.antt =====
-- minireplay/boundary.py: the ledger that every native operation crosses. Its state, the causal
-- lanes and the identity that a claim compares; the operations are in the modules below.
pub mod Claim
pub mod Start
pub mod Complete
pub mod Cutoff
pub mod Account
pub mod Serve
pub mod Order
pub mod Lanes
pub mod Life
pub mod Reach
pub mod Held
pub mod Tails
pub mod Freeze
pub mod Accounting
mod Tests
use Prim.Native.String.{◌++◌ as text_append}
use minireplayer.Prelude.{
  ℕ, String, ◌≡◌, ◌↔◌, Bool, true, false, not, ◌&&◌, ◌||◌, Option, none, some, List, [], ◌∷◌, ◌++◌,
  Dict, Eq, Result, ok, raise, key_error, validation_error, ◌>>=◌, nat_beq, nat_beq_iff, arith,
  elem, any, insert, lookup, lookup_or, if◌then◌else◌, ◌==◌, string_eq, pair_eq, option_eq,
}
use minireplayer.Json.{
  Value, Fields, null, str, get, has, get_or, text?, nat?, object_or_empty, is_text,
}
use minireplayer.Json.Text.{after_prefix}
use minireplayer.Json.Same.{same_all}
use minireplayer.Contracts.{Adapter, coral, Places}

pub data Kind : Type 0 where
  dispatch tool grader artifact : Kind

abbrev pub kind_number : Kind → ℕ
kind_number dispatch = 0
kind_number tool = 1
kind_number grader = 2
kind_number artifact = 3

abbrev pub kind_beq : Kind → Kind → Bool
kind_beq a b = nat_beq (kind_number a) (kind_number b)

pub kind_beq_iff : (a b : Kind) → (kind_beq a b ≡ true) ↔ (a ≡ b)
kind_beq_iff dispatch b = ground arith
kind_beq_iff tool b = ground arith
kind_beq_iff grader b = ground arith
kind_beq_iff artifact b = ground arith

instance abbrev pub kind_eq : Eq Kind
kind_eq = record { beq = kind_beq; beq_iff = kind_beq_iff }

-- the name of a kind in a message and in a record
unfoldable pub kind_text : Kind → String
kind_text dispatch = "dispatch"
kind_text tool = "tool"
kind_text grader = "grader"
kind_text artifact = "artifact"

-- `kind in _ID_FIELD`
unfoldable pub kind_of : Value → Option Kind
kind_of v =
    if is_text "dispatch" v
    then some dispatch
    else if is_text "tool" v
    then some tool
    else if is_text "grader" v
    then some grader
    else if is_text "artifact" v
    then some artifact
    else none

-- `_ID_FIELD`
unfoldable pub id_field : Kind → String
id_field dispatch = "dispatch_id"
id_field tool = "call_id"
id_field grader = "attempt_id"
id_field artifact = "event_id"

-- What the ledger takes from Python and from observation.py: `str` of a value that is no text, the
-- digest of a value, `str(Path(p).resolve())`, and the evidence of `project_result` on a result and
-- its contract, with the check of a contract.
pub record Python : Type 0 where
  pub repr : Value → String
  pub sha256_json : Value → String
  pub resolve : String → String
  pub validate_result_contract : Value → Result (Unit {0})
  pub project_result : Value → Value → Result Value

-- `str(value)`
unfoldable pub spell : Python → Value → String
spell py (str s) = s
spell py v = py.repr v

abbrev pub Identity : Type 0
Identity = Kind × String

-- kind, actor and lane
abbrev pub Key : Type 0
Key = Kind × (String × Option String)

pub record Reservation : Type 0 where
  pub kind : Kind
  pub record_id : String
  pub span_id : String
  pub actor_id : String
  pub lane : Option String
  pub started_at_ns : ℕ
  pub request : Fields
  pub expected : Option Fields

-- what the constructor fixes
pub record Setting : Type 0 where
  pub replay : Bool
  pub llm_only : Bool
  pub adapter : Adapter
  pub places : Places
  pub fast_claim : Bool
  pub causal_lanes_enabled : Bool

-- The state. `ledgers`, `spans` and `tail_runtime` are the lines that were appended to the files
-- of the stage directory.
pub record Ledger : Type 0 where
  pub setting : Setting
  pub active : Dict String Reservation
  pub expected : Dict Key (List Fields)
  pub cursor : Dict Key ℕ
  pub cutoff_expected : Dict Key (List Fields)
  pub cutoff_cursor : Dict Key ℕ
  pub cutoff_intercepted : List Identity
  pub completed : List Identity
  pub delivered : List Identity
  pub lane_of_record : Dict String (Option String)
  pub source_path_maps : Dict String (Dict String String)
  pub truncated : List Identity
  pub truncated_elapsed : Dict Identity ℕ
  pub truncated_started : Dict Identity ℕ
  pub source_cutoff_at_ns : Option ℕ
  pub ledgers : List (Kind × Fields)
  pub spans : List Fields
  pub tail_runtime : List Fields

-- An action that may raise keeps what it changed before.
abbrev pub Action : Type 0 → Type 0
Action A = Ledger → Ledger × Result A

-- the next part of an action, which an exception skips
unfoldable pub continue : {A B : Type 0} → Ledger × Result A → (A → Action B) → Ledger × Result B
continue (l, ok a) next = next a l
continue (l, raise e) next = (l, raise e)

-- `_identity_of`
unfoldable pub identity_of : Python → Kind → Fields → Identity
unfolding id_field spell
identity_of py kind r = (kind, spell py (get_or (id_field kind) (get "record_id" r) r))

abbrev pub is_coral : Adapter → Bool
is_coral coral = true
is_coral _ = false

-- `_dispatch_lane`
unfoldable pub dispatch_lane : Fields → Option String
dispatch_lane value =
    let origin = object_or_empty (get "origin" value) in
    let session = text? (get "session_id" value) in
    elim (text? (get "model_call_id" origin)) [
      | some call ↦ some (text_append "model-call:" call)
      | none ↦ elim (text? (get "trigger_id" origin)) [
        | some trigger ↦ some (
            text_append "session:" (
              text_append (elim session [ none ↦ "-" | some s ↦ s ])
                (text_append "|trigger:" trigger)))
        | none ↦ elim session [ none ↦ none | some s ↦ some (text_append "session:" s) ]
      ]
    ]

-- `self._lane_of_record.get(str(value.get("dispatch_id")))`
unfoldable pub lane_of_dispatch : Python → Ledger → Fields → Option String
lane_of_dispatch py l value = lookup_or (spell py (get "dispatch_id" value)) none l.lane_of_record

-- `_record_lane` and `_payload_lane`, which differ in nothing but the name of their argument
unfoldable pub lane_of : Python → Ledger → Kind → Fields → Option String
lane_of py l grader value = none
lane_of py l artifact value = none
lane_of py l dispatch value =
    if l.setting.causal_lanes_enabled
    then elim (text? (get "causal_lane" value)) [
      | some lane ↦ some lane
      | none ↦ dispatch_lane value
    ]
    else if is_coral l.setting.adapter
    then text? (get "session_id" value)
    else none
lane_of py l tool value =
    if l.setting.causal_lanes_enabled
    then elim (text? (get "causal_lane" value)) [
      | some lane ↦ some lane
      | none ↦ lane_of_dispatch py l value
    ]
    else if is_coral l.setting.adapter
    then lane_of_dispatch py l value
    else none

-- `record[key]`
unfoldable pub item : String → Fields → Result Value
item key r = if has key r then ok (get key r) else raise key_error

-- `claim_identity`
unfoldable pub claim_identity : Kind → Fields → Result (List Value)
claim_identity grader r = do a ← item "grader_kind" r; b ← item "implementation" r; ok (a ∷ b ∷ [])
claim_identity artifact r = do
  a ← item "logical_path" r
  b ← item "operation" r
  c ← item "version" r
  ok (a ∷ b ∷ c ∷ [])
claim_identity _ r = do a ← item "name" r; b ← item "arguments_sha256" r; ok (a ∷ b ∷ [])

-- `_issue_order`
unfoldable pub issue_order : Fields → Result ℕ
issue_order r = elim (nat? (get "started_at_ns" r)) [
  | some n ↦ ok n
  | none ↦ elim (nat? (get "source_started_at_ns" r)) [
    | some n ↦ ok n
    | none ↦ raise validation_error
  ]
]

-- `_model_call_id`
unfoldable pub model_call_id : Fields → Option String
model_call_id value = elim (text? (get "native_call_id" value)) [
  | some call ↦ some call
  | none ↦
      let origin = object_or_empty (get "origin" value) in
      elim (text? (get "model_call_id" origin)) [
        | some call ↦ some call
        | none ↦ elim (text? (get "causal_lane" value)) [
          | none ↦ none
          | some lane ↦ after_prefix "model-call:" lane
        ]
      ]
]
