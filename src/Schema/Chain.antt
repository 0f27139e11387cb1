-- ===== src/Schema/Chain.antt =====
-- minireplayer/schema.py: `validate_artifact_graph`, over the fields of an artifact event that
-- `validate_artifact` has checked.
pub mod Sorted
pub mod Versions
pub mod Producers
mod Tests
use Prim.Native.Nat.{Ordering}
use Prim.Native.String.{compare as compare_text}
use minireplayer.Prelude.{
  ℕ, ◌+◌, String, Bool, true, false, ◌&&◌, ◌||◌, Option, none, some, List, [], ◌∷◌, Dict, Result,
  ok, raise, validation_error, ◌>>=◌, ◌>>◌, require, lookup, lookup_or, insert, nat_beq, ltb,
  if◌then◌else◌, ◌==◌, string_eq,
}

pub data Operation : Type 0 where
  create write read : Operation

pub record Event : Type 0 where
  pub event_id : String
  pub operation : Operation
  pub logical_path : String
  pub version : ℕ
  pub bytes_sha256 : String
  pub read_from : Option String
  pub completed_at_ns : ℕ

abbrev pub text_leb : String → String → Bool
text_leb a b = elim (compare_text a b) [ Ordering.gt ↦ false | _ ↦ true ]

-- `<=` on the pairs `(completed_at_ns, event_id)`
unfoldable pub key_leb : Event → Event → Bool
key_leb a b =
    ltb a.completed_at_ns b.completed_at_ns
    || (nat_beq a.completed_at_ns b.completed_at_ns && text_leb a.event_id b.event_id)

unfoldable pub place : Event → List Event → List Event
place e [] = e ∷ []
place e (x ∷ xs) = let rest = place e xs in if key_leb e x then e ∷ x ∷ xs else x ∷ rest

-- `sorted(events, key=...)`, which keeps the order of equal keys
unfoldable pub in_order : List Event → List Event
in_order [] = []
in_order (e ∷ es) = place e (in_order es)

-- what is kept of a producer: its path, its digest and its version
abbrev pub Product : Type 0
Product = String × (String × ℕ)

abbrev pub product_of : Event → Product
product_of e = (e.logical_path, (e.bytes_sha256, e.version))

abbrev found_under : Dict String Product → Option String → Option Product
found_under producers none = none
found_under producers (some source) = lookup source producers

-- a read: its producer has committed what it read
abbrev pub check_read : Option Product → Event → Result (Unit {0})
check_read none e = raise validation_error
check_read (some (path, (digest, version))) e = do
  require (path == e.logical_path)
  require (digest == e.bytes_sha256)
  require (nat_beq version e.version)

-- the loop over the events in order, with the last version of each path and the producers
unfoldable pub walk : Dict String ℕ → Dict String Product → List Event → Result (Unit {0})
walk versions producers [] = ok tt
walk versions producers (e ∷ es) = elim e.operation [
  | read ↦ check_read (found_under producers e.read_from) e >> walk versions producers es
  | _ ↦
      require (nat_beq e.version (lookup_or e.logical_path 0 versions + 1))
      >> walk (insert e.logical_path (lookup_or e.logical_path 0 versions + 1) versions)
          (insert e.event_id (product_of e) producers) es
]

-- `validate_artifact_graph`
unfoldable pub validate_artifact_graph : List Event → Result (Unit {0})
validate_artifact_graph events = walk [] [] (in_order events)
