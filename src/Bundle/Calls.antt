-- ===== src/Bundle/Calls.antt =====
-- minireplayer/bundle.py: `_response_tool_calls`, which puts the tool calls of a plain or streamed
-- answer together.
use Prim.Native.String.{◌++◌}
use minireplayer.Prelude.{
  ℕ, suc, String, Option, none, some, List, [], ◌∷◌, Dict, Result, ok, raise, validation_error,
  ◌>>=◌, insert, lookup_or, if◌then◌else◌, ◌==◌, string_eq, pair_eq,
}
use minireplayer.Json.{Value, Fields, Items, obj, arr, str, int, nil, cons, get, get_or}
use minireplayer.Observation.{Index}
use minireplayer.Bundle.{Library, index_eq}

-- the pieces of a call, as far as they have come
pub record Pieces : Type 0 where
  pub native_call_id : String
  pub name : String
  pub raw_arguments : String

abbrev no_pieces : Pieces
no_pieces = record { native_call_id = ""; name = ""; raw_arguments = "" }

-- `by_slot`
abbrev pub Slots : Type 0
Slots = Dict (Index × Index) Pieces

-- `current[...] += value` for a value that is a text
abbrev pub added : String → Value → String
added before (str s) = before ++ s
added before _ = before

abbrev with_function : Value → Pieces → Pieces
with_function (obj function) p = record p {
  name = added p.name (get "name" function);
  raw_arguments = added p.raw_arguments (get "arguments" function);
}
with_function _ p = p

-- what a fragment of a call adds
unfoldable pub add_pieces : Fields → Pieces → Pieces
add_pieces call p =
    with_function (get "function" call)
      (record p { native_call_id = added p.native_call_id (get "id" call) })

-- a fragment at a position of its list
unfoldable pub consume_call : Library → Value → ℕ → Value → Slots → Result Slots
consume_call lib choice_index position (obj call) slots = do
  choice ← lib.int_of choice_index
  index ← lib.int_of (get_or "index" (int position) call)
  ok (insert (choice, index) (add_pieces call (lookup_or (choice, index) no_pieces slots)) slots)
consume_call lib choice_index position _ slots = ok slots

unfoldable pub consume_calls : Library → Value → ℕ → Items → Slots → Result Slots
consume_calls lib choice_index position nil slots = ok slots
consume_calls lib choice_index position (cons call rest) slots =
    consume_call lib choice_index position call slots
    >>= consume_calls lib choice_index (suc position) rest

-- the part of a choice that has the calls: its delta, else its message
abbrev pub container_of : Value → Value → Option Fields
container_of (obj delta) message = some delta
container_of _ (obj message) = some message
container_of _ _ = none

abbrev calls_in : Option Fields → Items
calls_in none = nil
calls_in (some container) = elim (get "tool_calls" container) [ arr calls ↦ calls | _ ↦ nil ]

unfoldable pub consume_choice : Library → ℕ → Value → Slots → Result Slots
consume_choice lib position (obj choice) slots =
    consume_calls lib (get_or "index" (int position) choice) 0
      (calls_in (container_of (get "delta" choice) (get "message" choice))) slots
consume_choice lib position _ slots = ok slots

unfoldable pub consume_choices : Library → ℕ → Items → Slots → Result Slots
consume_choices lib position nil slots = ok slots
consume_choices lib position (cons choice rest) slots =
    consume_choice lib position choice slots >>= consume_choices lib (suc position) rest

-- `consume`
unfoldable pub consume : Library → Value → Slots → Result Slots
consume lib (obj payload) slots = elim (get "choices" payload) [
  | arr choices ↦ consume_choices lib 0 choices slots
  | _ ↦ ok slots
]
consume lib _ slots = ok slots

unfoldable pub consume_chunks : Library → Items → Slots → Result Slots
consume_chunks lib nil slots = ok slots
consume_chunks lib (cons chunk rest) slots =
    elim chunk [ obj d ↦ consume lib (get "payload" d) slots | _ ↦ ok slots ]
    >>= consume_chunks lib rest

-- the slots of an answer, which is a list of chunks or one payload
unfoldable pub slots_of : Library → Value → Result Slots
slots_of lib (obj value) = elim (get "chunks" value) [
  | arr chunks ↦ consume_chunks lib chunks []
  | _ ↦ consume lib (obj value) []
]
slots_of lib value = consume lib value []

-- a call that is complete
pub record ToolCall : Type 0 where
  pub native_call_id : String
  pub name : String
  pub raw_arguments : String
  pub arguments : Fields

abbrev decoded : Option Value → Result Fields
decoded (some (obj d)) = ok d
decoded _ = raise validation_error

-- `json.loads(raw or "{}")`, which has to be an object
unfoldable pub arguments_of : Library → String → Result Fields
arguments_of lib raw = decoded (lib.loads (if raw == "" then "{}" else raw))

-- the calls of the slots; one without an identifier is left out
unfoldable pub finished : Library → Slots → Result (List ToolCall)
finished lib [] = ok []
finished lib ((_, p) ∷ rest) =
    let later = finished lib rest in
    if p.native_call_id == ""
    then later
    else (arguments_of lib p.raw_arguments >>= λ arguments. later >>= λ calls. ok (
        record {
          native_call_id = p.native_call_id;
          name = p.name;
          raw_arguments = p.raw_arguments;
          arguments = arguments;
        }
        ∷ calls))

-- `_response_tool_calls`
unfoldable pub response_tool_calls : Library → Value → Result (List ToolCall)
response_tool_calls lib value = slots_of lib value >>= finished lib
