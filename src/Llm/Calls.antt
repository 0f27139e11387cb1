-- ===== src/Llm/Calls.antt =====
-- minireplay/llm_store.py: `_index_model_calls` and `attempt_for_model_call`.
pub mod First
use minireplayer.Prelude.{
  String, Bool, true, false, ◌||◌, ◌&&◌, Option, none, some, List, [], ◌∷◌, Dict, lookup, insert,
  if◌then◌else◌, ◌==◌, string_eq,
}
use minireplayer.Json.{
  Value, Items, Fields, null, bool, int, negative, float, str, arr, obj, nil, cons, end, field, get,
  is_text,
}

abbrev pub Index : Type 0
Index = Dict String String

abbrev pub set_if_none : Option String → String → String → Index → Index
set_if_none none call attempt index = insert call attempt index
set_if_none (some _) call attempt index = index

-- `index.setdefault(call, attempt)`
unfoldable pub set_default : String → String → Index → Index
set_default call attempt index = set_if_none (lookup call index) call attempt index

abbrev pub note_id : String → Value → Index → Index
note_id attempt (str call) index = set_default call attempt index
note_id attempt _ index = index

abbrev pub note_call : String → Value → Index → Index
note_call attempt (obj d) index = note_id attempt (get "id" d) index
note_call attempt _ index = index

unfoldable pub note_calls : String → Items → Index → Index
note_calls attempt nil index = index
note_calls attempt (cons x xs) index = note_calls attempt xs (note_call attempt x index)

abbrev pub note_call_list : String → Value → Index → Index
note_call_list attempt (arr xs) index = note_calls attempt xs index
note_call_list attempt _ index = index

-- what the visit of an object notes of its own fields
unfoldable pub note_object : String → Fields → Index → Index
note_object attempt d index = note_call_list attempt (get "tool_calls" d) (
    if is_text "function" (get "type" d) || is_text "tool_call" (get "type" d)
    then note_id attempt (get "id" d) index
    else index)

-- `_index_model_calls`
unfoldable mutual
  pub index_calls : String → Value → Index → Index
  index_calls attempt (obj d) index = index_fields attempt d (note_object attempt d index)
  index_calls attempt (arr xs) index = index_items attempt xs index
  index_calls attempt (str s) index = index
  index_calls attempt (float s) index = index
  index_calls attempt (int n) index = index
  index_calls attempt (negative n) index = index
  index_calls attempt (bool b) index = index
  index_calls attempt null index = index

  pub index_items : String → Items → Index → Index
  index_items attempt nil index = index
  index_items attempt (cons x xs) index = index_items attempt xs (index_calls attempt x index)

  pub index_fields : String → Fields → Index → Index
  index_fields attempt end index = index
  index_fields attempt (field k v rest) index =
      index_fields attempt rest (index_calls attempt v index)

-- `attempt_for_model_call`
unfoldable pub attempt_for_model_call : Index → Value → Option String
attempt_for_model_call index (str call) = lookup call index
attempt_for_model_call index _ = none
