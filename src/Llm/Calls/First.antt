-- ===== src/Llm/Calls/First.antt =====
-- minireplay/llm_store.py: the first attempt that shows a call keeps it.
use minireplayer.Prelude.{
  String, ◌≡◌, refl, Bool, true, false, ◌||◌, Option, none, some, lookup, lookup-insert,
  if◌then◌else◌, ◌==◌, string_eq, Bool-cases, inl, inr,
}
use minireplayer.Json.{
  Value, Items, Fields, null, bool, int, negative, float, str, arr, obj, nil, cons, end, field, get,
  is_text,
}
use minireplayer.Llm.Calls.{
  Index, set_default, set_if_none, note_id, note_call, note_calls, note_call_list, note_object,
  index_calls, index_items, index_fields,
}

module _ (attempt : String) (P : Index → Type 0)
    (set : (c : String) (index : Index) → P index → P (set_default c attempt index)) where
  id-keeps : (v : Value) (index : Index) → P index → P (note_id attempt v index)
  id-keeps (str c) index h = set c index h
  id-keeps (obj d) index h = h
  id-keeps (arr xs) index h = h
  id-keeps (float s) index h = h
  id-keeps (int n) index h = h
  id-keeps (negative n) index h = h
  id-keeps (bool b) index h = h
  id-keeps null index h = h

  call-keeps : (v : Value) (index : Index) → P index → P (note_call attempt v index)
  call-keeps (obj d) index h = id-keeps (get "id" d) index h
  call-keeps (str c) index h = h
  call-keeps (arr xs) index h = h
  call-keeps (float s) index h = h
  call-keeps (int n) index h = h
  call-keeps (negative n) index h = h
  call-keeps (bool b) index h = h
  call-keeps null index h = h

  calls-keeps : (xs : Items) (index : Index) → P index → P (note_calls attempt xs index)
  unfolding note_calls
  calls-keeps nil index h = h
  calls-keeps (cons x xs) index h = calls-keeps xs _ (call-keeps x index h)

  list-keeps : (v : Value) (index : Index) → P index → P (note_call_list attempt v index)
  list-keeps (arr xs) index h = calls-keeps xs index h
  list-keeps (obj d) index h = h
  list-keeps (str c) index h = h
  list-keeps (float s) index h = h
  list-keeps (int n) index h = h
  list-keeps (negative n) index h = h
  list-keeps (bool b) index h = h
  list-keeps null index h = h

  if-keeps : (b : Bool) (x y : Index) → P x → P y → P (if b then x else y)
  if-keeps true x y h k = h
  if-keeps false x y h k = k

  object-keeps : (d : Fields) (index : Index) → P index → P (note_object attempt d index)
  unfolding note_object
  object-keeps d index h = list-keeps (get "tool_calls" d) _ (
      if-keeps (is_text "function" (get "type" d) || is_text "tool_call" (get "type" d)) _ _
        (id-keeps (get "id" d) index h) h)

  mutual
    unfolding index_calls

    -- what every noted call keeps, the visit of a whole response keeps
    pub index_calls-keeps : (v : Value) (index : Index) → P index → P (index_calls attempt v index)
    index_calls-keeps (obj d) index h = fields-keeps d _ (object-keeps d index h)
    index_calls-keeps (arr xs) index h = items-keeps xs index h
    index_calls-keeps (str s) index h = h
    index_calls-keeps (float s) index h = h
    index_calls-keeps (int n) index h = h
    index_calls-keeps (negative n) index h = h
    index_calls-keeps (bool b) index h = h
    index_calls-keeps null index h = h

    items-keeps : (xs : Items) (index : Index) → P index → P (index_items attempt xs index)
    items-keeps nil index h = h
    items-keeps (cons x xs) index h = items-keeps xs _ (index_calls-keeps x index h)

    fields-keeps : (d : Fields) (index : Index) → P index → P (index_fields attempt d index)
    fields-keeps end index h = h
    fields-keeps (field k v rest) index h = fields-keeps rest _ (index_calls-keeps v index h)

set_if-first :
    (call owner c attempt : String) (o : Option String) (index : Index)
    → lookup c index ≡ o
    → lookup call index ≡ some owner
    → lookup call (set_if_none o c attempt index) ≡ some owner
set_if-first call owner c attempt (some x) index g h = h
set_if-first call owner c attempt none index g h = elim (Bool-cases (call == c)) [
  | inl y ↦ cc (g, h, (string_eq.beq_iff call c).0 y)
  | inr n ↦ rw (lookup-insert call c attempt index, n) h
]

-- The attempt that showed a call first stays its owner, whatever a later response shows.
pub first_attempt :
    (call owner attempt : String) (response : Value) (index : Index)
    → lookup call index ≡ some owner
    → lookup call (index_calls attempt response index) ≡ some owner
unfolding set_default
first_attempt call owner attempt response index h =
    index_calls-keeps attempt (λ i. lookup call i ≡ some owner)
      (λ c i g. set_if-first call owner c attempt (lookup c i) i refl g) response index h
