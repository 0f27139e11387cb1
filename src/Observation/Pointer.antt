-- ===== src/Observation/Pointer.antt =====
-- minireplay/observation.py: `_pointer_parent`, `_get_pointer` and `_set_pointer`.
use minireplayer.Prelude.{
  ℕ, zero, suc, ◌-◌, String, Option, none, some, List, [], ◌∷◌, ltb, if◌then◌else◌,
}
use minireplayer.Json.{Value, Items, obj, arr, nil, cons, get, has, put}
use minireplayer.Observation.{Index, front, back, Library}

-- `option >>= f` on values that may be missing
abbrev pub and_then : {A B : Type 0} → Option A → (A → Option B) → Option B
and_then none f = none
and_then (some a) f = f a

unfoldable pub size : Items → ℕ
size nil = 0
size (cons x xs) = suc (size xs)

unfoldable pub item_at : ℕ → Items → Option Value
item_at i nil = none
item_at zero (cons x xs) = some x
item_at (suc i) (cons x xs) = item_at i xs

-- the list with its `i`-th item replaced, where it has one
unfoldable pub put_at : ℕ → Value → Items → Items
put_at i w nil = nil
put_at zero w (cons x xs) = cons w xs
put_at (suc i) w (cons x xs) = cons x (put_at i w xs)

-- the place in a list of so many items that an index names, where there is one
unfoldable pub place_of : Index → ℕ → Option ℕ
place_of (front i) n = if ltb i n then some i else none
place_of (back i) n = if ltb i n then some (n - suc i) else none

-- `int(part)` as a place of a list
unfoldable pub place_in : Library → String → Items → Option ℕ
place_in lib part xs = and_then (lib.int_of part) (λ i. place_of i (size xs))

-- `cursor[part]`, where it is there
unfoldable pub child : Library → String → Value → Option Value
child lib part (obj d) = if has part d then some (get part d) else none
child lib part (arr xs) = and_then (place_in lib part xs) (λ i. item_at i xs)
child lib part _ = none

-- `cursor[part] = w`, where it is there
unfoldable pub with_child : Library → String → Value → Value → Option Value
with_child lib part w (obj d) = if has part d then some (obj (put part w d)) else none
with_child lib part w (arr xs) = and_then (place_in lib part xs) (λ i. some (arr (put_at i w xs)))
with_child lib part w _ = none

-- `_pointer_parent`, for the parts of a pointer: the container and the last part
unfoldable pub pointer_parent : Library → List String → Value → Option (Value × String)
pointer_parent lib [] document = none
pointer_parent lib (leaf ∷ []) document = some (document, leaf)
pointer_parent lib (part ∷ next ∷ rest) document =
    and_then (child lib part document) (pointer_parent lib (next ∷ rest))

-- `_get_pointer`
unfoldable pub get_pointer : Library → List String → Value → Option Value
get_pointer lib parts document =
    and_then (pointer_parent lib parts document) (λ (cursor, leaf). child lib leaf cursor)

-- `_set_pointer`: the document with the container changed, or none for its exception
unfoldable pub set_pointer : Library → List String → Value → Value → Option Value
set_pointer lib [] w document = none
set_pointer lib (leaf ∷ []) w document = with_child lib leaf w document
set_pointer lib (part ∷ next ∷ rest) w document = and_then (child lib part document) (λ cursor.
    and_then (set_pointer lib (next ∷ rest) w cursor)
      (λ changed. with_child lib part changed document))
