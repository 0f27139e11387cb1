-- ===== src/Json.antt =====
-- The JSON values that cross the process boundary, as Python's `json` module hands them over, with
-- the accesses that the program makes of them.
pub mod Text
pub mod Access
pub mod Same
use minireplayer.Prelude.{
  ℕ, zero, suc, String, Bool, true, false, Option, none, some, if◌then◌else◌, ◌==◌, string_eq,
}

-- `negative n` is the integer -(n + 1); a number with a fraction is kept as its spelling.
mutual
  pub data Fields : Type 0 where
    end : Fields
    field : String → Value → Fields → Fields

  pub data Items : Type 0 where
    nil : Items
    cons : Value → Items → Items

  pub data Value : Type 0 where
    obj : Fields → Value
    arr : Items → Value
    str float : String → Value
    int negative : ℕ → Value
    bool : Bool → Value
    null : Value

-- `d.get(key)`, with `None` for a key that is missing
unfoldable pub get : String → Fields → Value
get key end = null
get key (field k v rest) = let later = get key rest in if key == k then v else later

-- `key in d`
unfoldable pub has : String → Fields → Bool
has key end = false
has key (field k v rest) = let later = has key rest in if key == k then true else later

-- `d.get(key, default)`
unfoldable pub get_or : String → Value → Fields → Value
get_or key default d = if has key d then get key d else default

-- `d[key] = value`; a key that is there keeps its place
unfoldable pub put : String → Value → Fields → Fields
put key v end = field key v end
put key v (field k w rest) =
    let later = put key v rest in if key == k then field k v rest else field k w later

-- `isinstance(value, str) and value`: the text, if it is one and is not empty
unfoldable pub text? : Value → Option String
text? (str s) = if s == "" then none else some s
text? _ = none

-- `isinstance(value, int)` and not negative; Python's Booleans are integers
unfoldable pub nat? : Value → Option ℕ
nat? (int n) = some n
nat? (bool true) = some 1
nat? (bool false) = some 0
nat? _ = none

-- `isinstance(value, dict)`
unfoldable pub object? : Value → Option Fields
object? (obj d) = some d
object? _ = none

-- `value is True`
unfoldable pub is_true : Value → Bool
is_true (bool b) = b
is_true _ = false

-- `value == "text"`
unfoldable pub is_text : String → Value → Bool
is_text s (str t) = s == t
is_text s _ = false

-- `value.get` on a value that is an object, and on the empty object otherwise
unfoldable pub object_or_empty : Value → Fields
object_or_empty (obj d) = d
object_or_empty _ = end

-- `bool(value)`
unfoldable pub truth : Value → Bool
truth null = false
truth (bool b) = b
truth (int zero) = false
truth (int (suc n)) = true
truth (negative n) = true
truth (float s) = if s == "0.0" then false else true
truth (str s) = if s == "" then false else true
truth (arr nil) = false
truth (arr (cons x xs)) = true
truth (obj end) = false
truth (obj (field k v rest)) = true

-- a value for `None` or a text
unfoldable pub opt_str : Option String → Value
opt_str none = null
opt_str (some s) = str s
