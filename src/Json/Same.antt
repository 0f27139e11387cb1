-- ===== src/Json/Same.antt =====
-- Python's `==` on JSON values: objects are equal whatever the order of their keys.
use minireplayer.Prelude.{
  ℕ, suc, String, Bool, true, false, ◌&&◌, Option, none, some, nat_beq, ◌==◌, string_eq, List, [],
  ◌∷◌,
}
use minireplayer.Json.{
  Value, Items, Fields, null, bool, int, negative, float, str, arr, obj, nil, cons, end, field, get,
  has, nat?,
}

unfoldable pub width : Fields → ℕ
width end = 0
width (field k v rest) = suc (width rest)

abbrev same_nat : ℕ → Option ℕ → Bool
same_nat n none = false
same_nat n (some m) = nat_beq n m

abbrev same_null : Value → Bool
same_null null = true
same_null _ = false

abbrev same_negative : ℕ → Value → Bool
same_negative n (negative m) = nat_beq n m
same_negative n _ = false

abbrev same_float : String → Value → Bool
same_float s (float t) = s == t
same_float s _ = false

abbrev same_str : String → Value → Bool
same_str s (str t) = s == t
same_str s _ = false

-- a Boolean is the integer 0 or 1
unfoldable mutual
  pub same : Value → Value → Bool
  same null w = same_null w
  same (bool true) w = same_nat 1 (nat? w)
  same (bool false) w = same_nat 0 (nat? w)
  same (int n) w = same_nat n (nat? w)
  same (negative n) w = same_negative n w
  same (float s) w = same_float s w
  same (str s) w = same_str s w
  same (arr xs) (arr ys) = same_items xs ys
  same (arr xs) _ = false
  same (obj d) (obj e) = nat_beq (width d) (width e) && same_fields d e
  same (obj d) _ = false

  pub same_items : Items → Items → Bool
  same_items nil nil = true
  same_items (cons x xs) (cons y ys) = same x y && same_items xs ys
  same_items _ _ = false

  pub same_fields : Fields → Fields → Bool
  same_fields end e = true
  same_fields (field k v rest) e = has k e && same v (get k e) && same_fields rest e

-- `==` of two tuples
unfoldable pub same_all : List Value → List Value → Bool
same_all [] [] = true
same_all (x ∷ xs) (y ∷ ys) = same x y && same_all xs ys
same_all _ _ = false
