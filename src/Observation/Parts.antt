-- ===== src/Observation/Parts.antt =====
-- minireplay/observation.py: the parts of a JSON pointer.
use Prim.Native.Char.{Char, code}
use Prim.Native.String.{[], ◌∷◌}
use minireplayer.Prelude.{String, Bool, true, false, List, map, nat_beq}
use minireplayer.Json.Text.{replace}

abbrev cut : Bool → Char → String × List String → String × List String
cut true c (part, parts) = ([], List.◌∷◌ part parts)
cut false c (part, parts) = (c ∷ part, parts)

-- `s.split("/")`: the first part and the others
unfoldable pub split_slash : String → String × List String
split_slash [] = ([], List.[])
split_slash (c ∷ s) = cut (nat_beq (code c) b'/') c (split_slash s)

-- `_pointer_part`
unfoldable pub pointer_part : String → String
pointer_part value = replace "~0" "~" (replace "~1" "/" value)

abbrev pub without_head : String → String
without_head [] = []
without_head (c ∷ s) = s

-- the parts of `pointer[1:]`, of which there is at least one
unfoldable pub parts_of : String → List String
parts_of pointer =
    let (part, parts) = split_slash (without_head pointer) in
    List.◌∷◌ (pointer_part part) (map pointer_part parts)
