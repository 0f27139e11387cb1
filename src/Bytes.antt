-- ===== src/Bytes.antt =====
-- Python's methods of `bytes` that the program uses, over lists of numbers.
pub mod Split
use Prim.Native.Char.{code}
use Prim.Native.String.{String}
use minireplayer.Prelude.{
  ℕ, zero, suc, Bool, true, false, not, ◌||◌, Option, none, some, List, [], ◌∷◌, ◌++◌, nat_beq,
  if◌then◌else◌, All, ◌≢◌,
}

abbrev pub Bytes : Type 0
Bytes = List ℕ

-- the code points of an ASCII text, which are its bytes
abbrev pub codes : String → Bytes
codes String.[] = []
codes (String.◌∷◌ c s) = code c ∷ codes s

abbrev pub Lacks : ℕ → Bytes → Type 0
Lacks b = All (λ c. c ≢ b)

-- `s[len(p):]` if `s.startswith(p)`
unfoldable pub after : Bytes → Bytes → Option Bytes
after [] s = some s
after (c ∷ p) [] = none
after (c ∷ p) (d ∷ s) = let rest = after p s in if nat_beq c d then rest else none

abbrev pub extend_before : ℕ → Option (Bytes × Bytes) → Option (Bytes × Bytes)
extend_before c none = none
extend_before c (some (before, rest)) = some (c ∷ before, rest)

abbrev pub here_or : Option Bytes → Option (Bytes × Bytes) → Option (Bytes × Bytes)
here_or none later = later
here_or (some rest) later = some ([], rest)

-- `s.find(separator)` with what stands before and after it; the separator is not empty
unfoldable pub split_at : Bytes → Bytes → Option (Bytes × Bytes)
split_at separator [] = none
split_at separator (c ∷ s) =
    here_or (after separator (c ∷ s)) (extend_before c (split_at separator s))

abbrev pub extend_first : ℕ → List Bytes → List Bytes
extend_first c [] = (c ∷ []) ∷ []
extend_first c (line ∷ lines) = (c ∷ line) ∷ lines

-- `s.split(b"\n")`
unfoldable pub lines : Bytes → List Bytes
lines [] = [] ∷ []
lines (c ∷ s) = let rest = lines s in if nat_beq c 10 then [] ∷ rest else extend_first c rest

-- the ASCII whitespace that `strip` takes away
unfoldable pub is_space : ℕ → Bool
is_space c =
    nat_beq c 32 || nat_beq c 9 || nat_beq c 10 || nat_beq c 13 || nat_beq c 11 || nat_beq c 12

unfoldable pub strip_left : Bytes → Bytes
strip_left [] = []
strip_left (c ∷ s) = let rest = strip_left s in if is_space c then rest else c ∷ s

abbrev pub cons_unless_blank : ℕ → Bytes → Bytes
cons_unless_blank c [] = if is_space c then [] else c ∷ []
cons_unless_blank c (d ∷ s) = c ∷ d ∷ s

unfoldable pub strip_right : Bytes → Bytes
strip_right [] = []
strip_right (c ∷ s) = cons_unless_blank c (strip_right s)

-- `s.strip()`
unfoldable pub strip : Bytes → Bytes
strip s = strip_right (strip_left s)
