-- ===== src/Json/Text.antt =====
-- Python's methods of `str` that the program uses, over the characters of a text.
use Prim.Native.Char.{code}
use Prim.Native.String.{[], ◌∷◌, ◌++◌, count}
use text.Mathlib.TextEquality.{Char-path}
use text.Mathlib.TextLemmas.{nil-append, cons-append}
use mathlib.Core.Option
use minireplayer.Prelude.{
  ℕ, zero, suc, String, ◌≡◌, refl, ap, Bool, true, false, Option, none, some, nat_beq, nat_beq_iff,
  if◌then◌else◌, Bool-cases, inl, inr, some_inj, sym, ◌∙◌, ◌-◌, ◌==◌, string_eq, ◌&&◌,
}

-- `s[len(p):]` if `s.startswith(p)`
unfoldable pub after_prefix : String → String → Option String
after_prefix [] s = some s
after_prefix (c ∷ p) [] = none
after_prefix (c ∷ p) (d ∷ s) =
    let rest = after_prefix p s in if nat_beq (code c) (code d) then rest else none

-- `s.startswith(p)`
unfoldable pub starts_with : String → String → Bool
starts_with p s = elim (after_prefix p s) [ none ↦ false | some _ ↦ true ]

pub after_prefix-append : (p t : String) → after_prefix p (p ++ t) ≡ some t
unfolding after_prefix
after_prefix-append [] t = ap some (nil-append t)
after_prefix-append (c ∷ p) t =
    rw (cons-append c p t, (nat_beq_iff (code c) (code c)).1 refl) (after_prefix-append p t)

none≢some {ℓ} : {A : Type ℓ} {a : A} → none ≡ some a → ⊥
none≢some h = cc

pub append_of_after_prefix : (p s t : String) → after_prefix p s ≡ some t → s ≡ p ++ t
unfolding after_prefix
append_of_after_prefix [] s t h = some_inj h ∙ sym (nil-append t)
append_of_after_prefix (c ∷ p) [] t h = cc
append_of_after_prefix (c ∷ p) (d ∷ s) t h = elim (Bool-cases (nat_beq (code c) (code d))) [
  | inl y ↦
      rw (cons-append c p t, Char-path c d ((nat_beq_iff (code c) (code d)).0 y))
        (ap (◌∷◌ d) (append_of_after_prefix p s t (rw y at h)))
  | inr n ↦ absurd (none≢some (rw n at h))
]

-- `s.rstrip("/")`
unfoldable pub rstrip_slash : String → String
rstrip_slash [] = []
rstrip_slash (c ∷ s) =
    let rest = rstrip_slash s in if rest == "" && nat_beq (code c) b'/' then [] else c ∷ rest

-- `s[: -len(t)]` if `s.endswith(t)` and `t` is not empty: what stands before the suffix
unfoldable pub before_suffix : String → String → Option String
before_suffix t [] = none
before_suffix t (c ∷ s) =
    let rest = Option.map (λ p. c ∷ p) (before_suffix t s) in if (c ∷ s) == t then some [] else rest

-- `s.replace(old, new)`, from left to right; `skip` counts the characters of a hit that are left
unfoldable pub replace_from : ℕ → String → String → String → String
replace_from skip old new [] = []
replace_from (suc skip) old new (c ∷ s) = replace_from skip old new s
replace_from zero old new (c ∷ s) =
    let hit = new ++ replace_from (count old - 1) old new s in
    let miss = c ∷ replace_from 0 old new s in if starts_with old (c ∷ s) then hit else miss

-- an empty `old` does not occur in the program's tables
unfoldable pub replace : String → String → String → String
replace old new s = if old == "" then s else replace_from 0 old new s

-- `s.split(c, 1)[0]` for one character
unfoldable pub until : ℕ → String → String
until k [] = []
until k (c ∷ s) = let rest = until k s in if nat_beq (code c) k then [] else c ∷ rest

abbrev keep_before : String → Option (String × String) → Option (String × String)
keep_before c none = none
keep_before c (some (before, rest)) = some (c ++ before, rest)

abbrev found_or : Option String → Option (String × String) → Option (String × String)
found_or none later = later
found_or (some rest) later = some ("", rest)

-- `s.find(separator)` with what stands before and after it; the separator is not empty
unfoldable pub split_text : String → String → Option (String × String)
split_text separator [] = none
split_text separator (c ∷ s) =
    found_or (after_prefix separator (c ∷ s)) (keep_before (c ∷ []) (split_text separator s))
