-- ===== src/Forced/Audit/Pieces.antt =====
-- minireplay/forced.py: `_read_new_records` reads a growing log in pieces.
use mathlib.Core.List.{append_assoc, append-nil}
use minireplayer.Prelude.{
  ℕ, zero, suc, ◌≤◌, ◌≡◌, refl, sym, ap, ap₂, ◌∙◌, Bool, true, false, Option, some, List, [], ◌∷◌,
  ◌++◌, Result, ok, raise, ◌>>=◌, length, length-append, drop, leb, le→leb, nat_beq, beq_refl,
  Bool-cases, arith, if◌then◌else◌, pair_eq, nat_eq, inl, inr,
}
use minireplayer.Json.{Value, Fields}
use minireplayer.Bytes.{Bytes, strip}
use minireplayer.Boundary.Account.{is_empty}
use minireplayer.Forced.Audit.{
  Log, Reader, extend_line, split_lines, record_of, parse_lines, take_chunk, same_file, read_log,
}

-- the lines of `a`, whose rest goes on with `t`
abbrev joined : List Bytes × Bytes → Bytes → List Bytes × Bytes
joined a t = (a.0 ++ (split_lines (a.1 ++ t)).0, (split_lines (a.1 ++ t)).1)

extend_line-joined :
    (c : ℕ) (a : List Bytes × Bytes) (t : Bytes)
    → nat_beq c 10 ≡ false
    → extend_line c (joined a t) ≡ joined (extend_line c a) t
unfolding split_lines
extend_line-joined c ([], rest) t n = rw n refl
extend_line-joined c (line ∷ lines, rest) t n = refl

split_lines-append : (s t : Bytes) → split_lines (s ++ t) ≡ joined (split_lines s) t
unfolding split_lines
split_lines-append [] t = refl
split_lines-append (c ∷ s) t = elim (Bool-cases (nat_beq c 10)) [
  | inl y ↦ rw y (ap (λ x. ([] ∷ x.0, x.1)) (split_lines-append s t))
  | inr n ↦
      rw n (ap (extend_line c) (split_lines-append s t) ∙ extend_line-joined c (split_lines s) t n)
]

-- no line ends in a text
abbrev pub IsOpen : Bytes → Type 0
IsOpen s = split_lines s ≡ ([], s)

extend_line-IsOpen :
    (c : ℕ) (a : List Bytes × Bytes)
    → nat_beq c 10 ≡ false
    → IsOpen a.1
    → IsOpen (extend_line c a).1
unfolding split_lines
extend_line-IsOpen c ([], rest) n h = rw n (ap (extend_line c) h)
extend_line-IsOpen c (line ∷ lines, rest) n h = h

split_lines-IsOpen : (s : Bytes) → IsOpen (split_lines s).1
unfolding split_lines
split_lines-IsOpen [] = refl
split_lines-IsOpen (c ∷ s) = elim (Bool-cases (nat_beq c 10)) [
  | inl y ↦ rw y (split_lines-IsOpen s)
  | inr n ↦ rw n (extend_line-IsOpen c (split_lines s) n (split_lines-IsOpen s))
]

abbrev and_append : Result (List Fields) → Result (List Fields) → Result (List Fields)
and_append x y = x >>= λ ds. y >>= λ es. ok (ds ++ es)

and_append-nil : (y : Result (List Fields)) → y ≡ and_append (ok []) y
and_append-nil (ok es) = refl
and_append-nil (raise e) = refl

and_append-record :
    (d : Result Fields) (x y : Result (List Fields))
    → (d >>= λ a. and_append x y >>= λ ds. ok (a ∷ ds))
      ≡ and_append (d >>= λ a. x >>= λ ds. ok (a ∷ ds)) y
and_append-record (raise e) x y = refl
and_append-record (ok a) (raise e) y = refl
and_append-record (ok a) (ok ds) (raise e) = refl
and_append-record (ok a) (ok ds) (ok es) = refl

module _ (loads : Bytes → Option Value) where
  parse_lines-append :
      (a b : List Bytes)
      → parse_lines loads (a ++ b) ≡ and_append (parse_lines loads a) (parse_lines loads b)
  unfolding parse_lines
  parse_lines-append [] b = and_append-nil (parse_lines loads b)
  parse_lines-append (raw ∷ a) b = elim (Bool-cases (is_empty (strip raw))) [
    | inl y ↦ rw y (parse_lines-append a b)
    | inr n ↦ rw n (
        ap (λ x. record_of (loads raw) >>= λ d. x >>= λ ds. ok (d ∷ ds)) (parse_lines-append a b)
        ∙ and_append-record (record_of (loads raw)) (parse_lines loads a) (parse_lines loads b))
  ]

  -- a reader that has read the text `all` since its last whole line
  abbrev caught_up : ℕ × ℕ → ℕ → Bytes → Reader → Reader × Result (List Fields)
  caught_up i offset text r = (
    record r { identity = some i; offset = offset; partial = (split_lines text).1 },
    parse_lines loads (split_lines text).0,
  )

  take_chunk-caught_up :
      (chunk : Bytes) (i : ℕ × ℕ) (n : ℕ) (r : Reader)
      → IsOpen r.partial
      → take_chunk loads chunk (record r { identity = some i; offset = n })
        ≡ caught_up i n (r.partial ++ chunk) r
  unfolding take_chunk parse_lines
  take_chunk-caught_up (c ∷ chunk) i n r h = refl
  take_chunk-caught_up [] i n r h = sym (
      ap
        (λ (x : List Bytes × Bytes).
          (record r { identity = some i; offset = n; partial = x.1 }, parse_lines loads x.0))
        (ap split_lines (append-nil r.partial) ∙ h))

  abbrev log : ℕ × ℕ → Bytes → Log
  log i c = record { identity = i; content = c }

  ifs :
      {A : Type 0} (a b : Bool) (x y z : A)
      → a ≡ true
      → b ≡ true
      → (if a then (if b then x else y) else z) ≡ x
  ifs true true x y z h k = refl
  ifs true false x y z h k = cc
  ifs false b x y z h k = cc

  read_log-caught_up :
      (i : ℕ × ℕ) (c : Bytes) (r : Reader)
      → IsOpen r.partial
      → same_file r.identity i ≡ true
      → r.offset ≤ length c
      → read_log loads (log i c) r ≡ caught_up i (length c) (r.partial ++ drop r.offset c) r
  unfolding read_log
  read_log-caught_up i c r h f l =
      ifs (same_file r.identity i) (leb r.offset (length c)) _ _ _ f (le→leb r.offset (length c) l)
      ∙ take_chunk-caught_up (drop r.offset c) i (length c) r h

  drop-append : (n : ℕ) (c d : Bytes) → n ≤ length c → drop n (c ++ d) ≡ drop n c ++ d
  drop-append zero c d h = refl
  drop-append (suc n) [] d h = absurd (omega (arith, h))
  drop-append (suc n) (x ∷ c) d h = drop-append n c d (omega (arith, h))

  drop-length : (c d : Bytes) → drop (length c) (c ++ d) ≡ d
  drop-length [] d = refl
  drop-length (x ∷ c) d = drop-length c d

  -- A reader that has no whole line left, of a log that has grown since its last read, reads the same
  -- records and is left in the same state whether it reads the log once, or before its last bytes `d`
  -- were written and again after that: a line that was cut by the first read is neither lost nor
  -- doubled, and a malformed line is an error both ways.
  pub read_log-append :
      (i : ℕ × ℕ) (c d : Bytes) (r : Reader)
      → IsOpen r.partial
      → same_file r.identity i ≡ true
      → r.offset ≤ length c
      → ((read_log loads (log i (c ++ d)) r).0
          ≡ (read_log loads (log i (c ++ d)) (read_log loads (log i c) r).0).0)
        × ((read_log loads (log i (c ++ d)) r).1
            ≡ and_append
                (read_log loads (log i c) r).1
                (read_log loads (log i (c ++ d)) (read_log loads (log i c) r).0).1)
  read_log-append i c d r h f l =
      let first = read_log-caught_up i c r h f l in
      let text = r.partial ++ drop r.offset c in
      let r₁ : Reader = (caught_up i (length c) text r).0 in
      let longer = length-append c d in
      let whole : read_log loads (log i (c ++ d)) r ≡ caught_up i (length (c ++ d)) (text ++ d) r =
        read_log-caught_up i (c ++ d) r h f (omega (arith, l, longer))
        ∙ ap (λ x. caught_up i (length (c ++ d)) x r)
            (ap (◌++◌ r.partial) (drop-append r.offset c d l)
              ∙ sym (append_assoc r.partial (drop r.offset c) d)) in
      let second : read_log loads (log i (c ++ d)) r₁
          ≡ caught_up i (length (c ++ d)) ((split_lines text).1 ++ d) r₁ =
        read_log-caught_up i (c ++ d) r₁ (split_lines-IsOpen text) (beq_refl i)
          (omega (arith, longer))
        ∙ ap (λ x. caught_up i (length (c ++ d)) ((split_lines text).1 ++ x) r₁)
            (drop-length c d) in
      let again = ap (λ x. read_log loads (log i (c ++ d)) x.0) first ∙ second in
      let split = split_lines-append text d in
      (
        ap (λ x. x.0) whole
            ∙ ap (λ x. record r { identity = some i; offset = length (c ++ d); partial = x.1 })
                split
            ∙ sym (ap (λ x. x.0) again),
        ap (λ x. x.1) whole
            ∙ ap (λ x. parse_lines loads x.0) split
            ∙ parse_lines-append (split_lines text).0 (split_lines ((split_lines text).1 ++ d)).0
            ∙ sym (ap₂ and_append (ap (λ x. x.1) first) (ap (λ x. x.1) again)),
      )
