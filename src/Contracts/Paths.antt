-- ===== src/Contracts/Paths.antt =====
-- Which entry binds a path, and that binding to the logical names can be undone.
use Prim.Native.String.{count, ◌++◌}
use text.Mathlib.TextLemmas.{append_assoc, append-nil, append_cancel_left, length-append}
use minireplayer.Prelude.{
  ◌≤◌, ◌<◌, String, ◌≡◌, refl, sym, ap, ap₂, ◌∙◌, ◌⊎◌, inl, inr, false, none, some, List, [], ◌∷◌,
  Dict, In, arith, leb, ◌==◌, string_eq, beq_refl, Bool-cases, Option-cases, subst,
}
use minireplayer.Json.Text.{after_prefix, rstrip_slash, after_prefix-append, append_of_after_prefix}
use minireplayer.Contracts.{
  place, longest_first, rebase, rebase_to, bind_first, bind_deployment_path,
}

abbrev Entry : Type 0
Entry = String × String

-- no later entry is longer
abbrev Falls : List Entry → Type 0
Falls [] = Unit
Falls (x ∷ xs) = ((y : Entry) → In y xs → count y.0 ≤ count x.0) × Falls xs

In-of_place : (e x : Entry) (xs : List Entry) → In x (place e xs) → (x ≡ e) ⊎ In x xs
unfolding place
In-of_place e x [] m = m
In-of_place e x (y ∷ ys) m = elim (Bool-cases (leb (count y.0) (count e.0))) [
  | inl first ↦ rw first at m
  | inr later ↦ shift (In-of_place e x ys) (rw later at m)
]
  where
    shift :
        (In x (place e ys) → (x ≡ e) ⊎ In x ys)
        → (x ≡ y) ⊎ In x (place e ys)
        → (x ≡ e) ⊎ ((x ≡ y) ⊎ In x ys)
    shift ih (inl q) = inr (inl q)
    shift ih (inr q) = elim (ih q) [ inl a ↦ inl a | inr b ↦ inr (inr b) ]

In-place : (e x : Entry) (xs : List Entry) → (x ≡ e) ⊎ In x xs → In x (place e xs)
unfolding place
In-place e x [] m = m
In-place e x (y ∷ ys) m = elim (Bool-cases (leb (count y.0) (count e.0))) [
  | inl first ↦ rw first m
  | inr later ↦ rw later (shift (In-place e x ys) m)
]
  where
    shift :
        ((x ≡ e) ⊎ In x ys → In x (place e ys))
        → (x ≡ e) ⊎ ((x ≡ y) ⊎ In x ys)
        → (x ≡ y) ⊎ In x (place e ys)
    shift ih (inl q) = inr (ih (inl q))
    shift ih (inr (inl q)) = inl q
    shift ih (inr (inr q)) = inr (ih (inr q))

place-Falls : (e : Entry) (xs : List Entry) → Falls xs → Falls (place e xs)
unfolding place
place-Falls e [] f = (λ y m. absurd m, tt)
place-Falls e (x ∷ xs) f = elim (Bool-cases (leb (count x.0) (count e.0))) [
  | inl first ↦
      rw first (λ y m. elim m [ inl q ↦ rw q (ground arith) | inr q ↦ ground (arith, f.0 y q) ], f)
  | inr later ↦ rw later (
    λ y m. elim (In-of_place e y xs m) [ inl q ↦ rw q (ground arith) | inr q ↦ f.0 y q ],
    place-Falls e xs f.1,
  )
]

longest_first-Falls : (m : List Entry) → Falls (longest_first m)
unfolding longest_first
longest_first-Falls [] = tt
longest_first-Falls (e ∷ es) = place-Falls e (longest_first es) (longest_first-Falls es)

In-of_longest_first : (x : Entry) (m : List Entry) → In x (longest_first m) → In x m
unfolding longest_first
In-of_longest_first x [] h = h
In-of_longest_first x (e ∷ es) h = elim (In-of_place e x (longest_first es) h) [
  | inl q ↦ inl q
  | inr q ↦ inr (In-of_longest_first x es q)
]

In-longest_first : (x : Entry) (m : List Entry) → In x m → In x (longest_first m)
unfolding longest_first
In-longest_first x [] h = h
In-longest_first x (e ∷ es) (inl q) = In-place e x (longest_first es) (inl q)
In-longest_first x (e ∷ es) (inr q) =
    In-place e x (longest_first es) (inr (In-longest_first x es q))

-- `e` binds the path, and every other entry that would bind it is shorter.
pub record IsNearest (value : String) (m : Dict String String) (e : Entry) (bound : String)
    : Type 0 where
  pub member : In e m
  pub binds : rebase e value ≡ some bound
  pub nearest :
      (f : Entry) (other : String)
      → In f m
      → rebase f value ≡ some other
      → (f ≡ e) ⊎ (count f.0 < count e.0)

bind_first_nearest :
    (value bound : String) (m : List Entry) (e : Entry)
    → Falls m
    → IsNearest value m e bound
    → bind_first value m ≡ bound
unfolding bind_first
bind_first_nearest value bound [] e falls n = absurd n.member
bind_first_nearest value bound (x ∷ xs) e falls n = elim n.member [
  | inl q ↦ rw (subst (λ z. rebase z value ≡ some bound) q n.binds, bind_first) refl
  | inr m ↦ elim (Option-cases (rebase x value)) [
    | inl misses ↦
        rw (misses, bind_first)
          (bind_first_nearest value bound xs e falls.1 (record {
            member = m;
            binds = n.binds;
            nearest = λ f other h. n.nearest f other (inr h);
          }))
    | inr (other, hits) ↦ elim (n.nearest x other (inl refl) hits) [
      | inl q ↦ rw (subst (λ z. rebase z value ≡ some bound) (sym q) n.binds, bind_first) refl
      | inr shorter ↦ absurd (omega (arith, falls.0 e m))
    ]
  ]
]

-- Of the entries of a mapping that cover a path the longest one binds it, wherever it stands.
pub bind_deployment_path_nearest :
    (value bound : String) (m : Dict String String) (e : String × String)
    → IsNearest value m e bound
    → bind_deployment_path value m ≡ bound
unfolding bind_deployment_path
bind_deployment_path_nearest value bound m e n =
    bind_first_nearest value bound (longest_first m) e (longest_first-Falls m) (record {
      member = In-longest_first e m n.member;
      binds = n.binds;
      nearest = λ f other h. n.nearest f other (In-of_longest_first f m h);
    })

bind_first_misses :
    (value : String) (m : List Entry)
    → ((f : Entry) → In f m → rebase f value ≡ none)
    → bind_first value m ≡ value
unfolding bind_first
bind_first_misses value [] h = refl
bind_first_misses value (x ∷ xs) h =
    rw (h x (inl refl), bind_first) (bind_first_misses value xs (λ f m. h f (inr m)))

-- A path that no entry covers is left alone.
pub bind_deployment_path_outside :
    (value : String) (m : Dict String String)
    → ((f : String × String) → In f m → rebase f value ≡ none)
    → bind_deployment_path value m ≡ value
unfolding bind_deployment_path
bind_deployment_path_outside value m h =
    bind_first_misses value (longest_first m) (λ f h'. h f (In-of_longest_first f m h'))

slash-ne-nil : (rest : String) → "/" ++ rest ≡ "" → ⊥
slash-ne-nil rest e = omega (arith, ap count e, length-append "/" rest)

append-slash-ne : (l rest : String) → ((l ++ ("/" ++ rest)) == l) ≡ false
append-slash-ne l rest = elim (Bool-cases ((l ++ ("/" ++ rest)) == l)) [
  | inr n ↦ n
  | inl y ↦
      let e : l ++ ("/" ++ rest) ≡ l ++ "" =
        (string_eq.beq_iff (l ++ ("/" ++ rest)) l).0 y ∙ sym (append-nil l) in
      absurd (slash-ne-nil rest (append_cancel_left l ("/" ++ rest) "" e))
]

module _ (p l : String) where
  rebase_root : rebase_to p l p ≡ some l
  unfolding rebase_to
  rebase_root = rw (beq_refl p) refl

  rebase_under : (rest : String) → rebase_to p l (p ++ ("/" ++ rest)) ≡ some (l ++ ("/" ++ rest))
  unfolding rebase_to
  rebase_under rest =
      let split : after_prefix (p ++ "/") (p ++ ("/" ++ rest)) ≡ some rest =
        ap (after_prefix (p ++ "/")) (sym (append_assoc p "/" rest))
        ∙ after_prefix-append (p ++ "/") rest in
      ground (arith, append-slash-ne p rest, split)

  abbrev Moved : String → String → Type 0
  Moved value bound =
      ((value ≡ p) × (bound ≡ l))
      ⊎ ((rest : String) × (value ≡ p ++ ("/" ++ rest)) × (bound ≡ l ++ ("/" ++ rest)))

  rebase_cases : (value bound : String) → rebase_to p l value ≡ some bound → Moved value bound
  unfolding rebase_to
  rebase_cases value bound h = elim (Bool-cases (value == p)) [
    | inl y ↦ inl ((string_eq.beq_iff value p).0 y, ground arith)
    | inr n ↦ elim (Option-cases (after_prefix (p ++ "/") value)) [
      | inl miss ↦ absurd (ground arith)
      | inr (rest, hit) ↦ inr (
        rest,
        append_of_after_prefix (p ++ "/") value rest hit ∙ append_assoc p "/" rest,
        ground arith,
      )
    ]
  ]

-- What an entry whose two names end in no slash has bound, the reversed entry takes back.
pub rebase-rebase :
    (p l value bound : String)
    → rstrip_slash p ≡ p
    → rstrip_slash l ≡ l
    → rebase (p, l) value ≡ some bound
    → rebase (l, p) bound ≡ some value
unfolding rebase
rebase-rebase p l value bound ep el h =
    let moved =
      rebase_cases p l value bound (ap₂ (λ a b. rebase_to a b value) (sym ep) (sym el) ∙ h) in
    ap₂ (λ a b. rebase_to a b bound) el ep ∙ elim moved [
      | inl (v, b) ↦ rw (v, b) (rebase_root l p)
      | inr (rest, v, b) ↦ rw (v, b) (rebase_under l p rest)
    ]

-- A path that an entry of one mapping binds, and the reversed entry of another mapping binds back,
-- each the nearest of its mapping, goes through both bindings unchanged.
pub bind-bind :
    (there back : Dict String String) (p l value bound : String)
    → rstrip_slash p ≡ p
    → rstrip_slash l ≡ l
    → IsNearest value there (p, l) bound
    → In (l, p) back
    → ((f : String × String) (other : String)
        → In f back
        → rebase f bound ≡ some other
        → (f ≡ (l, p)) ⊎ (count f.0 < count l))
    → bind_deployment_path (bind_deployment_path value there) back ≡ value
bind-bind there back p l value bound ep el n member nearest =
    ap (λ v. bind_deployment_path v back) (bind_deployment_path_nearest value bound there (p, l) n)
    ∙ bind_deployment_path_nearest bound value back (l, p)
        (record {
          member = member;
          binds = rebase-rebase p l value bound ep el n.binds;
          nearest = nearest;
        })
