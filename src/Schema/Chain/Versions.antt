-- ===== src/Schema/Chain/Versions.antt =====
-- minireplayer/schema.py: the versions of a path in an accepted artifact graph.
use minireplayer.Prelude.{
  ℕ, zero, suc, ◌+◌, String, ◌≡◌, refl, sym, ap, ap₂, ◌∙◌, ◌⊎◌, inl, inr, Bool, true, false, List,
  [], ◌∷◌, Dict, Result, ok, raise, ◌>>◌, require, require-ok, length, lookup, lookup_or,
  lookup_or-insert, insert, nat_beq, nat_beq_iff, Bool-cases, if◌then◌else◌, ◌==◌, string_eq, subst,
}
use minireplayer.Schema.Chain.{
  Event, Operation, create, write, read, Product, product_of, found_under, check_read, walk,
  in_order, validate_artifact_graph,
}

-- The event commits a new version.
abbrev pub produces : Operation → Bool
produces read = false
produces _ = true

-- the versions that events commit of a path, in order
unfoldable pub versions_of : String → List Event → List ℕ
versions_of path [] = []
versions_of path (e ∷ es) =
    let rest = versions_of path es in
    if produces e.operation
    then (if path == e.logical_path then e.version ∷ rest else rest)
    else rest

-- `n` numbers from `start` on
unfoldable pub count_from : ℕ → ℕ → List ℕ
count_from start zero = []
count_from start (suc n) = start ∷ count_from (start + 1) n

pub then-ok {ℓ} :
    {B : Type ℓ} (m : Result (Unit {0})) (n : Result B) (b : B)
    → (m >> n) ≡ ok b
    → (m ≡ ok tt) × (n ≡ ok b)
then-ok (ok tt) n b h = (refl, h)
then-ok (raise e) n b h = cc

-- What a step of the walk has checked.
pub data Walked (versions : Dict String ℕ) (producers : Dict String Product) (e : Event)
    (es : List Event) : Type 0 where
  has_read :
      e.operation ≡ read
      → check_read (found_under producers e.read_from) e ≡ ok tt
      → walk versions producers es ≡ ok tt
      → Walked versions producers e es
  has_produced :
      produces e.operation ≡ true
      → e.version ≡ lookup_or e.logical_path 0 versions + 1
      → walk
          (insert e.logical_path (lookup_or e.logical_path 0 versions + 1) versions)
          (insert e.event_id (product_of e) producers)
          es
        ≡ ok tt
      → Walked versions producers e es

Operation-cases : (o : Operation) → (o ≡ read) ⊎ ((o ≡ create) ⊎ (o ≡ write))
Operation-cases read = inl refl
Operation-cases create = inr (inl refl)
Operation-cases write = inr (inr refl)

produced :
    (versions : Dict String ℕ) (producers : Dict String Product) (e : Event) (es : List Event)
    → produces e.operation ≡ true
    → (require (nat_beq e.version (lookup_or e.logical_path 0 versions + 1))
        >> walk
            (insert e.logical_path (lookup_or e.logical_path 0 versions + 1) versions)
            (insert e.event_id (product_of e) producers)
            es)
      ≡ ok tt
    → Walked versions producers e es
produced versions producers e es p h =
    let (t, rest) = require-ok _ _ tt h in has_produced p ((nat_beq_iff _ _).0 t) rest

pub walk-Walked :
    (versions : Dict String ℕ) (producers : Dict String Product) (e : Event) (es : List Event)
    → walk versions producers (e ∷ es) ≡ ok tt
    → Walked versions producers e es
unfolding walk
walk-Walked versions producers e es h = elim (Operation-cases e.operation) [
  | inl r ↦
      let (c, rest) =
        then-ok (check_read (found_under producers e.read_from) e) _ tt (rw (walk, r) at h) in
      has_read r c rest
  | inr (inl c) ↦ produced versions producers e es (rw c refl) (rw (walk, c) at h)
  | inr (inr w) ↦ produced versions producers e es (rw w refl) (rw (walk, w) at h)
]

-- the versions after an event that produces, from those of the events after it
versions_next :
    (path at_path : String) (version : ℕ) (versions : Dict String ℕ) (rest : List ℕ)
    → version ≡ lookup_or at_path 0 versions + 1
    → rest
      ≡ count_from
          (lookup_or path 0 (insert at_path (lookup_or at_path 0 versions + 1) versions) + 1)
          (length rest)
    → let all_of = if path == at_path then version ∷ rest else rest in
      all_of ≡ count_from (lookup_or path 0 versions + 1) (length all_of)
unfolding count_from
versions_next path at_path version versions rest v ih =
    let now = lookup_or at_path 0 versions + 1 in
    let ih' =
      subst (λ n. rest ≡ count_from (n + 1) (length rest))
        (lookup_or-insert path at_path 0 now versions) ih in
    elim (Bool-cases (path == at_path)) [
      | inl y ↦
          let same = ap (λ k. lookup_or k 0 versions + 1) ((string_eq.beq_iff path at_path).0 y) in
          rw y (
            ap₂ ◌∷◌ (v ∙ sym same)
              (subst (λ n. rest ≡ count_from (n + 1) (length rest)) (sym same) (rw y at ih')))
      | inr n ↦ rw n (rw n at ih')
    ]

pub walk-versions :
    (path : String) (es : List Event) (versions : Dict String ℕ) (producers : Dict String Product)
    → walk versions producers es ≡ ok tt
    → versions_of path es
      ≡ count_from (lookup_or path 0 versions + 1) (length (versions_of path es))
unfolding versions_of count_from
walk-versions path [] versions producers h = refl
walk-versions path (e ∷ es) versions producers h = elim (walk-Walked versions producers e es h) [
  | has_read r c rest ↦ rw r (walk-versions path es versions producers rest)
  | has_produced p v rest ↦ rw p (
      versions_next path e.logical_path e.version versions (versions_of path es) v (
        walk-versions path es
          (insert e.logical_path (lookup_or e.logical_path 0 versions + 1) versions)
          (insert e.event_id (product_of e) producers) rest))
]

-- In an accepted artifact graph the versions that are committed of a path, in the order of the
-- events, are 1, 2, 3 and so on.
pub validate_artifact_graph-versions :
    (events : List Event) (path : String)
    → validate_artifact_graph events ≡ ok tt
    → versions_of path (in_order events)
      ≡ count_from 1 (length (versions_of path (in_order events)))
unfolding validate_artifact_graph lookup_or lookup
validate_artifact_graph-versions events path h = walk-versions path (in_order events) [] [] h
