-- ===== src/Schema/Chain/Producers.antt =====
-- minireplayer/schema.py: the producer of every read of an accepted artifact graph.
use minireplayer.Prelude.{
  ℕ, ◌+◌, ◌≤◌, String, ◌≡◌, refl, sym, ap, ap₂, ◌∙◌, inl, inr, Bool, true, false, Option, none,
  some, List, [], ◌∷◌, Dict, ok, require, require-ok, lookup, lookup_or, lookup-insert, insert,
  nat_beq, nat_beq_iff, Bool-cases, some_inj, In, ◌==◌, string_eq, arith, subst,
}
use minireplayer.Schema.Chain.{
  Event, read, Product, product_of, found_under, check_read, walk, in_order,
  validate_artifact_graph,
}
use minireplayer.Schema.Chain.Sorted.{Ascending, Ascending-in_order, In-in_order, In-of_in_order}
use minireplayer.Schema.Chain.Versions.{produces, has_read, has_produced, walk-Walked}

true≢false : true ≡ false → ⊥
true≢false h = cc

-- An event of a list, no later than a time, has committed a product under an identifier.
abbrev pub Committed : List Event → ℕ → String → Product → Type 0
Committed es t source p =
    (q : Event) × In q es
    × (q.completed_at_ns ≤ t)
    × (produces q.operation ≡ true)
    × (q.event_id ≡ source)
    × (product_of q ≡ p)

abbrev Known : List Event → ℕ → Dict String Product → Type 0
Known es t producers =
    (source : String) (p : Product) → lookup source producers ≡ some p → Committed es t source p

Committed-later :
    (es : List Event) (t u : ℕ) (source : String) (p : Product)
    → t ≤ u
    → Committed es t source p
    → Committed es u source p
Committed-later es t u source p h (q, m, b, w, i, r) = (q, m, omega (arith, h, b), w, i, r)

Known-insert :
    (es : List Event) (t : ℕ) (e : Event) (producers : Dict String Product)
    → In e es
    → t ≤ e.completed_at_ns
    → produces e.operation ≡ true
    → Known es t producers
    → Known es e.completed_at_ns (insert e.event_id (product_of e) producers)
Known-insert es t e producers m b w k source p h =
    let g = sym (lookup-insert source e.event_id (product_of e) producers) ∙ h in
    elim (Bool-cases (source == e.event_id)) [
      | inl y ↦ (
        e,
        m,
        omega arith,
        w,
        sym ((string_eq.beq_iff source e.event_id).0 y),
        some_inj (rw y at g),
      )
      | inr n ↦ Committed-later es t e.completed_at_ns source p b (k source p (rw n at g))
    ]

-- What a read names was committed before it, under the same path, digest and version.
abbrev pub Supplied : List Event → Event → Type 0
Supplied es e =
    (source : String) × (e.read_from ≡ some source)
    × Committed es e.completed_at_ns source (product_of e)

require-true : (b : Bool) → require b ≡ ok tt → b ≡ true
require-true true h = refl
require-true false h = cc

check_read-found :
    (o : Option Product) (e : Event) → check_read o e ≡ ok tt → o ≡ some (product_of e)
check_read-found none e h = cc
check_read-found (some (path, (digest, version))) e h =
    let (a, h₁) = require-ok (path == e.logical_path) _ tt h in
    let (b, h₂) = require-ok (digest == e.bytes_sha256) _ tt h₁ in
    ap some (
      ap₂ (λ x y. (x, y)) ((string_eq.beq_iff _ _).0 a)
        (ap₂ (λ x y. (x, y)) ((string_eq.beq_iff _ _).0 b)
          ((nat_beq_iff _ _).0 (require-true (nat_beq version e.version) h₂))))

found_under-some :
    (producers : Dict String Product) (o : Option String) (p : Product)
    → found_under producers o ≡ some p
    → (source : String) × (o ≡ some source) × (lookup source producers ≡ some p)
found_under-some producers none p h = cc
found_under-some producers (some source) p h = (source, refl, h)

Supplied-of_read :
    (es : List Event) (t : ℕ) (producers : Dict String Product) (x : Event)
    → t ≤ x.completed_at_ns
    → Known es t producers
    → check_read (found_under producers x.read_from) x ≡ ok tt
    → Supplied es x
Supplied-of_read es t producers x b k c =
    let (source, e, g) =
      found_under-some producers x.read_from (product_of x) (check_read-found _ x c) in
    (source, e, Committed-later es t x.completed_at_ns source (product_of x) b (k source _ g))

walk-Supplied :
    (all_events : List Event) (es : List Event) (t : ℕ) (versions : Dict String ℕ)
    (producers : Dict String Product)
    → ((a : Event) → In a es → In a all_events)
    → Ascending t es
    → Known all_events t producers
    → walk versions producers es ≡ ok tt
    → (e : Event) → In e es
    → e.operation ≡ read
    → Supplied all_events e
walk-Supplied all_events [] t versions producers s a k h e m r = absurd m
walk-Supplied all_events (x ∷ es) t versions producers s (b, a) k h e m r =
    elim (walk-Walked versions producers x es h) [
      | has_read o c rest ↦ elim m [
        | inl q ↦
            subst (Supplied all_events) (sym q) (Supplied-of_read all_events t producers x b k c)
        | inr m' ↦
            walk-Supplied all_events es x.completed_at_ns versions producers (λ y n. s y (inr n)) a
              (λ source p g.
                Committed-later all_events t x.completed_at_ns source p b (k source p g))
              rest e m' r
      ]
      | has_produced w v rest ↦ elim m [
        | inl q ↦
            absurd (true≢false (sym w ∙ ap (λ y. produces y.operation) (sym q) ∙ ap produces r))
        | inr m' ↦
            walk-Supplied all_events es x.completed_at_ns
              (insert x.logical_path (lookup_or x.logical_path 0 versions + 1) versions)
              (insert x.event_id (product_of x) producers) (λ y n. s y (inr n)) a
              (Known-insert all_events t x producers (s x (inl refl)) b w k) rest e m' r
      ]
    ]

Committed-In :
    (es fs : List Event) (t : ℕ) (source : String) (p : Product)
    → ((a : Event) → In a es → In a fs)
    → Committed es t source p
    → Committed fs t source p
Committed-In es fs t source p s (q, m, b, w, i, r) = (q, s q m, b, w, i, r)

nothing-Known : (es : List Event) → Known es 0 []
unfolding lookup
nothing-Known es source p h = cc

-- In an accepted artifact graph, whatever the order in which its events are listed, what each read
-- names was committed by an event of the graph that ended no later than the read, and that has the
-- path, the digest and the version that were read.
pub validate_artifact_graph-Supplied :
    (events : List Event) (e : Event)
    → validate_artifact_graph events ≡ ok tt
    → In e events
    → e.operation ≡ read
    → Supplied events e
unfolding validate_artifact_graph
validate_artifact_graph-Supplied events e h m r =
    let (source, q, c) =
      walk-Supplied (in_order events) (in_order events) 0 [] [] (λ a n. n)
        (Ascending-in_order events) (nothing-Known (in_order events)) h e (In-in_order e events m)
        r in
    (
      source,
      q,
      Committed-In (in_order events) events _ source _ (λ a n. In-of_in_order a events n) c,
    )
