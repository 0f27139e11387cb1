-- ===== src/LaneRecord/Spanned.antt =====
-- minireplayer/lane_record.py: the times of the envelopes.
use minireplayer.Prelude.{
  ℕ, ◌≤◌, ◌<◌, String, false, ltb→lt, some_inj, ◌≡◌, refl, sym, ◌⊎◌, inl, inr, true, Option, none,
  some, List, [], ◌∷◌, Dict, ok, bind-ok, ok_injective, lookup, ltb, arith, In, Bool-cases, subst,
  string_eq,
}
use minireplayer.Boundary.{Python, item}
use minireplayer.Json.{get}
use minireplayer.LaneRecord.{Logs, spell_or}
use minireplayer.LaneRecord.Events.{Timed, events, check_events}
use minireplayer.LaneRecord.Timely.{Ascending, Ascending-by_time}
use minireplayer.LaneRecord.Scopes.{
  no_scopes, collect, Row, Ending, ending_of, row_of, rows_of, row_leb, place_row, rows_in_order,
  composite_scope_rows,
}
use minireplayer.LaneRecord.Paired.{IsPaired, collect-Paired, not_lt}
use minireplayer.LaneRecord.Collected.{IsOf, completion-known, completion-In, start-In}

-- How a scope ends: at the cutoff, where every completion of it among the events is later, or with
-- its completion, up to the cutoff.
abbrev Ends : Python → List Timed → ℕ → String → Ending → Type 0
Ends py ts cutoff k e =
    ((e.1.1 ≡ true)
      × (e.0 ≡ cutoff)
      × (e.1.0 ≡ "truncated")
      × ((c : Timed) → In c ts → IsOf py "scope-complete" k c → cutoff < c.0))
    ⊎ ((c : Timed) × In c ts
        × IsOf py "scope-complete" k c
        × (e.0 ≡ c.0)
        × (e.1.0 ≡ spell_or py (get "status" c.1) "ok")
        × (e.1.1 ≡ false))

-- The envelope is of a start among the events, lies before the cutoff, and ends as its scope does.
pub record IsSpanned (py : Python) (ts : List Timed) (cutoff : ℕ) (r : Row) : Type 0 where
  pub begun : (t : Timed) × In t ts × IsOf py "scope-start" r.scope_id t × (r.started_at_ns ≡ t.0)
  pub ordered : r.started_at_ns ≤ r.ended_at_ns
  pub bounded : r.ended_at_ns ≤ cutoff
  pub ends : Ends py ts cutoff r.scope_id (r.ended_at_ns, (r.status, r.cutoff_truncated))

-- What the loop knows of the scopes comes from the events, and it knows all completions.
record IsCollected (py : Python) (ts : List Timed) (completions starts : Dict String Timed)
    : Type 0 where
  from :
      (k : String) (c : Timed)
      → lookup k completions ≡ some c
      → In c ts × IsOf py "scope-complete" k c
  known :
      (k : String) (c : Timed)
      → In c ts
      → IsOf py "scope-complete" k c
      → lookup k completions ≡ some c
  started : (k : String) (t : Timed) → In (k, t) starts → In t ts × IsOf py "scope-start" k t
  later : (k : String) (t c : Timed) → In (k, t) starts → lookup k completions ≡ some c → t.0 ≤ c.0

absent : (c : Timed) → none ≡ some c → ⊥
absent c h = cc

module _ (py : Python) (ts : List Timed) (cutoff : ℕ) where
  abbrev Ended : String → ℕ → Ending → Type 0
  Ended k started e = (started ≤ e.0) × (e.0 ≤ cutoff) × Ends py ts cutoff k e

  ending_of-Ended :
      (k : String) (started : ℕ) (o : Option Timed)
      → started ≤ cutoff
      → ((c : Timed) → o ≡ some c → started ≤ c.0)
      → ((c : Timed) → o ≡ some c → In c ts × IsOf py "scope-complete" k c)
      → ((c : Timed) → In c ts → IsOf py "scope-complete" k c → o ≡ some c)
      → Ended k started (ending_of py cutoff o)
  unfolding ending_of
  ending_of-Ended k started none b h from known =
      (b, omega arith, inl (refl, refl, refl, λ c m o. absurd (absent c (known c m o))))
  ending_of-Ended k started (some c) b h from known = elim (Bool-cases (ltb cutoff c.0)) [
    | inl y ↦ rw y (
      b,
      omega arith,
      inl (
        refl,
        refl,
        refl,
        λ d m o. subst (λ x. cutoff < x.0) (some_inj (known d m o)) (ltb→lt cutoff c.0 y),
      ),
    )
    | inr n ↦
        let (m, o) = from c refl in
        rw n (h c refl, not_lt cutoff c.0 n, inr (c, m, o, refl, refl, refl))
  ]

  row_of-IsSpanned :
      (scope : String) (t : Timed) (e : Ending) (r : Row)
      → In t ts
      → IsOf py "scope-start" scope t
      → Ended scope t.0 e
      → row_of py scope t e ≡ ok r
      → IsSpanned py ts cutoff r
  unfolding row_of
  row_of-IsSpanned scope t e r m s (o, b, c) h =
      let (actor, g, k) = bind-ok (item "actor_id" t.1) _ r h in
      subst (IsSpanned py ts cutoff) (ok_injective _ _ k)
        (record { begun = (t, m, s, refl); ordered = o; bounded = b; ends = c })

  abbrev AllSpanned : List Row → Type 0
  AllSpanned rows = (r : Row) → In r rows → IsSpanned py ts cutoff r

  IsCollected-rest :
      (completions rest : Dict String Timed) (k : String) (t : Timed)
      → IsCollected py ts completions ((k, t) ∷ rest)
      → IsCollected py ts completions rest
  IsCollected-rest completions rest k t p = record {
    from = p.from;
    known = p.known;
    started = λ j v m. p.started j v (inr m);
    later = λ j v c m. p.later j v c (inr m);
  }

  rows_of-AllSpanned :
      (completions starts : Dict String Timed) (rows : List Row)
      → IsCollected py ts completions starts
      → rows_of py cutoff completions starts ≡ ok rows
      → AllSpanned rows
  unfolding rows_of
  rows_of-AllSpanned completions [] rows p h =
      λ r m. absurd (subst (In r) (sym (ok_injective _ _ h)) m)
  rows_of-AllSpanned completions ((k, t) ∷ rest) rows p h =
      let p' = IsCollected-rest completions rest k t p in
      elim (Bool-cases (ltb cutoff t.0)) [
        | inl y ↦ rows_of-AllSpanned completions rest rows p' (rw y at h)
        | inr n ↦
            let (row, g, h₁) =
              bind-ok (row_of py k t (ending_of py cutoff (lookup k completions))) _ rows
                (rw n at h) in
            let (rows', g', h₂) = bind-ok (rows_of py cutoff completions rest) _ rows h₁ in
            let ih = rows_of-AllSpanned completions rest rows' p' g' in
            let (there, is_start) = p.started k t (inl refl) in
            let ended =
              ending_of-Ended k t.0 (lookup k completions) (not_lt cutoff t.0 n)
                (λ c e. p.later k t c (inl refl) e) (p.from k) (p.known k) in
            subst AllSpanned (ok_injective _ _ h₂) (λ r m. elim m [
              | inl e ↦
                  subst (IsSpanned py ts cutoff) (sym e)
                    (row_of-IsSpanned k t _ row there is_start ended g)
              | inr m' ↦ ih r m'
            ])
      ]

In-of_place_row : (a r : Row) (rows : List Row) → In a (place_row r rows) → (a ≡ r) ⊎ In a rows
unfolding place_row
In-of_place_row a r [] m = m
In-of_place_row a r (x ∷ xs) m = elim (Bool-cases (row_leb r x)) [
  | inl y ↦ rw y at m
  | inr n ↦ elim (rw n at m) [
    | inl q ↦ inr (inl q)
    | inr q ↦ elim (In-of_place_row a r xs q) [ inl e ↦ inl e | inr k ↦ inr (inr k) ]
  ]
]

In-of_rows_in_order : (a : Row) (rows : List Row) → In a (rows_in_order rows) → In a rows
unfolding rows_in_order
In-of_rows_in_order a [] m = m
In-of_rows_in_order a (r ∷ rows) m = elim (In-of_place_row a r (rows_in_order rows) m) [
  | inl e ↦ inl e
  | inr k ↦ inr (In-of_rows_in_order a rows k)
]

nothing-IsPaired : IsPaired 0 no_scopes
unfolding lookup
nothing-IsPaired = record {
  begun = λ k t m. absurd m;
  known = λ k c h. cc;
  later = λ k t c m h. absurd m;
}

absent_first : (k : String) (c : Timed) → lookup k no_scopes.completions ≡ some c → ⊥
unfolding lookup
absent_first k c h = cc

-- For every envelope of a recording whose logs are accepted: it is of a start among the events, with
-- its time, it begins no later than it ends, and ends no later than the cutoff. Either it is cut: it
-- ends at the cutoff with the status `truncated`, and every completion of its scope among the events
-- is later than the cutoff; or it is not cut, and ends at the time and with the status of a
-- completion of its scope among the events.
pub composite_scope_rows-IsSpanned :
    (py : Python) (cutoff : ℕ) (logs : Logs) (rows : List Row)
    → composite_scope_rows py cutoff logs ≡ ok rows
    → (r : Row) → In r rows
    → (ts : List Timed) × (events logs ≡ ok ts) × IsSpanned py ts cutoff r
unfolding composite_scope_rows events
composite_scope_rows-IsSpanned py cutoff logs rows h r m =
    let (ts, g, h₁) = bind-ok (events logs) _ rows h in
    let (s, c, h₂) = bind-ok (collect py ts no_scopes) _ rows h₁ in
    let (unsorted, k, h₃) = bind-ok (rows_of py cutoff s.completions s.starts) _ rows h₂ in
    let (values, v, e) = bind-ok (check_events _) _ ts g in
    let (u, p) =
      collect-Paired py ts 0 no_scopes s
        (subst (Ascending 0) (ok_injective _ _ e) (Ascending-by_time values)) nothing-IsPaired c in
    let collected : IsCollected py ts s.completions s.starts = record {
      from = λ j d q. elim (completion-In py j ts d no_scopes s c q) [
        | inl n ↦ absurd (absent_first j d n)
        | inr there ↦ there
      ];
      known = λ j d i o. completion-known py j ts d no_scopes s c i o;
      started = λ j d i. elim (start-In py j ts d no_scopes s c i) [
        | inl n ↦ absurd n
        | inr there ↦ there
      ];
      later = p.later;
    } in
    (
      ts,
      g,
      rows_of-AllSpanned py ts cutoff s.completions s.starts unsorted collected k r
          (In-of_rows_in_order r unsorted (subst (In r) (sym (ok_injective _ _ h₃)) m)),
    )
