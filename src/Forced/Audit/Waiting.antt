-- ===== src/Forced/Audit/Waiting.antt =====
-- minireplay/forced.py: no request waits for a record that was published.
use minireplayer.Prelude.{
  ℕ, String, ◌≡◌, refl, sym, ap, ◌∙◌, subst, ◌⊎◌, inl, inr, Bool, true, false, Option, none, some,
  List, [], ◌∷◌, Result, ok, raise, Exception, validation_error, In, In-append_left,
  In-append_right, lookup, insert, remove, lookup-insert, lookup-remove, nat_eq, string_eq,
  Bool-cases, if◌then◌else◌, ◌==◌, Dict, leb, length, drop,
}
use minireplayer.Json.{Value, Fields, text?, is_text, get}
use minireplayer.Bytes.{Bytes}
use minireplayer.Forced.Audit.{
  Log, Reader, same_file, take_chunk, read_log, read_new_records, futures_of, publish_as,
  publish_new, publish_named, publish_one, then_publish, publish, all_futures, fail, pump_published,
  pump_read, pump,
}
use minireplayer.Forced.Audit.Settled.{IsSettled, Waits, settle_all-Settles, remove_other}

-- who has asked for which record
abbrev pub Asked : Type 0
Asked = List (String × ℕ)

-- No one waits for a record that was seen, and who has asked waits or was settled.
abbrev pub IsFair : Reader → Asked → Type 0
IsFair r asked =
    ((i : String) (d : Fields) → lookup i r.seen ≡ some d → lookup i r.waiters ≡ none)
    × ((i : String) (f : ℕ) → In (i, f) asked → Waits i f r ⊎ IsSettled f r)

publish_as-IsFair :
    (i : String) (d : Fields) (r : Reader) (asked : Asked)
    → IsFair r asked
    → IsFair (publish_as i d r) asked
unfolding publish_as
publish_as-IsFair i d r asked (a, b) =
    let r₁ : Reader = record r { seen = insert i d r.seen; waiters = remove i r.waiters } in
    let ((seen, (waiters, kept)), done) =
      settle_all-Settles (futures_of (lookup i r.waiters)) (ok d) r₁ in
    (
      λ j e h. ap (lookup j) waiters ∙ lookup-remove j i r.waiters ∙ elim (Bool-cases (j == i)) [
        | inl y ↦ rw y refl
        | inr n ↦
            rw n (a j e (rw n at (sym (lookup-insert j i d r.seen) ∙ sym (ap (lookup j) seen) ∙ h)))
      ],
      λ j f m. elim (Bool-cases (j == i)) [
        | inl y ↦ elim (b j f m) [
          | inl w ↦ inr (done f (subst (λ k. Waits k f r) ((string_eq.beq_iff j i).0 y) w))
          | inr s ↦ inr (kept f s)
        ]
        | inr n ↦ elim (b j f m) [
          | inl w ↦ inl (
              subst (λ o. In f (futures_of o))
                (sym (ap (lookup j) waiters ∙ remove_other j i r.waiters n)) w)
          | inr s ↦ inr (kept f s)
        ]
      ],
    )

module _ (asked : Asked) where
  new-IsFair :
      (o : Option Fields) (i : String) (d : Fields) (r : Reader)
      → IsFair r asked
      → IsFair (publish_new o i d r).0 asked
  new-IsFair none i d r h = publish_as-IsFair i d r asked h
  new-IsFair (some e) i d r h = h

  named-IsFair :
      (o : Option String) (d : Fields) (r : Reader)
      → IsFair r asked
      → IsFair (publish_named o d r).0 asked
  named-IsFair none d r h = h
  named-IsFair (some i) d r h = new-IsFair (lookup i r.seen) i d r h

  one-IsFair : (d : Fields) (r : Reader) → IsFair r asked → IsFair (publish_one d r).0 asked
  unfolding publish_one
  one-IsFair d r h =
      elim (Bool-cases (is_text "native-agent-replay.vllm-audit/v4" (get "schema_version" d))) [
        | inl y ↦ rw y (named-IsFair (text? (get "request_id" d)) d r h)
        | inr n ↦ rw n h
      ]

  then-IsFair :
      (p : Reader × Result (Unit {0})) (rest : Reader → Reader × Result (Unit {0}))
      → IsFair p.0 asked
      → ((r : Reader) → IsFair r asked → IsFair (rest r).0 asked)
      → IsFair (then_publish p rest).0 asked
  then-IsFair (r, ok _) rest h k = k r h
  then-IsFair (r, raise e) rest h k = h

  publish-IsFair : (ds : List Fields) (r : Reader) → IsFair r asked → IsFair (publish ds r).0 asked
  unfolding publish
  publish-IsFair [] r h = h
  publish-IsFair (d ∷ ds) r h =
      then-IsFair (publish_one d r) (publish ds) (one-IsFair d r h) (publish-IsFair ds)

  In-all_futures :
      (i : String) (f : ℕ) (m : Dict String (List ℕ))
      → In f (futures_of (lookup i m))
      → In f (all_futures m)
  unfolding all_futures lookup
  In-all_futures i f [] h = h
  In-all_futures i f ((j, fs) ∷ m) h = elim (Bool-cases (i == j)) [
    | inl y ↦ In-append_left f fs (all_futures m) (rw y at h)
    | inr n ↦ In-append_right f fs (all_futures m) (In-all_futures i f m (rw n at h))
  ]

  fail-IsFair : (e : Exception) (r : Reader) → IsFair r asked → IsFair (fail e r) asked
  unfolding fail lookup
  fail-IsFair e r (a, b) =
      let r₁ : Reader = record r { failure = some e; waiters = [] } in
      let ((seen, (waiters, kept)), done) =
        settle_all-Settles (all_futures r.waiters) (raise e) r₁ in
      (
        λ j d h. ap (lookup j) waiters,
        λ j f m. elim (b j f m) [
          | inl w ↦ inr (done f (In-all_futures j f r.waiters w))
          | inr s ↦ inr (kept f s)
        ],
      )

  if-IsFair :
      (b : Bool) (p q : Reader × Result (List Fields))
      → IsFair p.0 asked
      → IsFair q.0 asked
      → IsFair (if b then p else q).0 asked
  if-IsFair true p q h k = h
  if-IsFair false p q h k = k

  take_chunk-IsFair :
      (loads : Bytes → Option Value) (chunk : Bytes) (r : Reader)
      → IsFair r asked
      → IsFair (take_chunk loads chunk r).0 asked
  unfolding take_chunk
  take_chunk-IsFair loads [] r h = h
  take_chunk-IsFair loads (c ∷ chunk) r h = h

  -- a read changes what is known of the file and nothing else
  read-IsFair :
      (loads : Bytes → Option Value) (f : Option Log) (r : Reader)
      → IsFair r asked
      → IsFair (read_new_records loads f r).0 asked
  unfolding read_new_records read_log
  read-IsFair loads none r h = h
  read-IsFair loads (some f) r h =
      if-IsFair (same_file r.identity f.identity) _ (r, raise validation_error)
        (if-IsFair (leb r.offset (length f.content)) _
          (record r { identity = some f.identity }, raise validation_error)
          (take_chunk-IsFair loads (drop r.offset f.content)
            (record r { identity = some f.identity; offset = length f.content }) h)
          h)
        h

  pump_published-IsFair :
      (p : Reader × Result (Unit {0})) → IsFair p.0 asked → IsFair (pump_published p) asked
  pump_published-IsFair (r, ok _) h = h
  pump_published-IsFair (r, raise e) h = fail-IsFair e r h

  pump_read-IsFair :
      (p : Reader × Result (List Fields)) → IsFair p.0 asked → IsFair (pump_read p) asked
  pump_read-IsFair (r, ok ds) h = pump_published-IsFair (publish ds r) (publish-IsFair ds r h)
  pump_read-IsFair (r, raise e) h = fail-IsFair e r h

  pub pump-IsFair :
      (loads : Bytes → Option Value) (f : Option Log) (r : Reader)
      → IsFair r asked
      → IsFair (pump loads f r) asked
  unfolding pump
  pump-IsFair loads f r h = pump_read-IsFair (read_new_records loads f r) (read-IsFair loads f r h)
