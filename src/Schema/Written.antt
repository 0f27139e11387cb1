-- ===== src/Schema/Written.antt =====
-- minireplayer/schema.py and minireplayer/boundary.py: which records that the ledger writes at a
-- completion pass the checks of a bundle.
use minireplayer.Prelude.{
  ℕ, ◌≤◌, String, ◌≡◌, refl, ap, ◌≢◌, inl, inr, true, not, Option, none, some, [], ◌∷◌, ok,
  ok_injective, subst, beq_refl, le→leb, ◌==◌, string_eq, Bool-cases,
}
use minireplayer.Json.{Value, Fields, str, obj, get, put, is_text, text?, opt_str}
use minireplayer.Boundary.{
  Kind, dispatch, tool, grader, artifact, kind_text, id_field, Reservation, Ledger, Python,
}
use minireplayer.Boundary.Complete.{
  span_of, common, schema, dispatch_record, extend, logical_arguments,
}
use minireplayer.Llm.Slot.{string, object, is_integer}
use minireplayer.Schema.{
  strings, timespan, integer_le, is_text_or_none, is_name_or_none, is_none, require_among,
  same_truth, validate_span, validate_dispatch,
}

pub string-ok : (s : String) → (s ≢ "") → string (str s) ≡ ok s
unfolding string text?
string-ok s h = elim (Bool-cases (s == "")) [
  | inl y ↦ absurd (h ((string_eq.beq_iff s "").0 y))
  | inr n ↦ rw (string, n) refl
]

kind_text-ok : (k : Kind) → string (str (kind_text k)) ≡ ok (kind_text k)
unfolding string text? kind_text
kind_text-ok dispatch = refl
kind_text-ok tool = refl
kind_text-ok grader = refl
kind_text-ok artifact = refl

-- The identifiers of a reservation are not empty, and it does not end before it started.
pub record IsNamed (r : Reservation) (ended : ℕ) : Type 0 where
  pub record_named : r.record_id ≢ ""
  pub span_named : r.span_id ≢ ""
  pub actor_named : r.actor_id ≢ ""
  pub in_time : r.started_at_ns ≤ ended

-- The span that the ledger writes for a named reservation passes the check of spans where the
-- parent that its request names is a text or none.
pub span_of-validate_span :
    (r : Reservation) (written : Fields) (ended : ℕ)
    → IsNamed r ended
    → is_text_or_none (get "parent_span_id" r.request) ≡ true
    → validate_span (span_of r written ended) ≡ ok tt
unfolding validate_span span_of strings get is_text timespan is_integer integer_le
span_of-validate_span r written ended n p =
    rw
      (
        string-ok r.span_id n.span_named,
        string-ok r.actor_id n.actor_named,
        kind_text-ok r.kind,
        p,
        le→leb r.started_at_ns ended n.in_time,
      )
      refl

pub is_name_or_none-opt_str : (o : Option String) → o ≢ some "" → is_name_or_none (opt_str o) ≡ true
unfolding is_name_or_none opt_str
is_name_or_none-opt_str none h = refl
is_name_or_none-opt_str (some s) h = elim (Bool-cases (s == "")) [
  | inl y ↦ absurd (h (ap some ((string_eq.beq_iff s "").0 y)))
  | inr n ↦ ap not n
]

-- What a dispatch asks for and how it ended, as the check of dispatches wants it.
pub record IsDispatched (r : Reservation) (payload arguments origin : Fields) (name kind : String)
    : Type 0 where
  pub named : get "name" r.request ≡ str name
  pub name_some : name ≢ ""
  pub origin_eq : get "origin" r.request ≡ obj origin
  pub origin_kind : get "kind" origin ≡ str kind
  pub kind_some : kind ≢ ""
  pub lane_some : r.lane ≢ some ""
  pub resolved :
      require_among ("executed" ∷ "rejected" ∷ "failed-before-entry" ∷ []) (get "status" payload)
      ≡ ok tt
  pub execution : is_text_or_none (get "execution_call_id" payload) ≡ true
  pub agrees :
      same_truth
        (is_text "executed" (get "status" payload))
        (not (is_none (get "execution_call_id" payload)))
      ≡ true

written_dispatch :
    (py : Python) (l : Ledger) (r : Reservation) (payload written arguments origin : Fields)
    (workspace : Value) (ended : ℕ) (name kind : String)
    → IsNamed r ended
    → IsDispatched r payload arguments origin name kind
    → logical_arguments py l r.request ≡ ok (obj arguments, workspace)
    → dispatch_record py l (record r { kind = dispatch }) payload ended ≡ ok written
    → validate_dispatch py.sha256_json written ≡ ok tt
unfolding validate_dispatch dispatch_record strings get is_text timespan is_integer integer_le
    extend common put schema id_field object
written_dispatch py l r payload written arguments origin workspace ended name kind n d a h =
    subst (λ w. validate_dispatch py.sha256_json w ≡ ok tt) (ok_injective _ _ (rw a at h))
      (rw
        (
          d.named,
          d.origin_eq,
          d.origin_kind,
          string-ok r.record_id n.record_named,
          string-ok r.span_id n.span_named,
          string-ok r.actor_id n.actor_named,
          string-ok name d.name_some,
          string-ok kind d.kind_some,
          beq_refl (py.sha256_json (obj arguments)),
          is_name_or_none-opt_str r.lane d.lane_some,
          d.resolved,
          d.execution,
          d.agrees,
          le→leb r.started_at_ns ended n.in_time,
        )
        refl)

-- The record that the ledger writes for a dispatch passes the check of dispatches where the
-- reservation is named and in time, its lane is not empty, its arguments are an object, the
-- request names the tool and the kind of its origin, and the completion resolves it: a known
-- status, which is `executed` exactly if it names an execution.
pub dispatch_record-validate_dispatch :
    (py : Python) (l : Ledger) (r : Reservation) (payload written arguments origin : Fields)
    (workspace : Value) (ended : ℕ) (name kind : String)
    → r.kind ≡ dispatch
    → IsNamed r ended
    → IsDispatched r payload arguments origin name kind
    → logical_arguments py l r.request ≡ ok (obj arguments, workspace)
    → dispatch_record py l r payload ended ≡ ok written
    → validate_dispatch py.sha256_json written ≡ ok tt
dispatch_record-validate_dispatch py l r payload written arguments origin workspace ended name kind
      k n d a h =
    written_dispatch py l r payload written arguments origin workspace ended name kind n d a
      (subst (λ q. dispatch_record py l (record r { kind = q }) payload ended ≡ ok written) k h)
