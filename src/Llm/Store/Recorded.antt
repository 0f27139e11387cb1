-- ===== src/Llm/Store/Recorded.antt =====
-- minireplay/llm_store.py and minireplay/schema.py: a recorded attempt is read back as a slot, and the
-- same request claims it.
use minireplayer.Prelude.{
  String, ◌≡◌, refl, Bool, true, false, Option, some, List, [], ◌∷◌, ok, ◌==◌, string_eq, beq_refl,
  get_elem?, lookup_or, pair_eq, ok_injective, subst, sym, ◌∙◌,
}
use minireplayer.Json.{Value, obj, str, get, has, is_text, text?, nat?}
use minireplayer.Json.Same.{same}
use minireplayer.Boundary.{Python}
use minireplayer.Llm.Tokens.{Token, token, minus}
use minireplayer.Llm.Shape.{request_shape}
use minireplayer.Llm.Slot.{
  Slot, string, object, digest, natural, boolean, is_integer, are_integers, validate_llm,
}
use minireplayer.Llm.Store.{key, Store}
use minireplayer.Llm.Store.Claim.{has_shape, advance, claim, claim_next}
use minireplayer.Llm.Store.Record.{Call, Answer, attempt_line, token_values}

-- a text that is not empty
abbrev pub IsText : String → Type 0
IsText s = (s == "") ≡ false

string-ok : (s : String) → IsText s → string (str s) ≡ ok s
unfolding string text?
string-ok s h = rw (string, text?, h) refl

token_values-are_integers : (ts : List Token) → are_integers (token_values ts) ≡ true
unfolding are_integers token_values is_integer
token_values-are_integers [] = refl
token_values-are_integers (token n ∷ ts) = token_values-are_integers ts
token_values-are_integers (minus n ∷ ts) = token_values-are_integers ts

-- what makes a call fit for a record: its texts are not empty
abbrev pub IsNamed : String → Call → Type 0
IsNamed span_id c =
    IsText c.attempt_id
    × (IsText span_id
        × (IsText c.caller.actor_id
            × (IsText c.caller.session_id
                × (IsText c.caller.role × (IsText c.caller.target_id × IsText c.api)))))

-- the slot of a recorded attempt
abbrev pub slot_of : Python → (Value → String) → String → Call → Answer → Slot
slot_of py dumps span_id c a = record {
  attempt_id = c.attempt_id;
  span_id = span_id;
  actor_id = c.caller.actor_id;
  session_id = c.caller.session_id;
  role = c.caller.role;
  target_id = c.caller.target_id;
  api = c.api;
  sequence = c.sequence;
  request = c.body;
  request_shape_sha256 = py.sha256_json (request_shape py c.body);
  response = a.response;
  stream = a.stream;
  whole = attempt_line py dumps span_id c a;
}

-- The line that is written for a recorded attempt passes the check of the bundle and is read back as
-- the attempt's slot, if the attempt's texts are not empty, the digest of the request's shape is a
-- digest, and the request is equal to itself and to what its encoding decodes to.
pub attempt_line-validate :
    (py : Python) (loads : String → Option Value) (dumps : Value → String) (span_id : String)
    (c : Call) (a : Answer)
    → IsNamed span_id c
    → digest (str (py.sha256_json (request_shape py c.body)))
      ≡ ok (py.sha256_json (request_shape py c.body))
    → IsText (dumps (obj c.body))
    → loads (dumps (obj c.body)) ≡ some (obj c.body)
    → same (obj c.body) (obj c.body) ≡ true
    → validate_llm py loads (attempt_line py dumps span_id c a) ≡ ok (slot_of py dumps span_id c a)
unfolding validate_llm attempt_line get has is_text object natural boolean is_integer nat?
attempt_line-validate py loads dumps span_id c a (n₁, (n₂, (n₃, (n₄, (n₅, (n₆, n₇)))))) d t l e =
    rw
      (
        string-ok c.attempt_id n₁,
        string-ok span_id n₂,
        string-ok c.caller.actor_id n₃,
        string-ok c.caller.session_id n₄,
        string-ok c.caller.role n₅,
        string-ok c.caller.target_id n₆,
        string-ok c.api n₇,
        string-ok (dumps (obj c.body)) t,
        l,
        e,
        d,
        beq_refl (py.sha256_json (obj c.body)),
        token_values-are_integers a.tokens.prompt,
        token_values-are_integers a.tokens.response,
      )
      refl

has_shape_self :
    (py : Python) (dumps : Value → String) (span_id : String) (c : Call) (a : Answer)
    → has_shape py c.caller c.body (slot_of py dumps span_id c a) ≡ true
unfolding has_shape
has_shape_self py dumps span_id c a = rw (beq_refl (py.sha256_json (request_shape py c.body))) refl

claim-slot_of :
    (py : Python) (dumps : Value → String) (span_id : String) (c : Call) (a : Answer)
    (over : String → Bool) (s : Store)
    → get_elem?
        (lookup_or (key c.caller) [] s.expected)
        (lookup_or (key c.caller) 0 s.replay_sequence)
      ≡ some (slot_of py dumps span_id c a)
    → claim py over c.caller c.body c.api s
      ≡ (advance (key c.caller) s, ok (slot_of py dumps span_id c a))
unfolding claim claim_next
claim-slot_of py dumps span_id c a over s h =
    rw (h, beq_refl c.api, has_shape_self py dumps span_id c a) refl

-- A request that is sent again by the caller that recorded it, with the same body to the same API,
-- when the slot that is read back from its line is the next one of its lane, is handed that slot,
-- and the lane moves on by it, if the line can be read: the attempt's texts are not empty, the digest
-- of the request's shape is a digest, and the request is equal to itself and to what its encoding
-- decodes to.
pub claim-recorded :
    (py : Python) (loads : String → Option Value) (dumps : Value → String) (span_id : String)
    (c : Call) (a : Answer) (over : String → Bool) (s : Store) (slot : Slot)
    → IsNamed span_id c
    → digest (str (py.sha256_json (request_shape py c.body)))
      ≡ ok (py.sha256_json (request_shape py c.body))
    → IsText (dumps (obj c.body))
    → loads (dumps (obj c.body)) ≡ some (obj c.body)
    → same (obj c.body) (obj c.body) ≡ true
    → validate_llm py loads (attempt_line py dumps span_id c a) ≡ ok slot
    → get_elem?
        (lookup_or (key c.caller) [] s.expected)
        (lookup_or (key c.caller) 0 s.replay_sequence)
      ≡ some slot
    → claim py over c.caller c.body c.api s ≡ (advance (key c.caller) s, ok slot)
claim-recorded py loads dumps span_id c a over s slot n d t l e read h =
    let same_slot =
      ok_injective _ _ (sym (attempt_line-validate py loads dumps span_id c a n d t l e) ∙ read) in
    subst
      (λ x.
        get_elem? (lookup_or (key c.caller) [] s.expected)
            (lookup_or (key c.caller) 0 s.replay_sequence)
          ≡ some x
        → claim py over c.caller c.body c.api s ≡ (advance (key c.caller) s, ok x))
      same_slot (claim-slot_of py dumps span_id c a over s) h
