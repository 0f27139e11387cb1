-- ===== src/Llm/Tokens/Stripped.antt =====
-- minireplay/llm_store.py: what is left of a response when its token fields are stripped.
use mathlib.Core.Bool.{true≢false}
use minireplayer.Prelude.{
  String, ◌≡◌, refl, sym, ap, ap₂, ◌∙◌, true, [], ◌∷◌, elem, ◌==◌, string_eq, Bool-cases, inl, inr,
}
use minireplayer.Json.{
  Value, Items, Fields, null, bool, int, negative, float, str, arr, obj, nil, cons, end, field, get,
}
use minireplayer.Llm.Tokens.{
  is_token_field, strip_token_fields, strip_items, strip_fields, Tokens, unless_known, note_tokens,
  visit_tokens, visit_items, visit_children, collect_token_fields,
}

mutual
  unfolding strip_token_fields

  -- Stripping twice is stripping once.
  pub strip-strip : (v : Value) → strip_token_fields (strip_token_fields v) ≡ strip_token_fields v
  strip-strip (obj d) = ap obj (strip_fields_idem d)
  strip-strip (arr xs) = ap arr (strip_items_idem xs)
  strip-strip (str s) = refl
  strip-strip (float s) = refl
  strip-strip (int n) = refl
  strip-strip (negative n) = refl
  strip-strip (bool b) = refl
  strip-strip null = refl

  strip_items_idem : (xs : Items) → strip_items (strip_items xs) ≡ strip_items xs
  strip_items_idem nil = refl
  strip_items_idem (cons x xs) = ap₂ cons (strip-strip x) (strip_items_idem xs)

  strip_fields_idem : (d : Fields) → strip_fields (strip_fields d) ≡ strip_fields d
  strip_fields_idem end = refl
  strip_fields_idem (field k v rest) = elim (Bool-cases (is_token_field k)) [
    | inl y ↦ rw y (strip_fields_idem rest)
    | inr n ↦ rw (n, n) (ap₂ (field k) (strip-strip v) (strip_fields_idem rest))
  ]

get-strip_fields :
    (k : String) (d : Fields) → is_token_field k ≡ true → get k (strip_fields d) ≡ null
unfolding strip_fields get
get-strip_fields k end h = refl
get-strip_fields k (field j v rest) h = elim (Bool-cases (is_token_field j)) [
  | inl y ↦ rw y (get-strip_fields k rest h)
  | inr n ↦ elim (Bool-cases (k == j)) [
    | inl e ↦ absurd (true≢false (sym h ∙ ap is_token_field ((string_eq.beq_iff k j).0 e) ∙ n))
    | inr e ↦ rw (n, e) (get-strip_fields k rest h)
  ]
]

unless_known-null : (known : _) → unless_known known null ≡ known
unless_known-null [] = refl
unless_known-null (t ∷ ts) = refl

note_tokens-strip_fields : (d : Fields) (t : Tokens) → note_tokens (strip_fields d) t ≡ t
unfolding note_tokens is_token_field elem
note_tokens-strip_fields d t =
    rw (get-strip_fields "prompt_token_ids" d refl, get-strip_fields "token_ids" d refl)
      (ap (λ p. record t { prompt = p }) (unless_known-null t.prompt))

mutual
  unfolding strip_token_fields visit_tokens

  visit-strip : (v : Value) (t : Tokens) → visit_tokens (strip_token_fields v) t ≡ t
  visit-strip (obj d) t =
      ap (visit_children (strip_fields d)) (note_tokens-strip_fields d t) ∙ children-strip d t
  visit-strip (arr xs) t = items-strip xs t
  visit-strip (str s) t = refl
  visit-strip (float s) t = refl
  visit-strip (int n) t = refl
  visit-strip (negative n) t = refl
  visit-strip (bool b) t = refl
  visit-strip null t = refl

  items-strip : (xs : Items) (t : Tokens) → visit_items (strip_items xs) t ≡ t
  items-strip nil t = refl
  items-strip (cons x xs) t = ap (visit_items (strip_items xs)) (visit-strip x t) ∙ items-strip xs t

  children-strip : (d : Fields) (t : Tokens) → visit_children (strip_fields d) t ≡ t
  children-strip end t = refl
  children-strip (field k v rest) t = elim (Bool-cases (is_token_field k)) [
    | inl y ↦ rw y (children-strip rest t)
    | inr n ↦
        rw n (ap (visit_children (strip_fields rest)) (visit-strip v t) ∙ children-strip rest t)
  ]

-- No token is left to collect, at any depth, in a response that was stripped.
pub collect-strip :
    (v : Value)
    → collect_token_fields (strip_token_fields v) ≡ record { prompt = []; response = [] }
unfolding collect_token_fields
collect-strip v = visit-strip v (record { prompt = []; response = [] })
