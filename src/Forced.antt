-- ===== src/Forced.antt =====
-- minireplay/forced.py: the client's side of forced decoding. The signatures, the window of the
-- committed tokens, and the body that is sent to the engine.
pub mod Window
pub mod Accepted
pub mod Audit
pub mod Body
pub mod Sent
mod Tests
use Prim.Native.String.{◌++◌ as text_append}
use minireplayer.Prelude.{
  ℕ, zero, suc, ◌+◌, ◌-◌, String, Bool, true, false, not, ◌&&◌, ◌||◌, Option, none, some, List, [],
  ◌∷◌, Result, ok, raise, validation_error, key_error, value_error, attribute_error, ◌>>=◌, ◌>>◌,
  require, length, take, drop, leb, ltb, if◌then◌else◌, ◌==◌, nat_eq, string_eq, list_eq, elem,
  nat_beq,
}
use minireplayer.Json.{
  Value, Items, Fields, null, bool, int, str, arr, obj, nil, cons, end, field, get, get_or, has,
  put, is_text, truth, nat?,
}
use minireplayer.Json.Same.{same}
use minireplayer.Engine.{Crypto, number?, numbers}

-- `token_payload`
unfoldable pub joined : Crypto → List ℕ → String
joined c [] = ""
joined c (t ∷ []) = c.decimal t
joined c (t ∷ u ∷ ts) = text_append (c.decimal t) (text_append "," (joined c (u ∷ ts)))

unfoldable pub token_payload : Crypto → String → List ℕ → String
token_payload c request_id token_ids = text_append request_id (text_append ":" (joined c token_ids))

-- `sign_tokens`
unfoldable pub sign_tokens : Crypto → String → String → List ℕ → String
sign_tokens c secret request_id token_ids =
    c.hmac_sha256 secret (token_payload c request_id token_ids)

-- `sign_capture`
unfoldable pub sign_capture : Crypto → String → String → String
sign_capture c secret request_id = c.hmac_sha256 secret (text_append "capture:" request_id)

-- `sampler_window_payload`
unfoldable pub sampler_window_payload : Crypto → String → ℕ → ℕ → String
sampler_window_payload c request_id start count = text_append "sampler-window:" (
    text_append request_id
      (text_append ":" (text_append (c.decimal start) (text_append ":" (c.decimal count)))))

-- `sign_sampler_window`
unfoldable pub sign_sampler_window : Crypto → String → String → ℕ → ℕ → String
sign_sampler_window c secret request_id start count =
    c.hmac_sha256 secret (sampler_window_payload c request_id start count)

-- the starts at which the committed tokens stand among the sampled ones; `start` counts the tokens
-- before `sampled`, and a start past the last one finds too few tokens
unfoldable pub starts_from : ℕ → List ℕ → List ℕ → List ℕ
starts_from start committed [] = if take (length committed) [] == committed then start ∷ [] else []
starts_from start committed (t ∷ sampled) =
    let rest = starts_from (suc start) committed sampled in
    if take (length committed) (t ∷ sampled) == committed then start ∷ rest else rest

abbrev pub the_only : List ℕ → Result ℕ
the_only (start ∷ []) = ok start
the_only _ = raise validation_error

-- `committed_sample_window`
unfoldable pub committed_sample_window : List ℕ → List ℕ → Result ℕ
committed_sample_window sampled committed =
    require (ltb 0 (length committed)) >> the_only (starts_from 0 committed sampled)

-- `audit.get("sampled_token_ids")` of an audit whose tokens are tokens
abbrev token_list : Value → Result (List ℕ)
token_list (arr xs) = elim (numbers xs) [ none ↦ raise validation_error | some ts ↦ ok ts ]
token_list _ = raise validation_error

-- the engine's window, as it is kept with an attempt
pub record Evidence : Type 0 where
  pub audit_schema : Value
  pub sampled_token_count : ℕ
  pub committed_sample_start : ℕ
  pub committed_sample_count : ℕ
  pub uncommitted_prefix_count : ℕ
  pub uncommitted_suffix_count : ℕ

abbrev recorded_start : Value → Result ℕ
recorded_start (int n) = ok n
recorded_start _ = raise validation_error

-- where the committed tokens start: found in a capture, and read in a forced audit
unfoldable pub window_start : Fields → List ℕ → List ℕ → Result ℕ
window_start audit sampled committed =
    if is_text "capture" (get "mode" audit)
    then committed_sample_window sampled committed
    else recorded_start (get "committed_sample_start" audit)

-- `engine_evidence`
unfoldable pub engine_evidence : Fields → List ℕ → Result Evidence
engine_evidence audit committed = do
  sampled ← token_list (get "sampled_token_ids" audit)
  require (leb (length committed) (length sampled))
  start ← window_start audit sampled committed
  require (leb (start + length committed) (length sampled))
  ok (record {
    audit_schema = get "schema_version" audit;
    sampled_token_count = length sampled;
    committed_sample_start = start;
    committed_sample_count = length committed;
    uncommitted_prefix_count = start;
    uncommitted_suffix_count = length sampled - start - length committed;
  })
