-- ===== src/Forced/Accepted.antt =====
-- minireplay/forced.py and vllm_plugin/src/native_replay_vllm/protocol.py: what the client signs is
-- what the engine's plugin expects.
use Prim.Native.String.{◌++◌ as text_append}
use minireplayer.Prelude.{
  ℕ, ◌+◌, ◌-◌, ◌≤◌, ◌≡◌, refl, ap, subst, String, List, [], ◌∷◌, ok, ◌>>◌, require, length, leb,
  leb→le, arith, bind-ok, require-ok, ok_injective,
}
use minireplayer.Json.{Fields, Value, int, str, get}
use minireplayer.Engine.{Crypto, request_id_pattern, validate_request, validate_sampler_window}
use minireplayer.Engine.Signing.{validate_sampler_window-sign}
use minireplayer.Engine
use minireplayer.Forced.{
  Evidence, joined, token_payload, sign_tokens, sign_capture, sampler_window_payload,
  sign_sampler_window, token_list, window_start, engine_evidence,
}

joined-same : (c : Crypto) (ts : List ℕ) → joined c ts ≡ Engine.joined c ts
unfolding joined Engine.joined
joined-same c [] = refl
joined-same c (t ∷ []) = refl
joined-same c (t ∷ u ∷ ts) = rw (joined-same c (u ∷ ts)) refl

sign_tokens-same :
    (c : Crypto) (secret i : String) (ts : List ℕ)
    → sign_tokens c secret i ts ≡ Engine.sign_tokens c secret i ts
unfolding sign_tokens Engine.sign_tokens token_payload Engine.token_payload
sign_tokens-same c secret i ts =
    ap (λ x. c.hmac_sha256 secret (text_append i (text_append ":" x))) (joined-same c ts)

sign_sampler_window-same :
    (c : Crypto) (secret i : String) (start count : ℕ)
    → sign_sampler_window c secret i start count ≡ Engine.sign_sampler_window c secret i start count
unfolding sign_sampler_window Engine.sign_sampler_window sampler_window_payload
    Engine.sampler_window_payload
sign_sampler_window-same c secret i start count = refl

-- The three signatures of the client are the three signatures of the plugin, for every secret,
-- request identifier, token sequence and window.
pub signatures-same :
    (c : Crypto) (secret i : String) (ts : List ℕ) (start count : ℕ)
    → (sign_tokens c secret i ts ≡ Engine.sign_tokens c secret i ts)
      × (sign_capture c secret i ≡ Engine.sign_capture c secret i)
      × (sign_sampler_window c secret i start count
          ≡ Engine.sign_sampler_window c secret i start count)
unfolding sign_capture Engine.sign_capture
signatures-same c secret i ts start count =
    (sign_tokens-same c secret i ts, refl, sign_sampler_window-same c secret i start count)

abbrev Fits : List ℕ → Evidence → Type 0
Fits committed e =
    (e.committed_sample_count ≡ length committed)
    × (e.committed_sample_start + e.committed_sample_count ≤ e.sampled_token_count)

Fits-of :
    (a : Value) (sampled committed : List ℕ) (s : ℕ) (e : Evidence)
    → (require (leb (s + length committed) (length sampled))
        >> ok (record {
          audit_schema = a;
          sampled_token_count = length sampled;
          committed_sample_start = s;
          committed_sample_count = length committed;
          uncommitted_prefix_count = s;
          uncommitted_suffix_count = length sampled - s - length committed;
        }))
      ≡ ok e
    → Fits committed e
Fits-of a sampled committed s e h =
    let (fit, made) = require-ok (leb (s + length committed) (length sampled)) _ e h in
    subst (Fits committed) (ok_injective _ e made) (refl, leb→le _ _ fit)

engine_evidence-Fits :
    (audit : Fields) (committed : List ℕ) (e : Evidence)
    → engine_evidence audit committed ≡ ok e
    → Fits committed e
unfolding engine_evidence
engine_evidence-Fits audit committed e h =
    let (sampled, _, rest) = bind-ok (token_list (get "sampled_token_ids" audit)) _ e h in
    let (_, found) = require-ok (leb (length committed) (length sampled)) _ e rest in
    let (s, _, last) = bind-ok (window_start audit sampled committed) _ e found in
    Fits-of (get "schema_version" audit) sampled committed s e last

-- The window of the evidence that the client keeps, signed by the client, is accepted by the plugin
-- for a request that commits the same number of tokens.
pub engine_evidence-accepted :
    (c : Crypto) (secret i : String) (audit : Fields) (committed : List ℕ) (e : Evidence)
    → engine_evidence audit committed ≡ ok e
    → validate_sampler_window c secret i
        (int (e.committed_sample_start))
        (int (e.sampled_token_count))
        (length committed)
        (str (sign_sampler_window c secret i (e.committed_sample_start) (e.sampled_token_count)))
      ≡ ok (e.committed_sample_start, e.sampled_token_count)
engine_evidence-accepted c secret i audit committed e h =
    let (count, bound) = engine_evidence-Fits audit committed e h in
    rw (sign_sampler_window-same c secret i (e.committed_sample_start) (e.sampled_token_count))
      (validate_sampler_window-sign c secret i _ _ _ (omega (arith, count, bound)))
