-- ===== src/Forced/Sent.antt =====
-- minireplay/forced.py and vllm_plugin/src/native_replay_vllm/protocol.py: the request that forces
-- the recorded tokens is one that the plugin accepts.
use minireplayer.Prelude.{
  ℕ, ◌+◌, ◌≤◌, ◌≡◌, refl, sym, ap, ◌∙◌, String, Bool, true, false, not, Option, some, List, [], ◌∷◌,
  Result, ok, length, ltb, all, bind-ok, require-ok, ok_injective, if◌then◌else◌, string_eq,
}
use minireplayer.Json.{Value, Fields, int, str, arr, obj, get, has}
use minireplayer.Json.Access.{get-put}
use minireplayer.Engine.{Crypto, request_id_pattern, validate_request, validate_sampler_window}
use minireplayer.Engine.Signing.{
  items_of, validate_request-sign_tokens, validate_sampler_window-sign,
}
use minireplayer.Forced.{sign_tokens, sign_sampler_window}
use minireplayer.Forced.Accepted.{signatures-same}
use minireplayer.Forced.Body.{
  Library, Recorded, replay_audit_request_id, ordered_body, with_tokens, own_arguments, reserved,
  forced_arguments, window_of, forced_body, forced_upstream_body,
}

-- the body that a forced attempt makes, from the arguments of the recorded request
abbrev IsForced : Crypto → String → String → Recorded → ℕ × ℕ → Fields → Type 0
IsForced c secret i e window body =
    (own : Fields) × (get "vllm_xargs" body ≡ obj (forced_arguments c secret i e window own))
    × (ltb 0 (length e.response_token_ids) ≡ true)

forced_body-IsForced :
    (lib : Library) (c : Crypto) (secret : String) (namespace : Option String) (e : Recorded)
    (window : ℕ × ℕ) (b body : Fields)
    → e.engine ≡ some window
    → forced_body lib c secret namespace e b ≡ ok body
    → IsForced c secret (replay_audit_request_id lib namespace e.attempt_id) e window body
unfolding forced_body
forced_body-IsForced lib c secret namespace e window b body w h =
    let (some_tokens, h₁) = require-ok (ltb 0 (length e.response_token_ids)) _ body h in
    let (v, is, h₂) = bind-ok (window_of e.engine) _ body h₁ in
    let (own, _, h₃) = bind-ok (own_arguments lib b) _ body h₂ in
    let (_, h₄) = require-ok (all (λ k. not (has k own)) reserved) _ body h₃ in
    let same : v ≡ window = ok_injective v window (sym is ∙ ap window_of w) in
    let i = replay_audit_request_id lib namespace e.attempt_id in
    (
      own,
      ap (get "vllm_xargs") (sym (ok_injective _ body h₄))
          ∙ get-put "vllm_xargs" "vllm_xargs" (obj (forced_arguments c secret i e v own)) b
          ∙ ap (λ x. obj (forced_arguments c secret i e x own)) same,
      some_tokens,
    )

module _ (c : Crypto) (secret i : String) (e : Recorded) (window : ℕ × ℕ) (own : Fields) where
  abbrev sent : String → Value
  sent k = get k (forced_arguments c secret i e window own)

  sent-request_id : sent "native_replay_request_id" ≡ str i
  unfolding forced_arguments
  sent-request_id = simp (get-put) refl

  sent-tokens :
      (sent "native_replay_token_ids" ≡ arr (items_of e.response_token_ids))
      × (sent "native_replay_signature" ≡ str (sign_tokens c secret i e.response_token_ids))
  unfolding forced_arguments
  sent-tokens = (simp (get-put) refl, simp (get-put) refl)

  sent-prompt :
      (sent "native_replay_prompt_token_ids" ≡ arr (items_of e.prompt_token_ids))
      × (sent "native_replay_prompt_signature" ≡ str (sign_tokens c secret i e.prompt_token_ids))
  unfolding forced_arguments
  sent-prompt = (simp (get-put) refl, simp (get-put) refl)

  sent-window :
      (sent "native_replay_committed_sample_start" ≡ int window.0)
      × (sent "native_replay_sampled_token_count" ≡ int window.1)
      × (sent "native_replay_sampler_signature"
          ≡ str (sign_sampler_window c secret i window.0 window.1))
  unfolding forced_arguments
  sent-window = (simp (get-put) refl, simp (get-put) refl, simp (get-put) refl)

  -- what the plugin makes of the arguments that it is sent
  abbrev pub Accepted : Type 0
  Accepted =
      (validate_request c secret (sent "native_replay_request_id") (sent "native_replay_token_ids")
          (sent "native_replay_signature")
        ≡ ok (i, e.response_token_ids))
      × (validate_request c secret (str i) (sent "native_replay_prompt_token_ids")
            (sent "native_replay_prompt_signature")
          ≡ ok (i, e.prompt_token_ids))
      × (validate_sampler_window c secret i (sent "native_replay_committed_sample_start")
            (sent "native_replay_sampled_token_count") (length e.response_token_ids)
            (sent "native_replay_sampler_signature")
          ≡ ok window)

  request-accepted :
      (ts : List ℕ)
      → ltb 0 (length ts) ≡ true
      → c.fullmatch request_id_pattern i ≡ true
      → validate_request c secret (str i) (arr (items_of ts)) (str (sign_tokens c secret i ts))
        ≡ ok (i, ts)
  request-accepted [] n m = cc
  request-accepted (t ∷ ts) n m =
      rw ((signatures-same c secret i (t ∷ ts) 0 0).0)
        (validate_request-sign_tokens c secret i t ts m)

  window-accepted :
      (n : ℕ)
      → window.0 + n ≤ window.1
      → validate_sampler_window c secret i
          (int window.0)
          (int window.1)
          n
          (str (sign_sampler_window c secret i window.0 window.1))
        ≡ ok window
  window-accepted n h =
      rw ((signatures-same c secret i [] window.0 window.1).2)
        (validate_sampler_window-sign c secret i window.0 window.1 n h)

  arguments-Accepted :
      ltb 0 (length e.response_token_ids) ≡ true
      → ltb 0 (length e.prompt_token_ids) ≡ true
      → c.fullmatch request_id_pattern i ≡ true
      → window.0 + length e.response_token_ids ≤ window.1
      → Accepted
  arguments-Accepted n p m h =
      let (start, count, signed) = sent-window in
      (
        rw (sent-request_id, sent-tokens.0, sent-tokens.1)
            (request-accepted e.response_token_ids n m),
        rw (sent-prompt.0, sent-prompt.1) (request-accepted e.prompt_token_ids p m),
        rw (start, count, signed) (window-accepted (length e.response_token_ids) h),
      )

-- The body that is built for a recorded attempt that did not fail, which has prompt tokens, whose
-- window leaves room for its tokens and whose request identifier has the right form, carries
-- arguments that pass each of the plugin's checks of a signature: it reads the identifier, the
-- recorded response tokens, the recorded prompt tokens and the window from them.
pub forced_upstream_body-Accepted :
    (lib : Library) (c : Crypto) (secret : String) (namespace : Option String) (api : String)
    (request : Fields) (e : Recorded) (window : ℕ × ℕ) (body : Fields)
    → e.failed ≡ false
    → e.engine ≡ some window
    → ltb 0 (length e.prompt_token_ids) ≡ true
    → window.0 + length e.response_token_ids ≤ window.1
    → c.fullmatch request_id_pattern (replay_audit_request_id lib namespace e.attempt_id) ≡ true
    → forced_upstream_body lib c secret namespace api request e ≡ ok body
    → (own : Fields) × (get "vllm_xargs" body
        ≡ obj (
            forced_arguments c secret
              (replay_audit_request_id lib namespace e.attempt_id)
              e
              window
              own))
      × Accepted c secret (replay_audit_request_id lib namespace e.attempt_id) e window own
unfolding forced_upstream_body
forced_upstream_body-Accepted lib c secret namespace api request e window body f w prompt room m h =
    let (ordered, _, h₁) = bind-ok (ordered_body lib e.ordered_json request) _ body h in
    let (b, _, h₂) = bind-ok (with_tokens api ordered) _ body h₁ in
    let (own, at, n) =
      forced_body-IsForced lib c secret namespace e window b body w
        (not_failed e.failed _ _ f h₂) in
    (
      own,
      at,
      arguments-Accepted c secret (replay_audit_request_id lib namespace e.attempt_id) e window own
          n prompt m room,
    )
  where
    not_failed :
        (d : Bool) (x y : Result Fields) → d ≡ false → (if d then x else y) ≡ ok body → y ≡ ok body
    not_failed true x y f h = cc
    not_failed false x y f h = h
