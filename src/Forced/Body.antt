-- ===== src/Forced/Body.antt =====
-- minireplay/forced.py: `forced_upstream_body`, the request that makes the engine commit the recorded
-- tokens.
use Prim.Native.String.{◌++◌ as text_append}
use minireplayer.Prelude.{
  ℕ, zero, suc, String, Bool, true, not, Option, none, some, List, [], ◌∷◌, Result, ok, raise,
  validation_error, ◌>>=◌, ◌>>◌, require, length, ltb, all, if◌then◌else◌, ◌==◌, string_eq,
}
use minireplayer.Json.{
  Value, Fields, null, bool, int, str, arr, obj, get, get_or, has, put, truth, text?,
}
use minireplayer.Json.Same.{same}
use minireplayer.Engine.{Crypto}
use minireplayer.Engine.Signing.{items_of}
use minireplayer.Forced.{sign_tokens, sign_sampler_window}

-- What the client takes from Python: `json.loads`, the hexadecimal SHA-256 of a text, and `dict` of a
-- value that is not empty.
pub record Library : Type 0 where
  pub loads : String → Option Value
  pub sha256 : String → String
  pub dict_of : Value → Result Fields

-- What is read of a recorded attempt, whose tokens are natural numbers. `failed` says that its status
-- was 400 or more, `engine` is the start and the size of the engine's window.
pub record Recorded : Type 0 where
  pub attempt_id : String
  pub ordered_json : Value
  pub failed : Bool
  pub prompt_token_ids : List ℕ
  pub response_token_ids : List ℕ
  pub engine : Option (ℕ × ℕ)

-- `text[:n]`
unfoldable pub first_characters : ℕ → String → String
first_characters zero text = ""
first_characters (suc n) String.[] = ""
first_characters (suc n) (String.◌∷◌ c text) = String.◌∷◌ c (first_characters n text)

abbrev or_default : Option String → String
or_default none = "default"
or_default (some namespace) = if namespace == "" then "default" else namespace

-- `replay_audit_request_id`
unfoldable pub replay_audit_request_id : Library → Option String → String → String
replay_audit_request_id lib namespace attempt_id = text_append "nr-" (
    first_characters 40
      (lib.sha256 (text_append (or_default namespace) (text_append ":" attempt_id))))

abbrev decoded : Option Value → Fields → Result Fields
decoded (some (obj d)) request = require (same (obj d) (obj request)) >> ok d
decoded _ request = raise validation_error

abbrev ordered_text : Library → Option String → Fields → Result Fields
ordered_text lib none request = raise validation_error
ordered_text lib (some text) request = decoded (lib.loads text) request

-- the recorded request in its own order, where the recording has that
unfoldable pub ordered_body : Library → Value → Fields → Result Fields
ordered_body lib null request = ok request
ordered_body lib v request = ordered_text lib (text? v) request

-- what each API asks for
unfoldable pub with_tokens : String → Fields → Result Fields
with_tokens api body =
    if api == "chat.completions"
    then (require (same (int 1) (get_or "n" (int 1) body))
        >> ok (put "return_token_ids" (bool true) body))
    else if api == "responses"
    then (require (not (truth (get "stream" body)))
        >> ok (put "enable_response_messages" (bool true) body))
    else raise validation_error

-- `dict(body.get("vllm_xargs") or {})`
unfoldable pub own_arguments : Library → Fields → Result Fields
own_arguments lib body =
    if truth (get "vllm_xargs" body) then lib.dict_of (get "vllm_xargs" body) else ok Fields.end

abbrev pub reserved : List String
reserved =
    "native_replay_request_id" ∷ "native_replay_prompt_token_ids" ∷ "native_replay_prompt_signature"
    ∷ "native_replay_token_ids" ∷ "native_replay_signature" ∷ "native_replay_committed_sample_start"
    ∷ "native_replay_sampled_token_count" ∷ "native_replay_sampler_signature" ∷ []

-- the arguments of the request for the plugin
unfoldable pub forced_arguments : Crypto → String → String → Recorded → ℕ × ℕ → Fields → Fields
forced_arguments c secret request_id e window xargs =
    put "native_replay_sampler_signature"
      (str (sign_sampler_window c secret request_id window.0 window.1))
      (put "native_replay_sampled_token_count" (int window.1) (
        put "native_replay_committed_sample_start" (int window.0) (
          put "native_replay_signature" (str (sign_tokens c secret request_id e.response_token_ids))
            (put "native_replay_token_ids" (arr (items_of e.response_token_ids)) (
              put "native_replay_prompt_signature"
                (str (sign_tokens c secret request_id e.prompt_token_ids))
                (put "native_replay_prompt_token_ids" (arr (items_of e.prompt_token_ids))
                  (put "native_replay_request_id" (str request_id) xargs)))))))

abbrev pub window_of : Option (ℕ × ℕ) → Result (ℕ × ℕ)
window_of none = raise validation_error
window_of (some window) = ok window

-- the part for an attempt that did not fail
unfoldable pub forced_body :
    Library → Crypto → String → Option String → Recorded → Fields → Result Fields
forced_body lib c secret namespace e body =
    require (ltb 0 (length e.response_token_ids))
    >> (window_of e.engine >>= λ window. own_arguments lib body >>= λ xargs.
        require (all (λ k. not (has k xargs)) reserved)
        >> ok (
            put "vllm_xargs"
              (obj (
                forced_arguments c secret (replay_audit_request_id lib namespace e.attempt_id) e
                  window xargs))
              body))

-- `forced_upstream_body`
unfoldable pub forced_upstream_body :
    Library → Crypto → String → Option String → String → Fields → Recorded → Result Fields
forced_upstream_body lib c secret namespace api request e =
    ordered_body lib e.ordered_json request >>= λ ordered. with_tokens api ordered >>= λ body.
    if e.failed then ok body else forced_body lib c secret namespace e body
