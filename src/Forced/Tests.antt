-- ===== src/Forced/Tests.antt =====
-- Two committed tokens that stand at the second of three samples.
use minireplayer.Prelude.{
  ℕ, ◌<◌, ◌≡◌, refl, ◌↔◌, String, List, [], ◌∷◌, ok, none, some, true, false, length, all,
  string_eq, list_eq, nat_eq, arith,
}
use minireplayer.Json.{
  Fields, null, bool, int, str, arr, obj, nil, cons, end, field, get, get_or, has, put, truth,
  is_text, nat?,
}
use minireplayer.Json.Same.{same}
use minireplayer.Engine.{Crypto, validate_sampler_window, numbers}
use minireplayer.Forced.{
  Evidence, sign_sampler_window, starts_from, committed_sample_window, window_start,
  engine_evidence,
}
use minireplayer.Forced.Window.{IsUnique, committed_sample_window_iff}
use minireplayer.Forced.Body.{
  Library, Recorded, replay_audit_request_id, ordered_body, with_tokens, own_arguments, forced_body,
  forced_arguments, forced_upstream_body,
}
use minireplayer.Forced.Sent.{Accepted, forced_upstream_body-Accepted}
use minireplayer.Forced.Accepted.{engine_evidence-accepted}

abbrev crypto : Crypto
crypto = record {
  hmac_sha256 = λ secret payload. payload;
  decimal = λ n. "1";
  fullmatch = λ pattern value. true;
}

abbrev sampled : List ℕ
sampled = 7 ∷ 41 ∷ 42 ∷ []

abbrev committed : List ℕ
committed = 41 ∷ 42 ∷ []

window_test : committed_sample_window sampled committed ≡ ok 1
unfolding committed_sample_window starts_from
window_test = refl

committed_sample_window_iff_example :
    (committed_sample_window sampled committed ≡ ok 1)
    ↔ ((0 < length committed) × IsUnique sampled committed 1)
committed_sample_window_iff_example = committed_sample_window_iff sampled committed 1

abbrev audit : Fields
audit =
    field "mode" (str "capture")
      (field "sampled_token_ids" (arr (cons (int 7) (cons (int 41) (cons (int 42) nil)))) end)

abbrev evidence : Evidence
evidence = record {
  audit_schema = null;
  sampled_token_count = 3;
  committed_sample_start = 1;
  committed_sample_count = 2;
  uncommitted_prefix_count = 1;
  uncommitted_suffix_count = 0;
}

evidence_test : engine_evidence audit committed ≡ ok evidence
unfolding engine_evidence window_start committed_sample_window starts_from numbers get is_text nat?
evidence_test = refl

engine_evidence-accepted_example :
    validate_sampler_window crypto "secret" "request-1"
      (int 1)
      (int 3)
      2
      (str (sign_sampler_window crypto "secret" "request-1" 1 3))
    ≡ ok (1, 3)
engine_evidence-accepted_example =
    engine_evidence-accepted crypto "secret" "request-1" audit committed evidence evidence_test

abbrev library : Library
library = record { loads = λ text. none; sha256 = λ text. "0123"; dict_of = λ v. ok end }

abbrev recorded : Recorded
recorded = record {
  attempt_id = "llm-1";
  ordered_json = null;
  failed = false;
  prompt_token_ids = 5 ∷ [];
  response_token_ids = committed;
  engine = some (1, 3);
}

abbrev request_id : String
request_id = replay_audit_request_id library none "llm-1"

abbrev body : Fields
body =
    field "return_token_ids" (bool true) (
      field "vllm_xargs" (obj (forced_arguments crypto "secret" request_id recorded (1, 3) end))
        end)

body_test :
    forced_upstream_body library crypto "secret" none "chat.completions" end recorded ≡ ok body
unfolding forced_upstream_body forced_body ordered_body with_tokens own_arguments all get get_or has
    put truth same nat?
body_test = refl

forced_upstream_body-Accepted_example :
    (own : Fields) × (get "vllm_xargs" body
      ≡ obj (forced_arguments crypto "secret" request_id recorded (1, 3) own))
    × Accepted crypto "secret" request_id recorded (1, 3) own
forced_upstream_body-Accepted_example =
    forced_upstream_body-Accepted library crypto "secret" none "chat.completions" end recorded
      (1, 3) body refl refl refl (omega arith) refl body_test
