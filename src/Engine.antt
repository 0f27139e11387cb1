-- ===== src/Engine.antt =====
-- vllm_plugin/src/native_replay_vllm: the plugin that commits a recorded token sequence inside the
-- inference engine. `protocol.py` and the forced step of `forced.py`.
pub mod Window
pub mod Progress
pub mod Signing
mod Tests
use Prim.Native.String.{◌++◌ as text_append}
use minireplayer.Prelude.{
  ℕ, ◌+◌, ◌-◌, String, Bool, true, false, not, ◌&&◌, ◌||◌, Option, none, some, List, [], ◌∷◌, ◌++◌,
  Result, ok, raise, value_error, runtime_error, ◌>>=◌, ◌>>◌, raise_if, length, take, drop, all,
  ltb, min, get_elem?, leb, nat_beq, if◌then◌else◌, ◌==◌, nat_eq, string_eq, list_eq,
}
use minireplayer.Json.{Items, nil, cons, arr, nat?, Value, str, int}

-- An entry of the engine's output: a token, or the placeholder -1 of asynchronous scheduling.
abbrev pub Entry : Type 0
Entry = Option ℕ

abbrev pub is_placeholder : Entry → Bool
is_placeholder none = true
is_placeholder (some _) = false

-- the tokens before the first placeholder, and the entries from it on
unfoldable pub committed : List Entry → List ℕ
committed [] = []
committed (none ∷ es) = []
committed (some t ∷ es) = t ∷ committed es

unfoldable pub uncommitted : List Entry → List Entry
uncommitted [] = []
uncommitted (none ∷ es) = none ∷ es
uncommitted (some _ ∷ es) = uncommitted es

-- `resolved_output_prefix`
unfoldable pub resolved_output_prefix : List Entry → Result (List ℕ × ℕ)
resolved_output_prefix es =
    if all is_placeholder (uncommitted es)
    then ok (committed es, length (uncommitted es))
    else raise value_error

-- What the plugin takes from Python: the hexadecimal HMAC-SHA-256 of a secret and a text, the
-- decimal spelling of a number, and `re.fullmatch` of a pattern and a text.
pub record Crypto : Type 0 where
  pub hmac_sha256 : String → String → String
  pub decimal : ℕ → String
  pub fullmatch : String → String → Bool

-- `REQUEST_ID_PATTERN`
abbrev pub request_id_pattern : String
request_id_pattern = "^[A-Za-z0-9][A-Za-z0-9_.:-]{0,191}$"

-- `",".join(str(token) for token in token_ids)`
unfoldable pub joined : Crypto → List ℕ → String
joined c [] = ""
joined c (t ∷ []) = c.decimal t
joined c (t ∷ u ∷ ts) = text_append (c.decimal t) (text_append "," (joined c (u ∷ ts)))

-- `token_payload`
unfoldable pub token_payload : Crypto → String → List ℕ → String
token_payload c request_id token_ids = text_append request_id (text_append ":" (joined c token_ids))

-- `sign_tokens`
unfoldable pub sign_tokens : Crypto → String → String → List ℕ → String
sign_tokens c secret request_id token_ids =
    c.hmac_sha256 secret (token_payload c request_id token_ids)

-- `sign_capture`
unfoldable pub sign_capture : Crypto → String → String → String
sign_capture c secret request_id = c.hmac_sha256 secret (text_append "capture:" request_id)

-- `sampler_window_payload`
unfoldable pub sampler_window_payload : Crypto → String → ℕ → ℕ → String
sampler_window_payload c request_id start count = text_append "sampler-window:" (
    text_append request_id
      (text_append ":" (text_append (c.decimal start) (text_append ":" (c.decimal count)))))

-- `sign_sampler_window`
unfoldable pub sign_sampler_window : Crypto → String → String → ℕ → ℕ → String
sign_sampler_window c secret request_id start count =
    c.hmac_sha256 secret (sampler_window_payload c request_id start count)

abbrev pub is_signature : Value → String → Bool
is_signature (str s) expected = s == expected
is_signature _ expected = false

abbrev pub front : Option ℕ → Option (List ℕ) → Option (List ℕ)
front (some n) (some ns) = some (n ∷ ns)
front _ _ = none

-- the numbers of a list that holds nothing but non-negative integers
unfoldable pub numbers : Items → Option (List ℕ)
numbers nil = some []
numbers (cons v vs) = front (nat? v) (numbers vs)

-- a token sequence: a list of non-negative integers that is not empty
unfoldable pub token_sequence : Value → Option (List ℕ)
token_sequence (arr (cons v vs)) = numbers (cons v vs)
token_sequence _ = none

abbrev pub request_id? : Crypto → Value → Option String
request_id? c (str s) = if c.fullmatch request_id_pattern s then some s else none
request_id? c _ = none

abbrev pub check_request :
    Crypto → String → Option String → Option (List ℕ) → Value → Result (String × List ℕ)
check_request c secret (some i) (some ts) signature =
    if is_signature signature (sign_tokens c secret i ts) then ok (i, ts) else raise value_error
check_request c secret _ _ signature = raise value_error

-- `validate_request`
unfoldable pub validate_request : Crypto → String → Value → Value → Value → Result (String × List ℕ)
validate_request c secret request_id token_ids signature =
    check_request c secret (request_id? c request_id) (token_sequence token_ids) signature

-- `validate_capture`
unfoldable pub validate_capture : Crypto → String → Value → Value → Result String
validate_capture c secret request_id signature = elim (request_id? c request_id) [
  | none ↦ raise value_error
  | some i ↦ if is_signature signature (sign_capture c secret i) then ok i else raise value_error
]

-- `isinstance(value, int)`, no Boolean, and not negative
abbrev pub number? : Value → Option ℕ
number? (int n) = some n
number? _ = none

-- the checks of `validate_sampler_window` on two numbers
unfoldable pub check_window : Crypto → String → String → ℕ → ℕ → ℕ → Value → Result (ℕ × ℕ)
check_window c secret request_id committed_count start_at count signature =
    if ltb count (start_at + committed_count)
    then raise value_error
    else if is_signature signature (sign_sampler_window c secret request_id start_at count)
    then ok (start_at, count)
    else raise value_error

-- `validate_sampler_window`
unfoldable pub validate_sampler_window :
    Crypto → String → String → Value → Value → ℕ → Value → Result (ℕ × ℕ)
validate_sampler_window c secret request_id start count committed_count signature =
    elim (number? start) [
      | none ↦ raise value_error
      | some a ↦ elim (number? count) [
        | none ↦ raise value_error
        | some e ↦ check_window c secret request_id committed_count a e signature
      ]
    ]

pub data Mode : Type 0 where
  capture force : Mode

-- `output_token_ids` is the engine's own list, which it changes between two steps: a step takes its
-- value at that time as an argument.
pub record RequestState : Type 0 where
  pub request_id : String
  pub mode : Mode
  pub prompt_token_ids : List ℕ
  pub token_ids : List ℕ
  pub sampled_token_ids : List ℕ
  pub committed_sample_start : Option ℕ
  pub expected_sampled_token_count : Option ℕ
  pub forced_count : ℕ

-- `state.sampled_token_ids.append(token)`
unfoldable pub sample : ℕ → RequestState → RequestState
sample t s = record s { sampled_token_ids = s.sampled_token_ids ++ t ∷ [] }

unfoldable pub count_forced : RequestState → RequestState
count_forced s = record s { forced_count = s.forced_count + 1 }

-- a malformed run of placeholders stops the engine
abbrev pub stop_on_malformed : {A : Type 0} → Result A → Result A
stop_on_malformed (ok a) = ok a
stop_on_malformed (raise _) = raise runtime_error

-- whether the engine's output is where a token for a position of the sequence can be committed
unfoldable pub is_drift : List ℕ → List Entry → ℕ → List ℕ → Bool
is_drift resolved output position token_ids =
    ltb position (length resolved)
    || not (resolved == take (length resolved) token_ids)
    || ltb (position + 1) (length output)

-- the token of the sequence at a position, which is committed in place of the sampled one
unfoldable pub commit : ℕ → ℕ → List Entry → RequestState → Result (RequestState × ℕ)
commit position token output s = do
  (resolved, _) ← stop_on_malformed (resolved_output_prefix output)
  raise_if (is_drift resolved output position s.token_ids) runtime_error
  ok (sample token (count_forced s), token)

-- a token after the sequence, which is left as it was sampled
unfoldable pub pass : ℕ → List Entry → RequestState → Result (RequestState × ℕ)
pass natural output s = do
  (resolved, _) ← stop_on_malformed (resolved_output_prefix output)
  raise_if
      (not (
        take (min (length resolved) (length s.token_ids)) resolved
        == take (min (length resolved) (length s.token_ids)) s.token_ids))
      runtime_error
  ok (sample natural s, natural)

-- the forced step past the start of the window, with the token of the sequence, if it has one
abbrev pub force_token : Option ℕ → ℕ → ℕ → List Entry → RequestState → Result (RequestState × ℕ)
force_token (some token) position natural output s = commit position token output s
force_token none position natural output s = pass natural output s

-- the forced step at the index of its sample, for a window that starts at `start`
unfoldable pub force_at : ℕ → ℕ → ℕ → List Entry → RequestState → Result (RequestState × ℕ)
force_at start index natural output s =
    if ltb index start
    then ok (sample natural s, natural)
    else force_token (get_elem? s.token_ids (index - start)) (index - start) natural output s

abbrev pub override_as :
    Mode → Option ℕ → Option ℕ → ℕ → List Entry → RequestState → Result (RequestState × ℕ)
override_as capture _ _ natural output s = ok (sample natural s, natural)
override_as force none _ natural output s = raise runtime_error
override_as force (some start) none natural output s = raise runtime_error
override_as force (some start) (some expected) natural output s =
    if leb expected (length s.sampled_token_ids)
    then raise runtime_error
    else force_at start (length s.sampled_token_ids) natural output s

-- `native_replay_override` for one request that is not discarded, with the token that was sampled
-- for it; the result is the token that goes out
unfoldable pub override : ℕ → List Entry → RequestState → Result (RequestState × ℕ)
override natural output s =
    override_as s.mode s.committed_sample_start s.expected_sampled_token_count natural output s

abbrev pub status_as : Mode → Option ℕ → Option ℕ → RequestState → String
status_as capture _ _ s = "capture_complete"
status_as force none _ s = "incomplete"
status_as force (some start) none s = "incomplete"
status_as force (some start) (some expected) s =
    if nat_beq s.forced_count (length s.token_ids)
      && nat_beq (length s.sampled_token_ids) expected
      && (take (length s.token_ids) (drop start s.sampled_token_ids) == s.token_ids)
    then "complete"
    else "incomplete"

-- the status that `_write_audit` writes
unfoldable pub audit_status : RequestState → String
audit_status s = status_as s.mode s.committed_sample_start s.expected_sampled_token_count s
