-- ===== src/Engine/Tests.antt =====
-- A request whose two recorded tokens stand after one sample of the source and before another.
use minireplayer.Prelude.{
  ℕ, ◌+◌, ◌-◌, ◌≤◌, min, length, ◌≡◌, refl, true, none, some, List, [], ◌∷◌, ok, raise,
  runtime_error, take, drop, all, arith,
}
use minireplayer.Engine.{
  Crypto, Entry, force, RequestState, resolved_output_prefix, committed, uncommitted, override,
  force_at, commit, pass, sample, count_forced, is_drift, audit_status,
}
use minireplayer.Engine.Progress.{IsFollowing, IsRunFollowing, run_following}
use minireplayer.Engine.Window.{run}

abbrev two_tokens : RequestState
two_tokens = record {
  request_id = "request-1";
  mode = force;
  prompt_token_ids = 5 ∷ [];
  token_ids = 41 ∷ 42 ∷ [];
  sampled_token_ids = [];
  committed_sample_start = some 1;
  expected_sampled_token_count = some 4;
  forced_count = 0;
}

abbrev engine_steps : List (ℕ × List Entry)
engine_steps =
    (7, []) ∷ (8, none ∷ []) ∷ (9, some 41 ∷ none ∷ []) ∷ (10, some 41 ∷ some 42 ∷ []) ∷ []

abbrev four_sampled : RequestState
four_sampled = record two_tokens { sampled_token_ids = 7 ∷ 41 ∷ 42 ∷ 10 ∷ []; forced_count = 2 }

run_test : run engine_steps two_tokens ≡ ok four_sampled
unfolding run override force_at commit pass sample count_forced is_drift resolved_output_prefix
    committed uncommitted all
run_test = refl

-- a token after a placeholder is no output that replay relies on
late_token :
    override 8 (none ∷ some 3 ∷ []) (record two_tokens { sampled_token_ids = 7 ∷ [] })
    ≡ raise runtime_error
unfolding override force_at commit resolved_output_prefix committed uncommitted all
late_token = refl

-- a stand-in for the library's digest, spelling and patterns
abbrev crypto : Crypto
crypto = record {
  hmac_sha256 = λ secret payload. payload;
  decimal = λ n. "1";
  fullmatch = λ pattern value. true;
}

-- the engine's output has `tokens` and `n` placeholders, behind the position of the sample
following :
    (index : ℕ) (tokens : List ℕ) (n : ℕ) (output : List Entry)
    → resolved_output_prefix output ≡ ok (tokens, n)
    → take (min (length tokens) 2) tokens ≡ take (min (length tokens) 2) (41 ∷ 42 ∷ [])
    → length tokens ≤ index - 1
    → length output ≤ index - 1 + 1
    → IsFollowing 1 (41 ∷ 42 ∷ []) index output
following index tokens n output r f b o = record {
  tokens = tokens;
  placeholders = n;
  resolves = r;
  follows = f;
  behind = λ h. b;
  room = λ h. o;
}

steps-IsRunFollowing : IsRunFollowing 1 (41 ∷ 42 ∷ []) 0 engine_steps
unfolding resolved_output_prefix committed uncommitted all
steps-IsRunFollowing = (
  following 0 [] 0 [] refl refl (omega arith) (omega arith),
  (
    following 1 [] 1 (none ∷ []) refl refl (omega arith) (omega arith),
    (
      following 2 (41 ∷ []) 1 (some 41 ∷ none ∷ []) refl refl (omega arith) (omega arith),
      (
        following 3 (41 ∷ 42 ∷ []) 0 (some 41 ∷ some 42 ∷ []) refl refl (omega arith) (omega arith),
        tt,
      ),
    ),
  ),
)

run_following_example :
    (s' : RequestState) × (run engine_steps two_tokens ≡ ok s')
    × (take 2 (drop 1 s'.sampled_token_ids) ≡ 41 ∷ 42 ∷ [])
    × (s'.forced_count ≡ 2)
    × (audit_status s' ≡ "complete")
run_following_example =
    run_following 1 4 (41 ∷ 42 ∷ []) engine_steps two_tokens (refl, refl, refl, refl) refl refl
      (omega arith) refl steps-IsRunFollowing
