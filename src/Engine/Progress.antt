-- ===== src/Engine/Progress.antt =====
-- vllm_plugin/src/native_replay_vllm/forced.py: an engine whose output follows the recorded
-- sequence is never stopped within the source's count.
use minireplayer.Prelude.{
  ℕ, suc, ◌+◌, ◌-◌, ◌≤◌, ◌<◌, min, ◌≡◌, refl, sym, ap, ◌∙◌, Bool, true, false, Option, none, some,
  List, [], ◌∷◌, Result, ok, raise, runtime_error, length, get_elem?, take, drop, ltb, leb,
  if◌then◌else◌, arith, nat_eq, list_eq, subst,
}
use minireplayer.Engine.{
  Entry, Mode, force, RequestState, resolved_output_prefix, is_drift, commit, pass, force_token,
  force_at, override_as, override, audit_status, sample, count_forced,
}
use minireplayer.Engine.Window.{
  run, run_window, IsForce, override-Forced, step-IsForce, lt_of_get-some,
}

-- The engine's output before the sample with an index: its placeholders are at its end and its
-- tokens are those of the sequence, and inside the window it is not ahead of the position.
pub record IsFollowing (a : ℕ) (t : List ℕ) (index : ℕ) (output : List Entry) : Type 0 where
  pub tokens : List ℕ
  pub placeholders : ℕ
  pub resolves : resolved_output_prefix output ≡ ok (tokens, placeholders)
  pub follows :
      take (min (length tokens) (length t)) tokens ≡ take (min (length tokens) (length t)) t
  pub behind : index - a < length t → length tokens ≤ index - a
  pub room : index - a < length t → length output ≤ index - a + 1

take_self : (xs : List ℕ) → take (length xs) xs ≡ xs
take_self [] = refl
take_self (x ∷ xs) = ap (◌∷◌ x) (take_self xs)

min-left : (m n : ℕ) → m ≤ n → min m n ≡ m
min-left m n h = omega (arith, h)

within :
    (tokens t : List ℕ)
    → length tokens ≤ length t
    → take (min (length tokens) (length t)) tokens ≡ take (min (length tokens) (length t)) t
    → tokens ≡ take (length tokens) t
within tokens t h k =
    sym (take_self tokens)
    ∙ subst (λ n. take n tokens ≡ take n t) (min-left (length tokens) (length t) h) k

not_drift :
    (tokens : List ℕ) (output : List Entry) (position : ℕ) (t : List ℕ)
    → length tokens ≤ position
    → length output ≤ position + 1
    → tokens ≡ take (length tokens) t
    → is_drift tokens output position t ≡ false
unfolding is_drift
not_drift tokens output position t h k e =
    rw ((list_eq.beq_iff tokens (take (length tokens) t)).1 e) (ground (arith, h, k))

commit-ok :
    (a : ℕ) (token : ℕ) (output : List Entry) (s : RequestState)
    → length s.sampled_token_ids - a < length s.token_ids
    → IsFollowing a s.token_ids (length s.sampled_token_ids) output
    → commit (length s.sampled_token_ids - a) token output s
      ≡ ok (sample token (count_forced s), token)
unfolding commit
commit-ok a token output s lt f =
    rw
      (
        f.resolves,
        not_drift f.tokens output (length s.sampled_token_ids - a) s.token_ids (f.behind lt)
            (f.room lt) (within f.tokens s.token_ids (omega (arith, f.behind lt, lt)) f.follows),
      )
      refl

pass-ok :
    (a natural : ℕ) (output : List Entry) (s : RequestState)
    → IsFollowing a s.token_ids (length s.sampled_token_ids) output
    → pass natural output s ≡ ok (sample natural s, natural)
unfolding pass
pass-ok a natural output s f = rw (f.resolves, (list_eq.beq_iff _ _).1 f.follows) refl

-- an answer of a step
abbrev Answers : Result (RequestState × ℕ) → Type 0
Answers m = (r : RequestState × ℕ) × (m ≡ ok r)

token-Answers :
    (a natural : ℕ) (o : Option ℕ) (output : List Entry) (s : RequestState)
    → get_elem? s.token_ids (length s.sampled_token_ids - a) ≡ o
    → IsFollowing a s.token_ids (length s.sampled_token_ids) output
    → Answers (force_token o (length s.sampled_token_ids - a) natural output s)
token-Answers a natural (some token) output s g f =
    (_, commit-ok a token output s (lt_of_get-some s.token_ids _ token g) f)
token-Answers a natural none output s g f = (_, pass-ok a natural output s f)

if-Answers :
    (b : Bool) (x y : Result (RequestState × ℕ))
    → Answers x
    → Answers y
    → Answers (if b then x else y)
if-Answers true x y h k = h
if-Answers false x y h k = k

bound-Answers :
    (b : Bool) (m : Result (RequestState × ℕ))
    → b ≡ false
    → Answers m
    → Answers (if b then raise runtime_error else m)
bound-Answers true m h k = cc
bound-Answers false m h k = k

as-Answers :
    (m : Mode) (c x : Option ℕ) (a e natural : ℕ) (output : List Entry) (s : RequestState)
    → m ≡ force
    → c ≡ some a
    → x ≡ some e
    → length s.sampled_token_ids < e
    → IsFollowing a s.token_ids (length s.sampled_token_ids) output
    → Answers (override_as m c x natural output s)
unfolding force_at
as-Answers m c x a e natural output s hm hc hx lt f =
    rw (hm, hc, hx)
      (bound-Answers (leb e (length s.sampled_token_ids)) _ (ground (arith, lt)) (
        if-Answers (ltb (length s.sampled_token_ids) a) (ok (sample natural s, natural)) _ (_, refl)
          (token-Answers a natural _ output s refl f)))

override-Answers :
    (a e : ℕ) (t : List ℕ) (natural : ℕ) (output : List Entry) (s : RequestState)
    → IsForce a e t s
    → length s.sampled_token_ids < e
    → IsFollowing a t (length s.sampled_token_ids) output
    → Answers (override natural output s)
unfolding override
override-Answers a e t natural output s k lt f =
    as-Answers s.mode s.committed_sample_start s.expected_sampled_token_count a e natural output s
      k.0 k.1 k.2 lt (subst (λ u. IsFollowing a u (length s.sampled_token_ids) output) (sym k.3) f)

-- every step of a run finds the engine's output following the sequence
abbrev pub IsRunFollowing : ℕ → List ℕ → ℕ → List (ℕ × List Entry) → Type 0
IsRunFollowing a t index [] = Unit
IsRunFollowing a t index ((natural, output) ∷ rest) =
    IsFollowing a t index output × IsRunFollowing a t (suc index) rest

run-ok :
    (a e : ℕ) (t : List ℕ) (steps : List (ℕ × List Entry)) (s : RequestState)
    → IsForce a e t s
    → length s.sampled_token_ids + length steps ≤ e
    → IsRunFollowing a t (length s.sampled_token_ids) steps
    → (s' : RequestState) × (run steps s ≡ ok s')
unfolding run
run-ok a e t [] s k b f = (s, refl)
run-ok a e t ((natural, output) ∷ rest) s k b f =
    let first = override-Answers a e t natural output s k (omega (arith, b)) f.0 in
    let forced = override-Forced a e t natural output s first.0 k first.1 in
    let set = step-IsForce a e t s first.0.0 forced k in
    let later =
      run-ok a e t rest first.0.0 set.0 (omega (arith, b, set.1))
        (subst (λ n. IsRunFollowing a t n rest) (sym set.1) f.1) in
    (later.0, rw first.1 later.1)

-- A request under force, over as many steps as the source sampled, with the engine's output
-- following the recorded sequence at each of them: no step raises, and at the end the sequence
-- stands at its place among the samples, all its tokens were counted, and the audit is complete.
pub run_following :
    (a e : ℕ) (t : List ℕ) (steps : List (ℕ × List Entry)) (s : RequestState)
    → IsForce a e t s
    → s.sampled_token_ids ≡ []
    → s.forced_count ≡ 0
    → a + length t ≤ e
    → length steps ≡ e
    → IsRunFollowing a t 0 steps
    → (s' : RequestState) × (run steps s ≡ ok s')
      × (take (length t) (drop a s'.sampled_token_ids) ≡ t)
      × (s'.forced_count ≡ length t)
      × (audit_status s' ≡ "complete")
run_following a e t steps s k z c w n f =
    let empty : 0 ≡ length s.sampled_token_ids = ap length (sym z) in
    let done =
      run-ok a e t steps s k (omega (arith, empty, n))
        (subst (λ i. IsRunFollowing a t i steps) empty f) in
    let at_end = run_window a e t steps s done.0 k z c w n done.1 in
    (done.0, done.1, at_end.0, at_end.1, at_end.2)
