-- ===== src/Engine/Window.antt =====
-- vllm_plugin/src/native_replay_vllm/forced.py: what a request has sampled when its window is over.
use minireplayer.Prelude.{
  ℕ, zero, suc, ◌+◌, ◌-◌, ◌≤◌, ◌<◌, min, String, ◌≡◌, refl, sym, ap, ◌∙◌, inl, inr, Bool, true,
  false, not, ◌&&◌, Option, none, some, List, [], ◌∷◌, ◌++◌, Result, ok, raise, runtime_error,
  ◌>>=◌, ◌>>◌, raise_if, length, length-append, get_elem?, take, drop, ltb, leb, ltb→lt,
  if◌then◌else◌, Bool-cases, arith, subst, some_inj, ap₂, bind-ok, nat_beq, nat_beq_iff, nat_eq,
  list_eq, ◌==◌,
}
use minireplayer.Engine.{
  Entry, Mode, force, RequestState, sample, count_forced, stop_on_malformed, resolved_output_prefix,
  is_drift, commit, pass, force_token, force_at, override_as, override, audit_status, status_as,
}

-- a run of steps, each with the token that was sampled and the engine's output at the time
unfoldable pub run : List (ℕ × List Entry) → RequestState → Result RequestState
run [] s = ok s
run ((natural, output) ∷ rest) s = override natural output s >>= λ r. run rest r.0

-- What a forced step does, for a window that starts at `a`.
pub data Forced (a : ℕ) (s : RequestState) : RequestState → Type 0 where
  before : (y : ℕ) → length s.sampled_token_ids < a → Forced a s (sample y s)
  inside :
      (y : ℕ)
      → a ≤ length s.sampled_token_ids
      → get_elem? s.token_ids (length s.sampled_token_ids - a) ≡ some y
      → Forced a s (sample y (count_forced s))
  past :
      (y : ℕ)
      → a ≤ length s.sampled_token_ids
      → get_elem? s.token_ids (length s.sampled_token_ids - a) ≡ none
      → Forced a s (sample y s)

ok_inj : {A : Type 0} {x y : A} → ok x ≡ ok y → x ≡ y
ok_inj h = cc

guard-ok : {B : Type 0} (b : Bool) (v w : B) → (raise_if b runtime_error >> ok v) ≡ ok w → v ≡ w
guard-ok true v w h = cc
guard-ok false v w h = cc

guarded-ok :
    {A B : Type 0} (m : Result A) (test : A → Bool) (v w : B)
    → (stop_on_malformed m >>= λ a. raise_if (test a) runtime_error >> ok v) ≡ ok w
    → v ≡ w
guarded-ok (ok a) test v w h = guard-ok (test a) v w h
guarded-ok (raise e) test v w h = cc

force_token-Forced :
    (a : ℕ) (o : Option ℕ) (natural : ℕ) (output : List Entry) (s : RequestState)
    (r : RequestState × ℕ)
    → a ≤ length s.sampled_token_ids
    → get_elem? s.token_ids (length s.sampled_token_ids - a) ≡ o
    → force_token o (length s.sampled_token_ids - a) natural output s ≡ ok r
    → Forced a s r.0
unfolding commit pass
force_token-Forced a (some token) natural output s r le g h =
    subst (λ q. Forced a s q.0)
      (guarded-ok (resolved_output_prefix output)
        (λ q. is_drift q.0 output (length s.sampled_token_ids - a) s.token_ids)
        (sample token (count_forced s), token) r h)
      (inside token le g)
force_token-Forced a none natural output s r le g h =
    subst (λ q. Forced a s q.0)
      (guarded-ok (resolved_output_prefix output)
        (λ q. not (
          take (min (length q.0) (length s.token_ids)) q.0
          == take (min (length q.0) (length s.token_ids)) s.token_ids))
        (sample natural s, natural) r h)
      (past natural le g)

force_if :
    (a : ℕ) (b : Bool) (natural : ℕ) (output : List Entry) (s : RequestState) (r : RequestState × ℕ)
    → ltb (length s.sampled_token_ids) a ≡ b
    → (if b
        then ok (sample natural s, natural)
        else force_token
            (get_elem? s.token_ids (length s.sampled_token_ids - a))
            (length s.sampled_token_ids - a)
            natural
            output
            s)
      ≡ ok r
    → Forced a s r.0
force_if a true natural output s r t h =
    subst (λ q. Forced a s q.0) (ok_inj h) (before natural (ltb→lt _ _ t))
force_if a false natural output s r t h =
    force_token-Forced a _ natural output s r (ground (arith, t)) refl h

bound_if :
    (b : Bool) (m : Result (RequestState × ℕ)) (r : RequestState × ℕ)
    → (if b then raise runtime_error else m) ≡ ok r
    → m ≡ ok r
bound_if true m r h = cc
bound_if false m r h = h

-- the settings of a request under force, which no step changes
abbrev pub IsForce : ℕ → ℕ → List ℕ → RequestState → Type 0
IsForce a e t s =
    (s.mode ≡ force)
    × (s.committed_sample_start ≡ some a)
    × (s.expected_sampled_token_count ≡ some e)
    × (s.token_ids ≡ t)

override_as-force :
    (m : Mode) (c x : Option ℕ) (a e natural : ℕ) (output : List Entry) (s : RequestState)
    (r : RequestState × ℕ)
    → m ≡ force
    → c ≡ some a
    → x ≡ some e
    → override_as m c x natural output s ≡ ok r
    → override_as force (some a) (some e) natural output s ≡ ok r
override_as-force m c x a e natural output s r hm hc hx h = cc

pub override-Forced :
    (a e : ℕ) (t : List ℕ) (natural : ℕ) (output : List Entry) (s : RequestState)
    (r : RequestState × ℕ)
    → IsForce a e t s
    → override natural output s ≡ ok r
    → Forced a s r.0
unfolding override force_at
override-Forced a e t natural output s r (m, c, x, _) h = force_if a _ natural output s r refl (
    bound_if (leb e (length s.sampled_token_ids)) _ r
      (override_as-force _ _ _ a e natural output s r m c x h))

get-append : (xs : List ℕ) (y j : ℕ) → j < length xs → get_elem? (xs ++ y ∷ []) j ≡ get_elem? xs j
get-append [] y j h = absurd (ground arith)
get-append (x ∷ xs) y zero h = refl
get-append (x ∷ xs) y (suc j) h = get-append xs y j (ground arith)

get-append_last : (xs : List ℕ) (y : ℕ) → get_elem? (xs ++ y ∷ []) (length xs) ≡ some y
get-append_last [] y = refl
get-append_last (x ∷ xs) y = get-append_last xs y

pub lt_of_get-some : (xs : List ℕ) (i x : ℕ) → get_elem? xs i ≡ some x → i < length xs
lt_of_get-some [] i x h = cc
lt_of_get-some (y ∷ xs) zero x h = omega arith
lt_of_get-some (y ∷ xs) (suc i) x h = omega (arith, lt_of_get-some xs i x h)

le_of_get-none : (xs : List ℕ) (i : ℕ) → get_elem? xs i ≡ none → length xs ≤ i
le_of_get-none [] i h = omega arith
le_of_get-none (y ∷ xs) zero h = cc
le_of_get-none (y ∷ xs) (suc i) h = omega (arith, le_of_get-none xs i h)

-- The samples from the start of the window on are those of the sequence, and were counted.
abbrev IsOnTrack : ℕ → List ℕ → RequestState → Type 0
IsOnTrack a t s =
    (s.forced_count ≡ min (length t) (length s.sampled_token_ids - a))
    × ((i : ℕ)
        → i < length t
        → a + i < length s.sampled_token_ids
        → get_elem? s.sampled_token_ids (a + i) ≡ get_elem? t i)

length-sampled : (xs : List ℕ) (y : ℕ) → length (xs ++ y ∷ []) ≡ suc (length xs)
length-sampled xs y = simp length-append (omega arith)

track :
    (a : ℕ) (t xs : List ℕ) (y : ℕ)
    → ((i : ℕ) → i < length t → a + i < length xs → get_elem? xs (a + i) ≡ get_elem? t i)
    → ((i : ℕ) → i < length t → a + i ≡ length xs → some y ≡ get_elem? t i)
    → (i : ℕ) → i < length t
    → a + i < length (xs ++ y ∷ [])
    → get_elem? (xs ++ y ∷ []) (a + i) ≡ get_elem? t i
track a t xs y old new i h k = elim (Bool-cases (ltb (a + i) (length xs))) [
  | inl lt ↦ get-append xs y (a + i) (ltb→lt _ _ lt) ∙ old i h (ltb→lt _ _ lt)
  | inr ge ↦
      let last : a + i ≡ length xs = ground (arith, ge, k, length-sampled xs y) in
      ap (get_elem? (xs ++ y ∷ [])) last ∙ get-append_last xs y ∙ new i h last
]

min-before : (l n m a : ℕ) → n < a → m ≡ suc n → min l (n - a) ≡ min l (m - a)
min-before l n m a h k = omega (arith, h, k)

min-inside :
    (l n m a c : ℕ) → a ≤ n → n - a < l → m ≡ suc n → c ≡ min l (n - a) → c + 1 ≡ min l (m - a)
min-inside l n m a c h k e f = omega (arith, h, k, e, f)

min-past : (l n m a : ℕ) → a ≤ n → l ≤ n - a → m ≡ suc n → min l (n - a) ≡ min l (m - a)
min-past l n m a h k e = omega (arith, h, k, e)

step-IsOnTrack :
    (a : ℕ) (s s' : RequestState)
    → Forced a s s'
    → IsOnTrack a s.token_ids s
    → IsOnTrack a s.token_ids s'
unfolding sample count_forced
step-IsOnTrack a s s' (before y lt) (c, g) =
    let xs = s.sampled_token_ids in
    (
      c ∙ min-before (length s.token_ids) (length xs) _ a lt (length-sampled xs y),
      track a s.token_ids xs y g (λ i h e. absurd (ground (arith, lt, e))),
    )
step-IsOnTrack a s s' (inside y le q) (c, g) =
    let xs = s.sampled_token_ids in
    let t = s.token_ids in
    (
      min-inside (length t) (length xs) _ a _ le (lt_of_get-some t _ y q) (length-sampled xs y) c,
      track a t xs y g (λ i h e. sym q ∙ ap (get_elem? t) (omega (arith, e))),
    )
step-IsOnTrack a s s' (past y le q) (c, g) =
    let xs = s.sampled_token_ids in
    let t = s.token_ids in
    (
      c ∙ min-past (length t) (length xs) _ a le (le_of_get-none t _ q) (length-sampled xs y),
      track a t xs y g (λ i h e. absurd (omega (arith, h, e, le_of_get-none t (length xs - a) q))),
    )

-- a step changes no setting and samples one token
pub step-IsForce :
    (a e : ℕ) (t : List ℕ) (s s' : RequestState)
    → Forced a s s'
    → IsForce a e t s
    → IsForce a e t s' × (length s'.sampled_token_ids ≡ suc (length s.sampled_token_ids))
unfolding sample count_forced
step-IsForce a e t s s' (before y lt) k = (k, length-sampled s.sampled_token_ids y)
step-IsForce a e t s s' (inside y le q) k = (k, length-sampled s.sampled_token_ids y)
step-IsForce a e t s s' (past y le q) k = (k, length-sampled s.sampled_token_ids y)

-- what a run of `n` steps from `s` has reached
abbrev HasReached : ℕ → ℕ → List ℕ → RequestState → ℕ → RequestState → Type 0
HasReached a e t s n s' =
    IsForce a e t s'
    × IsOnTrack a t s'
    × (length s'.sampled_token_ids ≡ length s.sampled_token_ids + n)

run-HasReached :
    (a e : ℕ) (t : List ℕ) (steps : List (ℕ × List Entry)) (s s' : RequestState)
    → IsForce a e t s
    → IsOnTrack a t s
    → run steps s ≡ ok s'
    → HasReached a e t s (length steps) s'
unfolding run
run-HasReached a e t [] s s' k o h = subst (HasReached a e t s 0) (ok_inj h) (k, o, omega arith)
run-HasReached a e t ((natural, output) ∷ rest) s s' k o h =
    let first = bind-ok (override natural output s) (λ r. run rest r.0) s' h in
    let s₁ = first.0.0 in
    let forced = override-Forced a e t natural output s first.0 k first.1 in
    let set = step-IsForce a e t s s₁ forced k in
    let tracked =
      subst (λ u. IsOnTrack a u s₁) k.3
        (step-IsOnTrack a s s₁ forced (subst (λ u. IsOnTrack a u s) (sym k.3) o)) in
    let later = run-HasReached a e t rest s₁ s' set.0 tracked first.2 in
    (later.0, later.1, later.2 ∙ omega (arith, set.1))

take-eq :
    (t xs : List ℕ)
    → length t ≤ length xs
    → ((i : ℕ) → i < length t → get_elem? xs i ≡ get_elem? t i)
    → take (length t) xs ≡ t
take-eq [] xs h k = refl
take-eq (y ∷ t) [] h k = absurd (ground (arith, h))
take-eq (y ∷ t) (x ∷ xs) h k =
    ap₂ ◌∷◌ (some_inj (k 0 (omega arith)))
      (take-eq t xs (ground (arith, h)) (λ i l. k (suc i) (ground (arith, l))))

suc-add : (a i : ℕ) → suc (a + i) ≡ suc a + i
suc-add a i = omega arith

take-drop :
    (t : List ℕ) (a : ℕ) (xs : List ℕ)
    → a + length t ≤ length xs
    → ((i : ℕ) → i < length t → get_elem? xs (a + i) ≡ get_elem? t i)
    → take (length t) (drop a xs) ≡ t
take-drop t zero xs h k =
    take-eq t xs (omega (arith, h)) (λ i l. ap (get_elem? xs) (omega arith) ∙ k i l)
take-drop t (suc a) [] h k = absurd (ground (arith, h))
take-drop t (suc a) (x ∷ xs) h k =
    take-drop t a xs (omega (arith, h)) (λ i l. ap (get_elem? (x ∷ xs)) (suc-add a i) ∙ k i l)

complete_if :
    (b c d : Bool)
    → b ≡ true
    → c ≡ true
    → d ≡ true
    → ◌≡◌ {A = String} (if b && c && d then "complete" else "incomplete") "complete"
complete_if b c d hb hc hd = rw (hb, hc, hd) refl

complete_as :
    (m : Mode) (c x : Option ℕ) (a e : ℕ) (s : RequestState)
    → m ≡ force
    → c ≡ some a
    → x ≡ some e
    → s.forced_count ≡ length s.token_ids
    → length s.sampled_token_ids ≡ e
    → take (length s.token_ids) (drop a s.sampled_token_ids) ≡ s.token_ids
    → status_as m c x s ≡ "complete"
complete_as m c x a e s hm hc hx f l w =
    rw (hm, hc, hx)
      (complete_if (nat_beq s.forced_count (length s.token_ids))
        (nat_beq (length s.sampled_token_ids) e)
        (take (length s.token_ids) (drop a s.sampled_token_ids) == s.token_ids)
        ((nat_beq_iff _ _).1 f) ((nat_beq_iff _ _).1 l) ((list_eq.beq_iff _ _).1 w))

-- A request under force that has taken as many steps as the source sampled, from its start on and
-- without an error, has the recorded sequence at its place among its samples, whatever the engine
-- sampled; all tokens of the sequence were counted, and the audit is complete.
pub run_window :
    (a e : ℕ) (t : List ℕ) (steps : List (ℕ × List Entry)) (s s' : RequestState)
    → IsForce a e t s
    → s.sampled_token_ids ≡ []
    → s.forced_count ≡ 0
    → a + length t ≤ e
    → length steps ≡ e
    → run steps s ≡ ok s'
    → (take (length t) (drop a s'.sampled_token_ids) ≡ t)
      × (s'.forced_count ≡ length t)
      × (audit_status s' ≡ "complete")
unfolding audit_status
run_window a e t steps s s' k z c w n h =
    let empty : length s.sampled_token_ids ≡ 0 = ap length z in
    let ready : IsOnTrack a t s =
      (c ∙ omega (arith, empty), λ i l b. absurd (omega (arith, b, empty))) in
    let r = run-HasReached a e t steps s s' k ready h in
    let sampled : length s'.sampled_token_ids ≡ e = r.2 ∙ omega (arith, n, empty) in
    let slice =
      take-drop t a s'.sampled_token_ids (omega (arith, w, sampled))
        (λ i l. r.1.1 i l (omega (arith, w, sampled, l))) in
    let forced : s'.forced_count ≡ length t = r.1.0 ∙ omega (arith, w, sampled) in
    (
      slice,
      forced,
      complete_as s'.mode s'.committed_sample_start s'.expected_sampled_token_count a e s' r.0.0
          r.0.1 r.0.2 (forced ∙ ap length (sym r.0.3)) sampled
          (subst (λ u. take (length u) (drop a s'.sampled_token_ids) ≡ u) (sym r.0.3) slice),
    )
