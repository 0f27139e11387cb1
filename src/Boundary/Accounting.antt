-- ===== src/Boundary/Accounting.antt =====
-- minireplay/boundary.py: how the questions about a replay's progress hang together.
use minireplayer.Prelude.{
  ℕ, String, ◌≡◌, refl, ap, ◌∙◌, Bool, true, false, not, ◌&&◌, ◌||◌, Option, none, some, List, [],
  ◌∷◌, ◌++◌, map, Result, ok, raise, if◌then◌else◌, all, any, keep, elem, Subset, elem_of_In,
  In-of_elem, and_iff, arith, pair_eq, string_eq, ◌==◌, lookup, Dict,
}
use minireplayer.Json.{Fields}
use minireplayer.Boundary.{kind_eq, Python, Identity, Key, Ledger, identity_of}
use minireplayer.Boundary.Account.{
  settled, queue_settled, expected_complete, all_of, actor_settled, actor_queue_settled,
  actor_expected_complete, entered, actor_queue_entered, actor_expected_prefix_consumed, recorded,
  missing, unexpected_active, has_unexpected_active, assert_consumed, reserved_identity, and_then,
  ran_for, is_some,
}

pub and_then-true : (r s : Result Bool) → and_then r s ≡ ok true → (r ≡ ok true) × (s ≡ ok true)
and_then-true (ok true) s h = (refl, h)
and_then-true (ok false) s h = cc
and_then-true (raise e) s h = cc

-- A loop that raised nothing and found no `False` found `True` everywhere.
all_of-all :
    {A : Type 0} (f : A → Result Bool) (g : A → Bool)
    → ((a : A) → f a ≡ ok true → g a ≡ true)
    → (xs : List A) → all_of f xs ≡ ok true
    → all g xs ≡ true
unfolding all_of all
all_of-all f g k [] h = refl
all_of-all f g k (x ∷ xs) h =
    let both = and_then-true (f x) (all_of f xs) h in rw (k x both.0) (all_of-all f g k xs both.1)

entered_if :
    (now : ℕ) (b d c : Bool) (started required : Option ℕ)
    → (d ≡ true → c ≡ true)
    → (if b then ran_for now started required else ok d) ≡ ok true
    → (if b then is_some started else c) ≡ true
entered_if now true d c (some s) (some n) k h = refl
entered_if now true d c none (some n) k h = cc
entered_if now true d c started none k h = cc
entered_if now false true c started required k h = k refl
entered_if now false false c started required k h = cc

actor_settled-entered :
    (now : ℕ) (l : Ledger)
    → Subset l.delivered l.completed
    → (i : Identity) → actor_settled now l i ≡ ok true
    → entered l i ≡ true
unfolding actor_settled entered
actor_settled-entered now l d i h =
    entered_if now (elem i l.truncated) (elem i l.delivered) (elem i l.completed)
      (lookup i l.truncated_started) (lookup i l.truncated_elapsed)
      (λ m. elem_of_In i l.completed (d i (In-of_elem i l.delivered m))) h

pub queue_if :
    (b c : Bool) (r : Result Bool)
    → (r ≡ ok true → c ≡ true)
    → (if b then r else ok true) ≡ ok true
    → (not b || c) ≡ true
queue_if true c r k h = k h
queue_if false c r k h = refl

actor_queue-entered :
    (py : Python) (now : ℕ) (actor : String) (l : Ledger)
    → Subset l.delivered l.completed
    → (q : Key × List Fields) → actor_queue_settled py now actor l q ≡ ok true
    → actor_queue_entered py actor l q ≡ true
unfolding actor_queue_settled actor_queue_entered
actor_queue-entered py now actor l d (key, queue) h =
    queue_if (key.1.0 == actor) _ (all_of (λ r. actor_settled now l (identity_of py key.0 r)) queue)
      (all_of-all (λ r. actor_settled now l (identity_of py key.0 r)) _
        (λ r. actor_settled-entered now l d (identity_of py key.0 r)) queue)
      h

pub replay_if :
    (b c : Bool) (r : Result Bool)
    → (r ≡ ok true → c ≡ true)
    → (if b then r else ok false) ≡ ok true
    → (b && c) ≡ true
replay_if true c r k h = k h
replay_if false c r k h = cc

-- With only completed operations delivered, an actor whose closed prefix is complete has entered
-- all of it.
pub actor_complete-prefix :
    (py : Python) (now : ℕ) (actor : String) (l : Ledger)
    → Subset l.delivered l.completed
    → actor_expected_complete py now actor l ≡ ok true
    → actor_expected_prefix_consumed py actor l ≡ true
unfolding actor_expected_complete actor_expected_prefix_consumed
actor_complete-prefix py now actor l d h =
    replay_if l.setting.replay _ (all_of (actor_queue_settled py now actor l) l.expected)
      (all_of-all (actor_queue_settled py now actor l) (actor_queue_entered py actor l)
        (actor_queue-entered py now actor l d) l.expected)
      h

keep-none :
    {A : Type 0} (p : A → Bool) (xs ys : List A)
    → all p xs ≡ true
    → keep (λ x. not (p x)) ys ≡ []
    → keep (λ x. not (p x)) (xs ++ ys) ≡ []
unfolding keep all
keep-none p [] ys h k = k
keep-none p (x ∷ xs) ys h k =
    let both = (and_iff (p x) (all p xs)).0 h in rw both.0 (keep-none p xs ys both.1 k)

all-map :
    {A B : Type 0} (p : B → Bool) (f : A → B) (xs : List A)
    → all p (map f xs) ≡ all (λ x. p (f x)) xs
unfolding all
all-map p f [] = refl
all-map p f (x ∷ xs) = ap (◌&&◌ (p (f x))) (all-map p f xs)

recorded-settled :
    (py : Python) (l : Ledger) (qs : Dict Key (List Fields))
    → all (queue_settled py l) qs ≡ true
    → keep (λ i. not (settled l i)) (recorded py qs) ≡ []
unfolding recorded queue_settled all keep
recorded-settled py l [] h = refl
recorded-settled py l ((key, queue) ∷ rest) h =
    let both = (and_iff _ _).0 h in
    keep-none (settled l) (map (identity_of py key.0) queue) (recorded py rest)
      (all-map (settled l) (identity_of py key.0) queue ∙ both.0)
      (recorded-settled py l rest both.1)

keep_none_of_any : {A : Type 0} (p : A → Bool) (xs : List A) → any p xs ≡ false → keep p xs ≡ []
unfolding any keep
keep_none_of_any p [] h = refl
keep_none_of_any p (x ∷ xs) h = ground (arith, keep_none_of_any p xs)

-- A replay that is complete and has no unexpected operation active passes the check at teardown.
pub expected_complete-consumed :
    (py : Python) (now : ℕ) (l : Ledger)
    → expected_complete py now l ≡ true
    → has_unexpected_active l ≡ false
    → assert_consumed py l ≡ ok tt
unfolding expected_complete has_unexpected_active assert_consumed missing unexpected_active
expected_complete-consumed py now l h k =
    let queues = ((and_iff _ _).0 ((and_iff _ _).0 h).1).0 in
    rw
      (
        recorded-settled py l l.expected queues,
        keep_none_of_any (λ i. not (elem i l.truncated)) (map reserved_identity l.active) k,
      )
      refl
