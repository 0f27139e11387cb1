-- ===== src/Forced/Audit/Leaving.antt =====
-- minireplay/forced.py: a request starts to wait, and leaves.
use minireplayer.Prelude.{
  ℕ, String, ◌≡◌, refl, sym, ap, ◌∙◌, subst, ◌⊎◌, inl, inr, false, not, Option, none, some, List,
  [], ◌∷◌, Result, raise, Exception, mismatch_error, In, In-keep, lookup, insert, remove, nat_beq,
  nat_eq, nat_beq_iff, string_eq, Bool-cases, Option-cases, ◌==◌, Dict,
}
use minireplayer.Json.{Fields}
use minireplayer.Forced.Audit.{
  Reader, settle, futures_of, wait_unless_seen, wait_unless_failed, wait_for_record, without,
  keep_waiters, leave, time_out,
}
use minireplayer.Forced.Audit.Settled.{
  IsSettled, Waits, settle-Settles, remove_other, remove_same, insert_other, insert_same,
}
use minireplayer.Forced.Audit.Waiting.{Asked, IsFair}

module _ (asked : Asked) where
  -- only who waits for one record has changed, and no one who was not settled has gone
  rewaited-IsFair :
      (i : String) (w : Dict String (List ℕ)) (r : Reader)
      → ((j : String) → (j == i) ≡ false → lookup j w ≡ lookup j r.waiters)
      → ((d : Fields) → lookup i r.seen ≡ some d → lookup i w ≡ none)
      → ((g : ℕ) → Waits i g r → In g (futures_of (lookup i w)) ⊎ IsSettled g r)
      → IsFair r asked
      → IsFair (record r { waiters = w }) asked
  rewaited-IsFair i w r other unseen here (a, b) = (
    λ j d h. elim (Bool-cases (j == i)) [
      | inl y ↦
          let e = (string_eq.beq_iff j i).0 y in
          subst (λ k. lookup k w ≡ none) (sym e)
            (unseen d (subst (λ k. lookup k r.seen ≡ some d) e h))
      | inr n ↦ other j n ∙ a j d h
    ],
    λ j g m. elim (b j g m) [
      | inl v ↦ elim (Bool-cases (j == i)) [
        | inl y ↦
            let e = (string_eq.beq_iff j i).0 y in
            subst (λ k. In g (futures_of (lookup k w)) ⊎ IsSettled g r) (sym e)
              (here g (subst (λ k. Waits k g r) e v))
        | inr n ↦ inl (subst (λ o. In g (futures_of o)) (sym (other j n)) v)
      ]
      | inr s ↦ inr s
    ],
  )

  stays :
      (f g : ℕ) (fs : List ℕ) (r : Reader)
      → IsSettled f r
      → In g fs
      → In g (without f fs) ⊎ IsSettled g r
  stays f g fs r x m = elim (Bool-cases (nat_beq g f)) [
    | inl y ↦ inr (subst (λ k. IsSettled k r) (sym ((nat_beq_iff g f).0 y)) x)
    | inr n ↦ inl (In-keep (λ k. not (nat_beq k f)) g fs m (ap not n))
  ]

  keep_waiters-IsFair :
      (i : String) (f : ℕ) (r : Reader) (fs gs : List ℕ)
      → without f fs ≡ gs
      → lookup i r.waiters ≡ some fs
      → IsSettled f r
      → IsFair r asked
      → IsFair (keep_waiters i gs r) asked
  keep_waiters-IsFair i f r fs [] q e x h =
      rewaited-IsFair i (remove i r.waiters) r (λ j n. remove_other j i r.waiters n)
        (λ d u. remove_same i r.waiters)
        (λ g v. elim (stays f g fs r x (subst (λ o. In g (futures_of o)) e v)) [
          | inl m ↦ absurd (subst (In g) q m)
          | inr s ↦ inr s
        ])
        h
  keep_waiters-IsFair i f r fs (k ∷ ks) q e x h =
      rewaited-IsFair i (insert i (k ∷ ks) r.waiters) r
        (λ j n. insert_other j i (k ∷ ks) r.waiters n) (λ d u. cc (h.0 i d u, e))
        (λ g v. elim (stays f g fs r x (subst (λ o. In g (futures_of o)) e v)) [
          | inl m ↦ inl (
              subst (λ o. In g (futures_of o)) (sym (insert_same i (k ∷ ks) r.waiters))
                (subst (In g) q m))
          | inr s ↦ inr s
        ])
        h

  -- a waiter that was settled leaves
  pub leave-IsFair :
      (i : String) (f : ℕ) (r : Reader)
      → IsSettled f r
      → IsFair r asked
      → IsFair (leave i f r) asked
  unfolding leave
  leave-IsFair i f r x h = elim (Option-cases (lookup i r.waiters)) [
    | inl n ↦ rw n h
    | inr (fs, e) ↦ rw e (keep_waiters-IsFair i f r fs (without f fs) refl e x h)
  ]

  pub time_out-IsFair :
      (i : String) (f : ℕ) (r : Reader) → IsFair r asked → IsFair (time_out i f r) asked
  unfolding time_out
  time_out-IsFair i f r (a, b) =
      let ((seen, (waiters, kept)), done) = settle-Settles f (raise mismatch_error) r in
      leave-IsFair i f (settle f (raise mismatch_error) r) done (
        λ j d h. ap (lookup j) waiters ∙ a j d (sym (ap (lookup j) seen) ∙ h),
        λ j g m. elim (b j g m) [
          | inl w ↦ inl (subst (λ v. In g (futures_of (lookup j v))) (sym waiters) w)
          | inr s ↦ inr (kept g s)
        ],
      )

abbrev pub after_wait : Option (Result Fields) → String → ℕ → Asked → Asked
after_wait none i f asked = (i, f) ∷ asked
after_wait (some x) i f asked = asked

-- what a wait leaves, and who has asked then
abbrev pub Waited : Reader × Option (Result Fields) → String → ℕ → Asked → Type 0
Waited (r, o) i f asked = IsFair r (after_wait o i f asked)

unless_seen-IsFair :
    (o : Option Fields) (i : String) (f : ℕ) (r : Reader) (asked : Asked)
    → lookup i r.seen ≡ o
    → IsFair r asked
    → Waited (wait_unless_seen o i f r) i f asked
unless_seen-IsFair (some d) i f r asked e h = h
unless_seen-IsFair none i f r asked e h =
    let new = f ∷ futures_of (lookup i r.waiters) in
    let same = insert_same i new r.waiters in
    let (a, b) =
      rewaited-IsFair asked i (insert i new r.waiters) r (λ j n. insert_other j i new r.waiters n)
        (λ d u. cc (u, e)) (λ g v. inl (subst (λ o. In g (futures_of o)) (sym same) (inr v))) h in
    (
      a,
      λ j g m. elim m [
        | inl q ↦ inl (
            subst (λ (p : String × ℕ). In p.1 (futures_of (lookup p.0 (insert i new r.waiters))))
              (sym q) (subst (λ o. In f (futures_of o)) (sym same) (inl refl)))
        | inr n ↦ b j g n
      ],
    )

unless_failed-IsFair :
    (o : Option Exception) (i : String) (f : ℕ) (r : Reader) (asked : Asked)
    → IsFair r asked
    → Waited (wait_unless_failed o i f r) i f asked
unless_failed-IsFair (some e) i f r asked h = h
unless_failed-IsFair none i f r asked h = unless_seen-IsFair (lookup i r.seen) i f r asked refl h

pub wait-IsFair :
    (i : String) (f : ℕ) (r : Reader) (asked : Asked)
    → IsFair r asked
    → Waited (wait_for_record i f r) i f asked
unfolding wait_for_record
wait-IsFair i f r asked h = unless_failed-IsFair r.failure i f r asked h
