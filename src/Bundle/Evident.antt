-- ===== src/Bundle/Evident.antt =====
-- minireplayer/bundle.py: which calls the records and the markers are of.
use minireplayer.Prelude.{
  String, ◌≡◌, ◌≢◌, refl, sym, ap, ◌∙◌, inl, inr, Option, none, some, List, [], ◌∷◌, ◌++◌,
  Exception, ok, raise, bind-ok, ok_injective, In-append_left, In-append_right, Subset, Bool-cases,
  Option-cases, subst, ◌==◌, string_eq, pair_eq,
}
use minireplayer.Json.{Fields, get, has, text?}
use minireplayer.Boundary.{Python, spell, item}
use minireplayer.Bundle.{CallId, cons_some, call_of, calls_of}
use minireplayer.Bundle.PreDispatch.{
  Rendering, Marked, markers, dispatch_marker, tool_marker, common, add_markers,
}

raised {ℓ} : {A : Type ℓ} {e : Exception} {a : A} → raise e ≡ ok a → ⊥
raised h = cc

append_assoc : {A : Type 0} (xs ys zs : List A) → ((xs ++ ys) ++ zs) ≡ (xs ++ (ys ++ zs))
append_assoc [] ys zs = refl
append_assoc (x ∷ xs) ys zs = ap (◌∷◌ x) (append_assoc xs ys zs)

cons_some-append :
    {A : Type 0} (o : Option A) (xs ys : List A) → (cons_some o xs ++ ys) ≡ cons_some o (xs ++ ys)
cons_some-append none xs ys = refl
cons_some-append (some x) xs ys = refl

calls_of-append :
    (py : Python) (xs ys : List Fields) (a b : List CallId)
    → calls_of py xs ≡ ok a
    → calls_of py ys ≡ ok b
    → calls_of py (xs ++ ys) ≡ ok (a ++ b)
unfolding calls_of
calls_of-append py [] ys a b h g = subst (λ c. calls_of py ys ≡ ok (c ++ b)) (ok_injective _ _ h) g
calls_of-append py (x ∷ xs) ys a b h g =
    let (o, e, h₁) = bind-ok (call_of py x) _ a h in
    let (c, e₁, h₂) = bind-ok (calls_of py xs) _ a h₁ in
    rw (e, calls_of-append py xs ys c b e₁ g)
      (ap ok (sym (cons_some-append o c b) ∙ ap (λ z. z ++ b) (ok_injective _ _ h₂)))

pub calls_of-split :
    (py : Python) (xs ys : List Fields) (c : List CallId)
    → calls_of py (xs ++ ys) ≡ ok c
    → (a b : List CallId) × (calls_of py xs ≡ ok a) × (calls_of py ys ≡ ok b) × (c ≡ (a ++ b))
unfolding calls_of
calls_of-split py [] ys c h = ([], c, refl, h, refl)
calls_of-split py (x ∷ xs) ys c h =
    let (o, e, h₁) = bind-ok (call_of py x) _ c h in
    let (d, e₁, h₂) = bind-ok (calls_of py (xs ++ ys)) _ c h₁ in
    let (a, b, f, g, q) = calls_of-split py xs ys d e₁ in
    (
      cons_some o a,
      b,
      rw (e, f) refl,
      g,
      sym (ok_injective _ _ h₂) ∙ ap (cons_some o) q ∙ sym (cons_some-append o a b),
    )

call_of-dispatch_marker :
    (py : Python) (m : Marked)
    → m.call.native_call_id ≢ ""
    → call_of py (dispatch_marker py m) ≡ ok (some (m.actor, m.call.native_call_id))
unfolding call_of dispatch_marker common get has text? item spell
call_of-dispatch_marker py m h = elim (Bool-cases (m.call.native_call_id == "")) [
  | inl y ↦ absurd (h ((string_eq.beq_iff _ "").0 y))
  | inr n ↦ rw (call_of, n) refl
]

call_of-tool_marker :
    (py : Python) (m : Marked) (parent : String) → call_of py (tool_marker py m parent) ≡ ok none
unfolding call_of tool_marker common get text?
call_of-tool_marker py m parent = refl

-- The markers of a call are of that call and of no other.
calls_of-markers :
    (py : Python) (m : Marked)
    → m.call.native_call_id ≢ ""
    → calls_of py (markers py m) ≡ ok ((m.actor, m.call.native_call_id) ∷ [])
unfolding markers calls_of
calls_of-markers py m h = elim (Option-cases m.parent) [
  | inl n ↦ rw (call_of-dispatch_marker py m h, n) refl
  | inr (parent, e) ↦
      rw (call_of-dispatch_marker py m h, e) (rw (call_of-tool_marker py m parent) refl)
]

-- The calls that the loop has observed have a dispatch or a tail.
abbrev pub Evident : Python → List Fields → Rendering → Type 0
Evident py dispatches r =
    (ids : List CallId) × (calls_of py (dispatches ++ r.operations) ≡ ok ids)
    × Subset r.observed ids

pub Evident-add_markers :
    (py : Python) (dispatches : List Fields) (m : Marked) (r : Rendering)
    → m.call.native_call_id ≢ ""
    → Evident py dispatches r
    → Evident py dispatches (add_markers py m r)
unfolding add_markers
Evident-add_markers py dispatches m r h (ids, e, s) = (
  ids ++ (m.actor, m.call.native_call_id) ∷ [],
  ap (calls_of py) (sym (append_assoc dispatches r.operations (markers py m)))
      ∙ calls_of-append py (dispatches ++ r.operations) (markers py m) ids _ e
          (calls_of-markers py m h),
  λ c i. elim i [
    | inl q ↦ In-append_right c ids _ (inl q)
    | inr i' ↦ In-append_left c ids _ (s c i')
  ],
)
