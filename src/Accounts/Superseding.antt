-- ===== src/Accounts/Superseding.antt =====
-- Superseding the open token of a user.
use buddy_web_ver.Base.{
  ℕ, ◌≡◌, refl, ◌∙◌, subst, inl, inr, Bool, true, false, ◌&&◌, none, some, List, [], ◌∷◌, ◌==◌,
  arith, scalar, any, Bool-cases, Option-cases,
}
use buddy_web_ver.Models.Account.{EmailVerificationToken}
use buddy_web_ver.Accounts.Verification.{is_open, put, open_token}

-- A user has at most one open token, as the partial unique index demands.
abbrev pub OneOpen : List EmailVerificationToken → Type 0
OneOpen [] = Unit
OneOpen (t ∷ ts) =
    (any (λ x. is_open t && is_open x && x.user_id == t.user_id) ts ≡ false) × OneOpen ts

-- The tokens after the user's open one is superseded.
abbrev pub superseded : ℕ → ℕ → List EmailVerificationToken → List EmailVerificationToken
superseded at user_id ts = elim (open_token user_id ts) [
  | none ↦ ts
  | some t ↦ put (record t { superseded_at = some at }) ts
]

any-put :
    (q : EmailVerificationToken → Bool) (t : EmailVerificationToken)
    (ts : List EmailVerificationToken)
    → q t ≡ false
    → any q ts ≡ false
    → any q (put t ts) ≡ false
any-put q t [] h k = refl
any-put q t (x ∷ xs) h k = ground (arith, any-put q t xs)

found_fails :
    (p q : EmailVerificationToken → Bool) (t : EmailVerificationToken)
    (ts : List EmailVerificationToken)
    → scalar p ts ≡ some t
    → any q ts ≡ false
    → q t ≡ false
found_fails p q t [] h k = cc
found_fails p q t (x ∷ xs) h k = ground (arith, found_fails p q t xs)

none_open :
    (user_id : ℕ) (ts : List EmailVerificationToken)
    → open_token user_id ts ≡ none
    → any (λ x. is_open x && x.user_id == user_id) ts ≡ false
none_open user_id [] h = refl
none_open user_id (x ∷ xs) h = ground (arith, none_open user_id xs)

no_other_open :
    (user_id : ℕ) (x : EmailVerificationToken) (xs : List EmailVerificationToken)
    → (x.user_id == user_id && is_open x) ≡ true
    → any (λ y. is_open x && is_open y && y.user_id == x.user_id) xs ≡ false
    → any (λ y. is_open y && y.user_id == user_id) xs ≡ false
no_other_open user_id x [] h k = refl
no_other_open user_id x (y ∷ ys) h k = ground (arith, no_other_open user_id x ys h)

closed_hit :
    (at user_id : ℕ) (x : EmailVerificationToken) (xs : List EmailVerificationToken)
    → any (λ y. is_open y && y.user_id == user_id) xs ≡ false
    → any
        (λ y. is_open y && y.user_id == user_id)
        (put (record x { superseded_at = some at }) (x ∷ xs))
      ≡ false
closed_hit at user_id x xs h =
    let closed : EmailVerificationToken = record x { superseded_at = some at } in
    let rest = any-put (λ y. is_open y && y.user_id == user_id) closed xs (ground arith) h in
    let same : (x.id == x.id) ≡ true = ground arith in rw same (ground (arith, rest))

closed_miss :
    (user_id : ℕ) (t x : EmailVerificationToken) (xs : List EmailVerificationToken)
    → is_open t ≡ false
    → (x.user_id == user_id && is_open x) ≡ false
    → any (λ y. is_open y && y.user_id == user_id) (put t xs) ≡ false
    → any (λ y. is_open y && y.user_id == user_id) (put t (x ∷ xs)) ≡ false
closed_miss user_id t x xs closed miss h = ground arith

closed_after :
    (at user_id : ℕ) (t : EmailVerificationToken) (ts : List EmailVerificationToken)
    → OneOpen ts
    → open_token user_id ts ≡ some t
    → any (λ x. is_open x && x.user_id == user_id) (put (record t { superseded_at = some at }) ts)
      ≡ false
closed_after at user_id t [] one h = refl
closed_after at user_id t (x ∷ xs) one h = elim (Bool-cases (x.user_id == user_id && is_open x)) [
  | inl e ↦
      let found : some x ≡ some t = rw e at h in
      let same : x ≡ t = cc in
      subst
        (λ (y : EmailVerificationToken).
          any (λ z. is_open z && z.user_id == user_id)
            (put (record y { superseded_at = some at }) (x ∷ xs))
          ≡ false)
        same (closed_hit at user_id x xs (no_other_open user_id x xs e one.0))
  | inr e ↦
      let later : open_token user_id xs ≡ some t = rw e at h in
      closed_miss user_id (record t { superseded_at = some at }) x xs (ground arith) e
        (closed_after at user_id t xs one.1 later)
]

OneOpen-put :
    (t : EmailVerificationToken) (ts : List EmailVerificationToken)
    → is_open t ≡ false
    → OneOpen ts
    → OneOpen (put t ts)
OneOpen-put t [] h one = tt
OneOpen-put t (x ∷ xs) h one = elim (Bool-cases (x.id == t.id)) [
  | inl e ↦ rw e (closed_head t (put t xs) h, OneOpen-put t xs h one.1)
  | inr e ↦ rw e (
    any-put (λ y. is_open x && is_open y && y.user_id == x.user_id) t xs (ground arith) one.0,
    OneOpen-put t xs h one.1,
  )
]
  where
    closed_head :
        (t : EmailVerificationToken) (ts : List EmailVerificationToken)
        → is_open t ≡ false
        → any (λ x. is_open t && is_open x && x.user_id == t.user_id) ts ≡ false
    closed_head t [] h = refl
    closed_head t (x ∷ xs) h = ground (arith, closed_head t xs h)

module _ (at user_id : ℕ) (ts : List EmailVerificationToken) where
  pub superseded_closed :
      OneOpen ts → any (λ x. is_open x && x.user_id == user_id) (superseded at user_id ts) ≡ false
  superseded_closed one = elim (Option-cases (open_token user_id ts)) [
    | inl e ↦ rw (superseded, e) (none_open user_id ts e)
    | inr (t, e) ↦ rw (superseded, e) (closed_after at user_id t ts one e)
  ]

  pub superseded-OneOpen : OneOpen ts → OneOpen (superseded at user_id ts)
  superseded-OneOpen one = elim (Option-cases (open_token user_id ts)) [
    | inl e ↦ rw (superseded, e) one
    | inr (t, e) ↦
        rw (superseded, e)
          (OneOpen-put (record t { superseded_at = some at }) ts (ground arith) one)
  ]

  -- Superseding changes neither keys nor digests.
  pub superseded_lacks :
      (q : EmailVerificationToken → Bool)
      → ((t : EmailVerificationToken) → q (record t { superseded_at = some at }) ≡ q t)
      → any q ts ≡ false
      → any q (superseded at user_id ts) ≡ false
  superseded_lacks q same h = elim (Option-cases (open_token user_id ts)) [
    | inl e ↦ rw (superseded, e) h
    | inr (t, e) ↦
        rw (superseded, e)
          (any-put q (record t { superseded_at = some at }) ts
            (same t ∙ found_fails (λ t. t.user_id == user_id && is_open t) q t ts e h) h)
  ]
