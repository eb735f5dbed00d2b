-- ===== src/Sessions/Reuse.antt =====
-- A refresh token is used once.
use buddy_web_ver.Base.{
  ℕ, ◌≡◌, ◌≢◌, refl, ap, subst, ◌⊎◌, inl, inr, Bool, false, some, List, [], ◌∷◌, ◌==◌, arith,
  scalar, All, Bool-cases,
}
use buddy_web_ver.Errors.{ok, ok_inv}
use buddy_web_ver.Time.{Datetime, aware}
use buddy_web_ver.Text.{Text}
use buddy_web_ver.Models.User.{User, UserRole}
use buddy_web_ver.Models.Account.{RefreshSession}
use buddy_web_ver.Db.{Db}
use buddy_web_ver.Sessions.Jwt.{Libraries}
use buddy_web_ver.Sessions.Tokens.{
  TokenPair, RefreshTokenClaims, RefreshTokenRotation, prepare_refresh_rotation, create_token_pair,
  verify_refresh_token, utc_second,
}
use buddy_web_ver.Sessions.Families.{put, family, Rotation, rotated, revoked}
use buddy_web_ver.Sessions.Rotations.{Ended, family_revoked, token_replaced}

pub family-put_self :
    (s t : RefreshSession) (ts : List RefreshSession)
    → family s.id ts ≡ some t
    → family s.id (put s ts) ≡ some s
family-put_self s t [] h = ground arith
family-put_self s t (x ∷ xs) h = ground (arith, family-put_self s t xs)

pub family_key :
    (k : ℕ) (s : RefreshSession) (ts : List RefreshSession) → family k ts ≡ some s → s.id ≡ k
family_key k s [] h = cc
family_key k s (x ∷ xs) h = ground (arith, family_key k s xs)

created_token :
    (l : Libraries) (key : Text) (sid a r uid : ℕ) (role : UserRole) (now : Datetime)
    (p : TokenPair l)
    → create_token_pair l key sid a r uid role now ≡ ok p
    → p.refresh_token_id ≡ r
unfolding create_token_pair
created_token l key sid a r uid role now p h =
    let (t, _, h1) = ok_inv (utc_second now) _ p h in ground arith

-- The token that a rotation issues is the new one.
prepared_token :
    (l : Libraries) (key : Text) (at a r : ℕ) (token : l.Token) (role : UserRole) (now : Datetime)
    (x : RefreshTokenRotation l)
    → prepare_refresh_rotation l key at a r token role now ≡ ok x
    → x.replacement.refresh_token_id ≡ r
unfolding prepare_refresh_rotation
prepared_token l key at a r token role now x h =
    let (c, _, h1) = ok_inv (verify_refresh_token l key at token) _ x h in
    let (p, made, h2) =
      ok_inv (create_token_pair l key c.session_id a r c.user_id role now) _ x h1 in
    let same : p ≡ x.replacement = ground arith in
    subst (λ (q : TokenPair l). q.refresh_token_id ≡ r) same
      (created_token l key c.session_id a r c.user_id role now p made)

-- The family of a session has moved on from a token.
abbrev pub Spent : ℕ → ℕ → List RefreshSession → Type 0
Spent session_id token_id =
    All (λ (s : RefreshSession). s.id ≡ session_id → s.refresh_token_id ≢ token_id)

pub Spent-put :
    (session_id token_id : ℕ) (s : RefreshSession) (ts : List RefreshSession)
    → (s.id ≡ session_id → s.refresh_token_id ≢ token_id)
    → Spent session_id token_id ts
    → Spent session_id token_id (put s ts)
Spent-put session_id token_id s [] moved h = tt
Spent-put session_id token_id s (x ∷ xs) moved h = elim (Bool-cases (x.id == s.id)) [
  | inl e ↦ rw e (moved, Spent-put session_id token_id s xs moved h.1)
  | inr e ↦ rw e (h.0, Spent-put session_id token_id s xs moved h.1)
]

-- An update moves the family on, whatever was stored.
pub put-Spent :
    (token_id : ℕ) (s : RefreshSession) (ts : List RefreshSession)
    → s.refresh_token_id ≢ token_id
    → Spent s.id token_id (put s ts)
put-Spent token_id s [] moved = tt
put-Spent token_id s (x ∷ xs) moved = elim (Bool-cases (x.id == s.id)) [
  | inl e ↦ rw e ((λ _. moved), put-Spent token_id s xs moved)
  | inr e ↦ rw e ((λ same. absurd (other_key x s e same)), put-Spent token_id s xs moved)
]
  where
    other_key : (x s : RefreshSession) → (x.id == s.id) ≡ false → x.id ≡ s.id → ⊥
    other_key x s e h = ground arith

pub row_holds {κ} :
    (P : RefreshSession → Type κ) (p : RefreshSession → Bool) (s : RefreshSession)
    (ts : List RefreshSession)
    → All P ts
    → scalar p ts ≡ some s
    → P s
row_holds P p s [] h e = cc
row_holds P p s (x ∷ xs) h e = elim (Bool-cases (p x)) [
  | inl c ↦ let found : some x ≡ some s = rw c at e in let same : x ≡ s = cc in subst P same h.0
  | inr c ↦ let rest = rw c at e in row_holds P p s xs h.1 rest
]

module _ (l : Libraries) where
  revoked≢rotated : {u : User} {p : TokenPair l} → revoked ≡ rotated u p → ⊥
  revoked≢rotated h = cc

  pair_of : {u v : User} {p q : TokenPair l} → rotated u p ≡ rotated v q → p ≡ q
  pair_of h = cc

  module _ (key : Text) (decoded_at a r : ℕ) (token : l.Token) (claims : RefreshTokenClaims) where
    -- What a rotation writes: one family, whose token is the old one or the new one.
    pub Ended-writes :
        (s : RefreshSession) (at : ℕ) (db : Db) {db' : Db} {o : Rotation l}
        → Ended l key decoded_at a r token claims s at db o db'
        → (t : RefreshSession) × (db'.refresh_sessions ≡ put t db.refresh_sessions)
          × (t.id ≡ s.id)
          × ((t.refresh_token_id ≡ s.refresh_token_id) ⊎ (t.refresh_token_id ≡ r))
    Ended-writes s at db family_revoked = (record s { revoked_at = some at }, refl, refl, inl refl)
    Ended-writes s at db (token_replaced u x trusted found may prepared consumed fresh) = (
      record s {
        refresh_token_id = x.replacement.refresh_token_id;
        expires_at = x.replacement.refresh_expires_at;
      },
      refl,
      refl,
      inr (prepared_token l key decoded_at a r token u.role (aware at) x prepared),
    )

    pub Ended-trusted :
        (s : RefreshSession) (at : ℕ) (db : Db) (u : User) (p : TokenPair l) {db' : Db}
        {o : Rotation l}
        → Ended l key decoded_at a r token claims s at db o db'
        → o ≡ rotated u p
        → (s.refresh_token_id ≡ claims.token_id) × (p.refresh_token_id ≡ r)
    Ended-trusted s at db u p family_revoked e = absurd (revoked≢rotated e)
    Ended-trusted s at db u p (token_replaced v x trusted found may prepared consumed fresh) e =
        let same : x.replacement ≡ p = pair_of e in
        (
          ground arith,
          subst (λ (q : TokenPair l). q.refresh_token_id ≡ r) same
              (prepared_token l key decoded_at a r token v.role (aware at) x prepared),
        )

    -- What a rotation that succeeded writes: the family with its new token.
    pub Ended-replaces :
        (s : RefreshSession) (at : ℕ) (db : Db) (u : User) (p : TokenPair l) {db' : Db}
        {o : Rotation l}
        → Ended l key decoded_at a r token claims s at db o db'
        → o ≡ rotated u p
        → db'.refresh_sessions
          ≡ put
              (record s {
                refresh_token_id = p.refresh_token_id;
                expires_at = p.refresh_expires_at;
              })
              db.refresh_sessions
    Ended-replaces s at db u p family_revoked e = absurd (revoked≢rotated e)
    Ended-replaces s at db u p (token_replaced v x trusted found may prepared consumed fresh) e =
        ap
          (λ (q : TokenPair l).
            put
              (record s {
                refresh_token_id = q.refresh_token_id;
                expires_at = q.refresh_expires_at;
              })
              db.refresh_sessions)
          (pair_of e)
