-- ===== src/Sessions/Replay.antt =====
-- Replaying a refresh token.
use buddy_web_ver.Base.{
  ℕ, ◌≡◌, ◌≢◌, refl, ◌∙◌, sym, subst, true, false, ◌||◌, some, List, ◌==◌, is_some, arith,
}
use buddy_web_ver.Errors.{ok}
use buddy_web_ver.Time.{Datetime}
use buddy_web_ver.Text.{Text}
use buddy_web_ver.Models.User.{User}
use buddy_web_ver.Models.Account.{RefreshSession}
use buddy_web_ver.Db.{Db, lift, read, ◌>>=◌}
use buddy_web_ver.Sessions.Jwt.{Libraries}
use buddy_web_ver.Sessions.Tokens.{TokenPair, RefreshTokenClaims, utc_second}
use buddy_web_ver.Sessions.Families.{
  put, family, stage_family_revocation, is_untrusted, rotated, revoked, rotate_family,
  rotate_refresh_session,
}
use buddy_web_ver.Sessions.Rotations.{rotation-Ended}
use buddy_web_ver.Sessions.Reuse.{
  Spent, put-Spent, family_key, family-put_self, row_holds, Ended-trusted, Ended-replaces,
}
use buddy_web_ver.Sessions.Histories.{History, History-Spent}

-- A family that is updated under its key is found there.
stored_under :
    (k : ℕ) (t s : RefreshSession) (ts : List RefreshSession)
    → t.id ≡ k
    → family k ts ≡ some s
    → family k (put t ts) ≡ some t
stored_under k t s ts e found =
    subst (λ (n : ℕ). family n (put t ts) ≡ some t) e
      (family-put_self t s ts (subst (λ (n : ℕ). family n ts ≡ some s) (sym e) found))

untrusted_revokes :
    (l : Libraries) (key : Text) (decoded_at a r : ℕ) (token : l.Token)
    (claims : RefreshTokenClaims) (now : Datetime) (at : ℕ) (db : Db) (s : RefreshSession)
    → utc_second now ≡ ok at
    → family claims.session_id db.refresh_sessions ≡ some s
    → (is_some s.deleted_at || is_some s.revoked_at) ≡ false
    → is_untrusted s claims at ≡ true
    → rotate_refresh_session l key decoded_at a r token claims now db
      ≡ ok (
        revoked,
        record db {
          refresh_sessions = put (record s { revoked_at = some at }) db.refresh_sessions;
        },
      )
unfolding rotate_refresh_session rotate_family stage_family_revocation
untrusted_revokes l key decoded_at a r token claims now at db s is_at found live untrusted =
    rw (is_at, ◌>>=◌, lift, read, found, live, untrusted) refl

module _ (l : Libraries) (key : Text) (decoded_at a r : ℕ) (token : l.Token)
    (claims : RefreshTokenClaims) (now : Datetime) (db db' : Db) (u : User) (pair : TokenPair l)
    (h : rotate_refresh_session l key decoded_at a r token claims now db
      ≡ ok (rotated u pair, db')) where
  -- Reuse is detected. After a rotation that succeeded, a rotation with claims for that session and
  -- any identifier but the one that was given out is refused, and the family is revoked.
  pub reuse_revokes :
      (key' : Text) (decoded_at' a' r' : ℕ) (token' : l.Token) (claims' : RefreshTokenClaims)
      (now' : Datetime) (at' : ℕ)
      → utc_second now' ≡ ok at'
      → claims'.session_id ≡ claims.session_id
      → claims'.token_id ≢ pair.refresh_token_id
      → (db₁ : Db) × (s : RefreshSession) × (rotate_refresh_session l key' decoded_at' a' r' token'
            claims' now' db'
          ≡ ok (revoked, db₁))
        × (family claims.session_id db₁.refresh_sessions ≡ some s)
        × (s.revoked_at ≡ some at')
  reuse_revokes key' decoded_at' a' r' token' claims' now' at' is_at same_session other =
      let (s, at, _, found, live, ended) =
        rotation-Ended l key decoded_at a r token claims now db db' (rotated u pair) h in
      let wrote = Ended-replaces l key decoded_at a r token claims s at db u pair ended refl in
      let t : RefreshSession = record s {
        refresh_token_id = pair.refresh_token_id;
        expires_at = pair.refresh_expires_at;
      } in
      let dead : RefreshSession = record t { revoked_at = some at' } in
      let at_key = family_key claims.session_id s db.refresh_sessions found in
      let stored : family claims.session_id db'.refresh_sessions ≡ some t =
        rw wrote (stored_under claims.session_id t s db.refresh_sessions at_key found) in
      let found' : family claims'.session_id db'.refresh_sessions ≡ some t =
        rw same_session stored in
      (
        record db' { refresh_sessions = put dead db'.refresh_sessions },
        dead,
        untrusted_revokes l key' decoded_at' a' r' token' claims' now' at' db' t is_at found' live
            (ground arith),
        stored_under claims.session_id dead t db'.refresh_sessions at_key stored,
        refl,
      )

module _ (l : Libraries) (key : Text) (decoded_at a r : ℕ) (token : l.Token)
    (claims : RefreshTokenClaims) (now : Datetime) (db db' : Db) (u : User) (pair : TokenPair l)
    (h : rotate_refresh_session l key decoded_at a r token claims now db ≡ ok (rotated u pair, db'))
    (fresh : r ≢ claims.token_id) where
  -- A refresh token is used once. After a rotation that succeeded and gave out a new identifier, under
  -- any history of rotations, revocations, new families and changes of other tables in which no call
  -- makes the used identifier anew, no rotation with claims for that session and that identifier
  -- succeeds.
  pub one_use :
      (db₁ db₂ : Db) (key' : Text) (decoded_at' a' r' : ℕ) (token' : l.Token)
      (claims' : RefreshTokenClaims) (now' : Datetime) (u' : User) (pair' : TokenPair l)
      → History l claims.session_id claims.token_id db' db₁
      → claims'.session_id ≡ claims.session_id
      → claims'.token_id ≡ claims.token_id
      → rotate_refresh_session l key' decoded_at' a' r' token' claims' now' db₁
        ≢ ok (rotated u' pair', db₂)
  one_use db₁ db₂ key' decoded_at' a' r' token' claims' now' u' pair' past same_session same_token
        h' =
      let (s, at, _, found, _, ended) =
        rotation-Ended l key decoded_at a r token claims now db db' (rotated u pair) h in
      let (_, is_r) = Ended-trusted l key decoded_at a r token claims s at db u pair ended refl in
      let wrote = Ended-replaces l key decoded_at a r token claims s at db u pair ended refl in
      let t : RefreshSession = record s {
        refresh_token_id = pair.refresh_token_id;
        expires_at = pair.refresh_expires_at;
      } in
      let moved : Spent claims.session_id claims.token_id (put t db.refresh_sessions) =
        subst (λ (k : ℕ). Spent k claims.token_id (put t db.refresh_sessions))
          (family_key claims.session_id s db.refresh_sessions found)
          (put-Spent claims.token_id t db.refresh_sessions (λ same. fresh (sym is_r ∙ same))) in
      let spent =
        History-Spent l claims.session_id claims.token_id past
          (subst (Spent claims.session_id claims.token_id) (sym wrote) moved) in
      let (s', at', _, found', _, ended') =
        rotation-Ended l key' decoded_at' a' r' token' claims' now' db₁ db₂ (rotated u' pair') h' in
      let (current, _) =
        Ended-trusted l key' decoded_at' a' r' token' claims' s' at' db₁ u' pair' ended' refl in
      row_holds
        (λ (s : RefreshSession). s.id ≡ claims.session_id → s.refresh_token_id ≢ claims.token_id)
        (λ s. s.id == claims'.session_id) s' db₁.refresh_sessions spent found'
        (family_key claims'.session_id s' db₁.refresh_sessions found' ∙ same_session)
        (current ∙ same_token)
