-- ===== src/Sessions/Families.antt =====
-- Refresh-token families: creation, rotation, revocation (apps/api/app/services/refresh_sessions.py).
-- `RefreshSessionRevokedError` is a result, since the endpoint commits the staged revocation
-- (`refresh_session` of apps/api/app/api/auth.py) and rolls back every other exception.
use buddy_web_ver.Base.{
  ℕ, Bool, false, not, ◌&&◌, ◌||◌, Option, none, some, List, [], ◌∷◌, leb, ◌==◌, if◌then◌else◌,
  is_none, is_some, scalar, any,
}
use buddy_web_ver.Errors.{
  Exception, refresh_session_error, token_validation_error, unique_violation, ok, err, or_raise,
}
use buddy_web_ver.Time.{Datetime, aware}
use buddy_web_ver.Text.{Text}
use buddy_web_ver.Models.User.{User}
use buddy_web_ver.Models.Account.{RefreshSession}
use buddy_web_ver.Db.{Session, pure, lift, guard, read, map_error, ◌>>=◌, ◌>>◌}
use buddy_web_ver.Sessions.Jwt.{Libraries}
use buddy_web_ver.Sessions.Tokens.{
  TokenPair, RefreshTokenClaims, RefreshTokenRotation, prepare_refresh_rotation, utc_second,
}

abbrev pub put : RefreshSession → List RefreshSession → List RefreshSession
put s [] = []
put s (t ∷ ts) = if t.id == s.id then s ∷ put s ts else t ∷ put s ts

abbrev pub family : ℕ → List RefreshSession → Option RefreshSession
family session_id = scalar (λ s. s.id == session_id)

-- The `UPDATE` of a family: its token must be nobody else's (`refresh_token_id` is unique).
abbrev pub same_token : RefreshSession → RefreshSession → Bool
same_token s t = t.refresh_token_id == s.refresh_token_id && not (t.id == s.id)

unfoldable pub save_family : RefreshSession → Session (Unit {0})
save_family s db =
    if any (same_token s) db.refresh_sessions
    then err unique_violation
    else ok (tt, record db { refresh_sessions = put s db.refresh_sessions })

-- `_stage_family_revocation`, which writes the one column `revoked_at`.
unfoldable pub stage_family_revocation : RefreshSession → ℕ → Session (Unit {0})
stage_family_revocation s revoked_at db = ok (
  tt,
  record db {
    refresh_sessions = put (record s { revoked_at = some revoked_at }) db.refresh_sessions;
  },
)

-- `_invalid_session` for a token that cannot be validated.
abbrev pub invalid_if_token : Exception → Exception
invalid_if_token token_validation_error = refresh_session_error
invalid_if_token e = e

-- The tests that revoke the family: another user's, expired, or a token that was replaced.
abbrev pub is_untrusted : RefreshSession → RefreshTokenClaims → ℕ → Bool
is_untrusted s claims at =
    not (s.user_id == claims.user_id)
    || leb s.expires_at at
    || not (s.refresh_token_id == claims.token_id)

abbrev pub may_refresh : User → Bool
may_refresh u = u.is_active && is_none u.deleted_at

abbrev pub revoke_found : Option RefreshSession → ℕ → Session (Unit {0})
revoke_found none at = pure tt
revoke_found (some s) at =
    if is_some s.deleted_at || is_some s.revoked_at then pure tt else stage_family_revocation s at

unfoldable pub revoke_refresh_session : ℕ → ℕ → Datetime → Session (Unit {0})
revoke_refresh_session session_id user_id now = do
  at ← lift (utc_second now)
  λ db.
      revoke_found (scalar (λ s. s.id == session_id && s.user_id == user_id) db.refresh_sessions) at
        db

module _ (l : Libraries) where
  -- `revoked` stands for `RefreshSessionRevokedError`.
  pub data Rotation : Type 0 where
    rotated : User → TokenPair l → Rotation
    revoked : Rotation

  -- The `INSERT` of a family: its key and its token must be new.
  unfoldable pub create_refresh_session : User → TokenPair l → Session RefreshSession
  create_refresh_session u pair db =
      let s : RefreshSession = record {
        id = pair.session_id;
        user_id = u.id;
        refresh_token_id = pair.refresh_token_id;
        expires_at = pair.refresh_expires_at;
        revoked_at = none;
        deleted_at = none;
      } in
      if any (λ t. t.id == s.id || t.refresh_token_id == s.refresh_token_id) db.refresh_sessions
      then err unique_violation
      else ok (s, record db { refresh_sessions = s ∷ db.refresh_sessions })

  abbrev pub revoke_family : RefreshSession → ℕ → Session Rotation
  revoke_family s at = stage_family_revocation s at >> pure revoked

  -- The replacement of the current token.
  abbrev pub replace_token : RefreshSession → User → RefreshTokenRotation l → ℕ → Session Rotation
  replace_token s u rotation at =
      if not (rotation.consumed_token_id == s.refresh_token_id)
      then revoke_family s at
      else save_family (record s {
        refresh_token_id = rotation.replacement.refresh_token_id;
        expires_at = rotation.replacement.refresh_expires_at;
      })
        >> pure (rotated u rotation.replacement)

  module _ (key : Text) (decoded_at access_token_id refresh_token_id : ℕ) (refresh_token : l.Token)
      (claims : RefreshTokenClaims) where
    unfoldable pub rotate_for : RefreshSession → ℕ → Option User → Session Rotation
    rotate_for s at none = revoke_family s at
    rotate_for s at (some u) =
        if not (may_refresh u)
        then revoke_family s at
        else map_error invalid_if_token (
            lift (
              prepare_refresh_rotation l key decoded_at access_token_id refresh_token_id
                refresh_token u.role (aware at)))
          >>= λ rotation. replace_token s u rotation at

    unfoldable pub rotate_family : RefreshSession → ℕ → Session Rotation
    rotate_family s at db =
        if is_untrusted s claims at
        then revoke_family s at db
        else rotate_for s at (scalar (λ u. u.id == claims.user_id) db.users) db

    unfoldable pub rotate_refresh_session : Datetime → Session Rotation
    rotate_refresh_session now = do
      at ← lift (utc_second now)
      s ← read (λ db. or_raise (family claims.session_id db.refresh_sessions) refresh_session_error)
      guard (is_some s.deleted_at || is_some s.revoked_at) refresh_session_error
      rotate_family s at

  -- What identifies a live family for a CSRF token: an access token, or the current refresh token.
  pub data CsrfClaims : Type 0 where
    by_access : ℕ → ℕ → CsrfClaims
    by_refresh : ℕ → ℕ → ℕ → CsrfClaims

  -- The family of the claims, and what makes it unfit.
  abbrev pub csrf_family : CsrfClaims → List RefreshSession → Option RefreshSession
  csrf_family (by_access session_id user_id) =
      scalar (λ s. s.id == session_id && s.user_id == user_id)
  csrf_family (by_refresh session_id user_id token_id) =
      scalar (λ s. s.id == session_id && s.user_id == user_id)

  abbrev pub is_replaced : CsrfClaims → RefreshSession → Bool
  is_replaced (by_access session_id user_id) s = false
  is_replaced (by_refresh session_id user_id token_id) s = not (s.refresh_token_id == token_id)

  unfoldable pub validate_csrf_recovery_session : CsrfClaims → Datetime → Session (Unit {0})
  validate_csrf_recovery_session claims now = do
    at ← lift (utc_second now)
    s ← read (λ db. or_raise (csrf_family claims db.refresh_sessions) refresh_session_error)
    guard
        (is_some s.deleted_at
          || is_some s.revoked_at
          || leb s.expires_at at
          || is_replaced claims s)
        refresh_session_error
