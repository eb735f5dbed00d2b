-- ===== src/Sessions/Claims.antt =====
-- Reading back the claims of one token, of its kind and of the other.
use buddy_web_ver.Base.{
  ℕ, ◌+◌, ◌*◌, ◌/◌, ◌≤◌, ◌<◌, ◌≡◌, refl, subst, inl, inr, Option-cases, true, false, Option, some,
  arith, is_some,
}
use buddy_web_ver.Errors.{token_validation_error, ok, err}
use buddy_web_ver.Time.{second}
use buddy_web_ver.Text.{Text}
use buddy_web_ver.Models.User.{UserRole, user, admin}
use buddy_web_ver.Sessions.Jwt.{text, Payload, Libraries, LibraryLaws, IsCurrent, ReadsBack}
use buddy_web_ver.Sessions.Tokens.{
  jwt_clock_skew, refresh_token_ttl, TokenType, access, refresh, type_text, role_text, jwt_header,
  token_payload, requirements, max_timestamp, decode_token, read_common_claims,
  verify_refresh_token, read_role, claim_is,
}

false≢true : false ≡ true → ⊥
false≢true h = cc

module _ (l : Libraries) (laws : LibraryLaws l) (key : Text)
    (at user_id session_id token_id t ttl : ℕ) (role : Option UserRole)
    (user_text : ReadsBack l user_id) (session_text : ReadsBack l session_id)
    (token_text : ReadsBack l token_id) (begun : t ≤ at + jwt_clock_skew)
    (alive : at < t + ttl + jwt_clock_skew) (in_time : t + ttl ≤ max_timestamp) where
  abbrev pub payload : TokenType → Payload
  payload kind =
      token_payload user_id session_id token_id kind (t * second) (t * second + ttl * second) role

  current : (kind other : TokenType) → IsCurrent (requirements other) at (payload kind)
  unfolding token_payload
  current kind other = record {
    issued_by = refl;
    issued_for = refl;
    issued = (t * second / second, refl, omega arith);
    begun = (t * second / second, refl, omega arith);
    alive = ((t * second + ttl * second) / second, refl, omega arith);
    complete = refl;
  }

  decoded :
      (kind other : TokenType)
      → ((requirements other).role_required ≡ true → is_some (payload kind).role ≡ true)
      → l.decode_complete key (requirements other) at (l.encode key jwt_header (payload kind))
        ≡ some (jwt_header, payload kind)
  decoded kind other has_role =
      laws.decode-encode key (requirements other) at jwt_header (payload kind) refl
        (current kind other) has_role

  pub read_claims :
      (kind : TokenType)
      → read_common_claims l (payload kind) (ttl * second)
        ≡ ok (record {
          user_id = user_id;
          session_id = session_id;
          token_id = token_id;
          issued_at = t * second;
          expires_at = t * second + ttl * second;
        })
  unfolding read_common_claims token_payload
  read_claims kind =
      let begins : t * second / second ≡ t = omega arith in
      let ends : (t * second + ttl * second) / second ≡ t + ttl = omega arith in
      rw (user_text, session_text, token_text, begins, ends) (ground arith)

  -- The kinds are told apart by a claim.
  pub decoded_own :
      (kind : TokenType)
      → ((requirements kind).role_required ≡ true → is_some (payload kind).role ≡ true)
      → decode_token l key at kind (l.encode key jwt_header (payload kind)) ≡ ok (payload kind)
  unfolding decode_token token_payload
  decoded_own access has_role = rw (decoded access access has_role) refl
  decoded_own refresh has_role = rw (decoded refresh refresh has_role) refl

  pub own_refresh :
      ttl * second ≡ refresh_token_ttl
      → verify_refresh_token l key at (l.encode key jwt_header (payload refresh))
        ≡ ok (record {
          user_id = user_id;
          session_id = session_id;
          token_id = token_id;
          issued_at = t * second;
          expires_at = t * second + ttl * second;
        })
  unfolding verify_refresh_token
  own_refresh is_ttl = rw (decoded_own refresh (λ h. absurd (false≢true h))) (
      subst
        (λ (n : ℕ).
          read_common_claims l (payload refresh) n
          ≡ ok (record {
            user_id = user_id;
            session_id = session_id;
            token_id = token_id;
            issued_at = t * second;
            expires_at = t * second + ttl * second;
          }))
        is_ttl (read_claims refresh))

-- A token of one kind is refused by the function of the other.
module _ (l : Libraries) (laws : LibraryLaws l) (key : Text)
    (at user_id session_id token_id t u : ℕ) (role : Option UserRole) where
  pub refused :
      (kind other : TokenType)
      → claim_is (some (text (type_text kind))) (type_text other) ≡ false
      → decode_token l key at other
          (l.encode key jwt_header (token_payload user_id session_id token_id kind t u role))
        ≡ err token_validation_error
  unfolding decode_token token_payload
  refused kind other different =
      let p = token_payload user_id session_id token_id kind t u role in
      elim (Option-cases
        (l.decode_complete key (requirements other) at (l.encode key jwt_header p))) [
          | inl failed ↦ rw failed refl
          | inr ((h', p'), is) ↦
              let (same_h, same_p) =
                laws.decode-sound key (requirements other) at jwt_header h' p p' is in
              rw (is, same_h, same_p, different) refl
        ]

pub role_read : (l : Libraries) (r : UserRole) → read_role l (some (text (role_text r))) ≡ ok r
role_read l user = refl
role_read l admin = refl
