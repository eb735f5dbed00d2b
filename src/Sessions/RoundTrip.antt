-- ===== src/Sessions/RoundTrip.antt =====
-- A pair of tokens is verified by its own kind's function, and by no other.
use buddy_web_ver.Base.{ℕ, ◌+◌, ◌*◌, ◌/◌, ◌≤◌, ◌<◌, ◌≡◌, refl, none, some, arith}
use buddy_web_ver.Errors.{token_validation_error, ok, err}
use buddy_web_ver.Time.{aware, second}
use buddy_web_ver.Text.{Text}
use buddy_web_ver.Models.User.{UserRole}
use buddy_web_ver.Sessions.Jwt.{Libraries, LibraryLaws, ReadsBack}
use buddy_web_ver.Sessions.Tokens.{
  jwt_clock_skew, access_token_ttl, refresh_token_ttl, access, refresh, jwt_header, token_payload,
  max_timestamp, TokenPair, create_token_pair, utc_second, verify_access_token,
  verify_refresh_token,
}
use buddy_web_ver.Sessions.Claims.{decoded_own, read_claims, own_refresh, refused, role_read}

module _ (l : Libraries) (laws : LibraryLaws l) (key : Text) (at session_id a r user_id t : ℕ)
    (role : UserRole) (pair : TokenPair l) (user_text : ReadsBack l user_id)
    (session_text : ReadsBack l session_id) (access_text : ReadsBack l a)
    (refresh_text : ReadsBack l r)
    (created : create_token_pair l key session_id a r user_id role (aware (t * second)) ≡ ok pair)
    (begun : t ≤ at + jwt_clock_skew) (alive : at < t + 900 + jwt_clock_skew)
    (in_time : t + 604_800 ≤ max_timestamp) where
  access_read :
      verify_access_token l key at (
        l.encode key jwt_header (
          token_payload user_id session_id a access
            (t * second)
            (t * second + 900 * second)
            (some role)))
      ≡ ok (record {
        user_id = user_id;
        role = role;
        session_id = session_id;
        token_id = a;
        issued_at = t * second;
        expires_at = t * second + 900 * second;
      })
  unfolding verify_access_token token_payload
  access_read =
      rw
        (
          decoded_own l laws key at user_id session_id a t 900 (some role) user_text session_text
              access_text begun alive (omega arith) access (λ _. refl),
          read_claims l laws key at user_id session_id a t 900 (some role) user_text session_text
              access_text begun alive (omega arith) access,
          role_read l role,
        )
        refl

  wrong_access :
      (other : ℕ)
      → verify_access_token l key other (
          l.encode key jwt_header (
            token_payload user_id session_id r refresh
              (t * second)
              (t * second + 604_800 * second)
              none))
        ≡ err token_validation_error
  unfolding verify_access_token
  wrong_access other =
      rw
        (refused l laws key other user_id session_id r (t * second) (t * second + 604_800 * second)
          none refresh access refl)
        refl

  wrong_refresh :
      (other : ℕ)
      → verify_refresh_token l key other (
          l.encode key jwt_header (
            token_payload user_id session_id a access
              (t * second)
              (t * second + 900 * second)
              (some role)))
        ≡ err token_validation_error
  unfolding verify_refresh_token
  wrong_refresh other =
      rw
        (refused l laws key other user_id session_id a (t * second) (t * second + 900 * second)
          (some role) access refresh refl)
        refl

  pair_tokens :
      (pair.access_token
        ≡ l.encode key jwt_header (
            token_payload user_id session_id a access
              (t * second)
              (t * second + 900 * second)
              (some role)))
      × (pair.refresh_token
          ≡ l.encode key jwt_header (
              token_payload user_id session_id r refresh
                (t * second)
                (t * second + 604_800 * second)
                none))
  unfolding create_token_pair utc_second
  pair_tokens =
      let whole : t * second / second ≡ t = omega arith in
      let made = rw whole at created in (cc, cc)

  -- The pair that is created for a user at the second `t`. While both tokens are current, each is
  -- verified by the function of its kind, which reads back the user, the session, the identifier of
  -- the token, the role, and the times of issue and expiry; and at any time each is refused by the
  -- function of the other kind. PyJWT is assumed to behave as
  -- documented, and `UUID` to read back the four identifiers.
  pub pair_verified :
      (verify_access_token l key at pair.access_token
        ≡ ok (record {
          user_id = user_id;
          role = role;
          session_id = session_id;
          token_id = a;
          issued_at = t * second;
          expires_at = t * second + access_token_ttl;
        }))
      × (verify_refresh_token l key at pair.refresh_token
          ≡ ok (record {
            user_id = user_id;
            session_id = session_id;
            token_id = r;
            issued_at = t * second;
            expires_at = t * second + refresh_token_ttl;
          }))
      × ((other : ℕ)
          → verify_access_token l key other pair.refresh_token ≡ err token_validation_error)
      × ((other : ℕ)
          → verify_refresh_token l key other pair.access_token ≡ err token_validation_error)
  pair_verified =
      let (is_access, is_refresh) = pair_tokens in
      (
        rw is_access access_read,
        rw is_refresh (
            own_refresh l laws key at user_id session_id r t 604_800 none user_text session_text
              refresh_text begun (omega arith) in_time refl),
        λ other. rw is_refresh (wrong_access other),
        λ other. rw is_access (wrong_refresh other),
      )
