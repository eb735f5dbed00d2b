-- ===== src/Sessions/Tokens.antt =====
-- Creating and verifying tokens (apps/api/app/services/tokens.py). Timestamps in claims are seconds.
-- The new identifiers and the time at which PyJWT decodes are arguments.
use buddy_web_ver.Base.{
  ℕ, ◌+◌, ◌*◌, ◌/◌, Bool, true, false, not, ◌||◌, Option, none, some, ltb, ◌==◌, if◌then◌else◌,
  text_eq,
}
use buddy_web_ver.Errors.{token_validation_error, Result, ok, err, ◌>>=◌, ◌>>◌, raise_if, or_raise}
use buddy_web_ver.Time.{Datetime, utc_now, second, minute, day}
use buddy_web_ver.Text.{Text, codes, uuid_text}
use buddy_web_ver.Models.User.{UserRole, user, admin}
use buddy_web_ver.Sessions.Jwt.{ClaimValue, text, number, Payload, Header, Requirements, Libraries}

abbrev pub jwt_algorithm : Text
jwt_algorithm = codes "HS256"

abbrev pub jwt_issuer : Text
jwt_issuer = codes "vgu-buddy-api"

abbrev pub jwt_audience : Text
jwt_audience = codes "vgu-buddy-web"

abbrev pub jwt_clock_skew : ℕ
jwt_clock_skew = 30

abbrev pub access_token_ttl : ℕ
access_token_ttl = 15 * minute

abbrev pub refresh_token_ttl : ℕ
refresh_token_ttl = 7 * day

pub data TokenType : Type 0 where
  access refresh : TokenType

abbrev pub type_text : TokenType → Text
type_text access = codes "access"
type_text refresh = codes "refresh"

abbrev pub role_text : UserRole → Text
role_text user = codes "USER"
role_text admin = codes "ADMIN"

-- `UserRole(value)`
abbrev pub role_of : Text → Option UserRole
role_of value =
    if text_eq value (codes "USER")
    then some user
    else if text_eq value (codes "ADMIN")
    then some admin
    else none

pub record AccessTokenClaims : Type 0 where
  pub user_id : ℕ
  pub role : UserRole
  pub session_id : ℕ
  pub token_id : ℕ
  pub issued_at : ℕ
  pub expires_at : ℕ

pub record RefreshTokenClaims : Type 0 where
  pub user_id : ℕ
  pub session_id : ℕ
  pub token_id : ℕ
  pub issued_at : ℕ
  pub expires_at : ℕ

-- `value.astimezone(UTC).replace(microsecond=0)`
unfoldable pub utc_second : Datetime → Result ℕ
utc_second now = do t ← utc_now now; ok (t / second * second)

abbrev pub jwt_header : Header
jwt_header = record { alg = some jwt_algorithm; typ = some (codes "JWT") }

-- The payload of `_encode_token`.
unfoldable pub token_payload : ℕ → ℕ → ℕ → TokenType → ℕ → ℕ → Option UserRole → Payload
token_payload user_id session_id token_id token_type issued_at expires_at role = record {
  iss = some (text jwt_issuer);
  aud = some (text jwt_audience);
  sub = some (text (uuid_text user_id));
  sid = some (text (uuid_text session_id));
  jti = some (text (uuid_text token_id));
  token_type = some (text (type_text token_type));
  iat = some (number (issued_at / second));
  nbf = some (number (issued_at / second));
  exp = some (number (expires_at / second));
  role = elim role [ none ↦ none | some r ↦ some (text (role_text r)) ];
}

abbrev pub requirements : TokenType → Requirements
requirements token_type = record {
  audience = jwt_audience;
  issuer = jwt_issuer;
  leeway = jwt_clock_skew;
  role_required = elim token_type [ access ↦ true | refresh ↦ false ];
}

abbrev pub text_is : Option Text → Text → Bool
text_is none expected = false
text_is (some value) expected = text_eq value expected

abbrev pub claim_is : Option ClaimValue → Text → Bool
claim_is (some (text value)) expected = text_eq value expected
claim_is (some v) expected = false
claim_is none expected = false

-- The last second of the year 9999, past which `datetime.fromtimestamp` overflows.
abbrev pub max_timestamp : ℕ
max_timestamp = 253_402_300_799

abbrev pub read_timestamp_claim : Option ClaimValue → Result ℕ
read_timestamp_claim (some (number n)) = do
  raise_if (ltb max_timestamp n) token_validation_error
  ok (n * second)
read_timestamp_claim (some v) = err token_validation_error
read_timestamp_claim none = err token_validation_error

module _ (l : Libraries) where
  pub record TokenPair : Type 0 where
    pub access_token : l.Token
    pub refresh_token : l.Token
    pub access_expires_at : ℕ
    pub refresh_expires_at : ℕ
    pub session_id : ℕ
    pub access_token_id : ℕ
    pub refresh_token_id : ℕ

  unfoldable pub create_token_pair : Text → ℕ → ℕ → ℕ → ℕ → UserRole → Datetime → Result TokenPair
  create_token_pair key session_id access_token_id refresh_token_id user_id role now = do
    issued_at ← utc_second now
    let access_expires_at = issued_at + access_token_ttl
    let refresh_expires_at = issued_at + refresh_token_ttl
    ok (record {
      access_token = l.encode key jwt_header (
          token_payload user_id session_id access_token_id access issued_at access_expires_at
            (some role));
      refresh_token = l.encode key jwt_header (
          token_payload user_id session_id refresh_token_id refresh issued_at refresh_expires_at
            none);
      access_expires_at = access_expires_at;
      refresh_expires_at = refresh_expires_at;
      session_id = session_id;
      access_token_id = access_token_id;
      refresh_token_id = refresh_token_id;
    })

  unfoldable pub decode_token : Text → ℕ → TokenType → l.Token → Result Payload
  decode_token key at expected_type token = do
    (header, payload) ←
        or_raise (l.decode_complete key (requirements expected_type) at token)
          token_validation_error
    raise_if
        (not (text_is header.alg jwt_algorithm)
          || not (text_is header.typ (codes "JWT"))
          || not (claim_is payload.token_type (type_text expected_type)))
        token_validation_error
    ok payload

  abbrev pub read_uuid_claim : Option ClaimValue → Result ℕ
  read_uuid_claim (some (text value)) = or_raise (l.uuid value) token_validation_error
  read_uuid_claim (some v) = err token_validation_error
  read_uuid_claim none = err token_validation_error

  -- The claims that both kinds of token have: user, session, token, times of issue and expiry.
  unfoldable pub read_common_claims : Payload → ℕ → Result RefreshTokenClaims
  read_common_claims payload expected_ttl = do
    user_id ← read_uuid_claim payload.sub
    session_id ← read_uuid_claim payload.sid
    token_id ← read_uuid_claim payload.jti
    issued_at ← read_timestamp_claim payload.iat
    not_before ← read_timestamp_claim payload.nbf
    expires_at ← read_timestamp_claim payload.exp
    raise_if (not (not_before == issued_at) || not (expires_at == issued_at + expected_ttl))
        token_validation_error
    ok (record {
      user_id = user_id;
      session_id = session_id;
      token_id = token_id;
      issued_at = issued_at;
      expires_at = expires_at;
    })

  abbrev pub read_role : Option ClaimValue → Result UserRole
  read_role (some (text value)) = or_raise (role_of value) token_validation_error
  read_role (some v) = err token_validation_error
  read_role none = err token_validation_error

  unfoldable pub verify_access_token : Text → ℕ → l.Token → Result AccessTokenClaims
  verify_access_token key at token = do
    payload ← decode_token key at access token
    claims ← read_common_claims payload access_token_ttl
    role ← read_role payload.role
    ok (record {
      user_id = claims.user_id;
      role = role;
      session_id = claims.session_id;
      token_id = claims.token_id;
      issued_at = claims.issued_at;
      expires_at = claims.expires_at;
    })

  unfoldable pub verify_refresh_token : Text → ℕ → l.Token → Result RefreshTokenClaims
  verify_refresh_token key at token = do
    payload ← decode_token key at refresh token
    read_common_claims payload refresh_token_ttl

  pub record RefreshTokenRotation : Type 0 where
    pub consumed_token_id : ℕ
    pub replacement : TokenPair

  unfoldable pub prepare_refresh_rotation :
      Text → ℕ → ℕ → ℕ → l.Token → UserRole → Datetime → Result RefreshTokenRotation
  prepare_refresh_rotation key at access_token_id refresh_token_id refresh_token current_role now =
      do
        claims ← verify_refresh_token key at refresh_token
        replacement ←
            create_token_pair key claims.session_id access_token_id refresh_token_id claims.user_id
              current_role now
        ok (record { consumed_token_id = claims.token_id; replacement = replacement })
