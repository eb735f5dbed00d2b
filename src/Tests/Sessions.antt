-- ===== src/Tests/Sessions.antt =====
-- Tokens of one session, a rotation and a replay, and the theorems applied to them.
use buddy_web_ver.Base.{
  ℕ, ◌+◌, ◌*◌, ◌-◌, ◌≡◌, ◌≢◌, refl, Bool, true, false, ◌&&◌, Option, none, some, [], ◌∷◌, ltb, leb,
  ◌==◌, if◌then◌else◌, text_eq, text_eq_refl, arith,
}
use buddy_web_ver.Errors.{ok, err, token_validation_error}
use buddy_web_ver.Time.{aware, second}
use buddy_web_ver.Text.{Text, codes, uuid_text}
use buddy_web_ver.Models.User.{User, user}
use buddy_web_ver.Models.Account.{RefreshSession}
use buddy_web_ver.Db.{Db}
use buddy_web_ver.Sessions.Jwt.{
  ClaimValue, text, number, other, Payload, Header, Requirements, Libraries, LibraryLaws,
}
use buddy_web_ver.Sessions.Tokens.{
  access_token_ttl, refresh_token_ttl, access, refresh, RefreshTokenClaims, TokenPair, jwt_header,
  token_payload, create_token_pair, utc_second, decode_token, read_common_claims,
  verify_access_token, verify_refresh_token, prepare_refresh_rotation,
}
use buddy_web_ver.Sessions.Families.{
  family, save_family, revoked, rotated, rotate_for, rotate_family, rotate_refresh_session,
}
use buddy_web_ver.Sessions.Histories.{here, next, rotates}
use buddy_web_ver.Sessions.Replay.{reuse_revokes, one_use}
use buddy_web_ver.Sessions.RoundTrip.{pair_verified}
use buddy_web_ver.Tests.Data.{empty_db}

-- The value of hexadecimal digits, dashes left out.
abbrev hex_value : ℕ → Text → ℕ
hex_value n [] = n
hex_value n (c ∷ cs) =
    hex_value (if c == b'-' then n else if leb b'a' c then n * 16 + (c - 87) else n * 16 + (c - 48))
      cs

abbrev is_alive : Requirements → ℕ → Option ClaimValue → Bool
is_alive r at (some (number t)) = ltb at (t + r.leeway)
is_alive r at (some (text value)) = false
is_alive r at (some other) = false
is_alive r at none = false

-- A token carries its key, its header and its claims; decoding checks the key and the expiry.
abbrev plain : Libraries
plain = record {
  Token = Text × Header × Payload;
  encode = λ key h p. (key, h, p);
  decode_complete = λ key r at token.
      let (k, h, p) = token in if text_eq k key && is_alive r at p.exp then some (h, p) else none;
  uuid = λ value. some (hex_value 0 value);
}

decoded_only :
    (b : Bool) (h h' : Header) (p p' : Payload)
    → let decoded : Header × Payload = (h, p) in
      (if b then some decoded else none) ≡ some (h', p') → (h' ≡ h) × (p' ≡ p)
decoded_only true h h' p p' is = (cc, cc)
decoded_only false h h' p p' is = (cc, cc)

plain-laws : LibraryLaws plain
plain-laws = record {
  decode-encode = λ key r at h p is_alg current has_role.
      let (t, is_exp, alive) = current.alive in
      let lives : is_alive r at p.exp ≡ true = rw is_exp (ground arith) in
      rw (text_eq_refl key, lives) refl;
  decode-sound = λ key r at h h' p p' is.
      decoded_only (is_alive r at p.exp) h h' p p' (rw (text_eq_refl key) at is);
}

abbrev student : User
student = record {
  id = 1;
  email = codes "a@vgu.edu.vn";
  role = user;
  is_active = true;
  email_verified = true;
  email_verified_at = none;
  deleted_at = none;
  semester_id = some 5;
}

-- The pair of tokens of session 31 for the user, issued at a second.
abbrev pair_at : ℕ → ℕ → ℕ → TokenPair plain
pair_at t access_id refresh_id = record {
  access_token = plain.encode (codes "key") jwt_header (
      token_payload 1 31 access_id access (t * second) (t * second + access_token_ttl) (some user));
  refresh_token =
      plain.encode (codes "key") jwt_header
        (token_payload 1 31 refresh_id refresh (t * second) (t * second + refresh_token_ttl) none);
  access_expires_at = t * second + access_token_ttl;
  refresh_expires_at = t * second + refresh_token_ttl;
  session_id = 31;
  access_token_id = access_id;
  refresh_token_id = refresh_id;
}

creation_runs :
    create_token_pair plain (codes "key") 31 42 41 1 user (aware 1_000_000_000)
    ≡ ok (pair_at 1000 42 41)
unfolding create_token_pair utc_second
creation_runs = refl

pair_verified_example :
    (verify_access_token plain (codes "key") 1100 (pair_at 1000 42 41).access_token
      ≡ ok (record {
        user_id = 1;
        role = user;
        session_id = 31;
        token_id = 42;
        issued_at = 1_000_000_000;
        expires_at = 1_900_000_000;
      }))
    × (verify_refresh_token plain (codes "key") 1100 (pair_at 1000 42 41).refresh_token
        ≡ ok (record {
          user_id = 1;
          session_id = 31;
          token_id = 41;
          issued_at = 1_000_000_000;
          expires_at = 605_800_000_000;
        }))
    × ((later : ℕ)
        → verify_access_token plain (codes "key") later (pair_at 1000 42 41).refresh_token
          ≡ err token_validation_error)
    × ((later : ℕ)
        → verify_refresh_token plain (codes "key") later (pair_at 1000 42 41).access_token
          ≡ err token_validation_error)
unfolding uuid_text
pair_verified_example =
    pair_verified plain plain-laws (codes "key") 1100 31 42 41 1 1000 user (pair_at 1000 42 41) refl
      refl refl refl creation_runs (omega arith) (omega arith) (omega arith)

abbrev session_row : RefreshSession
session_row = record {
  id = 31;
  user_id = 1;
  refresh_token_id = 41;
  expires_at = 605_800_000_000;
  revoked_at = none;
  deleted_at = none;
}

abbrev claims_at : ℕ → RefreshTokenClaims
claims_at token_id = record {
  user_id = 1;
  session_id = 31;
  token_id = token_id;
  issued_at = 1_000_000_000;
  expires_at = 605_800_000_000;
}

abbrev login : Db
login = record empty_db { users = student ∷ []; refresh_sessions = session_row ∷ [] }

abbrev rotated_login : Db
rotated_login = record login {
  refresh_sessions =
      record session_row { refresh_token_id = 43; expires_at = 605_900_000_000 } ∷ [];
}

rotation_runs :
    rotate_refresh_session plain
      (codes "key")
      1100
      44
      43
      (pair_at 1000 42 41).refresh_token
      (claims_at 41)
      (aware 1_100_000_000)
      login
    ≡ ok (rotated student (pair_at 1100 44 43), rotated_login)
unfolding rotate_refresh_session rotate_family rotate_for prepare_refresh_rotation
    verify_refresh_token decode_token read_common_claims create_token_pair utc_second save_family
    token_payload uuid_text
rotation_runs = refl

-- The session goes on with the token that was given out.
abbrev later_login : Db
later_login = record login {
  refresh_sessions =
      record session_row { refresh_token_id = 45; expires_at = 606_000_000_000 } ∷ [];
}

next_rotation_runs :
    rotate_refresh_session plain
      (codes "key")
      1200
      46
      45
      (pair_at 1100 44 43).refresh_token
      (claims_at 43)
      (aware 1_200_000_000)
      rotated_login
    ≡ ok (rotated student (pair_at 1200 46 45), later_login)
unfolding rotate_refresh_session rotate_family rotate_for prepare_refresh_rotation
    verify_refresh_token decode_token read_common_claims create_token_pair utc_second save_family
    token_payload uuid_text
next_rotation_runs = refl

reuse_revokes_example :
    (db₁ : Db) × (s : RefreshSession) × (rotate_refresh_session plain
        (codes "key")
        1200
        46
        45
        (pair_at 1000 42 41).refresh_token
        (claims_at 41)
        (aware 1_200_000_000)
        rotated_login
      ≡ ok (revoked, db₁))
    × (family 31 db₁.refresh_sessions ≡ some s)
    × (s.revoked_at ≡ some 1_200_000_000)
unfolding utc_second
reuse_revokes_example =
    reuse_revokes plain (codes "key") 1100 44 43 (pair_at 1000 42 41).refresh_token (claims_at 41)
      (aware 1_100_000_000) login rotated_login student (pair_at 1100 44 43) rotation_runs
      (codes "key") 1200 46 45 (pair_at 1000 42 41).refresh_token (claims_at 41)
      (aware 1_200_000_000) 1_200_000_000 refl refl (ground arith)

one_use_example :
    rotate_refresh_session plain
      (codes "key")
      1300
      48
      47
      (pair_at 1000 42 41).refresh_token
      (claims_at 41)
      (aware 1_300_000_000)
      later_login
    ≢ ok (rotated student (pair_at 1300 48 47), rotated_login)
one_use_example =
    one_use plain (codes "key") 1100 44 43 (pair_at 1000 42 41).refresh_token (claims_at 41)
      (aware 1_100_000_000) login rotated_login student (pair_at 1100 44 43) rotation_runs
      (ground arith) later_login rotated_login (codes "key") 1300 48 47
      (pair_at 1000 42 41).refresh_token (claims_at 41) (aware 1_300_000_000) student
      (pair_at 1300 48 47)
      (next here (
        rotates (codes "key") 1200 46 45 (pair_at 1100 44 43).refresh_token (claims_at 43)
          (aware 1_200_000_000) (rotated student (pair_at 1200 46 45)) (ground arith)
          next_rotation_runs))
      refl refl
