-- ===== src/Sessions/Jwt.antt =====
-- What the token service uses of other code: PyJWT, and `UUID(text)` of the standard library.
use buddy_web_ver.Base.{ℕ, ◌+◌, ◌≤◌, ◌<◌, ◌≡◌, Bool, true, ◌&&◌, Option, some, is_some}
use buddy_web_ver.Text.{Text, codes, uuid_text}

-- The value of a claim, as far as the service tells values apart.
pub data ClaimValue : Type 0 where
  text : Text → ClaimValue
  number : ℕ → ClaimValue
  other : ClaimValue

-- The claims that the service writes and reads.
pub record Payload : Type 0 where
  pub iss : Option ClaimValue
  pub aud : Option ClaimValue
  pub sub : Option ClaimValue
  pub sid : Option ClaimValue
  pub jti : Option ClaimValue
  pub token_type : Option ClaimValue
  pub iat : Option ClaimValue
  pub nbf : Option ClaimValue
  pub exp : Option ClaimValue
  pub role : Option ClaimValue

pub record Header : Type 0 where
  pub alg : Option Text
  pub typ : Option Text

-- The arguments of `jwt.decode_complete` that say what is required of a token.
pub record Requirements : Type 0 where
  pub audience : Text
  pub issuer : Text
  pub leeway : ℕ
  pub role_required : Bool

-- The encoded tokens, `jwt.encode` with a key, `jwt.decode_complete` with a key at a time in seconds
-- (`none` for a `PyJWTError`), and `UUID(text)` (`none` for a `ValueError`).
pub record Libraries : Type 1 where
  pub Token : Type 0
  pub encode : Text → Header → Payload → Token
  pub decode_complete : Text → Requirements → ℕ → Token → Option (Header × Payload)
  pub uuid : Text → Option ℕ

-- What PyJWT demands of a payload: the issuer and the audience, all claims that are listed, and a
-- time from `iat` and `nbf` to before `exp`, up to the leeway.
pub record IsCurrent (r : Requirements) (at : ℕ) (p : Payload) : Type 0 where
  pub issued_by : p.iss ≡ some (text r.issuer)
  pub issued_for : p.aud ≡ some (text r.audience)
  pub issued : (t : ℕ) × (p.iat ≡ some (number t)) × (t ≤ at + r.leeway)
  pub begun : (t : ℕ) × (p.nbf ≡ some (number t)) × (t ≤ at + r.leeway)
  pub alive : (t : ℕ) × (p.exp ≡ some (number t)) × (at < t + r.leeway)
  pub complete : (is_some p.sub && is_some p.sid && is_some p.jti && is_some p.token_type) ≡ true

-- The documented behaviour that the tokens rest on: a token that was encoded with a key is decoded
-- with it while it is current, and to nothing but what was encoded.
pub record LibraryLaws (l : Libraries) : Type 0 where
  pub decode-encode :
      (key : Text) (r : Requirements) (at : ℕ) (h : Header) (p : Payload)
      → h.alg ≡ some (codes "HS256")
      → IsCurrent r at p
      → (r.role_required ≡ true → is_some p.role ≡ true)
      → l.decode_complete key r at (l.encode key h p) ≡ some (h, p)
  pub decode-sound :
      (key : Text) (r : Requirements) (at : ℕ) (h h' : Header) (p p' : Payload)
      → l.decode_complete key r at (l.encode key h p) ≡ some (h', p')
      → (h' ≡ h) × (p' ≡ p)

-- The text of a UUID, whose number is `n`, is read back.
abbrev pub ReadsBack : Libraries → ℕ → Type 0
ReadsBack l n = l.uuid (uuid_text n) ≡ some n
