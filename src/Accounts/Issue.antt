-- ===== src/Accounts/Issue.antt =====
-- Issuing a verification token.
use buddy_web_ver.Base.{
  ℕ, zero, suc, ◌+◌, ◌*◌, ◌/◌, ◌%◌, ◌<◌, ◌≡◌, refl, true, List, [], ◌∷◌, arith, length, all, All,
  text_eq_refl,
}
use buddy_web_ver.Errors.{ok}
use buddy_web_ver.Base64.{IsByte, symbol, urlsafe_b64encode}
use buddy_web_ver.Base64.RoundTrip.{decode-encode}
use buddy_web_ver.Accounts.Verification.{email_verification_token_bytes, is_base64url, decode_token}

symbol-base64url : (n : ℕ) → n < 64 → is_base64url (symbol n) ≡ true
unfolding symbol
symbol-base64url n h = ground arith

encoded_characters :
    (bytes : List ℕ) → All IsByte bytes → all is_base64url (urlsafe_b64encode bytes) ≡ true
unfolding urlsafe_b64encode
encoded_characters [] h = refl
encoded_characters (x ∷ []) (hx, _) =
    rw (symbol-base64url (x / 4) (omega arith), symbol-base64url (x % 4 * 16) (omega arith)) refl
encoded_characters (x ∷ y ∷ []) (hx, (hy, _)) =
    rw
      (
        symbol-base64url (x / 4) (omega arith),
        symbol-base64url (x % 4 * 16 + y / 16) (omega arith),
        symbol-base64url (y % 16 * 4) (omega arith),
      )
      refl
encoded_characters (x ∷ y ∷ z ∷ rest) (hx, (hy, (hz, h))) =
    rw
      (
        symbol-base64url (x / 4) (omega arith),
        symbol-base64url (x % 4 * 16 + y / 16) (omega arith),
        symbol-base64url (y % 16 * 4 + z / 64) (omega arith),
        symbol-base64url (z % 64) (omega arith),
      )
      (encoded_characters rest h)

encoded_length :
    (k : ℕ) (bytes : List ℕ)
    → length bytes ≡ 3 * k + 2
    → length (urlsafe_b64encode bytes) ≡ 4 * k + 3
unfolding urlsafe_b64encode
encoded_length k [] h = absurd (omega arith)
encoded_length k (x ∷ []) h = absurd (omega arith)
encoded_length zero (x ∷ y ∷ []) h = omega arith
encoded_length (suc k) (x ∷ y ∷ []) h = absurd (omega arith)
encoded_length zero (x ∷ y ∷ z ∷ rest) h = absurd (omega arith)
encoded_length (suc k) (x ∷ y ∷ z ∷ rest) h = omega (arith, encoded_length k rest (omega arith))

-- The text of 32 random bytes is a token, and gives the bytes back.
pub decode_token-encode :
    (bytes : List ℕ)
    → All IsByte bytes
    → length bytes ≡ email_verification_token_bytes
    → decode_token (urlsafe_b64encode bytes) ≡ ok bytes
unfolding decode_token
decode_token-encode bytes h n =
    rw
      (
        encoded_length 10 bytes n,
        encoded_characters bytes h,
        decode-encode bytes h,
        n,
        text_eq_refl (urlsafe_b64encode bytes),
      )
      refl
