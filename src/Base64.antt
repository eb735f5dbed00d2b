-- ===== src/Base64.antt =====
-- URL-safe base64 without padding, as the chat cursors and the verification tokens use it
-- (`base64.urlsafe_b64encode` with its padding stripped, and `base64.b64decode` with `altchars` and
-- `validate`), and big-endian numbers (`struct.pack`, `UUID.bytes`). Bytes are numbers.
pub mod RoundTrip
use buddy_web_ver.Base.{
  ℕ, zero, suc, ◌+◌, ◌-◌, ◌*◌, ◌/◌, ◌%◌, ◌<◌, Bool, true, false, ◌&&◌, ◌||◌, Option, none, some,
  List, [], ◌∷◌, ◌++◌, ltb, leb, ◌==◌, if◌then◌else◌, length,
}
use buddy_web_ver.Text.{Text}

abbrev pub IsByte : ℕ → Type 0
IsByte b = b < 256

-- The character of six bits, in the alphabet A-Z a-z 0-9 - _.
unfoldable pub symbol : ℕ → ℕ
symbol n =
    if ltb n 26
    then b'A' + n
    else if ltb n 52
    then b'a' + (n - 26)
    else if ltb n 62
    then b'0' + (n - 52)
    else if n == 62
    then b'-'
    else b'_'

-- The six bits of a character. The decoder maps `-_` to `+/` first, so that it takes all four.
unfoldable pub symbol_value : ℕ → Option ℕ
symbol_value c =
    if leb b'A' c && leb c b'Z'
    then some (c - b'A')
    else if leb b'a' c && leb c b'z'
    then some (c - b'a' + 26)
    else if leb b'0' c && leb c b'9'
    then some (c - b'0' + 52)
    else if c == b'-' || c == b'+'
    then some 62
    else if c == b'_' || c == b'/'
    then some 63
    else none

-- `base64.urlsafe_b64encode(value).rstrip(b"=")`
unfoldable pub urlsafe_b64encode : List ℕ → Text
urlsafe_b64encode [] = []
urlsafe_b64encode (x ∷ []) = symbol (x / 4) ∷ symbol (x % 4 * 16) ∷ []
urlsafe_b64encode (x ∷ y ∷ []) =
    symbol (x / 4) ∷ symbol (x % 4 * 16 + y / 16) ∷ symbol (y % 16 * 4) ∷ []
urlsafe_b64encode (x ∷ y ∷ z ∷ rest) =
    symbol (x / 4)
    ∷ symbol (x % 4 * 16 + y / 16)
    ∷ symbol (y % 16 * 4 + z / 64)
    ∷ symbol (z % 64)
    ∷ urlsafe_b64encode rest

-- `encoded + "=" * (-len(encoded) % 4)`
unfoldable pub pad : Text → Text
pad [] = []
pad (a ∷ []) = a ∷ b'=' ∷ b'=' ∷ b'=' ∷ []
pad (a ∷ b ∷ []) = a ∷ b ∷ b'=' ∷ b'=' ∷ []
pad (a ∷ b ∷ c ∷ []) = a ∷ b ∷ c ∷ b'=' ∷ []
pad (a ∷ b ∷ c ∷ d ∷ rest) = a ∷ b ∷ c ∷ d ∷ pad rest

-- The bytes of a last group with two and with one character of padding, and of a whole group.
abbrev pub one_byte : Option ℕ → Option ℕ → Option (List ℕ)
one_byte (some a) (some b) = some ((a * 4 + b / 16) ∷ [])
one_byte (some a) none = none
one_byte none b = none

abbrev pub two_bytes : Option ℕ → Option ℕ → Option ℕ → Option (List ℕ)
two_bytes (some a) (some b) (some c) = some ((a * 4 + b / 16) ∷ (b % 16 * 16 + c / 4) ∷ [])
two_bytes (some a) (some b) none = none
two_bytes (some a) none c = none
two_bytes none b c = none

abbrev pub three_bytes :
    Option ℕ → Option ℕ → Option ℕ → Option ℕ → Option (List ℕ) → Option (List ℕ)
three_bytes (some a) (some b) (some c) (some d) (some rest) =
    some ((a * 4 + b / 16) ∷ (b % 16 * 16 + c / 4) ∷ (c % 4 * 64 + d) ∷ rest)
three_bytes (some a) (some b) (some c) (some d) none = none
three_bytes (some a) (some b) (some c) none rest = none
three_bytes (some a) (some b) none d rest = none
three_bytes (some a) none c d rest = none
three_bytes none b c d rest = none

-- The last group of a text, which may be padded.
abbrev pub last_group : ℕ → ℕ → ℕ → ℕ → Option (List ℕ)
last_group a b c d =
    if d == b'='
    then if c == b'='
      then one_byte (symbol_value a) (symbol_value b)
      else two_bytes (symbol_value a) (symbol_value b) (symbol_value c)
    else three_bytes (symbol_value a) (symbol_value b) (symbol_value c) (symbol_value d) (some [])

-- `base64.b64decode(value, altchars=b"-_", validate=True)`: groups of four, with padding at the end
-- alone; the unused bits of the last character before it are not looked at.
unfoldable pub b64decode : Text → Option (List ℕ)
b64decode [] = some []
b64decode (a ∷ []) = none
b64decode (a ∷ b ∷ []) = none
b64decode (a ∷ b ∷ c ∷ []) = none
b64decode (a ∷ b ∷ c ∷ d ∷ []) = last_group a b c d
b64decode (a ∷ b ∷ c ∷ d ∷ e ∷ rest) =
    three_bytes (symbol_value a) (symbol_value b) (symbol_value c) (symbol_value d)
      (b64decode (e ∷ rest))

-- The `n` bytes of a number, the highest first, and the number of such bytes.
abbrev pub big_endian_onto : ℕ → ℕ → List ℕ → List ℕ
big_endian_onto zero value rest = rest
big_endian_onto (suc n) value rest = big_endian_onto n (value / 256) (value % 256 ∷ rest)

unfoldable pub big_endian : ℕ → ℕ → List ℕ
big_endian n value = big_endian_onto n value []

abbrev pub number_from : ℕ → List ℕ → ℕ
number_from high [] = high
number_from high (b ∷ bs) = number_from (high * 256 + b) bs

unfoldable pub number_of : List ℕ → ℕ
number_of bytes = number_from 0 bytes

-- `256 ** n`
abbrev pub byte_range : ℕ → ℕ
byte_range zero = 1
byte_range (suc n) = 256 * byte_range n
