-- ===== src/Base64/RoundTrip.antt =====
-- Decoding what was encoded.
use buddy_web_ver.Base.{
  ℕ, zero, suc, ◌+◌, ◌*◌, ◌/◌, ◌%◌, ◌<◌, ◌≡◌, refl, ◌∙◌, ap, ap₂, false, some, List, [], ◌∷◌, ◌==◌,
  arith, All, length,
}
use buddy_web_ver.Base64.{
  IsByte, symbol, symbol_value, urlsafe_b64encode, pad, b64decode, big_endian, big_endian_onto,
  number_of, number_from, byte_range, three_bytes,
}

value_symbol : (n : ℕ) → n < 64 → symbol_value (symbol n) ≡ some n
unfolding symbol symbol_value
value_symbol n h = ground arith

symbol_padding : (n : ℕ) → n < 64 → (symbol n == b'=') ≡ false
unfolding symbol
symbol_padding n h = ground arith

module _ (x : ℕ) (hx : x < 256) where
  one_group : b64decode (symbol (x / 4) ∷ symbol (x % 4 * 16) ∷ b'=' ∷ b'=' ∷ []) ≡ some (x ∷ [])
  unfolding b64decode
  one_group =
      rw (value_symbol (x / 4) (omega arith), value_symbol (x % 4 * 16) (omega arith))
        (ap (λ (t : ℕ). some (t ∷ [])) (omega arith))

  module _ (y : ℕ) (hy : y < 256) where
    two_group :
        b64decode (symbol (x / 4) ∷ symbol (x % 4 * 16 + y / 16) ∷ symbol (y % 16 * 4) ∷ b'=' ∷ [])
        ≡ some (x ∷ y ∷ [])
    unfolding b64decode
    two_group =
        rw
          (
            symbol_padding (y % 16 * 4) (omega arith),
            value_symbol (x / 4) (omega arith),
            value_symbol (x % 4 * 16 + y / 16) (omega arith),
            value_symbol (y % 16 * 4) (omega arith),
          )
          (ap₂ (λ (t u : ℕ). some (t ∷ u ∷ [])) (omega arith) (omega arith))

    module _ (z : ℕ) (hz : z < 256) where
      three_group :
          (rest : List ℕ)
          → three_bytes
              (symbol_value (symbol (x / 4)))
              (symbol_value (symbol (x % 4 * 16 + y / 16)))
              (symbol_value (symbol (y % 16 * 4 + z / 64)))
              (symbol_value (symbol (z % 64)))
              (some rest)
            ≡ some (x ∷ y ∷ z ∷ rest)
      three_group rest =
          rw
            (
              value_symbol (x / 4) (omega arith),
              value_symbol (x % 4 * 16 + y / 16) (omega arith),
              value_symbol (y % 16 * 4 + z / 64) (omega arith),
              value_symbol (z % 64) (omega arith),
            )
            (ground arith)

b64decode_nil : b64decode [] ≡ some []
unfolding b64decode
b64decode_nil = refl

-- A group that something follows is a whole one.
inner_group :
    (a b c d w : ℕ) (rest : List ℕ)
    → b64decode (a ∷ b ∷ c ∷ d ∷ pad (urlsafe_b64encode (w ∷ rest)))
      ≡ three_bytes
          (symbol_value a)
          (symbol_value b)
          (symbol_value c)
          (symbol_value d)
          (b64decode (pad (urlsafe_b64encode (w ∷ rest))))
unfolding b64decode urlsafe_b64encode pad
inner_group a b c d w [] = refl
inner_group a b c d w (v ∷ []) = refl
inner_group a b c d w (v ∷ u ∷ rest) = refl

last_whole :
    (a b c d : ℕ)
    → (d == b'=') ≡ false
    → b64decode (a ∷ b ∷ c ∷ d ∷ [])
      ≡ three_bytes (symbol_value a) (symbol_value b) (symbol_value c) (symbol_value d) (some [])
unfolding b64decode
last_whole a b c d h = rw h

-- Encoding, padding and decoding give the bytes back.
pub decode-encode :
    (bytes : List ℕ) → All IsByte bytes → b64decode (pad (urlsafe_b64encode bytes)) ≡ some bytes
unfolding urlsafe_b64encode pad
decode-encode [] h = b64decode_nil
decode-encode (x ∷ []) (hx, _) = one_group x hx
decode-encode (x ∷ y ∷ []) (hx, (hy, _)) = two_group x hx y hy
decode-encode (x ∷ y ∷ z ∷ []) (hx, (hy, (hz, _))) =
    last_whole (symbol (x / 4)) (symbol (x % 4 * 16 + y / 16)) (symbol (y % 16 * 4 + z / 64))
      (symbol (z % 64)) (symbol_padding (z % 64) (omega arith))
    ∙ three_group x hx y hy z hz []
decode-encode (x ∷ y ∷ z ∷ w ∷ rest) (hx, (hy, (hz, h))) =
    inner_group (symbol (x / 4)) (symbol (x % 4 * 16 + y / 16)) (symbol (y % 16 * 4 + z / 64))
      (symbol (z % 64)) w rest
    ∙ rw (decode-encode (w ∷ rest) h) (three_group x hx y hy z hz (w ∷ rest))

big_endian_bytes :
    (n value : ℕ) (rest : List ℕ) → All IsByte rest → All IsByte (big_endian_onto n value rest)
big_endian_bytes zero value rest h = h
big_endian_bytes (suc n) value rest h =
    big_endian_bytes n (value / 256) (value % 256 ∷ rest) (omega arith, h)

pub big_endian-IsByte : (n value : ℕ) → All IsByte (big_endian n value)
unfolding big_endian
big_endian-IsByte n value = big_endian_bytes n value [] tt

number_onto :
    (n value : ℕ) (rest : List ℕ)
    → value < byte_range n
    → number_from 0 (big_endian_onto n value rest) ≡ number_from value rest
number_onto zero value rest h = let z : value ≡ 0 = omega arith in rw z refl
number_onto (suc n) value rest h =
    number_onto n (value / 256) (value % 256 ∷ rest) (omega arith)
    ∙ ap (λ (v : ℕ). number_from v rest) (omega arith)

-- The bytes of a number below `256 ** n` give it back.
pub number-big_endian :
    (n value : ℕ) → value < byte_range n → number_of (big_endian n value) ≡ value
unfolding number_of big_endian
number-big_endian n value h = number_onto n value [] h

length_onto :
    (n value : ℕ) (rest : List ℕ) → length (big_endian_onto n value rest) ≡ n + length rest
length_onto zero value rest = omega arith
length_onto (suc n) value rest = omega (arith, length_onto n (value / 256) (value % 256 ∷ rest))

pub length-big_endian : (n value : ℕ) → length (big_endian n value) ≡ n
unfolding big_endian
length-big_endian n value = omega (arith, length_onto n value [])
