-- ===== src/Chat/Cursor.antt =====
-- The opaque cursor of a page (`encode_buddy_message_cursor`, `decode_buddy_message_cursor`): one
-- byte of version, eight of the timestamp in microseconds, sixteen of the message's key.
use buddy_web_ver.Base.{
  ℕ, ◌^◌, ◌≤◌, ◌<◌, ◌≡◌, ◌∙◌, ap, not, ◌||◌, List, [], ◌∷◌, ◌++◌, ltb, leb, ◌==◌, arith, length,
  take, drop, All, length-append, take-append, drop-append, All-append,
}
use buddy_web_ver.Errors.{
  Exception, chat_read_error, BuddyChatReadReason, Result, ok, err, ◌>>=◌, ◌>>◌, raise_if, or_raise,
}
use buddy_web_ver.Text.{Text}
use buddy_web_ver.Base64.{
  IsByte, urlsafe_b64encode, pad, b64decode, big_endian, number_of, byte_range,
}
use buddy_web_ver.Base64.RoundTrip.{
  decode-encode, big_endian-IsByte, number-big_endian, length-big_endian,
}

abbrev pub invalid_cursor : Exception
invalid_cursor = chat_read_error BuddyChatReadReason.invalid_cursor

abbrev pub cursor_version : ℕ
cursor_version = 1

abbrev pub cursor_length : ℕ
cursor_length = 25

-- The last microsecond of the year 9999, past which `datetime` overflows.
abbrev pub max_datetime : ℕ
max_datetime = 253_402_300_799_999_999

unfoldable pub encode_buddy_message_cursor : ℕ → ℕ → Text
encode_buddy_message_cursor created_at message_id =
    urlsafe_b64encode (cursor_version ∷ big_endian 8 created_at ++ big_endian 16 message_id)

-- The version, the timestamp and the key. As a signed number the timestamp is negative from 2 ** 63
-- on.
abbrev pub cursor_fields : List ℕ → Result (ℕ × ℕ)
cursor_fields [] = err invalid_cursor
cursor_fields (version ∷ rest) = do
  raise_if (not (version == cursor_version) || leb (2 ^ 63) (number_of (take 8 rest)))
      invalid_cursor
  raise_if (ltb max_datetime (number_of (take 8 rest))) invalid_cursor
  ok (number_of (take 8 rest), number_of (drop 8 rest))

unfoldable pub decode_buddy_message_cursor : Text → Result (ℕ × ℕ)
decode_buddy_message_cursor cursor = do
  raw ← or_raise (b64decode (pad cursor)) invalid_cursor
  raise_if (not (length raw == cursor_length)) invalid_cursor
  cursor_fields raw

module _ (created_at message_id : ℕ) (in_time : created_at ≤ max_datetime)
    (in_range : message_id < byte_range 16) where
  raw_bytes : All IsByte (cursor_version ∷ big_endian 8 created_at ++ big_endian 16 message_id)
  raw_bytes = (
    omega arith,
    All-append IsByte (big_endian 8 created_at) (big_endian 16 message_id)
        (big_endian-IsByte 8 created_at) (big_endian-IsByte 16 message_id),
  )

  raw_length :
      length (cursor_version ∷ big_endian 8 created_at ++ big_endian 16 message_id) ≡ cursor_length
  raw_length = omega (
    arith,
    length-append (big_endian 8 created_at) (big_endian 16 message_id),
    length-big_endian 8 created_at,
    length-big_endian 16 message_id,
  )

  first_field :
      number_of (take 8 (big_endian 8 created_at ++ big_endian 16 message_id)) ≡ created_at
  first_field =
      ap number_of (
        take-append 8 (big_endian 8 created_at) (big_endian 16 message_id)
          (length-big_endian 8 created_at))
      ∙ number-big_endian 8 created_at (omega arith)

  last_field : number_of (drop 8 (big_endian 8 created_at ++ big_endian 16 message_id)) ≡ message_id
  last_field =
      ap number_of (
        drop-append 8 (big_endian 8 created_at) (big_endian 16 message_id)
          (length-big_endian 8 created_at))
      ∙ number-big_endian 16 message_id (omega arith)

  -- The cursor of a message gives back its timestamp and its key, for every timestamp up to the end
  -- of the year 9999 and every key of 128 bits.
  pub decode-encode_cursor :
      decode_buddy_message_cursor (encode_buddy_message_cursor created_at message_id)
      ≡ ok (created_at, message_id)
  unfolding decode_buddy_message_cursor encode_buddy_message_cursor
  decode-encode_cursor =
      rw
        (
          decode-encode (cursor_version ∷ big_endian 8 created_at ++ big_endian 16 message_id)
              raw_bytes,
          raw_length,
          first_field,
          last_field,
        )
        (ground arith)
