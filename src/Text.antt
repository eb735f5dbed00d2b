-- ===== src/Text.antt =====
-- Texts as lists of Unicode code points, with the `str` methods that the services call: `strip`,
-- `split`, `isspace`, the maximal runs that the pattern `\S+` finds, and PostgreSQL's `btrim`.
pub mod Strip
pub mod Words
pub mod Collapse
use Prim.Native.Char.{code}
use Prim.Native.String.{String}
use buddy_web_ver.Base.{
  ℕ, zero, suc, ◌/◌, ◌%◌, ◌^◌, ◌+◌, Bool, true, false, not, ◌&&◌, ◌||◌, List, [], ◌∷◌, ltb, leb,
  ◌==◌, if◌then◌else◌, elem,
}

abbrev pub Text : Type 0
Text = List ℕ

-- `str.isspace` of one character, which `strip`, `split` and `\s` share.
unfoldable pub is_space : ℕ → Bool
is_space c =
    (leb 9 c && leb c 13)
    || (leb 28 c && leb c 32)
    || (leb 0x2000 c && leb c 0x200a)
    || elem c (0x85 ∷ 0xa0 ∷ 0x1680 ∷ 0x2028 ∷ 0x2029 ∷ 0x202f ∷ 0x205f ∷ 0x3000 ∷ [])

-- Keeps a character at the right end unless it is one of those to remove.
abbrev pub keep_right : Bool → ℕ → Text → Text
keep_right removed x (y ∷ ys) = x ∷ y ∷ ys
keep_right true x [] = []
keep_right false x [] = x ∷ []

module _ (removed : ℕ → Bool) where
  unfoldable pub lstrip : Text → Text
  lstrip [] = []
  lstrip (x ∷ xs) = if removed x then lstrip xs else x ∷ xs

  unfoldable pub rstrip : Text → Text
  rstrip [] = []
  rstrip (x ∷ xs) = keep_right (removed x) x (rstrip xs)

  unfoldable pub strip_with : Text → Text
  unfolding lstrip rstrip
  strip_with xs = rstrip (lstrip xs)

unfoldable pub strip : Text → Text
unfolding strip_with is_space
strip = strip_with is_space

-- PostgreSQL's `btrim(text)` removes blanks alone.
unfoldable pub btrim : Text → Text
unfolding strip_with
btrim = strip_with (λ c. c == 32)

-- The number of maximal runs of characters that are no white space; the flag says that the
-- character before was in a run.
unfoldable pub count_runs : Bool → Text → ℕ
count_runs inside [] = 0
count_runs inside (x ∷ xs) =
    (if not inside && not (is_space x) then 1 else 0) + count_runs (not (is_space x)) xs

abbrev pub word_count : Text → ℕ
word_count = count_runs false

-- Puts a character before the first word if that goes on, and otherwise begins a word.
abbrev pub extend_word : Bool → ℕ → List Text → List Text
extend_word joined x [] = (x ∷ []) ∷ []
extend_word true x (w ∷ ws) = (x ∷ w) ∷ ws
extend_word false x (w ∷ ws) = (x ∷ []) ∷ w ∷ ws

-- Whether a text begins with a character of a word.
abbrev pub starts_word : Text → Bool
starts_word [] = false
starts_word (x ∷ xs) = not (is_space x)

-- `str.split()`
unfoldable pub split : Text → List Text
split [] = []
split (x ∷ xs) = if is_space x then split xs else extend_word (starts_word xs) x (split xs)

abbrev pub append_text : Text → Text → Text
append_text [] ys = ys
append_text (x ∷ xs) ys = x ∷ append_text xs ys

-- `" ".join(words)`
unfoldable pub join : List Text → Text
join [] = []
join (w ∷ []) = w
join (w ∷ v ∷ ws) = append_text w (32 ∷ join (v ∷ ws))

-- `" ".join(value.split())`
unfoldable pub collapse_whitespace : Text → Text
unfolding split join
collapse_whitespace value = join (split value)

abbrev pub is_empty : Text → Bool
is_empty [] = true
is_empty (x ∷ xs) = false

abbrev pub starts_with : Text → Text → Bool
starts_with [] value = true
starts_with (x ∷ xs) [] = false
starts_with (x ∷ xs) (y ∷ ys) = x == y && starts_with xs ys

-- `part in value`
abbrev pub contains_text : Text → Text → Bool
contains_text part [] = is_empty part
contains_text part (x ∷ xs) = starts_with part (x ∷ xs) || contains_text part xs

-- The code points of a literal.
abbrev pub codes : String → Text
codes String.[] = []
codes (String.◌∷◌ c s) = code c ∷ codes s

abbrev pub hex_digit : ℕ → ℕ
hex_digit d = if ltb d 10 then 48 + d else 87 + d

-- The last `k` hexadecimal digits of a number, the highest first.
unfoldable pub hex : ℕ → ℕ → Text
hex zero n = []
hex (suc k) n = append_text (hex k (n / 16)) (hex_digit (n % 16) ∷ [])

-- `str` of a UUID, whose number is `n`.
unfoldable pub uuid_text : ℕ → Text
unfolding hex
uuid_text n = append_text (hex 8 (n / 16 ^ 24)) (
    45
    ∷ append_text (hex 4 (n / 16 ^ 20)) (
        45
        ∷ append_text (hex 4 (n / 16 ^ 16))
            (45 ∷ append_text (hex 4 (n / 16 ^ 12)) (45 ∷ hex 12 n))))
