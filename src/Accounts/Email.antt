-- ===== src/Accounts/Email.antt =====
-- The identity of a mailbox: `canonicalize_email` of apps/api/app/services/auth.py.
use buddy_web_ver.Base.{
  ℕ, ◌+◌, Bool, false, not, ◌&&◌, ◌||◌, Option, none, some, List, [], ◌∷◌, map, ltb, leb, ◌==◌,
  if◌then◌else◌, length, all, elem,
}
use buddy_web_ver.Text.{Text, codes, strip, append_text, is_empty, contains_text}

abbrev pub max_email_length : ℕ
max_email_length = 254

abbrev pub max_email_local_part_length : ℕ
max_email_local_part_length = 64

abbrev pub is_digit : ℕ → Bool
is_digit c = leb 48 c && leb c 57

abbrev pub is_upper : ℕ → Bool
is_upper c = leb 65 c && leb c 90

abbrev pub is_alnum : ℕ → Bool
is_alnum c = is_digit c || is_upper c || (leb 97 c && leb c 122)

-- `_EMAIL_LOCAL_PART_PATTERN`
abbrev pub is_local_character : ℕ → Bool
is_local_character c = is_alnum c || elem c (codes "!#$%&'*+/=?^_`{|}~.-")

abbrev pub first_is : (ℕ → Bool) → Text → Bool
first_is p [] = false
first_is p (x ∷ xs) = p x

abbrev pub last_is : (ℕ → Bool) → Text → Bool
last_is p [] = false
last_is p (x ∷ []) = p x
last_is p (x ∷ y ∷ ys) = last_is p (y ∷ ys)

-- `_EMAIL_DOMAIN_LABEL_PATTERN`: 1 to 63 letters, digits and hyphens, with no hyphen at an end.
unfoldable pub is_domain_label : Text → Bool
is_domain_label label =
    first_is is_alnum label
    && last_is is_alnum label
    && all (λ c. is_alnum c || c == 45) label
    && leb (length label) 63

-- The text before the first `@` and after it; there is exactly one.
abbrev pub before_at : Text → Text
before_at [] = []
before_at (x ∷ xs) = if x == 64 then [] else x ∷ before_at xs

abbrev pub after_at : Text → Text
after_at [] = []
after_at (x ∷ xs) = if x == 64 then xs else after_at xs

abbrev pub count_character : ℕ → Text → ℕ
count_character c [] = 0
count_character c (x ∷ xs) = (if x == c then 1 else 0) + count_character c xs

abbrev pub extend_label : ℕ → List Text → List Text
extend_label x [] = (x ∷ []) ∷ []
extend_label x (w ∷ ws) = (x ∷ w) ∷ ws

-- `domain.split(".")`
unfoldable pub domain_labels : Text → List Text
domain_labels [] = [] ∷ []
domain_labels (x ∷ xs) =
    if x == 46 then [] ∷ domain_labels xs else extend_label x (domain_labels xs)

-- `str.casefold` of an ASCII character.
abbrev pub ascii_fold : ℕ → ℕ
ascii_fold c = if is_upper c then c + 32 else c

unfoldable pub is_valid_local_part : Text → Bool
is_valid_local_part local_part =
    not (is_empty local_part)
    && leb (length local_part) max_email_local_part_length
    && not (first_is (λ c. c == 46) local_part)
    && not (last_is (λ c. c == 46) local_part)
    && not (contains_text (codes "..") local_part)
    && all is_local_character local_part

unfoldable pub is_valid_domain : Text → Bool
is_valid_domain domain =
    leb 2 (length (domain_labels domain)) && all is_domain_label (domain_labels domain)

-- `none` stands for `EmailValidationError`.
unfoldable pub canonicalize_email : Text → Option Text
canonicalize_email email =
    let candidate = strip email in
    if is_empty candidate
      || not (all (λ c. ltb c 128) candidate)
      || ltb max_email_length (length candidate)
      || not (count_character 64 candidate == 1)
    then none
    else if not (is_valid_local_part (before_at candidate))
        || not (is_valid_domain (after_at candidate))
    then none
    else some (
        append_text (map ascii_fold (before_at candidate))
          (64 ∷ map ascii_fold (after_at candidate)))
