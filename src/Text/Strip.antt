-- ===== src/Text/Strip.antt =====
-- Stripping a text: it is idempotent, stays within the length, and leaves nothing to a weaker trim.
use buddy_web_ver.Base.{
  ℕ, ◌≤◌, ◌≡◌, refl, ◌⊎◌, inl, inr, Bool, true, false, not, any, [], ◌∷◌, ◌==◌, arith, length,
  Bool-cases, ==→eq,
}
use buddy_web_ver.Text.{Text, is_space, lstrip, rstrip, strip_with, strip, btrim}

module _ (p : ℕ → Bool) where
  length-lstrip-le : (xs : Text) → length (lstrip p xs) ≤ length xs
  unfolding lstrip
  length-lstrip-le [] = omega arith
  length-lstrip-le (x ∷ xs) = ground (arith, length-lstrip-le xs)

  length-rstrip-le : (xs : Text) → length (rstrip p xs) ≤ length xs
  unfolding rstrip
  length-rstrip-le [] = omega arith
  length-rstrip-le (x ∷ xs) = ground (arith, length-rstrip-le xs)

  pub length-strip_with-le : (xs : Text) → length (strip_with p xs) ≤ length xs
  unfolding strip_with
  length-strip_with-le xs = omega (arith, length-rstrip-le (lstrip p xs), length-lstrip-le xs)

  -- What stripping from the left leaves is empty, or begins with a character that is kept.
  lstrip_cases :
      (xs : Text)
      → (lstrip p xs ≡ []) ⊎ ((x : ℕ) × (ys : Text) × (lstrip p xs ≡ x ∷ ys) × (p x ≡ false))
  unfolding lstrip
  lstrip_cases [] = inl refl
  lstrip_cases (x ∷ xs) = elim (Bool-cases (p x)) [
    | inl h ↦ rw h (lstrip_cases xs)
    | inr h ↦ inr (x, xs, rw h, h)
  ]

  rstrip_head : (x : ℕ) (xs : Text) → p x ≡ false → rstrip p (x ∷ xs) ≡ x ∷ rstrip p xs
  unfolding rstrip
  rstrip_head x xs h = ground arith

  -- A text with a character that stays is not stripped away.
  pub strip_with-nonempty :
      (xs : Text) → any (λ c. not (p c)) xs ≡ true → 1 ≤ length (strip_with p xs)
  unfolding strip_with lstrip
  strip_with-nonempty [] h = cc
  strip_with-nonempty (x ∷ xs) h = elim (Bool-cases (p x)) [
    | inl e ↦ rw e (strip_with-nonempty xs (rw e at h))
    | inr e ↦ rw (e, rstrip_head x xs e) (omega arith)
  ]

module _ (p q : ℕ → Bool) (sub : (x : ℕ) → p x ≡ false → q x ≡ false) where
  -- A trim that removes fewer characters finds nothing to remove after a strip.
  rstrip-rstrip : (xs : Text) → rstrip q (rstrip p xs) ≡ rstrip p xs
  unfolding rstrip
  rstrip-rstrip [] = refl
  rstrip-rstrip (x ∷ xs) = ground (arith, rstrip-rstrip xs, sub x)

  pub strip_with-strip_with : (xs : Text) → strip_with q (strip_with p xs) ≡ strip_with p xs
  unfolding strip_with lstrip
  strip_with-strip_with xs = elim (lstrip_cases p xs) [
    | inl e ↦ rw e (unfold rstrip lstrip in refl)
    | inr (x, ys, e, h) ↦
        rw (e, rstrip_head p x ys h, sub x h)
          (let again = rstrip-rstrip (x ∷ ys) in rw (rstrip_head p x ys h) at again)
  ]

pub strip-strip : (xs : Text) → strip (strip xs) ≡ strip xs
unfolding strip
strip-strip xs = strip_with-strip_with is_space is_space (λ x h. h) xs

blank_of_space : (x : ℕ) → is_space x ≡ false → (x == 32) ≡ false
unfolding is_space
blank_of_space x h = elim (Bool-cases (x == 32)) [
  | inl e ↦ let blank : is_space 32 ≡ false = rw (==→eq x 32 e) at h in cc
  | inr e ↦ e
]

-- A stripped text meets the database's check that it is trimmed.
pub btrim-strip : (xs : Text) → btrim (strip xs) ≡ strip xs
unfolding strip btrim
btrim-strip xs = strip_with-strip_with is_space (λ c. c == 32) blank_of_space xs

pub length-strip-le : (xs : Text) → length (strip xs) ≤ length xs
unfolding strip
length-strip-le xs = length-strip_with-le is_space xs
