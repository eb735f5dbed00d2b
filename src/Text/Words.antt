-- ===== src/Text/Words.antt =====
-- Counting words: the runs that `\S+` finds are the words of `split`, and white space at the ends
-- does not count.
use buddy_web_ver.Base.{
  ℕ, suc, ◌+◌, ◌*◌, ◌<◌, ◌≤◌, ◌∙◌, ap, ◌≡◌, refl, inl, inr, Bool, true, false, not, ◌&&◌, [], ◌∷◌,
  if◌then◌else◌, arith, length, Bool-cases,
}
use buddy_web_ver.Text.{
  Text, is_space, keep_right, lstrip, rstrip, strip_with, strip, count_runs, word_count, split,
  starts_word,
}

-- Inside a word, the first run of the rest belongs to that word.
count_runs_inside :
    (xs : Text) → count_runs true xs + (if starts_word xs then 1 else 0) ≡ count_runs false xs
unfolding count_runs
count_runs_inside [] = omega arith
count_runs_inside (x ∷ xs) = ground arith

split_of_start : (xs : Text) → starts_word xs ≡ true → 0 < length (split xs)
unfolding split
split_of_start [] h = cc
split_of_start (x ∷ xs) h = elim (Bool-cases (starts_word xs)) [
  | inl e ↦ ground (arith, split_of_start xs e)
  | inr e ↦ ground arith
]

-- The words that a text is counted to have are the words that `split` returns.
pub word_count-split : (xs : Text) → word_count xs ≡ length (split xs)
unfolding count_runs split
word_count-split [] = refl
word_count-split (x ∷ xs) =
    ground (arith, word_count-split xs, count_runs_inside xs, split_of_start xs)

runs_bound :
    (xs : Text) → (2 * count_runs true xs ≤ length xs) × (2 * count_runs false xs ≤ suc (length xs))
unfolding count_runs
runs_bound [] = (omega arith, omega arith)
runs_bound (x ∷ xs) = ground (arith, runs_bound xs)

-- Words are apart by a character at least.
pub word_count-le : (xs : Text) → 2 * word_count xs ≤ suc (length xs)
word_count-le xs = (runs_bound xs).1

word_count-lstrip : (xs : Text) → word_count (lstrip is_space xs) ≡ word_count xs
unfolding count_runs lstrip
word_count-lstrip [] = refl
word_count-lstrip (x ∷ xs) = ground (arith, word_count-lstrip xs)

count_runs-keep_right :
    (b : Bool) (x : ℕ) (xs : Text)
    → count_runs b (keep_right (is_space x) x xs) ≡ count_runs b (x ∷ xs)
unfolding count_runs
count_runs-keep_right b x [] = ground arith
count_runs-keep_right b x (y ∷ ys) = refl

count_runs-rstrip : (b : Bool) (xs : Text) → count_runs b (rstrip is_space xs) ≡ count_runs b xs
unfolding count_runs rstrip
count_runs-rstrip b [] = refl
count_runs-rstrip b (x ∷ xs) =
    count_runs-keep_right b x (rstrip is_space xs)
    ∙ ap (λ n. (if not b && not (is_space x) then 1 else 0) + n)
        (count_runs-rstrip (not (is_space x)) xs)

pub word_count-strip : (xs : Text) → word_count (strip xs) ≡ word_count xs
unfolding strip strip_with
word_count-strip xs = count_runs-rstrip false (lstrip is_space xs) ∙ word_count-lstrip xs
