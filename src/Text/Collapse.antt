-- ===== src/Text/Collapse.antt =====
-- Splitting what was joined gives the words back, so that collapsing white space is idempotent.
use buddy_web_ver.Base.{
  ℕ, ◌≡◌, refl, ◌∙◌, ap, inl, inr, Bool, true, false, not, List, [], ◌∷◌, Bool-cases, All,
}
use buddy_web_ver.Text.{
  Text, is_space, split, extend_word, starts_word, join, append_text, collapse_whitespace,
}

-- A word has a character, and no white space.
abbrev pub IsWord : Text → Type 0
IsWord [] = ⊥
IsWord (x ∷ []) = is_space x ≡ false
IsWord (x ∷ y ∷ ys) = (is_space x ≡ false) × IsWord (y ∷ ys)

extend_word-IsWord :
    (joined : Bool) (x : ℕ) (ws : List Text)
    → is_space x ≡ false
    → All IsWord ws
    → All IsWord (extend_word joined x ws)
extend_word-IsWord joined x [] h a = (h, tt)
extend_word-IsWord true x ([] ∷ ws) h a = absurd a.0
extend_word-IsWord true x ((y ∷ ys) ∷ ws) h a = ((h, a.0), a.1)
extend_word-IsWord false x (w ∷ ws) h a = (h, a)

pub split-IsWord : (xs : Text) → All IsWord (split xs)
unfolding split
split-IsWord [] = tt
split-IsWord (x ∷ xs) = elim (Bool-cases (is_space x)) [
  | inl e ↦ rw e (split-IsWord xs)
  | inr e ↦ rw e (extend_word-IsWord (starts_word xs) x (split xs) e (split-IsWord xs))
]

split_cons :
    (x y : ℕ) (ys : Text)
    → is_space x ≡ false
    → split (x ∷ y ∷ ys) ≡ extend_word (not (is_space y)) x (split (y ∷ ys))
unfolding split
split_cons x y ys h = rw h

IsWord-head : (y : ℕ) (ys : Text) → IsWord (y ∷ ys) → is_space y ≡ false
IsWord-head y [] h = h
IsWord-head y (z ∷ zs) h = h.0

split_last : (x : ℕ) → is_space x ≡ false → split (x ∷ []) ≡ (x ∷ []) ∷ []
unfolding split
split_last x h = rw h

split_word : (w : Text) → IsWord w → split w ≡ w ∷ []
split_word [] h = absurd h
split_word (x ∷ []) h = split_last x h
split_word (x ∷ y ∷ ys) h =
    split_cons x y ys h.0 ∙ rw (IsWord-head y ys h.1, split_word (y ∷ ys) h.1)

split_blank : (rest : Text) → split (32 ∷ rest) ≡ split rest
unfolding split is_space
split_blank rest = refl

blank_space : is_space 32 ≡ true
unfolding is_space
blank_space = refl

new_word : (x : ℕ) (ws : List Text) → extend_word false x ws ≡ (x ∷ []) ∷ ws
new_word x [] = refl
new_word x (w ∷ ws) = refl

split_append : (w rest : Text) → IsWord w → split (append_text w (32 ∷ rest)) ≡ w ∷ split rest
split_append [] rest h = absurd h
split_append (x ∷ []) rest h =
    split_cons x 32 rest h ∙ rw (blank_space, split_blank rest) (new_word x (split rest))
split_append (x ∷ y ∷ ys) rest h =
    split_cons x y (append_text ys (32 ∷ rest)) h.0
    ∙ rw (IsWord-head y ys h.1) (ap (extend_word true x) (split_append (y ∷ ys) rest h.1))

split_empty : split [] ≡ []
unfolding split
split_empty = refl

pub split-join : (ws : List Text) → All IsWord ws → split (join ws) ≡ ws
unfolding join
split-join [] h = split_empty
split-join (w ∷ []) h = split_word w h.0
split-join (w ∷ v ∷ ws) h =
    split_append w (join (v ∷ ws)) h.0 ∙ ap (◌∷◌ w) (split-join (v ∷ ws) h.1)

pub collapse-collapse :
    (value : Text) → collapse_whitespace (collapse_whitespace value) ≡ collapse_whitespace value
unfolding collapse_whitespace
collapse-collapse value = ap join (split-join (split value) (split-IsWord value))
