-- ===== src/Chat/Cuts.antt =====
-- Lists that are cut and turned round, as a page is made (`list_buddy_messages`).
use buddy_web_ver.Base.{
  ℕ, zero, suc, ◌+◌, ◌≤◌, ◌<◌, ◌≡◌, refl, ◌∙◌, ap, Bool, ◌&&◌, some, List, [], ◌∷◌, ◌++◌, arith,
  length, take, select,
}
use buddy_web_ver.Chat.History.{reversed, reversed_onto, last}

-- A timestamp that `datetime` can hold and a key of 128 bits.

module _ {ℓ} {A : Type ℓ} where
  pub take-take : (n k : ℕ) (xs : List A) → n ≤ k → take n (take k xs) ≡ take n xs
  take-take zero k xs h = refl
  take-take (suc n) zero xs h = absurd (omega arith)
  take-take (suc n) (suc k) [] h = refl
  take-take (suc n) (suc k) (x ∷ xs) h = ap (λ (l : List A). x ∷ l) (take-take n k xs (omega arith))

  -- A page of at least one row has a last row.
  pub take-last :
      (n : ℕ) (xs : List A) → 0 < n → n < length xs → (x : A) × (last (take n xs) ≡ some x)
  take-last zero xs h k = absurd (omega arith)
  take-last (suc n) [] h k = absurd (omega arith)
  take-last (suc zero) (x ∷ xs) h k = (x, refl)
  take-last (suc (suc n)) (x ∷ []) h k = absurd (omega arith)
  take-last (suc (suc n)) (x ∷ y ∷ ys) h k = take-last (suc n) (y ∷ ys) (omega arith) (omega arith)

  reversed_twice_onto :
      (xs ys zs : List A) → reversed_onto (reversed_onto xs ys) zs ≡ reversed_onto ys (xs ++ zs)
  reversed_twice_onto [] ys zs = refl
  reversed_twice_onto (x ∷ xs) ys zs = reversed_twice_onto xs (x ∷ ys) zs

  append_nil : (xs : List A) → xs ++ [] ≡ xs
  append_nil [] = refl
  append_nil (x ∷ xs) = ap (λ (l : List A). x ∷ l) (append_nil xs)

  pub reversed-reversed : (xs : List A) → reversed (reversed xs) ≡ xs
  reversed-reversed xs = reversed_twice_onto xs [] [] ∙ append_nil xs

  pub length-reversed_onto : (xs ys : List A) → length (reversed_onto xs ys) ≡ length xs + length ys
  length-reversed_onto [] ys = omega arith
  length-reversed_onto (x ∷ xs) ys = omega (arith, length-reversed_onto xs (x ∷ ys))

  pub select-select :
      (p q r : A → Bool) (xs : List A)
      → ((x : A) → (p x && q x) ≡ r x)
      → select q (select p xs) ≡ select r xs
  select-select p q r [] h = refl
  select-select p q r (x ∷ xs) h = ground (arith, h x, select-select p q r xs h)
