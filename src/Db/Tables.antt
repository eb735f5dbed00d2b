-- ===== src/Db/Tables.antt =====
-- The table of invitations as a list of rows: updates by primary key, and the unique index.
use buddy_web_ver.Base.{
  ℕ, ◌≡◌, ◌≢◌, refl, Bool, true, false, ◌&&◌, ◌||◌, Option, none, some, List, [], ◌∷◌, ◌==◌,
  if◌then◌else◌, any, scalar, arith, map,
}
use buddy_web_ver.Errors.{pending}
use buddy_web_ver.Models.Invitation.{
  MatchingInvitation, status_is, pair_low_user_id, pair_high_user_id,
}

abbrev pub put : MatchingInvitation → List MatchingInvitation → List MatchingInvitation
put i [] = []
put i (j ∷ js) = if j.id == i.id then i ∷ put i js else j ∷ put i js

-- Two pending rows with one unordered pair.
abbrev pub same_pending_pair : MatchingInvitation → MatchingInvitation → Bool
same_pending_pair i j =
    status_is i.status pending
    && status_is j.status pending
    && pair_low_user_id i == pair_low_user_id j
    && pair_high_user_id i == pair_high_user_id j

abbrev pub clashes : MatchingInvitation → MatchingInvitation → Bool
clashes i j = i.id == j.id || same_pending_pair i j

-- The primary key and the unique index hold of a table.
abbrev pub IsUnique : List MatchingInvitation → Type 0
IsUnique [] = Unit
IsUnique (i ∷ is) = (any (clashes i) is ≡ false) × IsUnique is

-- The row with a given key.
abbrev pub find : ℕ → List MatchingInvitation → Option MatchingInvitation
find k = scalar (λ i. i.id == k)

module _ (i : MatchingInvitation) where
  pub ids-put : (js : List MatchingInvitation) → map (λ j. j.id) (put i js) ≡ map (λ j. j.id) js
  ids-put [] = refl
  ids-put (j ∷ js) = ground (arith, ids-put js)

  -- An update reaches no row with another key.
  pub find-put_ne :
      (k : ℕ) (js : List MatchingInvitation) → k ≢ i.id → find k (put i js) ≡ find k js
  find-put_ne k [] h = refl
  find-put_ne k (j ∷ js) h = ground (arith, find-put_ne k js h)

  -- A query that found a row finds its update, if that still meets the condition.
  pub scalar-put :
      (p : MatchingInvitation → Bool) (old : MatchingInvitation) (js : List MatchingInvitation)
      → p i ≡ true
      → i.id ≡ old.id
      → scalar p js ≡ some old
      → scalar p (put i js) ≡ some i
  scalar-put p old [] h e found = cc
  scalar-put p old (j ∷ js) h e found = ground (arith, scalar-put p old js h e)

-- What a query returns meets its condition.
pub scalar_sound {ℓ} :
    {A : Type ℓ} (p : A → Bool) (x : A) (xs : List A) → scalar p xs ≡ some x → p x ≡ true
scalar_sound p x [] h = cc
scalar_sound p x (y ∷ ys) h = ground (arith, scalar_sound p x ys)

pub scalar-none {ℓ} :
    {A : Type ℓ} (p : A → Bool) (xs : List A) → any p xs ≡ false → scalar p xs ≡ none
scalar-none p [] h = refl
scalar-none p (x ∷ xs) h = ground (arith, scalar-none p xs)
