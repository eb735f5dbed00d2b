-- ===== src/Matching/Identities/Sets.antt =====
-- Signal identities as finite sets: sizes of intersections and unions, and the similarity that
-- depends on the members alone.
use buddy_web_ver.Base.{
  ◌+◌, ◌≡◌, refl, ◌∙◌, sym, ap, ap₂, subst, ltb, Bool, true, false, not, ◌&&◌, ◌||◌, List, [], ◌∷◌,
  if◌then◌else◌, arith, Bool-cases, inl, inr, length, length-append, select, any, text_eq_refl,
  text_eq→eq, length-select-le, Option, none, some,
}
use buddy_web_ver.Preferences.{Unicode}
use buddy_web_ver.Matching.Fractions.Laws.{IsUpTo}
use buddy_web_ver.Matching.Identities.{
  SignalIdentity, custom, catalog, identity_eq, contains, add_option, intersection, union, jaccard,
  exact_overlap, is_nonempty, preference_identities, language_identities, SafeMatchingPreference,
  SafeMatchingLanguage, preference_identity, language_identity,
}

identity_eq_refl : (x : SignalIdentity) → identity_eq x x ≡ true
identity_eq_refl (custom a) = text_eq_refl a
identity_eq_refl (catalog a) = text_eq_refl a

identity_eq→eq : (x y : SignalIdentity) → identity_eq x y ≡ true → x ≡ y
identity_eq→eq (custom a) (custom b) h = ap custom (text_eq→eq a b h)
identity_eq→eq (catalog a) (catalog b) h = ap catalog (text_eq→eq a b h)
identity_eq→eq (custom a) (catalog b) h = cc
identity_eq→eq (catalog a) (custom b) h = cc

-- Each identity once.
abbrev pub IsDistinct : List SignalIdentity → Type 0
IsDistinct [] = Unit
IsDistinct (x ∷ xs) = (contains xs x ≡ false) × IsDistinct xs

add_option-IsDistinct :
    (o : Option SignalIdentity) (xs : List SignalIdentity)
    → IsDistinct xs
    → IsDistinct (add_option o xs)
add_option-IsDistinct none xs d = d
add_option-IsDistinct (some x) xs d = elim (Bool-cases (contains xs x)) [
  | inl e ↦ rw e d
  | inr e ↦ rw e (e, d)
]

module _ (unicode : Unicode) where
  pub preference_identities-IsDistinct :
      (vs : List SafeMatchingPreference) → IsDistinct (preference_identities unicode vs)
  unfolding preference_identities
  preference_identities-IsDistinct [] = tt
  preference_identities-IsDistinct (v ∷ vs) =
      add_option-IsDistinct (preference_identity unicode v) _ (preference_identities-IsDistinct vs)

  pub language_identities-IsDistinct :
      (vs : List SafeMatchingLanguage) → IsDistinct (language_identities unicode vs)
  unfolding language_identities
  language_identities-IsDistinct [] = tt
  language_identities-IsDistinct (v ∷ vs) =
      add_option-IsDistinct (language_identity unicode v) _ (language_identities-IsDistinct vs)

-- A selection by either of two tests that exclude one another.
length-select-or {ℓ} :
    {A : Type ℓ} (w p q : A → Bool) (xs : List A)
    → ((x : A) → w x ≡ (p x || q x))
    → ((x : A) → (p x && q x) ≡ false)
    → length (select w xs) ≡ length (select p xs) + length (select q xs)
length-select-or w p q [] h d = omega arith
length-select-or w p q (x ∷ xs) h d = ground (arith, length-select-or w p q xs h d, h x, d x)

select_none {ℓ} : {A : Type ℓ} (p : A → Bool) (xs : List A) → any p xs ≡ false → select p xs ≡ []
select_none p [] h = refl
select_none p (x ∷ xs) h = ground (arith, select_none p xs)

select-false {ℓ} : {A : Type ℓ} (xs : List A) → select (λ x. false) xs ≡ []
select-false [] = refl
select-false (x ∷ xs) = select-false xs

length-select-not {ℓ} :
    {A : Type ℓ} (p : A → Bool) (xs : List A)
    → length (select (λ x. not (p x)) xs) + length (select p xs) ≡ length xs
length-select-not p [] = omega arith
length-select-not p (x ∷ xs) = ground (arith, length-select-not p xs)

identity_eq_comm : (x y : SignalIdentity) → identity_eq x y ≡ identity_eq y x
identity_eq_comm x y = elim (Bool-cases (identity_eq x y)) [
  | inl e ↦ rw (identity_eq→eq x y e)
  | inr e ↦ elim (Bool-cases (identity_eq y x)) [
    | inl f ↦
        let same = identity_eq→eq y x f in
        let wrong : identity_eq y y ≡ false = subst (λ z. identity_eq z y ≡ false) (sym same) e in
        cc (identity_eq_refl y)
    | inr f ↦ e ∙ sym f
  ]
]

any_swapped :
    (x : SignalIdentity) (ys : List SignalIdentity) → any (λ y. identity_eq y x) ys ≡ contains ys x
any_swapped x [] = refl
any_swapped x (y ∷ ys) = ap₂ (λ a b. a || b) (identity_eq_comm y x) (any_swapped x ys)

-- In a set, one identity is found once or not at all.
length-select-eq :
    (x : SignalIdentity) (ys : List SignalIdentity)
    → IsDistinct ys
    → length (select (λ y. identity_eq y x) ys) ≡ (if contains ys x then 1 else 0)
length-select-eq x [] d = refl
length-select-eq x (y ∷ ys) d = elim (Bool-cases (identity_eq y x)) [
  | inl e ↦
      let absent : contains ys x ≡ false =
        subst (λ z. contains ys z ≡ false) (identity_eq→eq y x e) d.0 in
      ground (
        arith,
        identity_eq_comm y x,
        select_none (λ z. identity_eq z x) ys (any_swapped x ys ∙ absent),
      )
  | inr e ↦ ground (arith, identity_eq_comm y x, length-select-eq x ys d.1)
]

absent_apart :
    (x y : SignalIdentity) (xs : List SignalIdentity)
    → contains xs x ≡ false
    → (identity_eq y x && contains xs y) ≡ false
absent_apart x y xs h = elim (Bool-cases (identity_eq y x)) [
  | inl e ↦ let absent : contains xs y ≡ false = rw (identity_eq→eq y x e) h in ground arith
  | inr e ↦ ground arith
]

-- The intersection of two sets is as large in either order.
pub length-intersection_comm :
    (xs ys : List SignalIdentity)
    → IsDistinct xs
    → IsDistinct ys
    → length (intersection xs ys) ≡ length (intersection ys xs)
length-intersection_comm [] ys d e = sym (ap length (select-false ys))
length-intersection_comm (x ∷ xs) ys d e = ground (
  arith,
  length-intersection_comm xs ys d.1 e,
  length-select-eq x ys e,
  length-select-or (contains (x ∷ xs)) (λ y. identity_eq y x) (contains xs) ys (λ y. refl)
      (λ y. absent_apart x y xs d.0),
)

pub length-union :
    (xs ys : List SignalIdentity)
    → length (union xs ys) + length (intersection ys xs) ≡ length xs + length ys
length-union xs ys = omega (
  arith,
  length-append xs (select (λ x. not (contains xs x)) ys),
  length-select-not (contains xs) ys,
)

is_nonempty-length : (xs : List SignalIdentity) → is_nonempty xs ≡ ltb 0 (length xs)
is_nonempty-length [] = refl
is_nonempty-length (x ∷ xs) = ground arith

-- The similarity of two sets is symmetric.
pub jaccard_comm :
    (xs ys : List SignalIdentity) → IsDistinct xs → IsDistinct ys → jaccard xs ys ≡ jaccard ys xs
unfolding jaccard
jaccard_comm xs ys d e = ground (
  arith,
  is_nonempty-length (union xs ys),
  is_nonempty-length (union ys xs),
  length-union xs ys,
  length-union ys xs,
  length-intersection_comm xs ys d e,
)

pub exact_overlap_comm :
    (xs ys : List SignalIdentity)
    → IsDistinct xs
    → IsDistinct ys
    → exact_overlap xs ys ≡ exact_overlap ys xs
unfolding exact_overlap
exact_overlap_comm xs ys d e = ground (
  arith,
  is_nonempty-length (intersection xs ys),
  is_nonempty-length (intersection ys xs),
  length-intersection_comm xs ys d e,
)

-- It lies between 0 and 1.
pub jaccard-IsUpTo : (xs ys : List SignalIdentity) → IsUpTo 1 (jaccard xs ys)
unfolding jaccard
jaccard-IsUpTo xs ys = ground (
  arith,
  is_nonempty-length (union xs ys),
  length-append xs (select (λ x. not (contains xs x)) ys),
  length-select-le (contains ys) xs,
)
