-- ===== src/Matching/Recommendations/Paging.antt =====
-- The pages of the recommendations, put together, and their order.
use buddy_web_ver.Base.{
  ℕ, zero, suc, ◌+◌, ◌-◌, ◌*◌, ◌≤◌, ◌<◌, ◌≡◌, refl, ◌∙◌, ap, sym, subst, inl, inr, Bool, true,
  false, not, ◌&&◌, List, [], ◌∷◌, ◌++◌, ltb, leb, ◌==◌, arith, drop, length, insert_by, sort_by,
  take, take_all, Bool-cases,
}
use native.Mathlib.Nat.{div-add-mod, mod-lt}
use buddy_web_ver.Errors.{
  value_error, Complaint, recommendation_state, recommendation_capacity, ok, or_raise, raise_if,
  ok_inv,
}
use buddy_web_ver.Preferences.{Unicode}
use buddy_web_ver.Db.{Db}
use buddy_web_ver.Matching.Fractions.{fraction_eq, fraction_le}
use buddy_web_ver.Matching.Availability.{ToUtc}
use buddy_web_ver.Matching.Eligibility.{EligibleMatchingPrincipal}
use buddy_web_ver.Matching.Projection.{CatalogLocale}
use buddy_web_ver.Matching.Candidates.{load_matching_scoring_profiles}
use buddy_web_ver.Matching.Scoring.{weekday}
use buddy_web_ver.Matching.Recommendations.{
  MatchingRecommendation, RecommendationPage, max_recommendation_page_size, ranks_before,
  page_count, recommendation_page, score_all, max_recommendation_candidates, ranking,
  list_ranked_matching_recommendations,
}

next_piece : (k n : ℕ) → k * n + n ≡ suc k * n
next_piece k n = grind arith

module _ {ℓ} {A : Type ℓ} where
  -- The first `k` pieces of length `n`, one after another.
  abbrev pub pieces : ℕ → ℕ → List A → List A
  pieces zero n xs = []
  pieces (suc k) n xs = pieces k n xs ++ take n (drop (k * n) xs)

  take_nil : (n : ℕ) → take {A = A} n [] ≡ []
  take_nil zero = refl
  take_nil (suc n) = refl

  take-take_more : (a n : ℕ) (xs : List A) → take (a + n) xs ≡ take a xs ++ take n (drop a xs)
  take-take_more zero n xs = ap (λ (k : ℕ). take k xs) (omega arith)
  take-take_more (suc a) n [] = take_nil (suc a + n) ∙ sym (take_nil n)
  take-take_more (suc a) n (x ∷ xs) =
      let shift : suc a + n ≡ suc (a + n) = omega arith in
      ap (λ (k : ℕ). take k (x ∷ xs)) shift ∙ ap (λ (l : List A). x ∷ l) (take-take_more a n xs)

  take-pieces : (k n : ℕ) (xs : List A) → pieces k n xs ≡ take (k * n) xs
  take-pieces zero n xs =
      let none_yet : 0 ≡ 0 * n = omega arith in ap (λ (a : ℕ). take a xs) none_yet
  take-pieces (suc k) n xs =
      ap (λ (l : List A). l ++ take n (drop (k * n) xs)) (take-pieces k n xs)
      ∙ sym (take-take_more (k * n) n xs)
      ∙ ap (λ (a : ℕ). take a xs) (next_piece k n)

  -- Every element comes before the next one.
  abbrev pub IsRanked : (A → A → Bool) → List A → Type 0
  IsRanked before [] = Unit
  IsRanked before (x ∷ []) = Unit
  IsRanked before (x ∷ y ∷ rest) = (before x y ≡ true) × IsRanked before (y ∷ rest)

  module _ (before : A → A → Bool)
      (total : (x y : A) → before x y ≡ false → before y x ≡ true) where
    insert_by-IsRanked :
        (x : A) (xs : List A) → IsRanked before xs → IsRanked before (insert_by before x xs)
    insert_by-IsRanked x [] h = tt
    insert_by-IsRanked x (y ∷ []) h = elim (Bool-cases (before x y)) [
      | inl e ↦ rw e (e, tt)
      | inr e ↦ rw e (total x y e, tt)
    ]
    insert_by-IsRanked x (y ∷ z ∷ rest) h = elim (Bool-cases (before x y)) [
      | inl e ↦ rw e (e, h)
      | inr e ↦ rw e (after_head x y z rest (total x y e) h (insert_by-IsRanked x (z ∷ rest) h.1))
    ]
      where
        after_head :
            (x y z : A) (rest : List A)
            → before y x ≡ true
            → IsRanked before (y ∷ z ∷ rest)
            → IsRanked before (insert_by before x (z ∷ rest))
            → IsRanked before (y ∷ insert_by before x (z ∷ rest))
        after_head x y z rest k h ranked = elim (Bool-cases (before x z)) [
          | inl e ↦ rw e (k, (e, h.1))
          | inr e ↦ rw e (h.0, rw e at ranked)
        ]

    sort_by-IsRanked : (xs : List A) → IsRanked before (sort_by before xs)
    sort_by-IsRanked [] = tt
    sort_by-IsRanked (x ∷ xs) = insert_by-IsRanked x (sort_by before xs) (sort_by-IsRanked xs)

ranks_total :
    (r other : MatchingRecommendation) → ranks_before r other ≡ false → ranks_before other r ≡ true
unfolding ranks_before fraction_le fraction_eq
ranks_total r other h = ground arith

page_count-enough : (total n : ℕ) → 0 < n → total ≤ page_count total n * n
unfolding page_count
page_count-enough total n h =
    omega (arith, h, div-add-mod (total + n - 1) n, mod-lt (total + n - 1) h)

sorted_is :
    (scored ranked : List MatchingRecommendation)
    → ok (sort_by ranks_before scored) ≡ ok ranked
    → sort_by ranks_before scored ≡ ranked
sorted_is scored ranked h = cc

piece_at :
    (k n : ℕ) (ranked : List MatchingRecommendation)
    → take n (drop ((suc k - 1) * n) ranked) ≡ take n (drop (k * n) ranked)
piece_at k n ranked =
    let back : suc k - 1 ≡ k = omega arith in ap (λ (i : ℕ). take n (drop (i * n) ranked)) back

all_pieces :
    (n : ℕ) (ranked : List MatchingRecommendation)
    → 0 < n
    → pieces (page_count (length ranked) n) n ranked ≡ ranked
all_pieces n ranked h =
    take-pieces (page_count (length ranked) n) n ranked
    ∙ take_all (page_count (length ranked) n * n) ranked (page_count-enough (length ranked) n h)

size_positive :
    (n : ℕ) {u : Unit {0}}
    → raise_if
        (not (leb 1 n && leb n max_recommendation_page_size))
        (value_error Complaint.page_size_out_of_range)
      ≡ ok u
    → 0 < n
size_positive n h = ground arith

page_is : (p r : RecommendationPage) → ok p ≡ ok r → p ≡ r
page_is p r h = cc

module _ (to_utc : ToUtc) (unicode : Unicode) (current : EligibleMatchingPrincipal)
    (locale : CatalogLocale) (week : ℕ) (db : Db) where
  ranking-IsRanked :
      (ranked : List MatchingRecommendation)
      → ranking to_utc unicode current locale week db ≡ ok ranked
      → IsRanked ranks_before ranked
  unfolding ranking
  ranking-IsRanked ranked h =
      let ((found, candidates), _, h1) =
        ok_inv
          (load_matching_scoring_profiles current locale (max_recommendation_candidates + 1) db) _
          ranked h in
      let (profile, _, h2) = ok_inv (or_raise found recommendation_state) _ ranked h1 in
      let (_, _, h3) =
        ok_inv
          (raise_if (ltb max_recommendation_candidates (length candidates)) recommendation_capacity)
          _ ranked h2 in
      let (scored, _, h4) =
        ok_inv (score_all to_utc unicode current profile week candidates) _ ranked h3 in
      let sorted : sort_by ranks_before scored ≡ ranked = sorted_is scored ranked h4 in
      subst (IsRanked ranks_before) sorted (sort_by-IsRanked ranks_before ranks_total scored)

  any_page :
      (k n : ℕ) (ranked : List MatchingRecommendation) {u v : Unit {0}}
      → raise_if
          (not (leb 1 n && leb n max_recommendation_page_size))
          (value_error Complaint.page_size_out_of_range)
        ≡ ok u
      → raise_if (not (weekday week == 0)) (value_error Complaint.week_not_monday) ≡ ok v
      → ranking to_utc unicode current locale week db ≡ ok ranked
      → list_ranked_matching_recommendations to_utc unicode current locale (suc k) n week db
        ≡ ok (recommendation_page (suc k) n week ranked)
  unfolding list_ranked_matching_recommendations
  any_page k n ranked sized monday is_ranked =
      let from_one : ltb (suc k) 1 ≡ false = ground arith in
      rw (from_one, sized, monday, is_ranked) refl

  -- The pages of a ranking put together are the ranking. If one page of a size is returned, then so is
  -- every page of that size; their items are the successive pieces of one list, in which every
  -- recommendation ranks before the next one, by its exact score and then by the profile's key; and
  -- as many pieces as the number of pages that is returned are the whole list, whose length is the
  -- total that is returned.
  pub pages_join :
      (page n : ℕ) (r : RecommendationPage)
      → list_ranked_matching_recommendations to_utc unicode current locale page n week db ≡ ok r
      → (ranked : List MatchingRecommendation) × IsRanked ranks_before ranked
        × ((k : ℕ)
            → (q : RecommendationPage) × (list_ranked_matching_recommendations to_utc unicode
                  current locale
                  (suc k)
                  n
                  week
                  db
                ≡ ok q)
              × (q.items ≡ take n (drop (k * n) ranked)))
        × (pieces r.total_pages n ranked ≡ ranked)
        × (r.total ≡ length ranked)
  unfolding list_ranked_matching_recommendations recommendation_page
  pages_join page n r h =
      let (_, _, h1) =
        ok_inv (raise_if (ltb page 1) (value_error Complaint.page_not_positive)) _ r h in
      let (_, sized, h2) =
        ok_inv
          (raise_if (not (leb 1 n && leb n max_recommendation_page_size))
            (value_error Complaint.page_size_out_of_range))
          _ r h1 in
      let (_, monday, h3) =
        ok_inv (raise_if (not (weekday week == 0)) (value_error Complaint.week_not_monday)) _ r
          h2 in
      let (ranked, is_ranked, h4) = ok_inv (ranking to_utc unicode current locale week db) _ r h3 in
      let is_r : recommendation_page page n week ranked ≡ r = page_is _ r h4 in
      (
        ranked,
        ranking-IsRanked ranked is_ranked,
        λ k. (
          recommendation_page (suc k) n week ranked,
          any_page k n ranked sized monday is_ranked,
          piece_at k n ranked,
        ),
        subst (λ (q : RecommendationPage). pieces q.total_pages n ranked ≡ ranked) is_r
            (all_pieces n ranked (size_positive n sized)),
        subst (λ (q : RecommendationPage). q.total ≡ length ranked) is_r refl,
      )
