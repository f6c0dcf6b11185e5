-- ===== src/Matcher/Negotiation.antt =====
-- Which range of an Accept header decides the score of content negotiation.
use httptape.Prelude.{
  ◌+◌, ◌≤◌, ◌≡◌, ◌⊎◌, refl, Bool, true, false, not, ◌&&◌, some, List, [], ◌∷◌, All, All-imp, any,
  Member, arith, Bool-cases, inl, inr,
}
use httptape.Float.{float_equal}
use httptape.MediaType.{MediaType, specificity, matches_media_range}
use httptape.MediaType.Order.{Descending, rank}
use httptape.Matcher.{excluded, first_match, negotiate}

-- a range that the content type satisfies, with a q-value that is not 0
abbrev pub accepts : MediaType → MediaType → Bool
accepts ct ar = not (float_equal ar.q_value 0) && matches_media_range ar ct

abbrev pub refuses : MediaType → MediaType → Bool
refuses ct ar = float_equal ar.q_value 0 && matches_media_range ar ct

-- `ar` accepts, and no range that accepts has a higher rank
pub record IsPreferred (ranges : List MediaType) (ct ar : MediaType) : Type 0 where
  pub listed : Member ar ranges
  pub accepting : accepts ct ar ≡ true
  pub highest : All (λ b. (accepts ct b ≡ false) ⊎ (rank b ≤ rank ar)) ranges

first_match-IsPreferred :
    (ranges : List MediaType) (ct : MediaType)
    → Descending ranges
    → (All (λ b. accepts ct b ≡ false) ranges × (first_match ranges ct ≡ 0))
      ⊎ ((ar : MediaType) × (p : IsPreferred ranges ct ar) × (first_match ranges ct
            ≡ specificity ar + 2))
unfolding first_match
first_match-IsPreferred [] ct h = inl (tt, refl)
first_match-IsPreferred (ar ∷ ars) ct h = elim (Bool-cases (accepts ct ar)) [
  | inl e ↦ inr (
    ar,
    record {
      listed = inl refl;
      accepting = e;
      highest = (inr (omega arith), All-imp (λ b. rank b ≤ rank ar) _ ars (λ b le. inr le) h.0);
    },
    rw e refl,
  )
  | inr e ↦ elim (first_match-IsPreferred ars ct h.1) [
    | inl none_left ↦ inl ((e, none_left.0), rw e none_left.1)
    | inr (best, p, found) ↦ inr (
      best,
      record { listed = inr p.listed; accepting = p.accepting; highest = (inl e, p.highest) },
      rw e found,
    )
  ]
]

excluded-any :
    (ranges : List MediaType) (ct : MediaType) → excluded ranges ct ≡ any (refuses ct) ranges
unfolding excluded
excluded-any [] ct = refl
excluded-any (ar ∷ ars) ct = rw (excluded-any ars ct) refl

-- Against ranges in descending order, a content type scores 0 if a range with q-value 0 covers it or
-- no other does, and else two more than the specificity of a range of the highest rank among those
-- that cover it.
pub negotiate-IsPreferred :
    (ranges : List MediaType) (ct : MediaType)
    → Descending ranges
    → ((any (refuses ct) ranges ≡ true) × (negotiate ranges (some ct) ≡ 0))
      ⊎ (All (λ b. accepts ct b ≡ false) ranges × (negotiate ranges (some ct) ≡ 0))
      ⊎ ((any (refuses ct) ranges ≡ false)
          × (ar : MediaType) × (p : IsPreferred ranges ct ar) × (negotiate ranges (some ct)
              ≡ specificity ar + 2))
negotiate-IsPreferred ranges ct h = elim (Bool-cases (any (refuses ct) ranges)) [
  | inl e ↦ inl (e, rw (excluded-any ranges ct, e) refl)
  | inr e ↦ elim (first_match-IsPreferred ranges ct h) [
    | inl none_left ↦ inr (inl (none_left.0, rw (excluded-any ranges ct, e) none_left.1))
    | inr (best, p, found) ↦ inr (inr (e, best, p, rw (excluded-any ranges ct, e) found))
  ]
]
