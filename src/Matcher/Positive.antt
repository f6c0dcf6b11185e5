-- ===== src/Matcher/Positive.antt =====
-- matcher.go: requests that a candidate scores for.
use httptape.Prelude.{
  Text, ◌≡◌, ◌≢◌, refl, ◌∙◌, Option, some, List, [], ◌∷◌, ◌++◌, All, Option-cases, inl, inr, arith,
  text_eq, eq_iff,
}
use mathlib.Core.Path.{subst}
use httptape.Platform.{Platform, Url}
use httptape.Tape.{Tape, body_hash_from_bytes}
use httptape.Matcher.{
  Request, ReqBody, no_body, readable, broken, Criterion, method_criterion, path_criterion,
  body_hash_criterion, score, composite_match,
}
use httptape.Matcher.Best.{IsAnswer, IsBest, total_score, composite_match-IsAnswer}

-- the bytes of a request's body
abbrev pub body_text : ReqBody → Text
body_text (readable body) = body
body_text _ = []

All-middle :
    (P : Tape → Type 0) (before : List Tape) (t : Tape) (after : List Tape)
    → All P (before ++ t ∷ after)
    → P t
All-middle P [] t after h = h.0
All-middle P (u ∷ before) t after h = All-middle P before t after h.1

module _ (pf : Platform) where
  pub score-method :
      (req : Request) (t : Tape)
      → t.request.method ≡ req.method
      → score pf method_criterion req t ≡ 1
  unfolding score
  score-method req t same = ground (arith, eq_iff req.method t.request.method)

  pub score-path :
      (req : Request) (t : Tape) (o : Option Url) (u : Url)
      → pf.parse_url t.request.url ≡ o
      → o ≡ some u
      → u.path ≡ req.url.path
      → score pf path_criterion req t ≡ 2
  unfolding score
  score-path req t o u parsed e same = rw (parsed, e) (ground (arith, eq_iff req.url.path u.path))

  hash-empty : body_hash_from_bytes pf [] ≡ []
  unfolding body_hash_from_bytes
  hash-empty = refl

  pub score-hash :
      (req : Request) (t : Tape) (body : ReqBody)
      → req.body ≡ body
      → body ≢ broken
      → t.request.body_hash ≡ body_hash_from_bytes pf (body_text body)
      → score pf body_hash_criterion req t ≡ 8
  unfolding score
  score-hash req t no_body e whole_body same =
      rw e (ground (arith, same ∙ hash-empty, eq_iff t.request.body_hash []))
  score-hash req t (readable body) e whole_body same =
      rw e (ground (arith, eq_iff t.request.body_hash (body_hash_from_bytes pf body)))
  score-hash req t broken e whole_body same = absurd (whole_body refl)

  -- the composite matcher answers where not all candidates score 0
  pub composite_match-found :
      (criteria : List Criterion) (req : Request) (tapes : List Tape)
      → (All (λ u. total_score pf criteria req u ≡ 0) tapes → ⊥)
      → (u : Tape) × (composite_match pf criteria req tapes ≡ some u)
        × IsBest pf criteria req tapes u
  composite_match-found criteria req tapes scores =
      let answer = composite_match-IsAnswer pf criteria req tapes in
      elim (Option-cases (composite_match pf criteria req tapes)) [
        | inl lost ↦ absurd (scores (subst (IsAnswer pf criteria req tapes) lost answer))
        | inr (u, found) ↦ (u, found, subst (IsAnswer pf criteria req tapes) found answer)
      ]

  -- where the matcher answers, not all candidates score 0
  pub composite_match-scores :
      (criteria : List Criterion) (req : Request) (tapes : List Tape) (u : Tape)
      → composite_match pf criteria req tapes ≡ some u
      → All (λ v. total_score pf criteria req v ≡ 0) tapes
      → ⊥
  composite_match-scores criteria req tapes u found zeros =
      let best =
        subst (IsAnswer pf criteria req tapes) found
          (composite_match-IsAnswer pf criteria req tapes) in
      let mid =
        All-middle (λ v. total_score pf criteria req v ≡ 0) best.before u best.after
          (subst (All (λ v. total_score pf criteria req v ≡ 0)) best.split zeros) in
      omega (arith, best.positive)
