-- ===== src/Matcher/Best.antt =====
-- `CompositeMatcher.Match` returns the first of the candidates with the highest score.
use httptape.Prelude.{
  ◌+◌, Bool, not, all, nat_beq, if◌then◌else◌, ℕ, suc, ◌≤◌, ◌<◌, ◌≡◌, refl, sym, ap, ◌∙◌, Option,
  none, some, List, [], ◌∷◌, ◌++◌, length, get_elem?, All, All-append, All-imp, length-append, ltb,
  arith, Bool-cases, inl, inr, ◌>>=◌,
}
use mathlib.Core.List.{append_assoc, append-nil}
use mathlib.Core.Path.{subst}
use httptape.Platform.{Platform}
use httptape.Tape.{Tape}
use native.Mathlib.Nat.{zero-add}
use httptape.Matcher.{Criterion, Request, score, total_from, better, best_from, composite_match}

abbrev pub points : Option ℕ → ℕ
points none = 0
points (some n) = n

module _ (pf : Platform) where
  unfoldable pub sum_scores : List Criterion → Request → Tape → ℕ
  sum_scores [] req t = 0
  sum_scores (c ∷ cs) req t = score pf c req t + sum_scores cs req t

  abbrev pub accepts_all : List Criterion → Request → Tape → Bool
  accepts_all cs req t = all (λ c. not (nat_beq (score pf c req t) 0)) cs

  points-total_from :
      (total : ℕ) (cs : List Criterion) (req : Request) (t : Tape)
      → points (total_from pf total cs req t)
        ≡ (if accepts_all cs req t then total + sum_scores cs req t else 0)
  unfolding total_from sum_scores
  points-total_from total [] req t = omega arith
  points-total_from total (c ∷ cs) req t =
      ground (arith, points-total_from (total + score pf c req t) cs req t)

module _ (pf : Platform) (criteria : List Criterion) (req : Request) where
  -- The sum of the scores, 0 for a candidate that a criterion eliminates with a score of 0.
  abbrev pub total_score : Tape → ℕ
  total_score t = if accepts_all pf criteria req t then sum_scores pf criteria req t else 0

  points-total_score : (t : Tape) → points (total_from pf 0 criteria req t) ≡ total_score t
  points-total_score t = rw (points-total_from pf 0 criteria req t, zero-add) refl

  -- `t` scores, more than each candidate before it and no less than any after it.
  pub record IsBest (candidates : List Tape) (t : Tape) : Type 0 where
    pub before : List Tape
    pub after : List Tape
    pub split : candidates ≡ before ++ t ∷ after
    pub positive : 0 < total_score t
    pub earlier : All (λ u. total_score u < total_score t) before
    pub later : All (λ u. total_score u ≤ total_score t) after

  abbrev pub IsAnswer : List Tape → Option Tape → Type 0
  IsAnswer candidates (some t) = IsBest candidates t
  IsAnswer candidates none = All (λ u. total_score u ≡ 0) candidates

  -- what the loop knows after the candidates `seen`
  abbrev Found : List Tape → ℕ → Option ℕ → Type 0
  Found seen best_score none = (best_score ≡ 0) × All (λ u. total_score u ≡ 0) seen
  Found seen best_score (some k) =
      (t : Tape) × (b : IsBest seen t) × (length b.before ≡ k) × (best_score ≡ total_score t)

  -- no candidate so far scores more than the best score
  Found-bound :
      (seen : List Tape) (best_score : ℕ) (best_idx : Option ℕ)
      → Found seen best_score best_idx
      → All (λ u. total_score u ≤ best_score) seen
  Found-bound seen best_score none h =
      All-imp _ (λ u. total_score u ≤ best_score) seen (λ u e. omega arith) h.1
  Found-bound seen best_score (some k) (t, b, at, same) =
      subst (All (λ u. total_score u ≤ best_score)) (sym b.split) (
        All-append (λ u. total_score u ≤ best_score) b.before (t ∷ b.after)
          (All-imp _ (λ u. total_score u ≤ best_score) b.before (λ u e. omega arith) b.earlier)
          (
            omega arith,
            All-imp _ (λ u. total_score u ≤ best_score) b.after (λ u e. omega arith) b.later,
          ))

  Found-replace :
      (seen : List Tape) (best_score : ℕ) (best_idx : Option ℕ) (tape : Tape)
      → Found seen best_score best_idx
      → best_score < total_score tape
      → Found (seen ++ tape ∷ []) (total_score tape) (some (length seen))
  Found-replace seen best_score best_idx tape h lt = (
    tape,
    record {
      before = seen;
      after = [];
      split = refl;
      positive = omega arith;
      earlier =
          All-imp _ (λ u. total_score u < total_score tape) seen (λ u e. omega arith)
            (Found-bound seen best_score best_idx h);
      later = tt;
    },
    refl,
    refl,
  )

  Found-keep :
      (seen : List Tape) (best_score : ℕ) (best_idx : Option ℕ) (tape : Tape)
      → Found seen best_score best_idx
      → total_score tape ≤ best_score
      → Found (seen ++ tape ∷ []) best_score best_idx
  Found-keep seen best_score none tape h le =
      (h.0, All-append (λ u. total_score u ≡ 0) seen (tape ∷ []) h.1 (omega arith, tt))
  Found-keep seen best_score (some k) tape (t, b, at, same) le = (
    t,
    record {
      before = b.before;
      after = b.after ++ tape ∷ [];
      split = ap (λ s. s ++ tape ∷ []) b.split ∙ append_assoc b.before (t ∷ b.after) (tape ∷ []);
      positive = b.positive;
      earlier = b.earlier;
      later =
          All-append (λ u. total_score u ≤ total_score t) b.after (tape ∷ []) b.later
            (omega arith, tt);
    },
    at,
    same,
  )

  better-Found :
      (seen : List Tape) (best_score : ℕ) (best_idx : Option ℕ) (tape : Tape) (o : Option ℕ)
      → Found seen best_score best_idx
      → points o ≡ total_score tape
      → Found
          (seen ++ tape ∷ [])
          (better pf (length seen) best_score best_idx o).0
          (better pf (length seen) best_score best_idx o).1
  better-Found seen best_score best_idx tape none h e =
      Found-keep seen best_score best_idx tape h (omega arith)
  better-Found seen best_score best_idx tape (some n) h e = elim (Bool-cases (ltb best_score n)) [
    | inl more ↦
        let lt : best_score < n = ground arith in
        rw (more, e) (Found-replace seen best_score best_idx tape h (omega arith))
    | inr less ↦
        let le : n ≤ best_score = ground arith in
        rw less (Found-keep seen best_score best_idx tape h (omega arith))
  ]

  best_from-Found :
      (seen tapes : List Tape) (best_score : ℕ) (best_idx : Option ℕ)
      → Found seen best_score best_idx
      → (s : ℕ) × Found
          (seen ++ tapes)
          s
          (best_from pf criteria req (length seen) best_score best_idx tapes)
  unfolding best_from
  best_from-Found seen [] best_score best_idx h =
      (best_score, subst (λ l. Found l best_score best_idx) (sym (append-nil seen)) h)
  best_from-Found seen (tape ∷ tapes) best_score best_idx h =
      let o = total_from pf 0 criteria req tape in
      let r = better pf (length seen) best_score best_idx o in
      let more : length (seen ++ tape ∷ []) ≡ suc (length seen) =
        omega (arith, length-append seen (tape ∷ [])) in
      let (s, found) =
        best_from-Found (seen ++ tape ∷ []) tapes r.0 r.1
          (better-Found seen best_score best_idx tape o h (points-total_score tape)) in
      (
        s,
        subst (λ n. Found (seen ++ tape ∷ tapes) s (best_from pf criteria req n r.0 r.1 tapes)) more
            (subst
              (λ l.
                Found l s (best_from pf criteria req (length (seen ++ tape ∷ [])) r.0 r.1 tapes))
              (append_assoc seen (tape ∷ []) tapes) found),
      )

  get_elem?-append :
      (before after : List Tape) (t : Tape)
      → get_elem? (before ++ t ∷ after) (length before) ≡ some t
  get_elem?-append [] after t = refl
  get_elem?-append (u ∷ before) after t = get_elem?-append before after t

  -- The answer is the first of the highest-scoring candidates that no criterion eliminates; there
  -- is none exactly when every candidate is eliminated or scores 0.
  pub composite_match-IsAnswer :
      (candidates : List Tape) → IsAnswer candidates (composite_match pf criteria req candidates)
  unfolding composite_match
  composite_match-IsAnswer candidates =
      let (s, found) = best_from-Found [] candidates 0 none (refl, tt) in
      answer s (best_from pf criteria req 0 0 none candidates) found
    where
      answer :
          (s : ℕ) (o : Option ℕ)
          → Found candidates s o
          → IsAnswer candidates (o >>= λ idx. get_elem? candidates idx)
      answer s none found = found.1
      answer s (some k) (t, b, at, same) =
          let hit : get_elem? candidates k ≡ some t =
            ap (λ l. get_elem? l k) b.split
            ∙ ap (get_elem? (b.before ++ t ∷ b.after)) (sym at)
            ∙ get_elem?-append b.before b.after t in
          subst (IsAnswer candidates) (sym hit) b
