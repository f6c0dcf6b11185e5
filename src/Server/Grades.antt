-- ===== src/Server/Grades.antt =====
-- The loop of `matchExemplar` keeps the first of the best exemplars.
use httptape.Prelude.{
  ℕ, suc, ◌+◌, ◌≤◌, ◌<◌, ◌≡◌, refl, sym, ap, ◌∙◌, Bool, true, false, Option, none, some, List, [],
  ◌∷◌, ◌++◌, length, length-append, All, All-append, All-imp, if_both, ltb, nat_beq, arith,
  Bool-cases, inl, inr, ◌&&◌, Text, if◌then◌else◌, Option-cases,
}
use mathlib.Core.List.{append_assoc, append-nil}
use mathlib.Core.Path.{subst}
use httptape.Platform.{Platform, Runtime}
use httptape.PathPattern.{PathPattern, matches_path, new_path_pattern, extract_params}
use httptape.Tape.{Tape}
use httptape.Matcher.{Request, Criterion, score}
use httptape.Matcher.Best.{accepts_all, sum_scores}
use httptape.Server.{
  ExemplarMatch, add_scores, scored, path_params_of, exemplar_match, keep_better,
  match_exemplar_from,
}

module _ (pf : Platform) (rt : Runtime) (criteria : List Criterion) (r : Request) where
  abbrev grade_of : Option (Option (List (Text × Text))) → Option ℕ → ℕ
  grade_of (some params) (some total) = total
  grade_of _ _ = 0

  abbrev graded : Option PathPattern → Tape → ℕ
  graded none exemplar = 0
  graded (some p) exemplar =
      if matches_path p r.url.path && accepts_all pf criteria r exemplar
      then 3 + sum_scores pf criteria r exemplar
      else 0

  -- 3 and the sum of the scores of the other criteria; 0 for an exemplar whose pattern does not
  -- compile or does not match the path, or that one of the criteria eliminates with a score of 0
  pub grade : Tape → ℕ
  grade exemplar = graded (new_path_pattern rt exemplar.request.url_pattern) exemplar

  add_scores-eq :
      (total : ℕ) (cs : List Criterion) (t : Tape)
      → add_scores pf rt total cs r t
        ≡ (if accepts_all pf cs r t then some (total + sum_scores pf cs r t) else none)
  unfolding add_scores sum_scores
  add_scores-eq total [] t = ap some (omega arith)
  add_scores-eq total (c ∷ cs) t =
      let rest = add_scores-eq (total + score pf c r t) cs t in
      let sums : total + score pf c r t + sum_scores pf cs r t
          ≡ total + (score pf c r t + sum_scores pf cs r t) =
        omega arith in
      elim (Bool-cases (nat_beq (score pf c r t) 0)) [
        | inl e ↦ rw e refl
        | inr e ↦ rw (e, rest, sums) refl
      ]

  grade_of-graded :
      (o : Option PathPattern) (t : Tape)
      → grade_of (path_params_of pf rt r o) (add_scores pf rt 3 criteria r t) ≡ graded o t
  unfolding extract_params sum_scores
  grade_of-graded none t = refl
  grade_of-graded (some p) t =
      rw (add_scores-eq 3 criteria t) (elim (Option-cases (p.re r.url.path)) [
        | inl e ↦
            let unmatched : matches_path p r.url.path ≡ false = ap is_match e in
            rw (e, unmatched) refl
        | inr (groups, e) ↦
            let matched : matches_path p r.url.path ≡ true = ap is_match e in
            rw (e, matched)
              (elim (Bool-cases (accepts_all pf criteria r t)) [
                | inl a ↦ rw a refl
                | inr a ↦ rw a refl
              ])
      ])
    where
      is_match : Option (List (Text × Text)) → Bool
      is_match none = false
      is_match (some groups) = true

  -- The exemplar has a higher grade than each before it and no lower one than any after it.
  pub record IsBestMatch (exemplars : List Tape) (m : ExemplarMatch) : Type 0 where
    pub before : List Tape
    pub after : List Tape
    pub split : exemplars ≡ before ++ m.tape ∷ after
    pub positive : 0 < grade m.tape
    pub earlier : All (λ u. grade u < grade m.tape) before
    pub later : All (λ u. grade u ≤ grade m.tape) after

  abbrev pub IsMatch : List Tape → Option ExemplarMatch → Type 0
  IsMatch exemplars none = All (λ u. grade u ≡ 0) exemplars
  IsMatch exemplars (some m) = IsBestMatch exemplars m

  -- the match of a round carries the grade and the index
  abbrev Round : ℕ → Tape → ℕ → Option ExemplarMatch → Type 0
  Round i exemplar n none = n ≡ 0
  Round i exemplar n (some m) =
      (m.tape ≡ exemplar) × (m.score ≡ n) × (m.decl_order ≡ i) × (0 < m.score)

  abbrev AtLeast : ℕ → Option ℕ → Type 0
  AtLeast total none = Unit
  AtLeast total (some n) = total ≤ n

  AtLeast-mono : (a b : ℕ) (o : Option ℕ) → a ≤ b → AtLeast b o → AtLeast a o
  AtLeast-mono a b none le h = tt
  AtLeast-mono a b (some n) le h = omega arith

  add_scores-AtLeast :
      (total : ℕ) (cs : List Criterion) (t : Tape) → AtLeast total (add_scores pf rt total cs r t)
  unfolding add_scores
  add_scores-AtLeast total [] t = omega arith
  add_scores-AtLeast total (c ∷ cs) t =
      let n = score pf c r t in
      if_both (AtLeast total) (nat_beq n 0) tt
        (AtLeast-mono total (total + n) _ (omega arith) (add_scores-AtLeast (total + n) cs t))

  scored-Round :
      (i : ℕ) (t : Tape) (p : Option (Option (List (Text × Text)))) (o : Option ℕ)
      → AtLeast 3 o
      → Round i t (grade_of p o) (scored pf rt i t p o)
  scored-Round i t none o h = refl
  scored-Round i t (some params) none h = refl
  scored-Round i t (some params) (some total) h = (refl, refl, refl, omega arith)

  exemplar_match-Round :
      (i : ℕ) (t : Tape) → Round i t (grade t) (exemplar_match pf rt criteria r i t)
  unfolding grade
  exemplar_match-Round i t =
      let o = new_path_pattern rt t.request.url_pattern in
      subst (λ n. Round i t n (exemplar_match pf rt criteria r i t)) (grade_of-graded o t)
        (unfold exemplar_match in
          scored-Round i t (path_params_of pf rt r o) (add_scores pf rt 3 criteria r t)
            (add_scores-AtLeast 3 criteria t))

  -- what the loop knows after the exemplars `seen`
  unfoldable pub Found : List Tape → Option ExemplarMatch → Type 0
  Found seen none = All (λ u. grade u ≡ 0) seen
  Found seen (some m) = IsBestMatch seen m × (m.score ≡ grade m.tape) × (m.decl_order < length seen)

  Found-bound :
      (seen : List Tape) (m : ExemplarMatch)
      → IsBestMatch seen m
      → All (λ u. grade u ≤ grade m.tape) seen
  Found-bound seen m b = subst (All (λ u. grade u ≤ grade m.tape)) (sym b.split) (
      All-append (λ u. grade u ≤ grade m.tape) b.before (m.tape ∷ b.after)
        (All-imp _ (λ u. grade u ≤ grade m.tape) b.before (λ u e. omega arith) b.earlier)
        (omega arith, b.later))

  -- a new exemplar is the best, or the best so far stays it
  IsBestMatch-new :
      (seen : List Tape) (m : ExemplarMatch)
      → All (λ u. grade u < grade m.tape) seen
      → 0 < grade m.tape
      → IsBestMatch (seen ++ m.tape ∷ []) m
  IsBestMatch-new seen m less h = record {
    before = seen;
    after = [];
    split = refl;
    positive = h;
    earlier = less;
    later = tt;
  }

  IsBestMatch-keep :
      (seen : List Tape) (m : ExemplarMatch) (t : Tape)
      → IsBestMatch seen m
      → grade t ≤ grade m.tape
      → IsBestMatch (seen ++ t ∷ []) m
  IsBestMatch-keep seen m t b le = record {
    before = b.before;
    after = b.after ++ t ∷ [];
    split = ap (λ s. s ++ t ∷ []) b.split ∙ append_assoc b.before (m.tape ∷ b.after) (t ∷ []);
    positive = b.positive;
    earlier = b.earlier;
    later = All-append (λ u. grade u ≤ grade m.tape) b.after (t ∷ []) b.later (le, tt);
  }

  keep_better-Found :
      (seen : List Tape) (best : Option ExemplarMatch) (t : Tape) (o : Option ExemplarMatch)
      → Found seen best
      → Round (length seen) t (grade t) o
      → Found (seen ++ t ∷ []) (keep_better pf rt best o)
  unfolding Found
  keep_better-Found seen none t none h e = All-append (λ u. grade u ≡ 0) seen (t ∷ []) h (e, tt)
  keep_better-Found seen (some best) t none (b, s, at) e = (
    IsBestMatch-keep seen best t b (omega (arith, e)),
    s,
    omega (arith, length-append seen (t ∷ [])),
  )
  keep_better-Found seen none t (some m) h (same, s, at, more) =
      let own : m.score ≡ grade m.tape = s ∙ ap grade (sym same) in
      (
        subst (λ u. IsBestMatch (seen ++ u ∷ []) m) same
            (IsBestMatch-new seen m
              (All-imp _ (λ u. grade u < grade m.tape) seen (λ u e. omega (arith, own)) h)
              (omega (arith, own))),
        own,
        omega (arith, at, length-append seen (t ∷ [])),
      )
  keep_better-Found seen (some best) t (some m) (b, s, at) (same, s', at', more) =
      let own : m.score ≡ grade m.tape = s' ∙ ap grade (sym same) in
      elim (Bool-cases (ltb best.score m.score)) [
        | inl higher ↦
            let lt : best.score < m.score = ground arith in
            rw higher (
              subst (λ u. IsBestMatch (seen ++ u ∷ []) m) same
                  (IsBestMatch-new seen m
                    (All-imp _ (λ u. grade u < grade m.tape) seen (λ u e. omega (arith, own))
                      (Found-bound seen best b))
                    (omega (arith, own))),
              own,
              omega (arith, at', length-append seen (t ∷ [])),
            )
        | inr not_higher ↦
            let late : ltb m.decl_order best.decl_order ≡ false = ground arith in
            let le : m.score ≤ best.score = ground arith in
            let order : nat_beq m.score best.score && ltb m.decl_order best.decl_order ≡ false =
              ground arith in
            rw (not_higher, order)
              (
                IsBestMatch-keep seen best t b (omega (arith, s, s')),
                s,
                omega (arith, length-append seen (t ∷ [])),
              )
      ]

  pub match_exemplar_from-Found :
      (seen exemplars : List Tape) (best : Option ExemplarMatch)
      → Found seen best
      → Found
          (seen ++ exemplars)
          (match_exemplar_from pf rt criteria r (length seen) best exemplars)
  unfolding match_exemplar_from
  match_exemplar_from-Found seen [] best h = subst (λ l. Found l best) (sym (append-nil seen)) h
  match_exemplar_from-Found seen (t ∷ exemplars) best h =
      let best' = keep_better pf rt best (exemplar_match pf rt criteria r (length seen) t) in
      let more : length (seen ++ t ∷ []) ≡ suc (length seen) =
        omega (arith, length-append seen (t ∷ [])) in
      let rest =
        match_exemplar_from-Found (seen ++ t ∷ []) exemplars best'
          (keep_better-Found seen best t _ h (exemplar_match-Round (length seen) t)) in
      subst
        (λ n.
          Found (seen ++ t ∷ exemplars) (match_exemplar_from pf rt criteria r n best' exemplars))
        more
        (subst
          (λ l.
            Found l
              (match_exemplar_from pf rt criteria r (length (seen ++ t ∷ [])) best' exemplars))
          (append_assoc seen (t ∷ []) exemplars) rest)

  pub Found-IsMatch :
      (seen : List Tape) (best : Option ExemplarMatch) → Found seen best → IsMatch seen best
  unfolding Found
  Found-IsMatch seen none h = h
  Found-IsMatch seen (some m) h = h.0
