-- ===== src/Server/Exemplars.antt =====
-- `matchExemplar` chooses the first of the best exemplars, and a server without synthesis none.
use httptape.Prelude.{
  ◌≡◌, refl, sym, ap, Bool, true, false, not, Option, none, some, List, [], ◌∷◌, keep, All,
  Option-cases, ◌⊎◌, inl, inr, ◌&&◌, if◌then◌else◌, is_empty, Text,
}
use mathlib.Core.Path.{subst}
use httptape.Platform.{Platform, Runtime}
use httptape.Tape.{Tape}
use httptape.Matcher.{
  Request, Criterion, method_criterion, path_criterion, query_params_criterion, body_hash_criterion,
  content_negotiation_criterion, path_regex_criterion, path_pattern_criterion, route_criterion,
  headers_criterion, body_fuzzy_criterion, custom_criterion, composite_match,
}
use httptape.Matcher.Best.{IsAnswer, total_score, composite_match-IsAnswer}
use httptape.Server.{
  Server, Matcher, composite_matcher, other_matcher, other_criteria, match_exemplar_from,
  ExemplarMatch, of_match, match_exemplar, match_tapes, find_tape,
}
use httptape.Server.Grades.{
  grade, IsBestMatch, IsMatch, Found, match_exemplar_from-Found, Found-IsMatch,
}

-- the criteria without those that look at the path
unfoldable pub pathless : List Criterion → List Criterion
pathless [] = []
pathless (path_criterion ∷ criteria) = pathless criteria
pathless (path_regex_criterion re ∷ criteria) = pathless criteria
pathless (path_pattern_criterion p ∷ criteria) = pathless criteria
pathless (c ∷ criteria) = c ∷ pathless criteria

-- a matcher of another kind has no criteria
abbrev pub pathless_of : Matcher → List Criterion
pathless_of (composite_matcher criteria) = pathless criteria
pathless_of (other_matcher f) = []

other_criteria-pathless :
    (criteria : List Criterion) → other_criteria (composite_matcher criteria) ≡ pathless criteria
unfolding other_criteria pathless
other_criteria-pathless [] = refl
other_criteria-pathless (method_criterion ∷ cs) =
    ap (λ l. method_criterion ∷ l) (other_criteria-pathless cs)
other_criteria-pathless (path_criterion ∷ cs) = other_criteria-pathless cs
other_criteria-pathless (query_params_criterion ∷ cs) =
    ap (λ l. query_params_criterion ∷ l) (other_criteria-pathless cs)
other_criteria-pathless (body_hash_criterion ∷ cs) =
    ap (λ l. body_hash_criterion ∷ l) (other_criteria-pathless cs)
other_criteria-pathless (content_negotiation_criterion ∷ cs) =
    ap (λ l. content_negotiation_criterion ∷ l) (other_criteria-pathless cs)
other_criteria-pathless (path_regex_criterion re ∷ cs) = other_criteria-pathless cs
other_criteria-pathless (path_pattern_criterion p ∷ cs) = other_criteria-pathless cs
other_criteria-pathless (route_criterion route ∷ cs) =
    ap (λ l. route_criterion route ∷ l) (other_criteria-pathless cs)
other_criteria-pathless (headers_criterion key value ∷ cs) =
    ap (λ l. headers_criterion key value ∷ l) (other_criteria-pathless cs)
other_criteria-pathless (body_fuzzy_criterion paths ∷ cs) =
    ap (λ l. body_fuzzy_criterion paths ∷ l) (other_criteria-pathless cs)
other_criteria-pathless (custom_criterion f ∷ cs) =
    ap (λ l. custom_criterion f ∷ l) (other_criteria-pathless cs)

other_criteria-pathless_of : (m : Matcher) → other_criteria m ≡ pathless_of m
other_criteria-pathless_of (composite_matcher criteria) = other_criteria-pathless criteria
other_criteria-pathless_of (other_matcher f) = unfold other_criteria in refl

module _ (pf : Platform) (rt : Runtime) (s : Server) (r : Request) where
  -- The server chooses the first of the exemplars whose pattern matches the path and that score
  -- highest with the criteria of the matcher that look at no path, none of which may eliminate it; there is
  -- none exactly when no exemplar matches so.
  pub match_exemplar-IsMatch :
      (exemplars : List Tape)
      → IsMatch pf rt (pathless_of s.matcher) r exemplars (match_exemplar pf rt s r exemplars)
  unfolding match_exemplar
  match_exemplar-IsMatch exemplars =
      subst
        (λ criteria.
          IsMatch pf rt criteria r exemplars
            (match_exemplar_from pf rt (other_criteria s.matcher) r 0 none exemplars))
        (other_criteria-pathless_of s.matcher)
        (Found-IsMatch pf rt (other_criteria s.matcher) r exemplars _ (
          match_exemplar_from-Found pf rt (other_criteria s.matcher) r [] exemplars none
            (unfold Found in tt)))

  abbrev exact_tapes : List Tape → List Tape
  exact_tapes tapes = keep (λ (t : Tape). not t.exemplar) tapes

  abbrev exemplar_tapes : List Tape → List Tape
  exemplar_tapes tapes = keep (λ (t : Tape). t.exemplar) tapes

  -- What a server with a composite matcher may answer with.
  abbrev pub IsFound :
      List Criterion → List Tape → Option (Tape × Option (List (Text × Text))) → Type 0
  IsFound criteria tapes none =
      All (λ u. total_score pf criteria r u ≡ 0) (exact_tapes tapes)
      × ((s.synthesis ≡ false)
          ⊎ All (λ u. grade pf rt (pathless_of s.matcher) r u ≡ 0) (exemplar_tapes tapes))
  IsFound criteria tapes (some (t, params)) =
      IsAnswer pf criteria r (exact_tapes tapes) (some t)
      ⊎ (All (λ u. total_score pf criteria r u ≡ 0) (exact_tapes tapes)
          × (s.synthesis ≡ true)
          × (m : ExemplarMatch) × IsBestMatch pf rt (pathless_of s.matcher) r (exemplar_tapes tapes)
              m
          × (m.tape ≡ t)
          × (m.params ≡ params))

  exemplars_of_empty : (exs : List Tape) → is_empty exs ≡ true → exs ≡ []
  exemplars_of_empty [] h = refl
  exemplars_of_empty (t ∷ exs) h = absurd cc

  find_tape-IsFound_exemplar :
      (criteria : List Criterion) (tapes : List Tape) (o : Option ExemplarMatch)
      → All (λ u. total_score pf criteria r u ≡ 0) (exact_tapes tapes)
      → s.synthesis ≡ true
      → IsMatch pf rt (pathless_of s.matcher) r (exemplar_tapes tapes) o
      → IsFound criteria tapes (elim o [ none ↦ none | some m ↦ some (of_match pf rt m) ])
  find_tape-IsFound_exemplar criteria tapes none zero_scores on h = (zero_scores, inr h)
  find_tape-IsFound_exemplar criteria tapes (some m) zero_scores on h =
      inr (zero_scores, on, m, h, refl, refl)

  second_phase :
      (criteria : List Criterion) (tapes : List Tape) (on no_exemplars : Bool)
      → s.synthesis ≡ on
      → is_empty (exemplar_tapes tapes) ≡ no_exemplars
      → All (λ u. total_score pf criteria r u ≡ 0) (exact_tapes tapes)
      → IsFound criteria tapes (
          if on && not no_exemplars
          then elim (match_exemplar pf rt s r (exemplar_tapes tapes)) [
            | none ↦ none
            | some m ↦ some (of_match pf rt m)
          ]
          else none)
  second_phase criteria tapes false no_exemplars e empty zero_scores = (zero_scores, inl e)
  second_phase criteria tapes true true e empty zero_scores = (
    zero_scores,
    inr (
        subst (All (λ u. grade pf rt (pathless_of s.matcher) r u ≡ 0))
          (sym (exemplars_of_empty (exemplar_tapes tapes) empty)) tt),
  )
  second_phase criteria tapes true false e empty zero_scores =
      find_tape-IsFound_exemplar criteria tapes (match_exemplar pf rt s r (exemplar_tapes tapes))
        zero_scores e (match_exemplar-IsMatch (exemplar_tapes tapes))

  -- A server with a composite matcher answers with the matcher's choice among the tapes that are no exemplars. Only if
  -- that has none and synthesis is on it answers with the best exemplar, and with nothing if there is no such either.
  pub find_tape-IsFound :
      (criteria : List Criterion) (tapes : List Tape)
      → s.matcher ≡ composite_matcher criteria
      → IsFound criteria tapes (find_tape pf rt s r tapes)
  unfolding find_tape match_tapes
  find_tape-IsFound criteria tapes e =
      let exact = exact_tapes tapes in
      let exs = exemplar_tapes tapes in
      let same : match_tapes pf rt s.matcher r exact ≡ composite_match pf criteria r exact =
        ap (λ m. match_tapes pf rt m r exact) e in
      let answer =
        subst (IsAnswer pf criteria r exact) (sym same)
          (composite_match-IsAnswer pf criteria r exact) in
      elim (Option-cases (match_tapes pf rt s.matcher r exact)) [
        | inr (t, found) ↦
            rw (found, find_tape) (inl (subst (IsAnswer pf criteria r exact) found answer))
        | inl lost ↦
            let zero_scores = subst (IsAnswer pf criteria r exact) lost answer in
            rw (lost, find_tape) (second_phase criteria tapes s.synthesis _ refl refl zero_scores)
      ]
