-- ===== src/Templating/Scanning.antt =====
-- What `scanTemplateExprs` finds: each expression from its opening to the closing that balances it.
use httptape.Prelude.{
  ℕ, zero, suc, ◌+◌, ◌-◌, ◌≤◌, Text, ◌≡◌, refl, sym, ap, ◌∙◌, ◌⊎◌, inl, inr, none, some, List, [],
  ◌∷◌, ◌++◌, length, take, drop, length-drop, drop-drop, take-append_left, drop-append_left, arith,
  Option-cases,
}
use httptape.MediaType.{trim_space}
use httptape.Templating.{
  TemplateExpr, index_open, find_close, find_matching_close, expr_at, scan_from,
  scan_template_exprs,
}
use mathlib.Core.Path.{subst}
use httptape.Templating.Balance.{
  nesting, NoOpening, NotClosed, index_open-split, index_open-NoOpening, find_close-split,
  find_close-closed,
}

-- From `pos` on, `e` is the first opening with all up to the closing that balances it.
pub record IsExpr (src : Text) (pos : ℕ) (e : TemplateExpr) : Type 0 where
  pub before : Text
  pub inner : Text
  pub after : Text
  pub split : drop pos src ≡ before ++ b'{' ∷ b'{' ∷ (inner ++ b'}' ∷ b'}' ∷ after)
  pub first : NoOpening (before ++ b'{' ∷ [])
  pub balanced : nesting 0 inner ≡ some 0
  pub raw : e.raw ≡ trim_space inner
  pub start : e.start ≡ pos + length before
  pub end : e.end ≡ e.start + 4 + length inner
  pub rest : drop e.end src ≡ after

-- The expressions follow each other, and behind the last there is no opening, or no closing balances the
-- first one.
abbrev pub IsScan : Text → ℕ → List TemplateExpr → Type 0
IsScan src pos [] =
    NoOpening (drop pos src)
    ⊎ ((before tail : Text) × (drop pos src ≡ before ++ b'{' ∷ b'{' ∷ tail)
        × NoOpening (before ++ b'{' ∷ [])
        × NotClosed tail)
IsScan src pos (e ∷ es) = IsExpr src pos e × IsScan src e.end es

-- behind the two bytes that follow `before`
drop_past :
    (pos k c d : ℕ) (src before rest : Text)
    → drop pos src ≡ before ++ c ∷ d ∷ rest
    → k ≡ pos + length before + 2
    → drop k src ≡ rest
drop_past pos k c d src before rest split e =
    let index : pos + (length before + 2) ≡ k = omega (arith, e) in
    ap (λ n. drop n src) (sym index)
    ∙ sym (drop-drop (length before + 2) pos src)
    ∙ ap (drop (length before + 2)) split
    ∙ sym (drop-drop 2 (length before) (before ++ c ∷ d ∷ rest))
    ∙ ap (drop 2) (drop-append_left (length before) before (c ∷ d ∷ rest) refl)

-- The expression that a round finds.
expr_at-IsExpr :
    (src : Text) (pos i close_idx : ℕ)
    → index_open (drop pos src) ≡ some i
    → find_matching_close src (i + pos) ≡ some close_idx
    → IsExpr src pos (expr_at src (i + pos) close_idx)
unfolding find_matching_close
expr_at-IsExpr src pos i close_idx found closed =
    let (before, tail, split, len, first) = index_open-split (drop pos src) i found in
    let beyond : drop (i + pos + 2) src ≡ tail =
      drop_past pos (i + pos + 2) b'{' b'{' src before tail split (omega (arith, len)) in
    let (inner, after, split', at, nested) =
      find_close-split 0 1 (i + pos + 2) close_idx tail refl
        (subst (λ s. find_close 1 (i + pos + 2) s ≡ some close_idx) beyond closed) in
    record {
      before = before;
      inner = inner;
      after = after;
      split = split ∙ ap (λ u. before ++ b'{' ∷ b'{' ∷ u) split';
      first = index_open-NoOpening (before ++ b'{' ∷ []) first;
      balanced = nested;
      raw =
          ap (λ s. trim_space (take (close_idx - (i + pos + 2)) s)) (beyond ∙ split')
          ∙ ap trim_space
              (take-append_left (close_idx - (i + pos + 2)) inner _ (omega (arith, at)));
      start = omega (arith, len);
      end = omega (arith, at);
      rest =
          drop_past (i + pos + 2) (close_idx + 2) b'}' b'}' src inner after (beyond ∙ split')
            (omega (arith, at));
    }

unclosed-NotClosed :
    (src : Text) (pos i : ℕ)
    → index_open (drop pos src) ≡ some i
    → find_matching_close src (i + pos) ≡ none
    → (before tail : Text) × (drop pos src ≡ before ++ b'{' ∷ b'{' ∷ tail)
      × NoOpening (before ++ b'{' ∷ [])
      × NotClosed tail
unfolding find_matching_close
unclosed-NotClosed src pos i found unclosed =
    let (before, tail, split, len, first) = index_open-split (drop pos src) i found in
    let beyond : drop (i + pos + 2) src ≡ tail =
      drop_past pos (i + pos + 2) b'{' b'{' src before tail split (omega (arith, len)) in
    (
      before,
      tail,
      split,
      index_open-NoOpening (before ++ b'{' ∷ []) first,
      λ inner after split' nested.
          let (p, closed) = find_close-closed 0 1 (i + pos + 2) inner after refl nested in
          let lost : find_close 1 (i + pos + 2) (inner ++ b'}' ∷ b'}' ∷ after) ≡ none =
            subst (λ s. find_close 1 (i + pos + 2) s ≡ none) (beyond ∙ split') unclosed in
          absurd (cc (lost, closed)),
    )

index_open-end : (s : Text) → length s ≡ 0 → index_open s ≡ none
unfolding index_open
index_open-end [] h = refl
index_open-end (c ∷ s) h = absurd (omega (arith, h))

scan_from-IsScan :
    (fuel pos : ℕ) (src : Text) → length src ≤ fuel + pos → IsScan src pos (scan_from fuel pos src)
unfolding scan_from
scan_from-IsScan zero pos src h = inl (
    index_open-NoOpening (drop pos src)
      (index_open-end (drop pos src) (omega (arith, length-drop pos src))))
scan_from-IsScan (suc fuel) pos src h = elim (Option-cases (index_open (drop pos src))) [
  | inl lacks ↦ rw (lacks, scan_from) (inl (index_open-NoOpening (drop pos src) lacks))
  | inr (i, found) ↦ elim (Option-cases (find_matching_close src (i + pos))) [
    | inl unclosed ↦
        rw (found, unclosed, scan_from) (inr (unclosed-NotClosed src pos i found unclosed))
    | inr (close_idx, closed) ↦
        let e = expr_at-IsExpr src pos i close_idx found closed in
        rw (found, closed, scan_from)
          (e, scan_from-IsScan fuel (close_idx + 2) src (omega (arith, e.start, e.end)))
  ]
]

-- The scan gives, in their order, the expressions of the text: each begins at the first opening that follows the
-- one before it, ends with a closing that balances it, and has the trimmed text between them; behind the last
-- there is no opening, or one that no closing behind it balances.
pub scan_template_exprs-IsScan : (src : Text) → IsScan src 0 (scan_template_exprs src)
unfolding scan_template_exprs
scan_template_exprs-IsScan src = scan_from-IsScan (length src) 0 src (omega arith)
