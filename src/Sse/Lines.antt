-- ===== src/Sse/Lines.antt =====
-- Scanning what was printed line by line.
use httptape.Prelude.{
  ℕ, zero, suc, ◌+◌, ◌<◌, Text, ◌≡◌, ◌≢◌, refl, ap, ◌∙◌, false, List, [], ◌∷◌, ◌++◌, All, length,
  nat_beq, leb, arith, join, split_at, split_byte, Bool-cases, inl, inr, All-imp,
}
use mathlib.Core.List.{reverse, reverse-cons, append_assoc, append-nil}
use httptape.Sse.{max_token, drop_cr, Scanned, with_line, scan_from, scan_lines, put_lines}

-- Bytes of a line: no newline, no carriage return.
abbrev pub IsPlain : Text → Type 0
IsPlain s = All (λ c. (c ≢ 10) × (c ≢ 13)) s

abbrev pub IsLine : Text → Type 0
IsLine s = IsPlain s × (length s < max_token)

abbrev pub with_lines : List Text → Scanned → Scanned
with_lines ls (lines, too_long) = (ls ++ lines, too_long)

drop_cr_plain : (p : Text) → IsPlain p → drop_cr p ≡ p
drop_cr_plain [] h = refl
drop_cr_plain (c ∷ s) h = ground arith

scan_from-line :
    (line rest pending : Text)
    → IsPlain line
    → IsPlain pending
    → length pending + length line < max_token
    → scan_from pending (length pending) (line ++ (10 ∷ rest))
      ≡ with_line (reverse pending ++ line) (scan_from [] 0 rest)
unfolding scan_from
scan_from-line [] rest pending h k lt = rw (drop_cr_plain pending k, append-nil)
scan_from-line (c ∷ line) rest pending h k lt =
    let other : nat_beq c 10 ≡ false = ground (arith, h.0.0) in
    let fits : leb max_token (suc (length pending)) ≡ false = ground arith in
    rw (other, fits)
      (scan_from-line line rest (c ∷ pending) h.1 (h.0, k) (omega arith)
        ∙ ap (λ l. with_line l (scan_from [] 0 rest))
            (ap (λ l. l ++ line) (reverse-cons c pending)
              ∙ append_assoc (reverse pending) (c ∷ []) line))

scan_lines-cons :
    (line rest : Text)
    → IsLine line
    → scan_lines (line ++ (10 ∷ rest)) ≡ with_line line (scan_lines rest)
unfolding scan_lines
scan_lines-cons line rest (plain, short) = scan_from-line line rest [] plain tt (omega arith)

-- Lines that were printed are scanned back, and what follows is scanned as if it stood alone.
pub scan_lines-put_lines :
    (lines : List Text) (rest : Text)
    → All IsLine lines
    → scan_lines (put_lines lines ++ rest) ≡ with_lines lines (scan_lines rest)
unfolding put_lines
scan_lines-put_lines [] rest h = refl
scan_lines-put_lines (line ∷ lines) rest (ok, oks) = rw append_assoc (
    scan_lines-cons line (put_lines lines ++ rest) ok
    ∙ ap (with_line line) (scan_lines-put_lines lines rest oks))

split_byte-ne-nil : (sep c : ℕ) (ws : List Text) → ws ≢ [] → split_byte sep c ws ≢ []
unfolding split_byte
split_byte-ne-nil sep c [] h = absurd (h refl)
split_byte-ne-nil sep c (w ∷ ws) h = ground arith

pub split_at-ne-nil : (sep : ℕ) (s : Text) → split_at sep s ≢ []
unfolding split_at
split_at-ne-nil sep [] = cc
split_at-ne-nil sep (c ∷ s) = split_byte-ne-nil sep c (split_at sep s) (split_at-ne-nil sep s)

join-split_byte :
    (sep c : ℕ) (ws : List Text) → ws ≢ [] → join sep (split_byte sep c ws) ≡ c ∷ join sep ws
unfolding join split_byte
join-split_byte sep c [] h = absurd (h refl)
join-split_byte sep c (w ∷ []) h = ground arith
join-split_byte sep c (w ∷ v ∷ ws) h = ground arith

-- splitting at a separator and joining again
pub join-split_at : (sep : ℕ) (s : Text) → join sep (split_at sep s) ≡ s
unfolding split_at
join-split_at sep [] = unfold join in refl
join-split_at sep (c ∷ s) =
    join-split_byte sep c (split_at sep s) (split_at-ne-nil sep s)
    ∙ ap (λ t. c ∷ t) (join-split_at sep s)

-- no part of a split has the separator, and what holds of all bytes holds in each part
pub split_at-All :
    (P : ℕ → Type 0) (sep : ℕ) (s : Text)
    → All P s
    → All (λ w. All (λ c. (c ≢ sep) × P c) w) (split_at sep s)
unfolding split_at
split_at-All P sep [] h = (tt, tt)
split_at-All P sep (c ∷ s) h = split_byte_all (split_at sep s) (split_at-All P sep s h.1)
  where
    split_byte_all :
        (ws : List Text)
        → All (λ w. All (λ d. (d ≢ sep) × P d) w) ws
        → All (λ w. All (λ d. (d ≢ sep) × P d) w) (split_byte sep c ws)
    split_byte_all [] k = k
    split_byte_all (w ∷ ws) k = elim (Bool-cases (nat_beq c sep)) [
      | inl same ↦ rw same (tt, k)
      | inr other ↦ rw other (((ground arith, h.0), k.0), k.1)
    ]

-- no part is longer than the whole
pub split_at_short :
    (sep n : ℕ) (s : Text) → length s < n → All (λ w. length w < n) (split_at sep s)
unfolding split_at
split_at_short sep n [] h = (omega arith, tt)
split_at_short sep zero (c ∷ s) h = absurd (omega arith)
split_at_short sep (suc n) (c ∷ s) h =
    longer (split_at sep s) (split_at_short sep n s (omega arith))
  where
    longer :
        (ws : List Text)
        → All (λ w. length w < n) ws
        → All (λ w. length w < suc n) (split_byte sep c ws)
    longer [] k = k
    longer (w ∷ ws) k = elim (Bool-cases (nat_beq c sep)) [
      | inl same ↦ rw same (
        omega arith,
        (omega arith, All-imp _ (λ u. length u < suc n) ws (λ u e. omega arith) k.1),
      )
      | inr other ↦
          rw other (omega arith, All-imp _ (λ u. length u < suc n) ws (λ u e. omega arith) k.1)
    ]
