-- ===== src/Bundle/Names.antt =====
-- Which names of archive entries an import accepts.
use httptape.Prelude.{
  ℕ, suc, ◌-◌, ◌<◌, ◌≡◌, ◌≢◌, ◌↔◌, refl, ap, ◌∙◌, Text, codes, Bool, true, false, ◌||◌, none, some,
  List, [], ◌∷◌, ◌++◌, length, any, All, All-imp, All-append, is_empty, text_beq, arith,
  if◌then◌else◌, ◌==◌, text_eq, eq_iff, eq_refl, if_both, Bool-cases, inl, inr, split_at,
  split_byte, join, contains_byte,
}
use mathlib.Core.List.{reverse, reverse-cons}
use httptape.Bundle.{
  has_prefix, parent_of, enter, clean_stack, clean, unless_empty, validate_entry_name,
  absolute_path, backslash, path_traversal,
}
use httptape.Sse.Lines.{split_at-All, split_at-ne-nil}
use native.Mathlib.Numerals.{unary_clauses}

abbrev pub is_parent : Text → Bool
is_parent segment = segment == codes ".."

-- A walk along the elements of a path, `depth` directories below the start, never leaves it.
abbrev pub StaysInside : (depth : ℕ) → List Text → Type 0
StaysInside depth [] = Unit
StaysInside depth (segment ∷ segments) =
    if is_empty segment || segment == codes "."
    then StaysInside depth segments
    else if is_parent segment
    then (0 < depth) × StaysInside (depth - 1) segments
    else StaysInside (suc depth) segments

-- once the start was left, it shows in the cleaned path
left_stays :
    (stack segments : List Text)
    → any is_parent stack ≡ true
    → any is_parent (clean_stack stack segments) ≡ true
unfolding clean_stack
left_stays stack [] h = h
left_stays stack (segment ∷ segments) h =
    left_stays (enter segment stack) segments (entered stack h)
  where
    entered : (st : List Text) → any is_parent st ≡ true → any is_parent (enter segment st) ≡ true
    entered [] k = absurd (ground arith)
    entered (s ∷ st) k = ground (arith, eq_iff segment (codes ".."), eq_iff s (codes ".."))

-- going up from a path that stayed inside
up_inside :
    (stack segments : List Text)
    → any is_parent stack ≡ false
    → ((rest : List Text)
        → any is_parent rest ≡ false
        → (any is_parent (clean_stack rest segments) ≡ false) ↔ StaysInside (length rest) segments)
    → (any is_parent (clean_stack (parent_of stack) segments) ≡ false)
      ↔ ((0 < length stack) × StaysInside (length stack - 1) segments)
up_inside [] segments h ih = (
  λ k.
      absurd
        (ground (arith, left_stays (codes ".." ∷ []) segments (rw (eq_refl (codes "..")) refl))),
  λ k. absurd (omega arith),
)
up_inside (s ∷ stack) segments h ih =
    let proper : is_parent s ≡ false = ground arith in
    let below : any is_parent stack ≡ false = ground arith in
    simp unary_clauses
      (rw proper (λ k. (omega arith, (ih stack below).0 k), λ k. (ih stack below).1 k.1))

clean_stack-inside :
    (segments stack : List Text)
    → any is_parent stack ≡ false
    → (any is_parent (clean_stack stack segments) ≡ false) ↔ StaysInside (length stack) segments
unfolding clean_stack
clean_stack-inside [] stack h = (λ k. tt, λ k. h)
clean_stack-inside (segment ∷ segments) stack h =
    elim (Bool-cases (is_empty segment || segment == codes ".")) [
      | inl e ↦ rw e (clean_stack-inside segments stack h)
      | inr e ↦ elim (Bool-cases (is_parent segment)) [
        | inl parent ↦
            rw (e, parent)
              (up_inside stack segments h (λ rest k. clean_stack-inside segments rest k))
        | inr other ↦
            let pushed : any is_parent (segment ∷ stack) ≡ false = rw other h in
            rw (e, other) (clean_stack-inside segments (segment ∷ stack) pushed)
      ]
    ]

-- No element of a cleaned path has a slash, or is empty.
abbrev IsElement : Text → Type 0
IsElement s = All (λ c. c ≢ b'/') s × (s ≢ [])

filled : (s : Text) → (is_empty s || s == codes ".") ≡ false → s ≢ []
filled [] e q = absurd (ground arith)
filled (c ∷ s) e q = absurd (cc)

clean_stack-IsElement :
    (segments stack : List Text)
    → All (λ s. All (λ c. c ≢ b'/') s) segments
    → All IsElement stack
    → All IsElement (clean_stack stack segments)
unfolding clean_stack
clean_stack-IsElement [] stack h k = k
clean_stack-IsElement (segment ∷ segments) stack h k =
    clean_stack-IsElement segments (enter segment stack) h.1 (entered stack k)
  where
    popped : (st : List Text) → All IsElement st → All IsElement (parent_of st)
    popped [] j = ((omega arith, cc), tt)
    popped (s ∷ st) j = if_both (All IsElement) (s == codes "..") ((omega arith, cc), j) j.1

    entered : (st : List Text) → All IsElement st → All IsElement (enter segment st)
    entered st j = elim (Bool-cases (is_empty segment || segment == codes ".")) [
      | inl e ↦ rw e j
      | inr e ↦ rw e (
          if_both (All IsElement) (segment == codes "..") (popped st j)
            ((h.0, filled segment e), j))
    ]

split_byte_lem : (sep : ℕ) (ws : List Text) → ws ≢ [] → split_byte sep sep ws ≡ [] ∷ ws
unfolding split_byte
split_byte_lem sep [] h = absurd (h refl)
split_byte_lem sep (w ∷ ws) h = ground arith

split_at-append :
    (sep : ℕ) (w rest : Text)
    → All (λ c. c ≢ sep) w
    → split_at sep (w ++ (sep ∷ rest)) ≡ w ∷ split_at sep rest
unfolding split_at split_byte
split_at-append sep [] rest h = split_byte_lem sep (split_at sep rest) (split_at-ne-nil sep rest)
split_at-append sep (c ∷ w) rest h = rw (split_at-append sep w rest h.1) (ground (arith, h.0))

split_at_single : (sep : ℕ) (w : Text) → All (λ c. c ≢ sep) w → split_at sep w ≡ w ∷ []
unfolding split_at split_byte
split_at_single sep [] h = refl
split_at_single sep (c ∷ w) h = rw (split_at_single sep w h.1) (ground (arith, h.0))

split_at-join :
    (sep : ℕ) (w : Text) (ws : List Text)
    → All (λ s. All (λ c. c ≢ sep) s) (w ∷ ws)
    → split_at sep (join sep (w ∷ ws)) ≡ w ∷ ws
unfolding join
split_at-join sep w [] h = split_at_single sep w h.0
split_at-join sep w (v ∷ ws) h =
    split_at-append sep w (join sep (v ∷ ws)) h.0 ∙ ap (λ l. w ∷ l) (split_at-join sep v ws h.1)

any-append : (p : Text → Bool) (xs ys : List Text) → any p (xs ++ ys) ≡ (any p xs || any p ys)
any-append p [] ys = refl
any-append p (x ∷ xs) ys = ground (arith, any-append p xs ys)

any-reverse : (p : Text → Bool) (xs : List Text) → any p (reverse xs) ≡ any p xs
any-reverse p [] = refl
any-reverse p (x ∷ xs) =
    rw (reverse-cons x xs, any-append p (reverse xs) (x ∷ []), any-reverse p xs) (ground arith)

All-reverse : (P : Text → Type 0) (xs : List Text) → All P xs → All P (reverse xs)
All-reverse P [] h = tt
All-reverse P (x ∷ xs) h =
    rw (reverse-cons x xs) (All-append P (reverse xs) (x ∷ []) (All-reverse P xs h.1) (h.0, tt))

join_filled : (sep : ℕ) (w : Text) (ws : List Text) → w ≢ [] → is_empty (join sep (w ∷ ws)) ≡ false
unfolding join
join_filled sep [] ws h = absurd (h refl)
join_filled sep (c ∷ w) [] h = refl
join_filled sep (c ∷ w) (v ∷ ws) h = refl

-- The elements of a cleaned path are those of the stack.
cleaned_parts :
    (ws : List Text)
    → All IsElement ws
    → any is_parent (split_at b'/' (unless_empty (join b'/' ws))) ≡ any is_parent ws
cleaned_parts [] h = unfold join split_at split_byte text_beq in refl
cleaned_parts (w ∷ ws) h =
    let free = All-imp IsElement (λ s. All (λ c. c ≢ b'/') s) (w ∷ ws) (λ s k. k.0) h in
    rw (join_filled b'/' w ws h.0.1, split_at-join b'/' w ws free) refl

any-clean :
    (name : Text)
    → any is_parent (split_at b'/' (clean name))
      ≡ any is_parent (clean_stack [] (split_at b'/' name))
unfolding clean
any-clean name =
    let segments = split_at b'/' name in
    let stack = clean_stack [] segments in
    let free =
      All-imp (λ w. All (λ c. (c ≢ b'/') × Unit {0}) w) (λ w. All (λ c. c ≢ b'/') w) segments
        (λ w k. All-imp (λ c. (c ≢ b'/') × Unit {0}) (λ c. c ≢ b'/') w (λ c j. j.0) k)
        (split_at-All (λ c. Unit {0}) b'/' name (all_of name)) in
    cleaned_parts (reverse stack)
      (All-reverse IsElement stack (clean_stack-IsElement segments [] free tt))
    ∙ any-reverse is_parent stack
  where
    all_of : (s : Text) → All (λ c. Unit {0}) s
    all_of [] = tt
    all_of (c ∷ s) = (tt, all_of s)

guards :
    (a b c : Bool)
    → ((if a
          then some absolute_path
          else if b
          then some backslash
          else if c
          then some path_traversal
          else none)
        ≡ none)
      ↔ ((a ≡ false) × (b ≡ false) × (c ≡ false))
guards a b c = (λ h. ground arith, λ h. ground arith)

-- An entry's name passes exactly when it is not absolute, has no backslash, and a walk along its
-- elements never leaves the directory it starts in.
pub validate_entry_name_iff :
    (name : Text)
    → (validate_entry_name name ≡ none) ↔ (
        (has_prefix name (codes "/") ≡ false)
        × (contains_byte 92 name ≡ false)
        × StaysInside 0 (split_at b'/' name))
unfolding validate_entry_name
validate_entry_name_iff name =
    let inside = clean_stack-inside (split_at b'/' name) [] refl in
    let tests =
      guards (has_prefix name (codes "/")) (contains_byte 92 name)
        (any is_parent (clean_stack [] (split_at b'/' name))) in
    rw (any-clean name) (
      λ h. let clear = tests.0 h in (clear.0, clear.1, inside.0 clear.2),
      λ h. tests.1 (h.0, h.1, inside.1 h.2),
    )
