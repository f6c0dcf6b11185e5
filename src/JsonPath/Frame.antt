-- ===== src/JsonPath/Frame.antt =====
-- What a rewrite along a path leaves alone.
use httptape.Prelude.{
  ◌≡◌, ◌≢◌, ◌⊎◌, refl, Bool, true, false, Option, none, some, List, [], ◌∷◌, is_empty, ◌==◌,
  text_eq, eq_iff, map_option, Bool-cases, inl, inr, arith,
}
use httptape.Json.{Json, null, bool, num, str, arr, obj, Items, nil, cons, get, map_items}
use httptape.Json.Laws.{get-update}
use httptape.JsonPath.{Segment, rewrite_at_path, at_value}
use httptape.JsonPath.Rewrite.{gather, select_value, select_found, select}

-- two paths that part before either ends
abbrev pub Apart : List Segment → List Segment → Type 0
Apart [] q = ⊥
Apart (s ∷ p) [] = ⊥
Apart (s ∷ p) (t ∷ q) = (s.key ≢ t.key) ⊎ Apart p q

module _ (f : Json → Json) (sel : Json → List Json) (ih : (v : Json) → sel (f v) ≡ sel v) where
  gather_same : (xs : Items) → gather sel (map_items f xs) ≡ gather sel xs
  unfolding gather map_items
  gather_same nil = refl
  gather_same (cons v vs) = rw (ih v, gather_same vs) refl

module _ (leaf : Json → Json) where
  -- below a key that both paths have
  below_key :
      (s t : Segment) (p q : List Segment) (here there : Bool) (v : Json)
      → ((w : Json) → select (t ∷ q) (rewrite_at_path leaf (s ∷ p) w) ≡ select (t ∷ q) w)
      → select_value
          (select (t ∷ q))
          there
          false
          (at_value leaf (rewrite_at_path leaf (s ∷ p)) here false v)
        ≡ select_value (select (t ∷ q)) there false v
  unfolding select_value at_value
  below_key s t p q true true (arr xs) ih = gather_same _ _ ih xs
  below_key s t p q true true null ih = refl
  below_key s t p q true true (bool b) ih = refl
  below_key s t p q true true (num n) ih = refl
  below_key s t p q true true (str c) ih = refl
  below_key s t p q true true (obj fs) ih = refl
  below_key s t p q true false (arr xs) ih = unfold select in refl
  below_key s t p q true false null ih = refl
  below_key s t p q true false (bool b) ih = refl
  below_key s t p q true false (num n) ih = refl
  below_key s t p q true false (str c) ih = refl
  below_key s t p q true false (obj fs) ih = refl
  below_key s t p q false true (arr xs) ih = unfold rewrite_at_path in refl
  below_key s t p q false true null ih = unfold rewrite_at_path in refl
  below_key s t p q false true (bool b) ih = unfold rewrite_at_path in refl
  below_key s t p q false true (num n) ih = unfold rewrite_at_path in refl
  below_key s t p q false true (str c) ih = unfold rewrite_at_path in refl
  below_key s t p q false true (obj fs) ih = unfold rewrite_at_path in refl
  below_key s t p q false false v ih = ih v

  found_same :
      (s t : Segment) (p q : List Segment) (o : Option Json)
      → Apart p q
      → ((w : Json) → select q (rewrite_at_path leaf p w) ≡ select q w)
      → select_found
          (select_value (select q) t.wildcard (is_empty q))
          (map_option (at_value leaf (rewrite_at_path leaf p) s.wildcard (is_empty p)) o)
        ≡ select_found (select_value (select q) t.wildcard (is_empty q)) o
  found_same s t [] q o apart ih = absurd apart
  found_same s t (s' ∷ p) [] o apart ih = absurd apart
  found_same s t (s' ∷ p) (t' ∷ q) none apart ih = refl
  found_same s t (s' ∷ p) (t' ∷ q) (some v) apart ih =
      below_key s' t' p q s.wildcard t.wildcard v ih

  -- A rewrite along a path leaves the values alone that a path apart from it addresses.
  pub select-rewrite-Apart :
      (p q : List Segment) (j : Json) → Apart p q → select q (rewrite_at_path leaf p j) ≡ select q j
  unfolding select rewrite_at_path
  select-rewrite-Apart [] q j apart = absurd apart
  select-rewrite-Apart (s ∷ p) [] j apart = absurd apart
  select-rewrite-Apart (s ∷ p) (t ∷ q) null apart = refl
  select-rewrite-Apart (s ∷ p) (t ∷ q) (bool b) apart = refl
  select-rewrite-Apart (s ∷ p) (t ∷ q) (num n) apart = refl
  select-rewrite-Apart (s ∷ p) (t ∷ q) (str c) apart = refl
  select-rewrite-Apart (s ∷ p) (t ∷ q) (arr xs) apart = refl
  select-rewrite-Apart (s ∷ p) (t ∷ q) (obj fs) (inl differ) =
      let other : (s.key == t.key) ≡ false = ground (arith, eq_iff s.key t.key) in
      rw (get-update, other) refl
  select-rewrite-Apart (s ∷ p) (t ∷ q) (obj fs) (inr apart) = elim (Bool-cases (s.key == t.key)) [
    | inr other ↦ rw (get-update, other) refl
    | inl same ↦
        rw (get-update, same)
          (found_same s t p q (get fs t.key) apart (λ w. select-rewrite-Apart p q w apart))
  ]
