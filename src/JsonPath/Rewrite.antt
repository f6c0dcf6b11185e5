-- ===== src/JsonPath/Rewrite.antt =====
-- The values that a path addresses, and what a rewrite along a path does to them.
use httptape.Prelude.{
  ◌≡◌, refl, Bool, true, false, Option, none, some, List, [], ◌∷◌, ◌++◌, map, is_empty, text_eq,
  eq_refl, map_option,
}
use mathlib.Core.List.{map-append}
use httptape.Json.{Json, null, bool, num, str, arr, obj, Items, nil, cons, get, map_items}
use httptape.Json.Laws.{get-update}
use httptape.JsonPath.{Segment, rewrite_at_path, at_value}

unfoldable pub gather : (Json → List Json) → Items → List Json
gather f nil = []
gather f (cons v vs) = f v ++ gather f vs

unfoldable pub select_value : (Json → List Json) → (wildcard last : Bool) → Json → List Json
select_value deeper true true v = []
select_value deeper true false (arr xs) = gather deeper xs
select_value deeper true false v = []
select_value deeper false true v = v ∷ []
select_value deeper false false v = deeper v

abbrev pub select_found : (Json → List Json) → Option Json → List Json
select_found f none = []
select_found f (some v) = f v

-- All the values at the end of a path: those behind each `[*]` for every element, none for a path
-- that ends in `[*]`.
unfoldable pub select : List Segment → Json → List Json
unfolding gather select_value
select [] j = []
select (seg ∷ rest) (obj fs) =
    select_found (select_value (select rest) seg.wildcard (is_empty rest)) (get fs seg.key)
select (seg ∷ rest) j = []

module _ (leaf : Json → Json) (f : Json → Json) (sel : Json → List Json)
    (ih : (v : Json) → sel (f v) ≡ map leaf (sel v)) where
  gather-map : (xs : Items) → gather sel (map_items f xs) ≡ map leaf (gather sel xs)
  unfolding gather map_items
  gather-map nil = refl
  gather-map (cons v vs) = rw (map-append, ih v, gather-map vs)

  select_value-at_value :
      (w l : Bool) (v : Json)
      → select_value sel w l (at_value leaf f w l v) ≡ map leaf (select_value sel w l v)
  unfolding select_value at_value
  select_value-at_value true true v = refl
  select_value-at_value true false (arr xs) = gather-map xs
  select_value-at_value true false null = refl
  select_value-at_value true false (bool b) = refl
  select_value-at_value true false (num n) = refl
  select_value-at_value true false (str s) = refl
  select_value-at_value true false (obj fs) = refl
  select_value-at_value false true v = refl
  select_value-at_value false false v = ih v

select_found-map :
    (leaf f : Json → Json) (sel : Json → List Json)
    → ((v : Json) → sel (f v) ≡ map leaf (sel v))
    → (o : Option Json) → select_found sel (map_option f o) ≡ map leaf (select_found sel o)
select_found-map leaf f sel ih none = refl
select_found-map leaf f sel ih (some v) = ih v

module _ (leaf : Json → Json) where
  -- A rewrite along a path rewrites exactly the values that the path addresses.
  pub select-rewrite_at_path :
      (path : List Segment) (j : Json)
      → select path (rewrite_at_path leaf path j) ≡ map leaf (select path j)
  unfolding select rewrite_at_path
  select-rewrite_at_path [] j = refl
  select-rewrite_at_path (seg ∷ rest) null = refl
  select-rewrite_at_path (seg ∷ rest) (bool b) = refl
  select-rewrite_at_path (seg ∷ rest) (num n) = refl
  select-rewrite_at_path (seg ∷ rest) (str s) = refl
  select-rewrite_at_path (seg ∷ rest) (arr xs) = refl
  select-rewrite_at_path (seg ∷ rest) (obj fs) =
      rw (get-update, eq_refl seg.key)
        (select_found-map leaf _ _
          (select_value-at_value leaf (rewrite_at_path leaf rest) (select rest)
            (select-rewrite_at_path rest) seg.wildcard (is_empty rest))
          (get fs seg.key))
