-- ===== src/Sanitizer/Redact.antt =====
-- No value that a redacted path addresses keeps its content.
use httptape.Prelude.{
  ◌≡◌, refl, Bool, true, false, Option, none, some, List, [], ◌∷◌, map, is_empty, All, All-append,
  All-left, All-right, if_both, text_eq, ◌==◌, map_option,
}
use httptape.Json.{Json, null, bool, num, str, arr, obj, Items, nil, cons, get, map_items}
use httptape.Json.Laws.{get-update}
use httptape.JsonPath.{Segment, rewrite_at_path, at_value}
use httptape.JsonPath.Rewrite.{select, select_value, select_found, gather, select-rewrite_at_path}
use httptape.Sanitizer.{redacted, redact_value, redact_at_path, apply_paths}

-- A scalar holds only the replacement of its type; null, objects and arrays are left alone.
abbrev pub IsRedacted : Json → Type 0
IsRedacted (str s) = s ≡ redacted
IsRedacted (num n) = n ≡ 0
IsRedacted (bool b) = b ≡ false
IsRedacted _ = Unit

redact_value-IsRedacted : (v : Json) → IsRedacted (redact_value v)
unfolding redact_value
redact_value-IsRedacted null = tt
redact_value-IsRedacted (bool b) = refl
redact_value-IsRedacted (num n) = refl
redact_value-IsRedacted (str s) = refl
redact_value-IsRedacted (arr xs) = tt
redact_value-IsRedacted (obj fs) = tt

IsRedacted-All : (vs : List Json) → All IsRedacted (map redact_value vs)
IsRedacted-All [] = tt
IsRedacted-All (v ∷ vs) = (redact_value-IsRedacted v, IsRedacted-All vs)

-- After `redactAtPath`, every value that the path addresses is redacted.
pub redact_at_path-IsRedacted :
    (path : List Segment) (j : Json) → All IsRedacted (select path (redact_at_path path j))
unfolding redact_at_path
redact_at_path-IsRedacted path j =
    rw (select-rewrite_at_path redact_value path j) (IsRedacted-All (select path j))

-- a rewrite changes no scalar, so it keeps what is redacted
rewrite-IsRedacted : (p : List Segment) (v : Json) → IsRedacted v → IsRedacted (redact_at_path p v)
unfolding redact_at_path rewrite_at_path
rewrite-IsRedacted [] v h = h
rewrite-IsRedacted (s ∷ p) null h = h
rewrite-IsRedacted (s ∷ p) (bool b) h = h
rewrite-IsRedacted (s ∷ p) (num n) h = h
rewrite-IsRedacted (s ∷ p) (str x) h = h
rewrite-IsRedacted (s ∷ p) (arr xs) h = h
rewrite-IsRedacted (s ∷ p) (obj fs) h = h

at_value-IsRedacted :
    (p : List Segment) (w l : Bool) (v : Json)
    → IsRedacted v
    → IsRedacted (at_value redact_value (redact_at_path p) w l v)
unfolding at_value
at_value-IsRedacted p true true v h = h
at_value-IsRedacted p true false null h = h
at_value-IsRedacted p true false (bool b) h = h
at_value-IsRedacted p true false (num n) h = h
at_value-IsRedacted p true false (str s) h = h
at_value-IsRedacted p true false (arr xs) h = h
at_value-IsRedacted p true false (obj fs) h = h
at_value-IsRedacted p false true v h = redact_value-IsRedacted v
at_value-IsRedacted p false false v h = rewrite-IsRedacted p v h

module _ (f : Json → Json) (sel : Json → List Json)
    (keep_all : (v : Json) → All IsRedacted (sel v) → All IsRedacted (sel (f v))) where
  gather-IsRedacted :
      (xs : Items) → All IsRedacted (gather sel xs) → All IsRedacted (gather sel (map_items f xs))
  unfolding gather map_items
  gather-IsRedacted nil h = h
  gather-IsRedacted (cons v vs) h =
      All-append IsRedacted (sel (f v)) (gather sel (map_items f vs))
        (keep_all v (All-left IsRedacted (sel v) (gather sel vs) h))
        (gather-IsRedacted vs (All-right IsRedacted (sel v) (gather sel vs) h))

-- a path addresses nothing in a value that is no object
abbrev IsObject : Json → Type 0
IsObject (obj fs) = Unit
IsObject _ = ⊥

select_flat : (q : List Segment) (v : Json) → ¬ (IsObject v) → All IsRedacted (select q v)
unfolding select
select_flat [] v h = tt
select_flat (t ∷ q) null h = tt
select_flat (t ∷ q) (bool b) h = tt
select_flat (t ∷ q) (num n) h = tt
select_flat (t ∷ q) (str s) h = tt
select_flat (t ∷ q) (arr xs) h = tt
select_flat (t ∷ q) (obj fs) h = absurd (h tt)

elements_kept :
    (p q : List Segment) (v : Json)
    → All IsRedacted (select_value (select q) true false v)
    → All IsRedacted (select_value (select q) true false (redact_at_path p v))
unfolding select_value redact_at_path rewrite_at_path
elements_kept [] q v h = h
elements_kept (s ∷ p) q null h = h
elements_kept (s ∷ p) q (bool b) h = h
elements_kept (s ∷ p) q (num n) h = h
elements_kept (s ∷ p) q (str x) h = h
elements_kept (s ∷ p) q (arr xs) h = h
elements_kept (s ∷ p) q (obj fs) h = h

module _ (p q : List Segment)
    (ih : (v : Json)
      → All IsRedacted (select q v)
      → All IsRedacted (select q (redact_at_path p v))) where
  at_value-keeps :
      (w l : Bool) (v : Json)
      → All IsRedacted (select q v)
      → All IsRedacted (select q (at_value redact_value (redact_at_path p) w l v))
  unfolding at_value redact_value
  at_value-keeps true true v h = h
  at_value-keeps true false null h = h
  at_value-keeps true false (bool b) h = h
  at_value-keeps true false (num n) h = h
  at_value-keeps true false (str s) h = h
  at_value-keeps true false (arr xs) h = select_flat q _ (λ e. e)
  at_value-keeps true false (obj fs) h = h
  at_value-keeps false true null h = h
  at_value-keeps false true (bool b) h = select_flat q _ (λ e. e)
  at_value-keeps false true (num n) h = select_flat q _ (λ e. e)
  at_value-keeps false true (str s) h = select_flat q _ (λ e. e)
  at_value-keeps false true (arr xs) h = h
  at_value-keeps false true (obj fs) h = h
  at_value-keeps false false v h = ih v h

  -- what an array-valued field holds after the rewrite, read element by element
  at_value-keeps_items :
      (w l : Bool) (v : Json)
      → All IsRedacted (select_value (select q) true false v)
      → All IsRedacted
          (select_value (select q) true false (at_value redact_value (redact_at_path p) w l v))
  unfolding at_value redact_value select_value
  at_value-keeps_items true true v h = h
  at_value-keeps_items true false null h = h
  at_value-keeps_items true false (bool b) h = h
  at_value-keeps_items true false (num n) h = h
  at_value-keeps_items true false (str s) h = h
  at_value-keeps_items true false (arr xs) h =
      gather-IsRedacted (redact_at_path p) (select q) ih xs h
  at_value-keeps_items true false (obj fs) h = h
  at_value-keeps_items false true null h = h
  at_value-keeps_items false true (bool b) h = h
  at_value-keeps_items false true (num n) h = h
  at_value-keeps_items false true (str s) h = h
  at_value-keeps_items false true (arr xs) h = h
  at_value-keeps_items false true (obj fs) h = h
  at_value-keeps_items false false v h = elements_kept p q v h

  select_value-keeps :
      (w l w' l' : Bool) (v : Json)
      → All IsRedacted (select_value (select q) w' l' v)
      → All IsRedacted
          (select_value (select q) w' l' (at_value redact_value (redact_at_path p) w l v))
  unfolding select_value
  select_value-keeps w l true true v h = tt
  select_value-keeps w l true false v h = at_value-keeps_items w l v h
  select_value-keeps w l false true v h = (at_value-IsRedacted p w l v h.0, tt)
  select_value-keeps w l false false v h = at_value-keeps w l v h

  found-keeps :
      (w l w' l' : Bool) (o : Option Json)
      → All IsRedacted (select_found (select_value (select q) w' l') o)
      → All IsRedacted (
          select_found
            (select_value (select q) w' l')
            (map_option (at_value redact_value (redact_at_path p) w l) o))
  found-keeps w l w' l' none h = h
  found-keeps w l w' l' (some v) h = select_value-keeps w l w' l' v h

-- Redacting one path uncovers nothing at another.
redact_at_path-keeps :
    (p q : List Segment) (j : Json)
    → All IsRedacted (select q j)
    → All IsRedacted (select q (redact_at_path p j))
unfolding redact_at_path rewrite_at_path select
redact_at_path-keeps [] q j h = h
redact_at_path-keeps (s ∷ p) [] j h = tt
redact_at_path-keeps (s ∷ p) (t ∷ q) (obj fs) h = rw get-update (
    if_both (λ o. All IsRedacted (select_found (select_value (select q) t.wildcard (is_empty q)) o))
      (s.key == t.key)
      (found-keeps p q (redact_at_path-keeps p q) s.wildcard (is_empty p) t.wildcard (is_empty q)
        (get fs t.key) h)
      h)
redact_at_path-keeps (s ∷ p) (t ∷ q) j h = h

keeps_All :
    (paths : List (List Segment)) (q : List Segment) (j : Json)
    → All IsRedacted (select q j)
    → All IsRedacted (select q (apply_paths redact_at_path paths j))
unfolding apply_paths
keeps_All [] q j h = h
keeps_All (p ∷ ps) q j h = keeps_All ps q (redact_at_path p j) (redact_at_path-keeps p q j h)

-- After the loop over the paths, every value that any of them addresses is redacted, whatever the
-- order of the paths and however they overlap.
pub apply_paths-IsRedacted :
    (paths : List (List Segment)) (j : Json)
    → All (λ q. All IsRedacted (select q (apply_paths redact_at_path paths j))) paths
unfolding apply_paths
apply_paths-IsRedacted [] j = tt
apply_paths-IsRedacted (p ∷ ps) j = (
  keeps_All ps p (redact_at_path p j) (redact_at_path-IsRedacted p j),
  apply_paths-IsRedacted ps (redact_at_path p j),
)
