-- ===== src/Diff/Keys.antt =====
-- The keys of two objects, and the list of reported differences.
use httptape.Prelude.{
  ◌≡◌, ◌≢◌, ◌⊎◌, refl, Text, none, List, [], ◌∷◌, ◌++◌, Member, ◌==◌, text_eq, eq_iff, Bool-cases,
  inl, inr,
}
use mathlib.Core.Path.{subst}
use httptape.Json.{Json, null, bool, num, str, arr, obj, Fields, end, field, get}
use httptape.Diff.{PathSegment, BodyFieldDiff, insert_key, text_less, add_keys, sorted_keys}
use httptape.Diff.Differences.{NotBoth, Apart}

pub Member-left :
    (d : BodyFieldDiff) (xs ys : List BodyFieldDiff) → Member d xs → Member d (xs ++ ys)
Member-left d [] ys m = absurd m
Member-left d (x ∷ xs) ys (inl e) = inl e
Member-left d (x ∷ xs) ys (inr m) = inr (Member-left d xs ys m)

pub Member-right :
    (d : BodyFieldDiff) (xs ys : List BodyFieldDiff) → Member d ys → Member d (xs ++ ys)
Member-right d [] ys m = m
Member-right d (x ∷ xs) ys m = inr (Member-right d xs ys m)

-- the keys of both objects are among the sorted ones
insert_key-new : (key : Text) (keys : List Text) → Member key (insert_key key keys)
unfolding insert_key
insert_key-new key [] = inl refl
insert_key-new key (k ∷ ks) = elim (Bool-cases (key == k)) [
  | inl e ↦ rw e (inl ((eq_iff key k).0 e))
  | inr e ↦ elim (Bool-cases (text_less key k)) [
    | inl less ↦ rw (e, less) (inl refl)
    | inr more ↦ rw (e, more) (inr (insert_key-new key ks))
  ]
]

insert_key-keeps :
    (k key : Text) (keys : List Text) → Member k keys → Member k (insert_key key keys)
unfolding insert_key
insert_key-keeps k key [] m = absurd m
insert_key-keeps k key (x ∷ xs) m = elim (Bool-cases (key == x)) [
  | inl e ↦ rw e m
  | inr e ↦ elim (Bool-cases (text_less key x)) [
    | inl less ↦ rw (e, less) (inr m)
    | inr more ↦
        rw (e, more)
          (elim m [ inl same ↦ inl same | inr deeper ↦ inr (insert_key-keeps k key xs deeper) ])
  ]
]

add_keys-keeps :
    (k : Text) (fs : Fields) (keys : List Text) → Member k keys → Member k (add_keys fs keys)
add_keys-keeps k end keys m = m
add_keys-keeps k (field x v fs) keys m =
    add_keys-keeps k fs (insert_key x keys) (insert_key-keeps k x keys m)

add_keys-has :
    (k : Text) (fs : Fields) (keys : List Text) → get fs k ≢ none → Member k (add_keys fs keys)
unfolding get
add_keys-has k end keys h = absurd (h refl)
add_keys-has k (field x v fs) keys h = elim (Bool-cases (x == k)) [
  | inl e ↦
      let same : x ≡ k = (eq_iff x k).0 e in
      add_keys-keeps k fs (insert_key x keys)
        (subst (λ y. Member y (insert_key x keys)) same (insert_key-new x keys))
  | inr e ↦ add_keys-has k fs (insert_key x keys) (rw (e, get) at h)
]

pub snoc-not_empty : (path : List PathSegment) (seg : PathSegment) → (path ++ seg ∷ []) ≢ []
snoc-not_empty [] seg h = absurd cc
snoc-not_empty (c ∷ path) seg h = absurd cc

pub key_sorted :
    (key : Text) (fs gs : Fields)
    → (get fs key ≢ none) ⊎ (get gs key ≢ none)
    → Member key (sorted_keys fs gs)
unfolding sorted_keys
key_sorted key fs gs (inl h) = add_keys-keeps key gs (add_keys fs []) (add_keys-has key fs [] h)
key_sorted key fs gs (inr h) = add_keys-has key gs (add_keys fs []) h

pub Apart-NotBoth : (v w : Json) → Apart v w → NotBoth v w
Apart-NotBoth null w h = tt
Apart-NotBoth (bool a) w h = tt
Apart-NotBoth (num a) w h = tt
Apart-NotBoth (str a) w h = tt
Apart-NotBoth (arr a) null h = tt
Apart-NotBoth (arr a) (bool b) h = tt
Apart-NotBoth (arr a) (num b) h = tt
Apart-NotBoth (arr a) (str b) h = tt
Apart-NotBoth (arr a) (arr b) h = absurd h
Apart-NotBoth (arr a) (obj b) h = tt
Apart-NotBoth (obj a) null h = tt
Apart-NotBoth (obj a) (bool b) h = tt
Apart-NotBoth (obj a) (num b) h = tt
Apart-NotBoth (obj a) (str b) h = tt
Apart-NotBoth (obj a) (arr b) h = tt
Apart-NotBoth (obj a) (obj b) h = absurd h
