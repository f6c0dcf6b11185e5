-- ===== src/Diff/Headers.antt =====
-- diff.go: the differences of two header maps.
use httptape.Prelude.{
  ◌≡◌, ◌≢◌, ◌↔◌, refl, sym, ap, ◌∙◌, Text, Bool, true, false, not, ◌&&◌, ◌||◌, Option, none, some,
  List, [], ◌∷◌, ◌++◌, any, All, arith, if◌then◌else◌, ◌==◌, text_eq, eq_iff, lookup, Bool-cases,
  inl, inr,
}
use httptape.Header.{HeaderMap, canonical_key}
use httptape.Diff.{FieldChangeKind, field_added, field_removed, field_changed, insert_key}

pub record HeaderDiff : Type 0 where
  pub name : Text
  pub kind : FieldChangeKind
  pub old_values : List Text
  pub new_values : List Text

-- stringSlicesEqual
unfoldable pub string_slices_equal : List Text → List Text → Bool
string_slices_equal [] [] = true
string_slices_equal [] (b ∷ bs) = false
string_slices_equal (a ∷ as') [] = false
string_slices_equal (a ∷ as') (b ∷ bs) = a == b && string_slices_equal as' bs

-- the set of the names, sorted
unfoldable pub add_names : HeaderMap → List Text → List Text
unfolding insert_key
add_names [] names = names
add_names ((n, vs) ∷ h) names = add_names h (insert_key (canonical_key n) names)

-- `fixture[name]` and `live[name]`; `none` is a nil slice, which in these maps is a name without an entry: an entry's list is
-- taken not to be nil
unfoldable pub diff_values : Text → Option (List Text) → Option (List Text) → List HeaderDiff
diff_values name none none = []
diff_values name none (some vs) =
    record { name = name; kind = field_added; old_values = []; new_values = vs } ∷ []
diff_values name (some vs) none =
    record { name = name; kind = field_removed; old_values = vs; new_values = [] } ∷ []
diff_values name (some old) (some new) =
    if string_slices_equal old new
    then []
    else record { name = name; kind = field_changed; old_values = old; new_values = new } ∷ []

abbrev pub is_in : Text → List Text → Bool
is_in name names = any (λ n. n == name) names

unfoldable pub diff_names :
    List Text → HeaderMap → HeaderMap → (ignore : List Text) → List HeaderDiff
unfolding lookup diff_values
diff_names [] fixture live ignore = []
diff_names (name ∷ names) fixture live ignore =
    let rest = diff_names names fixture live ignore in
    if is_in name ignore
    then rest
    else diff_values name (lookup name fixture) (lookup name live) ++ rest

unfoldable pub diff_headers : HeaderMap → HeaderMap → (ignore : List Text) → List HeaderDiff
unfolding add_names diff_names
diff_headers fixture live ignore =
    diff_names (add_names live (add_names fixture [])) fixture live ignore

-- the values under a name are the same, or there are none on both sides
abbrev pub same_values : Option (List Text) → Option (List Text) → Bool
same_values none none = true
same_values (some old) (some new) = string_slices_equal old new
same_values old new = false

abbrev pub reports : Text → List HeaderDiff → Bool
reports name diffs = any (λ (d : HeaderDiff). d.name == name) diffs

-- names in the form that net/http gives them
abbrev pub IsCanonical : HeaderMap → Type 0
IsCanonical h = All (λ (entry : Text × List Text). canonical_key entry.0 ≡ entry.0) h

abbrev is_present : Option (List Text) → Bool
is_present none = false
is_present (some vs) = true

present-cons :
    (name n : Text) (vs : List Text) (h : HeaderMap)
    → is_present (lookup name ((n, vs) ∷ h)) ≡ (n == name || is_present (lookup name h))
unfolding lookup
present-cons name n vs h = choose (n == name)
  where
    choose :
        (b : Bool)
        → is_present (if b then some vs else lookup name h) ≡ (b || is_present (lookup name h))
    choose true = refl
    choose false = refl

is_in-insert_key :
    (name key : Text) (keys : List Text)
    → is_in name (insert_key key keys) ≡ (key == name || is_in name keys)
unfolding insert_key
is_in-insert_key name key [] = ground arith
is_in-insert_key name key (k ∷ ks) =
    ground (arith, is_in-insert_key name key ks, eq_iff key k, eq_iff key name, eq_iff k name)

is_in-add_names :
    (name : Text) (h : HeaderMap) (names : List Text)
    → IsCanonical h
    → is_in name (add_names h names) ≡ (is_present (lookup name h) || is_in name names)
unfolding add_names
is_in-add_names name [] names c = unfold lookup in refl
is_in-add_names name ((n, vs) ∷ h) names (c, cs) =
    is_in-add_names name h (insert_key (canonical_key n) names) cs
    ∙ rw (c, is_in-insert_key name n names, present-cons name n vs h) (ground arith)

reports-append :
    (name : Text) (ds es : List HeaderDiff)
    → reports name (ds ++ es) ≡ (reports name ds || reports name es)
reports-append name [] es = refl
reports-append name (d ∷ ds) es = ground (arith, reports-append name ds es)

reports-diff_values :
    (name other : Text) (old new : Option (List Text))
    → reports other (diff_values name old new) ≡ (name == other && not (same_values old new))
unfolding diff_values
reports-diff_values name other none none = ground arith
reports-diff_values name other none (some vs) = ground arith
reports-diff_values name other (some vs) none = ground arith
reports-diff_values name other (some old) (some new) = ground arith

string_slices_equal_iff : (a b : List Text) → (string_slices_equal a b ≡ true) ↔ (a ≡ b)
unfolding string_slices_equal
string_slices_equal_iff [] [] = (λ h. refl, λ h. refl)
string_slices_equal_iff [] (b ∷ bs) = (λ h. absurd cc, λ h. absurd cc)
string_slices_equal_iff (a ∷ as') [] = (λ h. absurd cc, λ h. absurd cc)
string_slices_equal_iff (a ∷ as') (b ∷ bs) =
    let rest = string_slices_equal_iff as' bs in
    elim (Bool-cases (a == b)) [
      | inl e ↦
          let head : a ≡ b = (eq_iff a b).0 e in
          rw e (
            λ h. let tail : as' ≡ bs = rest.0 h in cc (head, tail),
            λ q. let tail : as' ≡ bs = cc q in rest.1 tail,
          )
      | inr e ↦ (
        λ h. absurd (ground (arith, e)),
        λ q. let head : a ≡ b = cc q in let e' = (eq_iff a b).1 head in absurd (cc (e, e')),
      )
    ]

same_values_iff : (a b : Option (List Text)) → (same_values a b ≡ true) ↔ (a ≡ b)
same_values_iff none none = (λ h. refl, λ h. refl)
same_values_iff none (some b) = (λ h. absurd cc, λ h. absurd cc)
same_values_iff (some a) none = (λ h. absurd cc, λ h. absurd cc)
same_values_iff (some a) (some b) =
    let iff = string_slices_equal_iff a b in
    (λ h. ap some (iff.0 h), λ q. iff.1 (let e : a ≡ b = cc q in e))

module _ (fixture live : HeaderMap) (ignore : List Text) where
  abbrev pub differs : Text → Bool
  differs name =
      not (is_in name ignore) && not (same_values (lookup name fixture) (lookup name live))

  reports-diff_names :
      (name : Text) (names : List Text)
      → reports name (diff_names names fixture live ignore) ≡ (is_in name names && differs name)
  unfolding diff_names
  reports-diff_names name [] = refl
  reports-diff_names name (n ∷ names) =
      let ih = reports-diff_names name names in
      elim (Bool-cases (is_in n ignore)) [
        | inl e ↦ rw e (ground (arith, ih, e, eq_iff n name))
        | inr e ↦
            rw
              (
                e,
                reports-append name (diff_values n (lookup n fixture) (lookup n live))
                    (diff_names names fixture live ignore),
                reports-diff_values n name (lookup n fixture) (lookup n live),
              )
              (ground (arith, ih, e, eq_iff n name))
      ]

  present_or_same :
      (a b : Option (List Text)) (ignored : Bool)
      → ((is_present b || (is_present a || false)) && (not ignored && not (same_values a b)))
        ≡ (not ignored && not (same_values a b))
  present_or_same none none ignored = ground arith
  present_or_same none (some b) ignored = refl
  present_or_same (some a) none ignored = refl
  present_or_same (some a) (some b) ignored = refl

  pub reports-diff_headers_eq :
      IsCanonical fixture
      → IsCanonical live
      → (name : Text) → reports name (diff_headers fixture live ignore) ≡ differs name
  unfolding diff_headers
  reports-diff_headers_eq c d name =
      reports-diff_names name (add_names live (add_names fixture []))
      ∙ rw (is_in-add_names name live (add_names fixture []) d, is_in-add_names name fixture [] c)
          (present_or_same (lookup name fixture) (lookup name live) (is_in name ignore))

  differs_iff :
      (name : Text)
      → (differs name ≡ true)
        ↔ ((is_in name ignore ≡ false) × (lookup name fixture ≢ lookup name live))
  differs_iff name =
      let values = same_values_iff (lookup name fixture) (lookup name live) in
      elim (Bool-cases (same_values (lookup name fixture) (lookup name live))) [
        | inl e ↦ (λ h. absurd (ground (arith, e)), λ h. absurd (h.1 (values.0 e)))
        | inr e ↦ (
          λ h. (ground (arith, e), λ q. let e' = values.1 q in absurd (cc (e, e'))),
          λ h. rw (h.0, e) refl,
        )
      ]

  pub differs_not_iff :
      (name : Text)
      → (differs name ≡ false)
        ↔ (is_in name ignore ≡ false → lookup name fixture ≡ lookup name live)
  differs_not_iff name =
      let values = same_values_iff (lookup name fixture) (lookup name live) in
      elim (Bool-cases (same_values (lookup name fixture) (lookup name live))) [
        | inl e ↦ (λ h _. values.0 e, λ h. ground (arith, e))
        | inr e ↦ (
          λ h k. absurd (ground (arith, e, h, k)),
          λ h. elim (Bool-cases (is_in name ignore)) [
            | inl k ↦ rw k refl
            | inr k ↦ let e' = values.1 (h k) in absurd (cc (e, e'))
          ],
        )
      ]

  -- Of header maps with canonical names a difference is reported exactly under the names that are not ignored and whose
  -- lists of values are not equal, or that one side only has.
  pub reports-diff_headers :
      IsCanonical fixture
      → IsCanonical live
      → (name : Text)
      → (reports name (diff_headers fixture live ignore) ≡ true)
        ↔ ((is_in name ignore ≡ false) × (lookup name fixture ≢ lookup name live))
  reports-diff_headers c d name =
      let same = reports-diff_headers_eq c d name in
      let iff = differs_iff name in (λ h. iff.0 (sym same ∙ h), λ h. same ∙ iff.1 h)
