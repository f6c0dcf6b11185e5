-- ===== src/Diff/Reports.antt =====
-- Which differences are reported.
use httptape.Prelude.{
  ◌≡◌, ◌↔◌, refl, sym, Text, Option, none, some, List, [], ◌∷◌, All, Member, text_eq, inl, inr,
}
use mathlib.Core.Path.{subst}
use httptape.Json.{Json}
use httptape.JsonPath.{Segment}
use httptape.Platform.{Platform}
use httptape.Diff.{BodyFieldDiff, compare_decoded, diff_json_bodies}
use httptape.Diff.Differences.{Difference}
use httptape.Diff.Soundness.{json_sound}
use httptape.Diff.Completeness.{has}

All-Member :
    (P : BodyFieldDiff → Type 0) (ds : List BodyFieldDiff) (d : BodyFieldDiff)
    → All P ds
    → Member d ds
    → P d
All-Member P [] d h m = absurd m
All-Member P (x ∷ ds) d h (inl e) = subst P (sym e) h.0
All-Member P (x ∷ ds) d h (inr m) = All-Member P ds d h.1 m

module _ (ignore_paths : List (List Segment)) where
  -- The two bodies are JSON, and `d` is a difference of their values.
  abbrev pub IsDifference : Platform → (fixture_body live_body : Text) → BodyFieldDiff → Type 0
  IsDifference pf fixture_body live_body d =
      (v w : Json) × (pf.unmarshal fixture_body ≡ some v)
      × (pf.unmarshal live_body ≡ some w)
      × Difference ignore_paths [] (some v) (some w) d

  -- no difference of the values of two bodies but at ignored paths
  abbrev pub SameValues : Platform → (fixture_body live_body : Text) → Type 0
  SameValues pf fixture_body live_body =
      (d : BodyFieldDiff) → IsDifference pf fixture_body live_body d → ⊥

  -- The differences that are reported of two bodies are, with their paths, kinds and values, those of their JSON values at
  -- the paths that no pattern covers and of which no pattern covers a part that leads there, and no others: a value on
  -- one side only, values of different types, or scalars that are not equal. Of bodies that are not JSON there is none.
  pub diff_json_bodies_iff :
      (pf : Platform) (fixture_body live_body : Text) (d : BodyFieldDiff)
      → Member d (diff_json_bodies ignore_paths pf fixture_body live_body)
        ↔ IsDifference pf fixture_body live_body d
  unfolding diff_json_bodies
  diff_json_bodies_iff pf fixture_body live_body d = (
    λ m. reported (pf.unmarshal fixture_body) (pf.unmarshal live_body) m,
    λ (v, w, e, f, h).
        subst (λ o. Member d (compare_decoded ignore_paths o (pf.unmarshal live_body))) (sym e)
          (subst (λ o. Member d (compare_decoded ignore_paths (some v) o)) (sym f)
            (has ignore_paths [] (some v) (some w) d h)),
  )
    where
      reported :
          (a b : Option Json)
          → Member d (compare_decoded ignore_paths a b)
          → (v w : Json) × (a ≡ some v)
            × (b ≡ some w)
            × Difference ignore_paths [] (some v) (some w) d
      reported (some v) (some w) m = (
        v,
        w,
        refl,
        refl,
        All-Member (Difference ignore_paths [] (some v) (some w)) _ d
            (json_sound ignore_paths v w [] (inl refl)) m,
      )
      reported (some v) none m = absurd m
      reported none b m = absurd m
