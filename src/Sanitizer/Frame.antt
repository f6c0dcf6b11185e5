-- ===== src/Sanitizer/Frame.antt =====
-- What a redaction leaves alone.
use httptape.Prelude.{◌≡◌, refl, ◌∙◌, List, [], ◌∷◌, All}
use httptape.Json.{Json}
use httptape.JsonPath.{Segment}
use httptape.JsonPath.Rewrite.{select}
use httptape.JsonPath.Frame.{Apart, select-rewrite-Apart}
use httptape.Sanitizer.{redact_value, redact_at_path, apply_paths}

-- The values that a path addresses are as they were if each redacted path parts from it before either
-- ends.
pub apply_paths-Apart :
    (paths : List (List Segment)) (q : List Segment) (j : Json)
    → All (λ p. Apart p q) paths
    → select q (apply_paths redact_at_path paths j) ≡ select q j
unfolding apply_paths redact_at_path
apply_paths-Apart [] q j h = refl
apply_paths-Apart (p ∷ ps) q j h =
    apply_paths-Apart ps q (redact_at_path p j) h.1 ∙ select-rewrite-Apart redact_value p q j h.0
