-- ===== src/Tape/Validation.antt =====
-- When `ValidateExemplar` accepts a tape.
use httptape.Prelude.{true, false, ◌≡◌, ◌≢◌, ◌↔◌, ◌⊎◌, none, [], arith}
use httptape.Tape.{Tape, validate_exemplar}

-- The documented rules: an exemplar has a pattern, no URL and no SSE events; any other tape has no
-- pattern.
abbrev pub IsWellFormed : Tape → Type 0
IsWellFormed t =
    ((t.exemplar ≡ true)
      × (t.request.url_pattern ≢ [])
      × (t.request.url ≡ [])
      × (t.response.sse_events ≡ []))
    ⊎ ((t.exemplar ≡ false) × (t.request.url_pattern ≡ []))

-- `ValidateExemplar` returns nil exactly for the tapes that follow the documented rules.
pub validate_exemplar-eq-none_iff : (t : Tape) → (validate_exemplar t ≡ none) ↔ IsWellFormed t
unfolding validate_exemplar
validate_exemplar-eq-none_iff t = (λ h. ground arith, λ h. ground arith)
