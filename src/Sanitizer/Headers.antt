-- ===== src/Sanitizer/Headers.antt =====
-- What `RedactHeaders` does to a header map.
use httptape.Prelude.{
  Text, ◌≡◌, refl, ap, ◌∙◌, Bool, List, [], ◌∷◌, map, any, is_empty, arith, ◌==◌, text_eq, eq_iff,
  if◌then◌else◌,
}
use httptape.Header.{HeaderMap, canonical_key, values}
use httptape.Tape.{Tape}
use httptape.Sanitizer.{redacted, default_sensitive_headers, redact_header_map, redact_headers}

abbrev redact_if : Bool → List Text → List Text
redact_if b vs = if b then map (λ _. redacted) vs else vs

values-redact_header_map :
    (name : Text) (h : HeaderMap) (sensitive : List Text)
    → values name (redact_header_map h sensitive)
      ≡ redact_if (any (λ s. s == canonical_key name) sensitive) (values name h)
unfolding values redact_header_map
values-redact_header_map name [] sensitive = ground arith
values-redact_header_map name ((n, vs) ∷ h) sensitive =
    ground (arith, values-redact_header_map name h sensitive, eq_iff n name)

any-map {ℓ κ} :
    {A : Type ℓ} {B : Type κ} (p : B → Bool) (f : A → B) (xs : List A)
    → any p (map f xs) ≡ any (λ x. p (f x)) xs
any-map p f [] = refl
any-map p f (x ∷ xs) = rw (any-map p f xs)

-- One of the names, or of the default ones if there is none, is `name` up to case.
abbrev pub is_sensitive : List Text → Text → Bool
is_sensitive names name =
    any (λ s. canonical_key s == canonical_key name)
      (if is_empty names then default_sensitive_headers else names)

-- In the request and in the response, each value of a sensitive header is replaced, one for one,
-- and every other header keeps its values.
pub values-redact_headers :
    (names : List Text) (name : Text) (t : Tape)
    → (values name (redact_headers names t).request.headers ≡ (
        if is_sensitive names name
        then map (λ _. redacted) (values name t.request.headers)
        else values name t.request.headers))
      × (values name (redact_headers names t).response.headers ≡ (
          if is_sensitive names name
          then map (λ _. redacted) (values name t.response.headers)
          else values name t.response.headers))
unfolding redact_headers
values-redact_headers names name t = (header_law t.request.headers, header_law t.response.headers)
  where
    header_law :
        (h : HeaderMap)
        → values name (
            redact_header_map h
              (map canonical_key (if is_empty names then default_sensitive_headers else names)))
          ≡ redact_if (is_sensitive names name) (values name h)
    header_law h =
        values-redact_header_map name h _
        ∙ ap (λ b. redact_if b (values name h))
            (any-map (λ s. s == canonical_key name) canonical_key _)
