-- ===== src/Sanitizer/Hashes.antt =====
-- The hash of a request body stays in step with the body.
use httptape.Prelude.{
  Text, ◌≡◌, refl, sym, ap, ◌∙◌, List, [], ◌∷◌, map, ◌==◌, text_eq, eq_iff, Bool-cases, inl, inr,
}
use httptape.Platform.{Platform, Runtime}
use httptape.Tape.{Tape, is_sse, body_hash_from_bytes}
use httptape.Sanitizer.{
  SanitizeFunc, sanitize, redact_body_fields, parse_paths, redact_headers, sanitize_bodies,
  sanitize_events, redact_body_paths, redact_sse_event_data,
}
use httptape.Faker.{fake_body_fields, fake_fields, fake_sse_event_data}
use httptape.Faker.Typed.{Faker, path_fakers, fake_body_fields_with, fake_fields_with}

-- The rules that the package has for a pipeline: RedactHeaders, RedactBodyPaths, RedactSSEEventData, FakeFields,
-- FakeSSEEventData and FakeFieldsWith. A faker that panics in the last leaves its value here.
pub data Rule : Type 0 where
  header_rule body_rule event_rule : List Text → Rule
  fake_body_rule fake_event_rule : (seed : Text) → List Text → Rule
  fake_typed_rule : (seed : Text) → List (Text × Faker) → Rule

module _ (pf : Platform) (rt : Runtime) where
  abbrev pub rule_func : Rule → SanitizeFunc
  rule_func (header_rule names) = redact_headers names
  rule_func (body_rule paths) = redact_body_paths pf paths
  rule_func (event_rule paths) = redact_sse_event_data pf paths
  rule_func (fake_body_rule seed paths) = fake_fields pf seed paths
  rule_func (fake_event_rule seed paths) = fake_sse_event_data pf seed paths
  rule_func (fake_typed_rule seed fields) = fake_fields_with pf rt seed fields

  abbrev pub IsHashed : Tape → Type 0
  IsHashed t = t.request.body_hash ≡ body_hash_from_bytes pf t.request.body

  sanitize_bodies-IsHashed :
      (f : Text → Text) (t : Tape) → IsHashed t → IsHashed (sanitize_bodies pf f t)
  unfolding sanitize_bodies
  sanitize_bodies-IsHashed f t h = elim (Bool-cases (f t.request.body == t.request.body)) [
    | inl e ↦
        rw e
          (h ∙ ap (body_hash_from_bytes pf) (sym ((eq_iff (f t.request.body) t.request.body).0 e)))
    | inr e ↦ rw e refl
  ]

  sanitize_events-IsHashed :
      (f : Text → Text) (t : Tape) → IsHashed t → IsHashed (sanitize_events f t)
  unfolding sanitize_events
  sanitize_events-IsHashed f t h = elim (Bool-cases (is_sse t.response)) [
    | inl e ↦ rw e h
    | inr e ↦ rw e h
  ]

  rule_func-IsHashed : (r : Rule) (t : Tape) → IsHashed t → IsHashed (rule_func r t)
  unfolding redact_headers redact_body_paths redact_sse_event_data fake_fields fake_sse_event_data
      fake_fields_with
  rule_func-IsHashed (header_rule names) t h = h
  rule_func-IsHashed (body_rule paths) t h =
      sanitize_bodies-IsHashed (λ b. redact_body_fields pf b (parse_paths paths)) t h
  rule_func-IsHashed (event_rule paths) t h = sanitize_events-IsHashed _ t h
  rule_func-IsHashed (fake_body_rule seed paths) t h =
      sanitize_bodies-IsHashed (λ b. fake_body_fields pf seed b (parse_paths paths)) t h
  rule_func-IsHashed (fake_event_rule seed paths) t h = sanitize_events-IsHashed _ t h
  rule_func-IsHashed (fake_typed_rule seed fields) t h =
      sanitize_bodies-IsHashed (λ b. fake_body_fields_with pf rt seed b (path_fakers pf rt fields))
        t h

  -- A pipeline of the package's rules, in any order and number, leaves a tape whose body hash is the
  -- hash of its request body, if it was so before.
  pub sanitize-IsHashed :
      (rules : List Rule) (t : Tape) → IsHashed t → IsHashed (sanitize (map rule_func rules) t)
  unfolding sanitize
  sanitize-IsHashed [] t h = h
  sanitize-IsHashed (r ∷ rules) t h =
      sanitize-IsHashed rules (rule_func r t) (rule_func-IsHashed r t h)
