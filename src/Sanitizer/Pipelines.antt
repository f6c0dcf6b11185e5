-- ===== src/Sanitizer/Pipelines.antt =====
-- A pipeline with a header rule in it, whatever stands before and behind the rule.
use httptape.Prelude.{
  Text, ◌≡◌, refl, Bool, true, false, List, [], ◌∷◌, ◌++◌, map, All, if◌then◌else◌, Bool-cases, inl,
  inr,
}
use httptape.Platform.{Platform, Runtime}
use httptape.Header.{values}
use httptape.Tape.{Tape, is_sse}
use httptape.Sanitizer.{
  redacted, sanitize, redact_headers, sanitize_bodies, sanitize_events, redact_body_paths,
  redact_sse_event_data,
}
use httptape.Sanitizer.Headers.{is_sensitive, values-redact_headers}
use httptape.Sanitizer.Hashes.{
  Rule, rule_func, header_rule, body_rule, event_rule, fake_body_rule, fake_event_rule,
  fake_typed_rule,
}
use httptape.Faker.{fake_fields, fake_sse_event_data}
use httptape.Faker.Typed.{fake_fields_with}

-- every value of the header is the placeholder, in the request and in the response
abbrev pub IsHidden : (name : Text) → Tape → Type 0
IsHidden name t =
    All (λ v. v ≡ redacted) (values name t.request.headers)
    × All (λ v. v ≡ redacted) (values name t.response.headers)

All-redacted : (vs : List Text) → All (λ v. v ≡ redacted) (map (λ _. redacted) vs)
All-redacted [] = tt
All-redacted (v ∷ vs) = (refl, All-redacted vs)

if_redacted :
    (b : Bool) (vs : List Text)
    → All (λ v. v ≡ redacted) vs
    → All (λ v. v ≡ redacted) (if b then map (λ _. redacted) vs else vs)
if_redacted true vs h = All-redacted vs
if_redacted false vs h = h

redact_headers-IsHidden :
    (names : List Text) (name : Text) (t : Tape)
    → is_sensitive names name ≡ true
    → IsHidden name (redact_headers names t)
redact_headers-IsHidden names name t sensitive =
    let both = values-redact_headers names name t in
    (
      rw (both.0, sensitive) (All-redacted (values name t.request.headers)),
      rw (both.1, sensitive) (All-redacted (values name t.response.headers)),
    )

redact_headers-keeps :
    (names : List Text) (name : Text) (t : Tape)
    → IsHidden name t
    → IsHidden name (redact_headers names t)
redact_headers-keeps names name t h =
    let both = values-redact_headers names name t in
    (
      rw both.0 (if_redacted (is_sensitive names name) (values name t.request.headers) h.0),
      rw both.1 (if_redacted (is_sensitive names name) (values name t.response.headers) h.1),
    )

sanitize_events-keeps :
    (f : Text → Text) (name : Text) (t : Tape)
    → IsHidden name t
    → IsHidden name (sanitize_events f t)
unfolding sanitize_events
sanitize_events-keeps f name t h = elim (Bool-cases (is_sse t.response)) [
  | inl e ↦ rw e h
  | inr e ↦ rw e h
]

module _ (pf : Platform) (rt : Runtime) where
  rule_func-keeps :
      (r : Rule) (name : Text) (t : Tape) → IsHidden name t → IsHidden name (rule_func pf rt r t)
  unfolding sanitize_bodies redact_body_paths redact_sse_event_data fake_fields fake_sse_event_data
      fake_fields_with
  rule_func-keeps (header_rule names) name t h = redact_headers-keeps names name t h
  rule_func-keeps (body_rule paths) name t h = h
  rule_func-keeps (event_rule paths) name t h = sanitize_events-keeps _ name t h
  rule_func-keeps (fake_body_rule seed paths) name t h = h
  rule_func-keeps (fake_event_rule seed paths) name t h = sanitize_events-keeps _ name t h
  rule_func-keeps (fake_typed_rule seed fields) name t h = h

  sanitize-keeps :
      (rules : List Rule) (name : Text) (t : Tape)
      → IsHidden name t
      → IsHidden name (sanitize (map (rule_func pf rt) rules) t)
  unfolding sanitize
  sanitize-keeps [] name t h = h
  sanitize-keeps (r ∷ rules) name t h =
      sanitize-keeps rules name (rule_func pf rt r t) (rule_func-keeps r name t h)

  -- Wherever the rule for a sensitive header stands in a pipeline of the package's rules, no value of
  -- that header is left, neither in the request nor in the response.
  pub sanitize-IsHidden :
      (before after : List Rule) (names : List Text) (name : Text) (t : Tape)
      → is_sensitive names name ≡ true
      → IsHidden name (sanitize (map (rule_func pf rt) (before ++ header_rule names ∷ after)) t)
  unfolding sanitize
  sanitize-IsHidden [] after names name t sensitive =
      sanitize-keeps after name (redact_headers names t)
        (redact_headers-IsHidden names name t sensitive)
  sanitize-IsHidden (r ∷ before) after names name t sensitive =
      sanitize-IsHidden before after names name (rule_func pf rt r t) sensitive
