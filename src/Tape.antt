-- ===== src/Tape.antt =====
-- tape.go: a recorded interaction, its validation, and the hash of its request body.
pub mod Validation
use httptape.Prelude.{
  ℕ, ◌+◌, ◌-◌, ◌/◌, ◌%◌, Text, Bool, true, false, not, ◌&&◌, Option, none, some, List, [], ◌∷◌, ltb,
  is_empty, if◌then◌else◌,
}
use httptape.Json.{Json}
use httptape.Header.{HeaderMap}
use httptape.Platform.{Platform}

-- `SSEEvent` of sse.go
pub record SseEvent : Type 0 where
  pub offset_ms : ℕ
  pub kind : Text
  pub payload : Text
  pub id : Text
  pub retry : ℕ

pub record RecordedReq : Type 0 where
  pub method : Text
  pub url : Text
  pub url_pattern : Text
  pub headers : HeaderMap
  pub body : Text
  pub body_hash : Text
  pub truncated : Bool
  pub original_body_size : ℕ

pub record RecordedResp : Type 0 where
  pub status_code : ℕ
  pub headers : HeaderMap
  pub body : Text
  pub truncated : Bool
  pub original_body_size : ℕ
  pub sse_events : List SseEvent
  pub elapsed_ms : ℕ

pub record Tape : Type 0 where
  pub id : Text
  pub route : Text
  pub recorded_at : ℕ
  pub request : RecordedReq
  pub response : RecordedResp
  pub metadata : List (Text × Json)
  pub exemplar : Bool

unfoldable pub is_sse : RecordedResp → Bool
is_sse r = not (is_empty r.sse_events)

-- The errors of `ValidateExemplar`, one for each message.
pub data TapeError : Type 0 where
  exclusive_urls pattern_required sse_exemplar exemplar_required : TapeError

-- `none` is a nil error
unfoldable pub validate_exemplar : Tape → Option TapeError
validate_exemplar t =
    let has_url = not (is_empty t.request.url) in
    let has_pattern = not (is_empty t.request.url_pattern) in
    if has_url && has_pattern
    then some exclusive_urls
    else if t.exemplar && not has_pattern
    then some pattern_required
    else if t.exemplar && not (is_empty t.response.sse_events)
    then some sse_exemplar
    else if has_pattern && not t.exemplar
    then some exemplar_required
    else none

unfoldable pub validate_tape : Tape → Option TapeError
unfolding validate_exemplar
validate_tape t = validate_exemplar t

unfoldable pub hex_digit : ℕ → ℕ
hex_digit n = if ltb n 10 then b'0' + n else b'a' + (n - 10)

-- hex.EncodeToString
unfoldable pub hex : Text → Text
unfolding hex_digit
hex [] = []
hex (b ∷ bs) = hex_digit (b / 16) ∷ hex_digit (b % 16) ∷ hex bs

unfoldable pub body_hash_from_bytes : Platform → Text → Text
unfolding hex
body_hash_from_bytes pf b = if is_empty b then [] else hex (pf.sha256 b)
