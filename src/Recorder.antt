-- ===== src/Recorder.antt =====
-- recorder.go: what a round trip records, and the queue of the asynchronous mode.
pub mod Taping
pub mod Queue
use httptape.Prelude.{
  ℕ, ◌≡◌, ◌-◌, ◌*◌, ◌^◌, ◌+◌, ◌%◌, Text, codes, Bool, true, false, not, ◌&&◌, ◌||◌, Option, none,
  some, List, [], ◌∷◌, ◌++◌, length, take, is_empty, ltb, leb, if◌then◌else◌, ◌==◌, text_eq,
}
use httptape.Float.{float_less, float_equal, float_one}
use httptape.Platform.{Platform}
use httptape.Header.{HeaderMap, get_first}
use httptape.MediaType.{equal_fold, trim_space, lower}
use httptape.Tape.{SseEvent, RecordedReq, RecordedResp, Tape, body_hash_from_bytes}
use httptape.Sanitizer.{SanitizeFunc}
use httptape.Matcher.{ReqBody, no_body, readable, broken}
use httptape.Store.{StoreError, Store}

-- the fields of `Recorder` that a round trip reads
pub record RecorderConfig : Type 0 where
  pub route : Text
  pub sanitizer : SanitizeFunc
  pub sample_rate : ℕ
  pub max_body_size : ℕ
  pub skip_redirects : Bool
  pub sse_recording : Bool

-- a request before it is forwarded, its URL printed
pub record OutgoingRequest : Type 0 where
  pub method : Text
  pub url : Text
  pub headers : HeaderMap
  pub body : ReqBody

pub record IncomingResponse : Type 0 where
  pub status_code : ℕ
  pub headers : HeaderMap
  pub body : ReqBody

-- what `NewTape` and the clock add
pub record Stamp : Type 0 where
  pub id : Text
  pub recorded_at : ℕ
  pub elapsed_ms : ℕ

-- `if r.maxBodySize > 0 { if len(body) > r.maxBodySize { … } }`: the body, whether it is truncated,
-- and its original size
unfoldable pub truncate : ℕ → Text → Text × Bool × ℕ
truncate max_body_size body =
    if ltb 0 max_body_size && ltb max_body_size (length body)
    then (take max_body_size body, true, length body)
    else (body, false, 0)

-- `WithSampling`, and the test of the sample
abbrev pub clamp_rate : ℕ → ℕ
clamp_rate rate =
    let above = if float_less rate 0 then 0 else rate in
    if float_less float_one above then float_one else above

abbrev pub is_skipped_sample : (rate rand : ℕ) → Bool
is_skipped_sample rate rand =
    float_less rate float_one && (float_less rate rand || float_equal rate rand)

abbrev pub to_lower : Text → Text
to_lower [] = []
to_lower (c ∷ s) = lower c ∷ to_lower s

-- What a round trip comes to. `recorded` has the tape that goes to `persistTape`; `streamed` has the
-- recorded request that the stream's tape will have.
pub data Trip : Type 0 where
  passed_through request_unread transport_failed redirect_skipped response_unread : Trip
  recorded : Tape → Trip
  streamed : RecordedReq → Trip

abbrev pub body_of : ReqBody → Option Text
body_of no_body = some []
body_of (readable body) = some body
body_of broken = none

abbrev pub is_redirect : ℕ → Bool
is_redirect status_code = leb 300 status_code && ltb status_code 400

module _ (pf : Platform) where
  abbrev parsed_is_sse : Text → Option (Text × List (Text × Text)) → Bool
  parsed_is_sse content_type none =
      codes "text/event-stream" == take 17 (to_lower (trim_space content_type))
  parsed_is_sse content_type (some (media_type, params)) =
      equal_fold media_type (codes "text/event-stream")

  unfoldable pub is_sse_content_type : Text → Bool
  is_sse_content_type content_type =
      if is_empty content_type
      then false
      else parsed_is_sse content_type (pf.parse_mime content_type)

  unfoldable pub recorded_request : RecorderConfig → OutgoingRequest → Text → RecordedReq
  unfolding truncate
  recorded_request r req req_body =
      let (kept, req_truncated, req_orig_size) = truncate r.max_body_size req_body in
      record {
        method = req.method;
        url = req.url;
        url_pattern = [];
        headers = req.headers;
        body = kept;
        body_hash = body_hash_from_bytes pf kept;
        truncated = req_truncated;
        original_body_size = req_orig_size;
      }

  unfoldable pub recorded_response : RecorderConfig → Stamp → IncomingResponse → Text → RecordedResp
  unfolding truncate
  recorded_response r stamp resp resp_body =
      let (kept, resp_truncated, resp_orig_size) = truncate r.max_body_size resp_body in
      record {
        status_code = resp.status_code;
        headers = resp.headers;
        body = kept;
        truncated = resp_truncated;
        original_body_size = resp_orig_size;
        sse_events = [];
        elapsed_ms = stamp.elapsed_ms;
      }

  -- `NewTape`, and the fields it leaves zero
  abbrev pub new_tape : RecorderConfig → Stamp → RecordedReq → RecordedResp → Tape
  new_tape r stamp req resp = record {
    id = stamp.id;
    route = r.route;
    recorded_at = stamp.recorded_at;
    request = req;
    response = resp;
    metadata = [];
    exemplar = false;
  }

  abbrev pub capture :
      RecorderConfig → Stamp → OutgoingRequest → Text → IncomingResponse → Option Text → Trip
  capture r stamp req req_body resp none = response_unread
  capture r stamp req req_body resp (some resp_body) = recorded (
      r.sanitizer (
        new_tape r stamp (recorded_request r req req_body)
          (recorded_response r stamp resp resp_body)))

  abbrev pub after_transport :
      RecorderConfig → Stamp → OutgoingRequest → Text → Option IncomingResponse → Trip
  after_transport r stamp req req_body none = transport_failed
  after_transport r stamp req req_body (some resp) =
      if r.skip_redirects && is_redirect resp.status_code
      then redirect_skipped
      else if r.sse_recording && is_sse_content_type (get_first (codes "Content-Type") resp.headers)
      then streamed (recorded_request r req req_body)
      else capture r stamp req req_body resp (body_of resp.body)

  abbrev pub forward :
      RecorderConfig → Stamp → OutgoingRequest → Option IncomingResponse → Option Text → Trip
  forward r stamp req resp none = request_unread
  forward r stamp req resp (some req_body) = after_transport r stamp req req_body resp

  -- `Recorder.RoundTrip`; `resp` is the transport's answer, `none` its error
  unfoldable pub round_trip :
      RecorderConfig
      → (closed : Bool) → (rand : ℕ) → Stamp
      → OutgoingRequest
      → Option IncomingResponse
      → Trip
  unfolding recorded_request recorded_response is_sse_content_type
  round_trip r closed rand stamp req resp =
      if closed
      then passed_through
      else if is_skipped_sample r.sample_rate rand
      then passed_through
      else forward r stamp req resp (body_of req.body)

  -- `onDone` of `roundTripSSE`: the tape of a stream, of its events and whether parsing them failed
  unfoldable pub stream_tape :
      RecorderConfig → Stamp → RecordedReq → IncomingResponse → List SseEvent × Bool → Tape
  stream_tape r stamp req resp (events, failed) = r.sanitizer (
      new_tape r stamp req (record {
        status_code = resp.status_code;
        headers = resp.headers;
        body = [];
        truncated = failed;
        original_body_size = 0;
        sse_events = events;
        elapsed_ms = stamp.elapsed_ms;
      }))

-- The state of the asynchronous mode: the channel's tapes, whether it is closed, and the store.
-- `accepted` and `dropped` tell what was sent to it and what was not; they are no data of the program.
pub record AsyncState (S : Type 0) : Type 0 where
  pub tape_ch : List Tape
  pub closed : Bool
  pub store_state : S
  pub accepted : List Tape
  pub dropped : List Tape

-- `persistTape` in asynchronous mode, under `sendMu`
unfoldable pub persist_tape : {S : Type 0} → (buf_size : ℕ) → Tape → AsyncState S → AsyncState S
persist_tape buf_size t s =
    if s.closed
    then record s { dropped = s.dropped ++ t ∷ [] }
    else if ltb (length s.tape_ch) buf_size
    then record s { tape_ch = s.tape_ch ++ t ∷ []; accepted = s.accepted ++ t ∷ [] }
    else record s { dropped = s.dropped ++ t ∷ [] }

-- the first part of `Close`
abbrev pub close_channel : {S : Type 0} → AsyncState S → AsyncState S
close_channel s = record s { closed = true }

-- one round of `drain`, whose context is never cancelled; an error of the store is only reported
unfoldable pub drain_one : {S : Type 0} → Store S → AsyncState S → AsyncState S
drain_one store s = elim s.tape_ch [
  | [] ↦ s
  | t ∷ rest ↦ record s { tape_ch = rest; store_state = (store.save false t s.store_state).1 }
]
