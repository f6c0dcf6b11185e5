-- ===== src/Tests/Recording.antt =====
-- The theorems on recording at a sample exchange.
use httptape.Prelude.{◌≡◌, refl, codes, text_beq, true, false, some, List, [], ◌∷◌, length, map}
use httptape.Float.{float_one, float_less, float_equal, is_nan, float_key}
use httptape.Header.{get_first, canonical_key, values}
use httptape.MediaType.{equal_fold, lower}
use httptape.Tape.{Tape}
use httptape.Sanitizer.{sanitize}
use httptape.Sanitizer.Headers.{is_sensitive}
use httptape.Sanitizer.Pipelines.{IsHidden}
use httptape.Sanitizer.Hashes.{Rule, rule_func, header_rule, body_rule}
use httptape.Matcher.{readable, no_body}
use httptape.Store.Memory.{Entries}
use httptape.Recorder.{
  RecorderConfig, OutgoingRequest, IncomingResponse, Stamp, round_trip, recorded,
  is_sse_content_type, AsyncState, close_channel, persist_tape,
}
use httptape.Recorder.Taping.{IsTapeOf, IsRecorded, round_trip-recorded, round_trip-IsHidden}
use httptape.Recorder.Queue.{
  QueueSteps, begin, offers, new_state, drain_rounds, save_all, close_channel_flushes,
}
use httptape.Tests.{runtime, memory, platform, json_headers, tape}

abbrev rules : List Rule
rules = header_rule [] ∷ body_rule (codes "$.name" ∷ []) ∷ []

abbrev recorder : RecorderConfig
recorder = record {
  route = codes "users";
  sanitizer = sanitize (map (rule_func platform runtime) rules);
  sample_rate = float_one;
  max_body_size = 2;
  skip_redirects = true;
  sse_recording = true;
}

abbrev outgoing : OutgoingRequest
outgoing = record {
  method = codes "POST";
  url = codes "/users";
  headers = json_headers;
  body = readable (codes "{u}");
}

abbrev incoming : IncomingResponse
incoming = record { status_code = 201; headers = json_headers; body = no_body }

abbrev stamp : Stamp
stamp = record { id = codes "9"; recorded_at = 7; elapsed_ms = 3 }

conditions : IsRecorded platform recorder false 0 outgoing incoming
unfolding is_sse_content_type get_first values canonical_key equal_fold lower float_less float_equal
    is_nan float_key text_beq
conditions = (refl, refl, refl, refl, (codes "{u}", refl), ([], refl))

round_trip-recorded_example :
    (t : Tape) × (round_trip platform recorder false 0 stamp outgoing (some incoming)
      ≡ recorded (recorder.sanitizer t))
    × IsTapeOf platform recorder outgoing incoming t
round_trip-recorded_example =
    round_trip-recorded platform recorder false 0 stamp outgoing incoming conditions

hidden : is_sensitive [] (codes "authorization") ≡ true
unfolding canonical_key text_beq
hidden = refl

round_trip-IsHidden_example :
    (t : Tape) × (round_trip platform recorder false 0 stamp outgoing (some incoming) ≡ recorded t)
    × IsHidden (codes "authorization") t
round_trip-IsHidden_example =
    round_trip-IsHidden platform recorder runtime [] (body_rule (codes "$.name" ∷ []) ∷ []) []
      (codes "authorization") false 0 stamp outgoing incoming conditions refl hidden

abbrev waiting : AsyncState Entries
waiting = persist_tape 4 (tape (codes "1") (codes "GET")) (new_state memory 4 [])

waiting-QueueSteps : QueueSteps memory 4 (new_state memory 4 []) waiting
waiting-QueueSteps = offers (tape (codes "1") (codes "GET")) begin

close_channel_flushes_example :
    ((drain_rounds memory 4 (length waiting.tape_ch) (close_channel waiting)).tape_ch ≡ [])
    × ((drain_rounds memory 4 (length waiting.tape_ch) (close_channel waiting)).store_state
        ≡ save_all memory 4 [] waiting.accepted)
close_channel_flushes_example = close_channel_flushes memory 4 [] waiting waiting-QueueSteps

abbrev shut : AsyncState Entries
shut = close_channel (new_state memory 4 [])
