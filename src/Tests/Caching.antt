-- ===== src/Tests/Caching.antt =====
-- The theorems on the caching transport at a sample exchange and a sample run.
use httptape.Header.{get_first}
use httptape.MediaType.{equal_fold}
use httptape.Prelude.{text_beq, Text, codes, refl, false, some, List, [], ◌∷◌, ◌≡◌, ◌≢◌, ℕ, none}
use httptape.Tape.{Tape}
use httptape.Recorder.{Stamp, is_sse_content_type}
use httptape.Caching.{
  CachingTransport, UpstreamAnswer, new_caching_transport, with_cache_route,
  with_cache_upstream_timeout, buffer_request_body,
}
use httptape.Caching.Trip.{cached_round_trip}
use httptape.Caching.Hits.{IsCacheable, IsHit, cached_round_trip-IsCached}
use httptape.Caching.Flights.{
  Flights, no_flights, lead, land, remove, FlightSteps, led, shared, deleted, still, onward, key_of,
  one_flight,
}
use httptape.Tests.{memory, in_order, platform, runtime, request, tape, json_headers}

abbrev ct : CachingTransport
unfolding new_caching_transport
ct = new_caching_transport (with_cache_route (codes "users") ∷ with_cache_upstream_timeout 5 ∷ [])

abbrev answer : UpstreamAnswer
answer = record {
  status_code = 200;
  headers = json_headers;
  body = codes "{u}";
  breaks_off = false;
}

abbrev stamp : Stamp
stamp = record { id = codes "5"; recorded_at = 7; elapsed_ms = 3 }

abbrev stored : List (Text × Tape)
stored = (codes "1", tape (codes "1") (codes "POST")) ∷ []

cacheable : IsCacheable platform runtime ct request answer
unfolding buffer_request_body ct is_sse_content_type get_first text_beq equal_fold
cacheable = record {
  matcher = refl;
  lookup = refl;
  sanitizer = record {
    route = λ t. refl;
    method = λ t. refl;
    url = λ t. refl;
    body_hash = λ t. refl;
  };
  fits = refl;
  url = request.url;
  printed = refl;
  path = refl;
  no_stream = refl;
  whole_answer = refl;
  passes_filter = refl;
}

cached_round_trip-IsCached_example :
    IsHit platform runtime ct request answer cacheable in_order
      (cached_round_trip platform runtime memory ct false request stamp (some answer) stored).1
      in_order
      stamp
      none
cached_round_trip-IsCached_example =
    cached_round_trip-IsCached platform runtime ct request answer cacheable in_order stamp stored
      in_order stamp none

abbrev key : Text
key = codes "GET|/users|"

-- a call that has shared its answer, and one of which the entry is deleted
abbrev shared_flight : Flights Text
unfolding lead land
shared_flight = land 0 key (codes "ok") (lead key no_flights)

abbrev deleted_flight : Flights Text
unfolding lead land remove shared_flight
deleted_flight = remove 0 key shared_flight

key_free : deleted_flight.sf_calls key ≡ none
unfolding deleted_flight remove text_beq
key_free = refl

abbrev run : Flights Text
unfolding lead
run = lead key deleted_flight

run-FlightSteps : FlightSteps no_flights run
unfolding run deleted_flight shared_flight lead land remove
run-FlightSteps =
    let first : FlightSteps no_flights (lead key no_flights) = onward still (led key refl) in
    let second : FlightSteps no_flights shared_flight =
      onward first (shared 0 key (codes "ok") refl) in
    let third : FlightSteps no_flights deleted_flight =
      onward second (deleted 0 key (codes "ok") refl) in
    onward third (led key key_free)

one_flight_example :
    ((m n : ℕ) → key_of (run.call m) ≡ some key → key_of (run.call n) ≡ some key → m ≡ n)
    × ((n : ℕ) → run.sf_calls key ≡ some n → key_of (run.call n) ≡ some key)
    × (((n : ℕ) → key_of (run.call n) ≢ some key) → run.sf_calls key ≡ none)
one_flight_example = one_flight key run-FlightSteps
