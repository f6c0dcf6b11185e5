-- ===== src/Tests/Streams.antt =====
-- The theorems on event streams and decimals at sample values.
use httptape.Prelude.{◌*◌, contains_byte, ◌≡◌, refl, false, [], ◌∷◌, arith}
use httptape.Sse.{parse_sse_stream, write_events}
use httptape.Sse.RoundTrip.{IsWritable, arrived, parse_sse_stream-write_events}
use httptape.Tests.{event}

event-IsWritable : IsWritable event
event-IsWritable = record {
  kind_plain = omega arith;
  kind_short = omega arith;
  id_plain = omega arith;
  id_not_nul = unfold contains_byte in refl;
  id_short = omega arith;
  retry_fits = omega arith;
  payload_plain = omega arith;
  payload_short = omega arith;
}

parse_sse_stream-write_events_example :
    parse_sse_stream (λ k. k * 5) (write_events (event ∷ event ∷ []))
    ≡ (arrived (λ k. k * 5) 0 (event ∷ event ∷ []), false)
parse_sse_stream-write_events_example =
    parse_sse_stream-write_events (λ k. k * 5) (event ∷ event ∷ [])
      (event-IsWritable, (event-IsWritable, tt))
