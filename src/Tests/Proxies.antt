-- ===== src/Tests/Proxies.antt =====
-- The theorems on the proxy at a sample exchange and a sample outage.
use httptape.Prelude.{text_beq, codes, refl, Bool, false, ◌||◌, leb, Option, some, none, [], ◌∷◌}
use httptape.Header.{get_first}
use httptape.MediaType.{equal_fold}
use httptape.Recorder.{Stamp, is_sse_content_type}
use httptape.Tape.{Tape}
use httptape.Store.Memory.{Entries, memory_store-IsStore, lookup}
use httptape.Caching.{UpstreamAnswer}
use httptape.Proxy.{
  Proxy, Head, ParsedStream, new_proxy, with_proxy_sanitizer, with_proxy_fallback_on,
}
use httptape.Proxy.Trip.{round_trip}
use httptape.Proxy.Secrets.{still, onward, tripped, IsClean, ProxySteps-IsClean}
use httptape.Proxy.Fallback.{IsReply, round_trip-IsReply}
use httptape.Proxy.Outage.{IsKept, IsFromL1, round_trip-IsCovered}
use httptape.Tests.{memory, in_order, platform, runtime, request, tape, json_headers}

abbrev hidden : Tape → Tape
hidden t = record t { request = record t.request { headers = []; body = [] } }

abbrev is_5xx : Option Head → Bool
is_5xx none = false
is_5xx (some resp) = leb 500 resp.status_code

abbrev proxy : Proxy
unfolding new_proxy
proxy = new_proxy (
    with_proxy_sanitizer hidden
    ∷ with_proxy_fallback_on (λ failed resp. failed || is_5xx resp)
    ∷ [])

abbrev answer : UpstreamAnswer
answer = record {
  status_code = 200;
  headers = json_headers;
  body = codes "{u}";
  breaks_off = false;
}

abbrev stamp : Stamp
stamp = record { id = codes "5"; recorded_at = 7; elapsed_ms = 3 }

abbrev stream : ParsedStream
stream = record { parse_failed = false; parsed = [] }

abbrev stored : Entries
stored = (codes "1", tape (codes "1") (codes "POST")) ∷ []

kept : IsKept platform runtime proxy memory request answer
unfolding proxy get_first text_beq equal_fold is_sse_content_type
kept = record {
  matcher = refl;
  falls_back = refl;
  good = refl;
  body = codes "{u}";
  whole_body = refl;
  url = request.url;
  printed = refl;
  path = refl;
  no_stream = refl;
  whole_answer = refl;
}

round_trip-IsCovered_example :
    IsFromL1 platform runtime proxy memory request
      (round_trip platform runtime proxy memory memory false request stamp
        (some answer)
        stream
        stored
        stored).l1
      in_order
      stamp
      stream
      stored
round_trip-IsCovered_example =
    round_trip-IsCovered platform runtime proxy memory request answer kept in_order stamp stream
      stored stored in_order stamp stream stored

round_trip-IsReply_example :
    IsReply platform runtime proxy request
      (some (record answer { status_code = 503 }))
      memory
      memory
      false
      (round_trip platform runtime proxy memory memory false request stamp
        (some (record answer { status_code = 503 }))
        stream
        stored
        stored)
round_trip-IsReply_example =
    round_trip-IsReply platform runtime proxy request (some (record answer { status_code = 503 }))
      memory memory false stamp stream stored stored

ProxySteps-IsClean_example :
    IsClean platform runtime proxy memory memory
      (λ s id. lookup id s)
      (memory_store-IsStore in_order).0
      stored
      (round_trip platform runtime proxy memory memory false request stamp
        (some answer)
        stream
        stored
        stored).l2
ProxySteps-IsClean_example =
    ProxySteps-IsClean platform runtime proxy memory memory (λ s id. lookup id s)
      (memory_store-IsStore in_order).0 stored
      (onward still (tripped false request stamp (some answer) stream))
