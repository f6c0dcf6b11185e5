-- ===== src/Tests.antt =====
-- Sample data for the tests of the theorems: a platform, tapes and requests.
pub mod Matching
pub mod Redaction
pub mod Fakes
pub mod Streams
pub mod Bundles
pub mod Monitors
pub mod Recording
pub mod Diffs
pub mod Templates
pub mod Serving
pub mod Caching
pub mod Proxies
use httptape.Prelude.{
  ℕ, ◌++◌, arith, Text, codes, refl, Option, none, some, List, [], ◌∷◌, replicate, length-replicate,
  true, false,
}
use httptape.Json.{Json, null, str, num, obj, field, end}
use httptape.Header.{HeaderMap}
use httptape.Platform.{Url, Platform, Runtime, HasDigests}
use httptape.Int64.{ℤ, pos}
use httptape.Store.{Store}
use mathlib.Core.List.Permᴰ
use httptape.Store.Memory.{Entries, Walk, memory_store}
use httptape.Tape.{SseEvent, Tape, body_hash_from_bytes}
use httptape.Matcher.{Request, readable}

abbrev pub user : Json
user = obj (field (codes "name") (str (codes "ann@mail.org")) (field (codes "age") (num 41) end))

abbrev decode_sample : Text → Option Json
decode_sample [] = none
decode_sample (c ∷ s) = some user

-- the map walked in the order of its entries
abbrev pub in_order : Walk
in_order = record { order = λ s. s; permutes = λ s. Permᴰ.refl s }

abbrev pub memory : Store Entries
memory = memory_store in_order

-- every digest has the bytes 7, every text is the same JSON object, and a URL is its path
abbrev pub platform : Platform
platform = record {
  sha256 = λ s. replicate 32 7;
  hmac_sha256 = λ key message. replicate 32 7;
  unmarshal = decode_sample;
  marshal = λ j. some (codes "{}");
  parse_url = λ s. some (record { path = s; query = [] });
  parse_mime = λ s. some (s, []);
  parse_float = λ s. none;
  format_float = λ n. codes "41";
}

pub digests : HasDigests platform
digests = record {
  hmac_length = λ key message. length-replicate {A = ℕ} 32 7;
  hmac_bytes = λ key message. omega arith;
}

abbrev pub json_headers : HeaderMap
json_headers =
    (codes "Authorization", codes "Bearer abc" ∷ [])
    ∷ (codes "Content-Type", codes "application/json" ∷ [])
    ∷ []

abbrev pub event : SseEvent
event = record {
  offset_ms = 12;
  kind = codes "update";
  payload = codes "{1}" ++ (10 ∷ codes "{2}");
  id = codes "a7";
  retry = 250;
}

abbrev pub tape : Text → Text → Tape
tape name method = record {
  id = name;
  route = codes "users";
  recorded_at = 0;
  request = record {
    method = method;
    url = codes "/users";
    url_pattern = [];
    headers = json_headers;
    body = codes "{u}";
    body_hash = body_hash_from_bytes platform (codes "{u}");
    truncated = false;
    original_body_size = 0;
  };
  response = record {
    status_code = 200;
    headers = json_headers;
    body = codes "{u}";
    truncated = false;
    original_body_size = 0;
    sse_events = event ∷ [];
    elapsed_ms = 3;
  };
  metadata = [];
  exemplar = false;
}

abbrev pub request : Request
request = record {
  method = codes "GET";
  url = record { path = codes "/users"; query = [] };
  headers = json_headers;
  body = readable (codes "{u}");
}

abbrev pub tapes : List Tape
tapes =
    tape (codes "1") (codes "POST")
    ∷ tape (codes "2") (codes "GET")
    ∷ tape (codes "3") (codes "GET")
    ∷ []

-- a clock that stands still, a source whose numbers are 0, and patterns that match every path
abbrev pub runtime : Runtime
runtime = record {
  format_date = λ layout days. codes "2001-02-03";
  format_now = λ layout. codes "2026-01-02T03:04:05Z";
  unix = 1767323045;
  unix_milli = 1767323045000;
  parse_duration = λ s. none;
  rand_int = λ max source. some (0, source);
  url_string = λ u. u.path;
  int64_of_float = λ f. pos f;
  float_of_int64 = λ n. 0;
  trunc = λ f. f;
  scale = λ n factor. n;
  refusal = λ coercion value. value;
  compile = λ s. some (λ path. some []);
  quote_meta = λ s. s;
}
