-- ===== src/Lib.antt =====
-- httptape records HTTP interactions as tapes, cleans them of secrets, stores them and replays them.
-- This library models the parts of the Go package that decide something; each file names its source.
--
-- How the parts interact. A recorder makes a `Tape` of a request and its response, a pipeline of
-- `SanitizeFunc`s rewrites it, a `Store` keeps it. A server asks a `Matcher` which stored tape answers
-- a request, resolves the templates in that tape's response and writes it, an event stream event by
-- event. A caching transport answers from a store and fills it from upstream; a proxy asks upstream
-- first, records what it answers in two stores, the second one through a caching transport, falls back
-- to them, and reports to the health monitor where its answers came from. Bundles carry the tapes of
-- one store to another.
--
-- Which file models which part (paths from the root of the repository):
--   Tape, Tape/Validation        tape.go: the records, ValidateTape, ValidateExemplar, BodyHashFromBytes
--   Header                       the operations of http.Header, and CanonicalHeaderKey
--   Json, JsonPath, and below    decoded JSON values; parsePath of sanitizer.go, redactAtPath and
--                                fakeAtPath as one traversal, extractAtPath of matcher.go,
--                                diffJSONEqual of diff.go (which agrees with reflect.DeepEqual on them)
--   Sanitizer and below          sanitizer.go: Pipeline, RedactHeaders, RedactBodyPaths,
--                                RedactSSEEventData
--   Faker and below              sanitizer.go: fakeValue, FakeFields, FakeSSEEventData; faker.go: the
--                                typed fakers (Faker/Typed), whose panics are an absent
--                                value, FakeFieldsWith
--   MediaType and below          media_type.go
--   Matcher and below            matcher.go: ExactMatcher, the criteria, CompositeMatcher
--   PathPattern                  matcher.go: NewPathPatternCriterion, ExtractParams
--   Decimal, Sse and below       sse.go: parseSSEStream, writeSSEEvent
--   Store, Store/Memory, Store/Listing   store.go, store_memory.go
--   Health and below             health.go: the state machine, subscribers, probe and Close
--   Bundle and below             bundle.go: ImportBundle; Bundle/Export has ExportBundle and its options
--   Recorder and below           recorder.go: RoundTrip, the queue of the asynchronous mode;
--                                isSSEContentType of sse.go
--   Diff and below               diff.go: the comparison of JSON bodies, with what differs said of the
--                                values in Diff/Paths and Diff/Differences; Diff/Headers that of headers,
--                                Diff/Report the options of Diff, diffOneRequest and the report
--   Templating and below         templating.go: the scanner and parseExpr; Counters has counterState,
--                                Substitution resolveArgs, Resolve resolveExpr and its helpers, Walk
--                                walkJSON and parseCoercion, Render the bodies and headers
--   Server and below             server.go: matchExemplar; Server/Serve has ServeHTTP, serveSSE and
--                                ResetCounter, Server/Options NewServer and its options
--   Caching                      caching_transport.go: NewCachingTransport and its options, responses
--   Caching/Trip, Caching/Hits   caching_transport.go: RoundTrip, roundTripUpstream, the end of a
--                                stream, serveStaleFallback
--   Caching/Flights              caching_transport.go: the calls of roundTripWithSingleFlight
--   Proxy                        proxy.go: NewProxy and its options, tapeToResponse
--   Proxy/Trip and beside        proxy.go: l1RecordingTransport, RoundTrip, fallback
--   Platform                     what the sources call and do not implement
--   Prelude and below            shared notation and lemmas; Float has the order of float64 values,
--                                Int64 the integers of strconv.ParseInt and FormatInt
--   Tests and below              sample data, and the theorems at it
--
-- How the code is modelled. A string or byte slice is the list of its bytes, and a nil slice or map is
-- an empty one; text is valid UTF-8, and of it only ASCII is changed in case or trimmed. A map is a
-- list of entries. A float64 is its bit pattern. Scores, sizes, offsets and times are natural numbers;
-- a custom criterion does not score below zero, as its interface asks. Fallible code returns an option
-- or a type of its own errors; a call that changes state takes and returns it. A cancelled context is
-- a Boolean that the caller gives.
--
-- Parameters. SHA-256 and HMAC, encoding/json, net/url, mime, and the reading and printing of a
-- float64 are the fields of `Platform`; of them the theorems use that an HMAC digest has 32 bytes. The
-- clock, random bytes, the formats of package time, the conversion and scaling of numbers, the
-- printing of a URL and the compiler of regular expressions are the fields of `Runtime`. A compiled
-- expression is the test it makes, with its groups for a path pattern. What upstream answers, and what
-- the parsing of its event stream comes to, is an argument of a round trip. An archive is what gzip and tar read from it, and
-- the encoders and decoders of its entries are parameters.
--
-- Bounds. The scanner of an event stream holds lines below 2 ^ 20 bytes, as the source sets it. A
-- decimal is printed with 19 digits at most, enough for an int of 64 bits. A subscriber's buffer has 8
-- places. An entry of an archive is read up to 50 * 2 ^ 20 bytes. A counter of a template wraps to 0
-- at 2 ^ 63. On fuel run the printing of a decimal; the logarithm in the conversion of a uint32 to a
-- float64, which takes 32 rounds; and of the templates the scanner, the parser of arguments and the
-- resolver of expressions, each with the length of the text, of which every round takes some: the
-- arguments of an expression are shorter than it.
--
-- Interleavings. The calls of a health monitor hold its lock, so each is one step; `Close` takes two,
-- since other calls come between the closing of its channel and the removal of the subscribers, and a
-- probe takes two, its observation and its record. What a subscriber has taken from its channel is
-- kept beside the buffer, to state what was sent. A recorder's offers hold a lock, so each of these,
-- each round of the goroutine and the closing of the channel is one step. A caching transport's leader
-- takes three: the entry of its call, the sharing of the result, and the deletion of the entry, as the
-- code holds its lock. `cached_round_trip` is a round trip whose flight no other request shares, and
-- so is a proxy's; the end of an event stream is a step of its own.
--
-- The order of a list. `MemoryStore.List` walks a Go map, in a new order each time: the model's takes
-- the order, as a permutation of the entries, and what is stated of it holds for every one. A save may
-- fail in a store of another kind, so the theorems on `Store` say what stands then.
--
-- Not modelled: the order in which Go walks the other maps (the leaves of a template, the headers of a
-- response, the fields of FakeFieldsWith), so a counter in two places is counted in the order of the list;
-- a nil list under a name of a header map; the pace of an event
-- stream and the replay delay of the caching transport; what a request that waits for another's call
-- returns; informational status codes; callbacks; the limit of memory for long random texts; the wiring
-- of the proxy's health endpoint; the file store and fixture loading; configuration, TLS and the
-- command line; the JSON form of a tape. Copies of tapes are
-- values here, so that a caller cannot change a stored tape is not stated.
pub mod Prelude
pub mod Float
pub mod Json
pub mod JsonPath
pub mod Platform
pub mod Header
pub mod Tape
pub mod Sanitizer
pub mod Faker
pub mod MediaType
pub mod Matcher
pub mod Decimal
pub mod Sse
pub mod Store
pub mod Health
pub mod Bundle
pub mod Recorder
pub mod Diff
pub mod Int64
pub mod PathPattern
pub mod Server
pub mod Caching
pub mod Proxy
pub mod Templating
pub mod Tests
