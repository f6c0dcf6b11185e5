-- ===== src/Tests/Serving.antt =====
-- The theorems on the server at a sample store and request.
use httptape.Prelude.{Text, codes, refl, true, false, some, List, [], ◌∷◌}
use httptape.Int64.{pos}
use httptape.Tape.{Tape}
use httptape.Matcher.{Criterion, method_criterion, path_criterion}
use httptape.Templating.Substitution.{TemplateState}
use httptape.Server.{Server, Surroundings, composite_matcher, instant, find_tape, match_exemplar}
use httptape.Server.Serve.{serve_http}
use httptape.Server.Exemplars.{pathless_of, match_exemplar-IsMatch, IsFound, find_tape-IsFound}
use httptape.Server.Grades.{IsMatch}
use httptape.Server.Replies.{IsServed, serve_http-IsServed}
use httptape.Server.Templates.{Differ, with_strict, serve_http-Differ}
use httptape.Tests.{memory, platform, runtime, request, tape, tapes}

abbrev criteria : List Criterion
criteria = method_criterion ∷ path_criterion ∷ []

abbrev server : Server
server = record {
  matcher = composite_matcher criteria;
  fallback_status = 404;
  fallback_body = codes "httptape: no matching tape found";
  cors = true;
  delay = pos 0;
  error_rate = 0;
  replay_headers = (codes "x-httptape", codes "1") ∷ [];
  templating = true;
  strict_templating = true;
  replay_timing = instant;
  synthesis = true;
}

abbrev around : Surroundings
around = record {
  rand_float = 0;
  cancelled_at_list = false;
  cancelled_in_delay = false;
  cancelled_in_replay_delay = false;
  can_flush = true;
}

abbrev exemplar : Tape
exemplar = record (tape (codes "9") (codes "GET")) {
  exemplar = true;
  request = record (tape (codes "9") (codes "GET")).request {
    url = [];
    url_pattern = codes "/users";
  };
}

abbrev state : TemplateState
state = record { counters = some []; rand_source = [] }

abbrev stored : List (Text × Tape)
stored = (codes "9", exemplar) ∷ []

match_exemplar-IsMatch_example :
    IsMatch platform runtime
      (pathless_of server.matcher)
      request
      (exemplar ∷ [])
      (match_exemplar platform runtime server request (exemplar ∷ []))
match_exemplar-IsMatch_example =
    match_exemplar-IsMatch platform runtime server request (exemplar ∷ [])

find_tape-IsFound_example :
    IsFound platform runtime server request criteria
      (exemplar ∷ tapes)
      (find_tape platform runtime server request (exemplar ∷ tapes))
find_tape-IsFound_example =
    find_tape-IsFound platform runtime server request criteria (exemplar ∷ tapes) refl

serve_http-IsServed_example :
    IsServed server (serve_http platform runtime server memory stored around request state).0
serve_http-IsServed_example =
    serve_http-IsServed platform runtime server around request memory stored state

serve_http-Differ_example :
    Differ
      (serve_http platform runtime
        (with_strict platform runtime server around request true)
        memory
        stored
        around
        request
        state)
      (serve_http platform runtime
        (with_strict platform runtime server around request false)
        memory
        stored
        around
        request
        state)
serve_http-Differ_example =
    serve_http-Differ platform runtime server around request memory stored state
