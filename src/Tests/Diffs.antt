-- ===== src/Tests/Diffs.antt =====
-- The theorems on differences at sample bodies.
use httptape.Prelude.{
  text_beq, codes, ◌≡◌, ◌↔◌, refl, List, [], ◌∷◌, Member, false, true, ◌≢◌, lookup,
}
use httptape.JsonPath.{Segment}
use httptape.Json.{Json, null, str, num, obj, field, end, get, json_equal}
use httptape.Diff.{
  BodyFieldDiff, field_changed, diff_json_bodies, compare_json, children, sorted_keys, insert_key,
  text_less, compare_keys, is_ignored, matches_ignore_path, format_path,
}
use httptape.Diff.Reports.{IsDifference, diff_json_bodies_iff}
use httptape.Header.{canonical_key, is_token_byte, is_letter, recase}
use httptape.Caching.{UpstreamAnswer}
use httptape.Diff.Headers.{IsCanonical, reports, diff_headers, is_in, reports-diff_headers}
use httptape.Diff.Report.{DiffConfig, default_config}
use httptape.Tests.{user, platform, json_headers}

abbrev ignored : List (List Segment)
ignored = (record { key = codes "age"; wildcard = false } ∷ []) ∷ []

abbrev reported_change : BodyFieldDiff
reported_change = record {
  path = codes "$.name";
  kind = field_changed;
  old_value = str (codes "ann@mail.org");
  new_value = null;
}

diff_json_bodies_iff_example :
    Member reported_change (diff_json_bodies ignored platform (codes "{u}") (codes "{v}"))
    ↔ IsDifference ignored platform (codes "{u}") (codes "{v}") reported_change
diff_json_bodies_iff_example =
    diff_json_bodies_iff ignored platform (codes "{u}") (codes "{v}") reported_change

-- an object whose name has another type than the fixture's, and whose age has another value, which is ignored
abbrev renamed : Json
renamed = obj (field (codes "name") null (field (codes "age") (num 42) end))

renamed-reported : compare_json ignored user renamed [] ≡ reported_change ∷ []
unfolding compare_json children sorted_keys insert_key text_less compare_keys is_ignored
    matches_ignore_path format_path json_equal get text_beq
renamed-reported = refl

canonical : IsCanonical json_headers
unfolding canonical_key is_token_byte is_letter recase
canonical = (refl, (refl, tt))

reports-diff_headers_example :
    (reports (codes "Content-Type") (diff_headers json_headers [] (codes "Authorization" ∷ []))
      ≡ true)
    ↔ ((is_in (codes "Content-Type") (codes "Authorization" ∷ []) ≡ false)
        × (lookup (codes "Content-Type") json_headers ≢ lookup (codes "Content-Type") []))
reports-diff_headers_example =
    reports-diff_headers json_headers [] (codes "Authorization" ∷ []) canonical tt
      (codes "Content-Type")

abbrev answer : UpstreamAnswer
answer = record {
  status_code = 200;
  headers = json_headers;
  body = codes "{v}";
  breaks_off = false;
}

abbrev config : DiffConfig
config = record default_config { ignore_paths = ignored }
