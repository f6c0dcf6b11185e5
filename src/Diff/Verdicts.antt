-- ===== src/Diff/Verdicts.antt =====
-- What a verdict of the diff says of the two responses.
use httptape.Prelude.{
  ◌≡◌, Text, Bool, false, ◌&&◌, Option, none, List, [], lookup, if◌then◌else◌, text_eq,
}
use httptape.Platform.{Platform, Runtime}
use httptape.Tape.{Tape, RecordedResp, body_hash_from_bytes}
use httptape.Diff.{BodyFieldDiff}
use httptape.Diff.Reports.{SameValues}
use httptape.Diff.Headers.{HeaderDiff, is_in}
use httptape.Diff.Report.{DiffConfig, StatusCodeDiff, is_json_body}

module _ (pf : Platform) (rt : Runtime) (cfg : DiffConfig) where
  -- The values of two bodies of JSON do not differ but at ignored paths; two others have the same hash.
  abbrev pub IsSameBody : Text → Text → Type 0
  IsSameBody fixture live =
      if is_json_body pf rt cfg fixture && is_json_body pf rt cfg live
      then SameValues cfg.ignore_paths pf fixture live
      else body_hash_from_bytes pf fixture ≡ body_hash_from_bytes pf live

  abbrev pub IsSame : RecordedResp → RecordedResp → Type 0
  IsSame fixture live =
      (fixture.status_code ≡ live.status_code)
      × ((name : Text)
          → is_in name cfg.ignore_headers ≡ false
          → lookup name fixture.headers ≡ lookup name live.headers)
      × IsSameBody fixture.body live.body

  abbrev NoDifference : Option StatusCodeDiff → List HeaderDiff → List BodyFieldDiff → Bool → Type 0
  NoDifference code hs fields changed =
      (code ≡ none) × (hs ≡ []) × (fields ≡ []) × (changed ≡ false)
