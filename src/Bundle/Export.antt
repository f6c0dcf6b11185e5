-- ===== src/Bundle/Export.antt =====
-- bundle.go: the export of tapes to an archive.
use httptape.Prelude.{
  ℕ, suc, Text, codes, Bool, true, false, Option, none, some, List, [], ◌∷◌, ◌++◌, length, map,
  is_empty, if◌then◌else◌,
}
use httptape.Tape.{Tape}
use httptape.Store.{Store, Listed, not_listed, listed}
use httptape.Diff.{insert_key}
use httptape.Bundle.{Manifest, Archive, ExportConfig, filter_tapes, to_upper}

pub data ExportOption : Type 0 where
  with_sanitizer_config : Text → ExportOption
  with_routes with_methods : List Text → ExportOption
  with_since : ℕ → ExportOption

unfoldable pub apply_export_option : ExportOption → ExportConfig → ExportConfig
apply_export_option (with_sanitizer_config summary) cfg = record cfg { sanitizer_config = summary }
apply_export_option (with_routes routes) cfg = record cfg { routes = routes }
apply_export_option (with_methods methods) cfg = record cfg { methods = map to_upper methods }
apply_export_option (with_since t) cfg = record cfg { since = t }

unfoldable pub export_config : List ExportOption → ExportConfig → ExportConfig
unfolding apply_export_option
export_config [] cfg = cfg
export_config (opt ∷ opts) cfg = export_config opts (apply_export_option opt cfg)

abbrev pub no_config : ExportConfig
no_config = record { sanitizer_config = []; routes = []; methods = []; since = 0 }

-- the set of the labels, sorted
unfoldable pub route_set : List Tape → List Text
unfolding insert_key
route_set [] = []
route_set (t ∷ ts) =
    let rest = route_set ts in if is_empty t.route then rest else insert_key t.route rest

unfoldable pub build_manifest : (now : ℕ) → List Tape → ExportConfig → Manifest
unfolding route_set
build_manifest now tapes cfg = record {
  exported_at = now;
  fixture_count = length tapes;
  routes = route_set tapes;
  sanitizer_config = cfg.sanitizer_config;
}

abbrev pub fixture_name : Tape → Text
fixture_name t = codes "fixtures/" ++ t.id ++ codes ".json"

-- json.MarshalIndent of a manifest and of a tape, and whether tar takes a header of that name, are
-- parameters; `cancelled k` is the outcome of the k-th look at the context. The reader of the pipe has what
-- is written before an error, and then fails.
module _ (encode_manifest : Manifest → Option Text) (encode_tape : Tape → Option Text)
    (takes_header : Text → Bool) (cancelled : ℕ → Bool) where
  abbrev pub failed : Archive
  failed = record { entries = []; broken = true }

  abbrev pub entry_then : Text → Option Text → Archive → Archive
  entry_then name none rest = failed
  entry_then name (some content) rest =
      if takes_header name then record rest { entries = (name, content) ∷ rest.entries } else failed

  unfoldable pub write_tapes : ℕ → List Tape → Archive
  write_tapes k [] = record { entries = []; broken = false }
  write_tapes k (tape ∷ tapes) =
      let rest = write_tapes (suc k) tapes in
      if cancelled k then failed else entry_then (fixture_name tape) (encode_tape tape) rest

  unfoldable pub write_bundle : (now : ℕ) → List Tape → ExportConfig → Archive
  unfolding build_manifest write_tapes
  write_bundle now tapes cfg =
      let manifest_json = encode_manifest (build_manifest now tapes cfg) in
      if cancelled 0
      then failed
      else entry_then (codes "manifest.json") manifest_json (write_tapes 1 tapes)

  unfoldable pub archive_of : (now : ℕ) → List ExportOption → Listed → Option Archive
  unfolding export_config write_bundle filter_tapes
  archive_of now opts (not_listed e) = none
  archive_of now opts (listed tapes) =
      let cfg = export_config opts no_config in some (write_bundle now (filter_tapes tapes cfg) cfg)

  -- `list_cancelled` tells of the context when the store is asked
  unfoldable pub export_bundle :
      {S : Type 0}
      → Store S
      → (list_cancelled : Bool) → (now : ℕ) → List ExportOption
      → S
      → Option Archive
  unfolding archive_of
  export_bundle store list_cancelled now opts s =
      archive_of now opts (store.list list_cancelled (record { route = []; method = [] }) s)
