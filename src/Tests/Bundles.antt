-- ===== src/Tests/Bundles.antt =====
-- The theorems on stores and bundles at sample data.
use httptape.Prelude.{
  ◌≡◌, ◌↔◌, ◌⊎◌, refl, Text, codes, true, false, none, some, Option, List, [], ◌∷◌, split_at,
  contains_byte, Member, text_beq, split_byte, join, strip_prefix, replicate, length, All, text_eq,
}
use httptape.Tape.{Tape, validate_exemplar}
use httptape.Store.{Filter, passes, listed}
use httptape.Store.Memory.{Entries, lookup, save, put, list, memory_store-IsStore}
use httptape.Store.Listing.{Reachable, empty, saved, list_iff}
use httptape.Bundle.{
  Manifest, Archive, ExportConfig, ImportError, validate_entry_name, validate_fixture, empty_url,
  has_prefix, filter_tapes, matches_method_filter, matches_route_filter, clean, clean_stack,
  import_bundle,
}
use httptape.Bundle.Export.{
  apply_export_option, route_set, ExportOption, with_methods, export_bundle, export_config,
  no_config, build_manifest,
}
use httptape.Bundle.RoundTrip.{IsPortable, IsReadable, import_bundle-export_bundle}
use httptape.Diff.{insert_key}
use httptape.Bundle.Filters.{exemplar_refused}
use httptape.Bundle.Names.{StaysInside, validate_entry_name_iff}
use httptape.Bundle.Import.{
  IsImportable, tapes_in, IsStopped, last_saved, live, import_bundle_outcome,
}
use httptape.Tests.{memory, in_order, tape}

abbrev first : Tape
first = tape (codes "1") (codes "GET")

abbrev second : Tape
second = tape (codes "2") (codes "POST")

abbrev get_filter : Filter
get_filter = record { route = codes "users"; method = codes "GET" }

abbrev stored : Entries
stored = (save false second (save false first []).1).1

stored-Reachable : Reachable stored
stored-Reachable = saved false second (saved false first empty)

list_iff_example :
    (out : List Tape) × (list in_order false get_filter stored ≡ listed out)
    × ((t : Tape) → Member t out ↔ ((lookup t.id stored ≡ some t) × (passes get_filter t ≡ true)))
list_iff_example = list_iff in_order stored get_filter stored-Reachable

abbrev config : ExportConfig
config = record { sanitizer_config = []; routes = []; methods = codes "GET" ∷ []; since = 0 }

abbrev exemplar : Tape
exemplar = record first {
  exemplar = true;
  request = record first.request { url = []; url_pattern = codes "/users/:id" };
  response = record first.response { sse_events = [] };
}

exemplar_refused_example : validate_fixture exemplar ≡ some empty_url
exemplar_refused_example =
    exemplar_refused exemplar (unfold validate_exemplar in refl) refl (λ e. cc) (λ e. cc)

validate_entry_name_iff_example : (validate_entry_name (codes "fixtures/a/../1.json") ≡ none) ↔ (
    (has_prefix (codes "fixtures/a/../1.json") (codes "/") ≡ false)
    × (contains_byte 92 (codes "fixtures/a/../1.json") ≡ false)
    × StaysInside 0 (split_at b'/' (codes "fixtures/a/../1.json")))
validate_entry_name_iff_example = validate_entry_name_iff (codes "fixtures/a/../1.json")

abbrev decode_manifest : Text → Option Manifest
decode_manifest s =
    some (record { exported_at = 0; fixture_count = 1; routes = []; sanitizer_config = s })

abbrev decode_tape : Text → Option Tape
decode_tape s = some first

abbrev archive : Archive
archive = record {
  entries = (codes "manifest.json", codes "{}") ∷ (codes "fixtures/1.json", codes "{}") ∷ [];
  broken = false;
}

import_bundle_outcome_example :
    (IsImportable decode_manifest decode_tape archive
      × (((import_bundle decode_manifest decode_tape live memory archive []).0 ≡ none)
            × ((id : Text)
                → lookup id (import_bundle decode_manifest decode_tape live memory archive []).1
                  ≡ last_saved id
                      (tapes_in decode_manifest decode_tape archive.entries)
                      (lookup id []))
          ⊎ IsStopped decode_manifest decode_tape memory
              (λ s id. lookup id s)
              (memory_store-IsStore in_order).0
              []
              (tapes_in decode_manifest decode_tape archive.entries)
              (import_bundle decode_manifest decode_tape live memory archive [])))
    ⊎ ((IsImportable decode_manifest decode_tape archive → ⊥)
        × (e : ImportError) × (import_bundle decode_manifest decode_tape live memory archive []
            ≡ (some e, [])))
import_bundle_outcome_example =
    import_bundle_outcome decode_manifest decode_tape memory (λ s id. lookup id s)
      (memory_store-IsStore in_order).0 archive []

-- a tape is written as its ID, and a manifest as so many bytes as it has fixtures
abbrev encode_manifest : Manifest → Option Text
encode_manifest m = some (replicate m.fixture_count 0)

abbrev decode_count : Text → Option Manifest
decode_count s = some (record {
  exported_at = 7;
  fixture_count = length s;
  routes = codes "users" ∷ [];
  sanitizer_config = [];
})

abbrev encode_tape : Tape → Option Text
encode_tape t = some t.id

abbrev decode_id : Text → Option Tape
decode_id s = some (tape s (codes "GET"))

abbrev options : List ExportOption
options = with_methods (codes "get" ∷ []) ∷ []

listed_tapes :
    list in_order false (record { route = []; method = [] }) stored ≡ listed (first ∷ second ∷ [])
unfolding list passes save put text_beq
listed_tapes = refl

portable :
    All
      (IsPortable encode_manifest encode_tape (λ name. true) decode_count decode_id)
      (filter_tapes (first ∷ second ∷ []) (export_config options no_config))
unfolding filter_tapes export_config apply_export_option matches_method_filter matches_route_filter
    text_beq validate_entry_name clean clean_stack split_at split_byte join contains_byte
    strip_prefix
portable = (
  record {
    usable = (λ e. cc, λ e. cc, λ e. cc);
    safe_name = refl;
    fits_header = refl;
    content = codes "1";
    encoded = refl;
    decodes = refl;
  },
  tt,
)

readable :
    IsReadable encode_manifest encode_tape
      (λ name. true)
      decode_count
      decode_id
      (build_manifest 7
        (filter_tapes (first ∷ second ∷ []) (export_config options no_config))
        (export_config options no_config))
unfolding build_manifest route_set insert_key filter_tapes export_config apply_export_option
    matches_method_filter matches_route_filter text_beq
readable = record { fits_header = refl; content = 0 ∷ []; encoded = refl; decodes = refl }

import_bundle-export_bundle_example :
    (archive : Archive) × (export_bundle encode_manifest encode_tape
        (λ name. true)
        live
        memory
        false
        7
        options
        stored
      ≡ some archive)
    × ((import_bundle decode_count decode_id live memory archive []).0 ≡ none)
    × ((id : Text)
        → lookup id (import_bundle decode_count decode_id live memory archive []).1
          ≡ last_saved id
              (filter_tapes (first ∷ second ∷ []) (export_config options no_config))
              (lookup id []))
unfolding filter_tapes export_config text_beq save
import_bundle-export_bundle_example =
    import_bundle-export_bundle encode_manifest encode_tape (λ name. true) decode_count decode_id
      memory memory (λ s id. lookup id s) (memory_store-IsStore in_order).0 7 options stored []
      (first ∷ second ∷ []) listed_tapes portable readable ((λ s. refl), tt)
