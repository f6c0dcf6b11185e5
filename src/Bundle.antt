-- ===== src/Bundle.antt =====
-- bundle.go: the export of tapes to an archive, and the import of one. An archive is the list of its
-- entries, as gzip and tar give them.
pub mod Names
pub mod Export
pub mod RoundTrip
pub mod Import
pub mod Filters
use httptape.Prelude.{
  ℕ, suc, ◌+◌, ◌-◌, ◌*◌, ◌^◌, ◌≡◌, Text, codes, Bool, true, false, not, ◌&&◌, ◌||◌, Option, none,
  some, List, [], ◌∷◌, ◌++◌, length, take, keep, any, is_empty, ltb, leb, nat_beq, if◌then◌else◌,
  ◌==◌, text_eq, split_at, join, contains_byte, strip_prefix,
}
use mathlib.Core.List.{reverse}
use httptape.Tape.{Tape}
use httptape.Store.{StoreError, Store}

-- every error that `ImportBundle` returns
pub data ImportError : Type 0 where
  bad_archive import_cancelled absolute_path backslash path_traversal : ImportError
  invalid_manifest invalid_fixture empty_id empty_method empty_url : ImportError
  missing_manifest count_mismatch : ImportError
  not_saved : StoreError → ImportError

pub record Manifest : Type 0 where
  pub exported_at : ℕ
  pub fixture_count : ℕ
  pub routes : List Text
  pub sanitizer_config : Text

abbrev pub has_prefix : Text → Text → Bool
has_prefix s prefix = elim (strip_prefix prefix s) [ none ↦ false | some rest ↦ true ]

abbrev pub has_suffix : Text → Text → Bool
has_suffix s suffix = has_prefix (reverse s) (reverse suffix)

unfoldable pub is_fixture_entry : Text → Bool
is_fixture_entry name = has_prefix name (codes "fixtures/") && has_suffix name (codes ".json")

-- one element of a path in path.Clean; the elements so far, the last one first
abbrev pub parent_of : List Text → List Text
parent_of [] = codes ".." ∷ []
parent_of (s ∷ stack) = if s == codes ".." then codes ".." ∷ s ∷ stack else stack

abbrev pub enter : Text → List Text → List Text
enter segment stack =
    if is_empty segment || segment == codes "."
    then stack
    else if segment == codes ".."
    then parent_of stack
    else segment ∷ stack

unfoldable pub clean_stack : List Text → List Text → List Text
clean_stack stack [] = stack
clean_stack stack (segment ∷ segments) = clean_stack (enter segment stack) segments

abbrev pub unless_empty : Text → Text
unless_empty s = if is_empty s then codes "." else s

-- path.Clean of a path with no leading slash
unfoldable pub clean : Text → Text
unfolding clean_stack
clean name = unless_empty (join b'/' (reverse (clean_stack [] (split_at b'/' name))))

unfoldable pub validate_entry_name : Text → Option ImportError
unfolding clean
validate_entry_name name =
    if has_prefix name (codes "/")
    then some absolute_path
    else if contains_byte 92 name
    then some backslash
    else if any (λ segment. segment == codes "..") (split_at b'/' (clean name))
    then some path_traversal
    else none

unfoldable pub validate_fixture : Tape → Option ImportError
validate_fixture t =
    if is_empty t.id
    then some empty_id
    else if is_empty t.request.method
    then some empty_method
    else if is_empty t.request.url
    then some empty_url
    else none

-- what the loop over the entries has found, or the error it returns
pub data Read : Type 0 where
  refused : ImportError → Read
  found : Option Manifest → List Tape → Read

abbrev pub max_entry_size : ℕ
max_entry_size = 50 * 2 ^ 20

pub record Archive : Type 0 where
  pub entries : List (Text × Text)
  -- the reader fails behind them
  pub broken : Bool

abbrev pub with_manifest : Option Manifest → List Tape → Read
with_manifest none tapes = refused invalid_manifest
with_manifest (some m) tapes = found (some m) tapes

abbrev pub add_valid : Option Manifest → List Tape → Tape → Option ImportError → Read
add_valid manifest tapes t none = found manifest (tapes ++ t ∷ [])
add_valid manifest tapes t (some e) = refused e

abbrev pub with_tape : Option Manifest → List Tape → Option Tape → Read
with_tape manifest tapes none = refused invalid_fixture
with_tape manifest tapes (some t) = add_valid manifest tapes t (validate_fixture t)

-- json.Decoder's Decode of a manifest and of a tape are parameters; `cancelled k` is the outcome of
-- the k-th look at the context.
module _ (decode_manifest : Text → Option Manifest) (decode_tape : Text → Option Tape)
    (cancelled : ℕ → Bool) where
  abbrev pub read_content : Text × Text → Option Manifest → List Tape → Read
  read_content (name, content) manifest tapes =
      let lr = take max_entry_size content in
      if name == codes "manifest.json"
      then with_manifest (decode_manifest lr) tapes
      else if is_fixture_entry name
      then with_tape manifest tapes (decode_tape lr)
      else found manifest tapes

  abbrev pub read_named : Option ImportError → Text × Text → Option Manifest → List Tape → Read
  read_named none entry manifest tapes = read_content entry manifest tapes
  read_named (some e) entry manifest tapes = refused e

  unfoldable pub read_entry : ℕ → Text × Text → Option Manifest → List Tape → Read
  read_entry k entry manifest tapes =
      if cancelled k
      then refused import_cancelled
      else read_named (validate_entry_name entry.0) entry manifest tapes

  abbrev pub then_read : (Option Manifest → List Tape → Read) → Read → Read
  then_read next (refused e) = refused e
  then_read next (found manifest tapes) = next manifest tapes

  unfoldable pub read_entries :
      ℕ → List (Text × Text) → (broken : Bool) → Option Manifest → List Tape → Read
  unfolding read_entry
  read_entries k [] broken manifest tapes =
      if broken then refused bad_archive else found manifest tapes
  read_entries k (entry ∷ entries) broken manifest tapes =
      then_read (λ m ts. read_entries (suc k) entries broken m ts)
        (read_entry k entry manifest tapes)

  abbrev pub check_manifest : Option Manifest → List Tape → Read
  check_manifest none tapes = refused missing_manifest
  check_manifest (some m) tapes =
      if nat_beq m.fixture_count (length tapes)
      then found (some m) tapes
      else refused count_mismatch

  module _ {S : Type 0} (store : Store S) where
    -- the second loop
    unfoldable pub persist : ℕ → List Tape → S → Option ImportError × S
    persist k [] s = (none, s)
    persist k (t ∷ ts) s =
        let saved = store.save (cancelled (suc k)) t s in
        let rest = persist (k + 2) ts saved.1 in
        if cancelled k
        then (some import_cancelled, s)
        else elim saved.0 [ none ↦ rest | some e ↦ (some (not_saved e), saved.1) ]

    abbrev pub persist_read : ℕ → S → Read → Option ImportError × S
    persist_read k s (refused e) = (some e, s)
    persist_read k s (found manifest tapes) = persist k tapes s

    unfoldable pub import_bundle : Archive → S → Option ImportError × S
    unfolding read_entries persist
    import_bundle archive s =
        persist_read (length archive.entries) s
          (then_read check_manifest (read_entries 0 archive.entries archive.broken none []))

-- `exportConfig`; the zero time is 0
pub record ExportConfig : Type 0 where
  pub sanitizer_config : Text
  pub routes : List Text
  pub methods : List Text
  pub since : ℕ

unfoldable pub matches_route_filter : Tape → List Text → Bool
matches_route_filter t routes = if is_empty routes then true else any (λ r. t.route == r) routes

-- strings.ToUpper of ASCII text
abbrev pub to_upper : Text → Text
to_upper [] = []
to_upper (c ∷ s) = (if leb b'a' c && leb c b'z' then c - 32 else c) ∷ to_upper s

unfoldable pub matches_method_filter : Tape → List Text → Bool
matches_method_filter t methods =
    if is_empty methods then true else any (λ allowed. to_upper t.request.method == allowed) methods

abbrev pub passes_filters : ExportConfig → Tape → Bool
passes_filters cfg t =
    matches_route_filter t cfg.routes
    && matches_method_filter t cfg.methods
    && not (not (nat_beq cfg.since 0) && ltb t.recorded_at cfg.since)

unfoldable pub filter_tapes : List Tape → ExportConfig → List Tape
unfolding matches_route_filter matches_method_filter
filter_tapes tapes cfg =
    if is_empty cfg.routes && is_empty cfg.methods && nat_beq cfg.since 0
    then tapes
    else keep (passes_filters cfg) tapes
