-- ===== src/Bundle/Filters.antt =====
-- Which tapes an export takes, and which tapes an import refuses.
use httptape.Prelude.{
  ◌≡◌, ◌≢◌, refl, true, ◌&&◌, none, some, List, [], ◌∷◌, keep, is_empty, nat_beq, arith, All,
  keep_of_All, Bool-cases, inl, inr,
}
use httptape.Tape.{Tape, validate_exemplar}
use httptape.Bundle.{
  ExportConfig, filter_tapes, passes_filters, matches_route_filter, matches_method_filter,
  validate_fixture, empty_url,
}

no_filter :
    (cfg : ExportConfig) (tapes : List Tape)
    → (is_empty cfg.routes && is_empty cfg.methods && nat_beq cfg.since 0) ≡ true
    → All (λ t. passes_filters cfg t ≡ true) tapes
unfolding matches_route_filter matches_method_filter
no_filter cfg [] h = tt
no_filter cfg (t ∷ ts) h = (ground arith, no_filter cfg ts h)

-- The shortcut for an empty configuration is no special case: the tapes that pass every filter are
-- exported, in their order.
pub filter_tapes-eq-keep :
    (tapes : List Tape) (cfg : ExportConfig)
    → filter_tapes tapes cfg ≡ keep (passes_filters cfg) tapes
unfolding filter_tapes
filter_tapes-eq-keep tapes cfg =
    elim (Bool-cases (is_empty cfg.routes && is_empty cfg.methods && nat_beq cfg.since 0)) [
      | inl e ↦ rw (e, keep_of_All (passes_filters cfg) tapes (no_filter cfg tapes e)) refl
      | inr e ↦ rw e refl
    ]

-- A tape that is valid as an exemplar, with an ID and a method, is refused by the import of a bundle:
-- it has no URL.
pub exemplar_refused :
    (t : Tape)
    → validate_exemplar t ≡ none
    → t.exemplar ≡ true
    → t.id ≢ []
    → t.request.method ≢ []
    → validate_fixture t ≡ some empty_url
unfolding validate_exemplar validate_fixture
exemplar_refused t valid exemplar has_id has_method = ground arith
