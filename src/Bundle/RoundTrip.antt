-- ===== src/Bundle/RoundTrip.antt =====
-- An archive that is exported and imported again.
use httptape.Prelude.{
  ℕ, suc, ◌≡◌, refl, sym, ap, ◌∙◌, Text, codes, text_beq, Bool, true, false, Option, none, some,
  List, [], ◌∷◌, ◌++◌, length, take, All, ◌==◌, text_eq, strip_prefix, split_at, split_byte, join,
  contains_byte, inl, inr,
}
use mathlib.Core.List.{reverse-append}
use mathlib.Core.Path.{subst}
use httptape.Tape.{Tape}
use httptape.Store.{Store, IsStore, Takes, listed}
use httptape.Bundle.{
  ExportConfig, Manifest, Archive, is_fixture_entry, validate_entry_name, max_entry_size, clean,
  clean_stack, filter_tapes, import_bundle,
}
use httptape.Bundle.Export.{
  ExportOption, export_config, no_config, fixture_name, build_manifest, write_tapes, write_bundle,
  export_bundle, archive_of,
}
use httptape.Bundle.Import.{
  IsUsable, IsImportable, IsAcceptable, Counts, tapes_in, manifest_in, last_saved, live,
  import_bundle_outcome, IsStopped-taken,
}

-- the names of the entries of tapes
fixture_name-is_fixture_entry : (t : Tape) → is_fixture_entry (fixture_name t) ≡ true
unfolding is_fixture_entry strip_prefix
fixture_name-is_fixture_entry t =
    rw (reverse-append (codes "fixtures/" ++ t.id) (codes ".json")) refl

fixture_name-manifest : (t : Tape) → (fixture_name t == codes "manifest.json") ≡ false
unfolding text_beq
fixture_name-manifest t = refl

module _ (encode_manifest : Manifest → Option Text) (encode_tape : Tape → Option Text)
    (takes_header : Text → Bool) (decode_manifest : Text → Option Manifest)
    (decode_tape : Text → Option Tape) where
  -- A tape that can go through an archive: an import can use it, the name of its entry is safe and fits a header, and
  -- what it is encoded to is within the size of an entry and decoded to it.
  pub record IsPortable (t : Tape) : Type 0 where
    pub usable : IsUsable t
    pub safe_name : validate_entry_name (fixture_name t) ≡ none
    pub fits_header : takes_header (fixture_name t) ≡ true
    pub content : Text
    pub encoded : encode_tape t ≡ some content
    pub decodes : decode_tape (take max_entry_size content) ≡ some t

  pub record IsReadable (m : Manifest) : Type 0 where
    pub fits_header : takes_header (codes "manifest.json") ≡ true
    pub content : Text
    pub encoded : encode_manifest m ≡ some content
    pub decodes : decode_manifest (take max_entry_size content) ≡ some m

  -- what is written of tapes is read to them
  pub record IsWritten (ts : List Tape) (a : Archive) : Type 0 where
    pub unbroken : a.broken ≡ false
    pub accepted : All (IsAcceptable decode_manifest decode_tape) a.entries
    pub same_tapes : tapes_in decode_manifest decode_tape a.entries ≡ ts
    pub no_manifest :
        (m : Option Manifest) → manifest_in decode_manifest decode_tape m a.entries ≡ m

  write_tapes-IsWritten :
      (k : ℕ) (ts : List Tape)
      → All IsPortable ts
      → IsWritten ts (write_tapes encode_manifest encode_tape takes_header live k ts)
  unfolding write_tapes
  write_tapes-IsWritten k [] h = record {
    unbroken = refl;
    accepted = tt;
    same_tapes = refl;
    no_manifest = λ m. refl;
  }
  write_tapes-IsWritten k (t ∷ ts) (p, h) =
      let rest = write_tapes-IsWritten (suc k) ts h in
      rw (p.encoded, p.fits_header)
        (record {
          unbroken = rest.unbroken;
          accepted = (
            (
              p.safe_name,
              rw (fixture_name-manifest t, fixture_name-is_fixture_entry t, p.decodes) p.usable,
            ),
            rest.accepted,
          );
          same_tapes =
              rw (fixture_name-manifest t, fixture_name-is_fixture_entry t, p.decodes)
                (ap (λ us. t ∷ us) rest.same_tapes);
          no_manifest = λ m. rw (manifest_in, fixture_name-manifest t) (rest.no_manifest m);
        })

  manifest-safe : validate_entry_name (codes "manifest.json") ≡ none
  unfolding validate_entry_name clean clean_stack split_at split_byte join contains_byte
      strip_prefix text_beq
  manifest-safe = refl

  counted :
      {o : Option Manifest} {us : List Tape} (m : Manifest) (ts : List Tape)
      → o ≡ some m
      → us ≡ ts
      → m.fixture_count ≡ length ts
      → Counts decode_manifest decode_tape o us
  counted {us} m ts e f n =
      subst (λ x. Counts decode_manifest decode_tape x us) (sym e) (n ∙ ap length (sym f))

  write_bundle-IsImportable :
      (now : ℕ) (ts : List Tape) (cfg : ExportConfig)
      → All IsPortable ts
      → IsReadable (build_manifest now ts cfg)
      → IsImportable decode_manifest decode_tape
          (write_bundle encode_manifest encode_tape takes_header live now ts cfg)
        × (tapes_in decode_manifest decode_tape
              (write_bundle encode_manifest encode_tape takes_header live now ts cfg).entries
            ≡ ts)
  unfolding write_bundle text_beq
  write_bundle-IsImportable now ts cfg h r =
      let w = write_tapes-IsWritten 1 ts h in
      let a = write_tapes encode_manifest encode_tape takes_header live 1 ts in
      rw (r.encoded, r.fits_header)
        (
          (
            (((manifest-safe, rw r.decodes tt), w.accepted), w.unbroken),
            counted (build_manifest now ts cfg) ts
                (ap (λ o. manifest_in decode_manifest decode_tape o a.entries) r.decodes
                  ∙ w.no_manifest (some (build_manifest now ts cfg)))
                w.same_tapes (unfold build_manifest in refl),
          ),
          w.same_tapes,
        )

  module _ {S1 S2 : Type 0} (source : Store S1) (target : Store S2)
      (contents : S2 → Text → Option Tape) (laws : IsStore target contents) where
    -- With a live context, the tapes that a store lists and the export's filters let pass come through the archive: if each is
    -- portable, the manifest is read as it was written, and the target is a store that keeps the interface's promises and takes
    -- each of these tapes whatever its state, then the archive is imported with no error, and each ID leads
    -- there to the last of these tapes of that ID, or to what it led to before.
    pub import_bundle-export_bundle :
        (now : ℕ) (opts : List ExportOption) (s1 : S1) (s2 : S2) (tapes : List Tape)
        → source.list false (record { route = []; method = [] }) s1 ≡ listed tapes
        → All IsPortable (filter_tapes tapes (export_config opts no_config))
        → IsReadable (
            build_manifest now
              (filter_tapes tapes (export_config opts no_config))
              (export_config opts no_config))
        → All (Takes target) (filter_tapes tapes (export_config opts no_config))
        → (archive : Archive) × (export_bundle encode_manifest encode_tape takes_header live source
              false now opts s1
            ≡ some archive)
          × ((import_bundle decode_manifest decode_tape live target archive s2).0 ≡ none)
          × ((id : Text)
              → contents (import_bundle decode_manifest decode_tape live target archive s2).1 id
                ≡ last_saved id
                    (filter_tapes tapes (export_config opts no_config))
                    (contents s2 id))
    unfolding export_bundle archive_of
    import_bundle-export_bundle now opts s1 s2 tapes lists portable readable takes =
        let cfg = export_config opts no_config in
        let kept = filter_tapes tapes cfg in
        let archive = write_bundle encode_manifest encode_tape takes_header live now kept cfg in
        let (importable, same) = write_bundle-IsImportable now kept cfg portable readable in
        elim (import_bundle_outcome decode_manifest decode_tape target contents laws archive s2) [
          | inl (yes', inl (ok, all)) ↦ (
            archive,
            ap (archive_of encode_manifest encode_tape takes_header live now opts) lists,
            ok,
            λ id. all id ∙ ap (λ ts. last_saved id ts (contents s2 id)) same,
          )
          | inl (yes', inr stopped) ↦ absurd (
              IsStopped-taken decode_manifest decode_tape target contents laws s2 _ _
                (subst (All (Takes target)) (sym same) takes) stopped)
          | inr (refused, e, f) ↦ absurd (refused importable)
        ]
