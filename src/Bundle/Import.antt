-- ===== src/Bundle/Import.antt =====
-- What the import of a bundle does to a store, with a context that stays live.
use httptape.Prelude.{
  ℕ, suc, ◌+◌, ◌≡◌, ◌≢◌, ◌↔◌, ◌⊎◌, refl, ap, ◌∙◌, Text, codes, Bool, true, false, Option, none,
  some, List, [], ◌∷◌, ◌++◌, length, take, All, nat_beq, nat_beq_iff, arith, if◌then◌else◌, ◌==◌,
  text_eq, Bool-cases, Option-cases, inl, inr,
}
use mathlib.Core.Path.{subst}
use mathlib.Core.List.{append_assoc, append-nil}
use httptape.Tape.{Tape}
use httptape.Store.{Store, StoreError, IsStore, Takes}
use httptape.Bundle.{
  ImportError, not_saved, Manifest, Archive, Read, refused, found, is_fixture_entry,
  validate_entry_name, validate_fixture, max_entry_size, with_manifest, with_tape, read_content,
  read_entry, read_entries, check_manifest, persist, import_bundle,
}

-- a tape with what matching and replay need
abbrev pub IsUsable : Tape → Type 0
IsUsable t = (t.id ≢ []) × (t.request.method ≢ []) × (t.request.url ≢ [])

validate_fixture_iff : (t : Tape) → (validate_fixture t ≡ none) ↔ IsUsable t
unfolding validate_fixture
validate_fixture_iff t = (λ h. ground arith, λ h. ground arith)

-- The tape that each ID has after the tapes are saved in their order.
abbrev pub last_saved : Text → List Tape → Option Tape → Option Tape
last_saved id [] old = old
last_saved id (t ∷ ts) old = last_saved id ts (if t.id == id then some t else old)

abbrev IsManifest : Option Manifest → Type 0
IsManifest none = ⊥
IsManifest (some m) = Unit

abbrev IsDecoded : Option Tape → Type 0
IsDecoded none = ⊥
IsDecoded (some t) = IsUsable t

abbrev decoded : Option Tape → List Tape
decoded none = []
decoded (some t) = t ∷ []

-- `r` is the success if `P` holds, and an error if not
abbrev Outcome : Type 0 → Read → Read → Type 0
Outcome P success r = (P × (r ≡ success)) ⊎ ((P → ⊥) × (e : ImportError) × (r ≡ refused e))

read_tape :
    (m : Option Manifest) (ts : List Tape) (o : Option Tape)
    → Outcome (IsDecoded o) (found m (ts ++ decoded o)) (with_tape m ts o)
read_tape m ts none = inr (λ h. absurd h, _, refl)
read_tape m ts (some t) = elim (Option-cases (validate_fixture t)) [
  | inl e ↦ rw e (inl ((validate_fixture_iff t).0 e, refl))
  | inr (err, e) ↦ rw e (inr (λ u. absurd (cc ((validate_fixture_iff t).1 u)), err, refl))
]

read_manifest :
    (ts : List Tape) (o : Option Manifest)
    → Outcome (IsManifest o) (found o (ts ++ [])) (with_manifest o ts)
read_manifest ts none = inr (λ h. absurd h, _, refl)
read_manifest ts (some m) = rw append-nil (inl (tt, refl))

-- a context that is never cancelled
abbrev pub live : ℕ → Bool
live k = false

module _ (decode_manifest : Text → Option Manifest) (decode_tape : Text → Option Tape) where
  abbrev HasContent : Text → Text → Type 0
  HasContent name lr =
      if name == codes "manifest.json"
      then IsManifest (decode_manifest lr)
      else if is_fixture_entry name
      then IsDecoded (decode_tape lr)
      else Unit

  -- an entry that the import accepts: its name is safe, a manifest decodes, and a fixture decodes to
  -- a usable tape
  abbrev pub IsAcceptable : Text × Text → Type 0
  IsAcceptable (name, content) =
      (validate_entry_name name ≡ none) × HasContent name (take max_entry_size content)

  abbrev tapes_of : Text × Text → List Tape
  tapes_of (name, content) =
      if name == codes "manifest.json"
      then []
      else if is_fixture_entry name
      then decoded (decode_tape (take max_entry_size content))
      else []

  -- the tapes in an archive, and the last manifest
  abbrev pub tapes_in : List (Text × Text) → List Tape
  tapes_in [] = []
  tapes_in (entry ∷ entries) = tapes_of entry ++ tapes_in entries

  abbrev manifest_after : Option Manifest → Text × Text → Option Manifest
  manifest_after old (name, content) =
      if name == codes "manifest.json" then decode_manifest (take max_entry_size content) else old

  abbrev pub manifest_in : Option Manifest → List (Text × Text) → Option Manifest
  manifest_in old [] = old
  manifest_in old (entry ∷ entries) = manifest_in (manifest_after old entry) entries

  -- the manifest counts the tapes
  abbrev pub Counts : Option Manifest → List Tape → Type 0
  Counts none ts = ⊥
  Counts (some m) ts = m.fixture_count ≡ length ts

  -- A whole archive of acceptable entries, whose manifest counts its fixtures.
  abbrev pub IsImportable : Archive → Type 0
  IsImportable archive =
      (All IsAcceptable archive.entries × (archive.broken ≡ false))
      × Counts (manifest_in none archive.entries) (tapes_in archive.entries)

  read_content-Outcome :
      (name content : Text) (m : Option Manifest) (ts : List Tape)
      → Outcome
          (HasContent name (take max_entry_size content))
          (found (manifest_after m (name, content)) (ts ++ tapes_of (name, content)))
          (read_content decode_manifest decode_tape live (name, content) m ts)
  read_content-Outcome name content m ts =
      let lr = take max_entry_size content in
      elim (Bool-cases (name == codes "manifest.json")) [
        | inl e ↦ rw e (read_manifest ts (decode_manifest lr))
        | inr e ↦ elim (Bool-cases (is_fixture_entry name)) [
          | inl fixture ↦ rw (e, fixture) (read_tape m ts (decode_tape lr))
          | inr other ↦ rw (e, other) (rw append-nil (inl (tt, refl)))
        ]
      ]

  read_entry-Outcome :
      (k : ℕ) (entry : Text × Text) (m : Option Manifest) (ts : List Tape)
      → Outcome
          (IsAcceptable entry)
          (found (manifest_after m entry) (ts ++ tapes_of entry))
          (read_entry decode_manifest decode_tape live k entry m ts)
  unfolding read_entry
  read_entry-Outcome k (name, content) m ts = elim (Option-cases (validate_entry_name name)) [
    | inl e ↦ rw e (elim (read_content-Outcome name content m ts) [
      | inl h ↦ inl ((refl, h.0), h.1)
      | inr h ↦ inr (λ u. h.0 u.1, h.1, h.2)
    ])
    | inr (err, e) ↦ rw e (inr (λ u. absurd (cc (u.0)), err, refl))
  ]

  read_entries-Outcome :
      (k : ℕ) (entries : List (Text × Text)) (broken : Bool) (m : Option Manifest) (ts : List Tape)
      → Outcome
          (All IsAcceptable entries × (broken ≡ false))
          (found (manifest_in m entries) (ts ++ tapes_in entries))
          (read_entries decode_manifest decode_tape live k entries broken m ts)
  unfolding read_entries
  read_entries-Outcome k [] true m ts = inr (λ u. absurd (cc (u.1)), _, refl)
  read_entries-Outcome k [] false m ts = rw append-nil (inl ((tt, refl), refl))
  read_entries-Outcome k (entry ∷ entries) broken m ts =
      let rest =
        read_entries-Outcome (suc k) entries broken (manifest_after m entry)
          (ts ++ tapes_of entry) in
      elim (read_entry-Outcome k entry m ts) [
        | inl h ↦ rw h.1 (elim rest [
          | inl r ↦ inl (
            ((h.0, r.0.0), r.0.1),
            r.1
                ∙ ap (found (manifest_in (manifest_after m entry) entries))
                    (append_assoc ts (tapes_of entry) (tapes_in entries)),
          )
          | inr r ↦ inr (λ u. r.0 (u.0.1, u.1), r.1, r.2)
        ])
        | inr h ↦ rw h.2 (inr (λ u. h.0 u.0.0, h.1, refl))
      ]

  check_manifest-Outcome :
      (o : Option Manifest) (ts : List Tape)
      → Outcome (Counts o ts) (found o ts) (check_manifest decode_manifest decode_tape live o ts)
  check_manifest-Outcome none ts = inr (λ h. absurd h, _, refl)
  check_manifest-Outcome (some m) ts = elim (Bool-cases (nat_beq m.fixture_count (length ts))) [
    | inl e ↦ rw e (inl ((nat_beq_iff _ _).0 e, refl))
    | inr e ↦ rw e (inr (λ q. absurd (ground arith), _, refl))
  ]

  module _ {S : Type 0} (store : Store S) (contents : S → Text → Option Tape)
      (laws : IsStore store contents) where
    -- the contents of a state are those after the tapes are saved in their order
    abbrev pub Holds : S → List Tape → S → Type 0
    Holds s ts after = (id : Text) → contents after id ≡ last_saved id ts (contents s id)

    -- The store has refused one of the tapes with an error, which is returned: those before it are saved, the others are
    -- not, and it is under its ID or is not.
    abbrev pub IsStopped : S → List Tape → Option ImportError × S → Type 0
    IsStopped s tapes r =
        (before after : List Tape) × (t : Tape) × (tapes ≡ before ++ t ∷ after)
        × ((e : StoreError) × (u : S) × ((store.save false t u).0 ≡ some e)
            × (r.0 ≡ some (not_saved e)))
        × ((id : Text)
            → (contents r.1 id ≡ last_saved id (before ++ t ∷ []) (contents s id))
              ⊎ (contents r.1 id ≡ last_saved id before (contents s id)))

    abbrev IsPersisted : S → List Tape → Option ImportError × S → Type 0
    IsPersisted s tapes r = ((r.0 ≡ none) × Holds s tapes r.1) ⊎ IsStopped s tapes r

    -- what a save does before the others
    IsPersisted-cons :
        (t : Tape) (ts : List Tape) (s : S) (r : Option ImportError × S)
        → (store.save false t s).0 ≡ none
        → IsPersisted (store.save false t s).1 ts r
        → IsPersisted s (t ∷ ts) r
    IsPersisted-cons t ts s r ok p =
        let saved : Holds s (t ∷ []) (store.save false t s).1 =
          λ id. elim (laws.save_contents t s id) [ inl new ↦ new | inr old ↦ absurd (old.0 ok) ] in
        elim p [
          | inl (none_left, holds) ↦
              inl (none_left, λ id. holds id ∙ ap (last_saved id ts) (saved id))
          | inr (before, after, u, split, err, stops) ↦ inr (
            t ∷ before,
            after,
            u,
            ap (λ us. t ∷ us) split,
            err,
            λ id. elim (stops id) [
              | inl q ↦ inl (q ∙ ap (last_saved id (before ++ u ∷ [])) (saved id))
              | inr q ↦ inr (q ∙ ap (last_saved id before) (saved id))
            ],
          )
        ]

    persist-IsPersisted :
        (k : ℕ) (ts : List Tape) (s : S)
        → IsPersisted s ts (persist decode_manifest decode_tape live store k ts s)
    unfolding persist
    persist-IsPersisted k [] s = inl (refl, λ id. refl)
    persist-IsPersisted k (t ∷ ts) s = elim (Option-cases (store.save false t s).0) [
      | inl ok ↦
          let rest =
            IsPersisted-cons t ts s _ ok
              (persist-IsPersisted (k + 2) ts (store.save false t s).1) in
          rw (ok, persist) rest
      | inr (e, failed) ↦
          rw (failed, persist)
            (inr (
              [],
              ts,
              t,
              refl,
              (e, s, failed, refl),
              λ id. elim (laws.save_contents t s id) [ inl new ↦ inl new | inr old ↦ inr old.1 ],
            ))
    ]

    -- The import of an archive with a live context, into a store that keeps the interface's promises. An importable archive: either
    -- there is no error, and each ID leads to the last tape of that ID in the archive, or to what it led to before; or the
    -- store refuses one of the tapes with an error, which is returned, and each ID leads to the last tape of that ID among
    -- those before it, or to what it led to before, where the refused one may stand under its own. Any other
    -- archive is refused with an error, and the store is as it was.
    pub import_bundle_outcome :
        (archive : Archive) (s : S)
        → (IsImportable archive
            × (((import_bundle decode_manifest decode_tape live store archive s).0 ≡ none)
                  × Holds s
                      (tapes_in archive.entries)
                      (import_bundle decode_manifest decode_tape live store archive s).1
                ⊎ IsStopped s
                    (tapes_in archive.entries)
                    (import_bundle decode_manifest decode_tape live store archive s)))
          ⊎ ((IsImportable archive → ⊥)
              × (e : ImportError) × (import_bundle decode_manifest decode_tape live store archive s
                  ≡ (some e, s)))
    unfolding import_bundle
    import_bundle_outcome archive s =
        elim (read_entries-Outcome 0 archive.entries archive.broken none []) [
          | inr r ↦ rw r.2 (inr (λ u. r.0 u.0, r.1, refl))
          | inl r ↦
              rw r.1
                (elim (check_manifest-Outcome (manifest_in none archive.entries)
                  (tapes_in archive.entries)) [
                    | inr c ↦ rw c.2 (inr (λ u. c.0 u.1, c.1, refl))
                    | inl c ↦
                        let saved =
                          persist-IsPersisted (length archive.entries) (tapes_in archive.entries)
                            s in
                        rw c.1 (inl ((r.0, c.0), saved))
                  ])
        ]

    All-append_right : (P : Tape → Type 0) (xs ys : List Tape) → All P (xs ++ ys) → All P ys
    All-append_right P [] ys h = h
    All-append_right P (x ∷ xs) ys h = All-append_right P xs ys h.1

    -- a store that takes the tapes refuses none of them
    pub IsStopped-taken :
        (s : S) (tapes : List Tape) (r : Option ImportError × S)
        → All (Takes store) tapes
        → IsStopped s tapes r
        → ⊥
    IsStopped-taken s tapes r takes (before, after, t, split, err, stops) =
        let (e, u, failed, same) = err in
        let taken : Takes store t =
          (All-append_right (Takes store) before (t ∷ after)
            (subst (All (Takes store)) split takes)).0 in
        absurd (cc (taken u, failed))
