-- ===== src/Faker/Fill.antt =====
-- `PhoneFaker` and `PatternFaker` keep the shape of their text, and never index past the digest.
use httptape.Prelude.{
  ℕ, zero, suc, ◌+◌, ◌%◌, ◌≤◌, ◌<◌, Text, ◌≡◌, refl, sym, ap, ◌∙◌, some, List, [], ◌∷◌, ◌++◌, map,
  length, get_elem?, arith, nat_beq, if_both,
}
use mathlib.Core.List.{append_assoc, append-nil}
use httptape.Platform.{Platform, HasDigests}
use httptape.Faker.{
  Slot, literal, drawn, is_digit, phone_slot, pattern_slot, compute_hmac, refill, place, draw,
  fill_from, fill,
}

-- a character fits its slot
abbrev pub Fits : Slot → ℕ → Type 0
Fits (literal c) d = d ≡ c
Fits (drawn base modulus) d = (base ≤ d) × (d < base + modulus)

abbrev pub FitsAll : List Slot → Text → Type 0
FitsAll [] [] = Unit
FitsAll [] (d ∷ s) = ⊥
FitsAll (slot ∷ slots) [] = ⊥
FitsAll (slot ∷ slots) (d ∷ s) = Fits slot d × FitsAll slots s

abbrev pub IsDrawable : Slot → Type 0
IsDrawable (literal c) = Unit
IsDrawable (drawn base modulus) = 0 < modulus

abbrev pub Drawable : List Slot → Type 0
Drawable [] = Unit
Drawable (slot ∷ slots) = IsDrawable slot × Drawable slots

get_elem?_of_lt {ℓ} :
    {A : Type ℓ} (xs : List A) (i : ℕ) → i < length xs → (a : A) × (get_elem? xs i ≡ some a)
get_elem?_of_lt [] i h = absurd (omega arith)
get_elem?_of_lt (x ∷ xs) zero h = (x, refl)
get_elem?_of_lt (x ∷ xs) (suc i) h = get_elem?_of_lt xs i (omega arith)

module _ (pf : Platform) (digests : HasDigests pf) where
  -- after the refill the index is in range
  refill_in_range :
      (seed buf h : Text) (hi : ℕ)
      → (refill pf seed buf h hi).1 < length (refill pf seed buf h hi).0
  unfolding refill
  refill_in_range seed buf h hi = ground (arith, digests.hmac_length seed buf)

  place-Fits :
      (seed buf : Text) (slot : Slot) (h : Text) (hi : ℕ)
      → IsDrawable slot
      → (r : Text × ℕ × ℕ) × (place pf seed buf slot h hi ≡ some r) × Fits slot r.2
  unfolding place
  place-Fits seed buf (literal c) h hi ok = ((h, hi, c), refl, refl)
  place-Fits seed buf (drawn base modulus) h hi ok =
      drawn_fits (refill pf seed buf h hi) (refill_in_range seed buf h hi)
    where
      drawn_fits :
          (src : Text × ℕ)
          → src.1 < length src.0
          → (r : Text × ℕ × ℕ) × (draw pf base modulus src ≡ some r)
            × ((base ≤ r.2) × (r.2 < base + modulus))
      drawn_fits (h', hi') lt =
          let (byte, found) = get_elem?_of_lt h' hi' lt in
          ((h', hi' + 1, base + byte % modulus), rw found, (omega arith, grind arith))

  fill_from-FitsAll :
      (seed h : Text) (hi : ℕ) (buf : Text) (slots : List Slot)
      → Drawable slots
      → (out : Text) × (fill_from pf seed h hi buf slots ≡ some (buf ++ out)) × FitsAll slots out
  unfolding fill_from
  fill_from-FitsAll seed h hi buf [] ok = ([], ap some (sym (append-nil buf)), tt)
  fill_from-FitsAll seed h hi buf (slot ∷ slots) (ok, oks) =
      let (r, placed, fits) = place-Fits seed buf slot h hi ok in
      let (out, filled, all_fit) = fill_from-FitsAll seed r.0 r.1 (buf ++ r.2 ∷ []) slots oks in
      (r.2 ∷ out, rw placed (filled ∙ ap some (append_assoc buf (r.2 ∷ []) out)), (fits, all_fit))

  pub fill-FitsAll :
      (seed original : Text) (slots : List Slot)
      → Drawable slots
      → (out : Text) × (fill pf seed original slots ≡ some out) × FitsAll slots out
  unfolding fill
  fill-FitsAll seed original slots ok =
      fill_from-FitsAll seed (compute_hmac pf seed original) 0 [] slots ok

  phone-Drawable : (s : Text) → Drawable (map phone_slot s)
  unfolding phone_slot
  phone-Drawable [] = tt
  phone-Drawable (c ∷ s) = (if_both IsDrawable (is_digit c) (omega arith) tt, phone-Drawable s)

  pattern-Drawable : (s : Text) → Drawable (map pattern_slot s)
  unfolding pattern_slot
  pattern-Drawable [] = tt
  pattern-Drawable (c ∷ s) = (
    if_both IsDrawable (nat_beq c b'#') (omega arith)
        (if_both IsDrawable (nat_beq c b'?') (omega arith) tt),
    pattern-Drawable s,
  )

  -- With 32-byte digests `PhoneFaker` returns a text, never an index error, however many digits it
  -- has to draw: a digit in the place of each digit, and every other character as it was.
  pub fill-phone_slot :
      (seed s : Text)
      → (out : Text) × (fill pf seed s (map phone_slot s) ≡ some out)
        × FitsAll (map phone_slot s) out
  fill-phone_slot seed s = fill-FitsAll seed s (map phone_slot s) (phone-Drawable s)

  -- With 32-byte digests `PatternFaker` returns a text, never an index error: a digit for
  -- each `#`, a lowercase letter for each `?`, and every other character of the pattern as it is.
  pub fill-pattern_slot :
      (seed s pattern_in : Text)
      → (out : Text) × (fill pf seed s (map pattern_slot pattern_in) ≡ some out)
        × FitsAll (map pattern_slot pattern_in) out
  fill-pattern_slot seed s pattern_in =
      fill-FitsAll seed s (map pattern_slot pattern_in) (pattern-Drawable pattern_in)
