-- ===== src/Prelude/Strings.antt =====
-- Go strings and byte slices as lists of bytes, with the functions of `strings` that the sources
-- call. A nil slice and an empty one are the same list.
use Prim.Native.Nat.{ℕ}
use Prim.Native.Char.{code}
use Prim.Native.String.{String}
use mathlib.Core.Path.{◌≡◌}
use mathlib.Core.Logic.{◌↔◌}
use mathlib.Core.Bool.{Bool, true, false, ◌&&◌, ◌||◌}
use mathlib.Core.Option.{Option, none, some}
use mathlib.Core.List.{List, [], ◌∷◌, ◌++◌}
use native.Mathlib.Omega.{arith}
use httptape.Prelude.Options.{map_option}
use httptape.Prelude.Tests.{nat_beq, nat_beq_iff, Eq, if◌then◌else◌}

abbrev pub Text : Type 0
Text = List ℕ

-- The bytes of a literal, all ASCII here.
abbrev pub codes : String → Text
codes String.[] = []
codes (String.◌∷◌ c s) = code c ∷ codes s

unfoldable pub text_beq : Text → Text → Bool
text_beq [] [] = true
text_beq (a ∷ s) (b ∷ t) = nat_beq a b && text_beq s t
text_beq _ _ = false

pub text_beq_iff : (s t : Text) → (text_beq s t ≡ true) ↔ (s ≡ t)
unfolding text_beq
text_beq_iff [] [] = ground arith
text_beq_iff [] (b ∷ t) = ground arith
text_beq_iff (a ∷ s) [] = ground arith
text_beq_iff (a ∷ s) (b ∷ t) = ground (arith, text_beq_iff s t, nat_beq_iff a b)

instance abbrev pub text_eq : Eq Text
text_eq = record { equal = text_beq; equal_iff = text_beq_iff }

abbrev pub is_empty {ℓ} : {A : Type ℓ} → List A → Bool
is_empty [] = true
is_empty (x ∷ xs) = false

-- strings.TrimPrefix with the outcome of strings.HasPrefix
unfoldable pub strip_prefix : Text → Text → Option Text
strip_prefix [] s = some s
strip_prefix (p ∷ ps) [] = none
strip_prefix (p ∷ ps) (c ∷ s) = if nat_beq p c then strip_prefix ps s else none

-- strings.Split at a one-byte separator
unfoldable pub split_byte : ℕ → ℕ → List Text → List Text
split_byte sep c [] = []
split_byte sep c (w ∷ ws) = if nat_beq c sep then [] ∷ w ∷ ws else (c ∷ w) ∷ ws

unfoldable pub split_at : ℕ → Text → List Text
unfolding split_byte
split_at sep [] = [] ∷ []
split_at sep (c ∷ s) = split_byte sep c (split_at sep s)

-- strings.Join with a one-byte separator
unfoldable pub join : ℕ → List Text → Text
join sep [] = []
join sep (w ∷ []) = w
join sep (w ∷ v ∷ ws) = w ++ (sep ∷ join sep (v ∷ ws))

-- strings.Cut at a byte: the parts before and after its first occurrence
unfoldable pub cut : ℕ → Text → Option (Text × Text)
cut sep [] = none
cut sep (c ∷ s) =
    if nat_beq c sep
    then some ([], s)
    else map_option (λ (p : Text × Text). (c ∷ p.0, p.1)) (cut sep s)

-- strings.ContainsRune and bytes tests
unfoldable pub contains_byte : ℕ → Text → Bool
contains_byte sep [] = false
contains_byte sep (c ∷ s) = nat_beq c sep || contains_byte sep s

-- m[key] with its presence, for a map as a list of entries
unfoldable pub lookup {ℓ} : {V : Type ℓ} → Text → List (Text × V) → Option V
lookup key [] = none
lookup key ((k, v) ∷ m) = if text_beq k key then some v else lookup key m
