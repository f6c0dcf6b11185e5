-- ===== src/MediaType/Trim.antt =====
-- A trimmed text is no longer than the text.
use httptape.Prelude.{◌+◌, ◌≤◌, Text, ◌≡◌, [], ◌∷◌, length, arith}
use mathlib.Core.List.{reverse, reverse_aux}
use httptape.MediaType.{drop_spaces, trim_space}

length-reverse_aux : (s t : Text) → length (reverse_aux s t) ≡ length s + length t
length-reverse_aux [] t = omega arith
length-reverse_aux (c ∷ s) t = omega (arith, length-reverse_aux s (c ∷ t))

length-drop_spaces : (s : Text) → length (drop_spaces s) ≤ length s
unfolding drop_spaces
length-drop_spaces [] = omega arith
length-drop_spaces (c ∷ s) = ground (arith, length-drop_spaces s)

pub length-trim_space : (s : Text) → length (trim_space s) ≤ length s
unfolding trim_space
length-trim_space s = omega (
  arith,
  length-reverse_aux (drop_spaces (reverse (drop_spaces s))) [],
  length-drop_spaces (reverse (drop_spaces s)),
  length-reverse_aux (drop_spaces s) [],
  length-drop_spaces s,
)
