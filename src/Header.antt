-- ===== src/Header.antt =====
-- http.Header: a map from names to lists of values, as a list of entries. A nil map and an empty
-- one are the same list.
pub mod Laws
use httptape.Prelude.{
  ℕ, ◌+◌, ◌-◌, Text, codes, Bool, true, not, List, [], ◌∷◌, leb, nat_beq, ◌&&◌, ◌||◌, any, all,
  ◌==◌, text_eq, if◌then◌else◌,
}

abbrev pub HeaderMap : Type 0
HeaderMap = List (Text × List Text)

-- h[name], nil if there is no such entry
unfoldable pub values : Text → HeaderMap → List Text
values name [] = []
values name ((n, vs) ∷ h) = if n == name then vs else values name h

unfoldable pub is_letter : ℕ → Bool
is_letter c = (leb b'a' c && leb c b'z') || (leb b'A' c && leb c b'Z')

-- a byte that may stand in a header field name
unfoldable pub is_token_byte : ℕ → Bool
unfolding is_letter
is_token_byte c =
    is_letter c || (leb b'0' c && leb c b'9') || any (λ d. nat_beq c d) (codes "!#$%&'*+-.^_`|~")

unfoldable pub recase : Bool → Text → Text
recase upper [] = []
recase upper (c ∷ s) =
    let c' =
      if upper && (leb b'a' c && leb c b'z')
      then c - 32
      else if not upper && (leb b'A' c && leb c b'Z')
      then c + 32
      else c in
    c' ∷ recase (nat_beq c' b'-') s

-- http.CanonicalHeaderKey
unfoldable pub canonical_key : Text → Text
unfolding is_token_byte recase
canonical_key name = if all is_token_byte name then recase true name else name

-- h.Get(name)
unfoldable pub get_first : Text → HeaderMap → Text
unfolding canonical_key values
get_first name h = elim (values (canonical_key name) h) [ [] ↦ [] | v ∷ vs ↦ v ]

-- h.Del and h.Set, for a name in canonical form
unfoldable pub delete : Text → HeaderMap → HeaderMap
delete name [] = []
delete name ((n, vs) ∷ h) = let rest = delete name h in if n == name then rest else (n, vs) ∷ rest

unfoldable pub set : Text → Text → HeaderMap → HeaderMap
unfolding delete
set name v h = (name, v ∷ []) ∷ delete name h
