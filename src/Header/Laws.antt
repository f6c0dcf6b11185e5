-- ===== src/Header/Laws.antt =====
-- The operations of http.Header as one map.
use httptape.Prelude.{Text, ◌≡◌, [], ◌∷◌, ◌==◌, text_eq, eq_iff, arith, if◌then◌else◌}
use httptape.Header.{HeaderMap, values, delete, set}

pub values-delete :
    (name other : Text) (h : HeaderMap)
    → values other (delete name h) ≡ (if name == other then [] else values other h)
unfolding values delete
values-delete name other [] = ground arith
values-delete name other ((n, vs) ∷ h) =
    ground (arith, values-delete name other h, eq_iff n name, eq_iff n other, eq_iff name other)

pub values-set :
    (name v other : Text) (h : HeaderMap)
    → values other (set name v h) ≡ (if name == other then v ∷ [] else values other h)
unfolding values set
values-set name v other h = ground (arith, values-delete name other h)
