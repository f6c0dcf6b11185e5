-- ===== src/Json/Laws.antt =====
-- Reading a map after an update.
use httptape.Prelude.{Text, ◌≡◌, arith, ◌==◌, text_eq, eq_iff, if◌then◌else◌, map_option}
use httptape.Json.{Json, Fields, end, field, get, update}

pub get-update :
    (f : Json → Json) (k j : Text) (fs : Fields)
    → get (update f k fs) j ≡ (if k == j then map_option f (get fs j) else get fs j)
unfolding get update
get-update f k j end = ground arith
get-update f k j (field i v fs) =
    ground (arith, get-update f k j fs, eq_iff i k, eq_iff i j, eq_iff k j)
