-- ===== src/Templating/Counters.antt =====
-- templating.go: the named counters of the `counter` helper.
use httptape.Prelude.{
  ℕ, zero, suc, ◌+◌, ◌%◌, ◌^◌, ◌<◌, Text, ◌≡◌, ◌≢◌, refl, List, [], ◌∷◌, is_empty, nat_beq, ◌==◌,
  text_eq, eq_iff, eq_refl, ◌∙◌, arith, if◌then◌else◌, Bool-cases, inl, inr,
}
use httptape.Decimal.{max_int}

abbrev pub Counters : Type 0
Counters = List (Text × ℕ)

-- cs.counters[name], 0 where there is none
unfoldable pub count : Text → Counters → ℕ
count name [] = 0
count name ((n, k) ∷ cs) = if n == name then k else count name cs

-- cs.counters[name] = value
unfoldable pub put_count : Text → ℕ → Counters → Counters
put_count name value [] = (name, value) ∷ []
put_count name value ((n, k) ∷ cs) =
    let rest = put_count name value cs in if n == name then (n, value) ∷ cs else (n, k) ∷ rest

unfoldable pub drop_count : Text → Counters → Counters
drop_count name [] = []
drop_count name ((n, k) ∷ cs) =
    let rest = drop_count name cs in if n == name then rest else (n, k) ∷ rest

unfoldable pub next : Text → Counters → ℕ × Counters
unfolding count put_count
next name cs =
    let cur = count name cs in
    if nat_beq cur max_int then (0, put_count name 0 cs) else (cur + 1, put_count name (cur + 1) cs)

unfoldable pub reset : Text → Counters → Counters
unfolding drop_count
reset name cs = if is_empty name then [] else drop_count name cs

-- the counters after `n` calls for one name
unfoldable pub next_times : ℕ → Text → Counters → Counters
unfolding next
next_times zero name cs = cs
next_times (suc n) name cs = (next name (next_times n name cs)).1

count-put_count :
    (name other : Text) (value : ℕ) (cs : Counters)
    → count other (put_count name value cs) ≡ (if name == other then value else count other cs)
unfolding count put_count
count-put_count name other value [] = refl
count-put_count name other value ((n, k) ∷ cs) =
    ground
      (arith, count-put_count name other value cs, eq_iff n name, eq_iff n other, eq_iff name other)

count-drop_count :
    (name other : Text) (cs : Counters)
    → count other (drop_count name cs) ≡ (if name == other then 0 else count other cs)
unfolding count drop_count
count-drop_count name other [] = ground arith
count-drop_count name other ((n, k) ∷ cs) =
    ground (arith, count-drop_count name other cs, eq_iff n name, eq_iff n other, eq_iff name other)

-- One call answers with the new value, which is one more and 0 after the greatest int64, and
-- leaves every other counter.
next-count :
    (name other : Text) (cs : Counters)
    → count name cs < 2 ^ 63
    → ((next name cs).0 ≡ (count name cs + 1) % 2 ^ 63)
      × (count other (next name cs).1
          ≡ (if name == other then (next name cs).0 else count other cs))
unfolding next
next-count name other cs h =
    ground
      (arith, count-put_count name other 0 cs, count-put_count name other (count name cs + 1) cs)

count-reset : (name : Text) (cs : Counters) → count name (reset name cs) ≡ 0
unfolding reset
count-reset name cs = elim (Bool-cases (is_empty name)) [
  | inl all ↦ rw all (unfold count in refl)
  | inr one ↦ rw (one, count-drop_count name name cs, eq_refl name) refl
]

counted :
    (n : ℕ) (name other : Text) (cs : Counters)
    → count name cs ≡ 0
    → name ≢ other
    → (count name (next_times n name cs) ≡ n % 2 ^ 63)
      × (count other (next_times n name cs) ≡ count other cs)
unfolding next_times
counted zero name other cs h apart = (omega (arith, h), refl)
counted (suc n) name other cs h apart =
    let (now, same) = counted n name other cs h apart in
    let before = next_times n name cs in
    let (value, this) = next-count name name before (omega (arith, now)) in
    let (_, that) = next-count name other before (omega (arith, now)) in
    (this ∙ rw (eq_refl name) (omega (arith, value, now)), that ∙ ground (arith, eq_iff name other))

-- After a reset of its name, or of all, the n-th call for a counter answers n modulo 2 ^ 63, and the
-- calls for it leave every other counter as the reset left it.
pub next-next_times :
    (n : ℕ) (name other : Text) (cs : Counters)
    → name ≢ other
    → ((next name (next_times n name (reset name cs))).0 ≡ suc n % 2 ^ 63)
      × (count other (next_times n name (reset name cs)) ≡ count other (reset name cs))
next-next_times n name other cs apart =
    let (now, same) = counted n name other (reset name cs) (count-reset name cs) apart in
    let before = next_times n name (reset name cs) in
    let (value, _) = next-count name name before (omega (arith, now)) in
    (omega (arith, value, now), same)
