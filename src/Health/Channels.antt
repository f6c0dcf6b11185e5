-- ===== src/Health/Channels.antt =====
-- What the subscribers of a monitor were sent, and how often a channel is held.
use httptape.Prelude.{
  ℕ, ◌+◌, ◌≤◌, ◌≡◌, ◌≢◌, refl, sym, ap, ◌∙◌, Text, Bool, true, false, not, List, [], ◌∷◌, ◌++◌,
  length, keep, map, All, arith, if◌then◌else◌, text_eq, Bool-cases, inl, inr,
}
use mathlib.Core.List.{append_assoc}
use httptape.Health.{HealthSnapshot, Subscriber, is_named, take_first}

-- What was sent to a subscriber: at least the seed; the newest has the given state and time; no two
-- in a row have the same state.
abbrev pub Trail : Text → ℕ → List HealthSnapshot → Type 0
Trail state since [] = ⊥
Trail state since (snap ∷ []) = (snap.state ≡ state) × (snap.since ≡ since)
Trail state since (snap ∷ next ∷ rest) = (snap.state ≢ next.state) × Trail state since (next ∷ rest)

abbrev pub sent : Subscriber → List HealthSnapshot
sent sub = sub.taken ++ sub.buffer

abbrev pub held : ℕ → List Subscriber → ℕ
held name [] = 0
held name (sub ∷ subs) = (if is_named name sub then 1 else 0) + held name subs

pub Trail-snoc :
    (state : Text) (since : ℕ) (xs : List HealthSnapshot) (snap : HealthSnapshot)
    → Trail state since xs
    → state ≢ snap.state
    → Trail snap.state snap.since (xs ++ snap ∷ [])
Trail-snoc state since [] snap h ne = absurd h
Trail-snoc state since (x ∷ []) snap h ne = (λ e. ne (sym h.0 ∙ e), (refl, refl))
Trail-snoc state since (x ∷ y ∷ ys) snap h ne = (h.0, Trail-snoc state since (y ∷ ys) snap h.1 ne)

pub held-append :
    (name : ℕ) (xs ys : List Subscriber) → held name (xs ++ ys) ≡ held name xs + held name ys
held-append name [] ys = omega arith
held-append name (x ∷ xs) ys = omega (arith, held-append name xs ys)

-- a test splits what is held
pub held-keep :
    (name : ℕ) (p : Subscriber → Bool) (xs : List Subscriber)
    → held name (keep p xs) + held name (keep (λ sub. not (p sub)) xs) ≡ held name xs
held-keep name p [] = omega arith
held-keep name p (x ∷ xs) = elim (Bool-cases (p x)) [
  | inl e ↦ rw e (omega (arith, held-keep name p xs))
  | inr e ↦ rw e (omega (arith, held-keep name p xs))
]

pub held-map :
    (name : ℕ) (f : Subscriber → Subscriber) (xs : List Subscriber)
    → ((sub : Subscriber) → (f sub).name ≡ sub.name)
    → held name (map f xs) ≡ held name xs
held-map name f [] same = refl
held-map name f (x ∷ xs) same = rw (same x, held-map name f xs same) refl

pub fresh_held :
    (name : ℕ) (xs : List Subscriber)
    → All (λ (sub : Subscriber). sub.name ≢ name) xs
    → held name xs ≡ 0
fresh_held name [] h = refl
fresh_held name (x ∷ xs) h =
    let other : is_named name x ≡ false = ground (arith, h.0) in
    rw other (omega (arith, fresh_held name xs h.1))

-- those that pass a test and are then changed
pub All-map-keep :
    (P Q : Subscriber → Type 0) (p : Subscriber → Bool) (f : Subscriber → Subscriber)
    (xs : List Subscriber)
    → ((sub : Subscriber) → p sub ≡ true → P sub → Q (f sub))
    → All P xs
    → All Q (map f (keep p xs))
All-map-keep P Q p f [] step h = tt
All-map-keep P Q p f (x ∷ xs) step h = elim (Bool-cases (p x)) [
  | inl e ↦ rw e (step x e h.0, All-map-keep P Q p f xs step h.1)
  | inr e ↦ rw e (All-map-keep P Q p f xs step h.1)
]

pub All-map-All :
    (P Q : Subscriber → Type 0) (f : Subscriber → Subscriber) (xs : List Subscriber)
    → ((sub : Subscriber) → P sub → Q (f sub))
    → All P xs
    → All Q (map f xs)
All-map-All P Q f [] step h = tt
All-map-All P Q f (x ∷ xs) step h = (step x h.0, All-map-All P Q f xs step h.1)

pub All-keep_of :
    (P : Subscriber → Type 0) (p : Subscriber → Bool) (xs : List Subscriber)
    → All P xs
    → All P (keep p xs)
All-keep_of P p [] h = tt
All-keep_of P p (x ∷ xs) h = elim (Bool-cases (p x)) [
  | inl e ↦ rw e (h.0, All-keep_of P p xs h.1)
  | inr e ↦ rw e (All-keep_of P p xs h.1)
]

-- a receive moves the oldest of the buffer to what was taken
unfoldable pub receive_one : ℕ → Subscriber → Subscriber
receive_one name sub = if is_named name sub then take_first sub sub.buffer else sub

pub sent-take_first :
    (sub : Subscriber) (buffer : List HealthSnapshot)
    → sub.buffer ≡ buffer
    → (sent (take_first sub buffer) ≡ sent sub)
      × (length (take_first sub buffer).buffer ≤ length buffer)
      × ((take_first sub buffer).name ≡ sub.name)
sent-take_first sub [] e = (refl, rw e (omega arith), refl)
sent-take_first sub (snap ∷ rest) e =
    (append_assoc sub.taken (snap ∷ []) rest ∙ ap (λ b. sub.taken ++ b) (sym e), omega arith, refl)

pub receive_one_lem :
    (name : ℕ) (sub : Subscriber)
    → (sent (receive_one name sub) ≡ sent sub)
      × (length (receive_one name sub).buffer ≤ length sub.buffer)
      × ((receive_one name sub).name ≡ sub.name)
unfolding receive_one
receive_one_lem name sub = elim (Bool-cases (is_named name sub)) [
  | inl e ↦ rw e (sent-take_first sub sub.buffer refl)
  | inr e ↦ rw e (refl, omega arith, refl)
]
