-- ===== src/Templating/Agreement.antt =====
-- Outcomes that differ in errors only.
use httptape.Prelude.{◌≡◌, ap, Bool, true, false, if◌then◌else◌}
use mathlib.Core.Path.{subst}
use httptape.Templating.Substitution.{TemplateState, TemplateError, Result, err, ok}
use httptape.Templating.Walk.{Outcome, map_result}

-- The second outcome is no error, and it is the first where that is none.
abbrev pub Agree : {A : Type 0} → (strict lenient : Result A) → (st st' : TemplateState) → Type 0
Agree r (err e) st st' = ⊥
Agree (err e) (ok b) st st' = Unit
Agree (ok a) (ok b) st st' = (a ≡ b) × (st ≡ st')

abbrev pub Agrees : {A : Type 0} → (strict lenient : Outcome A) → Type 0
Agrees strict lenient = Agree strict.0 lenient.0 strict.1 lenient.1

pub any_error :
    {A : Type 0} (e : TemplateError) (r r' : Result A) (s st st' : TemplateState)
    → Agree r r' st st'
    → Agree (err e) r' s st'
any_error e r (err e') s st st' h = h
any_error e r (ok b) s st st' h = tt

pub map-Agree :
    {A B : Type 0} (f : A → B) (r r' : Result A) (st st' : TemplateState)
    → Agree r r' st st'
    → Agree (map_result f r) (map_result f r') st st'
map-Agree f r (err e) st st' h = absurd h
map-Agree f (err e) (ok b) st st' h = tt
map-Agree f (ok a) (ok b) st st' h = (ap f h.0, h.1)

-- a step and, where it is no error, what follows, with both results put together
abbrev pub joined :
    {A B C : Type 0} → (A → B → C) → Outcome A → (TemplateState → Outcome B) → Outcome C
joined h x f = elim x.0 [ err e ↦ (err e, x.1) | ok a ↦ (map_result (h a) (f x.1).0, (f x.1).1) ]

pub joined-Agrees :
    {A B C : Type 0} (h : A → B → C) (r r' : Result A) (st st' : TemplateState)
    (f g : TemplateState → Outcome B)
    → Agree r r' st st'
    → ((s : TemplateState) → Agrees (f s) (g s))
    → Agrees (joined h (r, st) f) (joined h (r', st') g)
joined-Agrees h r (err e) st st' f g first later = absurd first
joined-Agrees h (err e) (ok b) st st' f g first later =
    any_error e _ _ st _ _ (map-Agree (h b) (f st').0 (g st').0 (f st').1 (g st').1 (later st'))
joined-Agrees h (ok a) (ok b) st st' f g first later =
    subst (λ c. Agrees (joined h (ok a, st) f) (joined h (ok c, st') g)) first.0
      (subst (λ s. Agrees (joined h (ok a, st) f) (joined h (ok a, s) g)) first.1
        (map-Agree (h a) (f st).0 (g st).0 (f st).1 (g st).1 (later st)))

pub if-Agrees :
    {A : Type 0} (b : Bool) (x x' y y' : Outcome A)
    → Agrees x x'
    → Agrees y y'
    → Agrees (if b then x else y) (if b then x' else y')
if-Agrees true x x' y y' h k = h
if-Agrees false x x' y y' h k = k
