-- ===== src/Caching/Flights.antt =====
-- caching_transport.go: roundTripWithSingleFlight, one step for each hold of `sfMu` and each `wg.Done`.
use httptape.Prelude.{
  ℕ, suc, ◌≤◌, Text, ◌≡◌, ◌≢◌, refl, Option, none, some, arith, if◌then◌else◌, ◌==◌, text_eq,
  nat_eq, eq_iff, Option-cases, inl, inr,
}

-- A leader's call, with its key: before `wg.Done`, after it, and after the entry is deleted. `R` is what
-- the call shares.
pub data Call (R : Type 0) : Type 0 where
  unused gone : Call R
  flying : (key : Text) → Call R
  landed : (key : Text) → R → Call R

-- `sfCalls`, the calls by number, and the next number
pub record Flights (R : Type 0) : Type 0 where
  pub sf_calls : Text → Option ℕ
  pub call : ℕ → Call R
  pub next_call : ℕ

abbrev pub no_flights : {R : Type 0} → Flights R
no_flights = record { sf_calls = λ key. none; call = λ n. unused; next_call = 0 }

module _ {R : Type 0} where
  -- `call := &sfCall{}; ct.sfCalls[sfKey] = call`
  unfoldable pub lead : Text → Flights R → Flights R
  lead key s = record {
    sf_calls = λ k. if k == key then some s.next_call else s.sf_calls k;
    call = λ n. if n == s.next_call then flying key else s.call n;
    next_call = suc s.next_call;
  }

  -- `call.resp = resp; …; call.wg.Done()`
  unfoldable pub land : ℕ → Text → R → Flights R → Flights R
  land number key result s = record s {
    call = λ n. if n == number then landed key result else s.call n;
  }

  -- `delete(ct.sfCalls, sfKey)`
  unfoldable pub remove : ℕ → Text → Flights R → Flights R
  remove number key s = record s {
    sf_calls = λ k. if k == key then none else s.sf_calls k;
    call = λ n. if n == number then gone else s.call n;
  }

  -- a request with no call to wait for leads one; a leader shares its result, and then deletes its entry
  pub data FlightStep : Flights R → Flights R → Type 0 where
    led : {s : Flights R} (key : Text) → s.sf_calls key ≡ none → FlightStep s (lead key s)
    shared :
        {s : Flights R} (n : ℕ) (key : Text) (result : R)
        → s.call n ≡ flying key
        → FlightStep s (land n key result s)
    deleted :
        {s : Flights R} (n : ℕ) (key : Text) (result : R)
        → s.call n ≡ landed key result
        → FlightStep s (remove n key s)

  pub data FlightSteps : Flights R → Flights R → Type 0 where
    still : {s : Flights R} → FlightSteps s s
    onward : {s u v : Flights R} → FlightSteps s u → FlightStep u v → FlightSteps s v

  abbrev pub key_of : Call R → Option Text
  key_of unused = none
  key_of gone = none
  key_of (flying key) = some key
  key_of (landed key result) = some key

  -- The map has the calls whose leader has not deleted its entry, and no other.
  pub record IsSound (s : Flights R) : Type 0 where
    pub entry : (key : Text) (n : ℕ) → s.sf_calls key ≡ some n → key_of (s.call n) ≡ some key
    pub active : (key : Text) (n : ℕ) → key_of (s.call n) ≡ some key → s.sf_calls key ≡ some n
    pub fresh : (n : ℕ) → s.next_call ≤ n → s.call n ≡ unused

  lead-IsSound :
      (s : Flights R) (key : Text) → s.sf_calls key ≡ none → IsSound s → IsSound (lead key s)
  unfolding lead
  lead-IsSound s key none_yet h = record {
    entry = λ k n e. ground (arith, e, h.entry k n, h.fresh n, eq_iff k key, eq_iff n s.next_call);
    active =
        λ k n e. ground (arith, e, h.active k n, h.fresh n, eq_iff k key, eq_iff n s.next_call);
    fresh = λ n le. ground (arith, h.fresh n, eq_iff n s.next_call);
  }

  land-IsSound :
      (s : Flights R) (number : ℕ) (key : Text) (result : R)
      → s.call number ≡ flying key
      → IsSound s
      → IsSound (land number key result s)
  unfolding land
  land-IsSound s number key result in_flight h = record {
    entry = λ k n e. ground (arith, e, in_flight, h.entry k n, h.entry k number, eq_iff n number);
    active =
        λ k n e. ground (arith, e, in_flight, h.active k n, h.active key number, eq_iff n number);
    fresh = λ n le. ground (arith, in_flight, h.fresh n, h.fresh number, eq_iff n number);
  }

  remove-IsSound :
      (s : Flights R) (number : ℕ) (key : Text) (result : R)
      → s.call number ≡ landed key result
      → IsSound s
      → IsSound (remove number key s)
  unfolding remove
  remove-IsSound s number key result done h = record {
    entry = λ k n e. ground (
      arith,
      e,
      done,
      h.entry k n,
      h.entry k number,
      h.active key number,
      eq_iff k key,
      eq_iff n number,
    );
    active = λ k n e.
        ground (arith, e, done, h.active k n, h.active key number, eq_iff k key, eq_iff n number);
    fresh = λ n le. ground (arith, done, h.fresh n, h.fresh number, eq_iff n number);
  }

  FlightStep-IsSound : {s u : Flights R} → FlightStep s u → IsSound s → IsSound u
  FlightStep-IsSound (led {s} key none_yet) h = lead-IsSound s key none_yet h
  FlightStep-IsSound (shared {s} n key result e) h = land-IsSound s n key result e h
  FlightStep-IsSound (deleted {s} n key result e) h = remove-IsSound s n key result e h

  no_flights-IsSound : IsSound (no_flights {R = R})
  no_flights-IsSound = record {
    entry = λ key n e. absurd cc;
    active = λ key n e. absurd cc;
    fresh = λ n le. refl;
  }

  FlightSteps-IsSound : {s u : Flights R} → FlightSteps s u → IsSound s → IsSound u
  FlightSteps-IsSound still h = h
  FlightSteps-IsSound (onward steps step) h = FlightStep-IsSound step (FlightSteps-IsSound steps h)

  -- However requests arrive, share their results and delete their entries: no key has two calls in flight, a request that
  -- finds an entry waits for a call of its own key, and a key with no call in flight has no entry, so that
  -- the next request leads again.
  pub one_flight :
      {s : Flights R} (key : Text)
      → FlightSteps (no_flights {R = R}) s
      → ((m n : ℕ) → key_of (s.call m) ≡ some key → key_of (s.call n) ≡ some key → m ≡ n)
        × ((n : ℕ) → s.sf_calls key ≡ some n → key_of (s.call n) ≡ some key)
        × (((n : ℕ) → key_of (s.call n) ≢ some key) → s.sf_calls key ≡ none)
  one_flight {s} key steps =
      let h = FlightSteps-IsSound steps no_flights-IsSound in
      (
        λ m n e f. cc (h.active key m e, h.active key n f),
        λ n e. h.entry key n e,
        λ idle. elim (Option-cases (s.sf_calls key)) [
          | inl lost ↦ lost
          | inr (n, found) ↦ absurd (idle n (h.entry key n found))
        ],
      )
