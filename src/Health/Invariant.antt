-- ===== src/Health/Invariant.antt =====
-- The invariant holds whatever the calls of a monitor, and in whatever order.
use httptape.Prelude.{
  ℕ, ◌+◌, ◌≤◌, ◌≡◌, refl, sym, ap, ◌∙◌, Text, not, [], ◌∷◌, length, keep, All-append, arith,
  text_eq, text_beq, Bool-cases, inl, inr,
}
use httptape.Health.{
  Subscriber, HealthMonitor, new_health_monitor, valid_source_state, snapshot, subscribe,
  drop_subscriber, receive, is_named, sse_buffer_size, close_subscribers,
}
use httptape.Health.Steps.{
  IsFresh, Step, observes, records, promotes, subscribes, unsubscribes, receives, closes, drains,
  Steps, here, further,
}
use httptape.Health.Channels.{
  Trail, sent, held, held-append, held-keep, held-map, fresh_held, All-map-All, All-keep_of,
  receive_one, receive_one_lem,
}
use httptape.Health.Observation.{IsSound, kept, apply_observation-IsSound}

subscribe-IsSound :
    (name : ℕ) (h : HealthMonitor) → IsFresh name h → IsSound h → IsSound (subscribe name h)
unfolding subscribe snapshot
subscribe-IsSound name h fresh sound = elim (Bool-cases h.done) [
  | inl e ↦ rw e (record {
    valid = sound.valid;
    bounded = sound.bounded;
    trailed = sound.trailed;
    once = λ other.
        omega (
          arith,
          held-append other h.closed (closed_at_once ∷ []),
          bound other closed_at_once refl,
        );
  })
  | inr e ↦ rw e (record {
    valid = sound.valid;
    bounded = All-append _ h.subscribers (seeded ∷ []) sound.bounded (omega arith, tt);
    trailed = All-append _ h.subscribers (seeded ∷ []) sound.trailed ((refl, refl), tt);
    once = λ other.
        omega (arith, held-append other h.subscribers (seeded ∷ []), bound other seeded refl);
  })
]
  where
    closed_at_once : Subscriber
    closed_at_once = record { name = name; taken = []; buffer = [] }

    seeded : Subscriber
    seeded = record { name = name; taken = []; buffer = snapshot h ∷ [] }

    bound :
        (other : ℕ) (sub : Subscriber)
        → sub.name ≡ name
        → held other h.subscribers + held other h.closed + held other (sub ∷ []) ≤ 1
    bound other sub named = elim (Bool-cases (is_named other sub)) [
      | inl same ↦
          let equal : name ≡ other = ground arith in
          rw same (
            omega (
              arith,
              sym (ap (λ n. held n h.subscribers) equal) ∙ fresh_held name h.subscribers fresh.0,
              sym (ap (λ n. held n h.closed) equal) ∙ fresh_held name h.closed fresh.1,
            ))
      | inr differ ↦ rw differ (omega (arith, sound.once other))
    ]

drop_subscriber-IsSound :
    (name : ℕ) (h : HealthMonitor) → IsSound h → IsSound (drop_subscriber name h)
unfolding drop_subscriber
drop_subscriber-IsSound name h sound = record {
  valid = sound.valid;
  bounded = All-keep_of _ (λ sub. not (is_named name sub)) h.subscribers sound.bounded;
  trailed = All-keep_of _ (λ sub. not (is_named name sub)) h.subscribers sound.trailed;
  once = λ other. omega (
    arith,
    sound.once other,
    held-keep other (is_named name) h.subscribers,
    held-append other h.closed (keep (is_named name) h.subscribers),
  );
}

receive-IsSound : (name : ℕ) (h : HealthMonitor) → IsSound h → IsSound (receive name h)
unfolding receive receive_one
receive-IsSound name h sound = record {
  valid = sound.valid;
  bounded =
      All-map-All _ (λ sub. length sub.buffer ≤ sse_buffer_size) (receive_one name) h.subscribers
        (λ sub b. omega (arith, (receive_one_lem name sub).1)) sound.bounded;
  trailed =
      All-map-All _ (λ sub. Trail h.state h.since (sent sub)) (receive_one name) h.subscribers
        (λ sub t. trail_of sub t) sound.trailed;
  once = λ other. omega (
    arith,
    sound.once other,
    held-map other (receive_one name) h.subscribers (λ sub. (receive_one_lem name sub).2),
  );
}
  where
    trail_of :
        (sub : Subscriber)
        → Trail h.state h.since (sent sub)
        → Trail h.state h.since (sent (receive_one name sub))
    trail_of sub t = rw (receive_one_lem name sub).0 t

close_subscribers-IsSound : (h : HealthMonitor) → IsSound h → IsSound (close_subscribers h)
close_subscribers-IsSound h sound = record {
  valid = sound.valid;
  bounded = tt;
  trailed = tt;
  once = λ other. omega (arith, sound.once other, held-append other h.closed h.subscribers);
}

Step-IsSound : {h k : HealthMonitor} → Step h k → IsSound h → IsSound k
Step-IsSound (observes {h = h} src from_probe now) sound =
    apply_observation-IsSound src from_probe now h sound
Step-IsSound (records {h = h} now) sound = kept h _ sound refl refl refl refl
Step-IsSound (promotes {h = h} m) sound = kept h _ sound refl refl refl refl
Step-IsSound (subscribes {h = h} name fresh) sound = subscribe-IsSound name h fresh sound
Step-IsSound (unsubscribes {h = h} name) sound = drop_subscriber-IsSound name h sound
Step-IsSound (receives {h = h} name) sound = receive-IsSound name h sound
Step-IsSound (closes {h = h}) sound = kept h _ sound refl refl refl refl
Step-IsSound (drains {h = h} done) sound = close_subscribers-IsSound h sound

from_IsSound : {start h : HealthMonitor} → IsSound start → Steps start h → IsSound h
from_IsSound sound here = sound
from_IsSound sound (further steps step) = Step-IsSound step (from_IsSound sound steps)

-- A new monitor is sound after any interleaving of its calls.
pub Steps-IsSound :
    (upstream_url : Text) (interval_ms now : ℕ) (h : HealthMonitor)
    → Steps (new_health_monitor upstream_url interval_ms now) h
    → IsSound h
Steps-IsSound upstream_url interval_ms now h steps = from_IsSound fresh steps
  where
    fresh : IsSound (new_health_monitor upstream_url interval_ms now)
    fresh = record {
      valid = unfold valid_source_state text_beq in refl;
      bounded = tt;
      trailed = tt;
      once = λ name. omega arith;
    }
