-- ===== src/Health/Steps.antt =====
-- The interleavings of a monitor's calls: each is atomic under the lock, `Close` in two parts.
use httptape.Prelude.{
  ℕ, ◌≡◌, ◌≢◌, Text, Bool, true, ◌&&◌, ◌==◌, text_eq, codes, Bool-cases, inl, inr, Option, none,
  some, All,
}
use httptape.Health.{
  Subscriber, HealthMonitor, ProbeResponse, apply_observation, subscribe, drop_subscriber, receive,
  close_done, close_subscribers, run_probe_once, record_probe_attempt, promote_probe_method,
  classify_probe_response, observe_classified, rejects_head, after_probe,
}

-- a channel that `make` returns is none of those there are
abbrev pub IsFresh : ℕ → HealthMonitor → Type 0
IsFresh name h =
    All (λ (sub : Subscriber). sub.name ≢ name) h.subscribers
    × All (λ (sub : Subscriber). sub.name ≢ name) h.closed

pub data Step : HealthMonitor → HealthMonitor → Type 0 where
  observes :
      {h : HealthMonitor} (src : Text) (from_probe : Bool) (now : ℕ)
      → Step h (apply_observation src from_probe now h)
  records : {h : HealthMonitor} (now : ℕ) → Step h (record_probe_attempt now h)
  promotes : {h : HealthMonitor} (m : Text) → Step h (promote_probe_method m h)
  subscribes : {h : HealthMonitor} (name : ℕ) → IsFresh name h → Step h (subscribe name h)
  unsubscribes : {h : HealthMonitor} (name : ℕ) → Step h (drop_subscriber name h)
  receives : {h : HealthMonitor} (name : ℕ) → Step h (receive name h)
  closes : {h : HealthMonitor} → Step h (close_done h)
  drains : {h : HealthMonitor} → h.done ≡ true → Step h (close_subscribers h)

pub data Steps (start : HealthMonitor) : HealthMonitor → Type 0 where
  here : Steps start start
  further : {h k : HealthMonitor} → Steps start h → Step h k → Steps start k

-- The probe is made of these steps.
pub run_probe_once-Steps :
    (observed recorded : ℕ) (resp : Option ProbeResponse) (h : HealthMonitor)
    → Steps h (run_probe_once observed recorded resp h)
unfolding run_probe_once
run_probe_once-Steps observed recorded none h = further here (records recorded)
run_probe_once-Steps observed recorded (some resp) h = further after (records recorded)
  where
    observe : (src : Option Text) → Steps h (observe_classified observed src h)
    observe none = here
    observe (some src) = further here (observes src true observed)

    after : Steps h (after_probe observed (some resp) h)
    after = elim (Bool-cases (h.probe_method == codes "HEAD" && rejects_head resp)) [
      | inl e ↦ rw e (further here (promotes (codes "GET")))
      | inr e ↦ rw e (observe (classify_probe_response resp))
    ]
