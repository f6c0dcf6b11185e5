-- ===== src/Tests/Monitors.antt =====
-- The theorems on the health monitor at a sample run.
use httptape.Prelude.{codes, true}
use httptape.Health.{
  HealthMonitor, new_health_monitor, apply_observation, subscribe, close_done, close_subscribers,
  state_l1_cache,
}
use httptape.Health.Steps.{Steps, here, further, observes, subscribes}
use httptape.Health.Observation.{IsSound}
use httptape.Health.Invariant.{Steps-IsSound}

abbrev start : HealthMonitor
start = new_health_monitor (codes "http://up") 2000 5

abbrev watched : HealthMonitor
watched = apply_observation state_l1_cache true 9 (subscribe 1 start)

watched-Steps : Steps start watched
watched-Steps = further (further here (subscribes 1 (tt, tt))) (observes state_l1_cache true 9)

Steps-IsSound_example : IsSound watched
Steps-IsSound_example = Steps-IsSound (codes "http://up") 2000 5 watched watched-Steps

abbrev drained : HealthMonitor
drained = close_subscribers (close_done start)
