-- ===== src/Health/Closing.antt =====
-- A monitor after `Close`, and a probe that changes no state.
use httptape.Prelude.{◌≡◌, refl, ap, true, [], keep, arith, text_eq}
use httptape.Health.{
  HealthMonitor, has_room, broadcast, apply_observation, subscribe, drop_subscriber, receive,
}
use httptape.Health.Steps.{
  Step, observes, records, promotes, subscribes, unsubscribes, receives, closes, drains, Steps,
  here, further,
}

-- After `Close` has drained the subscribers, no call registers one again.
pub Steps-closed :
    (start h : HealthMonitor)
    → start.done ≡ true
    → start.subscribers ≡ []
    → Steps start h
    → (h.done ≡ true) × (h.subscribers ≡ [])
Steps-closed start h done none_left here = (done, none_left)
Steps-closed start h done none_left (further {h = before} steps step) =
    let found = Steps-closed start before done none_left steps in
    step_closed before h found.0 found.1 step
  where
    step_closed :
        (old new : HealthMonitor)
        → old.done ≡ true
        → old.subscribers ≡ []
        → Step old new
        → (new.done ≡ true) × (new.subscribers ≡ [])
    step_closed old new d n (observes src from_probe now) =
        unfold apply_observation broadcast in ground (arith, ap (keep has_room) n)
    step_closed old new d n (records now) = (d, n)
    step_closed old new d n (promotes m) = (d, n)
    step_closed old new d n (subscribes name fresh) = unfold subscribe in rw d (refl, n)
    step_closed old new d n (unsubscribes name) = unfold drop_subscriber in rw n (d, refl)
    step_closed old new d n (receives name) = unfold receive in rw n (d, refl)
    step_closed old new d n closes = (refl, n)
    step_closed old new d n (drains done_now) = (d, refl)
