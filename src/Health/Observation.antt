-- ===== src/Health/Observation.antt =====
-- The invariant of a monitor, and what an observation does to it.
use httptape.Prelude.{
  ℕ, ◌+◌, ◌≤◌, ◌≡◌, ◌≢◌, refl, sym, Text, Bool, true, false, not, some, [], ◌∷◌, ◌++◌, length,
  length-append, keep, All, ltb→lt, arith, if◌then◌else◌, ◌==◌, text_eq, eq_iff, Bool-cases, inl,
  inr,
}
use mathlib.Core.List.{append_assoc}
use httptape.Health.{
  HealthSnapshot, Subscriber, HealthMonitor, valid_source_state, snapshot, has_room, send,
  broadcast, apply_observation, sse_buffer_size,
}
use httptape.Health.Channels.{
  Trail, sent, held, Trail-snoc, held-append, held-keep, held-map, All-map-keep,
}

-- The state is one of the three. Each registered subscriber has a buffer within bounds, and was sent
-- the transitions since its seed, up to the current state. No channel is closed twice, and none that
-- is closed is registered.
pub record IsSound (h : HealthMonitor) : Type 0 where
  pub valid : valid_source_state h.state ≡ true
  pub bounded : All (λ (sub : Subscriber). length sub.buffer ≤ sse_buffer_size) h.subscribers
  pub trailed : All (λ (sub : Subscriber). Trail h.state h.since (sent sub)) h.subscribers
  pub once : (name : ℕ) → held name h.subscribers + held name h.closed ≤ 1

-- what `broadcast` leaves, after a move to another state
broadcast-IsSound :
    (snap : HealthSnapshot) (old h : HealthMonitor)
    → IsSound old
    → h.subscribers ≡ old.subscribers
    → h.closed ≡ old.closed
    → snap.state ≡ h.state
    → snap.since ≡ h.since
    → old.state ≢ snap.state
    → valid_source_state h.state ≡ true
    → IsSound (broadcast snap h)
unfolding broadcast
broadcast-IsSound snap old h sound subs closed_same state_same since_same ne valid = record {
  valid = valid;
  bounded = rw subs (
      All-map-keep _ _ has_room (send snap) old.subscribers
        (λ sub room b. omega (
          arith,
          length-append sub.buffer (snap ∷ []),
          ltb→lt (length sub.buffer) sse_buffer_size room,
        ))
        sound.bounded);
  trailed =
      rw (subs, sym state_same, sym since_same)
        (All-map-keep (λ sub. Trail old.state old.since (sent sub))
          (λ sub. Trail snap.state snap.since (sent sub)) has_room (send snap) old.subscribers
          (λ sub room t. transport_trail sub (Trail-snoc old.state old.since (sent sub) snap t ne))
          sound.trailed);
  once = λ name.
      rw (subs, closed_same)
        (omega (
          arith,
          sound.once name,
          held-keep name has_room old.subscribers,
          held-map name (send snap) (keep has_room old.subscribers) (λ sub. refl),
          held-append name old.closed (keep (λ sub. not (has_room sub)) old.subscribers),
        ));
}
  where
    transport_trail :
        (sub : Subscriber)
        → Trail snap.state snap.since ((sub.taken ++ sub.buffer) ++ snap ∷ [])
        → Trail snap.state snap.since (sent (send snap sub))
    transport_trail sub t = simp (sym (append_assoc sub.taken sub.buffer (snap ∷ []))) t

-- steps that change neither the state nor the channels
pub kept :
    (old h : HealthMonitor)
    → IsSound old
    → h.state ≡ old.state
    → h.since ≡ old.since
    → h.subscribers ≡ old.subscribers
    → h.closed ≡ old.closed
    → IsSound h
kept old h sound state_same since_same subs closed_same = record {
  valid = rw state_same sound.valid;
  bounded = rw subs sound.bounded;
  trailed = rw (state_same, since_same, subs) sound.trailed;
  once = rw (subs, closed_same) sound.once;
}

pub apply_observation-IsSound :
    (src : Text) (from_probe : Bool) (now : ℕ) (h : HealthMonitor)
    → IsSound h
    → IsSound (apply_observation src from_probe now h)
unfolding apply_observation
apply_observation-IsSound src from_probe now h sound = elim (Bool-cases (valid_source_state src)) [
  | inr e ↦ rw e sound
  | inl e ↦ elim (Bool-cases (src == h.state)) [
    | inl same ↦ rw (e, same) (kept_probe from_probe)
    | inr other ↦
        rw (e, other) (moved from_probe (λ q. absurd (ground (arith, eq_iff src h.state))) e)
  ]
]
  where
    kept_probe : (b : Bool) → IsSound (if b then record h { last_probed = some now } else h)
    kept_probe true = kept h (record h { last_probed = some now }) sound refl refl refl refl
    kept_probe false = sound

    moved :
        (b : Bool)
        → h.state ≢ src
        → valid_source_state src ≡ true
        → (let to = record h { state = src; since = now } in
            let probed = if b then record to { last_probed = some now } else to in
            IsSound (broadcast (snapshot probed) probed))
    moved true ne ok =
        let probed = record h { state = src; since = now; last_probed = some now } in
        unfold snapshot in
        broadcast-IsSound (snapshot probed) h probed sound refl refl refl refl ne ok
    moved false ne ok =
        let probed = record h { state = src; since = now } in
        unfold snapshot in
        broadcast-IsSound (snapshot probed) h probed sound refl refl refl refl ne ok
