-- ===== src/Health.antt =====
-- health.go: the monitor of the source that served last, its subscribers and its probe.
pub mod Steps
pub mod Channels
pub mod Observation
pub mod Invariant
pub mod Closing
use httptape.Prelude.{
  ℕ, ◌≡◌, Text, codes, Bool, true, false, not, ◌&&◌, ◌||◌, Option, none, some, List, [], ◌∷◌, ◌++◌,
  length, keep, any, map, is_empty, ltb, leb, nat_beq, if◌then◌else◌, ◌==◌, text_eq, nat_eq,
}
use httptape.Header.{HeaderMap, get_first}

-- `SourceState` is a string
abbrev pub state_live : Text
state_live = codes "live"

abbrev pub state_l1_cache : Text
state_l1_cache = codes "l1-cache"

abbrev pub state_l2_cache : Text
state_l2_cache = codes "l2-cache"

unfoldable pub valid_source_state : Text → Bool
valid_source_state s = s == state_live || s == state_l1_cache || s == state_l2_cache

pub record HealthSnapshot : Type 0 where
  pub state : Text
  pub upstream_url : Text
  pub last_probed_at : Option ℕ
  pub probe_interval_ms : ℕ
  pub since : ℕ

-- A subscriber's channel under a name of its own: the snapshots taken from it, and those in its
-- buffer. The former are no data of the program; they tell what was sent.
pub record Subscriber : Type 0 where
  pub name : ℕ
  pub taken : List HealthSnapshot
  pub buffer : List HealthSnapshot

-- The fields that change. `subscribers` are the registered ones; `closed` are the channels closed so
-- far; `done` tells that the channel of that name is closed.
pub record HealthMonitor : Type 0 where
  pub upstream_url : Text
  pub interval_ms : ℕ
  pub probe_method : Text
  pub state : Text
  pub since : ℕ
  pub last_probed : Option ℕ
  pub subscribers : List Subscriber
  pub closed : List Subscriber
  pub done : Bool

abbrev pub sse_buffer_size : ℕ
sse_buffer_size = 8

-- `NewHealthMonitor`, past its guards
abbrev pub new_health_monitor : Text → ℕ → ℕ → HealthMonitor
new_health_monitor upstream_url interval_ms now = record {
  upstream_url = upstream_url;
  interval_ms = interval_ms;
  probe_method = codes "HEAD";
  state = state_live;
  since = now;
  last_probed = none;
  subscribers = [];
  closed = [];
  done = false;
}

-- `snapshotLocked`
unfoldable pub snapshot : HealthMonitor → HealthSnapshot
snapshot h = record {
  state = h.state;
  upstream_url = h.upstream_url;
  last_probed_at = h.last_probed;
  probe_interval_ms = h.interval_ms;
  since = h.since;
}

abbrev pub has_room : Subscriber → Bool
has_room sub = ltb (length sub.buffer) sse_buffer_size

abbrev pub send : HealthSnapshot → Subscriber → Subscriber
send snap sub = record sub { buffer = sub.buffer ++ snap ∷ [] }

-- `broadcastLocked`: a send to each subscriber with room, and a drop of each other
unfoldable pub broadcast : HealthSnapshot → HealthMonitor → HealthMonitor
broadcast snap h = record h {
  subscribers = map (send snap) (keep has_room h.subscribers);
  closed = h.closed ++ keep (λ sub. not (has_room sub)) h.subscribers;
}

-- `applyObservation` at the time `now`
unfoldable pub apply_observation :
    Text → (from_probe : Bool) → (now : ℕ) → HealthMonitor → HealthMonitor
unfolding valid_source_state snapshot broadcast
apply_observation src from_probe now h =
    let transitioned = not (src == h.state) in
    let moved = if transitioned then record h { state = src; since = now } else h in
    let probed = if from_probe then record moved { last_probed = some now } else moved in
    if not (valid_source_state src)
    then h
    else if transitioned
    then broadcast (snapshot probed) probed
    else probed

-- `recordProbeAttempt`
abbrev pub record_probe_attempt : ℕ → HealthMonitor → HealthMonitor
record_probe_attempt now h = record h { last_probed = some now }

-- `subscribe`: a fresh channel, seeded; after `Close` it is closed at once
unfoldable pub subscribe : ℕ → HealthMonitor → HealthMonitor
unfolding snapshot
subscribe name h =
    if h.done
    then record h { closed = h.closed ++ record { name = name; taken = []; buffer = [] } ∷ [] }
    else record h {
      subscribers =
          h.subscribers ++ record { name = name; taken = []; buffer = snapshot h ∷ [] } ∷ [];
    }

abbrev pub is_named : ℕ → Subscriber → Bool
is_named name sub = nat_beq sub.name name

-- `dropSubscriber`
unfoldable pub drop_subscriber : ℕ → HealthMonitor → HealthMonitor
drop_subscriber name h = record h {
  subscribers = keep (λ sub. not (is_named name sub)) h.subscribers;
  closed = h.closed ++ keep (is_named name) h.subscribers;
}

abbrev pub take_first : Subscriber → List HealthSnapshot → Subscriber
take_first sub [] = sub
take_first sub (snap ∷ rest) = record sub { taken = sub.taken ++ snap ∷ []; buffer = rest }

-- one receive of `serveStream`
unfoldable pub receive : ℕ → HealthMonitor → HealthMonitor
receive name h = record h {
  subscribers =
      map (λ (sub : Subscriber). if is_named name sub then take_first sub sub.buffer else sub)
        h.subscribers;
}

-- the two parts of `Close`, between which other calls may come
abbrev pub close_done : HealthMonitor → HealthMonitor
close_done h = record h { done = true }

abbrev pub close_subscribers : HealthMonitor → HealthMonitor
close_subscribers h = record h { subscribers = []; closed = h.closed ++ h.subscribers }

pub record ProbeResponse : Type 0 where
  pub status_code : ℕ
  pub headers : HeaderMap

unfoldable pub classify_probe_response : ProbeResponse → Option Text
classify_probe_response resp =
    let v = get_first (codes "X-Httptape-Source") resp.headers in
    if not (is_empty v)
    then (if v == state_l1_cache || v == state_l2_cache then some v else none)
    else if leb 200 resp.status_code && ltb resp.status_code 500
    then some state_live
    else none

abbrev pub observe_classified : ℕ → Option Text → HealthMonitor → HealthMonitor
observe_classified now none h = h
observe_classified now (some src) h = apply_observation src true now h

abbrev pub rejects_head : ProbeResponse → Bool
rejects_head resp = nat_beq resp.status_code 405 || nat_beq resp.status_code 501

abbrev pub promote_probe_method : Text → HealthMonitor → HealthMonitor
promote_probe_method m h = record h { probe_method = m }

abbrev pub after_probe : ℕ → Option ProbeResponse → HealthMonitor → HealthMonitor
after_probe now none h = h
after_probe now (some resp) h =
    if h.probe_method == codes "HEAD" && rejects_head resp
    then promote_probe_method (codes "GET") h
    else observe_classified now (classify_probe_response resp) h

-- `runProbeOnce`, with the time of its observation and of the deferred record; `none` is no usable
-- response: an error, or a nil response
unfoldable pub run_probe_once :
    (observed recorded : ℕ) → Option ProbeResponse → HealthMonitor → HealthMonitor
unfolding classify_probe_response apply_observation
run_probe_once observed recorded resp h =
    record_probe_attempt recorded (after_probe observed resp h)
