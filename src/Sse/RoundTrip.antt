-- ===== src/Sse/RoundTrip.antt =====
-- Parsing what was written gives the events back.
use httptape.Prelude.{
  ℕ, zero, suc, ◌+◌, ◌-◌, ◌^◌, ◌≤◌, ◌<◌, Text, codes, ◌≡◌, ◌≢◌, refl, ap, ◌∙◌, Bool, true, false,
  List, [], ◌∷◌, ◌++◌, map, All, All-imp, All-append, length, is_empty, ltb, arith, if◌then◌else◌,
  split_at, contains_byte, cut, text_beq, Bool-cases, inl, inr, length-append,
}
use mathlib.Core.List.{append_assoc}
use httptape.Tape.{SseEvent}
use httptape.Decimal.{decimal, decimal-All, length-decimal, atoi_nonneg-decimal, max_int, IsDigit}
use httptape.Sse.{
  max_token, Pending, event_of, parse_lines, parse_sse_stream, event_lines, Scanned, scan_from,
  scan_lines, write_sse_event, write_events,
}
use httptape.Sse.Lines.{
  IsPlain, IsLine, with_lines, scan_lines-put_lines, join-split_at, split_at-All, split_at_short,
  split_at-ne-nil,
}

-- What the wire format can carry: no carriage return; no newline but in the data; no NUL in the id;
-- lines within the scanner's buffer.
pub record IsWritable (ev : SseEvent) : Type 0 where
  pub kind_plain : IsPlain ev.kind
  pub kind_short : length ev.kind + 7 < max_token
  pub id_plain : IsPlain ev.id
  pub id_not_nul : contains_byte 0 ev.id ≡ false
  pub id_short : length ev.id + 4 < max_token
  pub retry_fits : ev.retry ≤ max_int
  pub payload_plain : All (λ c. c ≢ 13) ev.payload
  pub payload_short : length ev.payload + 6 < max_token

abbrev pending : Text → Text → ℕ → List Text → Bool → Pending
pending kind id retry lines has_data = record {
  event_type = kind;
  lines = lines;
  id = id;
  retry = retry;
  has_data = has_data;
}

module _ (clock : ℕ → ℕ) (k : ℕ) where
  feed_kind :
      (kind : Text) (rest : List Text)
      → parse_lines clock k
          (pending [] [] 0 [] false)
          ((if is_empty kind then [] else (codes "event: " ++ kind) ∷ []) ++ rest)
        ≡ parse_lines clock k (pending kind [] 0 [] false) rest
  unfolding parse_lines cut text_beq
  feed_kind [] rest = refl
  feed_kind (c ∷ kind) rest = refl

  feed_id :
      (kind id : Text) (rest : List Text)
      → contains_byte 0 id ≡ false
      → parse_lines clock k
          (pending kind [] 0 [] false)
          ((if is_empty id then [] else (codes "id: " ++ id) ∷ []) ++ rest)
        ≡ parse_lines clock k (pending kind id 0 [] false) rest
  unfolding parse_lines cut text_beq
  feed_id kind [] rest h = refl
  feed_id kind (c ∷ id) rest h = rw h

  feed_retry :
      (kind id : Text) (retry : ℕ) (rest : List Text)
      → retry ≤ max_int
      → parse_lines clock k
          (pending kind id 0 [] false)
          ((if ltb 0 retry then (codes "retry: " ++ decimal retry) ∷ [] else []) ++ rest)
        ≡ parse_lines clock k (pending kind id retry [] false) rest
  unfolding parse_lines cut text_beq
  feed_retry kind id zero rest h = refl
  feed_retry kind id (suc n) rest h =
      let positive : ltb 0 (suc n) ≡ true = ground arith in
      rw (positive, atoi_nonneg-decimal (suc n) h)

  feed_line :
      (kind id : Text) (retry : ℕ) (lines : List Text) (has_data : Bool) (w : Text)
      (rest : List Text)
      → parse_lines clock k (pending kind id retry lines has_data) ((codes "data: " ++ w) ∷ rest)
        ≡ parse_lines clock k (pending kind id retry (lines ++ w ∷ []) true) rest
  unfolding parse_lines cut text_beq
  feed_line kind id retry lines has_data w rest = refl

  feed_data :
      (kind id : Text) (retry : ℕ) (lines ws : List Text) (has_data : Bool) (rest : List Text)
      → ws ≢ []
      → parse_lines clock k
          (pending kind id retry lines has_data)
          (map (λ w. codes "data: " ++ w) ws ++ rest)
        ≡ parse_lines clock k (pending kind id retry (lines ++ ws) true) rest
  feed_data kind id retry lines [] has_data rest h = absurd (h refl)
  feed_data kind id retry lines (w ∷ []) has_data rest h =
      feed_line kind id retry lines has_data w rest
  feed_data kind id retry lines (w ∷ v ∷ ws) has_data rest h =
      feed_line kind id retry lines has_data w (map (λ u. codes "data: " ++ u) (v ∷ ws) ++ rest)
      ∙ feed_data kind id retry (lines ++ w ∷ []) (v ∷ ws) true rest (cc)
      ∙ ap (λ l. parse_lines clock k (pending kind id retry l true) rest)
          (append_assoc lines (w ∷ []) (v ∷ ws))

  feed_blank :
      (kind id : Text) (retry : ℕ) (lines : List Text) (rest : List Text)
      → parse_lines clock k (pending kind id retry lines true) ([] ∷ rest)
        ≡ event_of (clock k) (pending kind id retry lines true)
          ∷ parse_lines clock (suc k) (pending [] [] 0 [] false) rest
  unfolding parse_lines
  feed_blank kind id retry lines rest = refl

  -- the lines of one event are parsed to that event, with the offset of its arrival
  feed_event :
      (ev : SseEvent) (rest : List Text)
      → IsWritable ev
      → parse_lines clock k (pending [] [] 0 [] false) (event_lines ev ++ rest)
        ≡ record ev { offset_ms = clock k }
          ∷ parse_lines clock (suc k) (pending [] [] 0 [] false) rest
  unfolding event_lines
  feed_event ev rest h =
      let parts = split_at 10 ev.payload in
      simp append_assoc (
        feed_kind ev.kind _
        ∙ feed_id ev.kind ev.id _ h.id_not_nul
        ∙ feed_retry ev.kind ev.id ev.retry _ h.retry_fits
        ∙ feed_data ev.kind ev.id ev.retry [] parts false ([] ∷ rest)
            (split_at-ne-nil 10 ev.payload)
        ∙ feed_blank ev.kind ev.id ev.retry parts rest
        ∙ ap
            (λ d.
              record ev { offset_ms = clock k; payload = d }
              ∷ parse_lines clock (suc k) (pending [] [] 0 [] false) rest)
            (join-split_at 10 ev.payload))

prefix-IsLine :
    (prefix s : Text)
    → IsPlain prefix
    → IsPlain s
    → length prefix + length s < max_token
    → IsLine (prefix ++ s)
prefix-IsLine prefix s p h lt = (All-append _ prefix s p h, omega (arith, length-append prefix s))

IsPlain-codes :
    IsPlain (codes "event: ")
    × IsPlain (codes "id: ")
    × IsPlain (codes "retry: ")
    × IsPlain (codes "data: ")
IsPlain-codes = omega arith

one-IsLine : (b : Bool) (line : Text) → IsLine line → All IsLine (if b then [] else line ∷ [])
one-IsLine true line h = tt
one-IsLine false line h = (h, tt)

data_lines :
    (ws : List Text)
    → All (λ w. IsPlain w) ws
    → All (λ w. length w < 2 ^ 20 - 6) ws
    → All IsLine (map (λ w. codes "data: " ++ w) ws)
data_lines [] h k = tt
data_lines (w ∷ ws) h k =
    (prefix-IsLine (codes "data: ") w IsPlain-codes.3 h.0 (omega arith), data_lines ws h.1 k.1)

retry-IsLine : (n : ℕ) → All IsLine (if ltb 0 n then (codes "retry: " ++ decimal n) ∷ [] else [])
retry-IsLine n = elim (Bool-cases (ltb 0 n)) [
  | inl positive ↦ rw positive (
    prefix-IsLine (codes "retry: ") (decimal n) IsPlain-codes.2
        (All-imp IsDigit (λ c. (c ≢ 10) × (c ≢ 13)) (decimal n) (λ c d. omega arith)
          (decimal-All n))
        (omega (arith, length-decimal n)),
    tt,
  )
  | inr none_sent ↦ rw none_sent tt
]

event_lines-IsLine : (ev : SseEvent) → IsWritable ev → All IsLine (event_lines ev)
unfolding event_lines
event_lines-IsLine ev h =
    All-append IsLine (if is_empty ev.kind then [] else (codes "event: " ++ ev.kind) ∷ []) _
      (one-IsLine (is_empty ev.kind) _
        (prefix-IsLine (codes "event: ") ev.kind IsPlain-codes.0 h.kind_plain (omega arith)))
      (All-append IsLine (if is_empty ev.id then [] else (codes "id: " ++ ev.id) ∷ []) _
        (one-IsLine (is_empty ev.id) _
          (prefix-IsLine (codes "id: ") ev.id IsPlain-codes.1 h.id_plain (omega arith)))
        (All-append IsLine
          (if ltb 0 ev.retry then (codes "retry: " ++ decimal ev.retry) ∷ [] else []) _
          (retry-IsLine ev.retry)
          (All-append IsLine (map (λ w. codes "data: " ++ w) (split_at 10 ev.payload)) ([] ∷ [])
            (data_lines (split_at 10 ev.payload)
              (split_at-All (λ c. c ≢ 13) 10 ev.payload h.payload_plain)
              (split_at_short 10 (2 ^ 20 - 6) ev.payload (omega arith)))
            ((tt, omega arith), tt))))

-- The events with the offsets of their arrivals, the first being the k-th.
abbrev pub arrived : (ℕ → ℕ) → ℕ → List SseEvent → List SseEvent
arrived clock k [] = []
arrived clock k (ev ∷ evs) = record ev { offset_ms = clock k } ∷ arrived clock (suc k) evs

abbrev parsed_lines : (ℕ → ℕ) → ℕ → List Text × Bool → List SseEvent × Bool
parsed_lines clock k (lines, too_long) =
    (parse_lines clock k (pending [] [] 0 [] false) lines, too_long)

feed_events :
    (clock : ℕ → ℕ) (k : ℕ) (ev : SseEvent) (evs : List SseEvent) (scanned : Scanned)
    → IsWritable ev
    → parsed_lines clock (suc k) scanned ≡ (arrived clock (suc k) evs, false)
    → parsed_lines clock k (with_lines (event_lines ev) scanned)
      ≡ (arrived clock k (ev ∷ evs), false)
feed_events clock k ev evs (lines, too_long) h e =
    rw (feed_event clock k ev lines h) (ap (λ r. (record ev { offset_ms = clock k } ∷ r.0, r.1)) e)

parse_written :
    (clock : ℕ → ℕ) (k : ℕ) (evs : List SseEvent)
    → All IsWritable evs
    → parsed_lines clock k (scan_lines (write_events evs)) ≡ (arrived clock k evs, false)
unfolding write_events write_sse_event
parse_written clock k [] h = unfold scan_lines scan_from parse_lines in refl
parse_written clock k (ev ∷ evs) h =
    rw (scan_lines-put_lines (event_lines ev) (write_events evs) (event_lines-IsLine ev h.0)) (
      feed_events clock k ev evs (scan_lines (write_events evs)) h.0
        (parse_written clock (suc k) evs h.1))

-- Any sequence of writable events, written one after the other, is parsed to the same events in
-- the same order, each with the offset of its arrival, and with no error.
pub parse_sse_stream-write_events :
    (clock : ℕ → ℕ) (evs : List SseEvent)
    → All IsWritable evs
    → parse_sse_stream clock (write_events evs) ≡ (arrived clock 0 evs, false)
unfolding parse_sse_stream
parse_sse_stream-write_events clock evs h = parse_written clock 0 evs h
