-- ===== src/Sse.antt =====
-- sse.go: the parser of event streams, and the writer of events in wire format.
pub mod Lines
pub mod RoundTrip
use httptape.Prelude.{
  ℕ, suc, ◌+◌, ◌*◌, ◌^◌, Text, codes, Bool, true, false, not, ◌&&◌, Option, none, some, List, [],
  ◌∷◌, ◌++◌, map, is_empty, nat_beq, leb, ltb, cut, split_at, join, contains_byte, strip_prefix,
  ◌==◌, text_eq, if◌then◌else◌,
}
use mathlib.Core.List.{reverse}
use httptape.Tape.{SseEvent}
use httptape.Decimal.{decimal, atoi_nonneg}

-- the maximum of the scanner's buffer, 1024 * 1024
abbrev pub max_token : ℕ
max_token = 2 ^ 20

-- a carriage return at the end of a line goes; the line stands reversed
abbrev drop_cr : Text → Text
drop_cr [] = []
drop_cr (c ∷ s) = if nat_beq c 13 then s else c ∷ s

-- the lines of a stream, and whether it was cut at a line that is too long
abbrev pub Scanned : Type 0
Scanned = List Text × Bool

abbrev with_line : Text → Scanned → Scanned
with_line line (lines, too_long) = (line ∷ lines, too_long)

-- bufio.Scanner with ScanLines. `pending` is the line so far, reversed, of length `size`; the scan
-- fails as soon as a line fills the buffer.
unfoldable pub scan_from : (pending : Text) → (size : ℕ) → Text → Scanned
scan_from [] size [] = ([], false)
scan_from (p ∷ pending) size [] = (reverse (drop_cr (p ∷ pending)) ∷ [], false)
scan_from pending size (c ∷ s) =
    let next = with_line (reverse (drop_cr pending)) (scan_from [] 0 s) in
    let longer = scan_from (c ∷ pending) (suc size) s in
    if nat_beq c 10 then next else if leb max_token (suc size) then ([], true) else longer

unfoldable pub scan_lines : Text → Scanned
unfolding scan_from
scan_lines s = scan_from [] 0 s

-- the variables of `parseSSEStream`
pub record Pending : Type 0 where
  pub event_type : Text
  pub lines : List Text
  pub id : Text
  pub retry : ℕ
  pub has_data : Bool

abbrev pub nothing : Pending
nothing = record { event_type = []; lines = []; id = []; retry = 0; has_data = false }

unfoldable pub is_blank : Pending → Bool
is_blank p = not p.has_data && is_empty p.event_type && is_empty p.id && nat_beq p.retry 0

abbrev pub event_of : ℕ → Pending → SseEvent
event_of offset p = record {
  offset_ms = offset;
  kind = p.event_type;
  payload = join 10 p.lines;
  id = p.id;
  retry = p.retry;
}

abbrev set_retry : Pending → Option ℕ → Pending
set_retry p none = p
set_retry p (some n) = record p { retry = n }

-- the switch over the field's name
unfoldable pub set_field : Text → Text → Pending → Pending
set_field field value p =
    if field == codes "event"
    then record p { event_type = value }
    else if field == codes "data"
    then record p { lines = p.lines ++ value ∷ []; has_data = true }
    else if field == codes "id"
    then (if contains_byte 0 value then p else record p { id = value })
    else if field == codes "retry"
    then set_retry p (atoi_nonneg value)
    else p

abbrev drop_space : Text → Text
drop_space [] = []
drop_space (c ∷ s) = if nat_beq c b' ' then s else c ∷ s

abbrev set_parts : Text → Option (Text × Text) → Pending → Pending
set_parts line none p = set_field line [] p
set_parts line (some (field, value)) p = set_field field (drop_space value) p

-- a line that is not blank: a comment, or a field
unfoldable pub read_line : Text → Pending → Pending
unfolding set_field
read_line [] p = p
read_line (c ∷ s) p = if nat_beq c b':' then p else set_parts (c ∷ s) (cut b':' (c ∷ s)) p

-- The loop over the lines; `clock k` is the offset of the k-th event dispatched.
module _ (clock : ℕ → ℕ) where
  unfoldable pub parse_lines : (dispatched : ℕ) → Pending → List Text → List SseEvent
  unfolding is_blank read_line
  parse_lines k p [] = []
  parse_lines k p ([] ∷ lines) =
      let skipped = parse_lines k p lines in
      let sent = event_of (clock k) p ∷ parse_lines (suc k) nothing lines in
      if is_blank p then skipped else sent
  parse_lines k p ((c ∷ s) ∷ lines) = parse_lines k (read_line (c ∷ s) p) lines

  -- `parseSSEStream` on a reader that gives the bytes and then io.EOF: the events, and whether it
  -- returns bufio.ErrTooLong
  unfoldable pub parse_sse_stream : Text → List SseEvent × Bool
  unfolding parse_lines scan_lines
  parse_sse_stream s =
      let (lines, too_long) = scan_lines s in (parse_lines 0 nothing lines, too_long)

-- The lines that `writeSSEEvent` prints, each with a newline behind it.
unfoldable pub event_lines : SseEvent → List Text
event_lines ev =
    (if is_empty ev.kind then [] else (codes "event: " ++ ev.kind) ∷ [])
    ++ ((if is_empty ev.id then [] else (codes "id: " ++ ev.id) ∷ [])
        ++ ((if ltb 0 ev.retry then (codes "retry: " ++ decimal ev.retry) ∷ [] else [])
            ++ (map (λ line. codes "data: " ++ line) (split_at 10 ev.payload) ++ [] ∷ [])))

unfoldable pub put_lines : List Text → Text
put_lines [] = []
put_lines (line ∷ lines) = line ++ (10 ∷ put_lines lines)

unfoldable pub write_sse_event : SseEvent → Text
unfolding event_lines put_lines
write_sse_event ev = put_lines (event_lines ev)

-- the writes of `replaySSEEvents`, without its delays
unfoldable pub write_events : List SseEvent → Text
unfolding write_sse_event
write_events [] = []
write_events (ev ∷ evs) = write_sse_event ev ++ write_events evs
