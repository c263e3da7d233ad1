-- ===== src/Bridge/Loop.antt =====
-- bridge.rs `main`, from its loop on. One pass is `step`: what the operating system answers in it
-- is a `World`. A client is the bytes that were written to it behind the HTTP header; the messages
-- and the counter that only times them are left out.
pub mod Inv
mod Arrival
mod Sending
pub mod Delivery
use squeezebox_radio_spotify.Bridge.Headers.{
  Headers, default, is_bos, from_le_bytes, flags_of, observe,
}
use squeezebox_radio_spotify.Bridge.Http.{Socket, accept_http}
use squeezebox_radio_spotify.Bridge.Marker.{Marker, write_marker}
use squeezebox_radio_spotify.Bridge.Page.{Input}
use squeezebox_radio_spotify.Bridge.Result.{
  ◌>>=◌, Error, Result, ok, err, panic, io_fault, index, slice,
}
use squeezebox_radio_spotify.Prelude.{
  List, ℕ, Option, Bool, none, if◌then◌else◌, false, ◌^◌, some, not, ◌||◌, min, ◌-◌, ◌&&◌, true,
  bytes_eq, ◌==◌, take, ◌*◌, length, ◌+◌, ltb, drop, ◌/◌, leb, ◌++◌, ◌%◌,
}

pub data Accepting : Type 0 where
  would_block : Accepting
  accept_failed : Accepting
  -- The socket, whether the headers could be replayed, whether the write timeout could be set.
  arrives : Socket → Bool → Bool → Accepting

-- What the producer's thread has sent within 100 ms.
pub data Receiving : Type 0 where
  item : List ℕ → Receiving
  ended : Receiving
  fault : Error → Receiving
  timeout : Receiving

-- The producer's thread sends what `page` returns, and ends with an error or at the end.
abbrev pub produced : Result (Option (List ℕ) × Input) → Receiving
produced (ok (none, r)) = ended
produced (ok (some p, r)) = item p
produced (err e) = fault e

-- `write` takes at most the bytes that it is given.
pub data Writing : Type 0 where
  wrote : ℕ → Writing
  try_again : Writing
  broken : Writing

-- Times are nanoseconds.
pub record World : Type 0 where
  pub loading : Option (List ℕ)
  pub accepting : Accepting
  pub receiving : Receiving
  pub now : ℕ
  pub elapsed : ℕ
  pub writing : Writing
  pub marker_works : Bool

pub record Config : Type 0 where
  pub paced : Bool
  pub marked : Bool

pub record State : Type 0 where
  pub headers : Headers
  pub client : Option (List ℕ)
  pub pending : Option (List ℕ)
  pub pending_header : Bool
  pub offset : ℕ
  pub forwarded : ℕ
  pub timeline : Option (ℕ × ℕ)
  pub generation : ℕ
  pub last_loading : Option (List ℕ)
  pub discard_until_bos : Bool
  pub marker : Option Marker

pub data Flow : Type 0 where
  -- `continue`, or the end of the body
  again : State → Flow
  -- on to the next part of the body
  go_on : State → Flow
  finished : Flow
  failed : Error → Flow

abbrev pub initial : State
initial = record {
  headers = default;
  client = none;
  pending = none;
  pending_header = false;
  offset = 0;
  forwarded = 0;
  timeline = none;
  generation = 0;
  last_loading = none;
  discard_until_bos = false;
  marker = none;
}

abbrev pub u64_mod : ℕ
u64_mod = 2 ^ 64

abbrev pub startup_lead_ms : ℕ
startup_lead_ms = 3000

abbrev pub is_some {ℓ} : {A : Type ℓ} → Option A → Bool
is_some none = false
is_some (some _) = true

abbrev pub is_last : Option (List ℕ) → List ℕ → Bool
is_last none loading = false
is_last (some last) loading = bytes_eq last loading

-- A new value of the loading marker drops the stream at hand.
unfoldable pub poll_loading : Option (List ℕ) → State → State
poll_loading none s = s
poll_loading (some loading) s = if is_last s.last_loading loading then s else record s {
  last_loading = some loading;
  discard_until_bos = true;
  pending = none;
  offset = 0;
  timeline = none;
  client = none;
}

unfoldable pub replay : State → Bool → Bool → Result State
replay s replayed timed =
    if replayed
    then (if timed
        then ok (record s { client = some s.headers.bytes; timeline = none })
        else err io_fault)
    else ok s

unfoldable pub accept_client : Accepting → State → Result State
accept_client would_block s = ok s
accept_client accept_failed s = err io_fault
accept_client (arrives socket replayed timed) s = elim (accept_http socket).1 [
  | ok _ ↦ replay s replayed timed
  | err _ ↦ ok s
]

-- The listener is polled while there is no client.
unfoldable pub poll_accept : World → State → Result State
poll_accept w s = if is_some s.client then ok s else accept_client w.accepting s

-- A stream is announced when its third header packet has been read.
unfoldable pub announce : Config → World → Bool → State → Result State
announce cfg w had_headers s =
    if not had_headers && s.headers.packets == 3
    then (let s' = record s { generation = (s.generation + 1) % u64_mod } in
        elim s.headers.serial [
          | none ↦ ok s'
          | some serial ↦
              if cfg.marked
              then (do
                m ←
                    write_marker w.marker_works s.marker
                      (record { generation = s'.generation; serial = serial })
                ok (record s' { marker = m }))
              else ok s'
        ])
    else ok s

-- A page that begins a stream ends the discarding and drops the client.
abbrev pub begin_stream : State → Bool → State
begin_stream s bos =
    if bos
    then record s { discard_until_bos = false; timeline = none; client = none; pending = none }
    else s

-- A header page is already in the cache: it is pending for a client that is there only.
unfoldable pub hold : State → List ℕ → Bool → State
hold s p is_header =
    if is_some s.client || not is_header
    then record s { pending = some p; pending_header = is_header; offset = 0 }
    else s

unfoldable pub arrive : Config → World → State → ℕ → List ℕ → Result State
arrive cfg w s flags p = do
  let bos = is_bos flags
  let is_header = bos || ltb s.headers.packets 3
  let had_headers = s.headers.packets == 3
  h ← observe s.headers p
  s' ← announce cfg w had_headers (record (begin_stream s bos) { headers = h })
  ok (hold s' p is_header)

abbrev pub flow_of : Result State → Flow
flow_of (ok s) = go_on s
flow_of (err e) = failed e

unfoldable pub take_page : Config → World → State → List ℕ → Flow
take_page cfg w s p = elim (index p 5) [
  | ok flags ↦
      if s.discard_until_bos && not (is_bos flags)
      then again s
      else flow_of (arrive cfg w s flags p)
  | err e ↦ failed e
]

unfoldable pub receive : Config → World → State → Receiving → Flow
receive cfg w s (item p) = take_page cfg w s p
receive cfg w s ended = finished
receive cfg w s (fault e) = failed e
receive cfg w s timeout = again s

-- `saturating_mul` and `saturating_sub` on u64
abbrev pub saturate : ℕ → ℕ
saturate n = min n (2 ^ 64 - 1)

unfoldable pub granule_of : List ℕ → Result ℕ
granule_of p = do word ← slice p 6 14; ok (from_le_bytes word)

abbrev pub due_ms : ℕ → ℕ → ℕ → ℕ
due_ms gp base rate = saturate ((gp - base) * 1000) / rate

abbrev pub get_or_insert : Option (ℕ × ℕ) → ℕ × ℕ → ℕ × ℕ
get_or_insert none new = new
get_or_insert (some old) new = old

-- Wait on, write, or end with a panic: a division by a rate of zero is one.
pub data Pace : Type 0 where
  wait write : State → Pace
  stops : Error → Pace

unfoldable pub pace_at : World → State → ℕ → Pace
pace_at w s gp =
    let timeline = get_or_insert s.timeline (w.now, gp) in
    let s' = record s { timeline = some timeline } in
    if gp == u64_mod - 1
    then write s
    else if s.headers.rate == 0
    then stops panic
    else if leb w.elapsed ((due_ms gp timeline.1 s.headers.rate - startup_lead_ms) * 1_000_000)
    then wait s'
    else write s'

unfoldable pub pace : Config → World → State → List ℕ → Pace
pace cfg w s p =
    if cfg.paced && not s.pending_header && s.offset == 0
    then elim (granule_of p) [ ok gp ↦ pace_at w s gp | err e ↦ stops e ]
    else write s

-- The client is gone: its page is kept, unless the replay will hold it.
unfoldable pub disconnect : State → State
disconnect s = record s {
  client = none;
  offset = 0;
  pending = if s.pending_header then none else s.pending;
}

-- What a write of `rest`, the pending page from the offset on, does.
unfoldable pub send : Writing → State → List ℕ → List ℕ → List ℕ → State
send try_again s p rest sent = s
send broken s p rest sent = disconnect s
send (wrote k) s p rest sent =
    let n = min k (length rest) in
    let s' = record s {
      client = some (sent ++ take n rest);
      forwarded = (s.forwarded + n) % u64_mod;
    } in
    if n == 0
    then disconnect s
    else if s.offset + n == length p
    then record s' { pending = none; offset = 0 }
    else record s' { offset = s.offset + n }

unfoldable pub write_rest : Writing → State → List ℕ → List ℕ → Flow
write_rest writing s p sent = elim (slice p s.offset (length p)) [
  | ok rest ↦ again (send writing s p rest sent)
  | err e ↦ failed e
]

unfoldable pub write_page : Config → World → State → List ℕ → List ℕ → Flow
write_page cfg w s p sent = elim (pace cfg w s p) [
  | wait s' ↦ again s'
  | write s' ↦ write_rest w.writing s' p sent
  | stops e ↦ failed e
]

unfoldable pub write_pending : Config → World → State → Option (List ℕ) → Option (List ℕ) → Flow
write_pending cfg w s (some p) (some sent) = write_page cfg w s p sent
write_pending cfg w s _ _ = again s

abbrev pub flow_on : Flow → (State → Flow) → Flow
flow_on (go_on s) k = k s
flow_on f k = f

-- An audio page waits for a client; without a page at hand the next one is awaited.
unfoldable pub serve : Config → World → State → Flow
serve cfg w s =
    if is_some s.pending && not (is_some s.client) && not s.discard_until_bos
    then again s
    else flow_on (if is_some s.pending then go_on s else receive cfg w s w.receiving)
        λ s'. write_pending cfg w s' s'.pending s'.client

unfoldable pub step : Config → World → State → Flow
step cfg w s = elim (poll_accept w (poll_loading w.loading s)) [
  | ok s' ↦ serve cfg w s'
  | err e ↦ failed e
]
