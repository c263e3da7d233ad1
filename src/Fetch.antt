-- ===== src/Fetch.antt =====
-- native/librespot/audio/src/fetch/receive.rs and mod.rs: a file is fetched in ranges, by several
-- requests at a time, into a temporary file that a reader reads meanwhile. What the threads share
-- is one state; a channel is the list of the messages in it. Times are in milliseconds.
pub mod Requests
pub mod Sound
pub mod Steps
pub mod Keeps
pub mod Holding
pub mod Reading
pub mod Progress
use squeezebox_radio_spotify.Prelude.{
  ℕ, ◌*◌, List, false, Bool, if◌then◌else◌, ◌-◌, ltb, ◌∷◌, drop, ◌++◌, leb, ◌||◌, max, ◌+◌, [],
  length, min, ◌&&◌, ◌/◌, get_or, suc, zero,
}
use squeezebox_radio_spotify.Ranges.{
  Range, RangeSet, add_range, intersection, minus, contained_length_from_value, subtract_range,
  contains,
}

-- `AudioFetchParams`
pub record Params : Type 0 where
  pub minimum_download_size : ℕ
  pub minimum_throughput : ℕ
  pub maximum_assumed_ping_time : ℕ

abbrev pub default_params : Params
default_params = record {
  minimum_download_size = 64 * 1024;
  minimum_throughput = 8 * 1024;
  maximum_assumed_ping_time = 1500;
}

-- `receive_data`, with its `StreamingRequest` and its `actual_length`
pub record Receiver : Type 0 where
  pub offset : ℕ
  pub length : ℕ
  pub actual_length : ℕ

pub data ReceivedData : Type 0 where
  throughput_of : ℕ → ReceivedData
  response_time : ℕ → ReceivedData
  -- `PartialFileData`
  file_data : ℕ → List ℕ → ReceivedData

-- `AudioFileFetch`, `AudioFileShared`, and the requests in flight. The file is `written`; `output`
-- tells whether the fetch has it, `complete` whether it has been passed on.
pub record Fetch : Type 0 where
  pub file_size : ℕ
  pub params : Params
  pub requested : RangeSet
  pub downloaded : RangeSet
  pub download_streaming : Bool
  pub throughput : ℕ
  pub ping_time : ℕ
  pub read_position : ℕ
  pub network_response_times : List ℕ
  pub output : Bool
  pub complete : Bool
  pub written : ℕ → ℕ
  pub receivers : List Receiver
  pub file_data_rx : List ReceivedData

-- `ControlFlow`, or an error.
pub data ControlFlow : Type 0 where
  breaks continues fails : ControlFlow

-- What `download_range` asks for: at least the minimum, in streaming mode what a second brings, and
-- nothing beyond the file.
abbrev pub at_least : ℕ → Fetch → ℕ
at_least length s =
    let least = s.params.minimum_download_size in
    let length' = if ltb length least then least else length in
    if s.download_streaming then max length' s.throughput else length'

unfoldable pub clamped : ℕ → ℕ → Fetch → ℕ
clamped offset length s = if ltb s.file_size (offset + length) then s.file_size - offset else length

-- The ranges that are neither downloaded nor requested.
abbrev pub missing : Range → Fetch → RangeSet
missing r s = minus (minus (add_range [] r) s.downloaded) s.requested

abbrev pub request : Range → Fetch → Fetch
request r s = record s {
  requested = add_range s.requested r;
  receivers = s.receivers ++ record { offset = r.start; length = r.length; actual_length = 0 } ∷ [];
}

module _ (streams : Range → Bool) where
  -- The loop of `download_range`, which ends where no request can be made.
  unfoldable pub spawn : List Range → Fetch → ControlFlow × Fetch
  spawn [] s = (continues, s)
  spawn (r ∷ rs) s = let rest = spawn rs (request r s) in if streams r then rest else (fails, s)

  unfoldable pub download_range : ℕ → ℕ → Fetch → ControlFlow × Fetch
  unfolding spawn clamped
  download_range offset length s =
      spawn (missing (record { start = offset; length = clamped offset (at_least length s) s }) s) s

  abbrev pub download_first : ℕ → RangeSet → RangeSet → Fetch → ControlFlow × Fetch
  download_first bytes [] [] s = (continues, s)
  download_first bytes [] (r ∷ rs) s = download_range r.start (min r.length bytes) s
  download_first bytes (r ∷ rs) other s = download_range r.start (min r.length bytes) s

  -- What is missing behind the read position comes first.
  unfoldable pub pre_fetch_more_data : ℕ → Fetch → ControlFlow × Fetch
  unfolding download_range
  pre_fetch_more_data bytes s =
      let missing_data = missing (record { start = 0; length = s.file_size }) s in
      let tail_end =
        intersection
          (add_range []
            (record { start = s.read_position; length = s.file_size - s.read_position }))
          missing_data in
      download_first bytes tail_end missing_data s

-- A new throughput is averaged with the old one.
abbrev pub average : ℕ → ℕ → ℕ
average old new = if ltb 0 old then (old + new) / 2 else new

unfoldable pub handle_throughput : ℕ → Fetch → Fetch
handle_throughput n s =
    let least = s.params.minimum_throughput in
    record s { throughput = average s.throughput (if ltb n least then least else n) }

-- `while len >= 3 { remove(0) }`
abbrev pub keep_two : List ℕ → List ℕ
keep_two times = drop (length times - 2) times

-- The median of at most three times.
abbrev pub median : List ℕ → ℕ
median [] = 0
median (a ∷ []) = a
median (a ∷ b ∷ []) = (a + b) / 2
median (a ∷ b ∷ c ∷ ts) = max (min a b) (min (max a b) c)

unfoldable pub handle_response_time : ℕ → Fetch → Fetch
handle_response_time time s =
    let times =
      keep_two s.network_response_times ++ min time s.params.maximum_assumed_ping_time ∷ [] in
    record s { network_response_times = times; ping_time = median times }

-- `write_all` at an offset.
abbrev pub write_at : ℕ → List ℕ → (ℕ → ℕ) → ℕ → ℕ
write_at offset bytes written v =
    if leb offset v && ltb v (offset + length bytes)
    then get_or bytes (v - offset) (written v)
    else written v

unfoldable pub store_data : ℕ → List ℕ → Fetch → Fetch
store_data offset bytes s = record s {
  written = write_at offset bytes s.written;
  downloaded = add_range s.downloaded (record { start = offset; length = length bytes });
}

abbrev pub finish_output : Fetch → Fetch
finish_output s = record s { output = false; complete = s.complete || s.output }

abbrev pub is_full : Fetch → Bool
is_full s = leb s.file_size (contained_length_from_value s.downloaded 0)

-- The file is complete where all of it is downloaded.
abbrev pub finish_full : Fetch → ControlFlow × Fetch
finish_full s = if is_full s then (breaks, finish_output s) else (continues, s)

unfoldable pub handle_file_data : ReceivedData → Fetch → ControlFlow × Fetch
unfolding handle_throughput handle_response_time store_data
handle_file_data (throughput_of n) s = (continues, handle_throughput n s)
handle_file_data (response_time n) s = (continues, handle_response_time n s)
handle_file_data (file_data offset bytes) s =
    let stored = finish_full (store_data offset bytes s) in if s.output then stored else (fails, s)

-- `StreamLoaderCommand`
pub data Command : Type 0 where
  fetch : Range → Command
  close : Command

unfoldable pub handle_stream_loader_command : (Range → Bool) → Command → Fetch → ControlFlow × Fetch
unfolding download_range
handle_stream_loader_command streams (fetch r) s = download_range streams r.start r.length s
handle_stream_loader_command streams close s = (breaks, s)

-- A receiver that ends with less than it has asked for gives the rest back.
unfoldable pub give_back : Receiver → Fetch → Fetch
give_back t s =
    let rest = t.length - t.actual_length in
    record s {
      requested =
          if ltb 0 rest
          then subtract_range s.requested
              (record { start = t.offset + t.actual_length; length = rest })
          else s.requested;
    }

-- `read` of `AudioFileStreaming`: how many bytes are read at most, what is asked for, and what is read
-- where the first byte is there. `read_ahead` is the bytes of the time that is read ahead.
abbrev pub read_length : ℕ → ℕ → Fetch → ℕ
read_length offset room s = min room (s.file_size - offset)

abbrev pub length_to_request : ℕ → ℕ → ℕ → Fetch → ℕ
length_to_request read_ahead offset room s =
    let length = read_length offset room s in
    if s.download_streaming then min (length + read_ahead) (s.file_size - offset) else length

abbrev pub ranges_to_request : ℕ → ℕ → ℕ → Fetch → RangeSet
ranges_to_request read_ahead offset room s =
    missing (record { start = offset; length = length_to_request read_ahead offset room s }) s

abbrev pub may_read : ℕ → Fetch → Bool
may_read offset s = contains s.downloaded offset

-- The bytes of the temporary file.
unfoldable pub read_bytes : (ℕ → ℕ) → ℕ → ℕ → List ℕ
read_bytes written offset zero = []
read_bytes written offset (suc n) = written offset ∷ read_bytes written (suc offset) n

unfoldable pub read_available : ℕ → ℕ → Fetch → List ℕ
unfolding read_bytes
read_available offset room s =
    read_bytes s.written offset
      (min (read_length offset room s) (contained_length_from_value s.downloaded offset))
