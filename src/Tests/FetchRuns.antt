-- ===== src/Tests/FetchRuns.antt =====
-- A file of four bytes, fetched by one request of two bytes and another one.
use squeezebox_radio_spotify.Fetch.{
  Fetch, Params, Receiver, handle_file_data, may_read, store_data, download_range, read_available,
  read_bytes, spawn, clamped, continues,
}
use squeezebox_radio_spotify.Fetch.Holding.{HoldsNow, Reach-HoldsNow}
use squeezebox_radio_spotify.Fetch.Reading.{complete_file, read_available-slice}
use squeezebox_radio_spotify.Fetch.Requests.{clamped_range, download_range-missing}
use squeezebox_radio_spotify.Fetch.Sound.{Sound, slice, awaited}
use squeezebox_radio_spotify.Fetch.Steps.{
  ended, Reach, further, here, receives, handles, brings, brought, started, started_download,
  Download, selects, checks,
}
use squeezebox_radio_spotify.Prelude.{
  ℕ, Bool, ◌∷◌, [], ◌≡◌, ◌+◌, true, arith, refl, ◌<◌, ◌≤◌, ◌||◌, ◌&&◌, not, false,
}
use squeezebox_radio_spotify.Ranges.{
  Range, contained_length_from_value, add_range, insert, contains, subtract_range_set,
  subtract_range, remove, remove_front,
}
use squeezebox_radio_spotify.Ranges.Set.{member, in_range}

abbrev file : ℕ → ℕ
file v = 10 + v

abbrev tiny : Params
tiny = record {
  minimum_download_size = 2;
  minimum_throughput = 1;
  maximum_assumed_ping_time = 1500;
}

abbrev always : Range → Bool
always r = true

abbrev first_receiver : Receiver
first_receiver = record { offset = 0; length = 2; actual_length = 0 }

-- The first two bytes have arrived.
abbrev one_message : Fetch
one_message = record (started tiny 4 2) {
  receivers = brought 2 first_receiver ∷ [];
  file_data_rx = brings file 2 first_receiver ∷ [];
}

one_message-Reach :
    Reach file always (started_download tiny 4 2) (record { state = one_message; phase = selects })
unfolding started
one_message-Reach = further here (receives selects [] [] first_receiver 2 tt refl (omega arith))

-- They are stored.
abbrev two_bytes : Fetch
two_bytes =
    (handle_file_data (brings file 2 first_receiver) (record one_message { file_data_rx = [] })).1

abbrev two_bytes_now : Download
two_bytes_now = record { state = two_bytes; phase = checks }

two_bytes-Reach : Reach file always (started_download tiny 4 2) two_bytes_now
unfolding started handle_file_data store_data slice contained_length_from_value add_range insert
two_bytes-Reach = further one_message-Reach (handles (brings file 2 first_receiver) [] refl)

Reach-HoldsNow_example : HoldsNow file two_bytes_now
Reach-HoldsNow_example = Reach-HoldsNow file always tiny 4 2 two_bytes_now two_bytes-Reach

two_bytes-Sound : Sound file two_bytes
two_bytes-Sound = (Reach-HoldsNow file always tiny 4 2 two_bytes_now two_bytes-Reach).0

two_bytes-output : two_bytes.output ≡ true
unfolding started handle_file_data store_data slice contained_length_from_value add_range insert
two_bytes-output = refl

two_bytes-size : 2 < two_bytes.file_size
unfolding started handle_file_data store_data slice contained_length_from_value add_range insert
two_bytes-size = omega arith

started-continues : (download_range always 1 2 (started tiny 4 2)).0 ≡ continues
unfolding started download_range spawn clamped add_range insert subtract_range_set subtract_range
    remove remove_front
started-continues = refl

started-Sound_now : Sound file (started tiny 4 2)
started-Sound_now = (Reach-HoldsNow file always tiny 4 2 (started_download tiny 4 2) here).0

download_range-missing_example :
    let s = started tiny 4 2 in
    let r = clamped_range 1 2 s in
    let t = (download_range always 1 2 s).1 in
    (member 3 t.requested ≡ (member 3 s.requested || in_range 3 r && not (member 3 s.downloaded)))
    × (awaited 3 t.receivers ≡ (
        awaited 3 s.receivers
        || in_range 3 r && not (member 3 s.downloaded) && not (member 3 s.requested)))
download_range-missing_example =
    download_range-missing file always 1 2 3 (started tiny 4 2) started-Sound_now started-continues

two_bytes-readable : may_read 1 two_bytes ≡ true
unfolding started handle_file_data store_data slice contained_length_from_value add_range insert
    contains
two_bytes-readable = refl

two_bytes-inside : 1 < two_bytes.file_size
unfolding started handle_file_data store_data slice contained_length_from_value add_range insert
two_bytes-inside = omega arith

read_available-slice_example :
    (n : ℕ) × (read_available 1 8 two_bytes ≡ slice file 1 n)
    × (0 < n)
    × (n ≤ 8)
    × (1 + n ≤ two_bytes.file_size)
read_available-slice_example =
    read_available-slice file 1 8 two_bytes two_bytes-Sound two_bytes-inside (omega arith)
      two_bytes-readable

-- A file of two bytes is complete with its first message.
abbrev whole : Fetch
whole = record (started tiny 2 2) {
  receivers = brought 2 first_receiver ∷ [];
  file_data_rx = brings file 2 first_receiver ∷ [];
}

abbrev completed : Fetch
completed = (handle_file_data (brings file 2 first_receiver) (record whole { file_data_rx = [] })).1

abbrev completed_now : Download
completed_now = record {
  state = record completed { file_data_rx = []; output = false };
  phase = ended;
}

completed-Reach : Reach file always (started_download tiny 2 2) completed_now
unfolding started handle_file_data store_data slice contained_length_from_value add_range insert
completed-Reach =
    further (further here (receives selects [] [] first_receiver 2 tt refl (omega arith)))
      (handles (brings file 2 first_receiver) [] refl)

completed-complete : completed_now.state.complete ≡ true
unfolding started handle_file_data store_data slice contained_length_from_value add_range insert
completed-complete = refl

complete_file_example :
    read_bytes completed_now.state.written 0 completed_now.state.file_size
    ≡ slice file 0 completed_now.state.file_size
complete_file_example =
    complete_file file always tiny 2 2 completed_now completed-Reach completed-complete
