-- ===== src/Fetch/Steps.antt =====
-- The threads of a download as a step relation: the reader's commands and the receivers' messages are
-- handled in any order, and receivers bring what they like of what they have asked for.
use squeezebox_radio_spotify.Fetch.{
  Receiver, Range, give_back, ReceivedData, Fetch, file_data, Command, handle_stream_loader_command,
  pre_fetch_more_data, handle_file_data, fetch, Params, add_range, ControlFlow, close, breaks,
  continues,
}
use squeezebox_radio_spotify.Fetch.Sound.{slice, in_data, Genuine}
use squeezebox_radio_spotify.Prelude.{ℕ, ◌+◌, Bool, ◌≤◌, List, ◌≡◌, ◌++◌, ◌∷◌, [], false, true}

-- A message of a receiver.
abbrev pub brings : (ℕ → ℕ) → ℕ → Receiver → ReceivedData
brings file n t = file_data (t.offset + t.actual_length) (slice file (t.offset + t.actual_length) n)

abbrev pub brought : ℕ → Receiver → Receiver
brought n t = record t { actual_length = t.actual_length + n }

-- A command's range starts inside the file.
abbrev pub Inside : Command → Fetch → Type 0
Inside (fetch r) s = r.start ≤ s.file_size
Inside close s = Unit

-- Where the loop of `audio_file_fetch` stands: at its `select!`, behind it, or it has ended.
pub data Phase : Type 0 where
  selects checks ended : Phase

pub record Download : Type 0 where
  pub state : Fetch
  pub phase : Phase

-- On to the next phase, or the end of the fetch, which drops its channel and its file.
abbrev pub turn : Phase → ControlFlow × Fetch → Download
turn next (continues, s) = record { state = s; phase = next }
turn next (_, s) = record { state = record s { file_data_rx = []; output = false }; phase = ended }

-- A receiver's `send` works while the fetch runs.
abbrev pub IsRunning : Phase → Type 0
IsRunning ended = ⊥
IsRunning _ = Unit

-- Whether a step only passes on what was requested.
pub data Kind : Type 0 where
  delivers others : Kind

-- `file` is what the CDN has, `streams` which requests can be made.
pub data Step (file : ℕ → ℕ) (streams : Range → Bool) (s : Fetch)
    : Phase → Kind → Download → Type 0 where
  -- `handle_stream_loader_command`, which has no effect besides `download_range`
  commands :
      (c : Command)
      → Inside c s
      → Step file streams s selects others (turn checks (handle_stream_loader_command streams c s))
  -- the channel of the commands is closed
  closes : Step file streams s selects others (turn checks (breaks, s))
  -- `handle_file_data`
  handles :
      (d : ReceivedData) (ds : List ReceivedData)
      → s.file_data_rx ≡ d ∷ ds
      → Step file streams s selects delivers
          (turn checks (handle_file_data d (record s { file_data_rx = ds })))
  -- `pre_fetch_more_data`, in streaming mode only
  pre_fetches :
      (n : ℕ)
      → s.download_streaming ≡ true
      → Step file streams s checks others (turn selects (pre_fetch_more_data streams n s))
  -- nothing is fetched ahead
  rests : Step file streams s checks delivers (record { state = s; phase = selects })
  -- `receive_data` has got a part of its body
  receives :
      (phase : Phase) (ts us : List Receiver) (t : Receiver) (n : ℕ)
      → IsRunning phase
      → s.receivers ≡ ts ++ t ∷ us
      → t.actual_length + n ≤ t.length
      → Step file streams s phase delivers (record {
        state = record s {
          receivers = ts ++ brought n t ∷ us;
          file_data_rx = s.file_data_rx ++ brings file n t ∷ [];
        };
        phase = phase;
      })
  -- it has measured the throughput or the response time
  measures :
      (phase : Phase) (d : ReceivedData)
      → IsRunning phase
      → ((v : ℕ) → in_data v d ≡ false)
      → Genuine file d
      → Step file streams s phase others
          (record { state = record s { file_data_rx = s.file_data_rx ++ d ∷ [] }; phase = phase })
  -- it ends, with all of its body or not
  ends :
      (phase : Phase) (ts us : List Receiver) (t : Receiver)
      → s.receivers ≡ ts ++ t ∷ us
      → Step file streams s phase others
          (record { state = give_back t (record s { receivers = ts ++ us }); phase = phase })
  -- its `send` fails, since the fetch has ended: it returns without giving back
  abandons :
      (ts us : List Receiver) (t : Receiver)
      → s.receivers ≡ ts ++ t ∷ us
      → Step file streams s ended others
          (record { state = record s { receivers = ts ++ us }; phase = ended })
  -- the reader reads on, or changes the mode
  reads :
      (phase : Phase) (position : ℕ)
      → position ≤ s.file_size
      → Step file streams s phase others
          (record { state = record s { read_position = position }; phase = phase })
  modes :
      (phase : Phase) (on : Bool)
      → Step file streams s phase others
          (record { state = record s { download_streaming = on }; phase = phase })

-- `audio_file_fetch`, with the request that `open` has made.
unfoldable pub started : Params → ℕ → ℕ → Fetch
started params file_size length = record {
  file_size = file_size;
  params = params;
  requested = add_range [] (record { start = 0; length = length });
  downloaded = [];
  download_streaming = false;
  throughput = 0;
  ping_time = 0;
  read_position = 0;
  network_response_times = [];
  output = true;
  complete = false;
  written = λ v. 0;
  receivers = record { offset = 0; length = length; actual_length = 0 } ∷ [];
  file_data_rx = [];
}

-- The loop is about to begin.
abbrev pub started_download : Params → ℕ → ℕ → Download
started_download params file_size length = record {
  state = started params file_size length;
  phase = selects;
}

pub data Reach (file : ℕ → ℕ) (streams : Range → Bool) (start : Download) : Download → Type 0 where
  here : Reach file streams start start
  further :
      {s t : Download} {kind : Kind}
      → Reach file streams start s
      → Step file streams s.state s.phase kind t
      → Reach file streams start t
