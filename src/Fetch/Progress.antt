-- ===== src/Fetch/Progress.antt =====
-- A byte that was requested can still arrive while the fetch runs: no order of events loses it.
use squeezebox_radio_spotify.Fetch.{Range, ReceivedData, Fetch, ControlFlow, continues}
use squeezebox_radio_spotify.Fetch.Sound.{in_data, Sound}
use squeezebox_radio_spotify.Fetch.Steps.{Step, Download, delivers}
use squeezebox_radio_spotify.Prelude.{ℕ, List, Bool, ◌≡◌, true, ◌⊎◌}
use squeezebox_radio_spotify.Ranges.Set.{member}

-- Steps that pass on what was requested: receivers bring it, and the fetch handles it.
pub data Delivers (file : ℕ → ℕ) (streams : Range → Bool) (start : Download)
    : Download → Type 0 where
  no_step : Delivers file streams start start
  then_step :
      {s t : Download}
      → Delivers file streams start s
      → Step file streams s.state s.phase delivers t
      → Delivers file streams start t

-- A byte comes to be downloaded.
abbrev Brings : (ℕ → ℕ) → (Range → Bool) → ℕ → Download → Type 0
Brings file streams v s =
    (t : Download) × Delivers file streams s t × (member v t.state.downloaded ≡ true)

-- What handling a message leaves.
record Handled (v : ℕ) (d : ReceivedData) (ds : List ReceivedData) (r : ControlFlow × Fetch)
    (size : ℕ) : Type 0 where
  rest : r.1.file_data_rx ≡ ds
  bytes : in_data v d ≡ true → member v r.1.downloaded ≡ true
  goes : ((r.0 ≡ continues) × (r.1.output ≡ true)) ⊎ (r.1.complete ≡ true)
  same_size : r.1.file_size ≡ size
