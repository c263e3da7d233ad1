-- ===== src/Tests/StreamingRuns.antt =====
-- A reader behind a CDN that serves a file of three bytes.
use squeezebox_radio_spotify.Prelude.{
  List, ℕ, [], ◌∷◌, some, if◌then◌else◌, ◌≢◌, take, ◌≡◌, refl, none, ◌==◌, length, drop, arith, sum,
}
use squeezebox_radio_spotify.Streaming.Reader.{SequentialAudio, chunk, failure, read}
use squeezebox_radio_spotify.Streaming.Reader.Laws.{Delivers, read-Delivers}
use squeezebox_radio_spotify.Streaming.Task.{produce, Response, open_audio, other, partial}
use squeezebox_radio_spotify.Streaming.Task.Laws.{Serves, produce-ne-none}
use squeezebox_radio_spotify.Streaming.Task.Playback.{read_all, open_audio-file}

abbrev reader : SequentialAudio
reader = record {
  incoming = chunk (1 ∷ 2 ∷ []) ∷ failure ∷ [];
  current = none;
  position = 0;
  file_size = 10;
}

read-Delivers_example : Delivers reader 5 [] (read reader 5)
read-Delivers_example = read-Delivers reader 5

abbrev three : List ℕ
three = 1 ∷ 2 ∷ 3 ∷ []

-- URL 7 answers with an error, every other one with the file.
abbrev cdn : ℕ → ℕ → ℕ → Response
cdn url offset size =
    if url == 7 then other else partial (some (length three)) (some (take size (drop offset three)))

produce-ne-none_example : produce cdn 5 1 3 0 (some (1 ∷ [])) ≢ none
produce-ne-none_example = produce-ne-none cdn 5 1 3 0 (some (1 ∷ [])) (omega arith)

cdn-Serves : Serves cdn 1 three
cdn-Serves = λ offset h. refl

open_audio-file_example :
    (s : SequentialAudio) × (open_audio cdn (7 ∷ 1 ∷ []) ≡ some s)
    × (s.file_size ≡ length three)
    × ((sizes : List ℕ) → read_all s sizes ≡ take (sum sizes) three)
open_audio-file_example =
    open_audio-file cdn (7 ∷ []) 1 [] three (refl, tt) cdn-Serves (omega arith)
