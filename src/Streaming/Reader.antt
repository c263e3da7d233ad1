-- ===== src/Streaming/Reader.antt =====
-- streaming.rs, `Read` and `Seek` of `SequentialAudio`. What the task sends from now on is a list:
-- a `recv` on the empty one finds the sender gone. `position` is far below 2 ^ 64.
pub mod Laws
use squeezebox_radio_spotify.Prelude.{
  List, Option, ℕ, some, suc, if◌then◌else◌, leb, ◌==◌, [], length, ◌+◌, none, true, ◌∷◌, min, ◌-◌,
  ◌++◌, take, drop, zero, false,
}

-- An entry of the channel: a chunk, or the text of an error.
pub data Item : Type 0 where
  chunk : List ℕ → Item
  failure : Item

pub record SequentialAudio : Type 0 where
  pub incoming : List Item
  pub current : Option (List ℕ × ℕ)
  pub position : ℕ
  pub file_size : ℕ

pub data Outcome : Type 0 where
  filled : List ℕ → Outcome
  failed : Outcome
  out_of_fuel : Outcome

pub data Refill : Type 0 where
  -- a chunk is at hand, and where in it the reader is
  ready : SequentialAudio → List ℕ → ℕ → Refill
  closed : Refill
  broken : SequentialAudio → Refill

receive : SequentialAudio → List Item → Refill
receive s [] = closed
receive s (chunk d ∷ rest) = ready (record s { incoming = rest; current = some (d, 0) }) d 0
receive s (failure ∷ rest) = broken (record s { incoming = rest })

-- The chunk at hand, or the next one where it is used up.
pub refill : SequentialAudio → Option (List ℕ × ℕ) → Refill
unfolding receive
refill s none = receive s s.incoming
refill s (some (d, pos)) = if leb (length d) pos then receive s s.incoming else ready s d pos

-- The loop of `read`, with room for `room` more bytes behind `out`.
pub read_loop : ℕ → SequentialAudio → ℕ → List ℕ → Outcome × SequentialAudio
read_loop zero s room out = (out_of_fuel, s)
read_loop (suc fuel) s room out = elim (room == 0) [
  | true ↦ (filled out, s)
  | false ↦ elim (refill s s.current) [
    | closed ↦ (filled out, s)
    | broken s' ↦ (failed, s')
    | ready s' d pos ↦
        let n = min room (length d - pos) in
        read_loop fuel (record s' { current = some (d, pos + n); position = s'.position + n })
          (room - n) (out ++ take n (drop pos d))
  ]
]

-- Every round takes a byte or an entry of the channel.
pub read : SequentialAudio → ℕ → Outcome × SequentialAudio
read s size =
    if size == 0 then (filled [], s) else read_loop (size + length s.incoming + 1) s size []

pub data SeekFrom : Type 0 where
  start current end : ℕ → SeekFrom

-- Only `SeekFrom::Current(0)` is supported: it tells the position. `none` is the error.
pub seek : SequentialAudio → SeekFrom → Option ℕ
seek s (current offset) = if offset == 0 then some s.position else none
seek s _ = none
