-- ===== src/Bridge/Headers.antt =====
-- bridge.rs `Headers`: the three Vorbis header packets of the current logical stream. An error of
-- `observe` ends the program, so what `self` holds after one is not modelled.
pub mod Safe
pub mod Packets
pub mod Streams
use squeezebox_radio_spotify.Bridge.Result.{
  without_bos, headers_exceed_limit, audio_shares_setup, invalid_signature, short_identification,
  invalid_sample_rate, panic, Result, ok, err, ◌>>=◌, ◌>>◌, guard, index, slice,
}
use squeezebox_radio_spotify.Prelude.{
  ℕ, ◌+◌, ◌-◌, ◌*◌, ◌/◌, ◌%◌, Bool, true, false, not, ◌&&◌, ◌||◌, Option, none, some, List, [], ◌∷◌,
  ◌++◌, if◌then◌else◌, ◌==◌, leb, ltb, length, take, drop, get_or, bytes_eq, min,
}

abbrev pub max_headers : ℕ
max_headers = 65536

pub record Headers : Type 0 where
  pub serial : Option ℕ
  pub bytes : List ℕ
  pub packets : ℕ
  pub prefix : List ℕ
  pub rate : ℕ

-- `Headers::default()`
abbrev pub default : Headers
default = record { serial = none; bytes = []; packets = 0; prefix = []; rate = 0 }

-- `from_le_bytes`
unfoldable pub from_le_bytes : List ℕ → ℕ
from_le_bytes [] = 0
from_le_bytes (b ∷ bs) = b + 256 * from_le_bytes bs

-- `flags & 2 != 0`: the page begins a logical stream.
abbrev pub is_bos : ℕ → Bool
is_bos flags = (flags / 2) % 2 == 1

-- `self.serial != Some(serial)`, negated
abbrev pub has_serial : Option ℕ → ℕ → Bool
has_serial none s = false
has_serial (some t) s = t == s

-- "vorbis"
abbrev pub vorbis : List ℕ
vorbis = 0x76 ∷ 0x6f ∷ 0x72 ∷ 0x62 ∷ 0x69 ∷ 0x73 ∷ []

-- The identification header's sample rate; the other two packets have none.
unfoldable pub packet_rate : Headers → Result ℕ
packet_rate h =
    if h.packets == 0
    then (do
      guard (leb 16 (length h.prefix)) short_identification
      rate ← slice h.prefix 12 16
      let n = from_le_bytes rate
      guard (not (n == 0 || ltb 192000 n)) invalid_sample_rate
      ok n)
    else ok h.rate

-- A segment shorter than 255 bytes ends its packet.
unfoldable pub finish_packet : Headers → Result Headers
finish_packet h = do
  expected ← index (1 ∷ 3 ∷ 5 ∷ []) h.packets
  guard
      (leb 7 (length h.prefix)
        && get_or h.prefix 0 0 == expected
        && bytes_eq (take 6 (drop 1 h.prefix)) vorbis)
      invalid_signature
  rate ← packet_rate h
  ok (record h { rate = rate; packets = h.packets + 1; prefix = [] })

-- The body of the loop over the lacing values: at most 16 bytes of a packet are kept.
unfoldable pub segment : List ℕ → Headers → ℕ → ℕ → Result Headers
segment p h offset n = do
  guard (not (h.packets == 3)) audio_shares_setup
  guard (leb (length h.prefix) 16) panic
  part ← slice p offset (offset + min (16 - length h.prefix) n)
  let h' = record h { prefix = h.prefix ++ part }
  if ltb n 255 then finish_packet h' else ok h'

unfoldable pub segments : List ℕ → Headers → ℕ → List ℕ → Result Headers
segments p h offset [] = ok h
segments p h offset (n ∷ ns) = do h' ← segment p h offset n; segments p h' (offset + n) ns

-- The pages that carry header packets are kept whole.
unfoldable pub collect_segments : Headers → List ℕ → List ℕ → Result Headers
collect_segments h p lacing = do
  h' ← segments p h (27 + length lacing) lacing
  ok (record h' { bytes = h'.bytes ++ p })

-- `observe`, from the test of the cache's limit on. The slice has `n` bytes.
unfoldable pub collect : Headers → List ℕ → Result Headers
collect h p = do
  guard (leb (length h.bytes + length p) max_headers) headers_exceed_limit
  n ← index p 26
  lacing ← slice p 27 (27 + n)
  collect_segments h p lacing

abbrev pub begin : Headers → ℕ → ℕ → Headers
begin h flags serial = if is_bos flags then record default { serial = some serial } else h

-- The serial number and the flags of a page.
abbrev pub serial_of : List ℕ → ℕ
serial_of p = from_le_bytes (take 4 (drop 14 p))

abbrev pub flags_of : List ℕ → ℕ
flags_of p = get_or p 5 0

unfoldable pub observe : Headers → List ℕ → Result Headers
observe h p = do
  word ← slice p 14 18
  flags ← index p 5
  let serial = from_le_bytes word
  let h' = begin h flags serial
  guard (has_serial h'.serial serial) without_bos
  if h'.packets == 3 then ok h' else collect h' p
