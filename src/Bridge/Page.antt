-- ===== src/Bridge/Page.antt =====
-- bridge.rs `page`: one Ogg page off the producer's pipe.
pub mod Layout
pub mod Framing
use squeezebox_radio_spotify.Bridge.Result.{
  Error, io_fault, unexpected_eof, invalid_capture, Result, ok, err, ◌>>=◌, ◌>>◌, guard,
}
use squeezebox_radio_spotify.Prelude.{
  ℕ, zero, suc, ◌+◌, ◌-◌, ◌*◌, ◌≤◌, ◌<◌, ◌≡◌, Bool, ◌&&◌, Option, none, some, List, [], ◌∷◌, ◌++◌,
  if◌then◌else◌, ◌==◌, leb, length, take, drop, get_or, sum, bytes_eq,
}

-- What is still to come from the pipe: bytes, and then its end or a failing read.
pub record Input : Type 0 where
  pub bytes : List ℕ
  pub broken : Bool

-- `r.read(&mut h[..1])`
unfoldable pub read_one : Input → Result (List ℕ × Input)
read_one r = elim r.bytes [
  | [] ↦ if r.broken then err io_fault else ok ([], r)
  | b ∷ bs ↦ ok (b ∷ [], record r { bytes = bs })
]

-- `r.read_exact`
unfoldable pub read_exact : ℕ → Input → Result (List ℕ × Input)
read_exact n r =
    if leb n (length r.bytes)
    then ok (take n r.bytes, record r { bytes = drop n r.bytes })
    else err (if r.broken then io_fault else unexpected_eof)

-- "OggS"
abbrev pub capture : List ℕ
capture = 0x4f ∷ 0x67 ∷ 0x67 ∷ 0x53 ∷ []

abbrev pub max_page : ℕ
max_page = 27 + 255 + 255 * 255

-- `page`, from its header on: the lacing table, and the body that it measures.
page_rest : List ℕ → Input → Result (Option (List ℕ) × Input)
page_rest h r = do
  (lacing, r) ← read_exact (get_or h 26 0) r
  (body, r) ← read_exact (sum lacing) r
  ok (some (h ++ (lacing ++ body)), r)

-- `page`, after the first byte has been asked for.
page_from : List ℕ → Input → Result (Option (List ℕ) × Input)
page_from [] r = ok (none, r)
page_from (b ∷ _) r = do
  (tail, r) ← read_exact 26 r
  let h = b ∷ tail
  guard (bytes_eq (take 4 h) capture && get_or h 4 0 == 0) invalid_capture
  page_rest h r

unfoldable pub page : Input → Result (Option (List ℕ) × Input)
unfolding page_from page_rest read_one read_exact
page r = do (first, r) ← read_one r; page_from first r

-- The layout of an Ogg page: a 27-byte header, a table of lacing values, and the segments that
-- the table measures.
pub record IsPage (p : List ℕ) : Type 0 where
  pub header : List ℕ
  pub lacing : List ℕ
  pub body : List ℕ
  pub splits : p ≡ header ++ (lacing ++ body)
  pub header_size : length header ≡ 27
  pub captured : take 4 header ≡ capture
  pub version : get_or header 4 0 ≡ 0
  pub lacing_size : length lacing ≡ get_or header 26 0
  pub body_size : length body ≡ sum lacing
