-- ===== src/Bridge/Marker.antt =====
-- bridge.rs `read_marker` and `write_marker`: the files by which the bridge and the applet meet.
use squeezebox_radio_spotify.Bridge.Result.{Result, ok, err, io_fault}
use squeezebox_radio_spotify.Prelude.{
  ℕ, Bool, List, Option, ◌==◌, ◌∷◌, reverse, none, some, ◌||◌, if◌then◌else◌, [], leb, ◌&&◌,
}

-- White space, of ASCII.
abbrev is_space : ℕ → Bool
is_space c = c == 0x20 || (leb 9 c && leb c 13)

trim_start : List ℕ → List ℕ
trim_start [] = []
trim_start (c ∷ cs) = if is_space c then trim_start cs else c ∷ cs

-- `trim`
unfoldable pub trim : List ℕ → List ℕ
unfolding trim_start
trim cs = reverse (trim_start (reverse (trim_start cs)))

filter_empty : List ℕ → Option (List ℕ)
filter_empty [] = none
filter_empty (c ∷ cs) = some (c ∷ cs)

-- `none` is a file that cannot be read as a text.
unfoldable pub read_marker : Option (List ℕ) → Option (List ℕ)
unfolding trim filter_empty
read_marker none = none
read_marker (some text) = filter_empty (trim text)

-- The marker file is replaced by a rename, so a reader sees the old value or the new one. It holds
-- the generation and the serial number.
pub record Marker : Type 0 where
  pub generation : ℕ
  pub serial : ℕ

-- The file after `write_marker`, which may fail before the rename.
unfoldable pub write_marker : Bool → Option Marker → Marker → Result (Option Marker)
write_marker works old new = if works then ok (some new) else err io_fault
