-- ===== src/Tests/IdRuns.antt =====
-- Runs of native/librespot/core/src/spotify_id.rs.
use squeezebox_radio_spotify.Ids.{to_base62, from_base62, size_base62}
use squeezebox_radio_spotify.Ids.Base62.{to_base62-from_base62}
use squeezebox_radio_spotify.Prelude.{arith, ℕ, List, some, none, length, codes, ◌≡◌, refl}

abbrev an_id : ℕ
an_id = 238762092608182713602505436543891614649

to_base62_run : to_base62 an_id ≡ some (codes "5sWHDYs0csV6RS48xBl0tH")
unfolding to_base62
to_base62_run = refl

from_base62_refused : from_base62 (codes "!!!!!!!!!!!!!!!!!!!!!!") ≡ none
unfolding from_base62
from_base62_refused = refl

to_base62-from_base62_example :
    (text : List ℕ) × (to_base62 an_id ≡ some text)
    × (length text ≡ size_base62)
    × (from_base62 text ≡ some an_id)
to_base62-from_base62_example = to_base62-from_base62 an_id (omega arith)

-- Twenty-two characters can name more than 128 bits.
from_base62_overflow : from_base62 (codes "ZZZZZZZZZZZZZZZZZZZZZZ") ≡ none
unfolding from_base62
from_base62_overflow = refl
