-- ===== src/Ids.antt =====
-- native/librespot/core/src/spotify_id.rs: the identifiers of tracks and albums, numbers of 128 bits,
-- and their base 62 texts.
pub mod Digits
pub mod Base62
use squeezebox_radio_spotify.Prelude.{
  ℕ, List, codes, get_or, Option, ◌∷◌, [], map, ◌^◌, ◌/◌, if◌then◌else◌, some, length, reverse,
  none, ◌+◌, ◌-◌, ◌%◌, suc, leb, ltb, ◌==◌, ◌++◌, ◌*◌, zero, ◌&&◌, true, false,
}

abbrev pub id_mod : ℕ
id_mod = 2 ^ 128

abbrev pub size_base62 : ℕ
size_base62 = 22

abbrev pub base62_digits : List ℕ
base62_digits = codes "0123456789abcdefghijklmnopqrstuvwxyzABCDEFGHIJKLMNOPQRSTUVWXYZ"

abbrev pub char_of : ℕ → ℕ
char_of d = get_or base62_digits d 0

-- The `match` on a byte in `from_base62`.
abbrev pub digit_of : ℕ → Option ℕ
digit_of c =
    if leb 48 c && leb c 57
    then some (c - 48)
    else if leb 97 c && leb c 122
    then some (c - 97 + 10)
    else if leb 65 c && leb c 90
    then some (c - 65 + 36)
    else none

-- `checked_mul` and `checked_add`.
abbrev pub checked : ℕ → Option ℕ
checked n = if ltb n id_mod then some n else none

unfoldable pub add_digit : ℕ → ℕ → Option ℕ
add_digit dst c = elim (digit_of c) [
  | none ↦ none
  | some p ↦ elim (checked (dst * 62)) [ none ↦ none | some n ↦ checked (n + p) ]
]

abbrev pub and_then : Option ℕ → (ℕ → Option ℕ) → Option ℕ
and_then none f = none
and_then (some n) f = f n

unfoldable pub read_base62 : ℕ → List ℕ → Option ℕ
unfolding add_digit
read_base62 dst [] = some dst
read_base62 dst (c ∷ cs) = and_then (add_digit dst c) λ n. read_base62 n cs

unfoldable pub from_base62 : List ℕ → Option ℕ
unfolding read_base62
from_base62 src = elim (length src == size_base62) [ true ↦ read_base62 0 src | false ↦ none ]

-- The loop over the digits so far, the lowest one first, which leaves the carry.
unfoldable pub scale : List ℕ → ℕ → List ℕ × ℕ
scale [] carry = ([], carry)
scale (b ∷ bs) carry =
    let n = (carry + b * 2 ^ 32) % 2 ^ 64 in
    let rest = scale bs (n / 62) in (n % 62 ∷ rest.0, rest.1)

-- The loop that pushes the carry's digits. `room` is what is left of the array; `none` is an index
-- out of range.
unfoldable pub push : ℕ → ℕ → Option (List ℕ)
push room zero = some []
push zero (suc carry) = none
push (suc room) (suc carry) = elim (push room (suc carry / 62)) [
  | none ↦ none
  | some ds ↦ some (suc carry % 62 ∷ ds)
]

-- One of the four rounds.
unfoldable pub add_word : List ℕ → ℕ → Option (List ℕ)
unfolding scale push
add_word ds word =
    let scaled = scale ds word in
    elim (push (size_base62 - length ds) scaled.1) [
      | none ↦ none
      | some more ↦ some (scaled.0 ++ more)
    ]

abbrev pub words : ℕ → List ℕ
words n = n / 2 ^ 96 % 2 ^ 32 ∷ n / 2 ^ 64 % 2 ^ 32 ∷ n / 2 ^ 32 % 2 ^ 32 ∷ n % 2 ^ 32 ∷ []

unfoldable pub add_words : List ℕ → List ℕ → Option (List ℕ)
unfolding add_word
add_words ds [] = some ds
add_words ds (w ∷ ws) = elim (add_word ds w) [ none ↦ none | some ds' ↦ add_words ds' ws ]

-- The rest of the array is zeros.
unfoldable pub zeros : ℕ → List ℕ
zeros zero = []
zeros (suc n) = 0 ∷ zeros n

abbrev pub text_of : List ℕ → List ℕ
text_of ds = map char_of (reverse (ds ++ zeros (size_base62 - length ds)))

unfoldable pub to_base62 : ℕ → Option (List ℕ)
unfolding add_words zeros
to_base62 id = elim (add_words [] (words id)) [ none ↦ none | some ds ↦ some (text_of ds) ]
