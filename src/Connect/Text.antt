-- ===== src/Connect/Text.antt =====
-- Texts of the play queue: decimal numbers, and the metadata of a track.
use squeezebox_radio_spotify.Prelude.{
  List, Bool, ℕ, Option, ◌∷◌, true, [], suc, ◌^◌, if◌then◌else◌, some, none, false, ◌/◌, ◌*◌, ◌==◌,
  bytes_eq, ◌&&◌, ltb, ◌+◌, ◌++◌, ◌-◌, ◌%◌, leb, zero,
}

abbrev pub Text : Type 0
Text = List ℕ

-- `starts_with`
unfoldable pub has_prefix : Text → Text → Bool
has_prefix [] text = true
has_prefix (p ∷ ps) [] = false
has_prefix (p ∷ ps) (c ∷ cs) = p == c && has_prefix ps cs

digits : ℕ → ℕ → Text
digits zero n = []
digits (suc fuel) n =
    let high = digits fuel (n / 10) in
    if ltb n 10 then (48 + n) ∷ [] else high ++ (48 + n % 10) ∷ []

-- `to_string` of a number.
unfoldable pub decimal : ℕ → Text
unfolding digits
decimal n = digits (suc n) n

-- The engine's `usize` has 32 bits.
abbrev pub usize_mod : ℕ
usize_mod = 2 ^ 32

read_digits : ℕ → Text → Option ℕ
read_digits n [] = some n
read_digits n (c ∷ cs) =
    let next = 10 * n + (c - 48) in
    let rest = read_digits next cs in
    if leb 48 c && leb c 57 && ltb next usize_mod then rest else none

-- `parse::<usize>`, which also takes a sign.
unfoldable pub parse_usize : Text → Option ℕ
unfolding read_digits
parse_usize [] = none
parse_usize (c ∷ []) = if c == b'+' then none else read_digits 0 (c ∷ [])
parse_usize (c ∷ d ∷ cs) = if c == b'+' then read_digits 0 (d ∷ cs) else read_digits 0 (c ∷ d ∷ cs)

-- `HashMap<String, String>`, as its entries.
abbrev pub Entries : Type 0
Entries = List (Text × Text)

unfoldable pub lookup : Text → Entries → Option Text
lookup key [] = none
lookup key ((k, v) ∷ rest) = let later = lookup key rest in if bytes_eq k key then some v else later

-- `HashMap::remove`
unfoldable pub without : Text → Entries → Entries
without key [] = []
without key ((k, v) ∷ rest) =
    let later = without key rest in if bytes_eq k key then later else (k, v) ∷ later

-- `HashMap::insert`
abbrev pub with_entry : Text → Text → Entries → Entries
with_entry key value entries = (key, value) ∷ without key entries

-- Each entry of the first is inserted into the second.
unfoldable pub extend : Entries → Entries → Entries
extend [] entries = entries
extend ((k, v) ∷ more) entries = extend more (with_entry k v entries)
