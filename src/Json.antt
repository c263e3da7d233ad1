-- ===== src/Json.antt =====
-- The JSON texts that native/metadata/main.rs and native/supervisor/main.rs print, and a reader of
-- such texts after RFC 8259. Texts are bytes; a byte of a longer UTF-8 sequence is at least 0x80.
pub mod RoundTrip
use squeezebox_radio_spotify.Prelude.{
  ℕ, List, Option, ◌∷◌, if◌then◌else◌, some, none, ◌==◌, ◌++◌, suc, bytes_eq, [], ◌||◌, ltb, zero,
}

abbrev pub quote : ℕ
quote = 0x22

abbrev pub backslash : ℕ
backslash = 0x5c

-- `value.replace(c, s)`
unfoldable pub replace : ℕ → List ℕ → List ℕ → List ℕ
replace c s [] = []
replace c s (x ∷ xs) = let rest = replace c s xs in if x == c then s ++ rest else x ∷ rest

-- `"key":"value"`, the value escaped already.
abbrev pub field : List ℕ × List ℕ → List ℕ
field (key, value) = quote ∷ (key ++ quote ∷ (0x3a ∷ quote ∷ (value ++ quote ∷ [])))

unfoldable pub fields : List (List ℕ × List ℕ) → List ℕ
fields [] = []
fields (m ∷ []) = field m
fields (m ∷ n ∷ ms) = field m ++ 0x2c ∷ fields (n ∷ ms)

-- An object and the line's end.
abbrev pub object : List (List ℕ × List ℕ) → List ℕ
object ms = 0x7b ∷ (fields ms ++ (0x7d ∷ 0x0a ∷ []))

-- What a backslash and this byte stand for. `\u` is not read.
unfoldable pub unescape : ℕ → Option ℕ
unescape c =
    if c == b'n'
    then some 0x0a
    else if c == b'r'
    then some 0x0d
    else if c == b't'
    then some 0x09
    else if c == b'b'
    then some 0x08
    else if c == b'f'
    then some 0x0c
    else if c == quote || c == backslash || c == b'/'
    then some c
    else none

abbrev pub prepend : Option ℕ → Option (List ℕ × List ℕ) → Option (List ℕ × List ℕ)
prepend none r = none
prepend (some c) none = none
prepend (some c) (some (s, rest)) = some (c ∷ s, rest)

-- The rest of a string, up to its closing quote. A control character must be escaped.
unfoldable pub read_string : List ℕ → Option (List ℕ × List ℕ)
read_string [] = none
read_string (c ∷ []) = if c == quote then some ([], []) else none
read_string (c ∷ d ∷ cs) =
    let plain = prepend (some c) (read_string (d ∷ cs)) in
    let escaped = prepend (unescape d) (read_string cs) in
    if c == quote
    then some ([], d ∷ cs)
    else if c == backslash
    then escaped
    else if ltb c 0x20
    then none
    else plain

-- The next byte is `c`.
abbrev pub expect : ℕ → List ℕ → Option (List ℕ)
expect c [] = none
expect c (d ∷ ds) = if d == c then some ds else none

infixl 5 ◌>>=◌
abbrev ◌>>=◌ {ℓ κ} : {A : Type ℓ} {B : Type κ} → Option A → (A → Option B) → Option B
none >>= f = none
some a >>= f = f a

pub read_field : List ℕ → Option ((List ℕ × List ℕ) × List ℕ)
read_field text = do
  rest ← expect quote text
  (key, rest) ← read_string rest
  rest ← expect 0x3a rest
  rest ← expect quote rest
  (value, rest) ← read_string rest
  some ((key, value), rest)

-- The members from here on, `n` at most, and the closing brace.
pub read_fields : ℕ → List ℕ → Option (List (List ℕ × List ℕ) × List ℕ)
read_fields zero text = none
read_fields (suc n) text = do
  (m, rest) ← read_field text
  let more = do rest ← expect 0x2c rest; (ms, rest) ← read_fields n rest; some (m ∷ ms, rest)
  elim (expect 0x7d rest) [ some rest ↦ some (m ∷ [], rest) | none ↦ more ]

-- An object of members with string values, on a line of its own.
pub read_object : ℕ → List ℕ → Option (List (List ℕ × List ℕ))
read_object n text = do
  rest ← expect 0x7b text
  (ms, rest) ← read_fields n rest
  if bytes_eq rest (0x0a ∷ []) then some ms else none
