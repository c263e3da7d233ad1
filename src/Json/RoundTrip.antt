-- ===== src/Json/RoundTrip.antt =====
-- A reader gets back the members of an object whose values a program escaped.
use squeezebox_radio_spotify.Json.{
  read_string, replace, field, read_field, read_fields, read_object, quote, fields, prepend,
  backslash, object,
}
use squeezebox_radio_spotify.Prelude.{
  [], ◌∷◌, some, suc, bytes_eq, ℕ, List, ◌≤◌, All, ◌++◌, ◌≡◌, ◌<◌, ◌==◌, false, length, Bool-cases,
  append_assoc, ap, map, arith, inl, ◌∙◌, refl, sym, inr, zero, Bool, true, leb, ◌&&◌, not,
}

-- An escaping function, byte by byte, that a string's reader undoes on the bytes that are `Good`.
pub record Escapes (Good : ℕ → Type 0) (escape : List ℕ → List ℕ) : Type 0 where
  pub nil : escape [] ≡ []
  pub cons : (x : ℕ) (xs : List ℕ) → escape (x ∷ xs) ≡ escape (x ∷ []) ++ escape xs
  pub reads :
      (x : ℕ) (rest : List ℕ)
      → Good x
      → read_string (escape (x ∷ []) ++ rest) ≡ prepend (some x) (read_string rest)

-- A byte that stands for itself.
pub read_string-cons :
    (c : ℕ) (rest : List ℕ)
    → 0x20 ≤ c
    → (c == quote) ≡ false
    → (c == backslash) ≡ false
    → read_string (c ∷ rest) ≡ prepend (some c) (read_string rest)
unfolding read_string
read_string-cons c [] h a b = rw a refl
read_string-cons c (d ∷ cs) h a b = ground arith

pub replace-append :
    (c : ℕ) (s xs ys : List ℕ) → replace c s (xs ++ ys) ≡ replace c s xs ++ replace c s ys
unfolding replace
replace-append c s [] ys = refl
replace-append c s (x ∷ xs) ys = elim (Bool-cases (x == c)) [
  | inl same ↦
      rw (same, replace-append c s xs ys) (sym (append_assoc s (replace c s xs) (replace c s ys)))
  | inr other ↦ rw (other, replace-append c s xs ys) refl
]

-- A key is read as it stands.
abbrev pub IsKey : List ℕ → Type 0
IsKey key = (rest : List ℕ) → read_string (key ++ quote ∷ rest) ≡ some (key, rest)

-- The bytes of a text that need no escape.
unfoldable pub is_plain : List ℕ → Bool
is_plain [] = true
is_plain (c ∷ cs) = leb 0x20 c && not (c == quote) && not (c == backslash) && is_plain cs

pub is_plain-IsKey : (key : List ℕ) → is_plain key ≡ true → IsKey key
unfolding is_plain read_string
is_plain-IsKey [] h [] = refl
is_plain-IsKey [] h (r ∷ rest) = refl
is_plain-IsKey (c ∷ cs) h rest =
    read_string-cons c (cs ++ quote ∷ rest) (ground arith) (ground arith) (ground arith)
    ∙ ap (prepend (some c)) (is_plain-IsKey cs (ground arith) rest)

module _ {Good : ℕ → Type 0} {escape : List ℕ → List ℕ} (e : Escapes Good escape) where
  pub read_string-escape :
      (value rest : List ℕ)
      → All Good value
      → read_string (escape value ++ quote ∷ rest) ≡ some (value, rest)
  unfolding read_string
  read_string-escape [] [] good = rw e.nil refl
  read_string-escape [] (r ∷ rest) good = rw e.nil refl
  read_string-escape (x ∷ xs) rest good =
      rw
        (
          e.cons x xs,
          append_assoc (escape (x ∷ [])) (escape xs) (quote ∷ rest),
          e.reads x (escape xs ++ quote ∷ rest) good.0,
          read_string-escape xs rest good.1,
        )
        refl

  abbrev pub escaped : List ℕ × List ℕ → List ℕ × List ℕ
  escaped (key, value) = (key, escape value)

  -- A member whose key needs no escape, and whose value the escape serves.
  abbrev pub Written : List ℕ × List ℕ → Type 0
  Written (key, value) = IsKey key × All Good value

  field-append :
      (key value rest : List ℕ)
      → field (key, value) ++ rest
        ≡ quote ∷ (key ++ quote ∷ (0x3a ∷ quote ∷ (value ++ quote ∷ rest)))
  field-append key value rest = ap (◌∷◌ quote) (
      append_assoc key _ rest
      ∙ ap (λ t. key ++ quote ∷ (0x3a ∷ quote ∷ t)) (append_assoc value (quote ∷ []) rest))

  read_field-parts :
      (key value rest : List ℕ)
      → IsKey key
      → All Good value
      → read_field (quote ∷ (key ++ quote ∷ (0x3a ∷ quote ∷ (escape value ++ quote ∷ rest))))
        ≡ some ((key, value), rest)
  unfolding read_field
  read_field-parts key value rest k v =
      rw (k (0x3a ∷ quote ∷ (escape value ++ quote ∷ rest)), read_string-escape value rest v) refl

  read_field-escaped :
      (m : List ℕ × List ℕ) (rest : List ℕ)
      → Written m
      → read_field (field (escaped m) ++ rest) ≡ some (m, rest)
  read_field-escaped (key, value) rest (k, v) =
      ap read_field (field-append key (escape value) rest) ∙ read_field-parts key value rest k v

  read_fields-escaped :
      (n : ℕ) (ms : List (List ℕ × List ℕ)) (rest : List ℕ)
      → 0 < length ms
      → length ms ≤ n
      → All Written ms
      → read_fields n (fields (map escaped ms) ++ 0x7d ∷ rest) ≡ some (ms, rest)
  unfolding read_fields fields
  read_fields-escaped zero [] rest a b w = absurd (omega arith)
  read_fields-escaped zero (m ∷ ms) rest a b w = absurd (omega arith)
  read_fields-escaped (suc n) [] rest a b w = absurd (omega arith)
  read_fields-escaped (suc n) (m ∷ []) rest a b w = rw (read_field-escaped m (0x7d ∷ rest) w.0) refl
  read_fields-escaped (suc n) (m ∷ k ∷ ms) rest a b w =
      rw
        (
          append_assoc (field (escaped m)) (0x2c ∷ fields (map escaped (k ∷ ms))) (0x7d ∷ rest),
          read_field-escaped m (0x2c ∷ (fields (map escaped (k ∷ ms)) ++ 0x7d ∷ rest)) w.0,
          read_fields-escaped n (k ∷ ms) rest (omega arith) (omega arith) w.1,
        )
        refl

  pub read_object-escaped :
      (ms : List (List ℕ × List ℕ))
      → 0 < length ms
      → All Written ms
      → read_object (length ms) (object (map escaped ms)) ≡ some ms
  unfolding read_object bytes_eq
  read_object-escaped ms a w =
      rw (read_fields-escaped (length ms) ms (0x0a ∷ []) a (omega arith) w) refl
