-- ===== src/Ids/Base62.antt =====
-- The base 62 text of an identifier reads back.
use mathlib.Core.List.{reverse-cons, map-append}
use squeezebox_radio_spotify.Ids.{
  digit_of, add_digit, read_base62, char_of, id_mod, checked, and_then, zeros, add_words, to_base62,
  words, from_base62, size_base62, text_of, add_word,
}
use squeezebox_radio_spotify.Ids.Digits.{value, AllDigits, Holds, add_word-Holds}
use squeezebox_radio_spotify.Prelude.{
  length-append, length-map, ℕ, Option, Bool, ◌≡◌, ◌<◌, ◌∷◌, List, true, false, some, ◌+◌, [],
  arith, suc, ◌==◌, ◌*◌, ◌++◌, map, refl, Bool-cases, ap, lt→ltb, ◌∙◌, inl, ◌&&◌, none, reverse,
  dec_lt, zero, inr, length, ◌-◌, ◌/◌, ◌%◌, ◌^◌, subst,
}

below : ℕ → (ℕ → Bool) → Bool
below zero f = true
below (suc n) f = f n && below n f

below_all : (n : ℕ) (f : ℕ → Bool) → below n f ≡ true → (d : ℕ) → d < n → f d ≡ true
unfolding below
below_all zero f h d l = absurd (omega arith)
below_all (suc n) f h d l = elim (Bool-cases (f n)) [
  | inl yes_n ↦ elim (dec_lt d n) [
    | yes smaller ↦ below_all n f (ground (arith, h)) d smaller
    | no not_smaller ↦ ap f {x = d} {y = n} (omega (arith, l)) ∙ yes_n
  ]
  | inr no_n ↦ absurd (ground (arith, h))
]

abbrev is_digit : Option ℕ → ℕ → Bool
is_digit none d = false
is_digit (some p) d = p == d

reads_back : (o : Option ℕ) (d : ℕ) → is_digit o d ≡ true → o ≡ some d
reads_back none d h = absurd (ground arith)
reads_back (some p) d h = ap some (ground arith)

all_chars : below 62 (λ d. is_digit (digit_of (char_of d)) d) ≡ true
unfolding below
all_chars = refl

-- Every digit's character is read as that digit.
digit_of-char_of : (d : ℕ) → d < 62 → digit_of (char_of d) ≡ some d
digit_of-char_of d h =
    reads_back (digit_of (char_of d)) d
      (below_all 62 (λ d. is_digit (digit_of (char_of d)) d) all_chars d h)

checked-some : (n : ℕ) → n < id_mod → checked n ≡ some n
checked-some n h = rw (lt→ltb n id_mod h) refl

add_digit-char_of :
    (n d : ℕ) → d < 62 → d + 62 * n < id_mod → add_digit n (char_of d) ≡ some (d + 62 * n)
unfolding add_digit
add_digit-char_of n d h l =
    rw (digit_of-char_of d h, add_digit)
      (rw (checked-some (n * 62) (omega (arith, l)))
        (checked-some (n * 62 + d) (omega (arith, l)) ∙ ap some (omega arith)))

and_then-some : (o : Option ℕ) → and_then o (λ n. some n) ≡ o
and_then-some none = refl
and_then-some (some n) = refl

and_then-append :
    (o : Option ℕ) (xs ys : List ℕ)
    → ((n : ℕ) → read_base62 n (xs ++ ys) ≡ and_then (read_base62 n xs) (λ n. read_base62 n ys))
    → and_then o (λ n. read_base62 n (xs ++ ys))
      ≡ and_then (and_then o (λ n. read_base62 n xs)) (λ n. read_base62 n ys)
and_then-append none xs ys h = refl
and_then-append (some n) xs ys h = h n

read_base62-append :
    (acc : ℕ) (xs ys : List ℕ)
    → read_base62 acc (xs ++ ys) ≡ and_then (read_base62 acc xs) (λ n. read_base62 n ys)
unfolding read_base62
read_base62-append acc [] ys = refl
read_base62-append acc (x ∷ xs) ys =
    and_then-append (add_digit acc x) xs ys (λ n. read_base62-append n xs ys)

-- Digits with the lowest one first, as a text with the highest one first.
read-value :
    (ds : List ℕ)
    → AllDigits ds
    → value ds < id_mod
    → read_base62 0 (map char_of (reverse ds)) ≡ some (value ds)
unfolding value AllDigits read_base62
read-value [] a h = refl
read-value (d ∷ ds) (h, a) l =
    ap (λ cs. read_base62 0 cs)
      (ap (map char_of) (reverse-cons d ds) ∙ map-append char_of (reverse ds) (d ∷ []))
    ∙ read_base62-append 0 (map char_of (reverse ds)) (char_of d ∷ [])
    ∙ ap (λ o. and_then o (λ n. read_base62 n (char_of d ∷ [])))
        (read-value ds a (omega (arith, l)))
    ∙ and_then-some (add_digit (value ds) (char_of d))
    ∙ add_digit-char_of (value ds) d h l

zeros-digits : (ds : List ℕ) (n : ℕ) → AllDigits ds → AllDigits (ds ++ zeros n)
unfolding AllDigits zeros
zeros-digits [] zero a = tt
zeros-digits [] (suc n) a = (omega arith, zeros-digits [] n a)
zeros-digits (d ∷ ds) n (h, a) = (h, zeros-digits ds n a)

zeros-value : (ds : List ℕ) (n : ℕ) → value (ds ++ zeros n) ≡ value ds
unfolding value zeros
zeros-value [] zero = refl
zeros-value [] (suc n) = omega (arith, zeros-value [] n)
zeros-value (d ∷ ds) n = omega (arith, zeros-value ds n)

zeros-length : (n : ℕ) → length (zeros n) ≡ n
unfolding zeros
zeros-length zero = refl
zeros-length (suc n) = ap suc (zeros-length n)

length-reverse : (xs : List ℕ) → length (reverse xs) ≡ length xs
length-reverse [] = refl
length-reverse (x ∷ xs) =
    ap length (reverse-cons x xs)
    ∙ omega (arith, length-append (reverse xs) (x ∷ []), length-reverse xs)

add_words_cons :
    (ds es : List ℕ) (w : ℕ) (ws : List ℕ)
    → add_word ds w ≡ some es
    → add_words ds (w ∷ ws) ≡ add_words es ws
unfolding add_words
add_words_cons ds es w ws e = rw (e, add_words) refl

add_words_nil : (ds : List ℕ) → add_words ds [] ≡ some ds
unfolding add_words
add_words_nil ds = refl

Holds-zero : Holds 0 []
unfolding value AllDigits
Holds-zero = record { digits = tt; sum = refl; fits = omega arith }

-- The four words of an identifier, one after the other.
words-Holds :
    (id : ℕ) → id < id_mod → (ds : List ℕ) × (add_words [] (words id) ≡ some ds) × Holds id ds
words-Holds id h =
    let a = id / 2 ^ 96 % 2 ^ 32 in
    let b = id / 2 ^ 64 % 2 ^ 32 in
    let c = id / 2 ^ 32 % 2 ^ 32 in
    let d = id % 2 ^ 32 in
    let (xs, e, k) = add_word-Holds [] 0 a Holds-zero (omega arith) (omega arith) in
    let (bs, e', k') = add_word-Holds xs (0 * 2 ^ 32 + a) b k (omega arith) (omega arith) in
    let (cs, e'', k'') =
      add_word-Holds bs ((0 * 2 ^ 32 + a) * 2 ^ 32 + b) c k' (omega arith) (omega arith) in
    let (ds, e3, k3) =
      add_word-Holds cs (((0 * 2 ^ 32 + a) * 2 ^ 32 + b) * 2 ^ 32 + c) d k'' (omega arith)
        (omega arith) in
    (
      ds,
      add_words_cons [] xs a (b ∷ c ∷ d ∷ []) e
          ∙ add_words_cons xs bs b (c ∷ d ∷ []) e'
          ∙ add_words_cons bs cs c (d ∷ []) e''
          ∙ add_words_cons cs ds d [] e3
          ∙ add_words_nil ds,
      subst (λ n. Holds n ds) (omega arith) k3,
    )

-- Every identifier has a base 62 text of 22 characters, and that text is read as the identifier.
pub to_base62-from_base62 :
    (id : ℕ)
    → id < id_mod
    → (text : List ℕ) × (to_base62 id ≡ some text)
      × (length text ≡ size_base62)
      × (from_base62 text ≡ some id)
unfolding to_base62 from_base62
to_base62-from_base62 id h =
    let (ds, e, k) = words-Holds id h in
    let pad = size_base62 - length ds in
    let padded = ds ++ zeros pad in
    let long : length (text_of ds) ≡ size_base62 =
      length-map char_of (reverse padded)
      ∙ length-reverse padded
      ∙ omega (arith, length-append ds (zeros pad), zeros-length pad, k.fits) in
    let same : value padded ≡ id = zeros-value ds pad ∙ k.sum in
    (
      text_of ds,
      rw (e, to_base62) refl,
      long,
      rw (long, from_base62)
          (read-value padded (zeros-digits ds pad k.digits) (omega (arith, same, h))
            ∙ ap some same),
    )
