-- ===== src/Ids/Digits.antt =====
-- The algorithm of `to_base62`: the digits stand for the number that has been read so far.
use native.Mathlib.Nat.{mod-eq_of_lt, pow-succ', mul_assoc, lt_of_mul-lt-mul_left}
use squeezebox_radio_spotify.Ids.{scale, push, add_word, size_base62}
use squeezebox_radio_spotify.Prelude.{
  zero, List, ℕ, ◌<◌, ◌∷◌, ◌++◌, length, ◌≡◌, ◌+◌, [], ◌^◌, arith, ◌*◌, ◌%◌, ◌/◌, ap, suc, refl,
  ◌∙◌, ◌≤◌, some, ◌-◌, length-append, sym, subst, ap₂,
}

unfoldable pub value : List ℕ → ℕ
value [] = 0
value (d ∷ ds) = d + 62 * value ds

unfoldable pub AllDigits : List ℕ → Type 0
AllDigits [] = Unit
AllDigits (d ∷ ds) = (d < 62) × AllDigits ds

pub pow62 : (k v : ℕ) → 62 ^ suc k * v ≡ 62 * (62 ^ k * v)
pow62 k v = ap (λ p. p * v) (pow-succ' 62 k) ∙ mul_assoc 62 (62 ^ k) v

pub value-append : (ds es : List ℕ) → value (ds ++ es) ≡ value ds + 62 ^ length ds * value es
unfolding value
value-append [] es = omega arith
value-append (d ∷ ds) es = omega (arith, value-append ds es, pow62 (length ds) (value es))

pow62-add : (k m : ℕ) → 62 ^ k * 62 ^ m ≡ 62 ^ (k + m)
pow62-add zero m = omega arith ∙ ap (λ n. 62 ^ n) {x = m} {y = 0 + m} (omega arith)
pow62-add (suc k) m =
    pow62 k (62 ^ m)
    ∙ ap (λ p. 62 * p) (pow62-add k m)
    ∙ sym (pow-succ' 62 (k + m))
    ∙ ap (λ n. 62 ^ n) {x = suc (k + m)} {y = suc k + m} (omega arith)

-- A carry that leaves the number below 62 ^ 22 has room in the array.
room_for :
    (k carry : ℕ) → k ≤ size_base62 → 62 ^ k * carry < 62 ^ 22 → carry < 62 ^ (size_base62 - k)
room_for k carry h l = lt_of_mul-lt-mul_left (62 ^ k) (
    subst (λ p. 62 ^ k * carry < p)
      (ap (λ n. 62 ^ n) {x = 22} {y = k + (size_base62 - k)} (omega arith)
        ∙ sym (pow62-add k (size_base62 - k)))
      l)

-- Scaling by 2 ^ 32 keeps the number of digits.
record Scaled (ds : List ℕ) (carry : ℕ) (r : List ℕ × ℕ) : Type 0 where
  same_length : length r.0 ≡ length ds
  digits : AllDigits r.0
  small : r.1 < 2 ^ 32
  sum : value r.0 + 62 ^ length ds * r.1 ≡ value ds * 2 ^ 32 + carry

scale-Scaled :
    (ds : List ℕ) (carry : ℕ) → AllDigits ds → carry < 2 ^ 32 → Scaled ds carry (scale ds carry)
unfolding scale value AllDigits
scale-Scaled [] carry a h = record { same_length = refl; digits = tt; small = h; sum = omega arith }
scale-Scaled (b ∷ bs) carry (h, a) c =
    let n = (carry + b * 2 ^ 32) % 2 ^ 64 in
    let same : n ≡ carry + b * 2 ^ 32 = mod-eq_of_lt (omega arith) in
    let r = scale-Scaled bs (n / 62) a (omega (arith, same)) in
    record {
      same_length = ap suc r.same_length;
      digits = (omega arith, r.digits);
      small = r.small;
      sum = omega (arith, same, r.sum, pow62 (length bs) (scale bs (n / 62)).1);
    }

-- The carry's digits, where there is room for them.
record Pushed (carry : ℕ) (room : ℕ) (ds : List ℕ) : Type 0 where
  digits : AllDigits ds
  sum : value ds ≡ carry
  fits : length ds ≤ room

push-Pushed :
    (room carry : ℕ)
    → carry < 62 ^ room
    → (ds : List ℕ) × (push room carry ≡ some ds) × Pushed carry room ds
unfolding push value AllDigits
push-Pushed zero zero h = ([], refl, record { digits = tt; sum = refl; fits = omega arith })
push-Pushed (suc room) zero h = ([], refl, record { digits = tt; sum = refl; fits = omega arith })
push-Pushed zero (suc carry) h = absurd (omega arith)
push-Pushed (suc room) (suc carry) h =
    let (ds, e, p) = push-Pushed room (suc carry / 62) (omega (arith, h, pow62 room 1)) in
    (
      suc carry % 62 ∷ ds,
      rw (e, push) refl,
      record {
        digits = (omega arith, p.digits);
        sum = omega (arith, p.sum);
        fits = omega (arith, p.fits);
      },
    )

-- The digits of a number that is at hand.
pub record Holds (n : ℕ) (ds : List ℕ) : Type 0 where
  pub digits : AllDigits ds
  pub sum : value ds ≡ n
  pub fits : length ds ≤ size_base62

AllDigits-append : (ds es : List ℕ) → AllDigits ds → AllDigits es → AllDigits (ds ++ es)
unfolding AllDigits
AllDigits-append [] es a b = b
AllDigits-append (d ∷ ds) es (h, a) b = (h, AllDigits-append ds es a b)

pub add_word-Holds :
    (ds : List ℕ) (n w : ℕ)
    → Holds n ds
    → w < 2 ^ 32
    → n * 2 ^ 32 + w < 2 ^ 128
    → (es : List ℕ) × (add_word ds w ≡ some es) × Holds (n * 2 ^ 32 + w) es
unfolding add_word
add_word-Holds ds n w k h l =
    let r = scale-Scaled ds w k.digits h in
    let (more, e, p) =
      push-Pushed (size_base62 - length ds) (scale ds w).1
        (room_for (length ds) (scale ds w).1 k.fits (omega (arith, r.sum, k.sum, l))) in
    (
      (scale ds w).0 ++ more,
      rw (e, add_word) refl,
      record {
        digits = AllDigits-append (scale ds w).0 more r.digits p.digits;
        sum =
            value-append (scale ds w).0 more
            ∙ ap₂ (λ j c. value (scale ds w).0 + 62 ^ j * c) r.same_length p.sum
            ∙ r.sum
            ∙ ap (λ v. v * 2 ^ 32 + w) k.sum;
        fits = omega (arith, length-append (scale ds w).0 more, r.same_length, p.fits, k.fits);
      },
    )
