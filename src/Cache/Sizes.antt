-- ===== src/Cache/Sizes.antt =====
-- The map from files to sizes: what its operations keep.
use squeezebox_radio_spotify.Cache.{size_of, without}
use squeezebox_radio_spotify.Prelude.{
  ◌∷◌, [], ℕ, List, ◌≡◌, Option, bytes_eq, Bool, true, if◌then◌else◌, none, some, bytes_eq_iff,
  Bool-cases, length, false, ◌+◌, inl, ◌<◌, refl, inr, ◌∙◌, ap, sym, arith, ◌≤◌,
}

abbrev pub is_some : Option ℕ → Bool
is_some none = false
is_some (some n) = true

unfoldable pub total : List (List ℕ × ℕ) → ℕ
total [] = 0
total ((f, n) ∷ m) = n + total m

unfoldable pub Distinct : List (List ℕ × ℕ) → Type 0
Distinct [] = Unit
Distinct ((f, n) ∷ m) = (size_of m f ≡ none) × Distinct m

pub bytes_eq_refl : (f : List ℕ) → bytes_eq f f ≡ true
bytes_eq_refl f = (bytes_eq_iff f f).1 refl

pub bytes_eq_same : (f g : List ℕ) → bytes_eq f g ≡ true → f ≡ g
bytes_eq_same f g h = (bytes_eq_iff f g).0 h

pub size_of-without :
    (m : List (List ℕ × ℕ)) (f j : List ℕ)
    → size_of (without m f) j ≡ (if bytes_eq f j then none else size_of m j)
unfolding size_of without
size_of-without [] f j = elim (Bool-cases (bytes_eq f j)) [ inl y ↦ rw y refl | inr n ↦ rw n refl ]
size_of-without ((g, n) ∷ m) f j = elim (Bool-cases (bytes_eq g f)) [
  | inl same ↦ elim (Bool-cases (bytes_eq f j)) [
    | inl y ↦ rw (same, y) (size_of-without m f j ∙ rw y refl)
    | inr n ↦
        let n' : bytes_eq g j ≡ false = ap (λ x. bytes_eq x j) (bytes_eq_same g f same) ∙ n in
        rw (same, n, n') (size_of-without m f j ∙ rw n refl)
  ]
  | inr other ↦ elim (Bool-cases (bytes_eq f j)) [
    | inl y ↦
        let n' : bytes_eq g j ≡ false = ap (bytes_eq g) (sym (bytes_eq_same f j y)) ∙ other in
        rw (other, y, size_of) (rw n' (size_of-without m f j ∙ rw y refl))
    | inr n ↦ elim (Bool-cases (bytes_eq g j)) [
      | inl z ↦ rw (other, n, size_of) (rw z refl)
      | inr z ↦ rw (other, n, size_of) (rw z (size_of-without m f j ∙ rw n refl))
    ]
  ]
]

pub without-none : (m : List (List ℕ × ℕ)) (f : List ℕ) → size_of m f ≡ none → without m f ≡ m
unfolding size_of without
without-none [] f h = refl
without-none ((g, n) ∷ m) f h = elim (Bool-cases (bytes_eq g f)) [
  | inl same ↦ absurd (grind (arith, h, same))
  | inr other ↦ rw other (ap (λ r. (g, n) ∷ r) (without-none m f (grind (arith, h, other))))
]

pub total-without :
    (m : List (List ℕ × ℕ)) (f : List ℕ) (n : ℕ)
    → Distinct m
    → size_of m f ≡ some n
    → total m ≡ n + total (without m f)
unfolding size_of without total Distinct
total-without [] f n d h = absurd (ground (arith, h))
total-without ((g, k) ∷ m) f n (fresh, d) h = elim (Bool-cases (bytes_eq g f)) [
  | inl same ↦
      let absent : size_of m f ≡ none = ap (size_of m) (sym (bytes_eq_same g f same)) ∙ fresh in
      let k_n : k ≡ n = grind (arith, h, same) in
      rw (same, without-none m f absent) (omega (arith, k_n))
  | inr other ↦ rw other (omega (arith, total-without m f n d (grind (arith, h, other))))
]

pub without-fresh :
    (m : List (List ℕ × ℕ)) (f g : List ℕ) → size_of m g ≡ none → size_of (without m f) g ≡ none
without-fresh m f g fresh = elim (Bool-cases (bytes_eq f g)) [
  | inl y ↦ size_of-without m f g ∙ rw y refl
  | inr n ↦ size_of-without m f g ∙ rw n fresh
]

pub without-Distinct : (m : List (List ℕ × ℕ)) (f : List ℕ) → Distinct m → Distinct (without m f)
unfolding without Distinct
without-Distinct [] f d = tt
without-Distinct ((g, k) ∷ m) f (fresh, d) = elim (Bool-cases (bytes_eq g f)) [
  | inl same ↦ rw same (without-Distinct m f d)
  | inr other ↦ rw (other, Distinct) (without-fresh m f g fresh, without-Distinct m f d)
]

without_le : (m : List (List ℕ × ℕ)) (f : List ℕ) → length (without m f) ≤ length m
unfolding without
without_le [] f = omega arith
without_le ((g, k) ∷ m) f = elim (Bool-cases (bytes_eq g f)) [
  | inl same ↦ rw same (omega (arith, without_le m f))
  | inr other ↦ rw other (omega (arith, without_le m f))
]

pub length-without :
    (m : List (List ℕ × ℕ)) (f : List ℕ) (n : ℕ)
    → size_of m f ≡ some n
    → length (without m f) < length m
unfolding size_of without
length-without [] f n h = absurd (ground (arith, h))
length-without ((g, k) ∷ m) f n h = elim (Bool-cases (bytes_eq g f)) [
  | inl same ↦ rw same (omega (arith, without_le m f))
  | inr other ↦ rw other (omega (arith, length-without m f n (grind (arith, h, other))))
]
