-- ===== src/Shuffle/Swap.antt =====
-- `swap` on a list: it does not panic in range, and the swap back undoes it.
use squeezebox_radio_spotify.Prelude.{
  List, ℕ, get_elem?, ◌<◌, ◌≢◌, length, ◌≡◌, set, some, ◌∷◌, arith, suc, [], zero, refl, none,
  if◌then◌else◌, ◌∙◌, ◌==◌, ap, Bool-cases, inl, ==_iff, inr, true, sym,
}
use squeezebox_radio_spotify.Shuffle.{swap}

get_elem?-ext {ℓ} :
    {A : Type ℓ} (xs ys : List A) → ((k : ℕ) → get_elem? xs k ≡ get_elem? ys k) → xs ≡ ys
get_elem?-ext [] [] h = refl
get_elem?-ext [] (y ∷ ys) h = let e : none ≡ some y = h 0 in absurd cc
get_elem?-ext (x ∷ xs) [] h = let e : some x ≡ none = h 0 in absurd cc
get_elem?-ext (x ∷ xs) (y ∷ ys) h =
    let e : some x ≡ some y = h 0 in
    let same : x ≡ y = cc in let tails : xs ≡ ys = get_elem?-ext xs ys (λ k. h (suc k)) in cc

get_elem?-set_same {ℓ} :
    {A : Type ℓ} (xs : List A) (i : ℕ) (v : A) → i < length xs → get_elem? (set xs i v) i ≡ some v
get_elem?-set_same [] i v h = absurd (omega arith)
get_elem?-set_same (x ∷ xs) zero v h = refl
get_elem?-set_same (x ∷ xs) (suc i) v h = get_elem?-set_same xs i v (omega arith)

get_elem?-set_other {ℓ} :
    {A : Type ℓ} (xs : List A) (i k : ℕ) (v : A) → i ≢ k → get_elem? (set xs i v) k ≡ get_elem? xs k
get_elem?-set_other [] i k v h = refl
get_elem?-set_other (x ∷ xs) zero zero v h = absurd (h refl)
get_elem?-set_other (x ∷ xs) zero (suc k) v h = refl
get_elem?-set_other (x ∷ xs) (suc i) zero v h = refl
get_elem?-set_other (x ∷ xs) (suc i) (suc k) v h =
    get_elem?-set_other xs i k v (λ e. h (omega arith))

length-set {ℓ} : {A : Type ℓ} (xs : List A) (i : ℕ) (v : A) → length (set xs i v) ≡ length xs
length-set [] i v = refl
length-set (x ∷ xs) zero v = refl
length-set (x ∷ xs) (suc i) v = omega (arith, length-set xs i v)

get_elem?-lt {ℓ} :
    {A : Type ℓ} (xs : List A) (i : ℕ) → i < length xs → (a : A) × (get_elem? xs i ≡ some a)
get_elem?-lt [] i h = absurd (omega arith)
get_elem?-lt (x ∷ xs) zero h = (x, refl)
get_elem?-lt (x ∷ xs) (suc i) h = get_elem?-lt xs i (omega arith)

pub get_elem?-lt_length {ℓ} :
    {A : Type ℓ} (xs : List A) (i : ℕ) {a : A} → get_elem? xs i ≡ some a → i < length xs
get_elem?-lt_length [] i e = absurd cc
get_elem?-lt_length (x ∷ xs) zero e = omega arith
get_elem?-lt_length (x ∷ xs) (suc i) e = omega (arith, get_elem?-lt_length xs i e)

-- Both of two places are in the list, and hold these items.
swap-eq {ℓ} :
    {A : Type ℓ} (xs : List A) (i j : ℕ) {a b : A}
    → get_elem? xs i ≡ some a
    → get_elem? xs j ≡ some b
    → swap xs i j ≡ some (set (set xs i b) j a)
unfolding swap
swap-eq xs i j e f = rw (e, swap, f) refl

set_twice {ℓ} :
    {A : Type ℓ} (xs : List A) (i j : ℕ) (a b : A)
    → get_elem? xs i ≡ some a
    → get_elem? xs j ≡ some b
    → (k : ℕ)
    → get_elem? (set (set xs i b) j a) k
      ≡ (if j == k then some a else if i == k then some b else get_elem? xs k)
set_twice xs i j a b e f k = elim (Bool-cases (j == k)) [
  | inl at ↦
      let same : j ≡ k = (==_iff j k).0 at in
      rw (at, ← same)
        (get_elem?-set_same (set xs i b) j a
          (omega (arith, length-set xs i b, get_elem?-lt_length xs j f)))
  | inr away ↦
      rw
        (
          away,
          get_elem?-set_other (set xs i b) j k a
              (λ s. let t : (j == k) ≡ true = (==_iff j k).1 s in absurd cc),
        )
        (elim (Bool-cases (i == k)) [
          | inl at ↦
              let same : i ≡ k = (==_iff i k).0 at in
              rw (at, ← same) (get_elem?-set_same xs i b (get_elem?-lt_length xs i e))
          | inr off ↦ rw off (
              get_elem?-set_other xs i k b
                (λ s. let t : (i == k) ≡ true = (==_iff i k).1 s in absurd cc))
        ])
]

-- A swap in range does not panic, keeps the length, and is undone by the swap back
-- or by the same swap again.
abbrev pub Swaps {ℓ} : {A : Type ℓ} → List A → ℕ → ℕ → List A → Type ℓ
Swaps xs i j ys =
    (swap xs i j ≡ some ys)
    × (length ys ≡ length xs)
    × (swap ys j i ≡ some xs)
    × (swap ys i j ≡ some xs)

module _ {ℓ} {A : Type ℓ} (xs : List A) (i j : ℕ) (a b : A) (e : get_elem? xs i ≡ some a)
    (f : get_elem? xs j ≡ some b) where
  swapped : List A
  swapped = set (set xs i b) j a

  at_j : get_elem? swapped j ≡ some a
  unfolding swapped
  at_j = set_twice xs i j a b e f j ∙ rw ((==_iff j j).1 refl) refl

  at_i : get_elem? swapped i ≡ some b
  unfolding swapped
  at_i = set_twice xs i j a b e f i ∙ elim (Bool-cases (j == i)) [
    | inl at ↦
        let same : j ≡ i = (==_iff j i).0 at in rw at (sym e ∙ ap (get_elem? xs) (sym same) ∙ f)
    | inr off ↦ rw (off, (==_iff i i).1 refl) refl
  ]

  -- A swap back.
  swapped_back : set (set swapped j b) i a ≡ xs
  unfolding swapped
  swapped_back = get_elem?-ext _ xs λ n.
      set_twice swapped j i a b at_j at_i n ∙ elim (Bool-cases (i == n)) [
        | inl at ↦ let same : i ≡ n = (==_iff i n).0 at in rw (at, ← same) (sym e)
        | inr off ↦ elim (Bool-cases (j == n)) [
          | inl at ↦ let same : j ≡ n = (==_iff j n).0 at in rw (off, at, ← same) (sym f)
          | inr away ↦ rw (off, away) (set_twice xs i j a b e f n ∙ rw (off, away) refl)
        ]
      ]

  -- The same swap again.
  swapped_again : set (set swapped i a) j b ≡ xs
  unfolding swapped
  swapped_again = get_elem?-ext _ xs λ n.
      set_twice swapped i j b a at_i at_j n ∙ elim (Bool-cases (j == n)) [
        | inl at ↦ let same : j ≡ n = (==_iff j n).0 at in rw (at, ← same) (sym f)
        | inr off ↦ elim (Bool-cases (i == n)) [
          | inl at ↦ let same : i ≡ n = (==_iff i n).0 at in rw (off, at, ← same) (sym e)
          | inr away ↦ rw (off, away) (set_twice xs i j a b e f n ∙ rw (off, away) refl)
        ]
      ]

  swapped-Swaps : Swaps xs i j swapped
  unfolding swapped
  swapped-Swaps = (
    swap-eq xs i j e f,
    omega (arith, length-set (set xs i b) j a, length-set xs i b),
    swap-eq swapped j i at_j at_i ∙ ap some swapped_back,
    swap-eq swapped i j at_i at_j ∙ ap some swapped_again,
  )

-- Every item of `xs` stands somewhere in `ys`.
abbrev pub Keeps {ℓ} : {A : Type ℓ} → List A → List A → Type ℓ
Keeps {A = A} xs ys =
    (k : ℕ) (x : A) → get_elem? xs k ≡ some x → (n : ℕ) × (get_elem? ys n ≡ some x)

swapped-Keeps {ℓ} :
    {A : Type ℓ} (xs : List A) (i j : ℕ) (a b : A) (e : get_elem? xs i ≡ some a)
    (f : get_elem? xs j ≡ some b)
    → Keeps xs (swapped xs i j a b e f)
unfolding swapped
swapped-Keeps xs i j a b e f k x here = elim (Bool-cases (i == k)) [
  | inl at ↦
      let same : i ≡ k = (==_iff i k).0 at in
      (j, at_j xs i j a b e f ∙ sym e ∙ ap (get_elem? xs) same ∙ here)
  | inr off ↦ elim (Bool-cases (j == k)) [
    | inl at ↦
        let same : j ≡ k = (==_iff j k).0 at in
        (i, at_i xs i j a b e f ∙ sym f ∙ ap (get_elem? xs) same ∙ here)
    | inr away ↦ (k, set_twice xs i j a b e f k ∙ rw (away, off) here)
  ]
]

-- A swap in range keeps the items, and brings the second one to the first place.
pub swap-Keeps {ℓ} :
    {A : Type ℓ} (xs : List A) (i j : ℕ) {ys : List A}
    → i < length xs
    → j < length xs
    → swap xs i j ≡ some ys
    → Keeps xs ys × (get_elem? ys i ≡ get_elem? xs j)
unfolding swapped
swap-Keeps xs i j {ys} h k s =
    let (a, e) = get_elem?-lt xs i h in
    let (b, f) = get_elem?-lt xs j k in
    let made : swap xs i j ≡ some (set (set xs i b) j a) = swap-eq xs i j e f in
    let same : set (set xs i b) j a ≡ ys = cc in
    rw (← same) (swapped-Keeps xs i j a b e f, at_i xs i j a b e f ∙ sym f)

pub swap-Swaps {ℓ} :
    {A : Type ℓ} (xs : List A) (i j : ℕ)
    → i < length xs
    → j < length xs
    → (ys : List A) × Swaps xs i j ys
swap-Swaps xs i j h k =
    let (a, e) = get_elem?-lt xs i h in
    let (b, f) = get_elem?-lt xs j k in (swapped xs i j a b e f, swapped-Swaps xs i j a b e f)
