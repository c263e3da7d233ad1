-- ===== src/Shuffle/First.antt =====
-- The item that a shuffle puts first.
use mathlib.Core.Option
use squeezebox_radio_spotify.Prelude.{
  Bool, ℕ, List, ◌≤◌, ◌∷◌, Option, get_elem?, ◌≡◌, Bool-cases, false, inl, ◌<◌, some, true, suc,
  inr, length, none, [], zero, refl, arith, ◌∙◌, leb, ◌-◌, subst, ap, sym,
}
use squeezebox_radio_spotify.Shuffle.{
  position, swap_down, draw, swap_first, shuffle_once, shuffle_with_rng, ShuffleVec, from,
}
use squeezebox_radio_spotify.Shuffle.Order.{IsIn, swap_down-Undone, position-IsIn, swap_first_back}
use squeezebox_radio_spotify.Shuffle.Swap.{Keeps, swap-Swaps, swap-Keeps, get_elem?-lt_length}

abbrev Found {ℓ} : {A : Type ℓ} → (A → Bool) → List A → Option ℕ → Type ℓ
Found {A = A} is_first xs none = (k : ℕ) (x : A) → get_elem? xs k ≡ some x → is_first x ≡ false
Found {A = A} is_first xs (some n) = (x : A) × (get_elem? xs n ≡ some x) × (is_first x ≡ true)

some_injective {ℓ} : {A : Type ℓ} {a b : A} → some a ≡ some b → a ≡ b
some_injective e = cc

module _ {ℓ} {A : Type ℓ} (is_first : A → Bool) where
  cons-Found :
      (x : A) (xs : List A) (r : Option ℕ)
      → is_first x ≡ false
      → Found is_first xs r
      → Found is_first (x ∷ xs) (Option.map suc r)
  cons-Found x xs none other f = all
    where
      all : (k : ℕ) (y : A) → get_elem? (x ∷ xs) k ≡ some y → is_first y ≡ false
      all zero y e = let same : x ≡ y = cc in rw (← same) other
      all (suc k) y e = f k y e
  cons-Found x xs (some n) other f = f

  position-Found : (xs : List A) → Found is_first xs (position is_first xs)
  unfolding position
  position-Found [] = λ k x e. absurd cc
  position-Found (x ∷ xs) = elim (Bool-cases (is_first x)) [
    | inl here ↦ rw here (x, refl, here)
    | inr other ↦ rw other (cons-Found x xs (position is_first xs) other (position-Found xs))
  ]

module _ {ℓ} {A : Type ℓ} (random : ℕ → ℕ) (drawn : (i : ℕ) → random i ≤ i) where
  swap_down-Keeps :
      (m : ℕ) (vec : List A) {after : List A}
      → m < length vec
      → swap_down m (draw random m) vec ≡ some after
      → Keeps vec after
  unfolding swap_down draw
  swap_down-Keeps zero vec {after} h e = λ k x f.
      let kept : some vec ≡ some after = e in let same : vec ≡ after = cc in (k, rw (← same) f)
  swap_down-Keeps (suc m) vec h e = λ k x f.
      let (u, (s, l, _, _)) =
        swap-Swaps vec (suc m) (random (suc m)) (omega arith) (omega (arith, drawn (suc m))) in
      let (n, g) =
        (swap-Keeps vec (suc m) (random (suc m)) (omega arith) (omega (arith, drawn (suc m))) s).0 k
          x f in
      swap_down-Keeps m u (omega arith) (rw s at e) n x g

  abbrev IsHead : (A → Bool) → List A → Type ℓ
  IsHead is_first vec = (x : A) × (get_elem? vec 0 ≡ some x) × (is_first x ≡ true)

  swap_first-IsHead :
      (is_first : A → Bool) (first : Option ℕ) (vec : List A) {after : List A} (k : ℕ) (x : A)
      → 0 < length vec
      → IsIn first vec
      → Found is_first vec first
      → get_elem? vec k ≡ some x
      → is_first x ≡ true
      → swap_first first vec ≡ some after
      → IsHead is_first after
  unfolding swap_first
  swap_first-IsHead is_first none vec k x pos b f here t s =
      let no : is_first x ≡ false = f k x here in absurd cc
  swap_first-IsHead is_first (some n) vec k x pos b (y, at, holds) here t s =
      (y, (swap-Keeps vec 0 n pos b s).1 ∙ at, holds)

  shuffle_once-IsHead :
      (is_first : A → Bool) (vec : List A) {s : ShuffleVec A} (k : ℕ) (x : A)
      → 0 < length vec
      → get_elem? vec k ≡ some x
      → is_first x ≡ true
      → shuffle_once random is_first (from vec) ≡ some s
      → IsHead is_first s.vec
  unfolding shuffle_once
  shuffle_once-IsHead is_first vec {s} k x pos here t e =
      let (w, (d, size, _)) =
        swap_down-Undone random drawn (length vec - 1) (length vec - 1) vec (omega arith)
          (omega arith) in
      let (n, there) = swap_down-Keeps (length vec - 1) vec (omega arith) d k x here in
      let first : Option ℕ = position is_first w in
      let inside : IsIn first w = position-IsIn is_first w in
      let (u, f, _, _) = swap_first_back random drawn first w (omega arith) inside in
      let made : some (record {
        vec = u;
        indices = some (draw random (length vec - 1));
        original_first_position = first;
      })
          ≡ some s =
        rw (d, f) at e in
      let head : IsHead is_first u =
        swap_first-IsHead is_first first w n x (omega arith) inside (position-Found is_first w)
          there t f in
      let same : record {
        vec = u;
        indices = some (draw random (length vec - 1));
        original_first_position = first;
      }
          ≡ s =
        some_injective made in
      subst (λ s. IsHead is_first s.vec) same head

  -- Where a list has an item that is to be first, the shuffled list begins with such an item,
  -- whatever the generator draws.
  pub shuffle_first :
      (is_first : A → Bool) (vec : List A) (s : ShuffleVec A) (k : ℕ) (x : A)
      → get_elem? vec k ≡ some x
      → is_first x ≡ true
      → shuffle_with_rng random is_first (from vec) ≡ some s
      → (y : A) × (get_elem? s.vec 0 ≡ some y) × (is_first y ≡ true)
  unfolding shuffle_with_rng
  shuffle_first is_first vec s k x here t e = elim (Bool-cases (leb (length vec) 1)) [
    | inl short ↦
        let kept : some (from vec) ≡ some s = rw short at e in
        let front : k ≡ 0 = ground (arith, get_elem?-lt_length vec k here) in
        subst (λ s. IsHead is_first s.vec) (some_injective kept)
          (x, ap (get_elem? vec) (sym front) ∙ here, t)
    | inr long ↦ shuffle_once-IsHead is_first vec k x (ground arith) here t (rw long at e)
  ]
