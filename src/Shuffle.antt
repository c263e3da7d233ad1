-- ===== src/Shuffle.antt =====
-- native/librespot/connect/src/shuffle_vec.rs: a list that can be shuffled and put back in order.
-- The random number generator is a parameter: what it draws for each index. `none` is the panic of
-- an index out of range.
pub mod Swap
pub mod Order
pub mod First
use mathlib.Core.Option
use squeezebox_radio_spotify.Prelude.{
  List, Option, ℕ, Bool, get_elem?, [], length, if◌then◌else◌, some, none, set, suc, ◌-◌, ◌∷◌, leb,
  zero,
}

-- `slice::swap`
unfoldable pub swap {ℓ} : {A : Type ℓ} → List A → ℕ → ℕ → Option (List A)
swap xs i j = elim (get_elem? xs i) [
  | none ↦ none
  | some a ↦ elim (get_elem? xs j) [ none ↦ none | some b ↦ some (set (set xs i b) j a) ]
]

infixl 5 ◌>>=◌
abbrev pub ◌>>=◌ {ℓ κ} : {A : Type ℓ} {B : Type κ} → Option A → (A → Option B) → Option B
none >>= next = none
some x >>= next = next x

pub record ShuffleVec {ℓ} (A : Type ℓ) : Type ℓ where
  pub vec : List A
  pub indices : Option (List ℕ)
  pub original_first_position : Option ℕ

-- `From<Vec<T>>`
abbrev pub from {ℓ} : {A : Type ℓ} → List A → ShuffleVec A
from vec = record { vec = vec; indices = none; original_first_position = none }

-- What is drawn for the indices from `m` down to 1, each from 0 to the index.
unfoldable pub draw : (ℕ → ℕ) → ℕ → List ℕ
draw random zero = []
draw random (suc m) = random (suc m) ∷ draw random m

-- The loop of `shuffle_with_rng`, from the index `m` down.
unfoldable pub swap_down {ℓ} : {A : Type ℓ} → ℕ → List ℕ → List A → Option (List A)
swap_down zero indices vec = some vec
swap_down (suc m) [] vec = some vec
swap_down (suc m) (r ∷ indices) vec = do vec ← swap vec (suc m) r; swap_down m indices vec

-- The loop of `unshuffle`, from the index `i` on, with `k` rounds left.
pub swap_up {ℓ} : {A : Type ℓ} → ℕ → ℕ → List ℕ → List A → Option (List A)
swap_up zero i indices vec = some vec
swap_up (suc k) i indices vec = elim (get_elem? indices (length vec - i - 1)) [
  | none ↦ some vec
  | some n ↦ swap vec n i >>= λ vec. swap_up k (suc i) indices vec
]

-- The item that is to be first changes places with the first one.
unfoldable pub swap_first {ℓ} : {A : Type ℓ} → Option ℕ → List A → Option (List A)
swap_first none vec = some vec
swap_first (some first) vec = swap vec 0 first

pub unshuffle_with {ℓ} : {A : Type ℓ} → Option (List ℕ) → ShuffleVec A → Option (ShuffleVec A)
unshuffle_with none s = some s
unshuffle_with (some indices) s = do
  vec ← swap_first s.original_first_position s.vec
  vec ← swap_up (length vec - 1) 1 indices vec
  some (record { vec = vec; indices = none; original_first_position = none })

pub unshuffle {ℓ} : {A : Type ℓ} → ShuffleVec A → Option (ShuffleVec A)
unshuffle s = unshuffle_with s.indices s

-- `iter().position`
unfoldable pub position {ℓ} : {A : Type ℓ} → (A → Bool) → List A → Option ℕ
position is_first [] = none
position is_first (x ∷ xs) =
    let later = Option.map suc (position is_first xs) in if is_first x then some 0 else later

-- `shuffle_with_rng`, on a list that is not shuffled.
unfoldable pub shuffle_once {ℓ} :
    {A : Type ℓ} → (ℕ → ℕ) → (A → Bool) → ShuffleVec A → Option (ShuffleVec A)
shuffle_once random is_first s = do
  let indices = draw random (length s.vec - 1)
  vec ← swap_down (length s.vec - 1) indices s.vec
  let first = position is_first vec
  vec ← swap_first first vec
  some (record { vec = vec; indices = some indices; original_first_position = first })

unfoldable pub shuffle_with_rng {ℓ} :
    {A : Type ℓ} → (ℕ → ℕ) → (A → Bool) → ShuffleVec A → Option (ShuffleVec A)
shuffle_with_rng random is_first s =
    if leb (length s.vec) 1
    then some s
    else (elim s.indices [ none ↦ some s | some _ ↦ unshuffle s ]) >>= shuffle_once random is_first
