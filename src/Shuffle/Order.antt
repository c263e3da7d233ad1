-- ===== src/Shuffle/Order.antt =====
-- Shuffling, and the order that comes back.
use mathlib.Core.Option
use squeezebox_radio_spotify.Prelude.{
  ℕ, ◌<◌, ◌≤◌, get_elem?, List, ◌≡◌, length, ◌-◌, some, suc, arith, ◌+◌, ap, Bool-cases, ◌==◌, sym,
  inl, ◌∙◌, ==_iff, ◌∷◌, inr, zero, Option, none, refl, Bool, [], leb, false,
}
use squeezebox_radio_spotify.Shuffle.{
  draw, swap_down, swap_up, swap, swap_first, position, ShuffleVec, shuffle_once, from, unshuffle,
  unshuffle_with, shuffle_with_rng,
}
use squeezebox_radio_spotify.Shuffle.Swap.{swap-Swaps}

get_elem?-draw :
    (random : ℕ → ℕ) (m i : ℕ) → 0 < i → i ≤ m → get_elem? (draw random m) (m - i) ≡ some (random i)
unfolding draw
get_elem?-draw random zero i h k = absurd (omega arith)
get_elem?-draw random (suc m) i h k = elim (Bool-cases (i == suc m)) [
  | inl at ↦
      let same : i ≡ suc m = (==_iff i (suc m)).0 at in
      rw same
        (ap (get_elem? (random (suc m) ∷ draw random m)) {x = suc m - suc m} {y = 0} (omega arith))
  | inr below ↦
      let le : i ≤ m = ground arith in
      ap (get_elem? (random (suc m) ∷ draw random m)) {x = suc m - i} {y = suc (m - i)}
        (omega arith)
      ∙ get_elem?-draw random m i h le
]

swap_up_step {ℓ} :
    {A : Type ℓ} (k i : ℕ) (indices : List ℕ) (u : List A) {v : List A} {n : ℕ}
    → get_elem? indices (length u - i - 1) ≡ some n
    → swap u n i ≡ some v
    → swap_up (suc k) i indices u ≡ swap_up k (suc i) indices v
unfolding swap_up
swap_up_step k i indices u e f = rw (e, swap_up, f) refl

abbrev pub IsIn {ℓ} : {A : Type ℓ} → Option ℕ → List A → Type 0
IsIn none vec = Unit {0}
IsIn (some k) vec = k < length vec

module _ {ℓ} {A : Type ℓ} (random : ℕ → ℕ) (drawn : (i : ℕ) → random i ≤ i) where
  -- The loop down does not panic, and the loop up, from where it stands on, undoes it.
  abbrev pub Undone : ℕ → ℕ → List A → List A → Type ℓ
  Undone total m vec after =
      (swap_down m (draw random m) vec ≡ some after)
      × (length after ≡ length vec)
      × ((k : ℕ)
          → m + k ≡ total
          → swap_up total 1 (draw random total) after ≡ swap_up k (suc m) (draw random total) vec)

  pub swap_down-Undone :
      (total m : ℕ) (vec : List A)
      → length vec ≡ suc total
      → m ≤ total
      → (after : List A) × Undone total m vec after
  unfolding swap_down draw
  swap_down-Undone total zero vec size h = (
    vec,
    (
      refl,
      refl,
      λ k e. ap (λ n. swap_up n 1 (draw random total) vec) {x = total} {y = k} (omega arith),
    ),
  )
  swap_down-Undone total (suc m) vec size h =
      let (u, (s, l, back, _)) =
        swap-Swaps vec (suc m) (random (suc m)) (omega arith) (omega (arith, drawn (suc m))) in
      let (after, (d, a, undo)) = swap_down-Undone total m u (omega arith) (omega arith) in
      let found : get_elem? (draw random total) (length u - suc m - 1) ≡ some (random (suc m)) =
        ap (get_elem? (draw random total)) {x = length u - suc m - 1} {y = total - suc m}
          (omega arith)
        ∙ get_elem?-draw random total (suc m) (omega arith) (omega arith) in
      (
        after,
        (
          rw s d,
          a ∙ l,
          λ k e.
              undo (suc k) (omega arith) ∙ swap_up_step k (suc m) (draw random total) u found back,
        ),
      )

  pub swap_first_back :
      (first : Option ℕ) (vec : List A)
      → 0 < length vec
      → IsIn first vec
      → (after : List A) × (swap_first first vec ≡ some after)
        × (length after ≡ length vec)
        × (swap_first first after ≡ some vec)
  unfolding swap_first
  swap_first_back none vec pos h = (vec, refl, refl, refl)
  swap_first_back (some k) vec pos h =
      let (u, (s, l, _, again)) = swap-Swaps vec 0 k pos h in (u, s, l, again)

pub position-IsIn {ℓ} :
    {A : Type ℓ} (is_first : A → Bool) (vec : List A) → IsIn (position is_first vec) vec
unfolding position
position-IsIn is_first [] = tt
position-IsIn is_first (x ∷ xs) = elim (Bool-cases (is_first x)) [
  | inl here ↦ rw here (omega arith)
  | inr away ↦ rw away (later (position is_first xs) (position-IsIn is_first xs))
]
  where
    later : (r : Option ℕ) → IsIn r xs → IsIn (Option.map suc r) (x ∷ xs)
    later none h = tt
    later (some k) h = omega arith

module _ {ℓ} {A : Type ℓ} (random : ℕ → ℕ) (drawn : (i : ℕ) → random i ≤ i)
    (is_first : A → Bool) where
  -- Shuffled, and put back.
  abbrev pub Restores : List A → ShuffleVec A → Type ℓ
  Restores vec s =
      (shuffle_once random is_first (from vec) ≡ some s)
      × (length s.vec ≡ length vec)
      × ((indices : List ℕ) × (s.indices ≡ some indices))
      × (unshuffle s ≡ some (from vec))

  shuffle_once-Restores : (vec : List A) → 1 < length vec → (s : ShuffleVec A) × Restores vec s
  unfolding shuffle_once unshuffle unshuffle_with swap_up
  shuffle_once-Restores vec long =
      let total : ℕ = length vec - 1 in
      let (w, (d, a, undo)) =
        swap_down-Undone random drawn total total vec (omega arith) (omega arith) in
      let first : Option ℕ = position is_first w in
      let (u, s, l, back) =
        swap_first_back random drawn first w (omega arith) (position-IsIn is_first w) in
      let up : swap_up (length w - 1) 1 (draw random total) w ≡ some vec =
        ap (λ n. swap_up n 1 (draw random total) w) {x = length w - 1} {y = total} (omega arith)
        ∙ undo 0 (omega arith) in
      (
        record { vec = u; indices = some (draw random total); original_first_position = first },
        (rw (d, s) refl, l ∙ a, (draw random total, refl), rw (back, up) refl),
      )

  -- Whatever the generator draws, shuffling does not panic and keeps the length, and `unshuffle`
  -- gives the list back in its order, also where the item that is to be first had changed places.
  pub shuffle-unshuffle :
      (vec : List A)
      → (s : ShuffleVec A) × (shuffle_with_rng random is_first (from vec) ≡ some s)
        × (length s.vec ≡ length vec)
        × (unshuffle s ≡ some (from vec))
  unfolding shuffle_with_rng unshuffle unshuffle_with
  shuffle-unshuffle vec = elim (Bool-cases (leb (length vec) 1)) [
    | inl short ↦ (from vec, rw short refl, refl, refl)
    | inr long ↦
        let (s, (e, l, _, u)) = shuffle_once-Restores vec (ground arith) in (s, rw long e, l, u)
  ]

  shuffle_again :
      (later : ℕ → ℕ) (vec : List A) (t : ShuffleVec A) {indices : List ℕ}
      → leb (length vec) 1 ≡ false
      → leb (length t.vec) 1 ≡ false
      → t.indices ≡ some indices
      → unshuffle t ≡ some (from vec)
      → shuffle_with_rng later is_first t ≡ shuffle_with_rng later is_first (from vec)
  unfolding shuffle_with_rng
  shuffle_again later vec t long same i u = rw (same, long, i, shuffle_with_rng, u) refl

  -- Shuffling a shuffled list is the same as shuffling the list as it was, by the later draws.
  shuffle-shuffle :
      (later : ℕ → ℕ) (vec : List A) (s : ShuffleVec A)
      → shuffle_with_rng random is_first (from vec) ≡ some s
      → shuffle_with_rng later is_first s ≡ shuffle_with_rng later is_first (from vec)
  unfolding shuffle_with_rng
  shuffle-shuffle later vec s e = elim (Bool-cases (leb (length vec) 1)) [
    | inl short ↦
        let kept : some (from vec) ≡ some s = rw short at e in
        let same : from vec ≡ s = cc in ap (shuffle_with_rng later is_first) (sym same)
    | inr long ↦
        let (t, (d, l, (indices, i), u)) = shuffle_once-Restores vec (ground arith) in
        let made : shuffle_once random is_first (from vec) ≡ some s = rw long at e in
        let same : t ≡ s = cc in
        ap (shuffle_with_rng later is_first) (sym same)
        ∙ shuffle_again later vec t long (ground arith) i u
  ]
