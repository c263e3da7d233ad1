-- ===== src/Connect/Queue/PopLast.antt =====
-- The last entry of a list, which `pop` takes.
use squeezebox_radio_spotify.Connect.Tracks.{pop_last}
use squeezebox_radio_spotify.Prelude.{List, ◌++◌, ◌≡◌, ◌∷◌, [], some, ◌⊎◌, inl, refl, inr, ap}

module _ {ℓ} {A : Type ℓ} where
  pub pop_last-append : (front : List A) (x : A) → pop_last (front ++ x ∷ []) ≡ some (x, front)
  unfolding pop_last
  pop_last-append [] x = refl
  pop_last-append (y ∷ []) x = refl
  pop_last-append (y ∷ z ∷ front) x = rw (pop_last-append (z ∷ front) x, pop_last) refl

  pub last_cases : (xs : List A) → (xs ≡ []) ⊎ ((front : List A) × (x : A) × (xs ≡ front ++ x ∷ []))
  last_cases [] = inl refl
  last_cases (x ∷ xs) = elim (last_cases xs) [
    | inl empty ↦ inr ([], x, ap (λ ys. x ∷ ys) empty)
    | inr (front, y, e) ↦ inr (x ∷ front, y, ap (λ ys. x ∷ ys) e)
  ]
