-- ===== src/Tests/ShuffleRuns.antt =====
-- A list of four items, of which the third is to be first.
use squeezebox_radio_spotify.Prelude.{
  List, ℕ, ◌∷◌, Bool, min, ◌≤◌, ◌≡◌, [], ◌==◌, arith, some, length, refl, get_elem?, true,
}
use squeezebox_radio_spotify.Shuffle.{
  ShuffleVec, shuffle_with_rng, from, shuffle_once, draw, swap_down, unshuffle, swap, swap_first,
  position,
}
use squeezebox_radio_spotify.Shuffle.First.{shuffle_first}
use squeezebox_radio_spotify.Shuffle.Order.{shuffle-unshuffle}

abbrev four : List ℕ
four = 10 ∷ 20 ∷ 30 ∷ 40 ∷ []

abbrev is_third : ℕ → Bool
is_third x = x == 30

abbrev at_most_one : ℕ → ℕ
at_most_one i = min i 1

drawn_in_range : (i : ℕ) → at_most_one i ≤ i
drawn_in_range i = omega arith

shuffle-unshuffle_example :
    (s : ShuffleVec ℕ) × (shuffle_with_rng at_most_one is_third (from four) ≡ some s)
    × (length s.vec ≡ 4)
    × (unshuffle s ≡ some (from four))
shuffle-unshuffle_example = shuffle-unshuffle at_most_one drawn_in_range is_third four

abbrev shuffled : ShuffleVec ℕ
shuffled = record {
  vec = 30 ∷ 10 ∷ 40 ∷ 20 ∷ [];
  indices = some (1 ∷ 1 ∷ 1 ∷ []);
  original_first_position = some 1;
}

shuffles : shuffle_with_rng at_most_one is_third (from four) ≡ some shuffled
unfolding shuffle_with_rng shuffle_once draw swap_down swap swap_first position
shuffles = refl

shuffle_first_example : (y : ℕ) × (get_elem? shuffled.vec 0 ≡ some y) × (is_third y ≡ true)
shuffle_first_example =
    shuffle_first at_most_one drawn_in_range is_third four shuffled 2 30 refl refl shuffles
