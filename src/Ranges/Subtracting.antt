-- ===== src/Ranges/Subtracting.antt =====
-- `subtract_range` takes the positions of the range out, and keeps the entries apart.
use squeezebox_radio_spotify.Prelude.{ℕ, ◌≡◌, ◌&&◌, not, ◌∷◌, arith, ◌+◌, [], refl, ◌<◌}
use squeezebox_radio_spotify.Ranges.{
  remove_front, Range, RangeSet, end_of, remove, subtract_range, subtract_range_set, minus,
  cut_back, cut_front,
}
use squeezebox_radio_spotify.Ranges.Set.{Apart, member, in_range, Apart-mono, member_below}

remove_front-member :
    (v : ℕ) (r : Range) (xs : RangeSet)
    → Apart r.start xs
    → member v (remove_front r xs) ≡ (member v xs && not (in_range v r))
unfolding remove_front
remove_front-member v r [] a = refl
remove_front-member v r (x ∷ xs) a = ground (
  arith,
  remove_front-member v r xs,
  Apart-mono r.start (end_of x + 1) xs,
  member_below v (end_of x + 1) xs,
)

remove_front-Apart :
    (lo : ℕ) (r : Range) (xs : RangeSet) → Apart lo xs → Apart lo (remove_front r xs)
unfolding remove_front
remove_front-Apart lo r [] a = tt
remove_front-Apart lo r (x ∷ xs) a =
    ground (arith, remove_front-Apart lo r xs, Apart-mono lo (end_of x + 1) xs)

remove-member :
    (v lo : ℕ) (r : Range) (xs : RangeSet)
    → 0 < r.length
    → Apart lo xs
    → member v (remove r xs) ≡ (member v xs && not (in_range v r))
unfolding remove
remove-member v lo r [] pos a = refl
remove-member v lo r (x ∷ xs) pos a = ground (
  arith,
  remove-member v (end_of x + 1) r xs,
  remove_front-member v r (x ∷ xs),
  Apart-mono r.start (end_of x + 1) xs,
  member_below v (end_of x + 1) xs,
)

remove-Apart :
    (lo : ℕ) (r : Range) (xs : RangeSet) → 0 < r.length → Apart lo xs → Apart lo (remove r xs)
unfolding remove
remove-Apart lo r [] pos a = tt
remove-Apart lo r (x ∷ xs) pos a = ground (
  arith,
  remove-Apart (end_of x + 1) r xs,
  remove_front-Apart lo r (x ∷ xs),
  Apart-mono (end_of (cut_back r.start x) + 1) (end_of x + 1) (remove r xs),
  Apart-mono (end_of (cut_front (end_of r) x) + 1) (end_of x + 1) xs,
)

-- `subtract_range` covers what the set covered outside the range, and leaves entries that rise,
-- are not empty and do not touch.
pub subtract_range-member :
    (xs : RangeSet) (r : Range)
    → Apart 0 xs
    → ((v : ℕ) → member v (subtract_range xs r) ≡ (member v xs && not (in_range v r)))
      × Apart 0 (subtract_range xs r)
unfolding subtract_range
subtract_range-member xs r a =
    (λ v. ground (arith, remove-member v 0 r xs), ground (arith, remove-Apart 0 r xs))

-- `minus` covers what the first set covered and the second does not, and leaves entries that rise,
-- are not empty and do not touch, whatever the order of the second set's entries.
pub minus-member :
    (xs ys : RangeSet)
    → Apart 0 xs
    → ((v : ℕ) → member v (minus xs ys) ≡ (member v xs && not (member v ys)))
      × Apart 0 (minus xs ys)
unfolding subtract_range_set
minus-member xs [] a = (λ v. ground arith, a)
minus-member xs (y ∷ ys) a =
    let (m, b) = subtract_range-member xs y a in
    let (n, c) = minus-member (subtract_range xs y) ys b in (λ v. ground (arith, m v, n v), c)
