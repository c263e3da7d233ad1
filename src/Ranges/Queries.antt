-- ===== src/Ranges/Queries.antt =====
-- The questions that a range set answers.
use squeezebox_radio_spotify.Prelude.{
  ℕ, ◌≤◌, ◌≡◌, ◌∷◌, arith, ◌+◌, [], refl, ◌<◌, true, false, ltb, ◌↔◌, Bool-cases, inl, ◌-◌, inr,
}
use squeezebox_radio_spotify.Ranges.{
  contains, RangeSet, end_of, contained_length_from_value, Range, contains_range_set,
}
use squeezebox_radio_spotify.Ranges.Set.{Apart, member, member_below, in_range}

-- In a set whose entries rise, are not empty and do not touch, `contains` answers whether an entry
-- covers the position.
pub contains-member : (v lo : ℕ) (xs : RangeSet) → Apart lo xs → contains xs v ≡ member v xs
unfolding contains
contains-member v lo [] a = refl
contains-member v lo (x ∷ xs) a =
    ground (arith, contains-member v (end_of x + 1) xs, member_below v (end_of x + 1) xs)

run-member :
    (lo : ℕ) (xs : RangeSet) (value k : ℕ)
    → Apart lo xs
    → (k < contained_length_from_value xs value → member (value + k) xs ≡ true)
      × (k ≡ contained_length_from_value xs value → member (value + k) xs ≡ false)
unfolding contained_length_from_value
run-member lo [] value k a = (λ h. absurd (omega arith), λ h. refl)
run-member lo (x ∷ xs) value k a =
    ground (arith, run-member (end_of x + 1) xs value k, member_below (value + k) (end_of x + 1) xs)

-- In a set whose entries rise, are not empty and do not touch, `contained_length_from_value` is the
-- length of the run of covered positions from `value` on: every position in it is covered, and the
-- one behind it is not.
pub contained_length-member :
    (xs : RangeSet) (value k : ℕ)
    → Apart 0 xs
    → k ≤ contained_length_from_value xs value
    → member (value + k) xs ≡ ltb k (contained_length_from_value xs value)
contained_length-member xs value k a h = ground (arith, run-member 0 xs value k a)

subset-head :
    (xs : RangeSet) (y : Range) (ys : RangeSet)
    → Apart 0 xs
    → 0 < y.length
    → ltb (contained_length_from_value xs y.start) y.length ≡ true
    → ¬ ((v : ℕ) → member v (y ∷ ys) ≡ true → member v xs ≡ true)
subset-head xs y ys a pos short all =
    let k = contained_length_from_value xs y.start in
    let covered : member (y.start + k) (y ∷ ys) ≡ true = ground arith in
    let out : member (y.start + k) xs ≡ false = (run-member 0 xs y.start k a).1 refl in
    cc (all (y.start + k) covered)

subset-covers :
    (xs : RangeSet) (y : Range) (v : ℕ)
    → Apart 0 xs
    → ltb (contained_length_from_value xs y.start) y.length ≡ false
    → in_range v y ≡ true
    → member v xs ≡ true
subset-covers xs y v a long h =
    let at : y.start + (v - y.start) ≡ v = ground arith in
    rw at at ((run-member 0 xs y.start (v - y.start) a).0 (ground arith))

subset_iff :
    (lo : ℕ) (xs ys : RangeSet)
    → Apart 0 xs
    → Apart lo ys
    → (contains_range_set xs ys ≡ true) ↔ ((v : ℕ) → member v ys ≡ true → member v xs ≡ true)
unfolding contains_range_set
subset_iff lo xs [] a b = (λ e v h. cc, λ h. refl)
subset_iff lo xs (y ∷ ys) a b =
    let ih = subset_iff (end_of y + 1) xs ys a b.2 in
    elim (Bool-cases (ltb (contained_length_from_value xs y.start) y.length)) [
      | inl short ↦ rw short (λ e. cc, λ all. absurd (subset-head xs y ys a b.1 short all))
      | inr long ↦ rw long (
        λ e v h. elim (Bool-cases (in_range v y)) [
          | inl inside ↦ subset-covers xs y v a long inside
          | inr outside ↦ ih.0 e v (rw outside at h)
        ],
        λ all. ih.1 (λ v h. all v (ground arith)),
      )
    ]

-- For two sets whose entries rise, are not empty and do not touch, `contains_range_set` answers
-- whether every position of the second is covered by the first.
pub contains_range_set_iff :
    (xs ys : RangeSet)
    → Apart 0 xs
    → Apart 0 ys
    → (contains_range_set xs ys ≡ true) ↔ ((v : ℕ) → member v ys ≡ true → member v xs ≡ true)
contains_range_set_iff xs ys a b = subset_iff 0 xs ys a b
