-- ===== src/Ranges/Adding.antt =====
-- `add_range` adds the positions of the range, and keeps the entries apart.
use squeezebox_radio_spotify.Prelude.{
  ℕ, ◌≤◌, ◌<◌, ◌≡◌, ◌∷◌, min, ◌||◌, max, ◌-◌, arith, ◌+◌, [], refl, leb, Bool-cases, true, ltb, ◌∙◌,
  inl, inr,
}
use squeezebox_radio_spotify.Ranges.{
  merge, Range, RangeSet, end_of, insert, add_range, add_range_set, union,
}
use squeezebox_radio_spotify.Ranges.Set.{Apart, member, in_range, Apart-mono}

merge-member :
    (v : ℕ) (r : Range) (xs : RangeSet)
    → Apart r.start xs
    → member v (merge r xs) ≡ (in_range v r || member v xs)
unfolding merge
merge-member v r [] a = refl
merge-member v r (x ∷ xs) a =
    let start = min r.start x.start in
    let new : Range = record { start = start; length = max (end_of r) (end_of x) - start } in
    ground (arith, merge-member v new xs, Apart-mono start (end_of x + 1) xs)

merge-Apart :
    (lo : ℕ) (r : Range) (xs : RangeSet)
    → lo ≤ r.start
    → 0 < r.length
    → Apart r.start xs
    → Apart lo (merge r xs)
unfolding merge
merge-Apart lo r [] h pos a = (h, pos, tt)
merge-Apart lo r (x ∷ xs) h pos a =
    let start = min r.start x.start in
    let new : Range = record { start = start; length = max (end_of r) (end_of x) - start } in
    ground (arith, merge-Apart lo new xs, Apart-mono start (end_of x + 1) xs)

-- The range reaches the first entry.
module _ (r x : Range) (xs : RangeSet) (left : leb r.start (end_of x) ≡ true)
    (right : leb x.start (end_of r) ≡ true) where
  reach-member :
      (v : ℕ)
      → Apart (end_of x + 1) xs
      → member v (merge r (x ∷ xs)) ≡ (in_range v r || member v (x ∷ xs))
  unfolding merge
  reach-member v a =
      let start = min r.start x.start in
      let new : Range = record { start = start; length = max (end_of r) (end_of x) - start } in
      let both : in_range v new ≡ (in_range v r || in_range v x) = ground arith in
      rw right (
        merge-member v new xs (Apart-mono start (end_of x + 1) xs (omega arith) a)
        ∙ rw both (ground arith))

  reach-Apart :
      (lo : ℕ) → lo ≤ r.start → 0 < r.length → Apart lo (x ∷ xs) → Apart lo (merge r (x ∷ xs))
  unfolding merge
  reach-Apart lo h pos a =
      let start = min r.start x.start in
      let new : Range = record { start = start; length = max (end_of r) (end_of x) - start } in
      rw right (
        merge-Apart lo new xs (omega arith) (omega arith)
          (Apart-mono start (end_of x + 1) xs (omega arith) a.2))

insert-member :
    (v lo : ℕ) (r : Range) (xs : RangeSet)
    → Apart lo xs
    → member v (insert r xs) ≡ (in_range v r || member v xs)
unfolding insert
insert-member v lo r [] a = refl
insert-member v lo r (x ∷ xs) a = elim (Bool-cases (ltb (end_of r) x.start)) [
  | inl before ↦ rw before
  | inr reaches ↦ rw reaches (elim (Bool-cases (leb r.start (end_of x))) [
    | inl left ↦
        let right : leb x.start (end_of r) ≡ true = ground arith in
        rw (left, right) (reach-member r x xs left right v a.2)
    | inr behind ↦ rw behind (rw (insert-member v (end_of x + 1) r xs a.2) (ground arith))
  ])
]

insert-Apart :
    (lo : ℕ) (r : Range) (xs : RangeSet)
    → lo ≤ r.start
    → 0 < r.length
    → Apart lo xs
    → Apart lo (insert r xs)
unfolding insert
insert-Apart lo r [] h pos a = (h, pos, tt)
insert-Apart lo r (x ∷ xs) h pos a = elim (Bool-cases (ltb (end_of r) x.start)) [
  | inl before ↦ rw before (ground arith)
  | inr reaches ↦ rw reaches (elim (Bool-cases (leb r.start (end_of x))) [
    | inl left ↦
        let right : leb x.start (end_of r) ≡ true = ground arith in
        rw (left, right) (reach-Apart r x xs left right lo h pos a)
    | inr behind ↦ rw behind (a.0, a.1, insert-Apart (end_of x + 1) r xs (ground arith) pos a.2)
  ])
]

-- `add_range` covers what the set and the range covered, and leaves entries that rise, are not
-- empty and do not touch.
pub add_range-member :
    (xs : RangeSet) (r : Range)
    → Apart 0 xs
    → ((v : ℕ) → member v (add_range xs r) ≡ (in_range v r || member v xs))
      × Apart 0 (add_range xs r)
unfolding add_range
add_range-member xs r a =
    (λ v. ground (arith, insert-member v 0 r xs a), ground (arith, insert-Apart 0 r xs))

-- `union` covers what either set covered, and leaves entries that rise, are not empty and do not
-- touch, whatever the order of the second set's entries.
pub union-member :
    (xs ys : RangeSet)
    → Apart 0 xs
    → ((v : ℕ) → member v (union xs ys) ≡ (member v xs || member v ys)) × Apart 0 (union xs ys)
unfolding add_range_set
union-member xs [] a = (λ v. ground arith, a)
union-member xs (y ∷ ys) a =
    let (m, b) = add_range-member xs y a in
    let (n, c) = union-member (add_range xs y) ys b in (λ v. ground (arith, m v, n v), c)
