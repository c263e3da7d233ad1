-- ===== src/Ranges/Intersecting.antt =====
-- `intersection` keeps the positions that both sets cover.
use squeezebox_radio_spotify.Prelude.{
  ℕ, ◌<◌, ◌≡◌, arith, ◌∷◌, ◌≤◌, ◌||◌, Bool-cases, ◌+◌, leb, ◌&&◌, inl, inr, [], Bool, ◌∙◌, leb→le,
  ap, sym, refl,
}
use squeezebox_radio_spotify.Ranges.{
  RangeSet, intersect, Range, end_of, overlap, add_range, intersection,
}
use squeezebox_radio_spotify.Ranges.Adding.{add_range-member}
use squeezebox_radio_spotify.Ranges.Set.{member, Apart, in_range, member_below}

-- Whichever entry ends first is passed over: nothing is lost with it.
skip_first :
    (v lo : ℕ) (x y : Range) (xs ys : RangeSet)
    → Apart lo (y ∷ ys)
    → end_of x ≤ y.start
    → (member v (x ∷ xs) && member v (y ∷ ys)) ≡ (member v xs && member v (y ∷ ys))
skip_first v lo x y xs ys b h = ground (arith, member_below v (end_of y + 1) ys)

-- The part that two entries share.
overlap-in_range :
    (v : ℕ) (x y : Range)
    → y.start < end_of x
    → x.start < end_of y
    → in_range v (overlap x y) ≡ (in_range v x && in_range v y)
overlap-in_range v x y h k = ground arith

past_first :
    (v : ℕ) (x y : Range) (xs ys : RangeSet)
    → Apart (end_of x + 1) xs
    → Apart (end_of y + 1) ys
    → end_of x ≤ end_of y
    → (member v (x ∷ xs) && member v (y ∷ ys))
      ≡ ((in_range v x && in_range v y) || (member v xs && member v (y ∷ ys)))
past_first v x y xs ys a b h =
    ground (arith, member_below v (end_of y + 1) ys, member_below v (end_of x + 1) xs)

abbrev Intersects : RangeSet → RangeSet → RangeSet → RangeSet → Type 0
Intersects xs ys old new =
    ((v : ℕ) → member v new ≡ (member v old || (member v xs && member v ys))) × Apart 0 new

overlap_comm : (x y : Range) → overlap y x ≡ overlap x y
overlap_comm x y = ground arith

and_comm : (a b : Bool) → (a && b) ≡ (b && a)
and_comm a b = ground arith

Intersects-comm : (xs ys old new : RangeSet) → Intersects xs ys old new → Intersects ys xs old new
Intersects-comm xs ys old new (m, c) = (λ v. rw (and_comm (member v ys) (member v xs)) (m v), c)

-- The entry `x` is passed over, which lies before `y`.
module _ (lo hi : ℕ) (x y : Range) (xs ys old new : RangeSet) (a : Apart lo (x ∷ xs))
    (b : Apart hi (y ∷ ys)) where
  skips : end_of x ≤ y.start → Intersects xs (y ∷ ys) old new → Intersects (x ∷ xs) (y ∷ ys) old new
  skips h (m, c) = (λ v. m v ∙ ap (λ t. member v old || t) (sym (skip_first v hi x y xs ys b h)), c)

  -- The entry `x` is passed over, which ends first, after the shared part has been added.
  shares :
      (o : Range)
      → o ≡ overlap x y
      → y.start < end_of x
      → x.start < end_of y
      → end_of x ≤ end_of y
      → Apart 0 old
      → (Apart 0 (add_range old o) → Intersects xs (y ∷ ys) (add_range old o) new)
      → Intersects (x ∷ xs) (y ∷ ys) old new
  shares o e h k l c next =
      let (added, c') = add_range-member old o c in
      let (m, d) = next c' in
      let shared : (v : ℕ) → in_range v o ≡ (in_range v x && in_range v y) =
        λ v. ap (in_range v) e ∙ overlap-in_range v x y h k in
      (λ v. ground (arith, m v, added v, shared v, past_first v x y xs ys a.2 b.2 l), d)

intersect-Intersects :
    (lo hi : ℕ) (xs ys old : RangeSet)
    → Apart lo xs
    → Apart hi ys
    → Apart 0 old
    → Intersects xs ys old (intersect xs ys old)
unfolding intersect
intersect-Intersects lo hi [] ys old a b c = (λ v. ground arith, c)
intersect-Intersects lo hi (x ∷ xs) [] old a b c = (λ v. ground arith, c)
intersect-Intersects lo hi (x ∷ xs) (y ∷ ys) old a b c =
    elim (Bool-cases (leb (end_of x) y.start)) [
      | inl before ↦
          rw (before, intersect)
            (skips lo hi x y xs ys old _ a b (leb→le _ _ before)
              (intersect-Intersects (end_of x + 1) hi xs (y ∷ ys) old a.2 b c))
      | inr reaches ↦ elim (Bool-cases (leb (end_of y) x.start)) [
        | inl after ↦
            rw (reaches, intersect, after)
              (Intersects-comm (y ∷ ys) (x ∷ xs) old _ (
                skips hi lo y x ys xs old _ b a (leb→le _ _ after) (
                  Intersects-comm (x ∷ xs) ys old _
                    (intersect-Intersects lo (end_of y + 1) (x ∷ xs) ys old a b.2 c))))
        | inr touches ↦ elim (Bool-cases (leb (end_of x) (end_of y))) [
          | inl first ↦
              rw (reaches, intersect, touches, first)
                (shares lo hi x y xs ys old _ a b (overlap x y) refl (ground arith) (ground arith)
                  (leb→le _ _ first) c
                  (intersect-Intersects (end_of x + 1) hi xs (y ∷ ys) (add_range old (overlap x y))
                    a.2 b))
          | inr second ↦
              rw (reaches, intersect, touches, second)
                (Intersects-comm (y ∷ ys) (x ∷ xs) old _ (
                  shares hi lo y x ys xs old _ b a (overlap x y) (overlap_comm y x) (ground arith)
                    (ground arith) (ground arith) c
                    (λ d. Intersects-comm (x ∷ xs) ys (add_range old (overlap x y)) _ (
                      intersect-Intersects lo (end_of y + 1) (x ∷ xs) ys
                        (add_range old (overlap x y)) a b.2 d))))
        ]
      ]
    ]

-- `intersection` covers what both sets cover, and leaves entries that rise, are not empty and do
-- not touch.
pub intersection-member :
    (xs ys : RangeSet)
    → Apart 0 xs
    → Apart 0 ys
    → ((v : ℕ) → member v (intersection xs ys) ≡ (member v xs && member v ys))
      × Apart 0 (intersection xs ys)
intersection-member xs ys a b = intersect-Intersects 0 0 xs ys [] a b tt
