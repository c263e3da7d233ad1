-- ===== src/Ranges.antt =====
-- native/librespot/audio/src/range_set.rs: the parts of a file that are at hand, as a list of byte
-- ranges. A range's end fits a `usize`, so addition does not wrap. A loop over the indices is a
-- recursion over the entries from the index on.
pub mod Set
pub mod Adding
pub mod Subtracting
pub mod Queries
pub mod Intersecting
use squeezebox_radio_spotify.Prelude.{
  ℕ, List, Bool, ◌∷◌, if◌then◌else◌, max, [], ◌+◌, false, ltb, true, min, ◌==◌, ◌-◌, leb, ◌&&◌,
}

pub record Range : Type 0 where
  pub start : ℕ
  pub length : ℕ

-- `Range::end`
abbrev pub end_of : Range → ℕ
end_of r = r.start + r.length

-- `RangeSet`, its `ranges`
abbrev pub RangeSet : Type 0
RangeSet = List Range

pub len : RangeSet → ℕ
len [] = 0
len (x ∷ xs) = x.length + len xs

unfoldable pub contains : RangeSet → ℕ → Bool
contains [] value = false
contains (x ∷ xs) value =
    if ltb value x.start
    then false
    else if leb x.start value && ltb value (end_of x)
    then true
    else contains xs value

unfoldable pub contained_length_from_value : RangeSet → ℕ → ℕ
contained_length_from_value [] value = 0
contained_length_from_value (x ∷ xs) value =
    if ltb value x.start
    then 0
    else if leb x.start value && ltb value (end_of x)
    then end_of x - value
    else contained_length_from_value xs value

pub contains_range_set : RangeSet → RangeSet → Bool
contains_range_set xs [] = true
contains_range_set xs (y ∷ ys) =
    if ltb (contained_length_from_value xs y.start) y.length
    then false
    else contains_range_set xs ys

-- The inner loop of `add_range`: the range swallows the entries that it reaches.
unfoldable pub merge : Range → RangeSet → RangeSet
merge r [] = r ∷ []
merge r (x ∷ xs) =
    let start = min r.start x.start in
    let swallowed =
      merge (record { start = start; length = max (end_of r) (end_of x) - start }) xs in
    if leb x.start (end_of r) then swallowed else r ∷ x ∷ xs

-- The outer loop of `add_range`.
unfoldable pub insert : Range → RangeSet → RangeSet
insert r [] = r ∷ []
insert r (x ∷ xs) =
    if ltb (end_of r) x.start
    then r ∷ x ∷ xs
    else if leb r.start (end_of x) && leb x.start (end_of r)
    then merge r (x ∷ xs)
    else x ∷ insert r xs

unfoldable pub add_range : RangeSet → Range → RangeSet
add_range xs r = if r.length == 0 then xs else insert r xs

pub add_range_set : RangeSet → RangeSet → RangeSet
add_range_set xs [] = xs
add_range_set xs (y ∷ ys) = add_range_set (add_range xs y) ys

abbrev pub union : RangeSet → RangeSet → RangeSet
union = add_range_set

-- An entry without what lies before `e`.
abbrev pub cut_front : ℕ → Range → Range
cut_front e x = record { start = e; length = x.length - (e - x.start) }

-- An entry without what lies from `s` on.
abbrev pub cut_back : ℕ → Range → Range
cut_back s x = record { start = x.start; length = s - x.start }

-- The inner loop of `subtract_range`, and the test behind it.
unfoldable pub remove_front : Range → RangeSet → RangeSet
remove_front r [] = []
remove_front r (x ∷ xs) =
    if leb (end_of x) (end_of r)
    then remove_front r xs
    else if ltb x.start (end_of r)
    then cut_front (end_of r) x ∷ xs
    else x ∷ xs

-- The outer loop of `subtract_range`.
unfoldable pub remove : Range → RangeSet → RangeSet
remove r [] = []
remove r (x ∷ xs) =
    if leb (end_of r) x.start
    then x ∷ xs
    else if leb r.start x.start && ltb x.start (end_of r)
    then remove_front r (x ∷ xs)
    else if ltb (end_of r) (end_of x)
    then cut_back r.start x ∷ cut_front (end_of r) x ∷ xs
    else (if ltb r.start (end_of x) then cut_back r.start x else x) ∷ remove r xs

unfoldable pub subtract_range : RangeSet → Range → RangeSet
subtract_range xs r = if r.length == 0 then xs else remove r xs

unfoldable pub subtract_range_set : RangeSet → RangeSet → RangeSet
subtract_range_set xs [] = xs
subtract_range_set xs (y ∷ ys) = subtract_range_set (subtract_range xs y) ys

abbrev pub minus : RangeSet → RangeSet → RangeSet
minus = subtract_range_set

abbrev pub overlap : Range → Range → Range
overlap x y =
    let start = max x.start y.start in
    record { start = start; length = min (end_of x) (end_of y) - start }

-- The loop of `intersection`, with the entries from either index on.
pub intersect : RangeSet → RangeSet → RangeSet → RangeSet
intersect [] ys result = result
intersect (x ∷ xs) [] result = result
intersect (x ∷ xs) (y ∷ ys) result = elim (leb (end_of x) y.start) [
  | true ↦ intersect xs (y ∷ ys) result
  | false ↦ elim (leb (end_of y) x.start) [
    | true ↦ intersect (x ∷ xs) ys result
    | false ↦ elim (leb (end_of x) (end_of y)) [
      | true ↦ intersect xs (y ∷ ys) (add_range result (overlap x y))
      | false ↦ intersect (x ∷ xs) ys (add_range result (overlap x y))
    ]
  ]
]

abbrev pub intersection : RangeSet → RangeSet → RangeSet
intersection xs ys = intersect xs ys []
