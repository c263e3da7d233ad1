-- ===== src/Tests/RangeRuns.antt =====
-- Range sets of a few entries.
use squeezebox_radio_spotify.Prelude.{ℕ, ◌∷◌, arith, ◌≡◌, [], true, ◌||◌, ◌&&◌, ◌↔◌, not}
use squeezebox_radio_spotify.Ranges.{
  RangeSet, Range, contains_range_set, add_range, subtract_range, intersection,
}
use squeezebox_radio_spotify.Ranges.Adding.{add_range-member}
use squeezebox_radio_spotify.Ranges.Intersecting.{intersection-member}
use squeezebox_radio_spotify.Ranges.Queries.{contains_range_set_iff}
use squeezebox_radio_spotify.Ranges.Set.{Apart, member, in_range}
use squeezebox_radio_spotify.Ranges.Subtracting.{subtract_range-member}

abbrev two : RangeSet
two = record { start = 0; length = 4 } ∷ record { start = 8; length = 2 } ∷ []

abbrev other_set : RangeSet
other_set = record { start = 2; length = 7 } ∷ []

abbrev middle : Range
middle = record { start = 3; length = 6 }

two-Apart : Apart 0 two
two-Apart = ground arith

other_set-Apart : Apart 0 other_set
other_set-Apart = ground arith

add_range-member_example :
    ((v : ℕ) → member v (add_range two middle) ≡ (in_range v middle || member v two))
    × Apart 0 (add_range two middle)
add_range-member_example = add_range-member two middle two-Apart

subtract_range-member_example :
    ((v : ℕ) → member v (subtract_range two middle) ≡ (member v two && not (in_range v middle)))
    × Apart 0 (subtract_range two middle)
subtract_range-member_example = subtract_range-member two middle two-Apart

intersection-member_example :
    ((v : ℕ) → member v (intersection two other_set) ≡ (member v two && member v other_set))
    × Apart 0 (intersection two other_set)
intersection-member_example = intersection-member two other_set two-Apart other_set-Apart

contains_range_set_iff_example :
    (contains_range_set two other_set ≡ true)
    ↔ ((v : ℕ) → member v other_set ≡ true → member v two ≡ true)
contains_range_set_iff_example = contains_range_set_iff two other_set two-Apart other_set-Apart
