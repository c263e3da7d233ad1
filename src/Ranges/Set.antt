-- ===== src/Ranges/Set.antt =====
-- A range set as a set of byte positions, and the order of its entries.
use squeezebox_radio_spotify.Prelude.{
  ℕ, Bool, ◌∷◌, ◌≤◌, ◌<◌, leb, false, arith, ◌≡◌, ◌||◌, ◌&&◌, ◌+◌, [], ltb, refl,
}
use squeezebox_radio_spotify.Ranges.{Range, RangeSet, end_of}

abbrev pub in_range : ℕ → Range → Bool
in_range v r = leb r.start v && ltb v (end_of r)

-- The positions that the entries cover.
abbrev pub member : ℕ → RangeSet → Bool
member v [] = false
member v (x ∷ xs) = in_range v x || member v xs

-- The entries rise from `lo` on, none is empty, and no two of them touch.
abbrev pub Apart : ℕ → RangeSet → Type 0
Apart lo [] = Unit {0}
Apart lo (x ∷ xs) = (lo ≤ x.start) × (0 < x.length) × Apart (end_of x + 1) xs

pub Apart-mono : (lo hi : ℕ) (xs : RangeSet) → lo ≤ hi → Apart hi xs → Apart lo xs
Apart-mono lo hi [] h a = tt
Apart-mono lo hi (x ∷ xs) h a = (omega arith, a.1, a.2)

-- Nothing lies below the first entry.
pub member_below : (v lo : ℕ) (xs : RangeSet) → v < lo → Apart lo xs → member v xs ≡ false
member_below v lo [] h a = refl
member_below v lo (x ∷ xs) h a = ground (arith, member_below v (end_of x + 1) xs)
