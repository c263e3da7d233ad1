-- ===== src/Bridge/Page/Layout.antt =====
-- Where the parts of an Ogg page lie in its bytes.
use squeezebox_radio_spotify.Bridge.Page.{IsPage}
use squeezebox_radio_spotify.Bridge.Result.{index, slice, ok, slice-in_range, index-in_range}
use squeezebox_radio_spotify.Prelude.{
  length, drop, sum, get_or, take, List, ℕ, ◌<◌, ◌≤◌, ◌≡◌, ◌+◌, sym, ◌++◌, arith, drop-append,
  drop-drop, ap, ◌∙◌, ◌-◌, length-append, get_or-append_left, take-append, refl,
}

module _ {p : List ℕ} (v : IsPage p) where
  pub length-IsPage : length p ≡ 27 + length v.lacing + sum v.lacing
  length-IsPage = omega (
    arith,
    ap length v.splits,
    length-append v.header (v.lacing ++ v.body),
    length-append v.lacing v.body,
    v.header_size,
    v.body_size,
  )

  -- An index into the header.
  pub index-header : (i : ℕ) → i < 27 → index p i ≡ ok (get_or p i 0)
  index-header i h = index-in_range p i (omega (arith, length-IsPage))

  pub index-segments : index p 26 ≡ ok (length v.lacing)
  index-segments =
      index-header 26 (omega arith)
      ∙ ap ok (
          ap (λ q. get_or q 26 0) v.splits
          ∙ get_or-append_left v.header (v.lacing ++ v.body) 26 0 (omega (arith, v.header_size))
          ∙ sym v.lacing_size)

  pub drop-header : drop 27 p ≡ v.lacing ++ v.body
  drop-header = rw v.splits (drop-append v.header (v.lacing ++ v.body) 27 (sym v.header_size))

  pub slice-lacing : slice p 27 (27 + length v.lacing) ≡ ok v.lacing
  slice-lacing =
      slice-in_range p 27 (27 + length v.lacing) (omega arith) (omega (arith, length-IsPage))
      ∙ ap ok
          (rw drop-header (take-append v.lacing v.body (27 + length v.lacing - 27) (omega arith)))

  pub drop-lacing : drop (27 + length v.lacing) p ≡ v.body
  drop-lacing =
      sym (drop-drop 27 (length v.lacing) p)
      ∙ rw drop-header (drop-append v.lacing v.body (length v.lacing) refl)

  -- The serial number, and the granule position.
  pub slice-header : (a b : ℕ) → a ≤ b → b ≤ 27 → slice p a b ≡ ok (take (b - a) (drop a p))
  slice-header a b h k = slice-in_range p a b h (omega (arith, length-IsPage))
