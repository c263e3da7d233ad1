-- ===== src/Bridge/Page/Framing.antt =====
-- The framing of bridge.rs `page`: what it returns is a page, and every page is read back.
use squeezebox_radio_spotify.Bridge.Page.{
  Input, read_one, read_exact, page_from, page, IsPage, capture, page_rest,
}
use squeezebox_radio_spotify.Bridge.Result.{
  invalid_capture, ok, Ensures, Ensures-bind, Ensures-guard,
}
use squeezebox_radio_spotify.Prelude.{
  ℕ, ◌≡◌, refl, sym, ◌∙◌, Bool, Option, none, some, List, [], ◌∷◌, ◌++◌, le→leb, length, take,
  get_or, sum, bytes_eq_iff, arith, length-append, length-take, take-append, drop-append,
  append_assoc, take-append-drop, ==_iff,
}

read_exact-append :
    (n : ℕ) (xs rest : List ℕ) (broken : Bool)
    → length xs ≡ n
    → read_exact n (record { bytes = xs ++ rest; broken = broken })
      ≡ ok (xs, record { bytes = rest; broken = broken })
unfolding read_exact
read_exact-append n xs rest broken e = rw (
  le→leb n (length (xs ++ rest)) (omega (arith, length-append xs rest)),
  take-append xs rest n (sym e),
  drop-append xs rest n (sym e),
)

-- A successful `read_exact` splits the input.
abbrev Splits : ℕ → Input → List ℕ × Input → Type 0
Splits n r (xs, q) = (r.bytes ≡ xs ++ q.bytes) × (length xs ≡ n) × (q.broken ≡ r.broken)

read_exact-Splits : (n : ℕ) (r : Input) → Ensures (Splits n r) (read_exact n r)
unfolding read_exact
read_exact-Splits n r = ground (arith, take-append-drop n r.bytes, length-take n r.bytes)

module _ (b : ℕ) (tail lacing body rest : List ℕ) (broken : Bool) where
  page-parts :
      length tail ≡ 26
      → take 4 (b ∷ tail) ≡ capture
      → get_or (b ∷ tail) 4 0 ≡ 0
      → length lacing ≡ get_or (b ∷ tail) 26 0
      → length body ≡ sum lacing
      → page (record { bytes = b ∷ (tail ++ (lacing ++ (body ++ rest))); broken = broken })
        ≡ ok (some ((b ∷ tail) ++ (lacing ++ body)), record { bytes = rest; broken = broken })
  unfolding page read_one page_from page_rest
  page-parts ht hc hv hl hb = rw (
    read_exact-append 26 tail (lacing ++ (body ++ rest)) broken ht,
    (bytes_eq_iff (take 4 (b ∷ tail)) capture).1 hc,
    (==_iff (get_or (b ∷ tail) 4 0) 0).1 hv,
    read_exact-append (get_or (b ∷ tail) 26 0) lacing (body ++ rest) broken hl,
    read_exact-append (sum lacing) body rest broken hb,
  )

-- Every page is read back, whatever follows it.
pub page-append :
    {p : List ℕ} (rest : List ℕ) (broken : Bool)
    → IsPage p
    → page (record { bytes = p ++ rest; broken = broken })
      ≡ ok (some p, record { bytes = rest; broken = broken })
page-append {p} rest broken v =
    go v.header v.header_size v.captured v.version v.lacing_size v.splits
  where
    go :
        (h : List ℕ)
        → length h ≡ 27
        → take 4 h ≡ capture
        → get_or h 4 0 ≡ 0
        → length v.lacing ≡ get_or h 26 0
        → p ≡ h ++ (v.lacing ++ v.body)
        → page (record { bytes = p ++ rest; broken = broken })
          ≡ ok (some p, record { bytes = rest; broken = broken })
    go [] hs hc hv hl e = absurd (omega arith)
    go (b ∷ tail) hs hc hv hl e =
        rw (e, append_assoc tail (v.lacing ++ v.body) rest, append_assoc v.lacing v.body rest)
          (page-parts b tail v.lacing v.body rest broken (omega arith) hc hv hl v.body_size)

-- A page, if there is one, is what stood at the front of the input.
abbrev pub Framed : Input → Option (List ℕ) × Input → Type 0
Framed r (none, q) = (r.bytes ≡ []) × (q ≡ r)
Framed r (some p, q) = IsPage p × (r.bytes ≡ p ++ q.bytes) × (q.broken ≡ r.broken)

page_rest-Framed :
    (h : List ℕ) (r : Input)
    → length h ≡ 27
    → take 4 h ≡ capture
    → get_or h 4 0 ≡ 0
    → Ensures (Framed (record r { bytes = h ++ r.bytes })) (page_rest h r)
unfolding page_rest
page_rest-Framed h r size captured version =
    let P : Option (List ℕ) × Input → Type 0 = Framed (record r { bytes = h ++ r.bytes }) in
    Ensures-bind (Splits (get_or h 26 0) r) P (read_exact (get_or h 26 0) r) _
      (read_exact-Splits (get_or h 26 0) r)
      λ (lacing, r2) (s2, l2, b2).
        Ensures-bind (Splits (sum lacing) r2) P (read_exact (sum lacing) r2) _
          (read_exact-Splits (sum lacing) r2)
          λ (body, r3) (s3, l3, b3). (
            record {
              header = h;
              lacing = lacing;
              body = body;
              splits = refl;
              header_size = size;
              captured = captured;
              version = version;
              lacing_size = l2;
              body_size = l3;
            },
            rw (s2, s3) (simp append_assoc),
            b3 ∙ b2,
          )

page_from-Framed :
    (b : ℕ) (r : Input) → Ensures (Framed (record r { bytes = b ∷ r.bytes })) (page_from (b ∷ []) r)
unfolding page_from
page_from-Framed b r =
    let P : Option (List ℕ) × Input → Type 0 = Framed (record r { bytes = b ∷ r.bytes }) in
    Ensures-bind (Splits 26 r) P (read_exact 26 r) _ (read_exact-Splits 26 r)
      λ (tail, r1) (s1, l1, b1).
        Ensures-guard P _ invalid_capture (page_rest (b ∷ tail) r1) (λ e. cc)
          λ good.
            rw (s1, ← b1)
              (page_rest-Framed (b ∷ tail) r1 (omega arith)
                (ground (arith, bytes_eq_iff (take 4 (b ∷ tail)) capture)) (ground arith))

page_at-Framed :
    (bs : List ℕ) (broken : Bool)
    → Ensures
        (Framed (record { bytes = bs; broken = broken }))
        (page (record { bytes = bs; broken = broken }))
unfolding page read_one
page_at-Framed [] broken = ground arith
page_at-Framed (b ∷ bs) broken = page_from-Framed b (record { bytes = bs; broken = broken })

-- `page` does not panic. It answers `None` at the end of the input only, and whatever else it
-- returns has the layout of an Ogg page and is what stood at the front of the input.
pub page-Framed : (r : Input) → Ensures (Framed r) (page r)
page-Framed r = page_at-Framed r.bytes r.broken
