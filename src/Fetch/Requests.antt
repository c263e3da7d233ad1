-- ===== src/Fetch/Requests.antt =====
-- `download_range` asks for what is missing of its range, and for nothing twice.
use mathlib.Core.Bool.{true≢false}
use squeezebox_radio_spotify.Fetch.{
  spawn, download_range, Fetch, clamped, continues, at_least, missing, request, fails, ControlFlow,
  add_range, minus, breaks,
}
use squeezebox_radio_spotify.Fetch.Sound.{awaited, Sound, request-Sound, awaited-append}
use squeezebox_radio_spotify.Prelude.{
  ℕ, Bool, ◌≡◌, true, false, ◌∷◌, ◌||◌, Bool-cases, arith, inl, ◌&&◌, refl, not, inr, sym, [], ap,
  ◌∙◌, ◌≢◌,
}
use squeezebox_radio_spotify.Ranges.{RangeSet, Range}
use squeezebox_radio_spotify.Ranges.Adding.{add_range-member}
use squeezebox_radio_spotify.Ranges.Set.{member, Apart, in_range}
use squeezebox_radio_spotify.Ranges.Subtracting.{minus-member}

pub spawn_made :
    (streams : Range → Bool) (r : Range) (rs : RangeSet) (s : Fetch)
    → streams r ≡ true
    → spawn streams (r ∷ rs) s ≡ spawn streams rs (request r s)
unfolding spawn
spawn_made streams r rs s e = rw (e, spawn) refl

pub spawn_failed :
    (streams : Range → Bool) (r : Range) (rs : RangeSet) (s : Fetch)
    → streams r ≡ false
    → spawn streams (r ∷ rs) s ≡ (fails, s)
unfolding spawn
spawn_failed streams r rs s e = rw (e, spawn) refl

pub spawn-Sound :
    (file : ℕ → ℕ) (streams : Range → Bool) (rs : RangeSet) (s : Fetch)
    → Sound file s
    → Sound file (spawn streams rs s).1
unfolding spawn
spawn-Sound file streams [] s k = k
spawn-Sound file streams (r ∷ rs) s k = elim (Bool-cases (streams r)) [
  | inl made ↦
      rw (spawn_made streams r rs s made)
        (spawn-Sound file streams rs (request r s) (request-Sound file r s k))
  | inr failed ↦ rw (spawn_failed streams r rs s failed) k
]

has_failed : ControlFlow → Bool
has_failed fails = true
has_failed continues = false
has_failed breaks = false

fails_not : fails ≢ continues
unfolding has_failed
fails_not e = true≢false (ap has_failed e)

-- What the requests add: the ranges to what is requested and to what is awaited.
abbrev Adds : RangeSet → Fetch → Fetch → Type 0
Adds rs s t =
    (v : ℕ)
    → (member v t.requested ≡ (member v s.requested || member v rs))
      × (awaited v t.receivers ≡ (awaited v s.receivers || member v rs))

request-Adds : (r : Range) (s : Fetch) → Apart 0 s.requested → Adds (r ∷ []) s (request r s)
unfolding awaited
request-Adds r s a v =
    let (m, b) = add_range-member s.requested r a in
    (
      ground (arith, m v),
      ground (
        arith,
        awaited-append v s.receivers
            (record { offset = r.start; length = r.length; actual_length = 0 } ∷ []),
      ),
    )

spawn-Adds :
    (streams : Range → Bool) (rs : RangeSet) (s : Fetch)
    → Apart 0 s.requested
    → (spawn streams rs s).0 ≡ continues
    → Adds rs s (spawn streams rs s).1
unfolding spawn
spawn-Adds streams [] s a e v = (ground arith, ground arith)
spawn-Adds streams (r ∷ rs) s a e v = elim (Bool-cases (streams r)) [
  | inl made ↦
      let more = spawn_made streams r rs s made in
      let (m, b) = add_range-member s.requested r a in
      let (q, w) = request-Adds r s a v in
      let (q', w') =
        spawn-Adds streams rs (request r s) b (sym (ap (λ (p : ControlFlow × Fetch). p.0) more) ∙ e)
          v in
      rw more (ground (arith, q, q'), ground (arith, w, w'))
  | inr failed ↦ absurd (
      fails_not
        (sym (ap (λ (p : ControlFlow × Fetch). p.0) (spawn_failed streams r rs s failed)) ∙ e))
]

-- The range of a `download_range`.
abbrev pub clamped_range : ℕ → ℕ → Fetch → Range
clamped_range offset length s = record {
  start = offset;
  length = clamped offset (at_least length s) s;
}

pub missing-member :
    (r : Range) (s : Fetch) (v : ℕ)
    → Apart 0 s.downloaded
    → Apart 0 s.requested
    → member v (missing r s)
      ≡ (in_range v r && not (member v s.downloaded) && not (member v s.requested))
missing-member r s v d q =
    let (m, a) = add_range-member [] r tt in
    let (m', a') = minus-member (add_range [] r) s.downloaded a in
    let (m'', a'') = minus-member (minus (add_range [] r) s.downloaded) s.requested a' in
    ground (arith, m v, m' v, m'' v)

-- If its requests can be made, `download_range` has every byte of its range requested that is not
-- downloaded, and a receiver awaits just those bytes besides the ones awaited before that are neither
-- downloaded nor requested.
pub download_range-missing :
    (file : ℕ → ℕ) (streams : Range → Bool) (offset length v : ℕ) (s : Fetch)
    → Sound file s
    → (download_range streams offset length s).0 ≡ continues
    → let r = clamped_range offset length s in
      let t = (download_range streams offset length s).1 in
      (member v t.requested ≡ (member v s.requested || in_range v r && not (member v s.downloaded)))
      × (awaited v t.receivers ≡ (
          awaited v s.receivers
          || in_range v r && not (member v s.downloaded) && not (member v s.requested)))
unfolding download_range
download_range-missing file streams offset length v s k e =
    let r = clamped_range offset length s in
    let m = missing-member r s v k.downloaded_apart k.requested_apart in
    let (q, w) = spawn-Adds streams (missing r s) s k.requested_apart e v in
    (ground (arith, q, m), ground (arith, w, m))
