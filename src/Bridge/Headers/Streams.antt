-- ===== src/Bridge/Headers/Streams.antt =====
-- How `observe` tells the logical streams apart.
use squeezebox_radio_spotify.Bridge.Headers.{
  Headers, collect_segments, has_serial, serial_of, is_bos, flags_of, collect, observe, begin,
  segments, default,
}
use squeezebox_radio_spotify.Bridge.Headers.Safe.{
  IsBounded, begin-IsBounded, observe_page, Keeps, segments-Keeps, collect_page,
}
use squeezebox_radio_spotify.Bridge.Page.{IsPage}
use squeezebox_radio_spotify.Bridge.Page.Layout.{length-IsPage}
use squeezebox_radio_spotify.Bridge.Result.{Ensures, err, without_bos, Ensures-bind}
use squeezebox_radio_spotify.Prelude.{
  List, ℕ, ◌≡◌, ◌++◌, true, if◌then◌else◌, false, ◌+◌, ◌==◌, length, arith, ap, refl, Bool-cases,
  inl, inr,
}

-- `h'` is `h` with the bytes of `p` added.
abbrev Extends : Headers → List ℕ → Headers → Type 0
Extends h p h' = (h'.bytes ≡ h.bytes ++ p) × (h'.serial ≡ h.serial)

collect-Extends :
    {p : List ℕ} (h : Headers) → IsPage p → IsBounded h → Ensures (Extends h p) (collect h p)
unfolding collect_segments
collect-Extends {p} h page v =
    let at : ℕ = 27 + length page.lacing in
    let read : Ensures (Extends h p) (collect_segments h p page.lacing) =
      Ensures-bind (Keeps h) (Extends h p) (segments p h at page.lacing) _
        (segments-Keeps p h at page.lacing v (omega (arith, length-IsPage page)))
        λ h' w. (ap (λ b. b ++ p) w.bytes, w.serial) in
    rw (collect_page h page) (ground (arith, read))

-- After a page: a page that begins a stream starts the cache afresh, whatever it held; an audio
-- page leaves the cache as it was; any other page is added to it.
abbrev pub Reads : Headers → List ℕ → Headers → Type 0
Reads h p h' =
    (has_serial h'.serial (serial_of p) ≡ true)
    × (if is_bos (flags_of p)
        then h'.bytes ≡ p
        else if h.packets == 3
        then h' ≡ h
        else (h'.bytes ≡ h.bytes ++ p) × (h'.serial ≡ h.serial))

-- What an accepted page does to the cache.
pub observe-Reads :
    (h : Headers) {p : List ℕ} → IsPage p → IsBounded h → Ensures (Reads h p) (observe h p)
observe-Reads h {p} page v =
    let b : IsBounded (begin h (flags_of p) (serial_of p)) =
      begin-IsBounded h (flags_of p) (serial_of p) v in
    rw (observe_page h page)
      (ground (arith, collect-Extends (begin h (flags_of p) (serial_of p)) page b))

-- On a page that begins a stream `observe` does what it does on an empty cache, whatever the cache held:
-- the serial number, the bytes, the packets, the prefix and the rate start afresh, and so does a
-- refusal. Any other page is accepted only if it has the serial number of the stream at hand; it leaves
-- the cache as it was behind the three header packets, and is added to the cache before them.
pub observe-starts :
    (h : Headers) {p : List ℕ}
    → IsPage p
    → IsBounded h
    → (observe h p ≡ observe (if is_bos (flags_of p) then default else h) p)
      × Ensures (Reads h p) (observe h p)
observe-starts h {p} page v = (
  elim (Bool-cases (is_bos (flags_of p))) [
    | inl bos ↦ rw bos (rw (observe_page h page, observe_page default page) (rw bos refl))
    | inr goes ↦ rw goes refl
  ],
  observe-Reads h page v,
)

-- A page of another stream, or of none, is refused.
pub observe_foreign :
    (h : Headers) {p : List ℕ}
    → IsPage p
    → is_bos (flags_of p) ≡ false
    → has_serial h.serial (serial_of p) ≡ false
    → observe h p ≡ err without_bos
observe_foreign h page a b = rw (observe_page h page) (ground arith)
