-- ===== src/Bridge/Headers/Safe.antt =====
-- `observe` on a page that `page` returned: it does not panic, and it keeps the limits.
use squeezebox_radio_spotify.Bridge.Headers.{
  Headers, max_headers, packet_rate, finish_packet, segment, segments, collect, observe, begin,
  flags_of, serial_of, has_serial, collect_segments,
}
use squeezebox_radio_spotify.Bridge.Page.{IsPage}
use squeezebox_radio_spotify.Bridge.Page.Layout.{
  length-IsPage, slice-header, index-segments, slice-lacing, index-header,
}
use squeezebox_radio_spotify.Bridge.Result.{
  Ensures, Ensures-bind, Result, ok, err, slice, index, headers_exceed_limit, guard, without_bos,
  ◌>>◌,
}
use squeezebox_radio_spotify.Prelude.{
  ℕ, ◌+◌, ◌≤◌, ◌<◌, ◌≡◌, ap, List, length, arith, min, ◌∙◌, sum, ◌-◌, [], take, drop, ◌++◌,
  length-append, length-take, length-drop, if◌then◌else◌, ◌==◌, leb, ◌∷◌,
}

-- The limits of the header cache.
pub record IsBounded (h : Headers) : Type 0 where
  pub packets : h.packets ≤ 3
  pub prefix : length h.prefix ≤ 16
  pub bytes : length h.bytes ≤ max_headers
  pub rate : 0 < h.packets → (0 < h.rate) × (h.rate ≤ 192000)

-- What a step over the page's segments leaves alone.
pub record Keeps (h h' : Headers) : Type 0 where
  pub bounded : IsBounded h'
  pub bytes : h'.bytes ≡ h.bytes
  pub serial : h'.serial ≡ h.serial

packet_rate-le : (h : Headers) → IsBounded h → Ensures (λ n. (0 < n) × (n ≤ 192000)) (packet_rate h)
unfolding packet_rate slice
packet_rate-le h v = ground arith

finish_packet-Keeps :
    (h : Headers) → IsBounded h → h.packets < 3 → Ensures (Keeps h) (finish_packet h)
unfolding finish_packet index
finish_packet-Keeps h v lt = ground (arith, packet_rate-le h v)

pub segment-Keeps :
    (p : List ℕ) (h : Headers) (offset n : ℕ)
    → IsBounded h
    → offset + n ≤ length p
    → Ensures (Keeps h) (segment p h offset n)
unfolding segment slice
segment-Keeps p h offset n v fits =
    let k = min (16 - length h.prefix) n in
    let part = take (offset + k - offset) (drop offset p) in
    let h' = record h { prefix = h.prefix ++ part } in
    ground (
      arith,
      length-append h.prefix part,
      length-take (offset + k - offset) (drop offset p),
      length-drop offset p,
      finish_packet-Keeps h',
    )

Keeps-trans : {a b c : Headers} → Keeps a b → Keeps b c → Keeps a c
Keeps-trans v w = record {
  bounded = w.bounded;
  bytes = w.bytes ∙ v.bytes;
  serial = w.serial ∙ v.serial;
}

Ensures-Keeps :
    {a b : Headers} (r : Result Headers) → Keeps a b → Ensures (Keeps b) r → Ensures (Keeps a) r
Ensures-Keeps (ok c) v w = Keeps-trans v w
Ensures-Keeps (err e) v w = w

pub segments-Keeps :
    (p : List ℕ) (h : Headers) (offset : ℕ) (ns : List ℕ)
    → IsBounded h
    → offset + sum ns ≤ length p
    → Ensures (Keeps h) (segments p h offset ns)
unfolding segments
segments-Keeps p h offset [] v fits = ground arith
segments-Keeps p h offset (n ∷ ns) v fits =
    Ensures-bind (Keeps h) (Keeps h) (segment p h offset n) _
      (segment-Keeps p h offset n v (omega arith))
      λ h' w. Ensures-Keeps _ w (segments-Keeps p h' (offset + n) ns w.bounded (omega arith))

-- `collect` on a page, its reads done.
pub collect_page :
    {p : List ℕ} (h : Headers) (page : IsPage p)
    → collect h p ≡ (
        guard (leb (length h.bytes + length p) max_headers) headers_exceed_limit
        >> collect_segments h p page.lacing)
unfolding collect
collect_page h page = rw (index-segments page, slice-lacing page)

collect_segments-IsBounded :
    {p : List ℕ} (h : Headers) (page : IsPage p)
    → IsBounded h
    → length h.bytes + length p ≤ max_headers
    → Ensures IsBounded (collect_segments h p page.lacing)
unfolding collect_segments
collect_segments-IsBounded {p} h page v fits =
    Ensures-bind (Keeps h) IsBounded (segments p h (27 + length page.lacing) page.lacing) _
      (segments-Keeps p h (27 + length page.lacing) page.lacing v
        (omega (arith, length-IsPage page)))
      λ h' w. record {
        packets = w.bounded.packets;
        prefix = w.bounded.prefix;
        bytes = omega (arith, length-append h'.bytes p, ap length w.bytes, fits);
        rate = w.bounded.rate;
      }

collect-IsBounded :
    {p : List ℕ} (h : Headers) → IsPage p → IsBounded h → Ensures IsBounded (collect h p)
collect-IsBounded h page v =
    rw (collect_page h page) (ground (arith, collect_segments-IsBounded h page v))

-- `observe` on a page, its reads done.
pub observe_page :
    {p : List ℕ} (h : Headers)
    → IsPage p
    → let h' = begin h (flags_of p) (serial_of p) in
      observe h p ≡ (
        guard (has_serial h'.serial (serial_of p)) without_bos
        >> (if h'.packets == 3 then ok h' else collect h' p))
unfolding observe
observe_page h page =
    rw (slice-header page 14 18 (omega arith) (omega arith), index-header page 5 (omega arith))

pub begin-IsBounded : (h : Headers) (flags s : ℕ) → IsBounded h → IsBounded (begin h flags s)
begin-IsBounded h flags s v = ground arith

-- On any page that `page` returns, `observe` neither panics nor breaks a limit: at most three
-- packets, 16 bytes of the packet at hand, 65,536 bytes of headers, and a sample rate from 1 to
-- 192,000 as soon as one packet has been read.
pub observe-IsBounded :
    (h : Headers) {p : List ℕ} → IsPage p → IsBounded h → Ensures IsBounded (observe h p)
observe-IsBounded h {p} page v =
    let b : IsBounded (begin h (flags_of p) (serial_of p)) =
      begin-IsBounded h (flags_of p) (serial_of p) v in
    rw (observe_page h page)
      (ground (arith, collect-IsBounded (begin h (flags_of p) (serial_of p)) page b, b))
