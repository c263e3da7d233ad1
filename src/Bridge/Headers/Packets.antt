-- ===== src/Bridge/Headers/Packets.antt =====
-- The segment loop of bridge.rs `observe` against the packets of the Ogg stream: a packet is the
-- concatenation of segments up to one shorter than 255 bytes.
use squeezebox_radio_spotify.Bridge.Headers.{
  Headers, finish_packet, packet_rate, vorbis, segment, segments, collect_segments, collect,
  max_headers, is_bos, observe, flags_of, default, serial_of,
}
use squeezebox_radio_spotify.Bridge.Headers.Safe.{
  IsBounded, Keeps, segment-Keeps, segments-Keeps, collect_page, observe_page,
}
use squeezebox_radio_spotify.Bridge.Page.{IsPage}
use squeezebox_radio_spotify.Bridge.Page.Layout.{length-IsPage, drop-lacing}
use squeezebox_radio_spotify.Bridge.Result.{
  index, Ensures, slice, Ensures-both, Ensures-bind, Ensures-map, Ensures-guard,
  headers_exceed_limit,
}
use squeezebox_radio_spotify.Prelude.{
  ◌∷◌, get_or, take, length, drop, ltb, min, leb, List, ℕ, ◌≡◌, ◌++◌, ◌*◌, ◌+◌, [], if◌then◌else◌,
  ◌==◌, ◌≤◌, ◌<◌, arith, take-take, length-take, bytes_eq_iff, sum, ◌-◌, ap, ◌∙◌, take-append-take,
  Bool-cases, inl, drop-drop, inr, true, false, some, refl,
}

-- The packets that end in these segments, and the part of a packet that is left over. `partial` is
-- what earlier pages brought of the packet at hand.
pub packets_of : List ℕ → List ℕ → List ℕ → List (List ℕ) × List ℕ
packets_of partial body [] = ([], partial)
packets_of partial body (n ∷ ns) =
    let packet = partial ++ take n body in
    let (done, last) = packets_of [] (drop n body) ns in
    let longer = packets_of packet (drop n body) ns in
    if ltb n 255 then (packet ∷ done, last) else longer

-- The `k`th header packet of a Vorbis stream, from 0.
pub record IsHeader (k : ℕ) (packet : List ℕ) : Type 0 where
  pub tagged : get_or packet 0 0 ≡ 2 * k + 1
  pub signed : take 6 (drop 1 packet) ≡ vorbis
  pub long : (if k == 0 then 16 else 7) ≤ length packet

abbrev pub AreHeaders : ℕ → List (List ℕ) → Type 0
AreHeaders k [] = Unit {0}
AreHeaders k (d ∷ ds) = IsHeader k d × AreHeaders (k + 1) ds

-- `h'` has read the packets `done` since `h`, and holds the start of `last`.
abbrev pub HasRead : Headers → List (List ℕ) × List ℕ → Headers → Type 0
HasRead h (done, last) h' =
    (h'.packets ≡ h.packets + length done) × AreHeaders h.packets done × (h'.prefix ≡ take 16 last)

abbrev Finishes : Headers → List ℕ → Headers → Type 0
Finishes h packet h' = IsHeader h.packets packet × (h'.packets ≡ h.packets + 1) × (h'.prefix ≡ [])

finish_packet-Finishes :
    (h : Headers) (packet : List ℕ)
    → h.prefix ≡ take 16 packet
    → h.packets < 3
    → Ensures (Finishes h packet) (finish_packet h)
unfolding finish_packet packet_rate index slice
finish_packet-Finishes h [] e lt = ground arith
finish_packet-Finishes h (x ∷ packet) e lt = ground (
  arith,
  take-take 6 15 packet,
  length-take 15 packet,
  bytes_eq_iff (take 6 (take 15 packet)) vorbis,
)

-- One segment: the packet at hand grows, or ends.
abbrev Grows : Headers → List ℕ → ℕ → Headers → Type 0
Grows h packet n h' =
    if ltb n 255
    then Finishes h packet h'
    else ((h'.packets ≡ h.packets) × (h'.prefix ≡ take 16 packet))

segment-Grows :
    (p : List ℕ) (h : Headers) (offset n : ℕ) (partial : List ℕ)
    → IsBounded h
    → offset + n ≤ length p
    → h.prefix ≡ take 16 partial
    → Ensures (Grows h (partial ++ take n (drop offset p)) n) (segment p h offset n)
unfolding segment slice
segment-Grows p h offset n partial v fits e =
    let k = min (16 - length h.prefix) n in
    let part = take (offset + k - offset) (drop offset p) in
    let packet = partial ++ take n (drop offset p) in
    let grown : h.prefix ++ part ≡ take 16 packet =
      ap (λ j. h.prefix ++ take j (drop offset p)) {x = offset + k - offset} {y = k} (omega arith)
      ∙ rw e (take-append-take 16 n partial (drop offset p)) in
    ground (arith, grown, finish_packet-Finishes (record h { prefix = h.prefix ++ part }) packet)

HasRead-finish :
    (a b : Headers) (packet last : List ℕ) (done : List (List ℕ)) (c : Headers)
    → Finishes a packet b
    → HasRead b (done, last) c
    → HasRead a (packet ∷ done, last) c
HasRead-finish a b packet last done c (good, e, _) (n, more, l) =
    (omega arith, (good, rw e at more), l)

HasRead-grow :
    (a b : Headers) (r : List (List ℕ) × List ℕ) (c : Headers)
    → b.packets ≡ a.packets
    → HasRead b r c
    → HasRead a r c
HasRead-grow a b r c e (n, more, l) = (omega arith, rw e at more, l)

segments-HasRead :
    (p : List ℕ) (h : Headers) (offset : ℕ) (ns partial : List ℕ)
    → IsBounded h
    → offset + sum ns ≤ length p
    → h.prefix ≡ take 16 partial
    → Ensures (HasRead h (packets_of partial (drop offset p) ns)) (segments p h offset ns)
unfolding segments packets_of
segments-HasRead p h offset [] partial v fits e = (omega arith, tt, e)
segments-HasRead p h offset (n ∷ ns) partial v fits e =
    let packet = partial ++ take n (drop offset p) in
    let step : Ensures (λ h'. Keeps h h' × Grows h packet n h') (segment p h offset n) =
      Ensures-both (Keeps h) (Grows h packet n) _ (segment-Keeps p h offset n v (omega arith))
        (segment-Grows p h offset n partial v (omega arith) e) in
    elim (Bool-cases (ltb n 255)) [
      | inl short ↦ rw short (
          Ensures-bind (λ h'. Keeps h h' × Grows h packet n h') _ (segment p h offset n) _ step
            λ h' (w, grown).
              let f : Finishes h packet h' = rw short at grown in
              Ensures-map (HasRead h' (packets_of [] (drop n (drop offset p)) ns)) _ _
                (rw drop-drop
                  (segments-HasRead p h' (offset + n) ns [] w.bounded (omega arith) f.2))
                λ c. HasRead-finish h h' packet _ _ c f)
      | inr long ↦ rw long (
          Ensures-bind (λ h'. Keeps h h' × Grows h packet n h') _ (segment p h offset n) _ step
            λ h' (w, grown).
              let (same, kept) : (h'.packets ≡ h.packets) × (h'.prefix ≡ take 16 packet) =
                rw long at grown in
              Ensures-map (HasRead h' (packets_of packet (drop n (drop offset p)) ns)) _ _
                (rw drop-drop
                  (segments-HasRead p h' (offset + n) ns packet w.bounded (omega arith) kept))
                λ c. HasRead-grow h h' _ c same)
    ]

-- `collect` reads the packets that end in its page.
collect-HasRead :
    (h : Headers) {p : List ℕ} (page : IsPage p) (partial : List ℕ)
    → IsBounded h
    → h.prefix ≡ take 16 partial
    → Ensures
        (λ h'. HasRead h (packets_of partial page.body page.lacing) h' × (h'.bytes ≡ h.bytes ++ p))
        (collect h p)
unfolding collect_segments
collect-HasRead h {p} page partial v e =
    let P : Headers → Type 0 =
      λ h'. HasRead h (packets_of partial page.body page.lacing) h' × (h'.bytes ≡ h.bytes ++ p) in
    let at : ℕ = 27 + length page.lacing in
    let fits : at + sum page.lacing ≤ length p = omega (arith, length-IsPage page) in
    let Q : Headers → Type 0 =
      λ h'. Keeps h h' × HasRead h (packets_of partial (drop at p) page.lacing) h' in
    let both : Ensures Q (segments p h at page.lacing) =
      Ensures-both (Keeps h) (HasRead h (packets_of partial (drop at p) page.lacing)) _
        (segments-Keeps p h at page.lacing v fits)
        (segments-HasRead p h at page.lacing partial v fits e) in
    let done : Ensures P (collect_segments h p page.lacing) =
      Ensures-bind Q P (segments p h at page.lacing) _ both
        λ h' (w, r). (rw (drop-lacing page) at r, ap (λ b. b ++ p) w.bytes) in
    rw (collect_page h page) (
      Ensures-guard P (leb (length h.bytes + length p) max_headers) headers_exceed_limit
        (collect_segments h p page.lacing) (λ x. cc) (λ _. done))

-- After a page. A page that begins a stream is read as the first page of a cache that holds nothing;
-- behind the three header packets nothing changes.
abbrev pub Observes : Headers → List ℕ → {p : List ℕ} → IsPage p → Headers → Type 0
Observes h partial {p} page h' =
    if is_bos (flags_of p)
    then HasRead default (packets_of [] page.body page.lacing) h' × (h'.bytes ≡ p)
    else if h.packets == 3
    then h' ≡ h
    else HasRead h (packets_of partial page.body page.lacing) h' × (h'.bytes ≡ h.bytes ++ p)

fresh-IsBounded : (serial : ℕ) → IsBounded (record default { serial = some serial })
fresh-IsBounded serial = ground arith

observe_first :
    (h : Headers) {p : List ℕ} (page : IsPage p)
    → is_bos (flags_of p) ≡ true
    → Ensures
        (λ h'. HasRead default (packets_of [] page.body page.lacing) h' × (h'.bytes ≡ p))
        (observe h p)
observe_first h {p} page bos =
    let fresh : Headers = record default { serial = some (serial_of p) } in
    rw (observe_page h page)
      (rw bos (ground (arith, collect-HasRead fresh page [] (fresh-IsBounded (serial_of p)) refl)))

observe_next :
    (h : Headers) {p : List ℕ} (page : IsPage p) (partial : List ℕ)
    → IsBounded h
    → h.prefix ≡ take 16 partial
    → is_bos (flags_of p) ≡ false
    → Ensures (Observes h partial page) (observe h p)
observe_next h {p} page partial v e goes =
    rw (observe_page h page) (rw goes (ground (arith, collect-HasRead h page partial v e)))

-- Whenever `observe` accepts a page: a page that begins a stream resets the cache, whatever it held, to
-- this page and the packets that end in it. Behind the three header packets the cache stays as it was.
-- Any other page is kept behind the bytes of the pages before, and exactly the packets that end in it
-- are counted. Each packet that is counted is the Vorbis header of its place in the stream, and the
-- first 16 bytes of the packet that goes on in the next page are held. `partial` is what the pages
-- before brought of the packet at hand.
pub observe-Observes :
    (h : Headers) {p : List ℕ} (page : IsPage p) (partial : List ℕ)
    → IsBounded h
    → h.prefix ≡ take 16 partial
    → Ensures (Observes h partial page) (observe h p)
observe-Observes h {p} page partial v e = elim (Bool-cases (is_bos (flags_of p))) [
  | inl bos ↦
      Ensures-map (λ h'. HasRead default (packets_of [] page.body page.lacing) h' × (h'.bytes ≡ p))
        (Observes h partial page) (observe h p) (observe_first h page bos) (λ h' k. rw bos k)
  | inr goes ↦ observe_next h page partial v e goes
]
