-- ===== src/Bridge/Loop/Arrival.antt =====
-- A page that arrives keeps the invariant of the loop.
use squeezebox_radio_spotify.Bridge.Headers.{
  Headers, is_bos, has_serial, flags_of, serial_of, observe,
}
use squeezebox_radio_spotify.Bridge.Headers.Safe.{IsBounded, observe-IsBounded}
use squeezebox_radio_spotify.Bridge.Headers.Streams.{Reads, observe-Reads}
use squeezebox_radio_spotify.Bridge.Loop.{
  State, announce, hold, arrive, take_page, Config, World, flow_of, begin_stream,
}
use squeezebox_radio_spotify.Bridge.Loop.Inv.{
  Inv, IsPending, Position, FlowOk, Follows, ClientOk, PendingOk,
}
use squeezebox_radio_spotify.Bridge.Marker.{write_marker}
use squeezebox_radio_spotify.Bridge.Page.{IsPage}
use squeezebox_radio_spotify.Bridge.Page.Layout.{length-IsPage, index-header}
use squeezebox_radio_spotify.Bridge.Result.{Result, Ensures, ok, err, Ensures-bind, Ensures-both}
use squeezebox_radio_spotify.Prelude.{
  Bool, ℕ, Option, some, false, length, none, true, not, ltb, List, ◌≡◌, ◌<◌, subst, [], ◌++◌,
  arith, inl, ◌&&◌, sym, ◌∙◌, inr, append-nil, ap, if◌then◌else◌, ◌||◌, ◌==◌, refl, Bool-cases,
  ltb→lt, ==_iff,
}

-- A page that is about to be held: what the cache and the client know of it.
abbrev Reached : Headers → Bool → List ℕ → Option (List ℕ) → Type 0
Reached h is_header p none = Unit {0}
Reached h true p (some sent) = sent ++ p ≡ h.bytes
Reached h false p (some sent) = Follows h sent []

record Ready (p : List ℕ) (is_header : Bool) (t : State) : Type 0 where
  bounded : IsBounded t.headers
  page : IsPending t.headers is_header p
  long : 0 < length p
  free : t.pending ≡ none
  start : t.offset ≡ 0
  keeps : t.discard_until_bos ≡ false
  client : Reached t.headers is_header p t.client

announce-Ready :
    (cfg : Config) (w : World) (had : Bool) (p : List ℕ) (is_header : Bool) (t : State)
    → Ready p is_header t
    → Ensures (Ready p is_header) (announce cfg w had t)
unfolding announce write_marker
announce-Ready cfg w had p is_header t r = ground arith

Reached-Position :
    (h : Headers) (is_header : Bool) (p sent : List ℕ)
    → Reached h is_header p (some sent)
    → Position h is_header 0 (some p) sent
Reached-Position h true p sent r = r
Reached-Position h false p sent r = r

hold_at :
    (p : List ℕ) (is_header : Bool) (t : State) (client : Option (List ℕ))
    → t.client ≡ client
    → Ready p is_header t
    → Inv (hold t p is_header)
unfolding hold
hold_at p is_header t (some sent) e r = simp e (record {
  bounded = r.bounded;
  pending = (r.page, r.long, r.keeps);
  client =
      Reached-Position t.headers is_header p sent
        (subst (Reached t.headers is_header p) e r.client);
})
hold_at p false t none e r =
    simp e (record {
      bounded = r.bounded;
      pending = (r.page, r.long, r.keeps);
      client = (refl, inl refl);
    })
hold_at p true t none e r = simp e (record {
  bounded = r.bounded;
  pending =
      subst (PendingOk t.headers t.pending_header t.offset t.discard_until_bos) (sym r.free)
        r.start;
  client =
      subst (ClientOk t.headers t.pending_header t.offset t.pending) (sym e) (r.start, inr r.free);
})

length-IsPage_pos : {p : List ℕ} → IsPage p → 0 < length p
length-IsPage_pos v = omega (arith, length-IsPage v)

-- Between two pages a client has been sent the headers and whole pages.
between :
    (s : State) (client : Option (List ℕ))
    → s.pending ≡ none
    → ClientOk s.headers s.pending_header s.offset s.pending client
    → Reached s.headers false [] client
between s none free c = tt
between s (some sent) free c =
    subst (λ q. Position s.headers s.pending_header s.offset q sent) free c

-- While the headers are incomplete no audio has been sent.
header-Reached :
    (g h : Headers) (p : List ℕ) (client : Option (List ℕ))
    → g.packets < 3
    → h.bytes ≡ g.bytes ++ p
    → Reached g false [] client
    → Reached h true p client
header-Reached g h p none lt e c = tt
header-Reached g h p (some sent) lt e c = elim c.complete [
  | inl none_yet ↦
      let same : sent ≡ g.bytes = c.reads ∙ rw none_yet (append-nil g.bytes) in rw (same, e)
  | inr done ↦ absurd (omega arith)
]

audio-Reached :
    (h : Headers) (p : List ℕ) (client : Option (List ℕ))
    → Reached h false [] client
    → Reached h false p client
audio-Reached h p none c = tt
audio-Reached h p (some sent) c = c

module _ (p : List ℕ) (s : State) (h : Headers) (page : IsPage p) (b : IsBounded h)
    (free : s.pending ≡ none) (v : Inv s) where
  idle_offset : s.offset ≡ 0
  idle_offset =
      subst (PendingOk s.headers s.pending_header s.offset s.discard_until_bos) free v.pending

  bos-Ready :
      is_bos (flags_of p) ≡ true → Ready p true (record (begin_stream s true) { headers = h })
  bos-Ready bos = record {
    bounded = b;
    page = page;
    long = length-IsPage_pos page;
    free = refl;
    start = idle_offset;
    keeps = refl;
    client = tt;
  }

  header-Ready :
      s.discard_until_bos ≡ false
      → s.headers.packets < 3
      → h.bytes ≡ s.headers.bytes ++ p
      → Ready p true (record s { headers = h })
  header-Ready kept lt e = record {
    bounded = b;
    page = page;
    long = length-IsPage_pos page;
    free = free;
    start = idle_offset;
    keeps = kept;
    client = header-Reached s.headers h p s.client lt e (between s s.client free v.client);
  }

  audio-Ready :
      s.discard_until_bos ≡ false
      → s.headers.packets ≡ 3
      → h ≡ s.headers
      → is_bos (flags_of p) ≡ false
      → has_serial h.serial (serial_of p) ≡ true
      → Ready p false (record s { headers = h })
  audio-Ready kept three e goes same = record {
    bounded = b;
    page = (
      record { page = page; goes_on = goes; same = same },
      ap (λ (g : Headers). g.packets) e ∙ three,
    );
    long = length-IsPage_pos page;
    free = free;
    start = idle_offset;
    keeps = kept;
    client =
        audio-Reached h p s.client
          (subst (λ g. Reached g false [] s.client) (sym e) (between s s.client free v.client));
  }

  -- The page goes on with the stream at hand.
  continues :
      has_serial h.serial (serial_of p) ≡ true
      → (if s.headers.packets == 3
          then h ≡ s.headers
          else (h.bytes ≡ s.headers.bytes ++ p) × (h.serial ≡ s.headers.serial))
      → s.discard_until_bos ≡ false
      → is_bos (flags_of p) ≡ false
      → Ready p (ltb s.headers.packets 3) (record s { headers = h })
  continues same reads kept goes = elim (Bool-cases (ltb s.headers.packets 3)) [
    | inl lt ↦
        let ne : (s.headers.packets == 3) ≡ false = ground arith in
        rw lt (header-Ready kept (ltb→lt _ 3 lt) (rw ne at reads).0)
    | inr ge ↦
        let three : s.headers.packets ≡ 3 = ground (arith, v.bounded.packets) in
        rw ge
          (audio-Ready kept three (rw ((==_iff s.headers.packets 3).1 three) at reads) goes same)
  ]

  -- `observe` has accepted the page.
  observe-Ready :
      Reads s.headers p h
      → (s.discard_until_bos && not (is_bos (flags_of p))) ≡ false
      → Ready p
          (is_bos (flags_of p) || ltb s.headers.packets 3)
          (record (begin_stream s (is_bos (flags_of p))) { headers = h })
  observe-Ready (same, reads) kept = elim (Bool-cases (is_bos (flags_of p))) [
    | inl bos ↦ rw bos (bos-Ready bos)
    | inr goes ↦ rw goes (continues same (rw goes at reads) (ground arith) goes)
  ]

announce_arrive :
    (cfg : Config) (w : World) (s : State) {p : List ℕ}
    → IsPage p
    → s.pending ≡ none
    → (s.discard_until_bos && not (is_bos (flags_of p))) ≡ false
    → Inv s
    → Ensures Inv (arrive cfg w s (flags_of p) p)
unfolding arrive
announce_arrive cfg w s {p} page free kept v =
    let bos = is_bos (flags_of p) in
    let is_header = bos || ltb s.headers.packets 3 in
    let Q : Headers → Type 0 = λ h. Reads s.headers p h × IsBounded h in
    Ensures-bind Q Inv (observe s.headers p) _
      (Ensures-both (Reads s.headers p) IsBounded _ (observe-Reads s.headers page v.bounded)
        (observe-IsBounded s.headers page v.bounded))
      λ h (reads, b).
        Ensures-bind (Ready p is_header) Inv
          (announce cfg w (s.headers.packets == 3) (record (begin_stream s bos) { headers = h })) _
          (announce-Ready cfg w (s.headers.packets == 3) p is_header _
            (observe-Ready p s h page b free v reads kept))
          λ t r. hold_at p is_header t t.client refl r

flow_of-FlowOk : (r : Result State) → Ensures Inv r → FlowOk (flow_of r)
flow_of-FlowOk (ok s) v = v
flow_of-FlowOk (err e) v = v

pub take_page-FlowOk :
    (cfg : Config) (w : World) (s : State) {p : List ℕ}
    → IsPage p
    → s.pending ≡ none
    → Inv s
    → FlowOk (take_page cfg w s p)
unfolding take_page
take_page-FlowOk cfg w s {p} page free v =
    rw (index-header page 5 (omega arith), take_page)
      (elim (Bool-cases (s.discard_until_bos && not (is_bos (flags_of p)))) [
        | inl dropped ↦ rw dropped v
        | inr kept ↦ rw kept (
            flow_of-FlowOk (arrive cfg w s (flags_of p) p)
              (announce_arrive cfg w s page free kept v))
      ])
