-- ===== src/Bridge/Loop/Sending.antt =====
-- A write to the client keeps the invariant of the loop.
use squeezebox_radio_spotify.Bridge.Headers.{Headers}
use squeezebox_radio_spotify.Bridge.Loop.{
  disconnect, State, send, Writing, wrote, try_again, broken, Pace, pace, write_page, wait, Config,
  write, World, stops, pace_at, granule_of, write_rest, slice, panic, ok,
}
use squeezebox_radio_spotify.Bridge.Loop.Inv.{
  Position, IsPending, Inv, PendingOk, ClientOk, Follows, Follows-start, IsAudio, FlowOk,
}
use squeezebox_radio_spotify.Bridge.Page.{IsPage}
use squeezebox_radio_spotify.Bridge.Page.Layout.{slice-header}
use squeezebox_radio_spotify.Bridge.Result.{slice-in_range}
use squeezebox_radio_spotify.Prelude.{
  List, ℕ, ◌≡◌, Bool, some, ◌+◌, arith, ◌++◌, length, take, none, drop, append_assoc, ◌∷◌,
  drop-drop, [], take-append-drop, inr, ap, true, ◌∙◌, false, take-add, take_all, subst,
  length-drop, sym, min, ◌-◌, All-concat, Bool-cases, ◌==◌, append-nil, inl, flatten-concat, ==_iff,
  refl, ◌≢◌, ◌&&◌, not,
}

disconnect-Inv : (s : State) {p : List ℕ} → s.pending ≡ some p → Inv s → Inv (disconnect s)
unfolding disconnect
disconnect-Inv s e v = ground arith

IsPending-IsPage :
    (h : Headers) (is_header : Bool) {p : List ℕ} → IsPending h is_header p → IsPage p
IsPending-IsPage h true page = page
IsPending-IsPage h false audio = audio.0.page

-- What is left of the pending page grows shorter by what was written.
module _ (h : Headers) (p sent : List ℕ) (offset n : ℕ) where
  partly-Position :
      (is_header : Bool)
      → Position h is_header offset (some p) sent
      → Position h is_header (offset + n) (some p) (sent ++ take n (drop offset p))
  partly-Position true c =
      rw
        (
          append_assoc sent (take n (drop offset p)) (drop (offset + n) p),
          ← drop-drop offset n p,
          take-append-drop n (drop offset p),
        )
        c
  partly-Position false c = record {
    pages = c.pages;
    audio = c.audio;
    reads =
        ap (λ l. l ++ take n (drop offset p)) c.reads
        ∙ rw (← take-add offset n p) (simp append_assoc);
    complete = c.complete;
  }

  wholly-Position :
      (is_header : Bool)
      → IsPending h is_header p
      → offset + n ≡ length p
      → Position h is_header offset (some p) sent
      → Position h is_header 0 none (sent ++ take n (drop offset p))
  unfolding partly-Position
  wholly-Position true page e c =
      let whole : take n (drop offset p) ≡ drop offset p =
        take_all n (drop offset p) (omega (arith, length-drop offset p)) in
      rw whole (subst (λ l. Follows h l []) (sym c) (Follows-start h))
  wholly-Position false (audio, three) e c =
      let f : Follows h (sent ++ take n (drop offset p)) (take (offset + n) p) =
        partly-Position false c in
      record {
        pages = c.pages ++ p ∷ [];
        audio = All-concat (IsAudio h) c.pages c.audio audio;
        reads =
            f.reads
            ∙ rw (take_all (offset + n) p (omega arith), append-nil, flatten-concat c.pages p);
        complete = inr three;
      }

module _ (s : State) {p : List ℕ} (held : s.pending ≡ some p) (v : Inv s) where
  held-PendingOk : PendingOk s.headers s.pending_header s.offset s.discard_until_bos (some p)
  held-PendingOk =
      subst (PendingOk s.headers s.pending_header s.offset s.discard_until_bos) held v.pending

  held-Position :
      {sent : List ℕ}
      → s.client ≡ some sent
      → Position s.headers s.pending_header s.offset (some p) sent
  held-Position {sent} here =
      subst (λ q. Position s.headers s.pending_header s.offset q sent) held
        (subst (ClientOk s.headers s.pending_header s.offset s.pending) here v.client)

pub send-Inv :
    (k : Writing) (s : State) {p sent : List ℕ}
    → s.pending ≡ some p
    → s.client ≡ some sent
    → Inv s
    → Inv (send k s p (drop s.offset p) sent)
unfolding send
send-Inv try_again s held here v = v
send-Inv broken s held here v = disconnect-Inv s held v
send-Inv (wrote k) s {p} {sent} held here v =
    let n = min k (length (drop s.offset p)) in
    let c = held-Position s held v here in
    let (page, fits, kept) = held-PendingOk s held v in
    let left = length-drop s.offset p in
    let part = partly-Position s.headers p sent s.offset n s.pending_header c in
    elim (Bool-cases (n == 0)) [
      | inl nothing ↦ rw nothing (disconnect-Inv s held v)
      | inr some_bytes ↦ rw some_bytes (elim (Bool-cases (s.offset + n == length p)) [
        | inl all ↦ rw all (record {
          bounded = v.bounded;
          pending = refl;
          client =
              wholly-Position s.headers p sent s.offset n s.pending_header page
                ((==_iff (s.offset + n) (length p)).0 all) c;
        })
        | inr more ↦ rw more (record {
          bounded = v.bounded;
          pending =
              subst (PendingOk s.headers s.pending_header (s.offset + n) s.discard_until_bos)
                (sym held) (page, ground (arith, left), kept);
          client =
              subst
                (λ q.
                  Position s.headers s.pending_header (s.offset + n) q
                    (sent ++ take n (drop s.offset p)))
                (sym held) part;
        })
      ])
    ]

-- A page that is to be written is still at hand when its time has come, with the offset inside it;
-- no index of it is out of range, and the sample rate that its time is computed with is not zero.
abbrev PaceOk : List ℕ → List ℕ → Pace → Type 0
PaceOk p sent (wait t) = Inv t
PaceOk p sent (write t) = Inv t × (t.pending ≡ some p) × (t.client ≡ some sent)
PaceOk p sent (stops e) = e ≢ panic

module _ (cfg : Config) (w : World) (s : State) (p sent : List ℕ) (held : s.pending ≡ some p)
    (here : s.client ≡ some sent) (v : Inv s) where
  pace_at-PaceOk : (gp : ℕ) → s.pending_header ≡ false → PaceOk p sent (pace_at w s gp)
  unfolding pace_at
  pace_at-PaceOk gp audio =
      let (page, fits, kept) = held-PendingOk s held v in ground (arith, v.bounded.rate)

  pending-IsPage : IsPage p
  pending-IsPage =
      let (page, fits, kept) = held-PendingOk s held v in
      IsPending-IsPage s.headers s.pending_header page

  pace-PaceOk : PaceOk p sent (pace cfg w s p)
  unfolding pace granule_of
  pace-PaceOk = elim (Bool-cases (cfg.paced && not s.pending_header && s.offset == 0)) [
    | inl timed ↦
        rw (timed, slice-header pending-IsPage 6 14 (omega arith) (omega arith))
          (pace_at-PaceOk _ (ground arith))
    | inr at_once ↦ rw at_once (v, held, here)
  ]

write_rest-FlowOk :
    (k : Writing) (s : State) {p sent : List ℕ}
    → s.pending ≡ some p
    → s.client ≡ some sent
    → Inv s
    → FlowOk (write_rest k s p sent)
unfolding write_rest
write_rest-FlowOk k s {p} held here v =
    let (page, fits, kept) = held-PendingOk s held v in
    let rest : slice p s.offset (length p) ≡ ok (drop s.offset p) =
      slice-in_range p s.offset (length p) (omega (arith, fits)) (omega arith)
      ∙ ap ok (
          take_all (length p - s.offset) (drop s.offset p)
            (omega (arith, length-drop s.offset p))) in
    rw (rest, write_rest) (send-Inv k s held here v)

pub write_page-FlowOk :
    (cfg : Config) (w : World) (s : State) {p sent : List ℕ}
    → s.pending ≡ some p
    → s.client ≡ some sent
    → Inv s
    → FlowOk (write_page cfg w s p sent)
unfolding write_page
write_page-FlowOk cfg w s {p} {sent} held here v =
    go (pace cfg w s p) refl (pace-PaceOk cfg w s p sent held here v)
  where
    go : (r : Pace) → pace cfg w s p ≡ r → PaceOk p sent r → FlowOk (write_page cfg w s p sent)
    go (wait t) e k = rw (e, write_page) k
    go (write t) e k = rw (e, write_page) (write_rest-FlowOk w.writing t k.1 k.2 k.0)
    go (stops x) e k = rw (e, write_page) k
