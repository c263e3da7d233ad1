-- ===== src/Bridge/Loop/Inv.antt =====
-- The invariant of the bridge's loop: what a client has been sent, whatever happened before.
use squeezebox_radio_spotify.Bridge.Headers.{Headers, is_bos, flags_of, has_serial, serial_of}
use squeezebox_radio_spotify.Bridge.Headers.Safe.{IsBounded}
use squeezebox_radio_spotify.Bridge.Http.{accept_http}
use squeezebox_radio_spotify.Bridge.Loop.{
  State, initial, poll_loading, replay, accept_client, poll_accept, Accepting, World, arrives,
  would_block, accept_failed, Flow, again, go_on, failed, finished,
}
use squeezebox_radio_spotify.Bridge.Page.{IsPage}
use squeezebox_radio_spotify.Bridge.Result.{Ensures, Result-cases, panic}
use squeezebox_radio_spotify.Prelude.{
  List, Bool, Option, arith, [], sym, ◌≡◌, ℕ, All, append-nil, some, false, none, ◌<◌, ◌⊎◌, inl,
  ◌++◌, true, flatten, drop, length, take, refl, subst, Option-cases, inr, ◌≢◌,
}

-- An audio page of the stream whose headers are `h`.
pub record IsAudio (h : Headers) (p : List ℕ) : Type 0 where
  pub page : IsPage p
  pub goes_on : is_bos (flags_of p) ≡ false
  pub same : has_serial h.serial (serial_of p) ≡ true

-- `sent` is whole audio pages behind the headers, and then `part`.
pub record Follows (h : Headers) (sent part : List ℕ) : Type 0 where
  pub pages : List (List ℕ)
  pub audio : All (IsAudio h) pages
  pub reads : sent ≡ h.bytes ++ (flatten pages ++ part)
  pub complete : (pages ≡ []) ⊎ (h.packets ≡ 3)

-- How far a client is that was sent `sent`, with the pending page and its offset.
abbrev pub Position : Headers → Bool → ℕ → Option (List ℕ) → List ℕ → Type 0
Position h is_header offset none sent = Follows h sent []
Position h true offset (some p) sent = sent ++ drop offset p ≡ h.bytes
Position h false offset (some p) sent = Follows h sent (take offset p)

-- The pending page is a header page, or an audio page of the stream at hand.
abbrev pub IsPending : Headers → Bool → List ℕ → Type 0
IsPending h true p = IsPage p
IsPending h false p = IsAudio h p × (h.packets ≡ 3)

abbrev pub PendingOk : Headers → Bool → ℕ → Bool → Option (List ℕ) → Type 0
PendingOk h is_header offset discard none = offset ≡ 0
PendingOk h is_header offset discard (some p) =
    IsPending h is_header p × (offset < length p) × (discard ≡ false)

abbrev pub ClientOk : Headers → Bool → ℕ → Option (List ℕ) → Option (List ℕ) → Type 0
ClientOk h is_header offset pending none = (offset ≡ 0) × ((is_header ≡ false) ⊎ (pending ≡ none))
ClientOk h is_header offset pending (some sent) = Position h is_header offset pending sent

pub record Inv (s : State) : Type 0 where
  pub bounded : IsBounded s.headers
  pub pending : PendingOk s.headers s.pending_header s.offset s.discard_until_bos s.pending
  pub client : ClientOk s.headers s.pending_header s.offset s.pending s.client

pub initial-Inv : Inv initial
initial-Inv = ground arith

pub poll_loading-Inv : (l : Option (List ℕ)) (s : State) → Inv s → Inv (poll_loading l s)
unfolding poll_loading
poll_loading-Inv none s v = v
poll_loading-Inv (some l) s v = ground arith

pub Follows-start : (h : Headers) → Follows h h.bytes []
Follows-start h = record {
  pages = [];
  audio = tt;
  reads = sym (append-nil h.bytes);
  complete = inl refl;
}

pub start-Position :
    (h : Headers) (is_header : Bool) (offset : ℕ) (pending : Option (List ℕ))
    → offset ≡ 0
    → (is_header ≡ false) ⊎ (pending ≡ none)
    → Position h is_header offset pending h.bytes
start-Position h is_header offset none e f = Follows-start h
start-Position h true offset (some p) e f = ground arith
start-Position h false offset (some p) e f =
    subst (λ n. Follows h h.bytes (take n p)) (sym e) (Follows-start h)

pub replay-Inv : (s : State) (a b : Bool) → s.client ≡ none → Inv s → Ensures Inv (replay s a b)
unfolding replay
replay-Inv s true true alone v =
    let (e, f) : ClientOk s.headers s.pending_header s.offset s.pending none =
      rw alone at v.client in
    record {
      bounded = v.bounded;
      pending = v.pending;
      client = start-Position s.headers s.pending_header s.offset s.pending e f;
    }
replay-Inv s true false alone v = λ e. cc
replay-Inv s false b alone v = v

pub accept_client-Inv :
    (a : Accepting) (s : State) → s.client ≡ none → Inv s → Ensures Inv (accept_client a s)
unfolding accept_client
accept_client-Inv would_block s alone v = v
accept_client-Inv accept_failed s alone v = λ e. cc
accept_client-Inv (arrives socket a b) s alone v = elim (Result-cases (accept_http socket).1) [
  | inl (x, e) ↦ rw (e, accept_client) (replay-Inv s a b alone v)
  | inr (x, e) ↦ rw (e, accept_client) v
]

pub poll_accept-Inv : (w : World) (s : State) → Inv s → Ensures Inv (poll_accept w s)
unfolding poll_accept
poll_accept-Inv w s v = elim (Option-cases s.client) [
  | inr (sent, here) ↦ simp here v
  | inl alone ↦ simp alone (accept_client-Inv w.accepting s alone v)
]

abbrev pub FlowOk : Flow → Type 0
FlowOk (again s) = Inv s
FlowOk (go_on s) = Inv s
FlowOk finished = Unit
FlowOk (failed e) = e ≢ panic
