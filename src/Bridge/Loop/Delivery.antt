-- ===== src/Bridge/Loop/Delivery.antt =====
-- What a client of the bridge is sent, after any passes of the loop.
use squeezebox_radio_spotify.Bridge.Loop.{
  Receiving, Config, write_pending, Flow, serve, step, item, World, State, initial, fault, flow_on,
  again, receive, go_on, poll_accept, failed, poll_loading, ended, finished, timeout, is_some,
  Input, Result, produced, ok, err,
}
use squeezebox_radio_spotify.Bridge.Loop.Arrival.{take_page-FlowOk}
use squeezebox_radio_spotify.Bridge.Loop.Inv.{
  FlowOk, Inv, initial-Inv, poll_accept-Inv, poll_loading-Inv,
}
use squeezebox_radio_spotify.Bridge.Loop.Sending.{write_page-FlowOk}
use squeezebox_radio_spotify.Bridge.Page.{IsPage, page}
use squeezebox_radio_spotify.Bridge.Page.Framing.{Framed, page-Framed}
use squeezebox_radio_spotify.Bridge.Result.{Result-cases, panic, Ensures-eq-ok, Ensures}
use squeezebox_radio_spotify.Prelude.{
  some, none, ◌≡◌, Option, List, ◌≢◌, subst, ℕ, inl, refl, inr, if◌then◌else◌, Option-cases,
  Bool-cases, ◌&&◌, not,
}

-- A page, or an error that is no panic.
abbrev pub FromPipe : Receiving → Type 0
FromPipe (item p) = IsPage p
FromPipe (fault e) = e ≢ panic
FromPipe _ = Unit

Framed-FromPipe :
    (r : Input) (q : Result (Option (List ℕ) × Input))
    → Ensures (Framed r) q
    → FromPipe (produced q)
Framed-FromPipe r (ok (none, rest)) h = tt
Framed-FromPipe r (ok (some p, rest)) h = h.0
Framed-FromPipe r (err e) h = h

-- What the producer's thread sends of a pipe.
page-FromPipe : (r : Input) → FromPipe (produced (page r))
page-FromPipe r = Framed-FromPipe r (page r) (page-Framed r)

receive-FlowOk :
    (cfg : Config) (w : World) (s : State) (r : Receiving)
    → FromPipe r
    → s.pending ≡ none
    → Inv s
    → FlowOk (receive cfg w s r)
unfolding receive
receive-FlowOk cfg w s (item p) from free v = take_page-FlowOk cfg w s from free v
receive-FlowOk cfg w s ended from free v = tt
receive-FlowOk cfg w s (fault e) from free v = from
receive-FlowOk cfg w s timeout from free v = v

write_pending-FlowOk :
    (cfg : Config) (w : World) (s : State) (pending client : Option (List ℕ))
    → s.pending ≡ pending
    → s.client ≡ client
    → Inv s
    → FlowOk (write_pending cfg w s pending client)
unfolding write_pending
write_pending-FlowOk cfg w s (some p) (some sent) held here v =
    write_page-FlowOk cfg w s held here v
write_pending-FlowOk cfg w s (some p) none held here v = v
write_pending-FlowOk cfg w s none client held here v = v

flow_on-FlowOk :
    (f : Flow) (k : State → Flow)
    → FlowOk f
    → ((s : State) → Inv s → FlowOk (k s))
    → FlowOk (flow_on f k)
flow_on-FlowOk (again s) k f g = f
flow_on-FlowOk (go_on s) k f g = g s f
flow_on-FlowOk finished k f g = tt
flow_on-FlowOk (failed e) k f g = f

serve-FlowOk :
    (cfg : Config) (w : World) (s : State) → FromPipe w.receiving → Inv s → FlowOk (serve cfg w s)
unfolding serve
serve-FlowOk cfg w s from v =
    let fed : FlowOk (if is_some s.pending then go_on s else receive cfg w s w.receiving) =
      elim (Option-cases s.pending) [
        | inl free ↦ simp free (receive-FlowOk cfg w s w.receiving from free v)
        | inr (p, held) ↦ simp held v
      ] in
    elim (Bool-cases (is_some s.pending && not (is_some s.client) && not s.discard_until_bos)) [
      | inl waits ↦ rw waits v
      | inr goes ↦ rw goes (
          flow_on-FlowOk _ _ fed
            (λ t u. write_pending-FlowOk cfg w t t.pending t.client refl refl u))
    ]

-- One pass of the loop.
step-FlowOk :
    (cfg : Config) (w : World) (s : State) → FromPipe w.receiving → Inv s → FlowOk (step cfg w s)
unfolding step
step-FlowOk cfg w s from v = elim (Result-cases (poll_accept w (poll_loading w.loading s))) [
  | inl (t, e) ↦
      rw (e, step)
        (serve-FlowOk cfg w t from
          (Ensures-eq-ok Inv (poll_accept-Inv w _ (poll_loading-Inv w.loading s v)) e))
  | inr (x, e) ↦
      rw (e, step) (subst (Ensures Inv) e (poll_accept-Inv w _ (poll_loading-Inv w.loading s v)))
]

-- The states that passes of the loop lead to.
pub data Reach (cfg : Config) : State → Type 0 where
  here : Reach cfg initial
  next :
      {s t : State} (w : World)
      → Reach cfg s
      → FromPipe w.receiving
      → step cfg w s ≡ again t
      → Reach cfg t

-- As long as the producer's thread sends pages, its end, or errors that are no panic, and however
-- the clients, the markers and the clock behave: the loop keeps to the limits of the header cache,
-- a pending page is a header page or an audio page of the stream at hand with the offset inside it,
-- and what a client has been sent is the headers of the stream at hand, or a part of them that is
-- still being sent, and then whole audio pages of that stream, the last one cut at the offset.
pub Reach-Inv : (cfg : Config) {s : State} → Reach cfg s → Inv s
Reach-Inv cfg here = initial-Inv
Reach-Inv cfg (next {s} {t} w r from e) =
    subst FlowOk e (step-FlowOk cfg w s from (Reach-Inv cfg r))

-- From every state that the loop reaches in this way, the next pass does not panic: it indexes no
-- page out of range and divides by no sample rate of zero. It ends the program with an error of
-- another kind or at the producer's end, or the same holds of the state that it leads to.
pub Reach-FlowOk :
    (cfg : Config) (w : World) {s : State}
    → Reach cfg s
    → FromPipe w.receiving
    → FlowOk (step cfg w s)
Reach-FlowOk cfg w {s} r from = step-FlowOk cfg w s from (Reach-Inv cfg r)
