-- ===== src/Connect/Queue/InOrder.antt =====
-- `next_track` again and again: every upcoming track is played once, in order.
use squeezebox_radio_spotify.Connect.Queue.FillUp.{at_index}
use squeezebox_radio_spotify.Connect.Queue.Playing.{
  with_index, Ordinary, rest_of-same, end_repeat-with_options, taken, taken-Plain,
  mark_index-with_index, advance-taken,
}
use squeezebox_radio_spotify.Connect.Queue.Refilling.{
  filled_state, fill_up_next_tracks-filled_state, filled-next, filled-upcoming, filled-Plain,
  result,
}
use squeezebox_radio_spotify.Connect.Queue.Upcoming.{upcoming, Plain, rest_of}
use squeezebox_radio_spotify.Connect.State.{
  ConnectState, update_restrictions, Track, ContextIndex, set_track, StateContext, Result, ok,
  index_track, update_queue_revision, current_track, track_or_default, err,
}
use squeezebox_radio_spotify.Connect.Tracks.{
  play_next, next_track, fill_up_next_tracks, advance, keep_prev, mark_index, max_next, play_taken,
  take_next,
}
use squeezebox_radio_spotify.Prelude.{
  Option, List, ◌≡◌, ℕ, ap, some, ◌∷◌, ◌++◌, take, max, refl, length, ◌∙◌, [], suc, zero, none,
  drop, sym, arith, length-take,
}

-- What `next_track` does with the first of the next tracks.
pub record Plays (s : ConnectState) (t : Track) (ts : List Track)
    (r : Result (Option ℕ) × ConnectState) : Type 0 where
  pub index : ℕ
  pub result : r.0 ≡ ok (some index)
  pub current : r.1.player.track ≡ some t
  pub prev : r.1.player.prev_tracks ≡ keep_prev s.player.track s.player.prev_tracks
  pub next : r.1.player.next_tracks ≡ take (max max_next (length ts)) (ts ++ rest_of s s.context)
  pub upcoming_tracks : upcoming r.1 ≡ ts ++ rest_of s s.context
  pub active : r.1.active_context ≡ s.active_context
  pub context : StateContext
  pub plain : Plain r.1 context

-- What `play_next` leaves, after the filling.
abbrev played_state : Option ContextIndex → Track → ConnectState → ConnectState
played_state i t u = update_restrictions (set_track t (with_index i u))

played_state-Plain :
    (i : Option ContextIndex) (t : Track) (u : ConnectState) (c : StateContext)
    → Plain u c
    → Plain (played_state i t u) c
unfolding update_restrictions set_track
played_state-Plain i t u c plain = record {
  context = plain.context;
  fill_up = plain.fill_up;
  no_autoplay = plain.no_autoplay;
  no_repeat = plain.no_repeat;
  inside = plain.inside;
  fits = plain.fits;
}

played_state-upcoming :
    (i : Option ContextIndex) (t : Track) (u : ConnectState)
    → upcoming (played_state i t u) ≡ upcoming u
unfolding update_restrictions set_track
played_state-upcoming i t u =
    ap (λ rest. u.player.next_tracks ++ rest)
      (rest_of-same u (played_state i t u) u.context refl refl refl)

play_next-played_state :
    (t : Track) (s u : ConnectState) (i : Option ContextIndex)
    → fill_up_next_tracks s ≡ (ok tt, u)
    → mark_index t u ≡ with_index i u
    → play_next t s ≡ (ok (some (index_track i)), played_state i t u)
unfolding play_next update_restrictions set_track
play_next-played_state t s u i f m = rw (f, play_next) (rw m refl)

next_track-play_next :
    (s v : ConnectState) (t : Track) → advance s ≡ (some t, v) → next_track s ≡ play_next t v
unfolding next_track play_taken
next_track-play_next s v t e = ap play_taken e

-- In a session that plays one context to its end, `next_track` plays the first of the next tracks,
-- if it is no delimiter, available, and not of an autoplay context. The track that was played goes
-- to the previous ones, if it is of a context; the rest of what is upcoming stays upcoming, and as
-- much of it as fits is in the next tracks.
pub next_track-Plays :
    (s : ConnectState) (c : StateContext) (t : Track) (ts : List Track)
    → Plain s c
    → s.player.next_tracks ≡ t ∷ ts
    → Ordinary t
    → Plays s t ts (next_track s)
unfolding update_queue_revision update_restrictions set_track
next_track-Plays s c t ts plain e ord =
    let (o, (ended, repeats)) = end_repeat-with_options s in
    let v = taken o ts s in
    let v_Plain = taken-Plain s c o ts plain repeats in
    let u = filled_state v c v_Plain in
    let (i, marked) = mark_index-with_index t u ord.no_autoplay in
    let rest = ap (λ r. ts ++ r) (rest_of-same s v s.context refl refl refl) in
    rw
      (next_track-play_next s v t (advance-taken s t ts o e ord ended)
        ∙ play_next-played_state t v u i (fill_up_next_tracks-filled_state v c v_Plain) marked)
      (record {
        index = index_track i;
        result = refl;
        current = refl;
        prev = refl;
        next = filled-next v c v_Plain ∙ ap (take (max max_next (length ts))) rest;
        upcoming_tracks = played_state-upcoming i t u ∙ filled-upcoming v c v_Plain ∙ rest;
        active = refl;
        context = at_index (result v c v_Plain).0 c;
        plain =
            played_state-Plain i t u (at_index (result v c v_Plain).0 c) (filled-Plain v c v_Plain);
      })

unfoldable pub AllOrdinary : List Track → Type 0
AllOrdinary [] = Unit
AllOrdinary (t ∷ ts) = Ordinary t × AllOrdinary ts

-- The tracks that `next_track` plays, one call after the other.
pub played : ℕ → ConnectState → List Track
played zero s = []
played (suc n) s =
    let rest = played n (next_track s).1 in
    elim (next_track s).0 [
      | ok (some i) ↦ current_track (next_track s).1 ∷ rest
      | ok none ↦ []
      | err e ↦ []
    ]

-- The next tracks are as many of the upcoming ones as there is room for.
abbrev IsFull : ConnectState → Type 0
IsFull s = s.player.next_tracks ≡ take max_next (upcoming s)

played-head :
    (n : ℕ) (s : ConnectState) (t : Track) (ts : List Track)
    → Plays s t ts (next_track s)
    → played (suc n) s ≡ t ∷ played n (next_track s).1
unfolding played
played-head n s t ts p =
    rw (p.result, played) (ap (λ o. track_or_default o ∷ played n (next_track s).1) p.current)

played-none : (n : ℕ) (s : ConnectState) → s.player.next_tracks ≡ [] → played n s ≡ []
unfolding played next_track play_taken advance take_next
played-none zero s e = refl
played-none (suc n) s e = rw (e, played, next_track, advance, take_next) refl

played_in_order :
    (n : ℕ) (s : ConnectState) (c : StateContext) (us : List Track)
    → Plain s c
    → upcoming s ≡ us
    → s.player.next_tracks ≡ take max_next us
    → AllOrdinary us
    → played n s ≡ take n us
unfolding AllOrdinary played
played_in_order zero s c us plain e full all = refl
played_in_order (suc n) s c [] plain e full all = played-none (suc n) s full
played_in_order (suc n) s c (t ∷ us) plain e full (ord, all) =
    let ts = take 79 us in
    let p = next_track-Plays s c t ts plain full ord in
    let left : ts ++ rest_of s s.context ≡ us =
      ap (drop 1) (ap (λ next. next ++ rest_of s s.context) (sym full) ∙ e) in
    let room : max max_next (length ts) ≡ max_next = omega (arith, length-take 79 us) in
    played-head n s t ts p
    ∙ ap (λ ps. t ∷ ps)
        (played_in_order n (next_track s).1 p.context us p.plain (p.upcoming_tracks ∙ left)
          (p.next ∙ ap (λ k. take k (ts ++ rest_of s s.context)) room ∙ ap (take max_next) left)
          all)

-- In a session that plays one context to its end, with the next tracks filled up, calls of
-- `next_track` play the upcoming tracks (the next tracks, and then the rest of the context without
-- its unavailable tracks), each of them once and in order, if none of them is a delimiter, an
-- unavailable track or one of an autoplay context.
pub played-upcoming :
    (n : ℕ) (s : ConnectState) (c : StateContext)
    → Plain s c
    → IsFull s
    → AllOrdinary (upcoming s)
    → played n s ≡ take n (upcoming s)
played-upcoming n s c plain full all = played_in_order n s c (upcoming s) plain refl full all
