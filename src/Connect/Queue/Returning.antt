-- ===== src/Connect/Queue/Returning.antt =====
-- `prev_track` after `next_track` returns to the track that was played before.
use squeezebox_radio_spotify.Connect.Context.{context_of}
use squeezebox_radio_spotify.Connect.Queue.Bounds.{prev_track-played}
use squeezebox_radio_spotify.Connect.Queue.FillUp.{fill_up_next_tracks-FilledUp}
use squeezebox_radio_spotify.Connect.Queue.Filling.{HasContext}
use squeezebox_radio_spotify.Connect.Queue.InOrder.{next_track-Plays}
use squeezebox_radio_spotify.Connect.Queue.Playing.{with_index, Ordinary, context_of-same}
use squeezebox_radio_spotify.Connect.Queue.PopLast.{pop_last-append}
use squeezebox_radio_spotify.Connect.Queue.Upcoming.{Plain}
use squeezebox_radio_spotify.Connect.State.{
  Track, ConnectState, is_context, Result, set_track, update_restrictions, ok, default_context,
  StateContext, update_current_index, ContextIndex, Player, index_track,
}
use squeezebox_radio_spotify.Connect.Tracks.{
  push_prev, go_back, play_prev, max_next, keep_next, leave_autoplay, is_delimiter, max_prev,
  pop_last, fill_up_next_tracks, is_auto_type, step_index, play_again, prev_track, set_prev,
  next_track, keep_prev,
}
use squeezebox_radio_spotify.Prelude.{
  List, ◌≡◌, none, ◌++◌, take, true, some, Bool, ◌∷◌, [], refl, if◌then◌else◌, leb, false, length,
  ap, drop, ◌∙◌, Option, Bool-cases, ◌==◌, inl, inr, ◌-◌,
}

-- The state between two tracks, on the way back.
abbrev went_back : List Track → Track → ConnectState → ConnectState
went_back prev t s = record s {
  player = record s.player {
    track = none;
    prev_tracks = prev;
    next_tracks = take max_next (t ∷ s.player.next_tracks);
  };
}

keep_next-context :
    (t : Track) (next : List Track) → is_context t ≡ true → keep_next (some t) next ≡ t ∷ next
keep_next-context t next h = rw h refl

go_back-went_back :
    (s : ConnectState) (t last : Track) (front : List Track)
    → s.player.track ≡ some t
    → is_context t ≡ true
    → s.player.prev_tracks ≡ front ++ last ∷ []
    → is_delimiter last ≡ false
    → go_back s ≡ went_back (front ++ last ∷ []) t s
unfolding go_back
go_back-went_back s t last front e h p d =
    let popped : pop_last s.player.prev_tracks ≡ some (last, front) =
      ap pop_last p ∙ pop_last-append front last in
    rw (e, go_back) (rw h (rw popped (rw d (rw p refl))))

-- What `prev_track` leaves.
pub record Returns (s : ConnectState) (t last : Track) (front : List Track)
    (r : Result Bool × ConnectState) : Type 0 where
  pub result : r.0 ≡ ok true
  pub current : r.1.player.track ≡ some last
  pub prev : r.1.player.prev_tracks ≡ front
  pub added : List Track
  pub next : r.1.player.next_tracks ≡ t ∷ take 79 s.player.next_tracks ++ added

leave_autoplay-default :
    (t : Track) (s : ConnectState) → s.active_context ≡ default_context → leave_autoplay t s ≡ s
unfolding leave_autoplay
leave_autoplay-default t s a = rw (ap is_auto_type a, leave_autoplay) refl

step_index-with_index :
    (s : ConnectState) → (i : Option ContextIndex) × (step_index s ≡ with_index i s)
unfolding step_index update_current_index
step_index-with_index s = elim (Bool-cases (index_track s.player.index == 0)) [
  | inl first ↦ (s.player.index, rw (first, step_index) refl)
  | inr later ↦ (
    (update_current_index (index_track s.player.index - 1) s).player.index,
    rw (later, step_index) refl,
  )
]

-- The player's part of the state that `play_again` leaves.
abbrev again : Track → Option ContextIndex → ConnectState → ConnectState
again t i u = update_restrictions (with_index i (set_track t u))

play_again-again :
    (t : Track) (s u : ConnectState)
    → fill_up_next_tracks s ≡ (ok tt, u)
    → (i : Option ContextIndex) × (play_again t s ≡ (ok true, again t i u))
unfolding play_again
play_again-again t s u f =
    let (i, e) = step_index-with_index (set_track t u) in (i, rw (f, play_again) (rw e refl))

play_prev-Returns :
    (s u : ConnectState) (t last : Track) (front : List Track)
    → u.player.next_tracks ≡ t ∷ take 79 s.player.next_tracks
    → u.player.prev_tracks ≡ front
    → u.active_context ≡ default_context
    → HasContext u
    → Returns s t last front (play_prev last u)
unfolding play_prev set_track update_restrictions
play_prev-Returns s u t last front n p a c =
    let (result, filled) = fill_up_next_tracks-FilledUp u c in
    let v = (fill_up_next_tracks u).1 in
    let whole : fill_up_next_tracks u ≡ (ok tt, v) = λ i. (result i, v) in
    let (i, e) = play_again-again last u v whole in
    rw (ap (play_again last) (leave_autoplay-default last u a) ∙ e) (record {
      result = refl;
      current = refl;
      prev = ap (λ (q : Player). q.prev_tracks) filled.player ∙ p;
      added = filled.added;
      next = filled.next ∙ ap (λ ts. ts ++ filled.added) n;
    })

prev_track-Returns :
    (s : ConnectState) (t last : Track) (front : List Track)
    → s.player.track ≡ some t
    → is_context t ≡ true
    → s.player.prev_tracks ≡ front ++ last ∷ []
    → is_delimiter last ≡ false
    → s.active_context ≡ default_context
    → HasContext s
    → Returns s t last front (prev_track s)
prev_track-Returns s t last front e h p d a (c, f) =
    let back = go_back-went_back s t last front e h p d in
    rw
      (prev_track-played last s front (ap (λ (u : ConnectState). u.player.prev_tracks) back)
        ∙ ap (λ u. play_prev last (set_prev front u)) back)
      (play_prev-Returns s (set_prev front (went_back (front ++ last ∷ []) t s)) t last front refl
        refl a
        (
          c,
          context_of-same s (set_prev front (went_back (front ++ last ∷ []) t s)) s.fill_up_context
                refl refl
              ∙ f,
        ))

-- In a session that plays one context to its end, with a track of the context as the current one,
-- `prev_track` after `next_track` makes it the current one again, if the next one is an ordinary
-- track of the context too. That one is the first of the next tracks again, and the previous tracks
-- are as before, but for the first of ten.
pub prev_track-next_track :
    (s : ConnectState) (c : StateContext) (last t : Track) (ts : List Track)
    → Plain s c
    → s.active_context ≡ default_context
    → s.player.track ≡ some last
    → is_context last ≡ true
    → is_delimiter last ≡ false
    → s.player.next_tracks ≡ t ∷ ts
    → Ordinary t
    → is_context t ≡ true
    → let (result, s') = prev_track (next_track s).1 in
      (result ≡ ok true)
      × (s'.player.track ≡ some last)
      × ((rest : List Track) × (s'.player.next_tracks ≡ t ∷ rest))
      × (s'.player.prev_tracks ≡ (
          if leb max_prev (length s.player.prev_tracks)
          then drop 1 s.player.prev_tracks
          else s.player.prev_tracks))
unfolding push_prev
prev_track-next_track s c last t ts plain a e h d n ord k =
    let p = next_track-Plays s c t ts plain n ord in
    let prev = s.player.prev_tracks in
    let front = if leb max_prev (length prev) then drop 1 prev else prev in
    let kept : keep_prev s.player.track prev ≡ push_prev prev last =
      ap (λ o. keep_prev o prev) e ∙ rw h refl in
    let r =
      prev_track-Returns (next_track s).1 t last front p.current k (p.prev ∙ kept) d (p.active ∙ a)
        (p.context, ap (λ ty. context_of ty (next_track s).1) p.plain.fill_up ∙ p.plain.context) in
    (r.result, r.current, (take 79 (next_track s).1.player.next_tracks ++ r.added, r.next), r.prev)
