-- ===== src/Connect/Queue/Bounds.antt =====
-- The queue holds at most 10 previous and 80 next tracks.
use squeezebox_radio_spotify.Connect.Context.{get_context, context_of, set_active_context}
use squeezebox_radio_spotify.Connect.Queue.FillUp.{fill_up_next_tracks-FilledUp}
use squeezebox_radio_spotify.Connect.Queue.Keeps.{Keeps, Keeps-after}
use squeezebox_radio_spotify.Connect.Queue.PopLast.{last_cases, pop_last-append}
use squeezebox_radio_spotify.Connect.State.{
  ConnectState, Track, Player, is_unavailable, set_track, update_current_index, update_restrictions,
  is_context, is_queue, is_autoplay, get_context_index, index_track,
}
use squeezebox_radio_spotify.Connect.Tracks.{
  push_prev, fill_up_next_tracks, take_next, max_prev, max_next, is_delimiter, advance, mark_index,
  play_next, next_track, keep_prev, keep_next, pop_last, go_back, leave_autoplay, step_index,
  play_prev, prev_track, move_delimiter, is_auto_type, set_prev, play_taken, play_again,
}
use squeezebox_radio_spotify.Prelude.{
  length, List, ◌≤◌, Option-cases, Bool-cases, leb, inl, arith, inr, length-append, drop, subst,
  ◌∷◌, [], sym, length-drop, leb→le, Option, some, ◌||◌, none, suc, length-take, ◌&&◌, ◌==◌, ◌≡◌,
  ap, ◌++◌, ◌∙◌, refl,
}

abbrev pub Bounded : ConnectState → Type 0
Bounded s = (length s.player.prev_tracks ≤ max_prev) × (length s.player.next_tracks ≤ max_next)

length-push_prev :
    (prev : List Track) (t : Track) → length prev ≤ max_prev → length (push_prev prev t) ≤ max_prev
unfolding push_prev
length-push_prev prev t h = elim (Bool-cases (leb max_prev (length prev))) [
  | inl full ↦ rw full (
      omega (
        arith,
        length-append (drop 1 prev) (t ∷ []),
        length-drop 1 prev,
        leb→le max_prev (length prev) full,
      ))
  | inr room ↦ rw room (ground (arith, length-append prev (t ∷ [])))
]

pub fill_up_next_tracks-Bounded : Keeps Bounded fill_up_next_tracks
unfolding fill_up_next_tracks get_context
fill_up_next_tracks-Bounded s (p, n) = elim (Option-cases (context_of s.fill_up_context s)) [
  | inl none_e ↦ rw (none_e, fill_up_next_tracks, get_context) (p, n)
  | inr (c, some_e) ↦
      let filled = (fill_up_next_tracks-FilledUp s (c, some_e)).1 in
      (
        subst (λ (q : Player). length q.prev_tracks ≤ max_prev) (sym filled.player) p,
        omega (arith, filled.bounded),
      )
]

-- The lists that `next_track` leaves.
take_next-Bounded :
    (prev next : List Track)
    → length prev ≤ max_prev
    → (length (take_next prev next).1 ≤ max_prev) × (length (take_next prev next).2 ≤ length next)
unfolding take_next
take_next-Bounded prev [] h = (h, omega arith)
take_next-Bounded prev (t ∷ next) h = elim (Bool-cases (is_delimiter t)) [
  | inl delimiter ↦
      let (p, n) = take_next-Bounded (push_prev prev t) next (length-push_prev prev t h) in
      rw (delimiter, take_next) (p, omega arith)
  | inr other ↦ elim (Bool-cases (is_unavailable t)) [
    | inl gone ↦
        let (p, n) = take_next-Bounded prev next h in
        rw (other, take_next) (rw gone (p, omega arith))
    | inr there ↦ rw (other, take_next) (rw there (h, omega arith))
  ]
]

keep_prev-Bounded :
    (t : Option Track) (prev : List Track)
    → length prev ≤ max_prev
    → length (keep_prev t prev) ≤ max_prev
keep_prev-Bounded none prev h = h
keep_prev-Bounded (some t) prev h = elim (Bool-cases (is_context t || is_autoplay t)) [
  | inl kept ↦ rw kept (length-push_prev prev t h)
  | inr not_kept ↦ rw not_kept h
]

advance-Bounded : (s : ConnectState) → Bounded s → Bounded (advance s).1
unfolding advance
advance-Bounded s (p, n) =
    let (p', n') =
      take_next-Bounded (keep_prev s.player.track s.player.prev_tracks) s.player.next_tracks
        (keep_prev-Bounded s.player.track s.player.prev_tracks p) in
    (p', omega arith)

mark_index-Bounded : (t : Track) (s : ConnectState) → Bounded s → Bounded (mark_index t s)
unfolding mark_index set_active_context update_current_index
mark_index-Bounded t s b = elim (Bool-cases (is_queue t)) [
  | inl queued ↦ rw (queued, mark_index) b
  | inr other ↦ elim (Bool-cases (is_autoplay t)) [
    | inl auto ↦ rw (other, mark_index) (rw auto b)
    | inr context ↦ elim (Option-cases (get_context_index t)) [
      | inl none_e ↦ rw (other, mark_index) (rw context (rw none_e b))
      | inr (i, some_e) ↦ rw (other, mark_index) (rw context (rw some_e b))
    ]
  ]
]

play_next-Bounded : (t : Track) → Keeps Bounded (play_next t)
unfolding play_next set_track update_restrictions
play_next-Bounded t s b =
    Keeps-after Bounded (fill_up_next_tracks s) _ (fill_up_next_tracks-Bounded s b)
      λ _ u c. mark_index-Bounded t u c

play_taken-Bounded :
    (t : Option Track) (s : ConnectState) → Bounded s → Bounded (play_taken (t, s)).1
unfolding play_taken
play_taken-Bounded none s b = b
play_taken-Bounded (some t) s b = play_next-Bounded t s b

pub next_track-Bounded : Keeps Bounded next_track
unfolding next_track
next_track-Bounded s b = play_taken-Bounded (advance s).0 (advance s).1 (advance-Bounded s b)

length-keep_next :
    (t : Option Track) (next : List Track) → length (keep_next t next) ≤ suc (length next)
length-keep_next none next = omega arith
length-keep_next (some t) next = elim (Bool-cases (is_context t || is_autoplay t)) [
  | inl kept ↦ rw kept (omega arith)
  | inr not_kept ↦ rw not_kept (omega arith)
]

move_delimiter-prev :
    (prev next : List Track) → length (move_delimiter (pop_last prev) prev next).0 ≤ length prev
unfolding pop_last
move_delimiter-prev prev next = elim (last_cases prev) [
  | inl empty ↦ rw empty (omega arith)
  | inr (front, t, e) ↦ rw e (
      rw (pop_last-append front t) (elim (Bool-cases (is_delimiter t)) [
        | inl delimiter ↦ rw delimiter (omega (arith, length-append front (t ∷ [])))
        | inr other ↦ rw other (omega arith)
      ]))
]

go_back-Bounded : (s : ConnectState) → Bounded s → Bounded (go_back s)
unfolding go_back
go_back-Bounded s (p, n) =
    let next = keep_next s.player.track s.player.next_tracks in
    let prev = s.player.prev_tracks in
    (
      omega (arith, move_delimiter-prev prev next),
      omega (arith, length-take max_next (move_delimiter (pop_last prev) prev next).1),
    )

leave_autoplay-Bounded : (t : Track) (s : ConnectState) → Bounded s → Bounded (leave_autoplay t s)
unfolding leave_autoplay set_active_context
leave_autoplay-Bounded t s b = elim (Bool-cases (is_auto_type s.active_context && is_context t)) [
  | inl left ↦ rw (left, leave_autoplay) b
  | inr stays ↦ rw (stays, leave_autoplay) b
]

step_index-Bounded : (s : ConnectState) → Bounded s → Bounded (step_index s)
unfolding step_index update_current_index
step_index-Bounded s b = elim (Bool-cases (index_track s.player.index == 0)) [
  | inl first ↦ rw (first, step_index) b
  | inr later ↦ rw (later, step_index) b
]

play_prev-Bounded : (t : Track) → Keeps Bounded (play_prev t)
unfolding play_prev play_again set_track update_restrictions
play_prev-Bounded t s b =
    let s' = leave_autoplay t s in
    Keeps-after Bounded (fill_up_next_tracks s') _
      (fill_up_next_tracks-Bounded s' (leave_autoplay-Bounded t s b))
      λ _ u c. step_index-Bounded (set_track t u) c

pub prev_track-played :
    (t : Track) (s : ConnectState) (front : List Track)
    → (go_back s).player.prev_tracks ≡ front ++ t ∷ []
    → prev_track s ≡ play_prev t (set_prev front (go_back s))
unfolding prev_track
prev_track-played t s front e =
    let popped : pop_last (go_back s).player.prev_tracks ≡ some (t, front) =
      ap pop_last e ∙ pop_last-append front t in
    rw (popped, prev_track) refl

pub prev_track-Bounded : Keeps Bounded prev_track
unfolding prev_track
prev_track-Bounded s b =
    let (p, n) = go_back-Bounded s b in
    elim (last_cases (go_back s).player.prev_tracks) [
      | inl empty ↦ rw (ap pop_last empty, prev_track) (p, n)
      | inr (front, t, e) ↦ rw (prev_track-played t s front e) (
          play_prev-Bounded t (set_prev front (go_back s))
            (omega (arith, ap length e, length-append front (t ∷ [])), n))
    ]
