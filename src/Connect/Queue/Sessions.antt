-- ===== src/Connect/Queue/Sessions.antt =====
-- What a remote control asks of the queue, in any order: the limits hold throughout.
use squeezebox_radio_spotify.Connect.Context.{
  get_context, update_context_index, context_of, is_skip_track, reset_context, default_index,
  at_track, ResetContext,
}
use squeezebox_radio_spotify.Connect.Options.{
  prev_of_position, track_of_position, reset_playback_to_position, last_of, before, index_or_zero,
  shuffle_default, shuffle, shuffle_new, handle_shuffle, validate_shuffle_allowed, set_shuffle,
  shuffle_context, reset_to, return_to, handle_set_repeat_context, shuffle_restore,
  set_repeat_context, index_in_default, fill_from_default, find_default,
}
use squeezebox_radio_spotify.Connect.Queue.Bounds.{
  Bounded, fill_up_next_tracks-Bounded, next_track-Bounded, prev_track-Bounded,
}
use squeezebox_radio_spotify.Connect.Queue.Commands.{
  filled-Bounded, restrictions-Bounded, clear_next_tracks-Bounded, change_context-Bounded,
  reset_context-Bounded, add_to_queue-Bounded, clear_queue-Bounded, mark_unavailable-Bounded,
}
use squeezebox_radio_spotify.Connect.Queue.Keeps.{Keeps, Keeps-after}
use squeezebox_radio_spotify.Connect.State.{
  Track, set_track, update_current_index, ◌>>◌, is_queue, modify, current_track,
  update_restrictions, Result, ConnectState, ok, err, PlayStatus, set_status,
}
use squeezebox_radio_spotify.Connect.Text.{Text}
use squeezebox_radio_spotify.Connect.Tracks.{
  set_current_track, clear_prev_track, clear_next_tracks, max_prev, fill_up_next_tracks, next_track,
  set_repeat_track, prev_track, add_to_queue, clear_queue, mark_unavailable,
}
use squeezebox_radio_spotify.Prelude.{
  ℕ, List, length, Bool-cases, Option-cases, Option, ◌==◌, ◌≤◌, inl, arith, inr, ◌||◌, length-drop,
  get_elem?, ◌-◌, none, ◌%◌, ◌^◌, Bool, ◌+◌, true, false, ◌∷◌, some, [], bytes_eq,
}

length-last_of : (n : ℕ) (ts : List Track) → length (last_of n ts) ≤ n
length-last_of n ts = omega (arith, length-drop (length ts - n) ts)

prev_of_position-Bounded : (n : ℕ) → Keeps Bounded (prev_of_position n)
unfolding prev_of_position get_context
prev_of_position-Bounded n s (p, m) = elim (Bool-cases (n == 0)) [
  | inl first ↦ rw (first, prev_of_position) (p, m)
  | inr later ↦ elim (Option-cases (context_of s.active_context s)) [
    | inl none_e ↦ rw (later, prev_of_position, get_context) (rw none_e (p, m))
    | inr (c, some_e) ↦
        rw (later, prev_of_position, get_context)
          (rw some_e (length-last_of max_prev (before n c.tracks.vec), m))
  ]
]

set_current_track-Bounded : (n : ℕ) → Keeps Bounded (set_current_track n)
unfolding set_current_track get_context set_track update_current_index
set_current_track-Bounded n s b = elim (Option-cases (context_of s.active_context s)) [
  | inl none_e ↦ rw (none_e, set_current_track, get_context) b
  | inr (c, some_e) ↦ elim (Option-cases (get_elem? c.tracks.vec n)) [
    | inl none_e ↦ rw (some_e, set_current_track, get_context) (rw none_e b)
    | inr (t, found) ↦ rw (some_e, set_current_track, get_context) (rw found b)
  ]
]

track_of_position-Bounded : (n : ℕ) → Keeps Bounded (track_of_position n)
unfolding track_of_position
track_of_position-Bounded n s b =
    elim (Bool-cases (is_queue (current_track s) || is_skip_track (current_track s) none s)) [
      | inl kept ↦ rw (kept, track_of_position) b
      | inr moved ↦ rw (moved, track_of_position) (set_current_track-Bounded n s b)
    ]

-- From the current track on.
position_tail-Bounded :
    (n : ℕ)
    → Keeps Bounded (
        track_of_position n
        >> (modify clear_prev_track
            >> (prev_of_position n
                >> (modify clear_next_tracks
                    >> (fill_up_next_tracks >> modify update_restrictions)))))
position_tail-Bounded n s b =
    Keeps-after Bounded (track_of_position n s) _ (track_of_position-Bounded n s b) λ _ u (p, m).
      Keeps-after Bounded (prev_of_position n (clear_prev_track u)) _
        (prev_of_position-Bounded n (clear_prev_track u) (omega arith, m))
        λ _ v c.
          filled-Bounded update_restrictions restrictions-Bounded (clear_next_tracks v)
            (clear_next_tracks-Bounded v c)

reset_playback_to_position-Bounded :
    (position : Option ℕ) → Keeps Bounded (reset_playback_to_position position)
unfolding reset_playback_to_position update_context_index update_current_index
reset_playback_to_position-Bounded position s b =
    let n = index_or_zero position in
    let s' = update_current_index (n % 2 ^ 32) s in
    Keeps-after Bounded (update_context_index s'.active_context (n + 1) s') _
      (change_context-Bounded s'.active_context (at_track ((n + 1) % 2 ^ 32)) s' b)
      λ _ u c. position_tail-Bounded n (record u { fill_up_context = u.active_context }) c

reset_to-Bounded : (r : Result ℕ) → Keeps Bounded (reset_to r)
unfolding reset_to
reset_to-Bounded (err e) s b = b
reset_to-Bounded (ok i) s b = reset_playback_to_position-Bounded (some i) s b

return_to-Bounded : (t : Option Track) → Keeps Bounded (return_to t)
unfolding return_to
return_to-Bounded none s b = b
return_to-Bounded (some t) s b = reset_to-Bounded (index_in_default t s) s b

handle_set_repeat_context-Bounded :
    (repeat : Bool) → Keeps Bounded (handle_set_repeat_context repeat)
unfolding handle_set_repeat_context set_repeat_context
handle_set_repeat_context-Bounded repeat s b =
    let s' = set_repeat_context repeat s in
    let u = record s' { fill_up_context = fill_from_default repeat s'.fill_up_context } in
    reset_to-Bounded (find_default (λ t. bytes_eq (current_track u).uri t.uri) u) u b

-- The operations on the queue, other than `handle_set_queue`.
pub data Operation : Type 0 where
  next prev : Operation
  add : Track → Bool → Operation
  clear_queued : Operation
  unavailable : Text → Operation
  to_position : Option ℕ → Operation
  resets : ResetContext → Operation
  shuffles : Bool → ℕ → Operation
  restores : ℕ → Text → Operation
  repeats : Bool → Operation
  repeats_track : Bool → Operation
  status : PlayStatus → Operation

module _ (draws : ℕ → ℕ → ℕ) where
  shuffle_default-Bounded :
      (seed : ℕ) (initial : Text) → Keeps Bounded (shuffle_default draws seed initial)
  unfolding shuffle_default
  shuffle_default-Bounded seed initial s b = elim (Option-cases s.context) [
    | inl none_e ↦ rw (none_e, shuffle_default) b
    | inr (c, some_e) ↦ elim (Option-cases (shuffle_context draws seed initial c)) [
      | inl panic_e ↦ rw (some_e, shuffle_default) (rw panic_e b)
      | inr (c', ok_e) ↦ rw (some_e, shuffle_default) (rw ok_e b)
    ]
  ]

  shuffle-Bounded : (seed : ℕ) (initial : Text) → Keeps Bounded (shuffle draws seed initial)
  unfolding shuffle
  shuffle-Bounded seed initial s (p, m) =
      let s' = clear_next_tracks (clear_prev_track s) in
      Keeps-after Bounded (reset_context default_index s') _
        (reset_context-Bounded default_index s'
          (clear_next_tracks-Bounded (clear_prev_track s) (omega arith, m)))
        λ _ u c.
          Keeps-after Bounded (shuffle_default draws seed initial u) _
            (shuffle_default-Bounded seed initial u c) λ _ v d. fill_up_next_tracks-Bounded v d

  shuffle_new-Bounded : (seed : ℕ) → Keeps Bounded (shuffle_new draws seed)
  unfolding shuffle_new validate_shuffle_allowed
  shuffle_new-Bounded seed s b =
      Keeps-after Bounded (validate_shuffle_allowed s) _ b
        λ _ u c. shuffle-Bounded seed (current_track u).uri u c

  shuffle_restore-Bounded :
      (seed : ℕ) (initial : Text) → Keeps Bounded (shuffle_restore draws seed initial)
  unfolding shuffle_restore validate_shuffle_allowed
  shuffle_restore-Bounded seed initial s b =
      Keeps-after Bounded (validate_shuffle_allowed s) _ b λ _ u c. shuffle-Bounded seed initial u c

  handle_shuffle-Bounded : (on : Bool) (seed : ℕ) → Keeps Bounded (handle_shuffle draws on seed)
  unfolding handle_shuffle set_shuffle
  handle_shuffle-Bounded true seed s b = shuffle_new-Bounded seed (set_shuffle true s) b
  handle_shuffle-Bounded false seed s b =
      Keeps-after Bounded (reset_context default_index (set_shuffle false s)) _
        (reset_context-Bounded default_index (set_shuffle false s) b)
        λ _ u c. return_to-Bounded u.player.track u c

  -- The state that an operation leaves, whether it succeeds or not.
  pub perform : Operation → ConnectState → ConnectState
  perform next s = (next_track s).1
  perform prev s = (prev_track s).1
  perform (add t rev) s = add_to_queue t rev s
  perform clear_queued s = (clear_queue s).1
  perform (unavailable uri) s = (mark_unavailable uri s).1
  perform (to_position i) s = (reset_playback_to_position i s).1
  perform (resets kind) s = (reset_context kind s).1
  perform (shuffles on seed) s = (handle_shuffle draws on seed s).1
  perform (restores seed initial) s = (shuffle_restore draws seed initial s).1
  perform (repeats on) s = (handle_set_repeat_context on s).1
  perform (repeats_track on) s = set_repeat_track on s
  perform (status st) s = set_status st s

  perform-Bounded : (o : Operation) (s : ConnectState) → Bounded s → Bounded (perform o s)
  unfolding perform set_repeat_track set_status update_restrictions
  perform-Bounded next s b = next_track-Bounded s b
  perform-Bounded prev s b = prev_track-Bounded s b
  perform-Bounded (add t rev) s b = add_to_queue-Bounded t rev s b
  perform-Bounded clear_queued s b = clear_queue-Bounded s b
  perform-Bounded (unavailable uri) s b = mark_unavailable-Bounded uri s b
  perform-Bounded (to_position i) s b = reset_playback_to_position-Bounded i s b
  perform-Bounded (resets kind) s b = reset_context-Bounded kind s b
  perform-Bounded (shuffles on seed) s b = handle_shuffle-Bounded on seed s b
  perform-Bounded (restores seed initial) s b = shuffle_restore-Bounded seed initial s b
  perform-Bounded (repeats on) s b = handle_set_repeat_context-Bounded on s b
  perform-Bounded (repeats_track on) s b = b
  perform-Bounded (status st) s b = b

  pub run_all : List Operation → ConnectState → ConnectState
  run_all [] s = s
  run_all (o ∷ os) s = run_all os (perform o s)

  -- From a state with at most 10 previous and 80 next tracks, every sequence of operations on the
  -- queue, other than `handle_set_queue`, leads to such a state, whichever of them fail.
  pub run_all-Bounded :
      (os : List Operation) (s : ConnectState) → Bounded s → Bounded (run_all os s)
  unfolding run_all
  run_all-Bounded [] s b = b
  run_all-Bounded (o ∷ os) s b = run_all-Bounded os (perform o s) (perform-Bounded o s b)
