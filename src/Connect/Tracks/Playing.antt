-- ===== src/Connect/Tracks/Playing.antt =====
-- state/tracks.rs: `next_track` and `prev_track`.
use squeezebox_radio_spotify.Connect.Context.{set_active_context}
use squeezebox_radio_spotify.Connect.State.{
  ◌>>◌, Track, Result, ConnectState, set_track, Act, ContextType, update_current_index, ok, modify,
  update_restrictions, autoplay, is_queue, is_unavailable, is_context, options_or_default,
  repeat_track, return, is_autoplay, default_context, get_context_index, index_track,
}
use squeezebox_radio_spotify.Connect.Tracks.Changing.{pop_to}
use squeezebox_radio_spotify.Connect.Tracks.Fill.{fill_up_next_tracks}
use squeezebox_radio_spotify.Connect.Tracks.Lists.{push_prev, is_delimiter, set_prev, max_next}
use squeezebox_radio_spotify.Prelude.{
  ℕ, List, Bool, Option, if◌then◌else◌, ◌∷◌, [], none, some, false, leb, length, true, ◌&&◌, ◌||◌,
  ◌-◌, ◌%◌, ◌^◌, ◌==◌,
}

-- A track that the next tracks hold is asked for: delimiters move to the previous tracks, and
-- tracks that became unavailable are dropped.
unfoldable pub take_next : List Track → List Track → Option Track × List Track × List Track
unfolding push_prev
take_next prev [] = (none, prev, [])
take_next prev (t ∷ next) =
    let passed = take_next (push_prev prev t) next in
    let dropped = take_next prev next in
    if is_delimiter t then passed else if is_unavailable t then dropped else (some t, prev, next)

-- The track that was played goes to the previous ones, if it came from a context.
abbrev pub keep_prev : Option Track → List Track → List Track
keep_prev none prev = prev
keep_prev (some t) prev = if is_context t || is_autoplay t then push_prev prev t else prev

-- The index that belongs to a track, which is in no context where there is none.
unfoldable pub mark_index : Track → ConnectState → ConnectState
unfolding set_active_context update_current_index
mark_index t s =
    if is_queue t
    then record s { player = record s.player { index = none } }
    else if is_autoplay t
    then (let s' = set_active_context autoplay s in
        record s' { player = record s'.player { index = none } })
    else elim (get_context_index t) [
      | some i ↦ update_current_index (i % 2 ^ 32) s
      | none ↦ record s { player = record s.player { index = none } }
    ]

-- `next_track`, from the filling on.
unfoldable pub play_next : Track → Act (Option ℕ)
unfolding fill_up_next_tracks mark_index set_track update_restrictions
play_next t = do
  fill_up_next_tracks
  modify (mark_index t)
  modify (set_track t)
  modify update_restrictions
  λ s. (ok (some (index_track s.player.index)), s)

unfoldable pub set_repeat_track : Bool → ConnectState → ConnectState
set_repeat_track repeat s = record s {
  player = record s.player {
    options = some (record (options_or_default s.player.options) { repeating_track = repeat });
  };
}

-- A track is repeated once.
abbrev pub end_repeat : ConnectState → ConnectState
end_repeat s = if repeat_track s then set_repeat_track false s else s

-- What `next_track` does before the filling: the track to be played, and the lists.
unfoldable pub advance : ConnectState → Option Track × ConnectState
unfolding take_next set_repeat_track push_prev
advance s =
    let s' = end_repeat s in
    let (t, prev, next) =
      take_next (keep_prev s.player.track s.player.prev_tracks) s.player.next_tracks in
    (
      t,
      record s' {
        player = record s'.player { track = none; prev_tracks = prev; next_tracks = next };
      },
    )

unfoldable pub play_taken : Option Track × ConnectState → Result (Option ℕ) × ConnectState
unfolding play_next
play_taken (none, s) = (ok none, s)
play_taken (some t, s) = play_next t s

unfoldable pub next_track : Act (Option ℕ)
unfolding advance play_taken
next_track s = play_taken (advance s)

-- `pop` of the last entry.
unfoldable pub pop_last {ℓ} : {A : Type ℓ} → List A → Option (A × List A)
pop_last [] = none
pop_last (x ∷ []) = some (x, [])
pop_last (x ∷ y ∷ ys) = elim (pop_last (y ∷ ys)) [
  | none ↦ none
  | some (last, front) ↦ some (last, x ∷ front)
]

-- The track that was played comes first again, if it came from a context.
abbrev pub keep_next : Option Track → List Track → List Track
keep_next none next = next
keep_next (some t) next = if is_context t || is_autoplay t then t ∷ next else next

-- A delimiter before the current track goes back to the next ones.
abbrev pub move_delimiter :
    Option (Track × List Track) → List Track → List Track → List Track × List Track
move_delimiter none prev next = (prev, next)
move_delimiter (some (last, front)) prev next =
    if is_delimiter last
    then (
      front,
      last ∷ (if leb max_next (length next) then pop_to (length next - 1) next else next),
    )
    else (prev, next)

-- `prev_track`, up to the truncation of the next tracks.
unfoldable pub go_back : ConnectState → ConnectState
unfolding pop_last
go_back s =
    let next = keep_next s.player.track s.player.next_tracks in
    let (prev, next') = move_delimiter (pop_last s.player.prev_tracks) s.player.prev_tracks next in
    record s {
      player = record s.player {
        track = none;
        prev_tracks = prev;
        next_tracks = pop_to max_next next';
      };
    }

abbrev pub is_auto_type : ContextType → Bool
is_auto_type default_context = false
is_auto_type autoplay = true

-- Before an autoplay context comes the default one.
unfoldable pub leave_autoplay : Track → ConnectState → ConnectState
unfolding set_active_context
leave_autoplay t s =
    if is_auto_type s.active_context && is_context t
    then set_active_context default_context s
    else s

unfoldable pub step_index : ConnectState → ConnectState
unfolding update_current_index
step_index s =
    if index_track s.player.index == 0
    then s
    else update_current_index (index_track s.player.index - 1) s

unfoldable pub play_again : Track → Act Bool
unfolding fill_up_next_tracks step_index set_track update_restrictions
play_again t = do
  fill_up_next_tracks
  modify (set_track t)
  modify step_index
  modify update_restrictions
  return true

-- `prev_track`, with the track that is played again. It tells whether there was one.
unfoldable pub play_prev : Track → Act Bool
unfolding leave_autoplay play_again
play_prev t s = play_again t (leave_autoplay t s)

unfoldable pub prev_track : Act Bool
unfolding go_back play_prev pop_last
prev_track s =
    let s' = go_back s in
    elim (pop_last s'.player.prev_tracks) [
      | none ↦ (ok false, s')
      | some (t, front) ↦ play_prev t (set_prev front s')
    ]
