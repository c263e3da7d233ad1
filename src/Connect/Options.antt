-- ===== src/Connect/Options.antt =====
-- state/options.rs, state/handle.rs, and `reset_playback_to_position` of state.rs: shuffling,
-- repeating, and going to a position. The random number generator is a parameter: what it draws for
-- each index, by the seed.
use squeezebox_radio_spotify.Connect.Context.{
  get_context, find_index_in_context, is_skip_track, reset_context, default_index,
  update_context_index,
}
use squeezebox_radio_spotify.Connect.State.{
  ◌>>◌, PlayerOptions, Act, ConnectState, restrictions_or_default, Track, current_track,
  ContextType, modify, options_or_default, Result, is_queue, update_restrictions, StateContext, err,
  ok, default_context, no_context, get_context_index, currently_disallowed, update_current_index,
  panic,
}
use squeezebox_radio_spotify.Connect.Text.{Text, with_entry, usize_mod, decimal}
use squeezebox_radio_spotify.Connect.Tracks.{
  set_repeat_track, set_current_track, fill_up_next_tracks, clear_next_tracks, clear_prev_track,
  set_prev, max_prev,
}
use squeezebox_radio_spotify.Prelude.{
  Bool, List, ℕ, Option, if◌then◌else◌, some, none, false, drop, take, ◌==◌, ◌∷◌, length, ◌||◌,
  bytes_eq, true, ◌-◌, ◌+◌, ◌%◌, codes, [], ◌^◌,
}
use squeezebox_radio_spotify.Shuffle.{shuffle_with_rng}

abbrev change_options : (PlayerOptions → PlayerOptions) → ConnectState → ConnectState
change_options f s = record s {
  player = record s.player { options = some (f (options_or_default s.player.options)) };
}

unfoldable pub set_repeat_context : Bool → ConnectState → ConnectState
set_repeat_context repeat = change_options λ o. record o { repeating_context = repeat }

unfoldable pub set_shuffle : Bool → ConnectState → ConnectState
set_shuffle shuffle = change_options λ o. record o { shuffling_context = shuffle }

unfoldable pub reset_options : ConnectState → ConnectState
unfolding set_repeat_context set_shuffle set_repeat_track
reset_options s = set_repeat_context false (set_repeat_track false (set_shuffle false s))

-- The first reason of a list, if it has one.
abbrev pub first_reason : List Text → Result (Unit {0})
first_reason [] = ok tt
first_reason (reason ∷ more) = err (currently_disallowed reason)

unfoldable pub validate_shuffle_allowed : Act (Unit {0})
validate_shuffle_allowed s =
    (first_reason (restrictions_or_default s.player.restrictions).disallow_toggling_shuffle, s)

-- The previous tracks of a position: the tracks before it, the last ten of them.
abbrev pub last_of : ℕ → List Track → List Track
last_of n tracks = drop (length tracks - n) tracks

-- `rev().skip(len - new_index)`, where the subtraction wraps around, as it does in a release build.
abbrev pub before : ℕ → List Track → List Track
before new_index tracks =
    take (length tracks - (length tracks + usize_mod - new_index) % usize_mod) tracks

unfoldable pub prev_of_position : ℕ → Act (Unit {0})
unfolding get_context
prev_of_position new_index s =
    if new_index == 0 then (ok tt, s) else elim (get_context s.active_context s) [
      | err e ↦ (err e, s)
      | ok c ↦ (ok tt, set_prev (last_of max_prev (before new_index c.tracks.vec)) s)
    ]

abbrev pub index_or_zero : Option ℕ → ℕ
index_or_zero none = 0
index_or_zero (some i) = i

-- The current track is kept where it is a queued one or the one with which shuffling began.
unfoldable pub track_of_position : ℕ → Act (Unit {0})
unfolding set_current_track is_skip_track
track_of_position new_index s =
    if is_queue (current_track s) || is_skip_track (current_track s) none s
    then (ok tt, s)
    else set_current_track new_index s

unfoldable pub reset_playback_to_position : Option ℕ → Act (Unit {0})
unfolding track_of_position prev_of_position fill_up_next_tracks clear_next_tracks
    update_restrictions update_context_index update_current_index
reset_playback_to_position position = do
  let new_index = index_or_zero position
  modify (update_current_index (new_index % 2 ^ 32))
  λ s. update_context_index s.active_context (new_index + 1) s
  modify λ s. record s { fill_up_context = s.active_context }
  track_of_position new_index
  modify clear_prev_track
  prev_of_position new_index
  modify clear_next_tracks
  fill_up_next_tracks
  modify update_restrictions

-- The first track of the default context that satisfies a test.
unfoldable pub find_default : (Track → Bool) → ConnectState → Result ℕ
unfolding find_index_in_context get_context
find_default f s = elim (get_context default_context s) [
  | err e ↦ err e
  | ok c ↦ find_index_in_context c f
]

unfoldable pub reset_to : Result ℕ → Act (Unit {0})
unfolding reset_playback_to_position
reset_to (err e) s = (err e, s)
reset_to (ok i) s = reset_playback_to_position (some i) s

-- Where the default context has a track.
unfoldable pub index_in_default : Track → ConnectState → Result ℕ
unfolding find_default
index_in_default t s = elim (get_context_index t) [
  | some i ↦ ok i
  | none ↦ find_default (λ u. bytes_eq u.uri t.uri) s
]

-- `handle_shuffle`, after the shuffle flag has been cleared.
unfoldable pub return_to : Option Track → Act (Unit {0})
unfolding reset_to index_in_default
return_to none s = (ok tt, s)
return_to (some t) s = reset_to (index_in_default t s) s

module _ (draws : ℕ → ℕ → ℕ) where
  -- The shuffled context, with what it was shuffled by; `none` is a panic.
  unfoldable pub shuffle_context : ℕ → Text → StateContext → Option StateContext
  shuffle_context seed initial c =
      elim (shuffle_with_rng (draws seed) (λ t. bytes_eq t.uri initial) c.tracks) [
        | none ↦ none
        | some tracks ↦ some (record c {
          tracks = tracks;
          metadata =
              with_entry (codes "shuffle_seed") (decimal seed)
                (with_entry (codes "initial_track") initial c.metadata);
        })
      ]

  unfoldable pub shuffle_default : ℕ → Text → Act (Unit {0})
  unfolding shuffle_context
  shuffle_default seed initial s = elim s.context [
    | none ↦ (err (no_context default_context), s)
    | some c ↦ elim (shuffle_context seed initial c) [
      | none ↦ (err panic, s)
      | some c' ↦ (ok tt, record s { context = some c' })
    ]
  ]

  unfoldable pub shuffle : ℕ → Text → Act (Unit {0})
  unfolding reset_context shuffle_default fill_up_next_tracks clear_next_tracks
  shuffle seed initial = do
    modify clear_prev_track
    modify clear_next_tracks
    reset_context default_index
    shuffle_default seed initial
    fill_up_next_tracks

  unfoldable pub shuffle_restore : ℕ → Text → Act (Unit {0})
  unfolding validate_shuffle_allowed shuffle
  shuffle_restore seed initial = do validate_shuffle_allowed; shuffle seed initial

  -- The seed is drawn as well.
  unfoldable pub shuffle_new : ℕ → Act (Unit {0})
  unfolding validate_shuffle_allowed shuffle
  shuffle_new seed = do validate_shuffle_allowed; λ s. shuffle seed (current_track s).uri s

  unfoldable pub handle_shuffle : Bool → ℕ → Act (Unit {0})
  unfolding set_shuffle shuffle_new return_to reset_context
  handle_shuffle true seed = do modify (set_shuffle true); shuffle_new seed
  handle_shuffle false seed = do
    modify (set_shuffle false)
    reset_context default_index
    λ s. return_to s.player.track s

-- A repeated context is filled up from itself.
abbrev pub fill_from_default : Bool → ContextType → ContextType
fill_from_default true ContextType.autoplay = default_context
fill_from_default repeat ty = ty

unfoldable pub handle_set_repeat_context : Bool → Act (Unit {0})
unfolding set_repeat_context reset_to find_default
handle_set_repeat_context repeat = do
  modify (set_repeat_context repeat)
  modify λ s. record s { fill_up_context = fill_from_default repeat s.fill_up_context }
  λ s. reset_to (find_default (λ t. bytes_eq (current_track s).uri t.uri) s) s
