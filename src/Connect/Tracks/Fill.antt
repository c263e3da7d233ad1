-- ===== src/Connect/Tracks/Fill.antt =====
-- state/tracks.rs: `fill_up_next_tracks`.
use squeezebox_radio_spotify.Connect.Context.{get_context, update_context_index, is_skip_track}
use squeezebox_radio_spotify.Connect.State.{
  ◌>>=◌, ◌>>◌, Track, Result, ConnectState, update_queue_revision, Act, ContextType, StateError,
  StateContext, err, ok, modify, autoplay, out_of_fuel, is_unavailable, repeat_context, return,
  default_context, after,
}
use squeezebox_radio_spotify.Connect.Tracks.Lists.{new_delimiter, set_next, max_next}
use squeezebox_radio_spotify.Prelude.{
  ℕ, Bool, Option, if◌then◌else◌, ◌++◌, ◌*◌, ◌∷◌, [], none, some, false, get_elem?, ◌+◌, length,
  true, suc, ◌||◌, ltb, zero,
}

-- The loop's choice in `fill_up_next_tracks`.
pub data Filling : Type 0 where
  -- `push` a track, and go on with this index and iteration
  pushes : Track → ℕ → ℕ → Filling
  -- a track that is passed over
  skips : Filling
  -- on to the autoplay context
  transition : Filling
  stops : Filling
  fails : StateError → Filling

-- The arm of the `match` where the context has no track at the index.
abbrev pub at_end : Bool → ContextType → Option StateContext → ℕ → ℕ → Filling
at_end true ty auto new_index iteration = pushes (new_delimiter iteration) 0 (iteration + 1)
at_end false ty none new_index iteration = stops
at_end false default_context (some c) new_index iteration = transition
at_end false autoplay (some c) new_index iteration = elim (get_elem? c.tracks.vec new_index) [
  | none ↦ stops
  | some t ↦ pushes t (new_index + 1) iteration
]

unfoldable pub choose : ConnectState → ℕ → ℕ → Filling
unfolding get_context
choose s new_index iteration = elim (get_context s.fill_up_context s) [
  | err e ↦ fails e
  | ok c ↦ elim (get_elem? c.tracks.vec new_index) [
    | none ↦ at_end (repeat_context s) s.fill_up_context s.autoplay_context new_index iteration
    | some t ↦
        if is_unavailable t || is_skip_track t (some iteration) s
        then skips
        else pushes t (new_index + 1) iteration
  ]
]

abbrev pub push_next : Track → ConnectState → ConnectState
push_next t s = set_next (s.player.next_tracks ++ t ∷ []) s

abbrev autoplay_index : Result StateContext → Result ℕ
autoplay_index (ok c) = ok c.index.track
autoplay_index (err e) = err e

-- The arm that moves on to the autoplay context: the index to go on with.
unfoldable pub move_on : ℕ → ℕ → Act ℕ
unfolding update_context_index get_context
move_on new_index iteration = do
  ty ← λ s. (ok s.fill_up_context, s)
  update_context_index ty new_index
  modify λ s. record s { fill_up_context = autoplay }
  next ← λ s. (autoplay_index (get_context autoplay s), s)
  modify (push_next (new_delimiter iteration))
  return next

-- The loop of `fill_up_next_tracks`, which leaves the index with which it ends.
unfoldable pub fill_loop : ℕ → ℕ → ℕ → Act ℕ
unfolding choose move_on
fill_loop zero new_index iteration s = (err out_of_fuel, s)
fill_loop (suc fuel) new_index iteration s = elim (ltb (length s.player.next_tracks) max_next) [
  | false ↦ (ok new_index, s)
  | true ↦ elim (choose s new_index iteration) [
    | fails e ↦ (err e, s)
    | stops ↦ (ok new_index, s)
    | skips ↦ fill_loop fuel (suc new_index) iteration s
    | pushes t index' iteration' ↦ fill_loop fuel index' iteration' (push_next t s)
    | transition ↦ after (move_on new_index iteration s) λ index'. fill_loop fuel index' iteration
  ]
]

abbrev pub track_count : Option StateContext → ℕ
track_count none = 0
track_count (some c) = length c.tracks.vec

-- Every round fills a place or passes a track of one of the contexts.
abbrev pub fill_fuel : ConnectState → ℕ
fill_fuel s =
    max_next * (track_count s.context + track_count s.autoplay_context + 1)
    + (track_count s.context + track_count s.autoplay_context + 1)

-- `fill_up_next_tracks`
unfoldable pub fill_up_next_tracks : Act (Unit {0})
unfolding fill_loop update_context_index update_queue_revision get_context
fill_up_next_tracks s = elim (get_context s.fill_up_context s) [
  | err e ↦ (err e, s)
  | ok c ↦
      (fill_loop (fill_fuel s) c.index.track c.index.page >>= λ new_index.
      (λ s. update_context_index s.fill_up_context new_index s) >> modify update_queue_revision)
        s
]
