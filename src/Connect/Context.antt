-- ===== src/Connect/Context.antt =====
-- state/context.rs: the contexts that the next tracks come from. Turning a context's pages into
-- tracks is left out.
use squeezebox_radio_spotify.Connect.State.{
  ◌>>=◌, ◌>>◌, get_state, modify, ContextType, StateContext, ConnectState, Act, update_restrictions,
  Track, Result, ok, Player, default_context, err, autoplay, no_context, can_not_find_track,
  no_restrictions, panic, restrictions_or_default,
}
use squeezebox_radio_spotify.Connect.Text.{Text, without, lookup, has_prefix, extend}
use squeezebox_radio_spotify.Prelude.{
  Option, List, some, ℕ, Bool, codes, if◌then◌else◌, none, ◌%◌, not, [], false, true, ◌∷◌, ◌^◌,
  bytes_eq, ◌==◌, length, ◌||◌, ◌&&◌,
}
use squeezebox_radio_spotify.Shuffle.{unshuffle, position}

abbrev pub context_of : ContextType → ConnectState → Option StateContext
context_of default_context s = s.context
context_of autoplay s = s.autoplay_context

-- `get_context`
unfoldable pub get_context : ContextType → ConnectState → Result StateContext
get_context ty s = elim (context_of ty s) [ some c ↦ ok c | none ↦ err (no_context ty) ]

abbrev pub put_context : ContextType → StateContext → ConnectState → ConnectState
put_context ty c s = record s {
  context = elim ty [ default_context ↦ some c | autoplay ↦ s.context ];
  autoplay_context = elim ty [ default_context ↦ s.autoplay_context | autoplay ↦ some c ];
}

-- `get_context_mut`, and what is done to the context.
unfoldable pub change_context : ContextType → (StateContext → StateContext) → Act (Unit {0})
unfolding get_context
change_context ty f s = elim (get_context ty s) [
  | ok c ↦ (ok tt, put_context ty (f c) s)
  | err e ↦ (err e, s)
]

abbrev pub at_track : ℕ → StateContext → StateContext
at_track n c = record c { index = record c.index { track = n } }

unfoldable pub update_context_index : ContextType → ℕ → Act (Unit {0})
unfolding change_context
update_context_index ty new_index = change_context ty (at_track (new_index % 2 ^ 32))

-- `find_index_in_context`
unfoldable pub find_index_in_context : StateContext → (Track → Bool) → Result ℕ
find_index_in_context c f = elim (position f c.tracks.vec) [
  | some i ↦ ok i
  | none ↦ err (can_not_find_track none (length c.tracks.vec))
]

abbrev search_identifier : Text
search_identifier = codes "spotify:search"

-- `different_context_uri`
unfoldable pub different_context_uri : Text → ConnectState → Bool
different_context_uri uri s =
    not (bytes_eq s.player.context_uri uri) || has_prefix search_identifier uri

-- The player's part of `set_active_context`.
abbrev pub show_context : Option StateContext → Player → Player
show_context c p = record p {
  context_metadata = elim c [ none ↦ [] | some c ↦ extend c.metadata [] ];
  context_restrictions = some no_restrictions;
  restrictions =
      some (elim c [ none ↦ no_restrictions | some c ↦ restrictions_or_default c.restrictions ]);
}

unfoldable pub set_active_context : ContextType → ConnectState → ConnectState
set_active_context ty s = record s {
  active_context = ty;
  player = show_context (context_of ty s) s.player;
}

pub data ResetContext : Type 0 where
  completely default_index : ResetContext
  when_different : Text → ResetContext

-- The first test of `reset_context`.
abbrev pub reset_kind : ResetContext → ConnectState → ResetContext
reset_kind (when_different uri) s =
    if different_context_uri uri s then completely else when_different uri
reset_kind kind s = kind

-- `remove_shuffle_seed`, `remove_initial_track` and `unshuffle`; `none` is a panic.
unfoldable pub unshuffle_context : StateContext → Option StateContext
unshuffle_context c = elim (unshuffle c.tracks) [
  | none ↦ none
  | some tracks ↦ some (record c {
    metadata = without (codes "initial_track") (without (codes "shuffle_seed") c.metadata);
    tracks = tracks;
  })
]

unfoldable pub unshuffle_default : Act (Unit {0})
unfolding unshuffle_context
unshuffle_default s = elim s.context [
  | none ↦ (ok tt, s)
  | some c ↦ elim (unshuffle_context c) [
    | none ↦ (err panic, s)
    | some c' ↦ (ok tt, record s { context = some c' })
  ]
]

abbrev pub zero_index : Option StateContext → Option StateContext
zero_index none = none
zero_index (some c) = some (record c { index = record { page = 0; track = 0 } })

-- The `match` of `reset_context`.
abbrev pub reset_by : ResetContext → ConnectState → ConnectState
reset_by (when_different uri) s = s
reset_by completely s = record s {
  context = none;
  autoplay_context = none;
  player = record s.player { context_uri = []; context_url = [] };
}
reset_by default_index s = record s {
  context = zero_index s.context;
  autoplay_context = zero_index s.autoplay_context;
}

unfoldable pub reset_context : ResetContext → Act (Unit {0})
unfolding unshuffle_default set_active_context update_restrictions
reset_context kind = do
  s ← get_state
  unshuffle_default
  modify (reset_by (reset_kind kind s))
  modify λ s. record s { fill_up_context = default_context }
  modify (set_active_context default_context)
  modify update_restrictions

abbrev is_initial : Option Text → Text → Bool
is_initial none uri = false
is_initial (some initial) uri = bytes_eq initial uri

-- `iteration.is_none_or(|i| i == 0)`
abbrev is_none_or_zero : Option ℕ → Bool
is_none_or_zero none = true
is_none_or_zero (some i) = i == 0

abbrev pub skips_in : Option StateContext → Track → Option ℕ → Bool
skips_in none t iteration = false
skips_in (some c) t iteration =
    is_initial (lookup (codes "initial_track") c.metadata) t.uri && is_none_or_zero iteration

-- The track with which shuffling began is played first, and skipped where it comes up again in the
-- first round.
unfoldable pub is_skip_track : Track → Option ℕ → ConnectState → Bool
is_skip_track t iteration s = skips_in (context_of s.active_context s) t iteration

-- `find_first_prev_track_index`, on the previous tracks from the last one on.
unfoldable pub find_first_prev : List Track → StateContext → Option ℕ
find_first_prev [] c = none
find_first_prev (t ∷ ts) c =
    let earlier = find_first_prev ts c in
    elim (position (λ u. bytes_eq t.uri u.uri) c.tracks.vec) [ some i ↦ some i | none ↦ earlier ]

-- `valid_resolve_uri`
unfoldable pub valid_resolve_uri : Text → Option Text
valid_resolve_uri [] = none
valid_resolve_uri (c ∷ cs) = if has_prefix search_identifier (c ∷ cs) then none else some (c ∷ cs)

-- A page's first track, if it has a uri.
abbrev pub or_first : Option Text → Option Text → Option Text
or_first none first = first
or_first (some uri) first = some uri

-- `find_valid_uri`, given the uri of the first track of the first page.
unfoldable pub find_valid_uri : Option Text → Option Text → Option Text
unfolding valid_resolve_uri
find_valid_uri none first = first
find_valid_uri (some uri) first = or_first (valid_resolve_uri uri) first
