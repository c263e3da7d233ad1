-- ===== src/Connect/Tracks/Lists.antt =====
-- state/tracks.rs: delimiters, `push_prev` and `set_current_track`.
use squeezebox_radio_spotify.Connect.Context.{get_context}
use squeezebox_radio_spotify.Connect.State.{
  Track, ConnectState, set_track, Act, update_current_index, err, ok, provider_context,
  can_not_find_track,
}
use squeezebox_radio_spotify.Connect.Text.{Text, has_prefix, decimal, with_entry}
use squeezebox_radio_spotify.Prelude.{
  ℕ, List, Bool, codes, if◌then◌else◌, ◌++◌, ◌∷◌, [], none, some, leb, get_elem?, length, drop, ◌%◌,
  ◌^◌,
}

abbrev pub max_prev : ℕ
max_prev = 10

abbrev pub max_next : ℕ
max_next = 80

abbrev pub identifier_delimiter : Text
identifier_delimiter = codes "delimiter"

-- `uid.starts_with(IDENTIFIER_DELIMITER)`
abbrev pub is_delimiter : Track → Bool
is_delimiter t = has_prefix identifier_delimiter t.uid

unfoldable pub new_delimiter : ℕ → Track
new_delimiter iteration = record {
  uri = codes "spotify:" ++ identifier_delimiter;
  uid = identifier_delimiter ++ decimal iteration;
  provider = provider_context;
  metadata =
      with_entry (codes "iteration") (decimal iteration)
        (with_entry (codes "hidden") (codes "true") []);
}

abbrev pub set_prev : List Track → ConnectState → ConnectState
set_prev tracks s = record s { player = record s.player { prev_tracks = tracks } }

abbrev pub set_next : List Track → ConnectState → ConnectState
set_next tracks s = record s { player = record s.player { next_tracks = tracks } }

-- `push_prev`, on the list.
unfoldable pub push_prev : List Track → Track → List Track
push_prev prev t = (if leb max_prev (length prev) then drop 1 prev else prev) ++ t ∷ []

-- `set_current_track`
unfoldable pub set_current_track : ℕ → Act (Unit {0})
unfolding get_context set_track update_current_index
set_current_track index s = elim (get_context s.active_context s) [
  | err e ↦ (err e, s)
  | ok c ↦ elim (get_elem? c.tracks.vec index) [
    | none ↦ (err (can_not_find_track (some index) (length c.tracks.vec)), s)
    | some t ↦ (ok tt, update_current_index (index % 2 ^ 32) (set_track t s))
  ]
]
