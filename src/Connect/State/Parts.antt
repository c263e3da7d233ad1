-- ===== src/Connect/State/Parts.antt =====
-- The parts of the player, and the operations on its scalar fields.
use squeezebox_radio_spotify.Connect.State.Data.{
  ContextIndex, Track, PlayerOptions, Restrictions, ConnectState, no_track, no_restrictions,
  is_autoplay,
}
use squeezebox_radio_spotify.Connect.Text.{Text}
use squeezebox_radio_spotify.Prelude.{
  [], Bool, Option, ℕ, List, some, map, ◌||◌, codes, false, ◌&&◌, if◌then◌else◌, true, none, not,
  ◌∷◌,
}

-- `self.player().index.track`, of a message that may be absent.
abbrev pub index_track : Option ContextIndex → ℕ
index_track none = 0
index_track (some i) = i.track

-- `self.player().track`, likewise.
abbrev pub track_or_default : Option Track → Track
track_or_default none = no_track
track_or_default (some t) = t

abbrev pub options_or_default : Option PlayerOptions → PlayerOptions
options_or_default none = record {
  shuffling_context = false;
  repeating_context = false;
  repeating_track = false;
}
options_or_default (some o) = o

abbrev pub restrictions_or_default : Option Restrictions → Restrictions
restrictions_or_default none = no_restrictions
restrictions_or_default (some r) = r

abbrev pub current_track : ConnectState → Track
current_track s = track_or_default s.player.track

abbrev pub repeat_context : ConnectState → Bool
repeat_context s = (options_or_default s.player.options).repeating_context

abbrev pub repeat_track : ConnectState → Bool
repeat_track s = (options_or_default s.player.options).repeating_track

abbrev pub shuffling_context : ConnectState → Bool
shuffling_context s = (options_or_default s.player.options).shuffling_context

abbrev pub is_playing : ConnectState → Bool
is_playing s = s.player.is_playing && not s.player.is_paused

abbrev pub is_pause : ConnectState → Bool
is_pause s = s.player.is_playing && s.player.is_paused && s.player.is_buffering

-- `update_current_index(|i| i.track = track)`
unfoldable pub update_current_index : ℕ → ConnectState → ConnectState
update_current_index track s = record s {
  player = record s.player {
    index = elim s.player.index [
      | none ↦ some (record { page = 0; track = track })
      | some i ↦ some (record i { track = track })
    ];
  };
}

unfoldable pub set_track : Track → ConnectState → ConnectState
set_track t s = record s { player = record s.player { track = some t } }

unfoldable pub update_queue_revision : ConnectState → ConnectState
update_queue_revision s = record s {
  player = record s.player { queue_revision = map (λ t. t.uri) s.player.next_tracks };
}

abbrev no_prev : Text
no_prev = codes "no previous tracks"

-- The reasons against pausing and resuming, by what is played.
abbrev pub playing_reasons : Bool → Restrictions → Restrictions
playing_reasons false r = r
playing_reasons true r = record r {
  disallow_pausing = [];
  disallow_resuming = codes "not_paused" ∷ [];
}

abbrev pub paused_reasons : Bool → Restrictions → Restrictions
paused_reasons false r = r
paused_reasons true r = record r {
  disallow_resuming = [];
  disallow_pausing = codes "not_playing" ∷ [];
}

-- The reasons against going back, and those against shuffling and repeating.
abbrev pub queue_reasons : Bool → Bool → Restrictions → Restrictions
queue_reasons no_prev_tracks is_auto r =
    let prev : List Text = if no_prev_tracks then no_prev ∷ [] else [] in
    let auto : List Text = if is_auto then codes "autoplay" ∷ [] else [] in
    record r {
      disallow_peeking_prev = prev;
      disallow_skipping_prev = prev;
      disallow_toggling_shuffle = auto;
      disallow_toggling_repeat_context = auto;
      disallow_toggling_repeat_track = auto;
    }

abbrev pub is_empty {ℓ} : {A : Type ℓ} → List A → Bool
is_empty [] = true
is_empty (x ∷ xs) = false

abbrev pub play_reasons : ConnectState → Option Restrictions → Restrictions
play_reasons s none = no_restrictions
play_reasons s (some r) = paused_reasons (is_pause s) (playing_reasons (is_playing s) r)

unfoldable pub update_restrictions : ConnectState → ConnectState
update_restrictions s = record s {
  player = record s.player {
    restrictions = some (
        queue_reasons (is_empty s.player.prev_tracks) (is_autoplay (current_track s))
          (play_reasons s s.player.restrictions));
  };
}

-- `SpircPlayStatus`, without its times.
pub data PlayStatus : Type 0 where
  stopped loading_play loading_pause playing paused : PlayStatus

abbrev pub pauses : PlayStatus → Bool
pauses stopped = true
pauses loading_pause = true
pauses paused = true
pauses _ = false

abbrev pub loads : PlayStatus → Bool
loads loading_play = true
loads loading_pause = true
loads _ = false

abbrev pub plays : PlayStatus → Bool
plays loading_play = true
plays playing = true
plays _ = false

-- `set_status`; the playback speed follows `is_paused`.
unfoldable pub set_status : PlayStatus → ConnectState → ConnectState
unfolding update_restrictions
set_status status s = update_restrictions (record s {
  player = record s.player {
    is_paused = pauses status;
    is_buffering = pauses status || loads status;
    is_playing = pauses status || plays status;
  };
})
