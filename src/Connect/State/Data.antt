-- ===== src/Connect/State/Data.antt =====
-- The messages of protobuf that the play queue holds, and `ConnectState`.
use squeezebox_radio_spotify.Connect.Text.{Text, Entries, parse_usize, lookup}
use squeezebox_radio_spotify.Prelude.{[], Bool, Option, ℕ, List, some, codes, bytes_eq, false, none}
use squeezebox_radio_spotify.Shuffle.{ShuffleVec}

-- `Provider`, as the texts that `ProvidedTrack` holds.
abbrev pub provider_context : Text
provider_context = codes "context"

abbrev pub provider_queue : Text
provider_queue = codes "queue"

abbrev pub provider_autoplay : Text
provider_autoplay = codes "autoplay"

abbrev pub provider_unavailable : Text
provider_unavailable = codes "unavailable"

-- `ProvidedTrack`
pub record Track : Type 0 where
  pub uri : Text
  pub uid : Text
  pub provider : Text
  pub metadata : Entries

abbrev pub no_track : Track
no_track = record { uri = []; uid = []; provider = []; metadata = [] }

abbrev pub is_context : Track → Bool
is_context t = bytes_eq t.provider provider_context

abbrev pub is_queue : Track → Bool
is_queue t = bytes_eq t.provider provider_queue

abbrev pub is_autoplay : Track → Bool
is_autoplay t = bytes_eq t.provider provider_autoplay

abbrev pub is_unavailable : Track → Bool
is_unavailable t = bytes_eq t.provider provider_unavailable

-- `get_bool`
abbrev pub is_true : Option Text → Bool
is_true none = false
is_true (some text) = bytes_eq text (codes "true")

-- `get_usize`
abbrev pub parsed : Option Text → Option ℕ
parsed none = none
parsed (some text) = parse_usize text

abbrev pub is_from_queue : Track → Bool
is_from_queue t = is_true (lookup (codes "is_queued") t.metadata)

abbrev pub is_from_autoplay : Track → Bool
is_from_autoplay t = is_true (lookup (codes "autoplay.is_autoplay") t.metadata)

abbrev pub get_context_index : Track → Option ℕ
get_context_index t = parsed (lookup (codes "context_index") t.metadata)

pub record ContextIndex : Type 0 where
  pub page : ℕ
  pub track : ℕ

pub record PlayerOptions : Type 0 where
  pub shuffling_context : Bool
  pub repeating_context : Bool
  pub repeating_track : Bool

-- The reasons that the engine reads or writes.
pub record Restrictions : Type 0 where
  pub disallow_pausing : List Text
  pub disallow_resuming : List Text
  pub disallow_peeking_prev : List Text
  pub disallow_skipping_prev : List Text
  pub disallow_toggling_shuffle : List Text
  pub disallow_toggling_repeat_context : List Text
  pub disallow_toggling_repeat_track : List Text

abbrev pub no_restrictions : Restrictions
no_restrictions = record {
  disallow_pausing = [];
  disallow_resuming = [];
  disallow_peeking_prev = [];
  disallow_skipping_prev = [];
  disallow_toggling_shuffle = [];
  disallow_toggling_repeat_context = [];
  disallow_toggling_repeat_track = [];
}

-- `queue_revision` is the uris that the engine hashes.
pub record Player : Type 0 where
  pub track : Option Track
  pub prev_tracks : List Track
  pub next_tracks : List Track
  pub index : Option ContextIndex
  pub options : Option PlayerOptions
  pub restrictions : Option Restrictions
  pub context_restrictions : Option Restrictions
  pub context_metadata : Entries
  pub context_uri : Text
  pub context_url : Text
  pub is_playing : Bool
  pub is_paused : Bool
  pub is_buffering : Bool
  pub queue_revision : List Text

pub data ContextType : Type 0 where
  default_context autoplay : ContextType

pub record StateContext : Type 0 where
  pub tracks : ShuffleVec Track
  pub metadata : Entries
  pub restrictions : Option Restrictions
  pub index : ContextIndex

pub record ConnectState : Type 0 where
  pub player : Player
  pub unavailable_uri : List Text
  pub queue_count : ℕ
  pub active_context : ContextType
  pub fill_up_context : ContextType
  pub context : Option StateContext
  pub autoplay_context : Option StateContext
