-- ===== src/Metadata.antt =====
-- native/metadata/main.rs, the program that the engine runs on each player event. Its result is the
-- list of its file operations, each of which may fail, and then the program ends.
pub mod Text
pub mod Publishing
pub mod Members
use squeezebox_radio_spotify.Json.{replace, object, backslash, quote}
use squeezebox_radio_spotify.Prelude.{
  List, ℕ, ◌∷◌, Option, codes, ◌++◌, if◌then◌else◌, some, ◌==◌, bytes_eq, [], map, take, ◌&&◌, ◌||◌,
  none,
}

-- The environment; a variable that is not set is empty.
pub record Env : Type 0 where
  pub player_event : List ℕ
  pub volume : List ℕ
  pub track_id : List ℕ
  pub name : List ℕ
  pub artists : List ℕ
  pub album : List ℕ
  pub duration_ms : List ℕ
  pub covers : List ℕ

unfoldable pub esc : List ℕ → List ℕ
esc value = replace 0x0d (backslash ∷ 0x72 ∷ []) (
    replace 0x0a (backslash ∷ 0x6e ∷ []) (
      replace quote (backslash ∷ quote ∷ [])
        (replace backslash (backslash ∷ backslash ∷ []) value)))

-- `lines().next().unwrap_or("")`
unfoldable pub first_of_lines : List ℕ → List ℕ
first_of_lines [] = []
first_of_lines (c ∷ []) = if c == 0x0a then [] else c ∷ []
first_of_lines (c ∷ d ∷ cs) =
    let rest = first_of_lines (d ∷ cs) in
    if c == 0x0a then [] else if c == 0x0d && d == 0x0a then [] else c ∷ rest

-- The state to be shown after an event, if it has one.
unfoldable pub state_of : List ℕ → Option (List ℕ)
state_of event =
    if bytes_eq event (codes "paused")
    then some (codes "paused")
    else if bytes_eq event (codes "stopped")
        || bytes_eq event (codes "end_of_track")
        || bytes_eq event (codes "unavailable")
    then some (codes "stopped")
    else if bytes_eq event (codes "playing")
        || bytes_eq event (codes "track_changed")
        || bytes_eq event (codes "loading")
    then some (codes "playing")
    else none

-- The members of the JSON text, their values not yet escaped.
abbrev pub details : Env → List (List ℕ × List ℕ)
details env =
    (codes "track_id", env.track_id)
    ∷ (codes "title", env.name)
    ∷ (codes "artist", replace 0x0a (codes ", ") env.artists)
    ∷ (codes "album", env.album)
    ∷ (codes "duration_ms", env.duration_ms)
    ∷ (codes "artwork_url", first_of_lines env.covers)
    ∷ []

abbrev pub escape_value : List ℕ × List ℕ → List ℕ × List ℕ
escape_value (key, value) = (key, esc value)

-- `json`; the state is not escaped.
abbrev pub json : List ℕ → Env → List ℕ
json state env = object ((codes "playback_state", state) ∷ map escape_value (details env))

pub data Op : Type 0 where
  write : List ℕ → List ℕ → Op
  rename : List ℕ → List ℕ → Op
  -- `create_dir_all`, whose failure is ignored
  create_parent : List ℕ → Op

abbrev pub tmp : List ℕ → List ℕ
tmp path = path ++ codes ".tmp"

abbrev pub volume_path : List ℕ → List ℕ
volume_path path = path ++ codes ".volume"

abbrev pub loading_path : List ℕ → List ℕ
loading_path path = path ++ codes ".loading"

abbrev pub state_path : List ℕ → List ℕ
state_path path = path ++ codes ".state"

-- From the test for a change of the track on.
unfoldable pub publish : List ℕ → Env → List ℕ → List Op
publish path env state =
    if bytes_eq env.player_event (codes "track_changed")
    then create_parent path ∷ write (tmp path) (json state env) ∷ rename (tmp path) path ∷ []
    else write (state_path path) state ∷ []

-- From the `match` on the event on.
unfoldable pub show_state : List ℕ → Env → List Op
show_state path env = elim (state_of env.player_event) [
  | some state ↦ publish path env state
  | none ↦ []
]

abbrev pub mark_loading : List ℕ → Env → List Op
mark_loading path env =
    write (tmp (loading_path path)) env.track_id
    ∷ rename (tmp (loading_path path)) (loading_path path)
    ∷ []

-- `main`, with its argument.
unfoldable pub run : List ℕ → Env → List Op
run path env =
    if bytes_eq env.player_event (codes "volume_changed")
    then write (volume_path path) env.volume ∷ []
    else if bytes_eq env.player_event (codes "loading")
    then mark_loading path env ++ show_state path env
    else show_state path env

-- The files, and what `main` does to them: it may be cut off before any operation, or within a
-- write, which has truncated the file first.
abbrev pub Files : Type 0
Files = List ℕ → Option (List ℕ)

abbrev pub put : List ℕ → Option (List ℕ) → Files → Files
put path content files p = if bytes_eq p path then content else files p

pub data Runs : Files → List Op → Files → Type 0 where
  stops : {files : Files} {ops : List Op} → Runs files ops files
  cuts :
      {files : Files} {path text : List ℕ} {ops : List Op} (n : ℕ)
      → Runs files (write path text ∷ ops) (put path (some (take n text)) files)
  writes :
      {files : Files} {path text : List ℕ} {ops : List Op} {after : Files}
      → Runs (put path (some text) files) ops after
      → Runs files (write path text ∷ ops) after
  renames :
      {files : Files} {old new : List ℕ} {ops : List Op} {after : Files}
      → Runs (put old none (put new (files old) files)) ops after
      → Runs files (rename old new ∷ ops) after
  creates :
      {files : Files} {path : List ℕ} {ops : List Op} {after : Files}
      → Runs files ops after
      → Runs files (create_parent path ∷ ops) after
