-- ===== src/Supervisor.antt =====
-- native/supervisor/main.rs, which runs the engine and keeps a status file for the applet. The
-- status file is the last text that was written to it; a write that fails is ignored.
pub mod Lines
use mathlib.Core.Option
use squeezebox_radio_spotify.Bridge.Marker.{trim}
use squeezebox_radio_spotify.Json.{replace, object, quote, backslash}
use squeezebox_radio_spotify.Prelude.{
  List, Option, ℕ, some, codes, [], Bool, if◌then◌else◌, ◌∷◌, none, true, drop, ◌++◌, bytes_eq,
  false, ◌+◌, ◌&&◌, ◌==◌, suc,
}

-- The only escapes of `write_status`.
unfoldable pub escape : List ℕ → List ℕ
escape value =
    replace quote (backslash ∷ quote ∷ []) (replace backslash (backslash ∷ backslash ∷ []) value)

pub data Status : Type 0 where
  starting : Status
  pairing : List ℕ → Status
  connected : Status
  -- how the engine ended
  error : List ℕ → Status

abbrev pub state_name : Status → List ℕ
state_name starting = codes "starting"
state_name (pairing url) = codes "pairing"
state_name connected = codes "connected"
state_name (error message) = codes "error"

abbrev pub extra : Status → Option (List ℕ × List ℕ)
extra (pairing url) = some (codes "url", url)
extra (error message) = some (codes "message", message)
extra _ = none

abbrev extra_member : Option (List ℕ × List ℕ) → List (List ℕ × List ℕ)
extra_member none = []
extra_member (some (key, value)) = (key, escape value) ∷ []

-- `write_status`, the text that it writes.
abbrev pub write_status : Status → List ℕ
write_status s = object ((codes "state", state_name s) ∷ extra_member (extra s))

abbrev starts_with : List ℕ → List ℕ → Bool
starts_with [] line = true
starts_with (p ∷ ps) [] = false
starts_with (p ∷ ps) (c ∷ cs) = p == c && starts_with ps cs

-- `find`: where the pattern starts first.
unfoldable pub find : List ℕ → List ℕ → Option ℕ
find pattern [] = if starts_with pattern [] then some 0 else none
find pattern (c ∷ cs) =
    let later = Option.map suc (find pattern cs) in
    if starts_with pattern (c ∷ cs) then some 0 else later

abbrev pub browse : List ℕ
browse = codes "Browse to: "

abbrev pub authenticated : List ℕ
authenticated = codes "Authenticated as"

-- What a line of the engine's output tells, on either of its streams.
unfoldable pub on_line : List ℕ → Option Status
on_line line = elim (find browse line) [
  | some pos ↦ some (pairing (trim (drop (pos + 11) line)))
  | none ↦ elim (find authenticated line) [ some _ ↦ some connected | none ↦ none ]
]

abbrev pub update : Option Status → Status → Status
update none old = old
update (some new) old = new

-- The status after some lines, in the order in which the two threads write.
pub after_lines : Status → List (List ℕ) → Status
after_lines s [] = s
after_lines s (line ∷ lines) = after_lines (update (on_line line) s) lines

-- `main`, from its first write of a status on: the lines, and how the engine ends, `none` with
-- success.
pub supervise : List (List ℕ) → Option (List ℕ) → Status
supervise lines exit = elim exit [
  | none ↦ after_lines starting lines
  | some result ↦ error (codes "librespot exited: " ++ result)
]

-- The path of the status file, and the command.
pub parse : List (List ℕ) → Option (List ℕ × List (List ℕ))
parse (flag ∷ path ∷ separator ∷ command ∷ args) =
    if bytes_eq flag (codes "--status") && bytes_eq separator (codes "--")
    then some (path, command ∷ args)
    else none
parse _ = none
