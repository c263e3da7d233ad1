-- ===== src/Tests/ProgramRuns.antt =====
-- A track's metadata, and the status file of a pairing.
use squeezebox_radio_spotify.Json.{read_object}
use squeezebox_radio_spotify.Metadata.{
  Env, Files, run, json, put, show_state, tmp, publish, state_of, loading_path, Runs, creates, cuts,
}
use squeezebox_radio_spotify.Metadata.Members.{json-reads, IsFirstOf, join}
use squeezebox_radio_spotify.Metadata.Publishing.{run_atomic}
use squeezebox_radio_spotify.Metadata.Text.{AreServed}
use squeezebox_radio_spotify.Prelude.{
  codes, [], arith, none, ◌≡◌, ◌∷◌, some, ◌⊎◌, take, refl, bytes_eq, List, ℕ,
}
use squeezebox_radio_spotify.Supervisor.{on_line, write_status, find, pairing, connected}
use squeezebox_radio_spotify.Supervisor.Lines.{members, write_status-reads}

abbrev changed_env : Env
changed_env = record {
  player_event = codes "track_changed";
  volume = [];
  track_id = codes "4uLU6hMC";
  name = codes "Say \"hi\"";
  artists = codes "A\nB";
  album = codes "C:\\D";
  duration_ms = codes "1000";
  covers = codes "http://x/1\nhttp://x/2";
}

served : AreServed changed_env
served = ground arith

json-reads_example :
    (cover : List ℕ) × IsFirstOf changed_env.covers cover
    × (read_object 7 (json (codes "playing") changed_env)
        ≡ some (
            (codes "playback_state", codes "playing")
            ∷ (codes "track_id", changed_env.track_id)
            ∷ (codes "title", changed_env.name)
            ∷ (codes "artist", join (codes ", ") (codes "A" ∷ codes "B" ∷ []))
            ∷ (codes "album", changed_env.album)
            ∷ (codes "duration_ms", changed_env.duration_ms)
            ∷ (codes "artwork_url", cover)
            ∷ []))
unfolding join
json-reads_example =
    json-reads changed_env (codes "A" ∷ codes "B" ∷ []) served refl
      ((λ e. ground (arith, e), tt), ((λ e. ground (arith, e), tt), tt))

abbrev no_files : Files
no_files = λ p. none

-- The program is cut off within its write.
abbrev half_written : Files
half_written = put (tmp (codes "/m")) (some (take 5 (json (codes "playing") changed_env))) no_files

half-Runs : Runs no_files (run (codes "/m") changed_env) half_written
unfolding run show_state publish state_of bytes_eq
half-Runs = creates (cuts 5)

run_atomic_example :
    ((half_written (codes "/m") ≡ none)
      ⊎ ((changed_env.player_event ≡ codes "track_changed")
          × (half_written (codes "/m") ≡ some (json (codes "playing") changed_env))))
    × ((half_written (loading_path (codes "/m")) ≡ none)
        ⊎ (half_written (loading_path (codes "/m")) ≡ some changed_env.track_id))
run_atomic_example = run_atomic (codes "/m") changed_env half-Runs

write_status-reads_example :
    read_object 2 (write_status (pairing (codes "http://a/?q=\"b\"")))
    ≡ some (members (pairing (codes "http://a/?q=\"b\"")))
write_status-reads_example = write_status-reads (pairing (codes "http://a/?q=\"b\"")) (ground arith)

tells_connected : on_line (codes "Authenticated as 'x'") ≡ some connected
unfolding on_line find
tells_connected = refl
