-- ===== src/Tests/ConnectRuns.antt =====
-- The play queue on an album of three tracks.
use squeezebox_radio_spotify.Connect.Queue.Adding.{
  leading, add_all, numbered, add_all-numbered, add_to_queue-upcoming,
}
use squeezebox_radio_spotify.Connect.Queue.Bounds.{Bounded}
use squeezebox_radio_spotify.Connect.Queue.FillUp.{index_of}
use squeezebox_radio_spotify.Connect.Queue.InOrder.{AllOrdinary, played, played-upcoming}
use squeezebox_radio_spotify.Connect.Queue.Playing.{Ordinary}
use squeezebox_radio_spotify.Connect.Queue.Refilling.{fill_up_next_tracks-upcoming}
use squeezebox_radio_spotify.Connect.Queue.Returning.{prev_track-next_track}
use squeezebox_radio_spotify.Connect.Queue.Sessions.{
  next, prev, add, shuffles, run_all, run_all-Bounded,
}
use squeezebox_radio_spotify.Connect.Queue.Upcoming.{Plain, kept, upcoming, rest_of}
use squeezebox_radio_spotify.Connect.State.{
  ok, Track, ConnectState, provider_context, StateContext, no_restrictions, default_context,
}
use squeezebox_radio_spotify.Connect.Text.{Text, has_prefix}
use squeezebox_radio_spotify.Connect.Tracks.{
  fill_up_next_tracks, next_track, prev_track, max_next, add_to_queue, queued_track,
}
use squeezebox_radio_spotify.Prelude.{
  ℕ, List, bytes_eq, [], codes, some, arith, none, ◌∷◌, ◌≡◌, Option, take, true, refl, false, ◌++◌,
  max, length, ◌≤◌,
}
use squeezebox_radio_spotify.Shuffle.{from}

abbrev one : Track
one = record { uri = codes "one"; uid = []; provider = provider_context; metadata = [] }

abbrev two : Track
two = record { uri = codes "two"; uid = []; provider = provider_context; metadata = [] }

abbrev three : Track
three = record { uri = codes "three"; uid = []; provider = provider_context; metadata = [] }

abbrev wish : Track
wish = record { uri = codes "wish"; uid = []; provider = provider_context; metadata = [] }

abbrev album_at : ℕ → StateContext
album_at n = record {
  tracks = from (one ∷ two ∷ three ∷ []);
  metadata = [];
  restrictions = none;
  index = record { page = 0; track = n };
}

abbrev session : List Text → Option Track → List Track → ℕ → ConnectState
session reasons current tracks n = record {
  player = record {
    track = current;
    prev_tracks = [];
    next_tracks = tracks;
    index = none;
    options = none;
    restrictions = some (record no_restrictions { disallow_toggling_shuffle = reasons });
    context_restrictions = none;
    context_metadata = [];
    context_uri = [];
    context_url = [];
    is_playing = true;
    is_paused = false;
    is_buffering = false;
    queue_revision = [];
  };
  unavailable_uri = [];
  queue_count = 0;
  active_context = default_context;
  fill_up_context = default_context;
  context = some (album_at n);
  autoplay_context = none;
}

-- The first track is played, and the others are next.
abbrev playing_one : ConnectState
playing_one = session [] (some one) (two ∷ three ∷ []) 3

playing_one-Plain : Plain playing_one (album_at 3)
playing_one-Plain = record {
  context = refl;
  fill_up = refl;
  no_autoplay = refl;
  no_repeat = refl;
  inside = omega arith;
  fits = omega arith;
}

two-Ordinary : Ordinary two
unfolding bytes_eq has_prefix
two-Ordinary = record { no_delimiter = refl; available = refl; no_autoplay = refl }

three-Ordinary : Ordinary three
unfolding bytes_eq has_prefix
three-Ordinary = record { no_delimiter = refl; available = refl; no_autoplay = refl }

nothing_next-Plain : Plain (session [] none [] 0) (album_at 0)
nothing_next-Plain = record {
  context = refl;
  fill_up = refl;
  no_autoplay = refl;
  no_repeat = refl;
  inside = omega arith;
  fits = omega arith;
}

fill_up_next_tracks-upcoming_example :
    let s = session [] none [] 0 in
    let t = (fill_up_next_tracks s).1 in
    ((fill_up_next_tracks s).0 ≡ ok tt)
    × (t.player.next_tracks ≡ take (max max_next (length s.player.next_tracks)) (upcoming s))
    × (upcoming t ≡ upcoming s)
    × (index_of t.context ≤ length (album_at 0).tracks.vec)
fill_up_next_tracks-upcoming_example =
    fill_up_next_tracks-upcoming (session [] none [] 0) (album_at 0) nothing_next-Plain

playing_one-ordinary : AllOrdinary (upcoming playing_one)
unfolding AllOrdinary kept
playing_one-ordinary = (two-Ordinary, (three-Ordinary, tt))

playing_one-full : playing_one.player.next_tracks ≡ take max_next (upcoming playing_one)
unfolding kept
playing_one-full = refl

played-upcoming_example : played 2 playing_one ≡ take 2 (upcoming playing_one)
played-upcoming_example =
    played-upcoming 2 playing_one (album_at 3) playing_one-Plain playing_one-full
      playing_one-ordinary

prev_track-next_track_example :
    let (result, s') = prev_track (next_track playing_one).1 in
    (result ≡ ok true)
    × (s'.player.track ≡ some one)
    × ((rest : List Track) × (s'.player.next_tracks ≡ two ∷ rest))
    × (s'.player.prev_tracks ≡ [])
unfolding bytes_eq has_prefix
prev_track-next_track_example =
    prev_track-next_track playing_one (album_at 3) one two (three ∷ []) playing_one-Plain refl refl
      refl refl refl two-Ordinary refl

run_all-Bounded_example :
    let operations = next ∷ add wish true ∷ prev ∷ shuffles true 7 ∷ next ∷ [] in
    Bounded (run_all (λ seed i. 0) operations playing_one)
run_all-Bounded_example =
    run_all-Bounded (λ seed i. 0) (next ∷ add wish true ∷ prev ∷ shuffles true 7 ∷ next ∷ [])
      playing_one (omega arith, omega arith)

add_to_queue-upcoming_example :
    upcoming (add_to_queue wish true playing_one)
    ≡ take max_next ([] ++ queued_track 0 wish ∷ two ∷ three ∷ [])
      ++ rest_of playing_one playing_one.context
unfolding bytes_eq leading
add_to_queue-upcoming_example = add_to_queue-upcoming wish true playing_one

add_all-numbered_example :
    (add_all (wish ∷ one ∷ []) playing_one).player.next_tracks
    ≡ [] ++ (numbered 0 (wish ∷ one ∷ []) ++ two ∷ three ∷ [])
unfolding bytes_eq leading
add_all-numbered_example = add_all-numbered (wish ∷ one ∷ []) playing_one (omega arith)
