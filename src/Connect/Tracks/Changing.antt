-- ===== src/Connect/Tracks/Changing.antt =====
-- state/tracks.rs: clearing the lists, the `set_queue` command, adding to the queue, and tracks that
-- become unavailable.
use squeezebox_radio_spotify.Connect.State.{
  ◌>>◌, Track, ConnectState, update_queue_revision, Act, modify, update_restrictions, is_queue,
  is_empty, current_track, is_from_queue, provider_queue, provider_unavailable,
}
use squeezebox_radio_spotify.Connect.Text.{Text, decimal, with_entry}
use squeezebox_radio_spotify.Connect.Tracks.Fill.{fill_up_next_tracks}
use squeezebox_radio_spotify.Connect.Tracks.Lists.{set_prev, set_next, max_next}
use squeezebox_radio_spotify.Prelude.{
  ℕ, List, Bool, Option, codes, if◌then◌else◌, ◌++◌, ◌∷◌, [], take, none, some, map, not, leb, ◌+◌,
  length, drop, bytes_eq,
}
use squeezebox_radio_spotify.Shuffle.{position}

-- `retain(|t| !t.is_queue())`
unfoldable pub retain_unqueued : List Track → List Track
retain_unqueued [] = []
retain_unqueued (t ∷ ts) = let rest = retain_unqueued ts in if is_queue t then rest else t ∷ rest

unfoldable pub clear_queue : Act (Unit {0})
unfolding fill_up_next_tracks update_queue_revision retain_unqueued
clear_queue = do
  modify λ s. set_next (retain_unqueued s.player.next_tracks) s
  fill_up_next_tracks
  modify update_queue_revision

abbrev pub clear_prev_track : ConnectState → ConnectState
clear_prev_track s = set_prev [] s

-- `position(|t| !t.is_queue())`
abbrev pub first_unqueued : List Track → Option ℕ
first_unqueued = position λ t. not (is_queue t)

-- `pop` until at most `n` are left.
abbrev pub pop_to : ℕ → List Track → List Track
pop_to n tracks = take n tracks

unfoldable pub clear_next_tracks : ConnectState → ConnectState
clear_next_tracks s = elim (first_unqueued s.player.next_tracks) [
  | none ↦ s
  | some n ↦ set_next (pop_to n s.player.next_tracks) s
]

-- The entries of a `set_queue` command that are queued tracks get a new uid, in their order.
unfoldable pub claim_queued : ℕ → List Track → List Track × ℕ
claim_queued count [] = ([], count)
claim_queued count (t ∷ ts) =
    let queued = claim_queued (count + 1) ts in
    let other = claim_queued count ts in
    if is_from_queue t
    then (
      record t { provider = provider_queue; uid = codes "q" ++ decimal count } ∷ queued.0,
      queued.1,
    )
    else (t ∷ other.0, other.1)

-- An entry without a uri is the current track.
abbrev pub name_empty : Text → Track → Track
name_empty uri t = if is_empty t.uri then record t { uri = uri } else t

unfoldable pub set_next_tracks : List Track → ConnectState → ConnectState
unfolding claim_queued
set_next_tracks tracks s =
    let (claimed, count) = claim_queued s.queue_count tracks in
    set_next (map (name_empty (current_track s).uri) claimed) (record s { queue_count = count })

abbrev pub set_prev_tracks : List Track → ConnectState → ConnectState
set_prev_tracks tracks s = set_prev tracks s

-- `handle_set_queue`
unfoldable pub handle_set_queue : List Track → List Track → ConnectState → ConnectState
unfolding set_next_tracks update_queue_revision
handle_set_queue next prev s = update_queue_revision (set_prev_tracks prev (set_next_tracks next s))

-- A track behind the queued ones that come first.
abbrev pub insert_queued : Option ℕ → Track → List Track → List Track
insert_queued none t next = next ++ t ∷ []
insert_queued (some n) t next = take n next ++ t ∷ drop n next

abbrev pub queued_track : ℕ → Track → Track
queued_track count t = record t {
  uid = codes "q" ++ decimal count;
  provider = provider_queue;
  metadata =
      if is_from_queue t
      then t.metadata
      else with_entry (codes "is_queued") (codes "true") t.metadata;
}

unfoldable pub add_to_queue : Track → Bool → ConnectState → ConnectState
unfolding update_queue_revision update_restrictions
add_to_queue t rev_update s =
    let next = s.player.next_tracks in
    let longer = insert_queued (first_unqueued next) (queued_track s.queue_count t) next in
    let s' = set_next (pop_to max_next longer) (record s { queue_count = s.queue_count + 1 }) in
    update_restrictions (if rev_update then update_queue_revision s' else s')

-- The loops that remove a uri.
unfoldable pub without_uri : Text → List Track → List Track
without_uri uri [] = []
without_uri uri (t ∷ ts) =
    let rest = without_uri uri ts in if bytes_eq t.uri uri then rest else t ∷ rest

-- `mark_as_unavailable_for_match`
abbrev pub mark_match : Text → Track → Track
mark_match uri t = if bytes_eq t.uri uri then record t { provider = provider_unavailable } else t

unfoldable pub mark_unavailable : Text → Act (Unit {0})
unfolding without_uri fill_up_next_tracks update_queue_revision
mark_unavailable uri = do
  modify λ s. record s {
    player = record s.player {
      next_tracks = map (mark_match uri) (without_uri uri s.player.next_tracks);
      prev_tracks = map (mark_match uri) (without_uri uri s.player.prev_tracks);
    };
    unavailable_uri = s.unavailable_uri ++ uri ∷ [];
  }
  fill_up_next_tracks
  modify update_queue_revision

abbrev pub has_next_tracks : Option ℕ → ConnectState → Bool
has_next_tracks none s = not (is_empty s.player.next_tracks)
has_next_tracks (some min) s = leb min (length s.player.next_tracks)

abbrev pub recent_track_uris : ConnectState → List Text
recent_track_uris s = map (λ t. t.uri) s.player.prev_tracks ++ (current_track s).uri ∷ []
