-- ===== src/Connect/Queue/Commands.antt =====
-- Every operation on the queue but `handle_set_queue` keeps to the limits, in any order of calls.
use squeezebox_radio_spotify.Connect.Context.{
  change_context, unshuffle_default, ResetContext, reset_context, get_context, set_active_context,
  reset_by, when_different, reset_kind, context_of, completely, unshuffle_context, default_index,
}
use squeezebox_radio_spotify.Connect.Queue.Bounds.{Bounded, fill_up_next_tracks-Bounded}
use squeezebox_radio_spotify.Connect.Queue.Keeps.{Keeps, Keeps-after}
use squeezebox_radio_spotify.Connect.State.{
  ConnectState, update_queue_revision, update_restrictions, Track, ContextType, ◌>>◌, StateContext,
  modify, is_queue,
}
use squeezebox_radio_spotify.Connect.Text.{Text}
use squeezebox_radio_spotify.Connect.Tracks.{
  retain_unqueued, without_uri, clear_queue, clear_next_tracks, add_to_queue, mark_unavailable,
  fill_up_next_tracks, set_next, first_unqueued, mark_match, max_next, insert_queued, queued_track,
}
use squeezebox_radio_spotify.Prelude.{
  List, length, Option-cases, Bool, map, ◌≤◌, arith, inl, ◌∷◌, inr, length-take, ◌++◌, Bool-cases,
  [], bytes_eq, true, false, length-map,
}

pub length-retain_unqueued : (ts : List Track) → length (retain_unqueued ts) ≤ length ts
unfolding retain_unqueued
length-retain_unqueued [] = omega arith
length-retain_unqueued (t ∷ ts) = elim (Bool-cases (is_queue t)) [
  | inl queued ↦ rw (queued, retain_unqueued) (omega (arith, length-retain_unqueued ts))
  | inr other ↦ rw (other, retain_unqueued) (omega (arith, length-retain_unqueued ts))
]

pub length-without_uri : (uri : Text) (ts : List Track) → length (without_uri uri ts) ≤ length ts
unfolding without_uri
length-without_uri uri [] = omega arith
length-without_uri uri (t ∷ ts) = elim (Bool-cases (bytes_eq t.uri uri)) [
  | inl same ↦ rw (same, without_uri) (omega (arith, length-without_uri uri ts))
  | inr other ↦ rw (other, without_uri) (omega (arith, length-without_uri uri ts))
]

-- Filling up, and what comes after it, which leaves the lists alone.
pub filled-Bounded :
    (f : ConnectState → ConnectState)
    → ((s : ConnectState) → Bounded s → Bounded (f s))
    → Keeps Bounded (fill_up_next_tracks >> modify f)
filled-Bounded f h s b =
    Keeps-after Bounded (fill_up_next_tracks s) _ (fill_up_next_tracks-Bounded s b) λ _ u c. h u c

revision-Bounded : (s : ConnectState) → Bounded s → Bounded (update_queue_revision s)
unfolding update_queue_revision
revision-Bounded s b = b

pub restrictions-Bounded : (s : ConnectState) → Bounded s → Bounded (update_restrictions s)
unfolding update_restrictions
restrictions-Bounded s b = b

pub clear_queue-Bounded : Keeps Bounded clear_queue
unfolding clear_queue
clear_queue-Bounded s (p, n) =
    filled-Bounded update_queue_revision revision-Bounded
      (set_next (retain_unqueued s.player.next_tracks) s)
      (p, omega (arith, length-retain_unqueued s.player.next_tracks))

pub clear_next_tracks-Bounded : (s : ConnectState) → Bounded s → Bounded (clear_next_tracks s)
unfolding clear_next_tracks
clear_next_tracks-Bounded s (p, n) = elim (Option-cases (first_unqueued s.player.next_tracks)) [
  | inl none_e ↦ rw (none_e, clear_next_tracks) (p, n)
  | inr (i, some_e) ↦
      rw (some_e, clear_next_tracks) (p, omega (arith, length-take i s.player.next_tracks))
]

pub add_to_queue-Bounded :
    (t : Track) (rev : Bool) (s : ConnectState) → Bounded s → Bounded (add_to_queue t rev s)
unfolding add_to_queue update_queue_revision update_restrictions
add_to_queue-Bounded t true s (p, n) = (
  p,
  omega (
    arith,
    length-take max_next (
        insert_queued (first_unqueued s.player.next_tracks) (queued_track s.queue_count t)
          s.player.next_tracks),
  ),
)
add_to_queue-Bounded t false s (p, n) = (
  p,
  omega (
    arith,
    length-take max_next (
        insert_queued (first_unqueued s.player.next_tracks) (queued_track s.queue_count t)
          s.player.next_tracks),
  ),
)

pub mark_unavailable-Bounded : (uri : Text) → Keeps Bounded (mark_unavailable uri)
unfolding mark_unavailable
mark_unavailable-Bounded uri s (p, n) =
    filled-Bounded update_queue_revision revision-Bounded
      (record s {
        player = record s.player {
          next_tracks = map (mark_match uri) (without_uri uri s.player.next_tracks);
          prev_tracks = map (mark_match uri) (without_uri uri s.player.prev_tracks);
        };
        unavailable_uri = s.unavailable_uri ++ uri ∷ [];
      })
      (
        omega (
          arith,
          length-map (mark_match uri) (without_uri uri s.player.prev_tracks),
          length-without_uri uri s.player.prev_tracks,
        ),
        omega (
          arith,
          length-map (mark_match uri) (without_uri uri s.player.next_tracks),
          length-without_uri uri s.player.next_tracks,
        ),
      )

pub change_context-Bounded :
    (ty : ContextType) (f : StateContext → StateContext) → Keeps Bounded (change_context ty f)
unfolding change_context get_context
change_context-Bounded ty f s b = elim (Option-cases (context_of ty s)) [
  | inl none_e ↦ rw (none_e, change_context, get_context) b
  | inr (c, some_e) ↦ rw (some_e, change_context, get_context) b
]

unshuffle_default-Bounded : Keeps Bounded unshuffle_default
unfolding unshuffle_default
unshuffle_default-Bounded s b = elim (Option-cases s.context) [
  | inl none_e ↦ rw (none_e, unshuffle_default) b
  | inr (c, some_e) ↦ elim (Option-cases (unshuffle_context c)) [
    | inl panic_e ↦ rw (some_e, unshuffle_default) (rw panic_e b)
    | inr (c', ok_e) ↦ rw (some_e, unshuffle_default) (rw ok_e b)
  ]
]

reset_by-Bounded : (kind : ResetContext) (s : ConnectState) → Bounded s → Bounded (reset_by kind s)
reset_by-Bounded (when_different uri) s b = b
reset_by-Bounded completely s b = b
reset_by-Bounded default_index s b = b

pub reset_context-Bounded : (kind : ResetContext) → Keeps Bounded (reset_context kind)
unfolding reset_context set_active_context update_restrictions
reset_context-Bounded kind s b =
    Keeps-after Bounded (unshuffle_default s) _ (unshuffle_default-Bounded s b)
      λ _ u c. reset_by-Bounded (reset_kind kind s) u c
