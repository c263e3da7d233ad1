-- ===== src/Connect/Queue/Adding.antt =====
-- `add_to_queue` and `clear_queue`: queued tracks come before the others, in the order in which they
-- were added.
use mathlib.Core.Option
use squeezebox_radio_spotify.Connect.Queue.Playing.{rest_of-same}
use squeezebox_radio_spotify.Connect.Queue.Upcoming.{upcoming, rest_of}
use squeezebox_radio_spotify.Connect.State.{
  Track, is_queue, update_queue_revision, update_restrictions, ConnectState,
}
use squeezebox_radio_spotify.Connect.Tracks.{
  add_to_queue, insert_queued, queued_track, max_next, first_unqueued,
}
use squeezebox_radio_spotify.Prelude.{
  List, ◌∷◌, ◌++◌, if◌then◌else◌, ◌≡◌, Bool-cases, [], inl, ap, inr, refl, ℕ, true, Option, suc,
  Bool, some, none, take, ◌+◌, false, arith, bytes_eq, length, ◌∙◌, length-append, ◌<◌, ◌≤◌,
  take_all, sym, append_assoc, ap₂,
}
use squeezebox_radio_spotify.Shuffle.{position}

-- The queued tracks that come first, and the tracks behind them.
unfoldable pub leading : List Track → List Track × List Track
leading [] = ([], [])
leading (t ∷ ts) =
    let (queued, others) = leading ts in if is_queue t then (t ∷ queued, others) else ([], t ∷ ts)

leading-append : (ts : List Track) → (leading ts).0 ++ (leading ts).1 ≡ ts
unfolding leading
leading-append [] = refl
leading-append (t ∷ ts) = elim (Bool-cases (is_queue t)) [
  | inl queued ↦ rw (queued, leading) (ap (λ us. t ∷ us) (leading-append ts))
  | inr other ↦ rw (other, leading) refl
]

insert_queued-behind :
    (i : Option ℕ) (t u : Track) (ts : List Track)
    → insert_queued (Option.map suc i) t (u ∷ ts) ≡ u ∷ insert_queued i t ts
insert_queued-behind none t u ts = refl
insert_queued-behind (some i) t u ts = refl

insert_queued-leading :
    (t : Track) (ts : List Track)
    → insert_queued (first_unqueued ts) t ts ≡ (leading ts).0 ++ t ∷ (leading ts).1
unfolding leading position
insert_queued-leading t [] = refl
insert_queued-leading t (u ∷ ts) = elim (Bool-cases (is_queue u)) [
  | inl queued ↦
      rw (queued, leading)
        (insert_queued-behind (first_unqueued ts) t u ts
          ∙ ap (λ us. u ∷ us) (insert_queued-leading t ts))
  | inr other ↦ rw (other, leading) refl
]

-- The next tracks after one more has been added.
abbrev with_queued : ConnectState → Track → List Track
with_queued s t =
    let (queued, others) = leading s.player.next_tracks in
    queued ++ queued_track s.queue_count t ∷ others

add_to_queue-with_queued :
    (t : Track) (rev : Bool) (s : ConnectState)
    → (add_to_queue t rev s).player.next_tracks ≡ take max_next (with_queued s t)
unfolding add_to_queue update_queue_revision update_restrictions
add_to_queue-with_queued t true s =
    ap (take max_next) (insert_queued-leading (queued_track s.queue_count t) s.player.next_tracks)
add_to_queue-with_queued t false s =
    ap (take max_next) (insert_queued-leading (queued_track s.queue_count t) s.player.next_tracks)

add_to_queue-count :
    (t : Track) (rev : Bool) (s : ConnectState)
    → (add_to_queue t rev s).queue_count ≡ suc s.queue_count
unfolding add_to_queue update_queue_revision update_restrictions
add_to_queue-count t true s = omega arith
add_to_queue-count t false s = omega arith

queued_track-is_queue : (n : ℕ) (t : Track) → is_queue (queued_track n t) ≡ true
unfolding bytes_eq
queued_track-is_queue n t = refl

add_to_queue-rest_of :
    (t : Track) (rev : Bool) (s : ConnectState)
    → rest_of (add_to_queue t rev s) (add_to_queue t rev s).context ≡ rest_of s s.context
unfolding add_to_queue update_queue_revision update_restrictions
add_to_queue-rest_of t true s = rest_of-same s (add_to_queue t true s) s.context refl refl refl
add_to_queue-rest_of t false s = rest_of-same s (add_to_queue t false s) s.context refl refl refl

-- An added track is upcoming behind the queued tracks that come first and before the other next
-- tracks. Of these as many stay as there are places, and then comes the rest of the context: what is
-- beyond 80 tracks is not played any more.
pub add_to_queue-upcoming :
    (t : Track) (rev : Bool) (s : ConnectState)
    → let (queued, others) = leading s.player.next_tracks in
      upcoming (add_to_queue t rev s)
      ≡ take max_next (queued ++ queued_track s.queue_count t ∷ others) ++ rest_of s s.context
add_to_queue-upcoming t rev s =
    ap₂ (λ next rest. next ++ rest) (add_to_queue-with_queued t rev s)
      (add_to_queue-rest_of t rev s)

leading-insert :
    (t : Track) (ts : List Track)
    → is_queue t ≡ true
    → leading ((leading ts).0 ++ t ∷ (leading ts).1) ≡ ((leading ts).0 ++ t ∷ [], (leading ts).1)
unfolding leading
leading-insert t [] q = rw (q, leading) refl
leading-insert t (u ∷ ts) q = elim (Bool-cases (is_queue u)) [
  | inl queued ↦ rw (queued, leading) (rw (queued, leading) (rw (leading-insert t ts q) refl))
  | inr other ↦ rw (other, leading) (rw (q, leading) (rw (other, leading) refl))
]

-- Tracks that are added one after the other.
pub add_all : List Track → ConnectState → ConnectState
add_all [] s = s
add_all (t ∷ ts) s = add_all ts (add_to_queue t true s)

pub numbered : ℕ → List Track → List Track
numbered n [] = []
numbered n (t ∷ ts) = queued_track n t ∷ numbered (suc n) ts

length-with_queued :
    (s : ConnectState) (t : Track) → length (with_queued s t) ≡ suc (length s.player.next_tracks)
length-with_queued s t =
    let next = s.player.next_tracks in
    omega (
      arith,
      ap length (leading-append next),
      length-append (leading next).0 (leading next).1,
      length-append (leading next).0 (queued_track s.queue_count t ∷ (leading next).1),
    )

add_to_queue-room :
    (t : Track) (s : ConnectState)
    → length s.player.next_tracks < max_next
    → (add_to_queue t true s).player.next_tracks ≡ with_queued s t
add_to_queue-room t s h =
    add_to_queue-with_queued t true s
    ∙ take_all max_next (with_queued s t) (omega (arith, length-with_queued s t))

-- Tracks that are added to the queue come behind the queued tracks that come first, in the order in
-- which they are added and numbered on, and before all other next tracks, if there is room for them.
pub add_all-numbered :
    (ts : List Track) (s : ConnectState)
    → length s.player.next_tracks + length ts ≤ max_next
    → let (queued, others) = leading s.player.next_tracks in
      (add_all ts s).player.next_tracks ≡ queued ++ (numbered s.queue_count ts ++ others)
unfolding add_all numbered
add_all-numbered [] s h = sym (leading-append s.player.next_tracks)
add_all-numbered (t ∷ ts) s h =
    let s' = add_to_queue t true s in
    let added = add_to_queue-room t s (omega arith) in
    let (queued, others) = leading s.player.next_tracks in
    let split : leading s'.player.next_tracks
        ≡ (queued ++ queued_track s.queue_count t ∷ [], others) =
      ap leading added
      ∙ leading-insert (queued_track s.queue_count t) s.player.next_tracks
          (queued_track-is_queue s.queue_count t) in
    add_all-numbered ts s' (omega (arith, ap length added, length-with_queued s t))
    ∙ ap (λ r. r.0 ++ (numbered s'.queue_count ts ++ r.1)) split
    ∙ ap (λ n. (queued ++ queued_track s.queue_count t ∷ []) ++ (numbered n ts ++ others))
        (add_to_queue-count t true s)
    ∙ append_assoc queued (queued_track s.queue_count t ∷ [])
        (numbered (suc s.queue_count) ts ++ others)
