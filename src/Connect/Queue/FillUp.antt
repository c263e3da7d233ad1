-- ===== src/Connect/Queue/FillUp.antt =====
-- `fill_up_next_tracks` as a whole: it succeeds where there is a context, and leaves the lists and
-- the revision as they should be.
use native.Mathlib.Nat.{mul-le-mul_right}
use squeezebox_radio_spotify.Connect.Context.{
  update_context_index, change_context, get_context, context_of, put_context,
}
use squeezebox_radio_spotify.Connect.Queue.Filling.{
  unindexed, NothingLeft, Filled, HasContext, context_tracks,
}
use squeezebox_radio_spotify.Connect.Queue.Loop.{rounds, fill_loop-Ends}
use squeezebox_radio_spotify.Connect.State.{
  ConnectState, ContextType, StateContext, Track, update_queue_revision, ok, default_context,
  Player,
}
use squeezebox_radio_spotify.Connect.Tracks.{
  fill_up_next_tracks, fill_loop, fill_fuel, max_next, track_count,
}
use squeezebox_radio_spotify.Prelude.{
  Option, ℕ, List, some, ◌%◌, ◌≡◌, ◌^◌, none, ◌++◌, map, refl, length, ◌≤◌, max, ◌⊎◌, sym, inl, ap,
  inr, ◌∙◌, arith, ◌<◌, ◌-◌, suc,
}

abbrev pub index_of : Option StateContext → ℕ
index_of none = 0
index_of (some c) = c.index.track

-- What filling up does.
pub record FilledUp (s t : ConnectState) : Type 0 where
  pub added : List Track
  pub index : ℕ
  pub next : t.player.next_tracks ≡ s.player.next_tracks ++ added
  pub player : t.player ≡ record s.player {
    next_tracks = t.player.next_tracks;
    queue_revision = map (λ t. t.uri) t.player.next_tracks;
  }
  pub bounded : length t.player.next_tracks ≤ max max_next (length s.player.next_tracks)
  pub context : unindexed t.context ≡ unindexed s.context
  pub autoplay : unindexed t.autoplay_context ≡ unindexed s.autoplay_context
  pub saved : index_of (context_of t.fill_up_context t) ≡ index % 2 ^ 32
  pub complete : (max_next ≤ length t.player.next_tracks) ⊎ NothingLeft t index

abbrev pub at_index : ℕ → StateContext → StateContext
at_index n c = record c { index = record c.index { track = n % 2 ^ 32 } }

update_context_index-put :
    (ty : ContextType) (n : ℕ) (s : ConnectState) (c : StateContext)
    → context_of ty s ≡ some c
    → update_context_index ty n s ≡ (ok tt, put_context ty (at_index n c) s)
unfolding update_context_index change_context get_context
update_context_index-put ty n s c e = rw (e, update_context_index, change_context, get_context) refl

context_of-put :
    (ty : ContextType) (c : StateContext) (s : ConnectState)
    → context_of ty (put_context ty c s) ≡ some c
context_of-put default_context c s = refl
context_of-put ContextType.autoplay c s = refl

-- The loop's end, with the index saved and the revision updated.
abbrev pub finished : ℕ → StateContext → ConnectState → ConnectState
finished n c s = update_queue_revision (put_context s.fill_up_context (at_index n c) s)

pub fill_up_next_tracks-finished :
    (s : ConnectState) (c d : StateContext) (n : ℕ) (t : ConnectState)
    → context_of s.fill_up_context s ≡ some c
    → fill_loop (fill_fuel s) c.index.track c.index.page s ≡ (ok n, t)
    → context_of t.fill_up_context t ≡ some d
    → fill_up_next_tracks s ≡ (ok tt, finished n d t)
unfolding fill_up_next_tracks get_context
fill_up_next_tracks-finished s c d n t e h k =
    rw (e, fill_up_next_tracks, get_context)
      (rw h (rw (update_context_index-put t.fill_up_context n t d k) refl))

put_context-unindexed :
    (ty : ContextType) (n : ℕ) (c : StateContext) (s : ConnectState)
    → context_of ty s ≡ some c
    → (unindexed (put_context ty (at_index n c) s).context ≡ unindexed s.context)
      × (unindexed (put_context ty (at_index n c) s).autoplay_context
          ≡ unindexed s.autoplay_context)
put_context-unindexed default_context n c s e = (sym (ap unindexed e), refl)
put_context-unindexed ContextType.autoplay n c s e = (refl, sym (ap unindexed e))

context_of-finished :
    (ty : ContextType) (c : StateContext) (s : ConnectState)
    → context_of ty (update_queue_revision (put_context ty c s)) ≡ some c
unfolding update_queue_revision
context_of-finished default_context c s = refl
context_of-finished ContextType.autoplay c s = refl

finished_complete :
    (t : ConnectState) (n : ℕ) (d : StateContext)
    → context_of t.fill_up_context t ≡ some d
    → (max_next ≤ length t.player.next_tracks) ⊎ NothingLeft t n
    → (max_next ≤ length (finished n d t).player.next_tracks) ⊎ NothingLeft (finished n d t) n
unfolding update_queue_revision
finished_complete t n d e (inl full) = inl full
finished_complete t n d e (inr (r, (c, f, l))) =
    let same : length d.tracks.vec ≡ length c.tracks.vec = ap track_count (sym e ∙ f) in
    inr (
      r,
      (at_index n d, context_of-finished t.fill_up_context (at_index n d) t, omega (arith, same)),
    )

finished-FilledUp :
    (s t : ConnectState) (n : ℕ) (d : StateContext)
    → Filled s t
    → context_of t.fill_up_context t ≡ some d
    → (max_next ≤ length t.player.next_tracks) ⊎ NothingLeft t n
    → FilledUp s (finished n d t)
unfolding update_queue_revision
finished-FilledUp s t n d f e h =
    let (c, a) = put_context-unindexed t.fill_up_context n d t e in
    record {
      added = f.added;
      index = n;
      next = f.next;
      player =
          ap
            (λ (p : Player). record p {
              next_tracks = t.player.next_tracks;
              queue_revision = map (λ t. t.uri) t.player.next_tracks;
            })
            f.player;
      bounded = f.bounded;
      context = c ∙ f.context;
      autoplay = a ∙ f.autoplay;
      saved = ap index_of (context_of-finished t.fill_up_context (at_index n d) t);
      complete = finished_complete t n d e h;
    }

enough_fuel : (s : ConnectState) (n : ℕ) → rounds s n < fill_fuel s
enough_fuel s n =
    let less : max_next - length s.player.next_tracks ≤ max_next = omega arith in
    omega (arith, mul-le-mul_right (suc (context_tracks s)) less)

pub fill_up_next_tracks-FilledUp :
    (s : ConnectState)
    → HasContext s
    → ((fill_up_next_tracks s).0 ≡ ok tt) × FilledUp s (fill_up_next_tracks s).1
fill_up_next_tracks-FilledUp s (c, e) =
    let ends =
      fill_loop-Ends (fill_fuel s) c.index.track c.index.page s (c, e)
        (enough_fuel s c.index.track) in
    let t = (fill_loop (fill_fuel s) c.index.track c.index.page s).1 in
    let (d, k) = ends.has_context in
    rw (fill_up_next_tracks-finished s c d ends.index t e (λ i. (ends.result i, t)) k)
      (refl, finished-FilledUp s t ends.index d ends.filled k ends.complete)
