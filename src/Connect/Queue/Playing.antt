-- ===== src/Connect/Queue/Playing.antt =====
-- `next_track` plays what is upcoming, in its order.
use squeezebox_radio_spotify.Connect.Context.{context_of}
use squeezebox_radio_spotify.Connect.Queue.Filling.{unindexed}
use squeezebox_radio_spotify.Connect.Queue.Refilling.{kept-ext, is_skip_track-unindexed}
use squeezebox_radio_spotify.Connect.Queue.Upcoming.{Plain, rest_of, fillable}
use squeezebox_radio_spotify.Connect.State.{
  ConnectState, Track, ContextType, StateContext, PlayerOptions, ContextIndex, update_current_index,
  is_autoplay, options_or_default, is_unavailable, repeat_context, default_context, repeat_track,
  is_queue, get_context_index,
}
use squeezebox_radio_spotify.Connect.Tracks.{
  set_repeat_track, take_next, advance, mark_index, is_delimiter, end_repeat, keep_prev,
}
use squeezebox_radio_spotify.Prelude.{
  Option, List, ◌≡◌, none, ◌∷◌, false, some, Bool-cases, ◌∙◌, refl, drop, inl, ap, inr, not,
  Option-cases, ◌||◌, ◌%◌, ◌^◌,
}

pub context_of-same :
    (s u : ConnectState) (ty : ContextType)
    → u.context ≡ s.context
    → u.autoplay_context ≡ s.autoplay_context
    → context_of ty u ≡ context_of ty s
context_of-same s u default_context c a = c
context_of-same s u ContextType.autoplay c a = a

-- What is left of a context, where the contexts stay the same.
pub rest_of-same :
    (s u : ConnectState) (o : Option StateContext)
    → u.active_context ≡ s.active_context
    → u.context ≡ s.context
    → u.autoplay_context ≡ s.autoplay_context
    → rest_of u o ≡ rest_of s o
rest_of-same s u none t c a = refl
rest_of-same s u (some d) t c a =
    kept-ext (fillable u d.index.page) (fillable s d.index.page) (drop d.index.track d.tracks.vec)
      λ x.
        ap (λ b. not (is_unavailable x || b))
          (is_skip_track-unindexed x (some d.index.page) s u (
            ap unindexed (ap (λ ty. context_of ty u) t ∙ context_of-same s u s.active_context c a)))

-- A track of a context, or a queued one, that can be played.
pub record Ordinary (t : Track) : Type 0 where
  pub no_delimiter : is_delimiter t ≡ false
  pub available : is_unavailable t ≡ false
  pub no_autoplay : is_autoplay t ≡ false

abbrev pub with_options : Option PlayerOptions → ConnectState → ConnectState
with_options o s = record s { player = record s.player { options = o } }

pub end_repeat-with_options :
    (s : ConnectState)
    → (o : Option PlayerOptions) × ((end_repeat s ≡ with_options o s)
        × ((options_or_default o).repeating_context ≡ repeat_context s))
unfolding set_repeat_track
end_repeat-with_options s = elim (Bool-cases (repeat_track s)) [
  | inl once ↦ (
    some (record (options_or_default s.player.options) { repeating_track = false }),
    (rw (once, set_repeat_track) refl, refl),
  )
  | inr more ↦ (s.player.options, (rw more refl, refl))
]

-- The state between two tracks.
abbrev pub taken : Option PlayerOptions → List Track → ConnectState → ConnectState
taken o next s = record s {
  player = record s.player {
    options = o;
    track = none;
    prev_tracks = keep_prev s.player.track s.player.prev_tracks;
    next_tracks = next;
  };
}

take_next-Ordinary :
    (t : Track) (prev next : List Track)
    → Ordinary t
    → take_next prev (t ∷ next) ≡ (some t, prev, next)
unfolding take_next
take_next-Ordinary t prev next o = rw (o.no_delimiter, take_next) (rw o.available refl)

pub advance-taken :
    (s : ConnectState) (t : Track) (ts : List Track) (o : Option PlayerOptions)
    → s.player.next_tracks ≡ t ∷ ts
    → Ordinary t
    → end_repeat s ≡ with_options o s
    → advance s ≡ (some t, taken o ts s)
unfolding advance
advance-taken s t ts o e ord r =
    rw (r, advance)
      (rw e (rw (take_next-Ordinary t (keep_prev s.player.track s.player.prev_tracks) ts ord) refl))

pub taken-Plain :
    (s : ConnectState) (c : StateContext) (o : Option PlayerOptions) (ts : List Track)
    → Plain s c
    → (options_or_default o).repeating_context ≡ repeat_context s
    → Plain (taken o ts s) c
taken-Plain s c o ts plain r = record {
  context = plain.context;
  fill_up = plain.fill_up;
  no_autoplay = plain.no_autoplay;
  no_repeat = r ∙ plain.no_repeat;
  inside = plain.inside;
  fits = plain.fits;
}

abbrev pub with_index : Option ContextIndex → ConnectState → ConnectState
with_index i s = record s { player = record s.player { index = i } }

pub mark_index-with_index :
    (t : Track) (s : ConnectState)
    → is_autoplay t ≡ false
    → (i : Option ContextIndex) × (mark_index t s ≡ with_index i s)
unfolding mark_index update_current_index
mark_index-with_index t s no_auto = elim (Bool-cases (is_queue t)) [
  | inl queued ↦ (none, rw (queued, mark_index) refl)
  | inr other ↦ elim (Option-cases (get_context_index t)) [
    | inl none_e ↦ (none, rw (other, mark_index) (rw no_auto (rw none_e refl)))
    | inr (n, some_e) ↦ (
      (update_current_index (n % 2 ^ 32) s).player.index,
      rw (other, mark_index) (rw no_auto (rw some_e refl)),
    )
  ]
]
