-- ===== src/Connect/Queue/Filling.antt =====
-- `fill_up_next_tracks` ends, adds at the end only, and stops at 80 tracks.
use squeezebox_radio_spotify.Connect.Context.{
  update_context_index, change_context, get_context, context_of, put_context, is_skip_track,
}
use squeezebox_radio_spotify.Connect.State.{
  ConnectState, Track, ContextType, Player, StateContext, default_context, repeat_context,
  is_unavailable,
}
use squeezebox_radio_spotify.Connect.Tracks.{
  track_count, max_next, push_next, Filling, choose, pushes, at_end, fails, skips, transition,
  stops,
}
use squeezebox_radio_spotify.Prelude.{
  ℕ, List, [], length, ◌++◌, ◌≡◌, sym, ◌<◌, ◌∙◌, ◌+◌, ◌≤◌, append-nil, ap, max, arith, append_assoc,
  ◌∷◌, refl, length-append, Option, Option-cases, some, inl, none, inr, ◌%◌, ◌^◌, get_elem?, false,
  if◌then◌else◌, Bool, get_elem?-none, true, ◌||◌, get_elem?-some,
}

abbrev pub context_tracks : ConnectState → ℕ
context_tracks s = track_count s.context + track_count s.autoplay_context

-- A context, whatever track it is at.
abbrev pub unindexed : Option StateContext → Option StateContext
unindexed none = none
unindexed (some c) = some (record c { index = record c.index { track = 0 } })

-- What the loop leaves alone, and how it changes the next tracks.
pub record Filled (s t : ConnectState) : Type 0 where
  pub added : List Track
  pub next : t.player.next_tracks ≡ s.player.next_tracks ++ added
  pub player : t.player ≡ record s.player { next_tracks = t.player.next_tracks }
  pub bounded : length t.player.next_tracks ≤ max max_next (length s.player.next_tracks)
  pub context : unindexed t.context ≡ unindexed s.context
  pub autoplay : unindexed t.autoplay_context ≡ unindexed s.autoplay_context

pub Filled-refl : (s : ConnectState) → Filled s s
Filled-refl s = record {
  added = [];
  next = sym (append-nil s.player.next_tracks);
  player = refl;
  bounded = omega arith;
  context = refl;
  autoplay = refl;
}

pub Filled-push :
    (t : Track) (s : ConnectState)
    → length s.player.next_tracks < max_next
    → Filled s (push_next t s)
Filled-push t s h = record {
  added = t ∷ [];
  next = refl;
  player = refl;
  bounded = omega (arith, length-append s.player.next_tracks (t ∷ []));
  context = refl;
  autoplay = refl;
}

with_next : ConnectState → Player → Player
with_next u p = record p { next_tracks = u.player.next_tracks }

pub Filled-trans : {s t u : ConnectState} → Filled s t → Filled t u → Filled s u
unfolding with_next
Filled-trans {s} {t} {u} a b = record {
  added = a.added ++ b.added;
  next = b.next ∙ ap (λ n. n ++ b.added) a.next ∙ append_assoc s.player.next_tracks a.added b.added;
  player = b.player ∙ ap (with_next u) a.player;
  bounded = omega (arith, a.bounded, b.bounded);
  context = b.context ∙ a.context;
  autoplay = b.autoplay ∙ a.autoplay;
}

-- The player stays the same.
pub Filled-same :
    {s t : ConnectState}
    → t.player ≡ s.player
    → unindexed t.context ≡ unindexed s.context
    → unindexed t.autoplay_context ≡ unindexed s.autoplay_context
    → Filled s t
Filled-same {s} {t} p c a = record {
  added = [];
  next = ap (λ (q : Player). q.next_tracks) p ∙ sym (append-nil s.player.next_tracks);
  player =
      p
      ∙ sym (
          ap (λ (n : List Track). record s.player { next_tracks = n })
            (ap (λ (q : Player). q.next_tracks) p));
  bounded = omega (arith, ap (λ (q : Player). length q.next_tracks) p);
  context = c;
  autoplay = a;
}

put_context-Filled :
    (ty : ContextType) (n : ℕ) (s : ConnectState) (c : StateContext)
    → context_of ty s ≡ some c
    → Filled s (put_context ty (record c { index = record c.index { track = n } }) s)
put_context-Filled default_context n s c e = Filled-same refl (sym (ap unindexed e)) refl
put_context-Filled ContextType.autoplay n s c e = Filled-same refl refl (sym (ap unindexed e))

update_context_index-Filled :
    (ty : ContextType) (n : ℕ) (s : ConnectState) → Filled s (update_context_index ty n s).1
unfolding update_context_index change_context get_context
update_context_index-Filled ty n s = elim (Option-cases (context_of ty s)) [
  | inl none_e ↦ rw (none_e, update_context_index, change_context, get_context) (Filled-refl s)
  | inr (c, some_e) ↦
      rw (some_e, update_context_index, change_context, get_context)
        (put_context-Filled ty (n % 2 ^ 32) s c some_e)
]

-- The context that the tracks come from is there.
abbrev pub HasContext : ConnectState → Type 0
HasContext s = (c : StateContext) × (context_of s.fill_up_context s ≡ some c)

-- Nothing is left to be filled in.
abbrev pub NothingLeft : ConnectState → ℕ → Type 0
NothingLeft s n =
    (repeat_context s ≡ false)
    × ((c : StateContext) × (context_of s.fill_up_context s ≡ some c) × (length c.tracks.vec ≤ n))

-- What each choice of the loop tells.
unfoldable pub Choice : ConnectState → ℕ → Filling → Type 0
Choice s n (pushes t i j) = Unit
Choice s n skips = n < context_tracks s
Choice s n transition =
    (s.fill_up_context ≡ default_context) × ((c : StateContext) × (s.autoplay_context ≡ some c))
Choice s n stops = NothingLeft s n
Choice s n (fails e) = ⊥

pub choose-at_end :
    (s : ConnectState) (n j : ℕ) (c : StateContext)
    → context_of s.fill_up_context s ≡ some c
    → get_elem? c.tracks.vec n ≡ none
    → choose s n j ≡ at_end (repeat_context s) s.fill_up_context s.autoplay_context n j
unfolding choose get_context
choose-at_end s n j c e h = rw (e, choose, get_context) (rw h refl)

pub choose-track :
    {t : Track} (s : ConnectState) (n j : ℕ) (c : StateContext)
    → context_of s.fill_up_context s ≡ some c
    → get_elem? c.tracks.vec n ≡ some t
    → choose s n j
      ≡ (if is_unavailable t || is_skip_track t (some j) s then skips else pushes t (n + 1) j)
unfolding choose get_context
choose-track s n j c e h = rw (e, choose, get_context) (rw h refl)

if-Choice :
    (s : ConnectState) (n : ℕ) (b : Bool) (t : Track) (i j : ℕ)
    → n < context_tracks s
    → Choice s n (if b then skips else pushes t i j)
unfolding Choice
if-Choice s n true t i j h = h
if-Choice s n false t i j h = tt

track_count-of :
    (ty : ContextType) (s : ConnectState) (c : StateContext)
    → context_of ty s ≡ some c
    → length c.tracks.vec ≤ context_tracks s
track_count-of default_context s c e = omega (arith, ap track_count e)
track_count-of ContextType.autoplay s c e = omega (arith, ap track_count e)

at_end-Choice :
    (r : Bool) (ty : ContextType) (auto : Option StateContext) (s : ConnectState) (n j : ℕ)
    (c : StateContext)
    → r ≡ repeat_context s
    → ty ≡ s.fill_up_context
    → auto ≡ s.autoplay_context
    → context_of s.fill_up_context s ≡ some c
    → length c.tracks.vec ≤ n
    → Choice s n (at_end r ty auto n j)
unfolding Choice
at_end-Choice true ty auto s n j c r t a e h = tt
at_end-Choice false ty none s n j c r t a e h = (sym r, (c, e, h))
at_end-Choice false default_context (some d) s n j c r t a e h = (sym t, (d, sym a))
at_end-Choice false ContextType.autoplay (some d) s n j c r t a e h =
    elim (Option-cases (get_elem? d.tracks.vec n)) [
      | inl none_e ↦ rw (none_e, Choice) (sym r, (c, e, h))
      | inr (u, some_e) ↦ rw (some_e, Choice) tt
    ]

pub choose-Choice : (s : ConnectState) (n j : ℕ) → HasContext s → Choice s n (choose s n j)
choose-Choice s n j (c, e) = elim (Option-cases (get_elem? c.tracks.vec n)) [
  | inl none_e ↦ rw (choose-at_end s n j c e none_e) (
      at_end-Choice (repeat_context s) s.fill_up_context s.autoplay_context s n j c refl refl refl e
        (get_elem?-none c.tracks.vec n none_e))
  | inr (t, some_e) ↦ rw (choose-track s n j c e some_e) (
      if-Choice s n (is_unavailable t || is_skip_track t (some j) s) t (n + 1) j (
        omega
          (arith, track_count-of s.fill_up_context s c e, get_elem?-some c.tracks.vec n some_e)))
]
