-- ===== src/Connect/Queue/Upcoming.antt =====
-- What the queue will play: the next tracks, and the rest of the context. Filling up moves tracks
-- from the second to the first.
use squeezebox_radio_spotify.Connect.Context.{is_skip_track, context_of, skips_in}
use squeezebox_radio_spotify.Connect.Queue.Filling.{choose-at_end, choose-track}
use squeezebox_radio_spotify.Connect.State.{
  ConnectState, Track, ContextType, StateContext, Result, is_unavailable, ok, default_context,
  repeat_context,
}
use squeezebox_radio_spotify.Connect.Tracks.{
  set_next, fill_loop, max_next, choose, stops, pushes, skips,
}
use squeezebox_radio_spotify.Prelude.{
  Bool, List, ◌∷◌, ℕ, Option, ◌++◌, if◌then◌else◌, not, [], ◌≡◌, suc, drop, get_elem?, some, ltb,
  sym, ap, none, length, refl, ◌||◌, get_elem?-drop, ◌+◌, ◌<◌, false, ◌∙◌, arith, ◌≤◌, drop-drop,
  ◌^◌, zero, Bool-cases, true, inl, inr,
}

-- `retain`
unfoldable pub kept {ℓ} : {A : Type ℓ} → (A → Bool) → List A → List A
kept f [] = []
kept f (x ∷ xs) = let rest = kept f xs in if f x then x ∷ rest else rest

abbrev pub fillable : ConnectState → ℕ → Track → Bool
fillable s j t = not (is_unavailable t || is_skip_track t (some j) s)

-- What is left of a context.
abbrev pub rest_of : ConnectState → Option StateContext → List Track
rest_of s none = []
rest_of s (some c) = kept (fillable s c.index.page) (drop c.index.track c.tracks.vec)

abbrev pub upcoming : ConnectState → List Track
upcoming s = s.player.next_tracks ++ rest_of s s.context

-- A session that plays one context to its end.
pub record Plain (s : ConnectState) (c : StateContext) : Type 0 where
  pub context : s.context ≡ some c
  pub fill_up : s.fill_up_context ≡ default_context
  pub no_autoplay : s.autoplay_context ≡ none
  pub no_repeat : repeat_context s ≡ false
  pub inside : c.index.track ≤ length c.tracks.vec
  pub fits : length c.tracks.vec < 2 ^ 32

-- The loop of `fill_up_next_tracks` on lists: the index, the next tracks, and what is left.
unfoldable pub top_up : (Track → Bool) → List Track → ℕ → List Track → ℕ × List Track × List Track
top_up f [] n next = (n, next, [])
top_up f (t ∷ ts) n next =
    let taken = top_up f ts (n + 1) (next ++ t ∷ []) in
    let passed = top_up f ts (suc n) next in
    if ltb (length next) max_next then if f t then taken else passed else (n, next, t ∷ ts)

pub context_of-next :
    (ty : ContextType) (next : List Track) (s : ConnectState)
    → context_of ty (set_next next s) ≡ context_of ty s
context_of-next default_context next s = refl
context_of-next ContextType.autoplay next s = refl

pub is_skip_track-next :
    (t : Track) (i : Option ℕ) (next : List Track) (s : ConnectState)
    → is_skip_track t i (set_next next s) ≡ is_skip_track t i s
unfolding is_skip_track
is_skip_track-next t i next s = ap (λ o. skips_in o t i) (context_of-next s.active_context next s)

-- What is left at an index, and one further on.
left_at : (ts vec : List Track) (n : ℕ) → drop n vec ≡ ts → get_elem? vec n ≡ get_elem? ts 0
left_at ts vec n e = sym (get_elem?-drop n vec) ∙ ap (λ us. get_elem? us 0) e

pub left_after :
    (t : Track) (ts vec : List Track) (n : ℕ) → drop n vec ≡ t ∷ ts → drop (suc n) vec ≡ ts
left_after t ts vec n e =
    ap (λ k. drop k vec) {x = suc n} {y = n + 1} (omega arith)
    ∙ sym (drop-drop n 1 vec)
    ∙ ap (drop 1) e

-- The result of the loop.
abbrev pub refilled : ConnectState → ℕ × List Track × List Track → Result ℕ × ConnectState
refilled s r = (ok r.0, set_next r.1 s)

if-not {ℓ} : {A : Type ℓ} (b : Bool) (x y : A) → (if b then x else y) ≡ (if not b then y else x)
if-not true x y = refl
if-not false x y = refl

module _ (s : ConnectState) (c : StateContext) (plain : Plain s c) (j : ℕ) where
  pub context-next : (next : List Track) → context_of s.fill_up_context (set_next next s) ≡ some c
  context-next next = ap (λ ty. context_of ty (set_next next s)) plain.fill_up ∙ plain.context

  choose-left_none :
      (next : List Track) (n : ℕ) → drop n c.tracks.vec ≡ [] → choose (set_next next s) n j ≡ stops
  choose-left_none next n e =
      choose-at_end (set_next next s) n j c (context-next next) (left_at [] c.tracks.vec n e)
      ∙ rw plain.no_repeat (rw plain.no_autoplay refl)

  choose-left :
      (t : Track) (ts next : List Track) (n : ℕ)
      → drop n c.tracks.vec ≡ t ∷ ts
      → choose (set_next next s) n j ≡ (if fillable s j t then pushes t (n + 1) j else skips)
  choose-left t ts next n e =
      choose-track (set_next next s) n j c (context-next next) (left_at (t ∷ ts) c.tracks.vec n e)
      ∙ rw (is_skip_track-next t (some j) next s)
          (if-not (is_unavailable t || is_skip_track t (some j) s) skips (pushes t (n + 1) j))

  pub fill_loop-top_up :
      (ts : List Track) (fuel n : ℕ) (next : List Track)
      → drop n c.tracks.vec ≡ ts
      → length ts < fuel
      → fill_loop fuel n j (set_next next s) ≡ refilled s (top_up (fillable s j) ts n next)
  unfolding fill_loop top_up
  fill_loop-top_up ts zero n next e h = absurd (omega arith)
  fill_loop-top_up [] (suc fuel) n next e h = elim (Bool-cases (ltb (length next) max_next)) [
    | inl short ↦ rw (short, fill_loop) (rw (choose-left_none next n e) refl)
    | inr full ↦ rw (full, fill_loop) refl
  ]
  fill_loop-top_up (t ∷ ts) (suc fuel) n next e h = elim (Bool-cases (ltb (length next) max_next)) [
    | inl short ↦ elim (Bool-cases (fillable s j t)) [
      | inl taken ↦
          rw (short, fill_loop, top_up)
            (rw (choose-left t ts next n e) (
              rw taken (
                fill_loop-top_up ts fuel (n + 1) (next ++ t ∷ [])
                  (ap (λ k. drop k c.tracks.vec) {x = n + 1} {y = suc n} (omega arith)
                    ∙ left_after t ts c.tracks.vec n e)
                  (omega arith))))
      | inr passed ↦
          rw (short, fill_loop, top_up)
            (rw (choose-left t ts next n e) (
              rw passed (
                fill_loop-top_up ts fuel (suc n) next (left_after t ts c.tracks.vec n e)
                  (omega arith))))
    ]
    | inr full ↦ rw (full, fill_loop, top_up) refl
  ]
