-- ===== src/Connect/Queue/Loop.antt =====
-- The loop of `fill_up_next_tracks` ends, as every round fills a place or passes a track.
use native.Mathlib.Nat.{suc-mul}
use squeezebox_radio_spotify.Connect.Context.{
  update_context_index, change_context, get_context, context_of,
}
use squeezebox_radio_spotify.Connect.Queue.Filling.{
  context_tracks, unindexed, Filled, HasContext, Choice, choose-Choice, NothingLeft, Filled-trans,
  Filled-refl, Filled-push, Filled-same,
}
use squeezebox_radio_spotify.Connect.State.{
  ConnectState, Track, ContextType, StateContext, default_context, Result, ok, autoplay, after,
}
use squeezebox_radio_spotify.Connect.Tracks.{
  track_count, max_next, push_next, Filling, choose, pushes, fails, skips, transition, stops,
  fill_loop, move_on, new_delimiter,
}
use squeezebox_radio_spotify.Prelude.{
  ℕ, [], length, ◌≡◌, sym, ◌<◌, ◌∙◌, ◌+◌, ◌≤◌, ap, arith, ◌∷◌, refl, length-append, Option, some,
  inl, none, inr, ◌%◌, ◌^◌, ◌-◌, ◌*◌, suc, ◌⊎◌, zero, lt→ltb, subst, Bool-cases, ltb, ltb→lt,
}

-- The rounds that the loop takes at most.
abbrev pub rounds : ConnectState → ℕ → ℕ
rounds s n =
    (max_next - length s.player.next_tracks) * suc (context_tracks s) + (context_tracks s - n)

unindexed-track_count : (c : Option StateContext) → track_count (unindexed c) ≡ track_count c
unindexed-track_count none = refl
unindexed-track_count (some c) = refl

context_tracks-Filled : {s t : ConnectState} → Filled s t → context_tracks t ≡ context_tracks s
context_tracks-Filled {s} {t} f = omega (
  arith,
  ap track_count f.context,
  ap track_count f.autoplay,
  unindexed-track_count s.context,
  unindexed-track_count s.autoplay_context,
  unindexed-track_count t.context,
  unindexed-track_count t.autoplay_context,
)

push-rounds : (a b l n m : ℕ) → b ≡ suc a → a * suc l + (l - m) < b * suc l + (l - n)
push-rounds a b l n m h = rw h (omega (arith, suc-mul a (suc l)))

context_of-push :
    (ty : ContextType) (t : Track) (s : ConnectState)
    → context_of ty (push_next t s) ≡ context_of ty s
context_of-push default_context t s = refl
context_of-push ContextType.autoplay t s = refl

HasContext-push : (t : Track) (s : ConnectState) → HasContext s → HasContext (push_next t s)
HasContext-push t s (c, e) = (c, context_of-push s.fill_up_context t s ∙ e)

-- The state on the way to the autoplay context.
abbrev pub on_autoplay : ℕ → StateContext → ConnectState → ConnectState
on_autoplay n c s = record s {
  context = some (record c { index = record c.index { track = n % 2 ^ 32 } });
  fill_up_context = autoplay;
}

-- A move to the autoplay context leaves a delimiter, and goes on where that context is.
pub move_on-on_autoplay :
    (n j : ℕ) (s : ConnectState) (c d : StateContext)
    → s.fill_up_context ≡ default_context
    → s.context ≡ some c
    → s.autoplay_context ≡ some d
    → move_on n j s ≡ (ok d.index.track, push_next (new_delimiter j) (on_autoplay n c s))
unfolding move_on update_context_index change_context get_context
move_on-on_autoplay n j s c d f e a =
    subst (λ u. move_on n j u ≡ (ok d.index.track, push_next (new_delimiter j) (on_autoplay n c u)))
      (λ i. record s { fill_up_context = sym f i; context = sym e i; autoplay_context = sym a i })
      refl

on_autoplay-Filled :
    (n : ℕ) (s : ConnectState) (c : StateContext)
    → s.context ≡ some c
    → Filled s (on_autoplay n c s)
on_autoplay-Filled n s c e = Filled-same refl (sym (ap unindexed e)) refl

rounds-longer :
    (s u : ConnectState) (n m : ℕ)
    → context_tracks u ≡ context_tracks s
    → length u.player.next_tracks ≡ suc (length s.player.next_tracks)
    → length s.player.next_tracks < max_next
    → rounds u m < rounds s n
rounds-longer s u n m c l h = rw c (
    push-rounds (max_next - length u.player.next_tracks) (max_next - length s.player.next_tracks)
      (context_tracks s) n m (omega arith))

rounds-push :
    (t : Track) (s : ConnectState) (n m : ℕ)
    → length s.player.next_tracks < max_next
    → rounds (push_next t s) m < rounds s n
rounds-push t s n m h =
    rounds-longer s (push_next t s) n m refl
      (omega (arith, length-append s.player.next_tracks (t ∷ []))) h

-- A run of the loop that ends as it should.
pub record Ends (s : ConnectState) (r : Result ℕ × ConnectState) : Type 0 where
  pub index : ℕ
  pub result : r.0 ≡ ok index
  pub filled : Filled s r.1
  pub has_context : HasContext r.1
  pub complete : (max_next ≤ length r.1.player.next_tracks) ⊎ NothingLeft r.1 index

Ends-after : {s t : ConnectState} {r : Result ℕ × ConnectState} → Filled s t → Ends t r → Ends s r
Ends-after f e = record {
  index = e.index;
  result = e.result;
  filled = Filled-trans f e.filled;
  has_context = e.has_context;
  complete = e.complete;
}

-- The rest of a loop, which ends as it should.
abbrev pub RestEnds : ℕ → Type 0
RestEnds fuel =
    (n j : ℕ) (s : ConnectState) → HasContext s → rounds s n < fuel → Ends s (fill_loop fuel n j s)

fill_loop-transition :
    (fuel n j : ℕ) (s : ConnectState)
    → choose s n j ≡ transition
    → length s.player.next_tracks < max_next
    → fill_loop (suc fuel) n j s ≡ after (move_on n j s) (λ i. fill_loop fuel i j)
unfolding fill_loop
fill_loop-transition fuel n j s e h =
    rw (lt→ltb (length s.player.next_tracks) max_next h, fill_loop) (rw e refl)

transition-Ends :
    (fuel n j : ℕ) (s : ConnectState) (c : StateContext)
    → RestEnds fuel
    → Choice s n transition
    → context_of s.fill_up_context s ≡ some c
    → length s.player.next_tracks < max_next
    → rounds s n < suc fuel
    → Ends s (after (move_on n j s) (λ i. fill_loop fuel i j))
unfolding Choice
transition-Ends fuel n j s c ih (f, (d, a)) e h m =
    let e' : s.context ≡ some c = rw⁻¹ (ap (λ ty. context_of ty s) f) e in
    let u = push_next (new_delimiter j) (on_autoplay n c s) in
    rw (move_on-on_autoplay n j s c d f e' a) (
      Ends-after
        (Filled-trans (on_autoplay-Filled n s c e')
          (Filled-push (new_delimiter j) (on_autoplay n c s) h))
        (ih d.index.track j u (d, a)
          (omega (
            arith,
            rounds-longer s u n d.index.track
                (ap (λ o. track_count o + track_count s.autoplay_context) (sym e'))
                (omega (arith, length-append s.player.next_tracks (new_delimiter j ∷ []))) h,
          ))))

-- The round of each choice.
fill_loop-chosen :
    (fuel n j : ℕ) (s : ConnectState) (f : Filling)
    → RestEnds fuel
    → choose s n j ≡ f
    → Choice s n f
    → length s.player.next_tracks < max_next
    → HasContext s
    → rounds s n < suc fuel
    → Ends s (fill_loop (suc fuel) n j s)
unfolding fill_loop Choice
fill_loop-chosen fuel n j s (pushes t n' j') ih e k h c m =
    rw (lt→ltb (length s.player.next_tracks) max_next h, fill_loop)
      (rw e (
        Ends-after (Filled-push t s h) (
          ih n' j' (push_next t s) (HasContext-push t s c)
            (omega (arith, rounds-push t s n n' h)))))
fill_loop-chosen fuel n j s skips ih e k h c m =
    rw (lt→ltb (length s.player.next_tracks) max_next h, fill_loop)
      (rw e (ih (suc n) j s c (omega arith)))
fill_loop-chosen fuel n j s transition ih e k h (c, i) m =
    rw (fill_loop-transition fuel n j s e h) (transition-Ends fuel n j s c ih k i h m)
fill_loop-chosen fuel n j s stops ih e k h c m =
    rw (lt→ltb (length s.player.next_tracks) max_next h, fill_loop)
      (rw e (record {
        index = n;
        result = refl;
        filled = Filled-refl s;
        has_context = c;
        complete = inr k;
      }))
fill_loop-chosen fuel n j s (fails x) ih e k h c m = absurd k

pub fill_loop-Ends : (fuel : ℕ) → RestEnds fuel
unfolding fill_loop
fill_loop-Ends zero n j s c m = absurd (omega arith)
fill_loop-Ends (suc fuel) n j s c m =
    elim (Bool-cases (ltb (length s.player.next_tracks) max_next)) [
      | inl short ↦
          fill_loop-chosen fuel n j s (choose s n j) (fill_loop-Ends fuel) refl
            (choose-Choice s n j c) (ltb→lt (length s.player.next_tracks) max_next short) c m
      | inr full ↦
          rw (full, fill_loop)
            (record {
              index = n;
              result = refl;
              filled = Filled-refl s;
              has_context = c;
              complete = inl (ground arith);
            })
    ]
