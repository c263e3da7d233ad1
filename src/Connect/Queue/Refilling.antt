-- ===== src/Connect/Queue/Refilling.antt =====
-- Filling up keeps what is upcoming, and takes its first 80 tracks.
use native.Mathlib.Nat.{mod-eq_of_lt}
use squeezebox_radio_spotify.Connect.Context.{context_of, is_skip_track, skips_in}
use squeezebox_radio_spotify.Connect.Queue.FillUp.{
  finished, fill_up_next_tracks-finished, at_index, index_of,
}
use squeezebox_radio_spotify.Connect.Queue.Filling.{unindexed}
use squeezebox_radio_spotify.Connect.Queue.Upcoming.{
  kept, top_up, left_after, Plain, fillable, context-next, fill_loop-top_up, upcoming, rest_of,
}
use squeezebox_radio_spotify.Connect.State.{
  Track, ConnectState, StateContext, ok, update_queue_revision, ContextType, is_unavailable,
  default_context,
}
use squeezebox_radio_spotify.Connect.Tracks.{
  max_next, fill_up_next_tracks, set_next, fill_fuel, track_count,
}
use squeezebox_radio_spotify.Prelude.{
  Bool, List, ℕ, ◌++◌, length, ◌≡◌, drop, ◌≤◌, ◌<◌, false, arith, take, ◌+◌, suc, inl, max, [],
  true, ◌∷◌, ◌⊎◌, length-append, ◌∙◌, Bool-cases, append_assoc, ltb, refl, inr, ltb→lt, ap, sym,
  Option, append-nil, take_all, take-append, some, length-drop, ◌%◌, none, ◌^◌, not, ◌||◌,
}

-- What the loop on lists does.
record Refills (f : Track → Bool) (ts : List Track) (n : ℕ) (next vec : List Track)
    (r : ℕ × List Track × List Track) : Type 0 where
  same : r.1 ++ kept f r.2 ≡ next ++ kept f ts
  left : drop r.0 vec ≡ r.2
  index : r.0 ≤ n + length ts
  bounded : length r.1 ≤ max max_next (length next)
  full : (r.2 ≡ []) ⊎ (length r.1 ≡ max max_next (length next))

-- The first track left is taken or passed over.
Refills-taken :
    (f : Track → Bool) (t : Track) (ts : List Track) (n : ℕ) (next vec : List Track)
    (r : ℕ × List Track × List Track)
    → length next < max_next
    → f t ≡ true
    → Refills f ts (n + 1) (next ++ t ∷ []) vec r
    → Refills f (t ∷ ts) n next vec r
unfolding kept
Refills-taken f t ts n next vec r short taken rest =
    let longer = length-append next (t ∷ []) in
    record {
      same = rest.same ∙ append_assoc next (t ∷ []) (kept f ts) ∙ rw (taken, kept) refl;
      left = rest.left;
      index = omega (arith, rest.index);
      bounded = omega (arith, rest.bounded, longer);
      full = elim rest.full [
        | inl empty ↦ inl empty
        | inr long ↦ inr (omega (arith, longer, long))
      ];
    }

Refills-passed :
    (f : Track → Bool) (t : Track) (ts : List Track) (n : ℕ) (next vec : List Track)
    (r : ℕ × List Track × List Track)
    → f t ≡ false
    → Refills f ts (suc n) next vec r
    → Refills f (t ∷ ts) n next vec r
unfolding kept
Refills-passed f t ts n next vec r passed rest = record {
  same = rest.same ∙ rw (passed, kept) refl;
  left = rest.left;
  index = omega (arith, rest.index);
  bounded = rest.bounded;
  full = rest.full;
}

top_up-Refills :
    (f : Track → Bool) (ts : List Track) (n : ℕ) (next vec : List Track)
    → drop n vec ≡ ts
    → Refills f ts n next vec (top_up f ts n next)
unfolding top_up
top_up-Refills f [] n next vec e = record {
  same = refl;
  left = e;
  index = omega arith;
  bounded = omega arith;
  full = inl refl;
}
top_up-Refills f (t ∷ ts) n next vec e = elim (Bool-cases (ltb (length next) max_next)) [
  | inl short ↦ elim (Bool-cases (f t)) [
    | inl taken ↦
        rw (short, top_up)
          (rw taken (
            Refills-taken f t ts n next vec (top_up f ts (n + 1) (next ++ t ∷ []))
              (ltb→lt (length next) max_next short) taken
              (top_up-Refills f ts (n + 1) (next ++ t ∷ []) vec (
                ap (λ k. drop k vec) {x = n + 1} {y = suc n} (omega arith)
                ∙ left_after t ts vec n e))))
    | inr passed ↦
        rw (short, top_up)
          (rw passed (
            Refills-passed f t ts n next vec (top_up f ts (suc n) next) passed
              (top_up-Refills f ts (suc n) next vec (left_after t ts vec n e))))
  ]
  | inr full ↦
      rw (full, top_up)
        (record {
          same = refl;
          left = e;
          index = omega arith;
          bounded = omega arith;
          full = inr (ground arith);
        })
]

-- The tracks that fit are the first ones.
Refills-take :
    (f : Track → Bool) (ts : List Track) (n : ℕ) (next vec : List Track)
    (r : ℕ × List Track × List Track)
    → Refills f ts n next vec r
    → r.1 ≡ take (max max_next (length next)) (next ++ kept f ts)
unfolding kept
Refills-take f ts n next vec r h = elim h.full [
  | inl empty ↦
      let all : r.1 ≡ next ++ kept f ts =
        sym (append-nil r.1) ∙ ap (λ us. r.1 ++ kept f us) (sym empty) ∙ h.same in
      sym (
        ap (take (max max_next (length next))) (sym all)
        ∙ take_all (max max_next (length next)) r.1 h.bounded)
  | inr long ↦ sym (
      ap (take (max max_next (length next))) (sym h.same)
      ∙ take-append r.1 (kept f r.2) (max max_next (length next)) (sym long))
]

skips_in-unindexed :
    (o : Option StateContext) (t : Track) (i : Option ℕ)
    → skips_in (unindexed o) t i ≡ skips_in o t i
skips_in-unindexed none t i = refl
skips_in-unindexed (some c) t i = refl

-- Which tracks are passed over does not depend on the contexts' indices.
pub is_skip_track-unindexed :
    (t : Track) (i : Option ℕ) (s u : ConnectState)
    → unindexed (context_of u.active_context u) ≡ unindexed (context_of s.active_context s)
    → is_skip_track t i u ≡ is_skip_track t i s
unfolding is_skip_track
is_skip_track-unindexed t i s u e =
    sym (skips_in-unindexed (context_of u.active_context u) t i)
    ∙ ap (λ o. skips_in o t i) e
    ∙ skips_in-unindexed (context_of s.active_context s) t i

pub kept-ext :
    (f g : Track → Bool) (ts : List Track) → ((t : Track) → f t ≡ g t) → kept f ts ≡ kept g ts
kept-ext f g ts h = ap (λ k. kept k ts) {x = f} {y = g} (λ i t. h t i)

upcoming-Plain :
    (s : ConnectState) (c : StateContext)
    → Plain s c
    → upcoming s
      ≡ s.player.next_tracks ++ kept (fillable s c.index.page) (drop c.index.track c.tracks.vec)
upcoming-Plain s c plain = ap (λ o. s.player.next_tracks ++ rest_of s o) plain.context

-- The state after filling up.
module _ (s : ConnectState) (c : StateContext) (plain : Plain s c) where
  abbrev pub result : ℕ × List Track × List Track
  result =
      top_up (fillable s c.index.page) (drop c.index.track c.tracks.vec) c.index.track
        s.player.next_tracks

  result-Refills :
      Refills
        (fillable s c.index.page)
        (drop c.index.track c.tracks.vec)
        c.index.track
        s.player.next_tracks
        c.tracks.vec
        result
  result-Refills =
      top_up-Refills (fillable s c.index.page) (drop c.index.track c.tracks.vec) c.index.track
        s.player.next_tracks c.tracks.vec refl

  index-inside : result.0 ≤ length c.tracks.vec
  index-inside =
      omega (arith, plain.inside, result-Refills.index, length-drop c.index.track c.tracks.vec)

  index-fits : result.0 % 2 ^ 32 ≡ result.0
  index-fits = mod-eq_of_lt (omega (arith, index-inside, plain.fits))

  abbrev pub filled_state : ConnectState
  filled_state = finished result.0 c (set_next result.1 s)

  pub fill_up_next_tracks-filled_state : fill_up_next_tracks s ≡ (ok tt, filled_state)
  fill_up_next_tracks-filled_state =
      let here : context_of s.fill_up_context s ≡ some c =
        context-next s c plain c.index.page s.player.next_tracks in
      fill_up_next_tracks-finished s c c result.0 (set_next result.1 s) here
        (fill_loop-top_up s c plain c.index.page (drop c.index.track c.tracks.vec) (fill_fuel s)
          c.index.track s.player.next_tracks refl
          (omega (arith, length-drop c.index.track c.tracks.vec, ap track_count plain.context)))
        (context-next s c plain c.index.page result.1)

  pub filled-Plain : Plain filled_state (at_index result.0 c)
  unfolding update_queue_revision
  filled-Plain = record {
    context = rw plain.fill_up refl;
    fill_up = plain.fill_up;
    no_autoplay = rw plain.fill_up plain.no_autoplay;
    no_repeat = plain.no_repeat;
    inside = omega (arith, index-inside, index-fits);
    fits = plain.fits;
  }

  filled-unindexed :
      (ty : ContextType) → unindexed (context_of ty filled_state) ≡ unindexed (context_of ty s)
  unfolding update_queue_revision
  filled-unindexed default_context = rw plain.fill_up (sym (ap unindexed plain.context))
  filled-unindexed ContextType.autoplay = rw plain.fill_up refl

  filled-fillable : (t : Track) → fillable filled_state c.index.page t ≡ fillable s c.index.page t
  unfolding update_queue_revision
  filled-fillable t =
      ap (λ b. not (is_unavailable t || b))
        (is_skip_track-unindexed t (some c.index.page) s filled_state
          (filled-unindexed s.active_context))

  pub filled-upcoming : upcoming filled_state ≡ upcoming s
  unfolding update_queue_revision
  filled-upcoming =
      let f = fillable filled_state c.index.page in
      upcoming-Plain filled_state (at_index result.0 c) filled-Plain
      ∙ ap (λ n. result.1 ++ kept f (drop n c.tracks.vec)) index-fits
      ∙ ap (λ us. result.1 ++ kept f us) result-Refills.left
      ∙ ap (λ us. result.1 ++ us) (kept-ext f (fillable s c.index.page) result.2 filled-fillable)
      ∙ result-Refills.same
      ∙ sym (upcoming-Plain s c plain)

  pub filled-next :
      filled_state.player.next_tracks
      ≡ take (max max_next (length s.player.next_tracks)) (upcoming s)
  unfolding update_queue_revision
  filled-next =
      Refills-take (fillable s c.index.page) (drop c.index.track c.tracks.vec) c.index.track
        s.player.next_tracks c.tracks.vec result result-Refills
      ∙ ap (take (max max_next (length s.player.next_tracks))) (sym (upcoming-Plain s c plain))

-- In a session that plays one context to its end, filling up succeeds and loses and repeats no track:
-- the next tracks are what was upcoming, cut at 80 tracks, and with the rest of the context from its new
-- index on they are what was upcoming before. The index is inside the context or at its end.
pub fill_up_next_tracks-upcoming :
    (s : ConnectState) (c : StateContext)
    → Plain s c
    → let t = (fill_up_next_tracks s).1 in
      ((fill_up_next_tracks s).0 ≡ ok tt)
      × (t.player.next_tracks ≡ take (max max_next (length s.player.next_tracks)) (upcoming s))
      × (upcoming t ≡ upcoming s)
      × (index_of t.context ≤ length c.tracks.vec)
fill_up_next_tracks-upcoming s c plain = rw (fill_up_next_tracks-filled_state s c plain) (
  refl,
  filled-next s c plain,
  filled-upcoming s c plain,
  omega (arith, ap index_of (filled-Plain s c plain).context, (filled-Plain s c plain).inside),
)
