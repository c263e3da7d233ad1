-- ===== src/Streaming/Reader/Laws.antt =====
-- `read` against the bytes that are still to come.
use squeezebox_radio_spotify.Prelude.{
  List, Option, ℕ, ◌∷◌, Bool, [], ◌++◌, false, some, if◌then◌else◌, true, drop, leb, length, none,
  ◌≡◌, take, ◌+◌, ◌≤◌, ◌-◌, ap, ◌∙◌, length-append, Bool-cases, inl, arith, append_assoc, sym,
  take_past, drop_past, inr, drop_all, ◌<◌, leb→le, suc, ◌⊎◌, ◌==◌, refl, zero, le→leb, append-nil,
  min, ==_iff, length-take, length-drop, take-append-drop, drop-drop, subst,
}
use squeezebox_radio_spotify.Streaming.Reader.{
  SequentialAudio, Item, Outcome, chunk, failure, filled, failed, Refill, refill, receive,
  read_loop, broken, ready, closed, read,
}

-- The bytes of the chunks before the first error, and whether there is one.
unfoldable pub available : List Item → List ℕ
available [] = []
available (chunk d ∷ rest) = d ++ available rest
available (failure ∷ rest) = []

unfoldable pub fails : List Item → Bool
fails [] = false
fails (chunk d ∷ rest) = fails rest
fails (failure ∷ rest) = true

abbrev pub at_hand : Option (List ℕ × ℕ) → List ℕ
at_hand none = []
at_hand (some (d, pos)) = drop pos d

-- What can be read before an error or the end.
abbrev pub unread : SequentialAudio → List ℕ
unread s = at_hand s.current ++ available s.incoming

-- What holds where `b` is false.
abbrev pub Unless : Bool → Type 0 → Type 0
Unless true P = Unit {0}
Unless false P = P

-- What `read` promises for `size` bytes from the state `s` on.
abbrev pub Delivers : SequentialAudio → ℕ → List ℕ → Outcome × SequentialAudio → Type 0
Delivers s size out (r, s') =
    if leb size (length (unread s))
    then (r ≡ filled (out ++ take size (unread s)))
      × (unread s' ≡ drop size (unread s))
      × (fails s'.incoming ≡ fails s.incoming)
      × (s'.position ≡ s.position + size)
    else ((r ≡ (if fails s.incoming then failed else filled (out ++ unread s)))
        × Unless (fails s.incoming) ((unread s' ≡ []) × (fails s'.incoming ≡ false))
        × (s'.position ≡ s.position + length (unread s)))

-- Reading `front` first, and then what is left.
Delivers-shift :
    (s t : SequentialAudio) (front : List ℕ) (size : ℕ) (out : List ℕ)
    (r : Outcome × SequentialAudio)
    → unread s ≡ front ++ unread t
    → length front ≤ size
    → fails t.incoming ≡ fails s.incoming
    → t.position ≡ s.position + length front
    → Delivers t (size - length front) (out ++ front) r
    → Delivers s size out r
Delivers-shift s t front size out (r, u) e fits f p d =
    let n : length (unread s) ≡ length front + length (unread t) =
      ap length e ∙ length-append front (unread t) in
    elim (Bool-cases (leb size (length (unread s)))) [
      | inl enough ↦
          let enough' : leb (size - length front) (length (unread t)) ≡ true = ground arith in
          let (a, b, c, q) = rw enough' at d in
          rw enough (
            a
                ∙ ap filled (
                    append_assoc out front _
                    ∙ ap (◌++◌ out) (rw e (sym (take_past front (unread t) size fits)))),
            b ∙ rw e (sym (drop_past front (unread t) size fits)),
            c ∙ f,
            omega arith,
          )
      | inr short ↦
          let short' : leb (size - length front) (length (unread t)) ≡ false = ground arith in
          let (a, z, q) = rw short' at d in
          rw short (
            a ∙ rw (f, append_assoc, ← e),
            subst (λ b. Unless b ((unread u ≡ []) × (fails u.incoming ≡ false))) f z,
            omega arith,
          )
    ]

-- What `refill` does: the channel is at its end, or the next entry is an error, or there is a
-- chunk at hand. Then a byte of it is left, or an entry was taken from the channel.
abbrev Refills : SequentialAudio → Refill → Type 0
Refills s closed = (unread s ≡ []) × (fails s.incoming ≡ false)
Refills s (broken t) = (unread s ≡ []) × (fails s.incoming ≡ true) × (t.position ≡ s.position)
Refills s (ready t d pos) =
    (unread s ≡ drop pos d ++ available t.incoming)
    × (fails t.incoming ≡ fails s.incoming)
    × (t.position ≡ s.position)
    × ((pos < length d) × (length t.incoming ≡ length s.incoming)
        ⊎ (length t.incoming + 1 ≡ length s.incoming))

receive-Refills :
    (s : SequentialAudio) (items : List Item)
    → s.incoming ≡ items
    → at_hand s.current ≡ []
    → Refills s (receive s items)
unfolding receive available fails
receive-Refills s [] e h = rw (h, e) (refl, refl)
receive-Refills s (chunk d ∷ rest) e h = rw (h, e) (refl, refl, refl, inr (omega arith))
receive-Refills s (failure ∷ rest) e h = rw (h, e) (refl, refl, refl)

refill-Refills :
    (s : SequentialAudio) (c : Option (List ℕ × ℕ)) → s.current ≡ c → Refills s (refill s c)
unfolding refill
refill-Refills s none e = receive-Refills s s.incoming refl (ap at_hand e)
refill-Refills s (some (d, pos)) e = elim (Bool-cases (leb (length d) pos)) [
  | inl used ↦
      rw used (receive-Refills s s.incoming refl (ap at_hand e ∙ drop_all pos d (leb→le _ _ used)))
  | inr left ↦
      rw left (ap (λ c. at_hand c ++ available s.incoming) e, refl, refl, inl (ground arith, refl))
]

-- Nothing is to be read.
Delivers-zero :
    (s : SequentialAudio) (room : ℕ) (out : List ℕ) → room ≡ 0 → Delivers s room out (filled out, s)
Delivers-zero s room out e = rw e (
    rw (le→leb 0 (length (unread s)) (omega arith))
      (ap filled (sym (append-nil out)), refl, refl, omega arith))

-- Nothing is left.
Delivers-end :
    (s t : SequentialAudio) (room : ℕ) (out : List ℕ) (r : Outcome)
    → 0 < room
    → unread s ≡ []
    → r ≡ (if fails s.incoming then failed else filled out)
    → Unless (fails s.incoming) ((unread t ≡ []) × (fails t.incoming ≡ false))
    → t.position ≡ s.position
    → Delivers s room out (r, t)
Delivers-end s t room out r pos e q z p =
    let none_left : length (unread s) ≡ 0 = ap length e in
    let short : leb room (length (unread s)) ≡ false = ground arith in
    rw short (rw (e, append-nil) q, z, omega arith)

-- A part of the chunk at hand is copied.
copied :
    (s t : SequentialAudio) (d : List ℕ) (pos n room : ℕ) (out : List ℕ)
    (r : Outcome × SequentialAudio)
    → unread s ≡ drop pos d ++ available t.incoming
    → fails t.incoming ≡ fails s.incoming
    → t.position ≡ s.position
    → n ≡ min room (length d - pos)
    → Delivers
        (record t { current = some (d, pos + n); position = t.position + n })
        (room - n)
        (out ++ take n (drop pos d))
        r
    → Delivers s room out r
copied s t d pos n room out r u f p e k =
    let front = take n (drop pos d) in
    let size : length front ≡ n = omega (arith, length-take n (drop pos d), length-drop pos d) in
    let parts : unread s ≡ front ++ (drop (pos + n) d ++ available t.incoming) =
      u
      ∙ ap (λ l. l ++ available t.incoming)
          (sym (take-append-drop n (drop pos d)) ∙ ap (◌++◌ front) (drop-drop pos n d))
      ∙ append_assoc front (drop (pos + n) d) (available t.incoming) in
    Delivers-shift s (record t { current = some (d, pos + n); position = t.position + n }) front
      room out r parts (omega arith) f (omega arith) (rw size k)

round-Delivers :
    (fuel : ℕ) (s : SequentialAudio) (room : ℕ) (out : List ℕ) (q : Refill)
    → (room == 0) ≡ false
    → refill s s.current ≡ q
    → Refills s q
    → (room + length s.incoming < suc fuel)
    → ((t : SequentialAudio) (k : ℕ) (o : List ℕ)
        → k + length t.incoming < fuel
        → Delivers t k o (read_loop fuel t k o))
    → Delivers s room out (read_loop (suc fuel) s room out)
unfolding read_loop
round-Delivers fuel s room out closed more e q h ih =
    rw (more, read_loop, e)
      (Delivers-end s s room out (filled out) (ground arith) q.0 (rw q.1) (rw q.1 (q.0, refl)) refl)
round-Delivers fuel s room out (broken t) more e q h ih =
    rw (more, read_loop, e)
      (Delivers-end s t room out failed (ground arith) q.0 (rw q.1) (rw q.1 tt) q.2)
round-Delivers fuel s room out (ready t d pos) more e (u, f, p, shrinks) h ih =
    let n = min room (length d - pos) in
    let t' : SequentialAudio = record t {
      current = some (d, pos + n);
      position = t.position + n;
    } in
    let out' = out ++ take n (drop pos d) in
    let less : room - n + length t.incoming < fuel = ground arith in
    rw (more, read_loop, e)
      (copied s t d pos n room out (read_loop fuel t' (room - n) out') u f p refl
        (ih t' (room - n) out' less))

read_loop-Delivers :
    (fuel : ℕ) (s : SequentialAudio) (room : ℕ) (out : List ℕ)
    → room + length s.incoming < fuel
    → Delivers s room out (read_loop fuel s room out)
unfolding read_loop
read_loop-Delivers zero s room out h = absurd (omega arith)
read_loop-Delivers (suc fuel) s room out h = elim (Bool-cases (room == 0)) [
  | inl full ↦ rw (full, read_loop) (Delivers-zero s room out ((==_iff room 0).0 full))
  | inr more ↦
      round-Delivers fuel s room out (refill s s.current) more refl
        (refill-Refills s s.current refl) h (read_loop-Delivers fuel)
]

-- `read` always comes to an end. It hands out the next `size` bytes where they come before an
-- error; where fewer are left it hands out all of them at the end of the stream, and fails at an
-- error. Either way `position` has moved past every byte that was taken from the channel, also
-- where the read fails and hands out none of them.
pub read-Delivers : (s : SequentialAudio) (size : ℕ) → Delivers s size [] (read s size)
unfolding read
read-Delivers s size = elim (Bool-cases (size == 0)) [
  | inl nothing ↦ rw nothing (Delivers-zero s size [] ((==_iff size 0).0 nothing))
  | inr more ↦ rw more (read_loop-Delivers (size + length s.incoming + 1) s size [] (omega arith))
]
