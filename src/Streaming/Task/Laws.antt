-- ===== src/Streaming/Task/Laws.antt =====
-- The task and the reader together: what is read is the file that the CDN serves.
use squeezebox_radio_spotify.Prelude.{
  ℕ, List, ◌<◌, length, ◌-◌, ◌≢◌, ◌≡◌, none, arith, some, suc, take, ◌∷◌, drop, ◌+◌, Bool-cases,
  leb, inl, inr, zero, [], Option, ◌≤◌, refl, ◌++◌, ap, ◌∙◌, min, sym, drop_all, length-take,
  take-append-drop, leb→le, length-drop, drop-append, drop-drop,
}
use squeezebox_radio_spotify.Streaming.Reader.{Item, chunk, failure}
use squeezebox_radio_spotify.Streaming.Task.{
  Response, produce, Body, chunk_size, partial, send, answer, unsent, other,
}

-- The CDN serves the file: a range that starts inside it is answered by the bytes that are there,
-- and by the file's length.
abbrev pub Serves : (ℕ → ℕ → ℕ → Response) → ℕ → List ℕ → Type 0
Serves request url file =
    (o : ℕ)
    → o < length file
    → request url o chunk_size ≡ partial (some (length file)) (some (take chunk_size (drop o file)))

send-ne-none : (d : List ℕ) (r : Option (List Item)) → r ≢ none → send d r ≢ none
send-ne-none d none h = λ e. h refl
send-ne-none d (some items) h = λ e. cc

answer-ne-none :
    (k : Body → Option (List Item)) (r : Response)
    → ((body : Body) → k body ≢ none)
    → answer k r ≢ none
answer-ne-none k (partial _ body) h = h body
answer-ne-none k unsent h = λ e. cc
answer-ne-none k other h = λ e. cc

module _ (request : ℕ → ℕ → ℕ → Response) where
  -- The fuel is enough: the task comes to an end, whatever the CDN answers.
  pub produce-ne-none :
      (fuel url total offset : ℕ) (body : Body)
      → total - offset < fuel
      → produce request fuel url total offset body ≢ none
  unfolding produce
  produce-ne-none zero url total offset body h = absurd (omega arith)
  produce-ne-none (suc fuel) url total offset none h = λ e. cc
  produce-ne-none (suc fuel) url total offset (some []) h = λ e. cc
  produce-ne-none (suc fuel) url total offset (some (b ∷ bs)) h =
      let next = offset + length (b ∷ bs) in
      elim (Bool-cases (leb total next)) [
        | inl done ↦ rw (done, produce) (λ e. cc)
        | inr more ↦
            rw (more, produce)
              (send-ne-none (b ∷ bs) _ (
                answer-ne-none (produce request fuel url total next) _
                  (λ body. produce-ne-none fuel url total next body (ground arith))))
      ]

-- The entries that bring `bytes`, in chunks of at most `CHUNK` bytes, none of them empty.
abbrev pub Brings : List ℕ → List Item → Type 0
Brings bytes [] = bytes ≡ []
Brings bytes (chunk d ∷ items) =
    (0 < length d)
    × (length d ≤ chunk_size)
    × (rest : List ℕ) × (bytes ≡ d ++ rest)
    × Brings rest items
Brings bytes (failure ∷ items) = ⊥

chunk_size_pos : 0 < chunk_size
unfolding chunk_size
chunk_size_pos = omega arith

-- The rest behind the first `n` entries, by the length of what was taken.
drop-length-take : (n : ℕ) (xs : List ℕ) → drop (length (take n xs)) xs ≡ drop n xs
drop-length-take n xs =
    ap (drop (length (take n xs))) (sym (take-append-drop n xs))
    ∙ drop-append (take n xs) (drop n xs) (length (take n xs)) refl

module _ (request : ℕ → ℕ → ℕ → Response) (url : ℕ) (file : List ℕ)
    (serves : Serves request url file) where
  -- The task's entries from `offset` on: they bring the rest of the file, and no error.
  abbrev pub Produces : ℕ → ℕ → Body → Type 0
  Produces fuel offset body =
      (items : List Item) × (produce request fuel url (length file) offset body ≡ some items)
      × Brings (drop offset file) items

  -- One round, with the bytes `x` at `offset`.
  round-Produces :
      (fuel offset : ℕ) (x rest : List ℕ)
      → 0 < length x
      → length x ≤ chunk_size
      → drop offset file ≡ x ++ rest
      → rest ≡ drop (offset + length x) file
      → ((o : ℕ)
          → o < length file
          → length file - o < fuel
          → Produces fuel o (some (take chunk_size (drop o file))))
      → length file - offset < suc fuel
      → offset < length file
      → Produces (suc fuel) offset (some x)
  unfolding produce
  round-Produces fuel offset [] rest pos long e f ih k h = absurd (omega arith)
  round-Produces fuel offset (b ∷ bs) rest pos long e f ih k h =
      let next = offset + length (b ∷ bs) in
      elim (Bool-cases (leb (length file) next)) [
        | inl done ↦
            let none_left : rest ≡ [] = f ∙ drop_all next file (leb→le _ _ done) in
            (chunk (b ∷ bs) ∷ [], rw (done, produce), (pos, long, rest, e, none_left))
        | inr more ↦
            let (items, made, brings) = ih next (ground arith) (ground arith) in
            (
              chunk (b ∷ bs) ∷ items,
              rw (more, produce, serves next (ground arith), made),
              (pos, long, rest, e, rw f brings),
            )
      ]

  -- From an offset inside a file that the CDN serves by ranges, with fuel for each byte that is left,
  -- the task comes to an end, and its entries bring the rest of the file in chunks of at most 64 KiB,
  -- none of them empty, with no error among them.
  pub produce-Brings :
      (fuel offset : ℕ)
      → offset < length file
      → length file - offset < fuel
      → Produces fuel offset (some (take chunk_size (drop offset file)))
  produce-Brings zero offset h k = absurd (omega arith)
  produce-Brings (suc fuel) offset h k =
      let here = drop offset file in
      let x = take chunk_size here in
      let size : length x ≡ min chunk_size (length file - offset) =
        omega (arith, length-take chunk_size here, length-drop offset file) in
      round-Produces fuel offset x (drop chunk_size here) (omega (arith, size, chunk_size_pos))
        (omega (arith, size)) (sym (take-append-drop chunk_size here))
        (sym (drop-length-take chunk_size here) ∙ drop-drop offset (length x) file)
        (produce-Brings fuel) k h
