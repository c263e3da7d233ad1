-- ===== src/Streaming/Task/Playback.antt =====
-- The reader behind the task: what the decoder reads is the file.
use squeezebox_radio_spotify.Prelude.{
  List, ℕ, ◌∷◌, ◌≡◌, [], ◌++◌, false, sym, take, sum, ap, ◌∙◌, ◌+◌, refl, Bool-cases, leb, length,
  inl, take-add, inr, take-nil, append-nil, take_all, All, arith, some, ◌<◌, none,
}
use squeezebox_radio_spotify.Streaming.Reader.{
  SequentialAudio, read, filled, Item, Outcome, failed, chunk, out_of_fuel, failure,
}
use squeezebox_radio_spotify.Streaming.Reader.Laws.{
  available, fails, unread, Delivers, read-Delivers,
}
use squeezebox_radio_spotify.Streaming.Task.{
  select, open_audio, Response, Body, chunk_size, other, partial, opened,
}
use squeezebox_radio_spotify.Streaming.Task.Laws.{Brings, Serves, produce-Brings}

Brings-available :
    (bytes : List ℕ) (items : List Item)
    → Brings bytes items
    → (available items ≡ bytes) × (fails items ≡ false)
unfolding available fails
Brings-available bytes [] h = (sym h, refl)
Brings-available bytes (chunk d ∷ items) (pos, long, rest, e, b) =
    let (a, f) = Brings-available rest items b in (ap (◌++◌ d) a ∙ sym e, f)
Brings-available bytes (failure ∷ items) h = absurd h

-- The bytes that reads of the given sizes hand out; the reader stops at an error.
abbrev then_read : Outcome → List ℕ → List ℕ
then_read (filled out) more = out ++ more
then_read failed more = []
then_read out_of_fuel more = []

pub read_all : SequentialAudio → List ℕ → List ℕ
read_all s [] = []
read_all s (size ∷ sizes) = let (r, t) = read s size in then_read r (read_all t sizes)

read_all-take :
    (sizes : List ℕ) (s : SequentialAudio)
    → fails s.incoming ≡ false
    → read_all s sizes ≡ take (sum sizes) (unread s)
unfolding read_all
read_all-take [] s f = refl
read_all-take (size ∷ sizes) s f = go (read s size) (read-Delivers s size) (read_all-take sizes)
  where
    go :
        (q : Outcome × SequentialAudio)
        → Delivers s size [] q
        → ((t : SequentialAudio)
            → fails t.incoming ≡ false
            → read_all t sizes ≡ take (sum sizes) (unread t))
        → then_read q.0 (read_all q.1 sizes) ≡ take (size + sum sizes) (unread s)
    go (r, t) d ih = elim (Bool-cases (leb size (length (unread s)))) [
      | inl enough ↦
          let (a, b, c, _) = rw enough at d in
          rw (a, ih t (c ∙ f), b) (take-add size (sum sizes) (unread s))
      | inr short ↦
          let (a, z, _) = rw short at d in
          let (e, g) = rw f at z in
          rw (a, f, ih t g, e, take-nil (sum sizes), append-nil)
            (sym (take_all (size + sum sizes) (unread s) (ground arith)))
    ]

select-other :
    (request : ℕ → ℕ → ℕ → Response) (bad : List ℕ) (url : ℕ) (urls : List ℕ) (total : ℕ)
    (body : Body)
    → All (λ u. request u 0 chunk_size ≡ other) bad
    → request url 0 chunk_size ≡ partial (some total) body
    → select request (bad ++ url ∷ urls) ≡ opened url body total
unfolding select
select-other request [] url urls total body b e = rw e
select-other request (u ∷ bad) url urls total body b e =
    rw b.0 (select-other request bad url urls total body b.1 e)

-- From a CDN of which some URLs may fail before one serves the file, the file is opened with its
-- length, and reads of any sizes hand out its bytes from the first on, each once and in order.
pub open_audio-file :
    (request : ℕ → ℕ → ℕ → Response) (bad : List ℕ) (url : ℕ) (urls file : List ℕ)
    → All (λ u. request u 0 chunk_size ≡ other) bad
    → Serves request url file
    → 0 < length file
    → (s : SequentialAudio) × (open_audio request (bad ++ url ∷ urls) ≡ some s)
      × (s.file_size ≡ length file)
      × ((sizes : List ℕ) → read_all s sizes ≡ take (sum sizes) file)
unfolding open_audio
open_audio-file request bad url urls file b serves pos =
    let (items, made, brings) =
      produce-Brings request url file serves (length file + 2) 0 pos (omega arith) in
    let (bytes, clean) = Brings-available file items brings in
    let s : SequentialAudio = record {
      incoming = items;
      current = none;
      position = 0;
      file_size = length file;
    } in
    (
      s,
      rw (select-other request bad url urls _ _ b (serves 0 pos), open_audio, made),
      refl,
      λ sizes. read_all-take sizes s clean ∙ ap (take (sum sizes)) bytes,
    )
