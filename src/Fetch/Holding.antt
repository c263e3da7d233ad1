-- ===== src/Fetch/Holding.antt =====
-- What holds in every state of a download, also after the fetch has ended.
use squeezebox_radio_spotify.Fetch.{
  download_range, Receiver, Range, give_back, ReceivedData, Fetch, file_data, RangeSet,
  handle_stream_loader_command, download_first, pre_fetch_more_data, missing, handle_file_data,
  handle_throughput, handle_response_time, throughput_of, response_time, finish_full, store_data,
  fetch, Params, is_full, intersection, add_range, ControlFlow, close, fails, breaks, continues,
  spawn, request,
}
use squeezebox_radio_spotify.Fetch.Keeps.{
  download-Sound, first-Sound, give_back-Sound, handles-Sound, receives-Sound,
}
use squeezebox_radio_spotify.Fetch.Requests.{spawn_made, spawn_failed}
use squeezebox_radio_spotify.Fetch.Sound.{
  awaited, Sound, in_data, AllGenuine-append, Genuine, arrived-append, AllGenuine,
}
use squeezebox_radio_spotify.Fetch.Steps.{
  Step, Download, Phase, Kind, Reach, started, started_download, turn, IsRunning, selects, checks,
  ended, commands, closes, handles, pre_fetches, rests, receives, measures, ends, abandons, reads,
  modes, here, further,
}
use squeezebox_radio_spotify.Prelude.{
  ℕ, Bool, List, ◌≡◌, ◌++◌, ◌∷◌, [], arith, ap, false, sym, true, Bool-cases, ◌-◌, inl, inr, subst,
  refl, if◌then◌else◌, ◌<◌, ◌∙◌,
}
use squeezebox_radio_spotify.Ranges.Adding.{add_range-member}
use squeezebox_radio_spotify.Ranges.Set.{Apart, member}

-- What holds of the file, also after the fetch has ended.
pub record Kept (file : ℕ → ℕ) (s : Fetch) : Type 0 where
  pub downloaded_apart : Apart 0 s.downloaded
  pub true_bytes : (v : ℕ) → member v s.downloaded ≡ true → s.written v ≡ file v
  pub whole : s.complete ≡ true → (v : ℕ) → v < s.file_size → member v s.downloaded ≡ true

pub Sound-Kept : {file : ℕ → ℕ} {s : Fetch} → Sound file s → Kept file s
Sound-Kept k = record {
  downloaded_apart = k.downloaded_apart;
  true_bytes = k.true_bytes;
  whole = k.whole;
}

ended-Kept :
    {file : ℕ → ℕ} {s : Fetch}
    → Sound file s
    → Kept file (record s { file_data_rx = []; output = false })
ended-Kept k = record {
  downloaded_apart = k.downloaded_apart;
  true_bytes = k.true_bytes;
  whole = k.whole;
}

-- While the fetch runs it has its file, and no byte is requested in vain.
abbrev pub Holds : (ℕ → ℕ) → Fetch → Phase → Type 0
Holds file s ended = Kept file s
Holds file s _ = Sound file s × (s.output ≡ true)

pub Holds-Kept : (file : ℕ → ℕ) (s : Fetch) (phase : Phase) → Holds file s phase → Kept file s
Holds-Kept file s selects k = Sound-Kept k.0
Holds-Kept file s checks k = Sound-Kept k.0
Holds-Kept file s ended k = k

abbrev pub HoldsNow : (ℕ → ℕ) → Download → Type 0
HoldsNow file d = Holds file d.state d.phase

-- A handler that goes on has the file still.
turn-HoldsNow :
    (file : ℕ → ℕ) (next : Phase) (r : ControlFlow × Fetch)
    → IsRunning next
    → Sound file r.1
    → (r.0 ≡ continues → r.1.output ≡ true)
    → HoldsNow file (turn next r)
turn-HoldsNow file selects (continues, s) i k o = (k, o refl)
turn-HoldsNow file checks (continues, s) i k o = (k, o refl)
turn-HoldsNow file ended (continues, s) i k o = absurd i
turn-HoldsNow file next (breaks, s) i k o = ended-Kept k
turn-HoldsNow file next (fails, s) i k o = ended-Kept k

spawn-output :
    (streams : Range → Bool) (rs : RangeSet) (s : Fetch) → (spawn streams rs s).1.output ≡ s.output
unfolding spawn
spawn-output streams [] s = refl
spawn-output streams (r ∷ rs) s = elim (Bool-cases (streams r)) [
  | inl made ↦ rw (spawn_made streams r rs s made) (spawn-output streams rs (request r s))
  | inr failed ↦ rw (spawn_failed streams r rs s failed) refl
]

first-output :
    (streams : Range → Bool) (bytes : ℕ) (xs ys : RangeSet) (s : Fetch)
    → (download_first streams bytes xs ys s).1.output ≡ s.output
unfolding download_range
first-output streams bytes [] [] s = refl
first-output streams bytes [] (r ∷ rs) s = spawn-output streams _ s
first-output streams bytes (r ∷ rs) ys s = spawn-output streams _ s

finish_full-output :
    (s : Fetch) → s.output ≡ true → (finish_full s).0 ≡ continues → (finish_full s).1.output ≡ true
finish_full-output s o e = elim (Bool-cases (is_full s)) [
  | inl full ↦ absurd (grind (arith, e, full))
  | inr more ↦ rw more o
]

handle-output :
    (d : ReceivedData) (s : Fetch)
    → s.output ≡ true
    → (handle_file_data d s).0 ≡ continues
    → (handle_file_data d s).1.output ≡ true
unfolding handle_file_data handle_throughput handle_response_time store_data
handle-output (throughput_of n) s o e = o
handle-output (response_time n) s o e = o
handle-output (file_data offset bytes) s o e =
    subst (λ (p : ControlFlow × Fetch). p.0 ≡ continues → p.1.output ≡ true)
      (ap (λ b. if b then finish_full (store_data offset bytes s) else (fails, s)) (sym o))
      (finish_full-output (store_data offset bytes s) o) e

running-Sound :
    (file : ℕ → ℕ) (s : Fetch) (phase : Phase)
    → IsRunning phase
    → Holds file s phase
    → Sound file s × (s.output ≡ true)
running-Sound file s selects i k = k
running-Sound file s checks i k = k
running-Sound file s ended i k = absurd i

-- A step that leaves the phase as it is.
same_phase :
    (file : ℕ → ℕ) (s t : Fetch) (phase : Phase)
    → (Sound file s → Sound file t)
    → (Kept file s → Kept file t)
    → t.output ≡ s.output
    → Holds file s phase
    → Holds file t phase
same_phase file s t selects f g o k = (f k.0, o ∙ k.1)
same_phase file s t checks f g o k = (f k.0, o ∙ k.1)
same_phase file s t ended f g o k = g k

give_back-Kept :
    (file : ℕ → ℕ) (s : Fetch) (t : Receiver) (us : List Receiver)
    → Kept file s
    → Kept file (give_back t (record s { receivers = us }))
unfolding give_back
give_back-Kept file s t us k = record {
  downloaded_apart = k.downloaded_apart;
  true_bytes = k.true_bytes;
  whole = k.whole;
}

give_back-output :
    (s : Fetch) (t : Receiver) (us : List Receiver)
    → (give_back t (record s { receivers = us })).output ≡ s.output
unfolding give_back
give_back-output s t us = refl

measures-Sound :
    (file : ℕ → ℕ) (d : ReceivedData) (s : Fetch)
    → ((v : ℕ) → in_data v d ≡ false)
    → Genuine file d
    → Sound file s
    → Sound file (record s { file_data_rx = s.file_data_rx ++ d ∷ [] })
measures-Sound file d s none g k = record {
  requested_apart = k.requested_apart;
  downloaded_apart = k.downloaded_apart;
  genuine = AllGenuine-append file s.file_data_rx d k.genuine g;
  true_bytes = k.true_bytes;
  whole = k.whole;
  pending = λ v h. ground (arith, k.pending v, arrived-append v s.file_data_rx (d ∷ []), none v);
}

pub Step-HoldsNow :
    {file : ℕ → ℕ} {streams : Range → Bool} {s : Fetch} {phase : Phase} {kind : Kind} {t : Download}
    → Step file streams s phase kind t
    → Holds file s phase
    → HoldsNow file t
unfolding handle_stream_loader_command pre_fetch_more_data download_range
Step-HoldsNow {file} {streams} {s} (commands (fetch r) i) (k, o) =
    turn-HoldsNow file checks (download_range streams r.start r.length s) tt
      (download-Sound file streams r.start r.length s k) (λ _. spawn-output streams _ s ∙ o)
Step-HoldsNow (commands close i) (k, o) = ended-Kept k
Step-HoldsNow closes (k, o) = ended-Kept k
Step-HoldsNow {file} {s = s} (handles d ds e) (k, o) =
    turn-HoldsNow file checks (handle_file_data d (record s { file_data_rx = ds })) tt
      (handles-Sound file d ds s o e k) (handle-output d (record s { file_data_rx = ds }) o)
Step-HoldsNow {file} {streams} {s} (pre_fetches n m) (k, o) =
    let missing_data = missing (record { start = 0; length = s.file_size }) s in
    let tail_end =
      intersection
        (add_range [] (record { start = s.read_position; length = s.file_size - s.read_position }))
        missing_data in
    turn-HoldsNow file selects (download_first streams n tail_end missing_data s) tt
      (first-Sound file streams n tail_end missing_data s k)
      (λ _. first-output streams n tail_end missing_data s ∙ o)
Step-HoldsNow rests k = k
Step-HoldsNow {file} {s = s} (receives phase ts us t n i e h) k =
    let (sound, o) = running-Sound file s phase i k in
    same_phase file s _ phase (receives-Sound file s ts us t n e h)
      (λ u. record {
        downloaded_apart = u.downloaded_apart;
        true_bytes = u.true_bytes;
        whole = u.whole;
      })
      refl k
Step-HoldsNow {file} {s = s} (measures phase d i none g) k =
    same_phase file s _ phase (measures-Sound file d s none g)
      (λ u. record {
        downloaded_apart = u.downloaded_apart;
        true_bytes = u.true_bytes;
        whole = u.whole;
      })
      refl k
Step-HoldsNow {file} {s = s} (ends phase ts us t e) k =
    same_phase file s (give_back t (record s { receivers = ts ++ us })) phase
      (give_back-Sound file s ts us t e) (give_back-Kept file s t (ts ++ us))
      (give_back-output s t (ts ++ us)) k
Step-HoldsNow (abandons ts us t e) k = record {
  downloaded_apart = k.downloaded_apart;
  true_bytes = k.true_bytes;
  whole = k.whole;
}
Step-HoldsNow {file} {s = s} (reads phase position i) k =
    same_phase file s (record s { read_position = position }) phase
      (λ u. record {
        requested_apart = u.requested_apart;
        downloaded_apart = u.downloaded_apart;
        genuine = u.genuine;
        true_bytes = u.true_bytes;
        whole = u.whole;
        pending = u.pending;
      })
      (λ u. record {
        downloaded_apart = u.downloaded_apart;
        true_bytes = u.true_bytes;
        whole = u.whole;
      })
      refl k
Step-HoldsNow {file} {s = s} (modes phase on) k =
    same_phase file s (record s { download_streaming = on }) phase
      (λ u. record {
        requested_apart = u.requested_apart;
        downloaded_apart = u.downloaded_apart;
        genuine = u.genuine;
        true_bytes = u.true_bytes;
        whole = u.whole;
        pending = u.pending;
      })
      (λ u. record {
        downloaded_apart = u.downloaded_apart;
        true_bytes = u.true_bytes;
        whole = u.whole;
      })
      refl k

started-Sound :
    (file : ℕ → ℕ) (params : Params) (file_size length : ℕ)
    → Sound file (started params file_size length)
unfolding started awaited AllGenuine
started-Sound file params file_size length =
    let r : Range = record { start = 0; length = length } in
    let (m, a) = add_range-member [] r tt in
    record {
      requested_apart = a;
      downloaded_apart = tt;
      genuine = tt;
      true_bytes = λ v h. absurd (ground arith);
      whole = λ c v h. absurd (ground arith);
      pending = λ v h. ground (arith, m v);
    }

pub Reach-keeps :
    {file : ℕ → ℕ} {streams : Range → Bool} {s t : Download}
    → Reach file streams s t
    → HoldsNow file s
    → HoldsNow file t
Reach-keeps here k = k
Reach-keeps (further r st) k = Step-HoldsNow st (Reach-keeps r k)

-- However the reader's commands, the receivers and the messages come, and whichever requests fail
-- or stop early: what counts as downloaded is what the CDN has, and if the file is passed on as
-- complete, all of its bytes are downloaded. While the fetch runs, it has its file, and every byte
-- that counts as requested is downloaded, in a message that is still to be handled, or awaited by a
-- receiver that is still there.
pub Reach-HoldsNow :
    (file : ℕ → ℕ) (streams : Range → Bool) (params : Params) (file_size length : ℕ) (d : Download)
    → Reach file streams (started_download params file_size length) d
    → HoldsNow file d
unfolding started
Reach-HoldsNow file streams params file_size length d r =
    Reach-keeps r (started-Sound file params file_size length, refl)
