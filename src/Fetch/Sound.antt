-- ===== src/Fetch/Sound.antt =====
-- What a download keeps up: the bytes that count as downloaded are the file's, and every requested
-- byte is downloaded, in a message, or awaited by a receiver.
use squeezebox_radio_spotify.Fetch.{
  store_data, Receiver, ReceivedData, Fetch, Range, file_data, request, throughput_of,
  response_time, write_at,
}
use squeezebox_radio_spotify.Prelude.{
  ℕ, ◌<◌, List, length, ◌≡◌, [], get_or, Bool, ◌∷◌, ◌++◌, suc, ◌+◌, leb, false, ◌||◌, ap, arith,
  true, zero, ◌&&◌, ◌∙◌, ltb, refl, subst, Bool-cases, ◌-◌, inl, inr,
}
use squeezebox_radio_spotify.Ranges.Adding.{add_range-member}
use squeezebox_radio_spotify.Ranges.Set.{Apart, member}

-- The file's bytes from an offset on, as the CDN has them.
unfoldable pub slice : (ℕ → ℕ) → ℕ → ℕ → List ℕ
slice file offset zero = []
slice file offset (suc n) = file offset ∷ slice file (suc offset) n

pub length-slice : (file : ℕ → ℕ) (offset n : ℕ) → length (slice file offset n) ≡ n
unfolding slice
length-slice file offset zero = refl
length-slice file offset (suc n) = ap suc (length-slice file (suc offset) n)

pub get_or-slice :
    (file : ℕ → ℕ) (offset n i d : ℕ) → i < n → get_or (slice file offset n) i d ≡ file (offset + i)
unfolding slice
get_or-slice file offset zero i d h = absurd (omega arith)
get_or-slice file offset (suc n) zero d h = ap file (omega arith)
get_or-slice file offset (suc n) (suc i) d h =
    get_or-slice file (suc offset) n i d (omega arith)
    ∙ ap file {x = suc offset + i} {y = offset + suc i} (omega arith)

-- The positions that a receiver has not brought yet.
abbrev pub in_receiver : ℕ → Receiver → Bool
in_receiver v t = leb (t.offset + t.actual_length) v && ltb v (t.offset + t.length)

unfoldable pub awaited : ℕ → List Receiver → Bool
awaited v [] = false
awaited v (t ∷ ts) = in_receiver v t || awaited v ts

abbrev pub in_data : ℕ → ReceivedData → Bool
in_data v (file_data offset bytes) = leb offset v && ltb v (offset + length bytes)
in_data v (throughput_of n) = false
in_data v (response_time n) = false

unfoldable pub arrived : ℕ → List ReceivedData → Bool
arrived v [] = false
arrived v (d ∷ ds) = in_data v d || arrived v ds

abbrev pub Genuine : (ℕ → ℕ) → ReceivedData → Type 0
Genuine file (file_data offset bytes) = bytes ≡ slice file offset (length bytes)
Genuine file (throughput_of n) = Unit
Genuine file (response_time n) = Unit

unfoldable pub AllGenuine : (ℕ → ℕ) → List ReceivedData → Type 0
AllGenuine file [] = Unit
AllGenuine file (d ∷ ds) = Genuine file d × AllGenuine file ds

pub record Sound (file : ℕ → ℕ) (s : Fetch) : Type 0 where
  pub requested_apart : Apart 0 s.requested
  pub downloaded_apart : Apart 0 s.downloaded
  pub genuine : AllGenuine file s.file_data_rx
  pub true_bytes : (v : ℕ) → member v s.downloaded ≡ true → s.written v ≡ file v
  pub whole : s.complete ≡ true → (v : ℕ) → v < s.file_size → member v s.downloaded ≡ true
  pub pending :
      (v : ℕ)
      → member v s.requested ≡ true
      → (member v s.downloaded || awaited v s.receivers || arrived v s.file_data_rx) ≡ true

pub awaited-append :
    (v : ℕ) (ts us : List Receiver) → awaited v (ts ++ us) ≡ (awaited v ts || awaited v us)
unfolding awaited
awaited-append v [] us = refl
awaited-append v (t ∷ ts) us = ground (arith, awaited-append v ts us)

pub arrived-append :
    (v : ℕ) (ds es : List ReceivedData) → arrived v (ds ++ es) ≡ (arrived v ds || arrived v es)
unfolding arrived
arrived-append v [] es = refl
arrived-append v (d ∷ ds) es = ground (arith, arrived-append v ds es)

pub AllGenuine-append :
    (file : ℕ → ℕ) (ds : List ReceivedData) (d : ReceivedData)
    → AllGenuine file ds
    → Genuine file d
    → AllGenuine file (ds ++ d ∷ [])
unfolding AllGenuine
AllGenuine-append file [] d g h = (h, tt)
AllGenuine-append file (e ∷ ds) d (k, g) h = (k, AllGenuine-append file ds d g h)

-- A request covers what it adds.
pub request-Sound : (file : ℕ → ℕ) (r : Range) (s : Fetch) → Sound file s → Sound file (request r s)
unfolding awaited
request-Sound file r s k =
    let (m, a) = add_range-member s.requested r k.requested_apart in
    record {
      requested_apart = a;
      downloaded_apart = k.downloaded_apart;
      genuine = k.genuine;
      true_bytes = k.true_bytes;
      whole = k.whole;
      pending = λ v e. ground (
        arith,
        m v,
        k.pending v,
        awaited-append v s.receivers
            (record { offset = r.start; length = r.length; actual_length = 0 } ∷ []),
      );
    }

write_at-slice :
    (file : ℕ → ℕ) (offset : ℕ) (bytes : List ℕ) (written : ℕ → ℕ) (v : ℕ)
    → bytes ≡ slice file offset (length bytes)
    → (leb offset v && ltb v (offset + length bytes)) ≡ true
    → write_at offset bytes written v ≡ file v
write_at-slice file offset bytes written v e h = rw h (
    ap (λ bs. get_or bs (v - offset) (written v)) e
    ∙ get_or-slice file offset (length bytes) (v - offset) (written v) (ground arith)
    ∙ ap file {x = offset + (v - offset)} {y = v} (ground arith))

-- Bytes that are the file's are written where they belong.
pub store_data-Sound :
    (file : ℕ → ℕ) (offset : ℕ) (bytes : List ℕ) (ds : List ReceivedData) (s : Fetch)
    → s.file_data_rx ≡ file_data offset bytes ∷ ds
    → Sound file s
    → Sound file (store_data offset bytes (record s { file_data_rx = ds }))
unfolding store_data AllGenuine arrived
store_data-Sound file offset bytes ds s e k =
    let r : Range = record { start = offset; length = length bytes } in
    let (m, a) = add_range-member s.downloaded r k.downloaded_apart in
    let (g, gs) = subst (AllGenuine file) e k.genuine in
    record {
      requested_apart = k.requested_apart;
      downloaded_apart = a;
      genuine = gs;
      true_bytes = λ v h. elim (Bool-cases (leb offset v && ltb v (offset + length bytes))) [
        | inl new ↦ write_at-slice file offset bytes s.written v g new
        | inr old ↦ rw old (k.true_bytes v (ground (arith, m v)))
      ];
      whole = λ c v h. ground (arith, m v, k.whole c v h);
      pending = λ v h. ground (arith, m v, k.pending v, ap (arrived v) e);
    }
