-- ===== src/Fetch/Keeps.antt =====
-- What each handler and receiver of a download keeps.
use squeezebox_radio_spotify.Fetch.{
  download_range, Receiver, Range, give_back, ReceivedData, Fetch, file_data, RangeSet,
  download_first, missing, handle_file_data, handle_throughput, handle_response_time, throughput_of,
  response_time, finish_full, store_data, is_full, ControlFlow, fails, contained_length_from_value,
}
use squeezebox_radio_spotify.Fetch.Requests.{spawn-Sound, clamped_range}
use squeezebox_radio_spotify.Fetch.Sound.{
  awaited, arrived, Sound, slice, in_receiver, in_data, AllGenuine-append, length-slice,
  awaited-append, arrived-append, AllGenuine, store_data-Sound,
}
use squeezebox_radio_spotify.Fetch.Steps.{brought, brings}
use squeezebox_radio_spotify.Prelude.{
  ℕ, ◌+◌, Bool, ◌≤◌, List, ◌≡◌, ◌||◌, ◌++◌, ◌∷◌, leb, [], ◌&&◌, min, ltb, arith, ap, false, sym,
  true, Bool-cases, ◌-◌, inl, inr, subst, refl, if◌then◌else◌, ◌<◌, leb→le, ◌∙◌, lt→ltb,
}
use squeezebox_radio_spotify.Ranges.Queries.{contained_length-member}
use squeezebox_radio_spotify.Ranges.Set.{Apart, member}
use squeezebox_radio_spotify.Ranges.Subtracting.{subtract_range-member}

pub download-Sound :
    (file : ℕ → ℕ) (streams : Range → Bool) (offset length : ℕ) (s : Fetch)
    → Sound file s
    → Sound file (download_range streams offset length s).1
unfolding download_range
download-Sound file streams offset length s k =
    spawn-Sound file streams (missing (clamped_range offset length s) s) s k

pub first-Sound :
    (file : ℕ → ℕ) (streams : Range → Bool) (bytes : ℕ) (xs ys : RangeSet) (s : Fetch)
    → Sound file s
    → Sound file (download_first streams bytes xs ys s).1
first-Sound file streams bytes [] [] s k = k
first-Sound file streams bytes [] (r ∷ rs) s k =
    download-Sound file streams r.start (min r.length bytes) s k
first-Sound file streams bytes (r ∷ rs) ys s k =
    download-Sound file streams r.start (min r.length bytes) s k

-- A receiver's part moves from what it awaits to what has arrived.
pub awaited-brought :
    (v n : ℕ) (t : Receiver)
    → t.actual_length + n ≤ t.length
    → in_receiver v t ≡ (
        in_receiver v (brought n t)
        || leb (t.offset + t.actual_length) v && ltb v (t.offset + t.actual_length + n))
awaited-brought v n t h = ground arith

pub receives-Sound :
    (file : ℕ → ℕ) (s : Fetch) (ts us : List Receiver) (t : Receiver) (n : ℕ)
    → s.receivers ≡ ts ++ t ∷ us
    → t.actual_length + n ≤ t.length
    → Sound file s
    → Sound file (record s {
      receivers = ts ++ brought n t ∷ us;
      file_data_rx = s.file_data_rx ++ brings file n t ∷ [];
    })
unfolding awaited arrived
receives-Sound file s ts us t n e h k = record {
  requested_apart = k.requested_apart;
  downloaded_apart = k.downloaded_apart;
  genuine = AllGenuine-append file s.file_data_rx (brings file n t) k.genuine (
      ap (slice file (t.offset + t.actual_length))
        (sym (length-slice file (t.offset + t.actual_length) n)));
  true_bytes = k.true_bytes;
  whole = k.whole;
  pending = λ v m. ground (
    arith,
    k.pending v,
    ap (awaited v) e,
    awaited-append v ts (t ∷ us),
    awaited-append v ts (brought n t ∷ us),
    arrived-append v s.file_data_rx (brings file n t ∷ []),
    length-slice file (t.offset + t.actual_length) n,
    awaited-brought v n t h,
  );
}

pub give_back-Sound :
    (file : ℕ → ℕ) (s : Fetch) (ts us : List Receiver) (t : Receiver)
    → s.receivers ≡ ts ++ t ∷ us
    → Sound file s
    → Sound file (give_back t (record s { receivers = ts ++ us }))
unfolding awaited give_back
give_back-Sound file s ts us t e k = elim (Bool-cases (ltb 0 (t.length - t.actual_length))) [
  | inl some_left ↦
      let r : Range = record {
        start = t.offset + t.actual_length;
        length = t.length - t.actual_length;
      } in
      let (m, a) = subtract_range-member s.requested r k.requested_apart in
      rw (some_left, give_back)
        (record {
          requested_apart = a;
          downloaded_apart = k.downloaded_apart;
          genuine = k.genuine;
          true_bytes = k.true_bytes;
          whole = k.whole;
          pending = λ v h. ground (
            arith,
            m v,
            k.pending v,
            ap (awaited v) e,
            awaited-append v ts (t ∷ us),
            awaited-append v ts us,
          );
        })
  | inr none_left ↦
      rw (none_left, give_back)
        (record {
          requested_apart = k.requested_apart;
          downloaded_apart = k.downloaded_apart;
          genuine = k.genuine;
          true_bytes = k.true_bytes;
          whole = k.whole;
          pending = λ v h. ground (
            arith,
            k.pending v,
            ap (awaited v) e,
            awaited-append v ts (t ∷ us),
            awaited-append v ts us,
          );
        })
]

-- A measurement is taken off the channel.
pub measured-Sound :
    (file : ℕ → ℕ) (d : ReceivedData) (ds : List ReceivedData) (s : Fetch)
    → s.file_data_rx ≡ d ∷ ds
    → ((v : ℕ) → in_data v d ≡ false)
    → Sound file s
    → Sound file (record s { file_data_rx = ds })
unfolding arrived AllGenuine
measured-Sound file d ds s e none k = record {
  requested_apart = k.requested_apart;
  downloaded_apart = k.downloaded_apart;
  genuine = (subst (AllGenuine file) e k.genuine).1;
  true_bytes = k.true_bytes;
  whole = k.whole;
  pending = λ v h. ground (arith, k.pending v, ap (arrived v) e, none v);
}

pub full-member :
    (s : Fetch) (v : ℕ)
    → Apart 0 s.downloaded
    → is_full s ≡ true
    → v < s.file_size
    → member v s.downloaded ≡ true
full-member s v a full h =
    let length = contained_length_from_value s.downloaded 0 in
    let long : s.file_size ≤ length = leb→le s.file_size length full in
    ap (λ u. member u s.downloaded) {x = v} {y = 0 + v} (omega arith)
    ∙ contained_length-member s.downloaded 0 v a (omega (arith, long))
    ∙ lt→ltb v length (omega (arith, long))

pub finish_full-Sound : (file : ℕ → ℕ) (s : Fetch) → Sound file s → Sound file (finish_full s).1
finish_full-Sound file s k = elim (Bool-cases (is_full s)) [
  | inl full ↦ rw full (record {
    requested_apart = k.requested_apart;
    downloaded_apart = k.downloaded_apart;
    genuine = k.genuine;
    true_bytes = k.true_bytes;
    whole = λ c v h. full-member s v k.downloaded_apart full h;
    pending = k.pending;
  })
  | inr more ↦ rw more k
]

pub handles-Sound :
    (file : ℕ → ℕ) (d : ReceivedData) (ds : List ReceivedData) (s : Fetch)
    → s.output ≡ true
    → s.file_data_rx ≡ d ∷ ds
    → Sound file s
    → Sound file (handle_file_data d (record s { file_data_rx = ds })).1
unfolding handle_file_data handle_throughput handle_response_time
handles-Sound file (throughput_of n) ds s o e k =
    let k' = measured-Sound file (throughput_of n) ds s e (λ v. refl) k in
    record {
      requested_apart = k'.requested_apart;
      downloaded_apart = k'.downloaded_apart;
      genuine = k'.genuine;
      true_bytes = k'.true_bytes;
      whole = k'.whole;
      pending = k'.pending;
    }
handles-Sound file (response_time n) ds s o e k =
    let k' = measured-Sound file (response_time n) ds s e (λ v. refl) k in
    record {
      requested_apart = k'.requested_apart;
      downloaded_apart = k'.downloaded_apart;
      genuine = k'.genuine;
      true_bytes = k'.true_bytes;
      whole = k'.whole;
      pending = k'.pending;
    }
handles-Sound file (file_data offset bytes) ds s o e k =
    let s' = record s { file_data_rx = ds } in
    subst (λ (p : ControlFlow × Fetch). Sound file p.1)
      (ap (λ b. if b then finish_full (store_data offset bytes s') else (fails, s')) (sym o))
      (finish_full-Sound file (store_data offset bytes s')
        (store_data-Sound file offset bytes ds s e k))
