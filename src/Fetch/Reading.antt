-- ===== src/Fetch/Reading.antt =====
-- A reader gets bytes of the file, and what it waits for is on its way.
use squeezebox_radio_spotify.Fetch.{
  read_bytes, read_available, Fetch, may_read, contained_length_from_value, ranges_to_request,
  Range, read_length, length_to_request, Params,
}
use squeezebox_radio_spotify.Fetch.Holding.{Reach-HoldsNow, Holds-Kept}
use squeezebox_radio_spotify.Fetch.Requests.{missing-member}
use squeezebox_radio_spotify.Fetch.Sound.{slice, Sound, awaited, arrived}
use squeezebox_radio_spotify.Fetch.Steps.{Reach, Download, started_download}
use squeezebox_radio_spotify.Prelude.{
  ℕ, ◌<◌, ◌+◌, ◌≡◌, ◌||◌, true, suc, ap₂, ◌≤◌, ◌∷◌, ap, min, arith, ◌∙◌, zero, refl, sym, lt→ltb,
  ltb→lt, Bool,
}
use squeezebox_radio_spotify.Ranges.Queries.{contained_length-member, contains-member}
use squeezebox_radio_spotify.Ranges.Set.{member}

read_bytes-slice :
    (file written : ℕ → ℕ) (offset n : ℕ)
    → ((i : ℕ) → i < n → written (offset + i) ≡ file (offset + i))
    → read_bytes written offset n ≡ slice file offset n
unfolding read_bytes slice
read_bytes-slice file written offset zero h = refl
read_bytes-slice file written offset (suc n) h =
    ap₂ (λ x xs. x ∷ xs)
      (ap written {x = offset} {y = offset + 0} (omega arith)
        ∙ h 0 (omega arith)
        ∙ ap file {x = offset + 0} {y = offset} (omega arith))
      (read_bytes-slice file written (suc offset) n λ i l.
        ap written {x = suc offset + i} {y = offset + suc i} (omega arith)
        ∙ h (suc i) (omega arith)
        ∙ ap file {x = offset + suc i} {y = suc offset + i} (omega arith))

-- Where the first byte is downloaded, a read of at least one byte inside the file brings bytes of the
-- file from there on: at least one, as many as are asked for at most, and none beyond the file's end.
pub read_available-slice :
    (file : ℕ → ℕ) (offset room : ℕ) (s : Fetch)
    → Sound file s
    → offset < s.file_size
    → 0 < room
    → may_read offset s ≡ true
    → (n : ℕ) × (read_available offset room s ≡ slice file offset n)
      × (0 < n)
      × (n ≤ room)
      × (offset + n ≤ s.file_size)
unfolding read_available
read_available-slice file offset room s k inside some_room there =
    let available = contained_length_from_value s.downloaded offset in
    let n = min (read_length offset room s) available in
    let first : member (offset + 0) s.downloaded ≡ true =
      ap (λ v. member v s.downloaded) {x = offset + 0} {y = offset} (omega arith)
      ∙ sym (contains-member offset 0 s.downloaded k.downloaded_apart)
      ∙ there in
    (
      n,
      read_bytes-slice file s.written offset n (λ i l. k.true_bytes (offset + i) (
          contained_length-member s.downloaded offset i k.downloaded_apart (omega arith)
          ∙ lt→ltb i available (omega arith))),
      omega (
        arith,
        ltb→lt 0 available (
            sym (contained_length-member s.downloaded offset 0 k.downloaded_apart (omega arith))
            ∙ first),
      ),
      omega arith,
      omega arith,
    )

-- A byte inside the file that a reader needs, and that no thread is about to bring, is among the
-- ranges that it asks for.
read_waits :
    (file : ℕ → ℕ) (read_ahead offset room : ℕ) (s : Fetch)
    → Sound file s
    → offset < s.file_size
    → 0 < room
    → (member offset s.downloaded
        || awaited offset s.receivers
        || arrived offset s.file_data_rx
        || member offset (ranges_to_request read_ahead offset room s))
      ≡ true
read_waits file read_ahead offset room s k inside some_room =
    let r : Range = record {
      start = offset;
      length = length_to_request read_ahead offset room s;
    } in
    ground (arith, k.pending offset, missing-member r s offset k.downloaded_apart k.requested_apart)

-- A file that a download passes on as complete is the CDN's, byte by byte.
pub complete_file :
    (file : ℕ → ℕ) (streams : Range → Bool) (params : Params) (file_size length : ℕ) (d : Download)
    → Reach file streams (started_download params file_size length) d
    → d.state.complete ≡ true
    → read_bytes d.state.written 0 d.state.file_size ≡ slice file 0 d.state.file_size
complete_file file streams params file_size length d r c =
    let holds = Reach-HoldsNow file streams params file_size length d r in
    let k = Holds-Kept file d.state d.phase holds in
    read_bytes-slice file d.state.written 0 d.state.file_size
      λ i h. k.true_bytes (0 + i) (k.whole c (0 + i) (omega arith))
