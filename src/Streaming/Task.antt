-- ===== src/Streaming/Task.antt =====
-- streaming.rs `open`, and the task that it spawns. The CDN is a parameter: what it answers to a
-- request for a range. A request by hyper, the session and the URL's resolution are not modelled.
pub mod Laws
pub mod Playback
use squeezebox_radio_spotify.Prelude.{
  ℕ, Option, ◌*◌, List, ◌∷◌, some, none, suc, [], ◌+◌, length, leb, true, zero, false,
}
use squeezebox_radio_spotify.Streaming.Reader.{Item, SequentialAudio, failure, chunk}

-- `CHUNK`
unfoldable pub chunk_size : ℕ
chunk_size = 64 * 1024

-- The body of a response, `none` if it cannot be collected.
abbrev pub Body : Type 0
Body = Option (List ℕ)

-- The answer to a request. `partial` is PARTIAL_CONTENT, with the total of its Content-Range, if
-- that can be read; `other` is any other status, an error or no answer.
pub data Response : Type 0 where
  -- `stream_from_cdn` itself fails
  unsent : Response
  partial : Option ℕ → Body → Response
  other : Response

pub data Opened : Type 0 where
  -- the URL, the first body, the total
  opened : ℕ → Body → ℕ → Opened
  error : Opened

-- A chunk goes into the channel before what follows.
abbrev pub send : List ℕ → Option (List Item) → Option (List Item)
send d none = none
send d (some items) = some (chunk d ∷ items)

-- The `match` on the answer to a later request.
abbrev pub answer : (Body → Option (List Item)) → Response → Option (List Item)
answer k (partial _ body) = k body
answer k unsent = some (failure ∷ [])
answer k other = some (failure ∷ [])

abbrev start : ℕ → Option (List Item) → Option SequentialAudio
start total none = none
start total (some items) =
    some (record { incoming = items; current = none; position = 0; file_size = total })

module _ (request : ℕ → ℕ → ℕ → Response) where
  -- The loop over the URLs, and the test behind it.
  pub select : List ℕ → Opened
  select [] = error
  select (url ∷ urls) = elim (request url 0 chunk_size) [
    | unsent ↦ error
    | partial (some total) body ↦ opened url body total
    | partial none body ↦ error
    | other ↦ select urls
  ]

  -- The loop of the task while its entries are taken, from a body at `offset` on.
  pub produce : ℕ → ℕ → ℕ → ℕ → Body → Option (List Item)
  produce zero url total offset body = none
  produce (suc fuel) url total offset none = some (failure ∷ [])
  produce (suc fuel) url total offset (some []) = some []
  produce (suc fuel) url total offset (some (b ∷ bs)) =
      let next = offset + length (b ∷ bs) in
      send (b ∷ bs) (elim (leb total next) [
        | true ↦ some []
        | false ↦ answer (produce fuel url total next) (request url next chunk_size)
      ])

  -- Every round but the last brings a byte of the total.
  pub open_audio : List ℕ → Option SequentialAudio
  open_audio urls = elim (select urls) [
    | error ↦ none
    | opened url body total ↦ start total (produce (total + 2) url total 0 body)
  ]
