-- ===== src/Tests/BridgeRuns.antt =====
-- A pipe with the first page of a stream, and a client.
use squeezebox_radio_spotify.Bridge.Headers.{
  observe, Headers, default, vorbis, collect, segments, segment, finish_packet, packet_rate,
  from_le_bytes, collect_segments, is_bos, flags_of,
}
use squeezebox_radio_spotify.Bridge.Headers.Packets.{Observes, observe-Observes}
use squeezebox_radio_spotify.Bridge.Headers.Safe.{IsBounded, observe-IsBounded}
use squeezebox_radio_spotify.Bridge.Headers.Streams.{Reads, observe-starts}
use squeezebox_radio_spotify.Bridge.Http.{
  Socket, accept_http, read_request, first_line, is_ended, is_supported,
}
use squeezebox_radio_spotify.Bridge.Http.Clients.{Sends, accept_http_iff}
use squeezebox_radio_spotify.Bridge.Http.Requests.{Supported}
use squeezebox_radio_spotify.Bridge.Loop.{
  Config, World, step, serve, initial, would_block, poll_loading, timeout, poll_accept, try_again,
  receive, take_page, accept_client, arrive, replay, announce, hold, write_pending, item, arrives,
}
use squeezebox_radio_spotify.Bridge.Loop.Delivery.{Reach-Inv, Reach, next, here, Reach-FlowOk}
use squeezebox_radio_spotify.Bridge.Loop.Inv.{Inv, FlowOk}
use squeezebox_radio_spotify.Bridge.Page.{IsPage, Input, page, capture}
use squeezebox_radio_spotify.Bridge.Page.Framing.{Framed, page-Framed, page-append}
use squeezebox_radio_spotify.Bridge.Result.{Ensures, ok, index, slice}
use squeezebox_radio_spotify.Prelude.{
  List, ℕ, ◌∷◌, ◌++◌, true, ◌≡◌, false, none, some, [], arith, codes, ◌↔◌, refl, bytes_eq,
  if◌then◌else◌,
}

-- The identification header of a stream at 44,100 samples a second.
abbrev identification : List ℕ
identification = 1 ∷ (vorbis ++ (0 ∷ 0 ∷ 0 ∷ 0 ∷ 2 ∷ 0x44 ∷ 0xac ∷ 0 ∷ 0 ∷ 0 ∷ 0 ∷ []))

abbrev first_header : List ℕ
first_header =
    capture
    ++ (0 ∷ 2 ∷ 0 ∷ 0 ∷ 0 ∷ 0 ∷ 0 ∷ 0 ∷ 0 ∷ 0 ∷ 9 ∷ 0 ∷ 0 ∷ 0 ∷ 0 ∷ 0 ∷ 0 ∷ 0 ∷ 0 ∷ 0 ∷ 0 ∷ 0 ∷ 1
        ∷ [])

abbrev first_page : List ℕ
first_page = first_header ++ (18 ∷ [] ++ identification)

first_page-IsPage : IsPage first_page
first_page-IsPage = record {
  header = first_header;
  lacing = 18 ∷ [];
  body = identification;
  splits = refl;
  header_size = refl;
  captured = refl;
  version = refl;
  lacing_size = refl;
  body_size = refl;
}

abbrev pipe : Input
pipe = record { bytes = first_page ++ (0x4f ∷ []); broken = false }

page-Framed_example : Ensures (Framed pipe) (page pipe)
page-Framed_example = page-Framed pipe

page-append_example :
    page (record { bytes = first_page ++ (0x4f ∷ []); broken = false })
    ≡ ok (some first_page, record { bytes = 0x4f ∷ []; broken = false })
page-append_example = page-append (0x4f ∷ []) false first_page-IsPage

default-IsBounded : IsBounded default
default-IsBounded = ground arith

observe-IsBounded_example : Ensures IsBounded (observe default first_page)
observe-IsBounded_example = observe-IsBounded default first_page-IsPage default-IsBounded

observe-Observes_example :
    Ensures (Observes default [] first_page-IsPage) (observe default first_page)
observe-Observes_example = observe-Observes default first_page-IsPage [] default-IsBounded refl

-- A cache in the middle of another stream.
abbrev stale : Headers
stale = record { serial = some 9; bytes = 1 ∷ []; packets = 2; prefix = 5 ∷ []; rate = 44_100 }

stale-IsBounded : IsBounded stale
stale-IsBounded = ground arith

observe-starts_example :
    (observe stale first_page
      ≡ observe (if is_bos (flags_of first_page) then default else stale) first_page)
    × Ensures (Reads stale first_page) (observe stale first_page)
observe-starts_example = observe-starts stale first_page-IsPage stale-IsBounded

-- A page in the middle of a stream.
abbrev audio_header : List ℕ
audio_header =
    capture
    ++ (0 ∷ 0 ∷ 0 ∷ 0 ∷ 0 ∷ 0 ∷ 0 ∷ 0 ∷ 0 ∷ 0 ∷ 9 ∷ 0 ∷ 0 ∷ 0 ∷ 0 ∷ 0 ∷ 0 ∷ 0 ∷ 0 ∷ 0 ∷ 0 ∷ 0 ∷ 1
        ∷ [])

abbrev audio_page : List ℕ
audio_page = audio_header ++ (2 ∷ [] ++ (0xaa ∷ 0xbb ∷ []))

audio_page-IsPage : IsPage audio_page
audio_page-IsPage = record {
  header = audio_header;
  lacing = 2 ∷ [];
  body = 0xaa ∷ 0xbb ∷ [];
  splits = refl;
  header_size = refl;
  captured = refl;
  version = refl;
  lacing_size = refl;
  body_size = refl;
}

abbrev socket : Socket
socket = record {
  configured = true;
  input = record { bytes = codes "GET /spotify.ogg HTTP/1.0\r\n\r\n"; broken = false };
  writable = true;
}

accept_http_iff_example : ((accept_http socket).1 ≡ ok tt) ↔ (
    (socket.configured ≡ true)
    × (socket.writable ≡ true)
    × ((line : List ℕ) × Sends socket.input.bytes line × Supported line))
accept_http_iff_example = accept_http_iff socket

abbrev config : Config
config = record { paced = false; marked = true }

abbrev nothing : World
nothing = record {
  loading = none;
  accepting = would_block;
  receiving = timeout;
  now = 0;
  elapsed = 0;
  writing = try_again;
  marker_works = true;
}

abbrev begun : Headers
begun = record { serial = some 9; bytes = first_page; packets = 1; prefix = []; rate = 44100 }

-- The first page arrives, and then a client.
begun-Reach : Reach config (record initial { headers = begun })
unfolding step serve poll_loading poll_accept receive take_page arrive announce hold observe collect
    segments segment finish_packet packet_rate index slice from_le_bytes bytes_eq accept_client
    collect_segments write_pending
begun-Reach = next (record nothing { receiving = item first_page }) here first_page-IsPage refl

served-Reach : Reach config (record initial { headers = begun; client = some first_page })
unfolding step serve poll_loading poll_accept receive accept_client accept_http replay read_request
    is_ended bytes_eq is_supported first_line write_pending
served-Reach = next (record nothing { accepting = arrives socket true true }) begun-Reach tt refl

Reach-Inv_example : Inv (record initial { headers = begun; client = some first_page })
Reach-Inv_example = Reach-Inv config served-Reach

Reach-FlowOk_example :
    FlowOk (step config nothing (record initial { headers = begun; client = some first_page }))
Reach-FlowOk_example = Reach-FlowOk config nothing served-Reach tt
