-- ===== src/Bridge/Http.antt =====
-- bridge.rs `accept_http`: the request of a client, and the answer.
pub mod Requests
pub mod Clients
use squeezebox_radio_spotify.Bridge.Page.{Input}
use squeezebox_radio_spotify.Bridge.Result.{
  Result, ok, guard, io_fault, err, unexpected_eof, unsupported_request,
}
use squeezebox_radio_spotify.Prelude.{
  List, ℕ, Bool, leb, ◌∷◌, codes, not, length, [], if◌then◌else◌, ◌&&◌, ◌||◌, suc, ◌==◌, bytes_eq,
  drop, ◌++◌, ◌-◌, zero,
}

-- `ends_with`
abbrev pub ends_with : List ℕ → List ℕ → Bool
ends_with xs suffix =
    leb (length suffix) (length xs) && bytes_eq (drop (length xs - length suffix) xs) suffix

-- A blank line ends the request, after CRLF or LF.
unfoldable pub is_ended : List ℕ → Bool
is_ended request =
    ends_with request (0x0d ∷ 0x0a ∷ 0x0d ∷ 0x0a ∷ []) || ends_with request (0x0a ∷ 0x0a ∷ [])

abbrev pub max_request : ℕ
max_request = 4096

-- The reading loop, with room for `n` more bytes. A read that times out is a broken input.
unfoldable pub read_request : ℕ → List ℕ → List ℕ → Bool → Result (List ℕ)
read_request zero request bytes broken = ok request
read_request (suc n) request [] broken = err (if broken then io_fault else unexpected_eof)
read_request (suc n) request (b ∷ bytes) broken =
    let rest = read_request n (request ++ b ∷ []) bytes broken in
    if is_ended (request ++ b ∷ []) then ok (request ++ b ∷ []) else rest

-- `request.split(|&b| b == b'\n').next()`
unfoldable pub first_line : List ℕ → List ℕ
first_line [] = []
first_line (b ∷ bs) = if b == 0x0a then [] else b ∷ first_line bs

abbrev pub get_http_1_0 : List ℕ
get_http_1_0 = codes "GET /spotify.ogg HTTP/1.0"

abbrev pub get_http_1_1 : List ℕ
get_http_1_1 = codes "GET /spotify.ogg HTTP/1.1"

unfoldable pub is_supported : List ℕ → Bool
is_supported request =
    not (length request == max_request)
    && (bytes_eq (first_line request) (get_http_1_0 ++ 0x0d ∷ [])
        || bytes_eq (first_line request) get_http_1_0
        || bytes_eq (first_line request) (get_http_1_1 ++ 0x0d ∷ []))

abbrev pub bad_request : List ℕ
bad_request = codes "HTTP/1.0 400 Bad Request\r\nConnection: close\r\nContent-Length: 0\r\n\r\n"

abbrev pub ogg_follows : List ℕ
ogg_follows = codes "HTTP/1.0 200 OK\r\nContent-Type: audio/ogg\r\nConnection: close\r\n\r\n"

-- A socket: whether its options can be set, what can be read from it, and whether a write works.
pub record Socket : Type 0 where
  pub configured : Bool
  pub input : Input
  pub writable : Bool

-- What was written to the socket, and the result.
unfoldable pub accept_http : Socket → List ℕ × Result (Unit {0})
accept_http s = elim (guard s.configured io_fault) [
  | err e ↦ ([], err e)
  | ok _ ↦ elim (read_request max_request [] s.input.bytes s.input.broken) [
    | err e ↦ ([], err e)
    | ok request ↦
        if is_supported request
        then (if s.writable then (ogg_follows, ok tt) else ([], err io_fault))
        else if s.writable
        then (bad_request, err unsupported_request)
        else ([], err io_fault)
  ]
]
