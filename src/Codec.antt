-- ===== src/Codec.antt =====
-- native/librespot/core/src/connection/codec.rs, the frames between the engine and the access
-- point. The Shannon cipher is a parameter. Nonces wrap around, as they do in a release build.
pub mod Frames
pub mod Stream
use squeezebox_radio_spotify.Prelude.{
  ℕ, List, Bool, ◌+◌, ◌%◌, get_or, ◌∷◌, if◌then◌else◌, take, true, ◌^◌, ◌/◌, ◌*◌, length, drop, leb,
  false, [], ◌++◌,
}

-- The operations of a cipher with a state of type `S`.
pub record Cipher (S : Type 0) : Type 0 where
  pub nonce_u32 : S → ℕ → S
  pub encrypt : S → List ℕ → List ℕ × S
  pub decrypt : S → List ℕ → List ℕ × S
  pub finish : S → List ℕ × S
  pub check_mac : S → List ℕ → Bool × S

abbrev pub header_size : ℕ
header_size = 3

abbrev pub mac_size : ℕ
mac_size = 4

pub data DecodeState : Type 0 where
  header : DecodeState
  payload : ℕ → ℕ → DecodeState

pub record ApCodec (S : Type 0) : Type 0 where
  pub encode_nonce : ℕ
  pub encode_cipher : S
  pub decode_nonce : ℕ
  pub decode_cipher : S
  pub decode_state : DecodeState

abbrev pub next_nonce : ℕ → ℕ
next_nonce n = (n + 1) % 2 ^ 32

-- `put_u16(len as u16)`
abbrev pub put_u16 : ℕ → List ℕ
put_u16 n = (n % 65536) / 256 ∷ (n % 256) ∷ []

-- `BigEndian::read_u16`
abbrev pub read_u16 : List ℕ → ℕ
read_u16 bytes = get_or bytes 0 0 * 256 + get_or bytes 1 0

pub data Decoded : Type 0 where
  frame : ℕ → List ℕ → Decoded
  more : Decoded
  refused : Decoded

module _ {S : Type 0} (c : Cipher S) where
  -- What is appended to the buffer.
  unfoldable pub encode : ApCodec S → ℕ → List ℕ → ApCodec S × List ℕ
  encode a cmd bytes =
      let (text, s) =
        c.encrypt (c.nonce_u32 a.encode_cipher a.encode_nonce)
          (cmd ∷ (put_u16 (length bytes) ++ bytes)) in
      let (mac, s') = c.finish s in
      (record a { encode_cipher = s'; encode_nonce = next_nonce a.encode_nonce }, text ++ mac)

  abbrev pub with_header : ApCodec S → List ℕ × S → ApCodec S
  with_header a (h, s) = record a {
    decode_cipher = s;
    decode_nonce = next_nonce a.decode_nonce;
    decode_state = payload (get_or h 0 0) (read_u16 (drop 1 h));
  }

  -- The first part of `decode`.
  unfoldable pub decode_header : ApCodec S → DecodeState → List ℕ → ApCodec S × List ℕ
  decode_header a (payload cmd size) buf = (a, buf)
  decode_header a header buf =
      if leb header_size (length buf)
      then (
        with_header a
            (c.decrypt (c.nonce_u32 a.decode_cipher a.decode_nonce) (take header_size buf)),
        drop header_size buf,
      )
      else (a, buf)

  abbrev pub verdict : Bool → ℕ → List ℕ → Decoded
  verdict true cmd bytes = frame cmd bytes
  verdict false cmd bytes = refused

  -- The second part. The buffer loses the frame also where its MAC is refused.
  unfoldable pub decode_payload : ApCodec S → DecodeState → List ℕ → Decoded × ApCodec S × List ℕ
  decode_payload a header buf = (more, a, buf)
  decode_payload a (payload cmd size) buf =
      let (bytes, s) = c.decrypt a.decode_cipher (take size buf) in
      let (good, s') = c.check_mac s (take mac_size (drop size buf)) in
      if leb (size + mac_size) (length buf)
      then (
        verdict good cmd bytes,
        record a { decode_cipher = s'; decode_state = header },
        drop (size + mac_size) buf,
      )
      else (more, a, buf)

  unfoldable pub decode : ApCodec S → List ℕ → Decoded × ApCodec S × List ℕ
  decode a buf =
      let (a', rest) = decode_header a a.decode_state buf in decode_payload a' a'.decode_state rest
