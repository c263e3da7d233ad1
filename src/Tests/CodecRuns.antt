-- ===== src/Tests/CodecRuns.antt =====
-- A codec over a cipher that hides nothing, and whose MAC counts the bytes since the nonce.
use squeezebox_radio_spotify.Codec.{
  Cipher, ApCodec, decode, decode_header, encode, decode_payload, header, frame, more,
}
use squeezebox_radio_spotify.Codec.Frames.{IsCipher, InStep, encode-decode}
use squeezebox_radio_spotify.Codec.Stream.{decode_more}
use squeezebox_radio_spotify.Prelude.{
  List, ℕ, ap, ◌∷◌, length, [], ◌++◌, ◌%◌, bytes_eq, sym, ◌≡◌, append_assoc, bytes_eq_iff, refl,
  arith,
}

abbrev count_mac : List ℕ → List ℕ
count_mac seen = length seen % 256 ∷ 0 ∷ 0 ∷ 0 ∷ []

abbrev open_cipher : Cipher (List ℕ)
open_cipher = record {
  nonce_u32 = λ s n. n ∷ [];
  encrypt = λ s text. (text, s ++ text);
  decrypt = λ s text. (text, s ++ text);
  finish = λ s. (count_mac s, s);
  check_mac = λ s mac. (bytes_eq mac (count_mac s), s);
}

open_cipher-IsCipher : IsCipher open_cipher
open_cipher-IsCipher = record {
  decrypts = λ s text. refl;
  keeps_length = λ s text. refl;
  parts = λ s xs ys. ap (λ t. (xs ++ ys, t)) (sym (append_assoc s xs ys));
  length_decrypt = λ s xs. refl;
  authentic = λ s. ap (λ t. (t, s)) ((bytes_eq_iff (count_mac s) (count_mac s)).1 refl);
  mac_length = λ s. refl;
}

abbrev fresh : ApCodec (List ℕ)
fresh = record {
  encode_nonce = 0;
  encode_cipher = [];
  decode_nonce = 0;
  decode_cipher = [];
  decode_state = header;
}

encode-decode_example :
    (b : ApCodec (List ℕ)) × (decode open_cipher fresh
        ((encode open_cipher fresh 4 (7 ∷ 8 ∷ [])).1 ++ (9 ∷ []))
      ≡ (frame 4 (7 ∷ 8 ∷ []), b, 9 ∷ []))
    × InStep open_cipher open_cipher-IsCipher (encode open_cipher fresh 4 (7 ∷ 8 ∷ [])).0 b
encode-decode_example =
    encode-decode open_cipher open_cipher-IsCipher fresh fresh 4 (7 ∷ 8 ∷ []) (9 ∷ [])
      (refl, refl, refl) (omega arith)

wants_more : (decode open_cipher fresh (4 ∷ 0 ∷ 2 ∷ 7 ∷ [])).0 ≡ more
unfolding decode decode_header decode_payload
wants_more = refl

decode_more_example :
    decode open_cipher
      (decode open_cipher fresh (4 ∷ 0 ∷ 2 ∷ 7 ∷ [])).1
      ((decode open_cipher fresh (4 ∷ 0 ∷ 2 ∷ 7 ∷ [])).2 ++ (8 ∷ []))
    ≡ decode open_cipher fresh (4 ∷ 0 ∷ 2 ∷ 7 ∷ 8 ∷ [])
decode_more_example = decode_more open_cipher fresh (4 ∷ 0 ∷ 2 ∷ 7 ∷ []) (8 ∷ []) wants_more
