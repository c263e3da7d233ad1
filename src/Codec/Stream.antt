-- ===== src/Codec/Stream.antt =====
-- The decoder on bytes that arrive in parts.
use squeezebox_radio_spotify.Codec.{
  Cipher, ApCodec, decode_payload, decode, DecodeState, decode_header, Decoded, verdict, payload,
  more, with_header, mac_size, header,
}
use squeezebox_radio_spotify.Prelude.{
  ℕ, Bool, List, ◌≡◌, ◌++◌, ◌≢◌, Bool-cases, ◌∷◌, true, leb, refl, false, ◌+◌, [], le→leb, suc,
  length, inl, arith, inr,
}

module _ {S : Type 0} (c : Cipher S) where
  -- The codec with its fields.
  abbrev pub codec : ℕ → S → ℕ → S → DecodeState → ApCodec S
  codec m s n t state = record {
    encode_nonce = m;
    encode_cipher = s;
    decode_nonce = n;
    decode_cipher = t;
    decode_state = state;
  }

  -- A decoder that wants more goes on from where it stands.
  abbrev GoesOn : ApCodec S → List ℕ → List ℕ → Decoded × ApCodec S × List ℕ → Type 0
  GoesOn a buf later (r, b, rest) =
      r ≡ more → decode c b (rest ++ later) ≡ decode c a (buf ++ later)

  verdict-ne-more : (good : Bool) (cmd : ℕ) (bytes : List ℕ) → verdict c good cmd bytes ≢ more
  verdict-ne-more true cmd bytes = λ e. cc
  verdict-ne-more false cmd bytes = λ e. cc

  decode_payload-GoesOn :
      (a b : ApCodec S) (cmd size : ℕ) (buf rest later : List ℕ)
      → decode c b (rest ++ later) ≡ decode c a (buf ++ later)
      → GoesOn a buf later (decode_payload c b (payload cmd size) rest)
  unfolding decode_payload
  decode_payload-GoesOn a b cmd size buf rest later same =
      elim (Bool-cases (leb (size + mac_size) (length rest))) [
        | inl whole ↦ rw whole (λ e. absurd (verdict-ne-more _ cmd _ e))
        | inr part ↦ rw part (λ e. same)
      ]

  short-GoesOn :
      (a : ApCodec S) (buf later : List ℕ)
      → decode c a buf ≡ (more, a, buf)
      → GoesOn a buf later (decode c a buf)
  short-GoesOn a buf later e = rw e (λ e. refl)

  fields-GoesOn :
      (m : ℕ) (s : S) (n : ℕ) (t : S) (state : DecodeState) (buf later : List ℕ)
      → GoesOn (codec m s n t state) buf later (decode c (codec m s n t state) buf)
  unfolding decode decode_header decode_payload
  fields-GoesOn m s n t (payload cmd size) buf later =
      decode_payload-GoesOn (codec m s n t (payload cmd size)) (codec m s n t (payload cmd size))
        cmd size buf buf later refl
  fields-GoesOn m s n t header [] later = short-GoesOn (codec m s n t header) [] later refl
  fields-GoesOn m s n t header (x ∷ []) later =
      short-GoesOn (codec m s n t header) (x ∷ []) later refl
  fields-GoesOn m s n t header (x ∷ y ∷ []) later =
      short-GoesOn (codec m s n t header) (x ∷ y ∷ []) later refl
  fields-GoesOn m s n t header (x ∷ y ∷ z ∷ buf) later =
      let b : ApCodec S =
        with_header c (codec m s n t header) (c.decrypt (c.nonce_u32 t n) (x ∷ y ∷ z ∷ [])) in
      rw (le→leb 3 (suc (suc (suc (length buf)))) (omega arith)) (
        decode_payload-GoesOn (codec m s n t header) b _ _ (x ∷ y ∷ z ∷ buf) buf later
          (rw (le→leb 3 (suc (suc (suc (length (buf ++ later))))) (omega arith)) refl))

  -- However the transport cuts the bytes, the decoder comes to the same frames: where it wants more
  -- bytes, it goes on with them as if it had been given all of them at once.
  pub decode_more :
      (a : ApCodec S) (buf later : List ℕ)
      → (decode c a buf).0 ≡ more
      → decode c (decode c a buf).1 ((decode c a buf).2 ++ later) ≡ decode c a (buf ++ later)
  decode_more a buf later e =
      fields-GoesOn a.encode_nonce a.encode_cipher a.decode_nonce a.decode_cipher a.decode_state buf
        later e
