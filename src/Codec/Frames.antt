-- ===== src/Codec/Frames.antt =====
-- A frame that one side sends is what the other side decodes.
use squeezebox_radio_spotify.Codec.{
  Cipher, decode, ApCodec, decode_payload, decode_header, mac_size, payload, header, frame, encode,
  put_u16, next_nonce,
}
use squeezebox_radio_spotify.Codec.Stream.{codec}
use squeezebox_radio_spotify.Prelude.{
  List, ℕ, ◌≡◌, length, ◌++◌, true, take, ◌+◌, arith, sym, ◌∷◌, drop, le→leb, ◌∙◌, length-append,
  length-take, take-append, leb, suc, take-append-drop, ap, [], refl, ap₂, drop-append, ◌<◌,
  drop-drop, ◌%◌, ◌/◌, ◌*◌, append_assoc,
}

-- What the codec relies on. A state that has encrypted a text is the one that has decrypted it: both
-- ways the cipher takes the plain text into its MAC. A text may be decrypted in parts.
pub record IsCipher {S : Type 0} (c : Cipher S) : Type 0 where
  pub decrypts :
      (s : S) (text : List ℕ) → c.decrypt s (c.encrypt s text).0 ≡ (text, (c.encrypt s text).1)
  pub keeps_length : (s : S) (text : List ℕ) → length (c.encrypt s text).0 ≡ length text
  pub parts :
      (s : S) (xs ys : List ℕ)
      → c.decrypt s (xs ++ ys) ≡ (
        (c.decrypt s xs).0 ++ (c.decrypt (c.decrypt s xs).1 ys).0,
        (c.decrypt (c.decrypt s xs).1 ys).1,
      )
  pub length_decrypt : (s : S) (xs : List ℕ) → length (c.decrypt s xs).0 ≡ length xs
  pub authentic : (s : S) → c.check_mac s (c.finish s).0 ≡ (true, (c.finish s).1)
  pub mac_length : (s : S) → length (c.finish s).0 ≡ mac_size

module _ {S : Type 0} (c : Cipher S) (v : IsCipher c) where
  module _ (s : S) (h bytes : List ℕ) (three : length h ≡ 3) where
    text : List ℕ
    text = (c.encrypt s (h ++ bytes)).0

    -- The text decrypted in two parts.
    both : c.decrypt s text ≡ (h ++ bytes, (c.encrypt s (h ++ bytes)).1)
    unfolding text
    both = v.decrypts s (h ++ bytes)

    split :
        ◌≡◌ {A = List ℕ × S}
          (
            (c.decrypt s (take 3 text)).0
                ++ (c.decrypt (c.decrypt s (take 3 text)).1 (drop 3 text)).0,
            (c.decrypt (c.decrypt s (take 3 text)).1 (drop 3 text)).1,
          )
          (h ++ bytes, (c.encrypt s (h ++ bytes)).1)
    split = sym (v.parts s (take 3 text) (drop 3 text)) ∙ rw (take-append-drop 3 text) both

    size_text : length text ≡ 3 + length bytes
    unfolding text
    size_text = omega (arith, v.keeps_length s (h ++ bytes), length-append h bytes, three)

    size_first : length (c.decrypt s (take 3 text)).0 ≡ 3
    size_first = omega (arith, v.length_decrypt s (take 3 text), length-take 3 text, size_text)

    first_part : (c.decrypt s (take 3 text)).0 ≡ h
    first_part =
        sym (
          take-append (c.decrypt s (take 3 text)).0
            (c.decrypt (c.decrypt s (take 3 text)).1 (drop 3 text)).0 3 (sym size_first))
        ∙ ap (λ p. take 3 p.0) split
        ∙ take-append h bytes 3 (sym three)

    second_part :
        c.decrypt (c.decrypt s (take 3 text)).1 (drop 3 text)
        ≡ (bytes, (c.encrypt s (h ++ bytes)).1)
    second_part =
        let first : List ℕ = (c.decrypt s (take 3 text)).0 in
        let rest : List ℕ × S = c.decrypt (c.decrypt s (take 3 text)).1 (drop 3 text) in
        ap₂ (λ p q. (p, q))
          (sym (drop-append first rest.0 3 (sym size_first))
            ∙ ap (λ p. drop 3 p.0) split
            ∙ drop-append h bytes 3 (sym three))
          (ap (λ p. p.1) split)

  module _ (m : ℕ) (e : S) (n : ℕ) (bytes mac rest : List ℕ) (s2 s3 : S)
      (good : c.check_mac s2 mac ≡ (true, s3)) (mac_long : length mac ≡ 4) where
    decode_payload-frame :
        (cmd : ℕ) (s1 : S) (t : List ℕ) (size : ℕ)
        → size ≡ length t
        → c.decrypt s1 t ≡ (bytes, s2)
        → decode_payload c
            (codec c m e n s1 (payload cmd size))
            (payload cmd size)
            (t ++ (mac ++ rest))
          ≡ (frame cmd bytes, codec c m e n s3 header, rest)
    unfolding decode_payload
    decode_payload-frame cmd s1 t size long d =
        let whole : leb (size + 4) (length (t ++ (mac ++ rest))) ≡ true =
          le→leb _ _ (omega (arith, length-append t (mac ++ rest), length-append mac rest)) in
        let behind : drop (size + 4) (t ++ (mac ++ rest)) ≡ rest =
          sym (drop-drop size 4 (t ++ (mac ++ rest)))
          ∙ ap (drop 4) (drop-append t (mac ++ rest) size long)
          ∙ drop-append mac rest 4 (sym mac_long) in
        rw
          (
            whole,
            behind,
            take-append t (mac ++ rest) size long,
            drop-append t (mac ++ rest) size long,
            take-append mac rest 4 (sym mac_long),
            d,
            good,
          )
          refl

  two_bytes : (n : ℕ) → n < 65536 → ((n % 65536) / 256) * 256 + n % 256 ≡ n
  two_bytes n h = omega arith

  decode-frame :
      (m : ℕ) (e : S) (n : ℕ) (s : S) (cmd : ℕ) (bytes mac rest text : List ℕ) (s2 s3 : S)
      → c.check_mac s2 mac ≡ (true, s3)
      → length mac ≡ 4
      → length bytes < 65536
      → length text ≡ 3 + length bytes
      → (c.decrypt (c.nonce_u32 s n) (take 3 text)).0 ≡ cmd ∷ put_u16 (length bytes)
      → c.decrypt (c.decrypt (c.nonce_u32 s n) (take 3 text)).1 (drop 3 text) ≡ (bytes, s2)
      → decode c (codec c m e n s header) (text ++ (mac ++ rest))
        ≡ (frame cmd bytes, codec c m e (next_nonce n) s3 header, rest)
  unfolding decode decode_header
  decode-frame m e n s cmd bytes mac rest [] s2 s3 good ml short tl f1 f2 = absurd (omega arith)
  decode-frame m e n s cmd bytes mac rest (x ∷ []) s2 s3 good ml short tl f1 f2 =
      absurd (omega arith)
  decode-frame m e n s cmd bytes mac rest (x ∷ y ∷ []) s2 s3 good ml short tl f1 f2 =
      absurd (omega arith)
  decode-frame m e n s cmd bytes mac rest (x ∷ y ∷ z ∷ t) s2 s3 good ml short tl f1 f2 =
      rw (le→leb 3 (suc (suc (suc (length (t ++ (mac ++ rest)))))) (omega arith), f1)
        (decode_payload-frame m e (next_nonce n) bytes mac rest s2 s3 good ml cmd _ t _
          (two_bytes (length bytes) short ∙ omega arith) f2)

  -- The sender's cipher and nonce are those of the receiver, which waits for a header.
  abbrev pub InStep : ApCodec S → ApCodec S → Type 0
  InStep a b =
      (a.encode_cipher ≡ b.decode_cipher)
      × (a.encode_nonce ≡ b.decode_nonce)
      × (b.decode_state ≡ header)

  -- A frame of fewer than 65,536 bytes that one side sends is what the other side decodes, whatever
  -- follows it, and afterwards the two are in step again.
  pub encode-decode :
      (a b : ApCodec S) (cmd : ℕ) (bytes rest : List ℕ)
      → InStep a b
      → length bytes < 65536
      → (b' : ApCodec S) × (decode c b ((encode c a cmd bytes).1 ++ rest)
          ≡ (frame cmd bytes, b', rest))
        × InStep (encode c a cmd bytes).0 b'
  unfolding encode text
  encode-decode a b cmd bytes rest (ciphers, nonces, waits) short =
      let s0 : S = c.nonce_u32 a.encode_cipher a.encode_nonce in
      let h : List ℕ = cmd ∷ put_u16 (length bytes) in
      let s2 : S = (c.encrypt s0 (h ++ bytes)).1 in
      let T : List ℕ = (c.encrypt s0 (h ++ bytes)).0 in
      let mac : List ℕ = (c.finish s2).0 in
      let after : ApCodec S =
        codec c b.encode_nonce b.encode_cipher (next_nonce a.encode_nonce) (c.finish s2).1 header in
      let same : b ≡ codec c b.encode_nonce b.encode_cipher a.encode_nonce a.encode_cipher header =
        ap (λ st. codec c b.encode_nonce b.encode_cipher b.decode_nonce b.decode_cipher st) waits
        ∙ ap (λ n. codec c b.encode_nonce b.encode_cipher n b.decode_cipher header) (sym nonces)
        ∙ ap (λ s. codec c b.encode_nonce b.encode_cipher a.encode_nonce s header) (sym ciphers) in
      (
        after,
        ap₂ (decode c) same (append_assoc T mac rest)
            ∙ decode-frame b.encode_nonce b.encode_cipher a.encode_nonce a.encode_cipher cmd bytes
                mac rest T s2 (c.finish s2).1 (v.authentic s2) (v.mac_length s2) short
                (size_text s0 h bytes refl) (first_part s0 h bytes refl)
                (second_part s0 h bytes refl),
        (refl, refl, refl),
      )
