-- ===== src/Metadata/Text.antt =====
-- The JSON text of native/metadata/main.rs, read back.
use squeezebox_radio_spotify.Json.{
  replace, read_string, unescape, backslash, prepend, quote, read_object,
}
use squeezebox_radio_spotify.Json.RoundTrip.{
  replace-append, read_string-cons, Escapes, is_plain, read_object-escaped, is_plain-IsKey, IsKey,
}
use squeezebox_radio_spotify.Metadata.{esc, first_of_lines, Env, json, details}
use squeezebox_radio_spotify.Prelude.{
  List, [], some, codes, ℕ, ◌≤◌, ◌⊎◌, ◌∷◌, ◌≡◌, ◌++◌, Bool-cases, ◌==◌, refl, inl, ==_iff, inr, All,
  arith, All-append, true,
}

-- What `esc` serves: a byte from 0x20 on, a line feed or a carriage return.
abbrev pub IsServed : ℕ → Type 0
IsServed c = (0x20 ≤ c) ⊎ ((c ≡ 0x0a) ⊎ (c ≡ 0x0d))

esc-cons : (x : ℕ) (xs : List ℕ) → esc (x ∷ xs) ≡ esc (x ∷ []) ++ esc xs
unfolding esc
esc-cons x xs =
    let a = replace backslash (backslash ∷ backslash ∷ []) in
    let b = replace quote (backslash ∷ quote ∷ []) in
    let c = replace 0x0a (backslash ∷ 0x6e ∷ []) in
    rw
      (
        replace-append backslash (backslash ∷ backslash ∷ []) (x ∷ []) xs,
        replace-append quote (backslash ∷ quote ∷ []) (a (x ∷ [])) (a xs),
        replace-append 0x0a (backslash ∷ 0x6e ∷ []) (b (a (x ∷ []))) (b (a xs)),
        replace-append 0x0d (backslash ∷ 0x72 ∷ []) (c (b (a (x ∷ [])))) (c (b (a xs))),
      )
      refl

esc-reads :
    (x : ℕ) (rest : List ℕ)
    → IsServed x
    → read_string (esc (x ∷ []) ++ rest) ≡ prepend (some x) (read_string rest)
unfolding esc replace read_string unescape
esc-reads x rest s = elim (Bool-cases (x == backslash)) [
  | inl e ↦ rw ((==_iff x backslash).0 e) refl
  | inr n1 ↦ elim (Bool-cases (x == quote)) [
    | inl e ↦ rw ((==_iff x quote).0 e) refl
    | inr n2 ↦ elim (Bool-cases (x == 0x0a)) [
      | inl e ↦ rw ((==_iff x 0x0a).0 e) refl
      | inr n3 ↦ elim (Bool-cases (x == 0x0d)) [
        | inl e ↦ rw ((==_iff x 0x0d).0 e) refl
        | inr n4 ↦
            rw (n1, n2, n3, n4)
              (read_string-cons x rest (ground (arith, ==_iff x 0x0a, ==_iff x 0x0d)) n2 n1)
      ]
    ]
  ]
]

esc-Escapes : Escapes IsServed esc
unfolding esc replace
esc-Escapes = record { nil = refl; cons = esc-cons; reads = esc-reads }

replace-IsServed :
    (c : ℕ) (s xs : List ℕ) → All IsServed s → All IsServed xs → All IsServed (replace c s xs)
unfolding replace
replace-IsServed c s [] h k = tt
replace-IsServed c s (x ∷ xs) h k = elim (Bool-cases (x == c)) [
  | inl same ↦ rw same (All-append IsServed s (replace c s xs) h (replace-IsServed c s xs h k.1))
  | inr other ↦ rw other (k.0, replace-IsServed c s xs h k.1)
]

first_of_lines-IsServed : (xs : List ℕ) → All IsServed xs → All IsServed (first_of_lines xs)
unfolding first_of_lines
first_of_lines-IsServed [] h = tt
first_of_lines-IsServed (c ∷ []) h = ground arith
first_of_lines-IsServed (c ∷ d ∷ cs) h = ground (arith, first_of_lines-IsServed (d ∷ cs) h.1)

is_plain-IsServed : (cs : List ℕ) → is_plain cs ≡ true → All IsServed cs
unfolding is_plain
is_plain-IsServed [] h = tt
is_plain-IsServed (c ∷ cs) h = (inl (ground arith), is_plain-IsServed cs (ground arith))

-- The variables that the JSON text shows.
pub record AreServed (env : Env) : Type 0 where
  pub track_id : All IsServed env.track_id
  pub name : All IsServed env.name
  pub artists : All IsServed env.artists
  pub album : All IsServed env.album
  pub duration_ms : All IsServed env.duration_ms
  pub covers : All IsServed env.covers

abbrev IsWritten : List ℕ × List ℕ → Type 0
IsWritten (key, value) = IsKey key × All IsServed value

details-IsWritten : (env : Env) → AreServed env → All IsWritten (details env)
unfolding is_plain
details-IsWritten env v =
    let artists : All IsServed (replace 0x0a (codes ", ") env.artists) =
      replace-IsServed 0x0a (codes ", ") env.artists (is_plain-IsServed (codes ", ") refl)
        v.artists in
    (
      (is_plain-IsKey (codes "track_id") refl, v.track_id),
      (
        (is_plain-IsKey (codes "title") refl, v.name),
        (
          (is_plain-IsKey (codes "artist") refl, artists),
          (
            (is_plain-IsKey (codes "album") refl, v.album),
            (
              (is_plain-IsKey (codes "duration_ms") refl, v.duration_ms),
              (
                (
                  is_plain-IsKey (codes "artwork_url") refl,
                  first_of_lines-IsServed env.covers v.covers,
                ),
                tt,
              ),
            ),
          ),
        ),
      ),
    )

-- The text of a changed track, with the members as they are computed.
pub json-details :
    (env : Env)
    → AreServed env
    → read_object 7 (json (codes "playing") env)
      ≡ some ((codes "playback_state", codes "playing") ∷ details env)
unfolding esc replace is_plain
json-details env v =
    read_object-escaped esc-Escapes ((codes "playback_state", codes "playing") ∷ details env)
      (omega arith)
      (
        (is_plain-IsKey (codes "playback_state") refl, is_plain-IsServed (codes "playing") refl),
        details-IsWritten env v,
      )
