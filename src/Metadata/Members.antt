-- ===== src/Metadata/Members.antt =====
-- What the JSON text of native/metadata/main.rs tells of a changed track.
use squeezebox_radio_spotify.Json.{replace, read_object}
use squeezebox_radio_spotify.Json.RoundTrip.{replace-append}
use squeezebox_radio_spotify.Metadata.{Env, json, first_of_lines}
use squeezebox_radio_spotify.Metadata.Text.{AreServed, json-details}
use squeezebox_radio_spotify.Prelude.{
  ℕ, List, [], ◌∷◌, ◌++◌, All, Bool, ◌≡◌, ◌≢◌, Bool-cases, false, ==_iff, ◌∙◌, ◌==◌, arith,
  append-nil, ap₂, inl, ◌&&◌, ap, inr, refl, get_or, true, subst, codes, sym, some,
}

-- The texts with a separator between them.
unfoldable pub join : List ℕ → List (List ℕ) → List ℕ
join s [] = []
join s (x ∷ []) = x
join s (x ∷ y ∷ ys) = x ++ (s ++ join s (y ∷ ys))

abbrev pub Without : ℕ → List ℕ → Type 0
Without c xs = All (λ x. x ≢ c) xs

unfoldable pub ends_cr : List ℕ → Bool
ends_cr [] = false
ends_cr (c ∷ []) = c == 0x0d
ends_cr (c ∷ d ∷ cs) = ends_cr (d ∷ cs)

-- What stands behind a line: nothing, CRLF, or LF where the line has no CR at its end.
pub data LineEnd (line : List ℕ) : List ℕ → Type 0 where
  at_end : LineEnd line []
  at_return : (rest : List ℕ) → LineEnd line (0x0d ∷ 0x0a ∷ rest)
  at_feed : (rest : List ℕ) → ends_cr line ≡ false → LineEnd line (0x0a ∷ rest)

-- `line` is the first line of `text`.
pub record IsFirstOf (text line : List ℕ) : Type 0 where
  pub behind : List ℕ
  pub splits : text ≡ line ++ behind
  pub unbroken : Without 0x0a line
  pub line_end : LineEnd line behind

replace-Without : (c : ℕ) (s xs : List ℕ) → Without c xs → replace c s xs ≡ xs
unfolding replace
replace-Without c s [] h = refl
replace-Without c s (x ∷ xs) (n, h) =
    let other : (x == c) ≡ false = ground (arith, n) in
    rw other (ap (λ l. x ∷ l) (replace-Without c s xs h))

replace_self : (c : ℕ) (s : List ℕ) → replace c s (c ∷ []) ≡ s
unfolding replace
replace_self c s = rw ((==_iff c c).1 refl) (append-nil s)

replace-join :
    (c : ℕ) (s : List ℕ) (parts : List (List ℕ))
    → All (Without c) parts
    → replace c s (join (c ∷ []) parts) ≡ join s parts
unfolding join replace
replace-join c s [] h = refl
replace-join c s (x ∷ []) (n, h) = replace-Without c s x n
replace-join c s (x ∷ y ∷ ys) (n, h) =
    replace-append c s x (c ∷ join (c ∷ []) (y ∷ ys))
    ∙ ap₂ (λ a b. a ++ b) (replace-Without c s x n)
        (replace-append c s (c ∷ []) (join (c ∷ []) (y ∷ ys))
          ∙ ap₂ (λ a b. a ++ b) (replace_self c s) (replace-join c s (y ∷ ys) h))

longer_end :
    (c d : ℕ) (cs line : List ℕ) {behind : List ℕ}
    → (c == 0x0d && d == 0x0a) ≡ false
    → d ∷ cs ≡ line ++ behind
    → LineEnd line behind
    → LineEnd (c ∷ line) behind
unfolding ends_cr
longer_end c d cs line m e at_end = at_end
longer_end c d cs line m e (at_return rest) = at_return rest
longer_end c d cs [] m e (at_feed rest k) =
    let feed : d ≡ 0x0a = ap (λ l. get_or l 0 0) e in at_feed rest (ground (arith, m, feed))
longer_end c d cs (x ∷ line) m e (at_feed rest k) = at_feed rest k

longer-IsFirstOf :
    (c d : ℕ) (cs line : List ℕ)
    → (c == 0x0a) ≡ false
    → (c == 0x0d && d == 0x0a) ≡ false
    → IsFirstOf (d ∷ cs) line
    → IsFirstOf (c ∷ d ∷ cs) (c ∷ line)
longer-IsFirstOf c d cs line n m k = record {
  behind = k.behind;
  splits = ap (λ l. c ∷ l) k.splits;
  unbroken = (λ e. ground (arith, e, n), k.unbroken);
  line_end = longer_end c d cs line m k.splits k.line_end;
}

feed-LineEnd : (c : ℕ) (rest : List ℕ) → (c == 0x0a) ≡ true → LineEnd [] (c ∷ rest)
unfolding ends_cr
feed-LineEnd c rest feed =
    subst (λ x. LineEnd [] (x ∷ rest)) (sym ((==_iff c 0x0a).0 feed)) (at_feed rest refl)

return-LineEnd : (c d : ℕ) (rest : List ℕ) → c ≡ 0x0d → d ≡ 0x0a → LineEnd [] (c ∷ d ∷ rest)
return-LineEnd c d rest e f =
    subst (λ x. LineEnd [] (x ∷ d ∷ rest)) (sym e)
      (subst (λ x. LineEnd [] (0x0d ∷ x ∷ rest)) (sym f) (at_return rest))

nothing-IsFirstOf : (text : List ℕ) → LineEnd [] text → IsFirstOf text []
nothing-IsFirstOf text e = record { behind = text; splits = refl; unbroken = tt; line_end = e }

first_of_lines-IsFirstOf : (text : List ℕ) → IsFirstOf text (first_of_lines text)
unfolding first_of_lines
first_of_lines-IsFirstOf [] = nothing-IsFirstOf [] at_end
first_of_lines-IsFirstOf (c ∷ []) = elim (Bool-cases (c == 0x0a)) [
  | inl feed ↦ rw feed (nothing-IsFirstOf (c ∷ []) (feed-LineEnd c [] feed))
  | inr other ↦ rw other (record {
    behind = [];
    splits = refl;
    unbroken = (λ e. ground (arith, e, other), tt);
    line_end = at_end;
  })
]
first_of_lines-IsFirstOf (c ∷ d ∷ cs) = elim (Bool-cases (c == 0x0a)) [
  | inl feed ↦ rw feed (nothing-IsFirstOf (c ∷ d ∷ cs) (feed-LineEnd c (d ∷ cs) feed))
  | inr other ↦ elim (Bool-cases (c == 0x0d && d == 0x0a)) [
    | inl both ↦
        rw (other, both)
          (nothing-IsFirstOf (c ∷ d ∷ cs)
            (return-LineEnd c d cs (ground (arith, both)) (ground (arith, both))))
    | inr neither ↦
        rw (other, neither)
          (longer-IsFirstOf c d cs (first_of_lines (d ∷ cs)) other neither
            (first_of_lines-IsFirstOf (d ∷ cs)))
  ]
]

-- Whatever quotes, backslashes, line feeds and carriage returns the variables hold, a JSON reader gets
-- from the text of a changed track these seven members: the state and, each under its own key, the
-- track's id, name, album and duration as they are in the environment, the artists, which the
-- environment has on a line each, with a comma and a space between them, and the first line of the
-- covers. No variable may hold another control character.
pub json-reads :
    (env : Env) (artists : List (List ℕ))
    → AreServed env
    → env.artists ≡ join (0x0a ∷ []) artists
    → All (Without 0x0a) artists
    → (cover : List ℕ) × IsFirstOf env.covers cover
      × (read_object 7 (json (codes "playing") env)
          ≡ some (
              (codes "playback_state", codes "playing")
              ∷ (codes "track_id", env.track_id)
              ∷ (codes "title", env.name)
              ∷ (codes "artist", join (codes ", ") artists)
              ∷ (codes "album", env.album)
              ∷ (codes "duration_ms", env.duration_ms)
              ∷ (codes "artwork_url", cover)
              ∷ []))
json-reads env artists v e lines = (
  first_of_lines env.covers,
  first_of_lines-IsFirstOf env.covers,
  json-details env v
      ∙ ap
          (λ text. some (
            (codes "playback_state", codes "playing")
            ∷ (codes "track_id", env.track_id)
            ∷ (codes "title", env.name)
            ∷ (codes "artist", text)
            ∷ (codes "album", env.album)
            ∷ (codes "duration_ms", env.duration_ms)
            ∷ (codes "artwork_url", first_of_lines env.covers)
            ∷ []))
          (ap (replace 0x0a (codes ", ")) e ∙ replace-join 0x0a (codes ", ") artists lines),
)
