-- ===== src/Supervisor/Lines.antt =====
-- The status file of native/supervisor/main.rs: its JSON text, and what it shows in the end.
use mathlib.Core.Option
use squeezebox_radio_spotify.Bridge.Marker.{trim}
use squeezebox_radio_spotify.Json.{
  replace, read_string, read_object, unescape, backslash, prepend, quote,
}
use squeezebox_radio_spotify.Json.RoundTrip.{
  is_plain, Escapes, replace-append, read_object-escaped, is_plain-IsKey, read_string-cons,
}
use squeezebox_radio_spotify.Prelude.{
  ℕ, List, ◌≤◌, ◌≡◌, codes, drop, Option, ◌∷◌, [], true, All, length, ◌++◌, arith, ◌↔◌, some, refl,
  ◌<◌, Bool-cases, none, ◌==◌, inl, ==_iff, inr, suc, zero, Option-cases, ◌∙◌, subst, ◌+◌, ◌⊎◌,
}
use squeezebox_radio_spotify.Supervisor.{
  escape, Status, pairing, starts_with, error, write_status, starting, connected, find, browse,
  on_line, after_lines, supervise, authenticated, update,
}

abbrev pub IsPrintable : ℕ → Type 0
IsPrintable c = 0x20 ≤ c

escape-cons : (x : ℕ) (xs : List ℕ) → escape (x ∷ xs) ≡ escape (x ∷ []) ++ escape xs
unfolding escape
escape-cons x xs =
    rw
      (
        replace-append backslash (backslash ∷ backslash ∷ []) (x ∷ []) xs,
        replace-append quote (backslash ∷ quote ∷ [])
            (replace backslash (backslash ∷ backslash ∷ []) (x ∷ []))
            (replace backslash (backslash ∷ backslash ∷ []) xs),
      )
      refl

escape-reads :
    (x : ℕ) (rest : List ℕ)
    → IsPrintable x
    → read_string (escape (x ∷ []) ++ rest) ≡ prepend (some x) (read_string rest)
unfolding escape replace read_string unescape
escape-reads x rest s = elim (Bool-cases (x == backslash)) [
  | inl e ↦ rw ((==_iff x backslash).0 e) refl
  | inr n1 ↦ elim (Bool-cases (x == quote)) [
    | inl e ↦ rw ((==_iff x quote).0 e) refl
    | inr n2 ↦ rw (n1, n2) (read_string-cons x rest s n2 n1)
  ]
]

escape-Escapes : Escapes IsPrintable escape
unfolding escape replace
escape-Escapes = record { nil = refl; cons = escape-cons; reads = escape-reads }

plain-IsPrintable : (cs : List ℕ) → is_plain cs ≡ true → All IsPrintable cs
unfolding is_plain
plain-IsPrintable [] h = tt
plain-IsPrintable (c ∷ cs) h = (ground arith, plain-IsPrintable cs (ground arith))

-- The members of a status.
abbrev pub members : Status → List (List ℕ × List ℕ)
members starting = (codes "state", codes "starting") ∷ []
members (pairing url) = (codes "state", codes "pairing") ∷ (codes "url", url) ∷ []
members connected = (codes "state", codes "connected") ∷ []
members (error message) = (codes "state", codes "error") ∷ (codes "message", message) ∷ []

abbrev pub IsShown : Status → Type 0
IsShown (pairing url) = All IsPrintable url
IsShown (error message) = All IsPrintable message
IsShown _ = Unit {0}

-- A JSON reader gets from the text that `write_status` writes the status and, whatever quotes and
-- backslashes it holds, the URL or the message, if that has no control character.
pub write_status-reads :
    (s : Status) → IsShown s → read_object (length (members s)) (write_status s) ≡ some (members s)
unfolding escape replace is_plain
write_status-reads starting v =
    read_object-escaped escape-Escapes (members starting) (omega arith)
      ((is_plain-IsKey (codes "state") refl, plain-IsPrintable (codes "starting") refl), tt)
write_status-reads (pairing url) v =
    read_object-escaped escape-Escapes (members (pairing url)) (omega arith) (
      (is_plain-IsKey (codes "state") refl, plain-IsPrintable (codes "pairing") refl),
      ((is_plain-IsKey (codes "url") refl, v), tt),
    )
write_status-reads connected v =
    read_object-escaped escape-Escapes (members connected) (omega arith)
      ((is_plain-IsKey (codes "state") refl, plain-IsPrintable (codes "connected") refl), tt)
write_status-reads (error message) v =
    read_object-escaped escape-Escapes (members (error message)) (omega arith) (
      (is_plain-IsKey (codes "state") refl, plain-IsPrintable (codes "error") refl),
      ((is_plain-IsKey (codes "message") refl, v), tt),
    )

-- The pattern stands at a position.
abbrev pub Occurs : List ℕ → List ℕ → ℕ → Type 0
Occurs pattern line n = (rest : List ℕ) × (drop n line ≡ pattern ++ rest)

starts_with_iff :
    (pattern line : List ℕ) → (starts_with pattern line ≡ true) ↔ Occurs pattern line 0
starts_with_iff [] line = (λ e. (line, refl), λ o. refl)
starts_with_iff (p ∷ ps) [] = (λ e. absurd cc, λ (rest, q). absurd cc)
starts_with_iff (p ∷ ps) (c ∷ cs) = (
  λ e.
      let (rest, q) = (starts_with_iff ps cs).0 (ground arith) in
      let same : p ≡ c = ground arith in (rest, cc),
  λ (rest, q).
      let same : c ≡ p = cc in
      let tail : cs ≡ ps ++ rest = cc in
      let more : starts_with ps cs ≡ true = (starts_with_iff ps cs).1 (rest, tail) in ground arith,
)

-- What `find` answers: the first position at which the pattern stands, or that there is none.
abbrev pub IsFirst : List ℕ → List ℕ → Option ℕ → Type 0
IsFirst pattern line none = (k : ℕ) → k ≤ length line → ¬ Occurs pattern line k
IsFirst pattern line (some n) =
    (n ≤ length line) × Occurs pattern line n × ((k : ℕ) → k < n → ¬ Occurs pattern line k)

Occurs-nil : (p : ℕ) (ps : List ℕ) (k : ℕ) → ¬ Occurs (p ∷ ps) [] k
Occurs-nil p ps zero (rest, q) = absurd cc
Occurs-nil p ps (suc k) (rest, q) = absurd cc

Occurs-cons :
    (pattern : List ℕ) (c : ℕ) (cs : List ℕ) (n : ℕ)
    → ¬ Occurs pattern (c ∷ cs) 0
    → ((k : ℕ) → k < n → ¬ Occurs pattern cs k)
    → (k : ℕ) → k < suc n
    → ¬ Occurs pattern (c ∷ cs) k
Occurs-cons pattern c cs n away f zero h = away
Occurs-cons pattern c cs n away f (suc k) h = f k (omega arith)

later-IsFirst :
    (pattern : List ℕ) (c : ℕ) (cs : List ℕ) (r : Option ℕ)
    → IsFirst pattern cs r
    → ¬ Occurs pattern (c ∷ cs) 0
    → IsFirst pattern (c ∷ cs) (Option.map suc r)
later-IsFirst pattern c cs none f away = λ k h.
    Occurs-cons pattern c cs (suc (length cs)) away (λ k h. f k (omega arith)) k (omega arith)
later-IsFirst pattern c cs (some n) (a, b, f) away =
    (omega arith, b, Occurs-cons pattern c cs n away f)

-- `find` answers the first position at which the pattern stands, and `None` exactly where it stands
-- nowhere in the line.
find-IsFirst : (p : ℕ) (ps line : List ℕ) → IsFirst (p ∷ ps) line (find (p ∷ ps) line)
unfolding find
find-IsFirst p ps [] = λ k h. Occurs-nil p ps k
find-IsFirst p ps (c ∷ cs) = elim (Bool-cases (starts_with (p ∷ ps) (c ∷ cs))) [
  | inl here ↦
      rw here (omega arith, (starts_with_iff (p ∷ ps) (c ∷ cs)).0 here, λ k h. absurd (omega arith))
  | inr away ↦ rw away (
      later-IsFirst (p ∷ ps) c cs (find (p ∷ ps) cs) (find-IsFirst p ps cs) (λ o.
        let here : starts_with (p ∷ ps) (c ∷ cs) ≡ true = (starts_with_iff (p ∷ ps) (c ∷ cs)).1 o in
        absurd cc))
]

-- What a line tells, by the places at which the two texts stand in it.
abbrev Tells : List ℕ → Option Status → Type 0
Tells line r =
    ((n : ℕ) × IsFirst browse line (some n) × (r ≡ some (pairing (trim (drop (n + 11) line)))))
    ⊎ (IsFirst browse line none
        × (((n : ℕ) × IsFirst authenticated line (some n) × (r ≡ some connected))
            ⊎ (IsFirst authenticated line none × (r ≡ none))))

-- A line in which "Browse to: " stands tells the pairing URL, which is what follows the first such
-- text, trimmed; of the other lines, one in which "Authenticated as" stands tells that the engine is
-- connected, and one without that text tells nothing.
on_line-Tells : (line : List ℕ) → Tells line (on_line line)
unfolding on_line
on_line-Tells line = elim (Option-cases (find browse line)) [
  | inr (n, e) ↦
      inl (n, subst (IsFirst browse line) e (find-IsFirst _ _ line), rw (e, on_line) refl)
  | inl e ↦ inr (
    subst (IsFirst browse line) e (find-IsFirst _ _ line),
    elim (Option-cases (find authenticated line)) [
      | inr (n, f) ↦
          inl (
            n,
            subst (IsFirst authenticated line) f (find-IsFirst _ _ line),
            rw (e, on_line, f) refl,
          )
      | inl f ↦
          inr
            (subst (IsFirst authenticated line) f (find-IsFirst _ _ line), rw (e, on_line, f) refl)
    ],
  )
]

after_lines-append :
    (s : Status) (before after : List (List ℕ))
    → after_lines s (before ++ after) ≡ after_lines (after_lines s before) after
unfolding after_lines
after_lines-append s [] after = refl
after_lines-append s (line ∷ before) after =
    after_lines-append (update (on_line line) s) before after

after_lines_silent :
    (s : Status) (lines : List (List ℕ))
    → All (λ line. on_line line ≡ none) lines
    → after_lines s lines ≡ s
unfolding after_lines
after_lines_silent s [] h = refl
after_lines_silent s (line ∷ lines) h = rw h.0 (after_lines_silent s lines h.1)

-- While the engine runs, and after it has ended with success, the status is what the last line that
-- tells anything told.
supervise_last :
    (before after : List (List ℕ)) (line : List ℕ) (s : Status)
    → on_line line ≡ some s
    → All (λ line. on_line line ≡ none) after
    → supervise (before ++ line ∷ after) none ≡ s
unfolding supervise after_lines
supervise_last before after line s e h =
    after_lines-append starting before (line ∷ after) ∙ rw e (after_lines_silent s after h)
