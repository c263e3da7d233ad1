-- ===== src/Bridge/Http/Clients.antt =====
-- Which clients `accept_http` takes, by the text of their requests.
use squeezebox_radio_spotify.Bridge.Http.{accept_http, Socket, ends_with, is_ended, first_line, ok}
use squeezebox_radio_spotify.Bridge.Http.Requests.{Supported, Stopped, accept_http-Stopped}
use squeezebox_radio_spotify.Prelude.{
  ℕ, List, ◌∷◌, ◌++◌, [], ◌≡◌, All, true, Bool-cases, ◌∙◌, arith, codes, length, ◌≢◌, ◌<◌, ◌↔◌, sym,
  take, ◌==◌, inl, false, append_assoc, ◌-◌, bytes_eq_iff, inr, ap, subst, ==_iff, drop, refl,
  take-append-drop, ◌+◌, length-append, drop-append,
}

-- A request ends with a blank line, after CRLF or LF.
pub data Ends (request : List ℕ) : Type 0 where
  crlf : (front : List ℕ) → request ≡ front ++ codes "\r\n\r\n" → Ends request
  lf : (front : List ℕ) → request ≡ front ++ codes "\n\n" → Ends request

-- `line` is what stands before the first line feed.
pub record IsFirstLine (line request : List ℕ) : Type 0 where
  pub rest : List ℕ
  pub splits : request ≡ line ++ 0x0a ∷ rest
  pub unbroken : All (λ c. c ≢ 0x0a) line

-- What a client sends starts with a request, which is what stands up to its first blank line.
pub record Sends (bytes line : List ℕ) : Type 0 where
  pub request : List ℕ
  pub rest : List ℕ
  pub splits : bytes ≡ request ++ rest
  pub size : length request < 4096
  pub ended : Ends request
  pub first : (n : ℕ) → n < length request → Ends (take n request) → ⊥
  pub starts : IsFirstLine line request

ends_with_iff :
    (xs suffix : List ℕ)
    → (ends_with xs suffix ≡ true) ↔ ((front : List ℕ) × (xs ≡ front ++ suffix))
ends_with_iff xs suffix = (there, back)
  where
    there : ends_with xs suffix ≡ true → (front : List ℕ) × (xs ≡ front ++ suffix)
    there e =
        let n = length xs - length suffix in
        let same = (bytes_eq_iff (drop n xs) suffix).0 (ground (arith, e)) in
        (take n xs, sym (take-append-drop n xs) ∙ ap (λ l. take n xs ++ l) same)

    back : (front : List ℕ) × (xs ≡ front ++ suffix) → ends_with xs suffix ≡ true
    back (front, e) =
        let n = length xs - length suffix in
        let long : length xs ≡ length front + length suffix =
          ap length e ∙ length-append front suffix in
        let same : drop n xs ≡ suffix =
          ap (drop n) e ∙ drop-append front suffix n (omega (arith, long)) in
        ground (arith, long, (bytes_eq_iff (drop n xs) suffix).1 same)

is_ended_iff : (request : List ℕ) → (is_ended request ≡ true) ↔ Ends request
unfolding is_ended
is_ended_iff request = (there, back)
  where
    there : is_ended request ≡ true → Ends request
    there e = elim (Bool-cases (ends_with request (codes "\r\n\r\n"))) [
      | inl four ↦
          let (front, f) = (ends_with_iff request (codes "\r\n\r\n")).0 four in crlf front f
      | inr not_four ↦
          let two : ends_with request (codes "\n\n") ≡ true = rw not_four at e in
          let (front, f) = (ends_with_iff request (codes "\n\n")).0 two in lf front f
    ]

    back : Ends request → is_ended request ≡ true
    back (crlf front f) = rw ((ends_with_iff request (codes "\r\n\r\n")).1 (front, f)) refl
    back (lf front f) =
        let two = (ends_with_iff request (codes "\n\n")).1 (front, f) in
        elim (Bool-cases (ends_with request (codes "\r\n\r\n"))) [
          | inl four ↦ rw four refl
          | inr not_four ↦ rw (not_four, two) refl
        ]

first_line-IsFirstLine :
    (front back : List ℕ) → IsFirstLine (first_line (front ++ 0x0a ∷ back)) (front ++ 0x0a ∷ back)
unfolding first_line
first_line-IsFirstLine [] back = record { rest = back; splits = refl; unbroken = tt }
first_line-IsFirstLine (b ∷ front) back = elim (Bool-cases (b == 0x0a)) [
  | inl feed ↦ rw feed (record {
    rest = front ++ 0x0a ∷ back;
    splits = ap (λ c. c ∷ (front ++ 0x0a ∷ back)) ((==_iff b 0x0a).0 feed);
    unbroken = tt;
  })
  | inr other ↦
      let k = first_line-IsFirstLine front back in
      rw other (record {
        rest = k.rest;
        splits = ap (λ l. b ∷ l) k.splits;
        unbroken = (λ e. ground (arith, e, other), k.unbroken);
      })
]

first_line_unique :
    (line rest : List ℕ) → All (λ c. c ≢ 0x0a) line → first_line (line ++ 0x0a ∷ rest) ≡ line
unfolding first_line
first_line_unique [] rest h = refl
first_line_unique (c ∷ line) rest (n, h) =
    let other : (c == 0x0a) ≡ false = ground (arith, n) in
    rw other (ap (λ l. c ∷ l) (first_line_unique line rest h))

Ends-IsFirstLine : (request : List ℕ) → Ends request → IsFirstLine (first_line request) request
Ends-IsFirstLine request (crlf front e) =
    let whole : request ≡ (front ++ 0x0d ∷ []) ++ 0x0a ∷ (0x0d ∷ 0x0a ∷ []) =
      e ∙ sym (append_assoc front (0x0d ∷ []) (0x0a ∷ 0x0d ∷ 0x0a ∷ [])) in
    subst (λ r. IsFirstLine (first_line r) r) (sym whole)
      (first_line-IsFirstLine (front ++ 0x0d ∷ []) (0x0d ∷ 0x0a ∷ []))
Ends-IsFirstLine request (lf front e) =
    subst (λ r. IsFirstLine (first_line r) r) (sym e) (first_line-IsFirstLine front (0x0a ∷ []))

Stopped-Sends : (bytes request : List ℕ) → Stopped bytes request → Sends bytes (first_line request)
Stopped-Sends bytes request s =
    let ended = (is_ended_iff request).0 s.ended in
    record {
      request = request;
      rest = s.rest;
      splits = s.splits;
      size = s.size;
      ended = ended;
      first = λ n h e. ground (arith, (is_ended_iff (take n request)).1 e, s.first n h);
      starts = Ends-IsFirstLine request ended;
    }

Sends-Stopped :
    (bytes line : List ℕ) (s : Sends bytes line)
    → Stopped bytes s.request × (first_line s.request ≡ line)
Sends-Stopped bytes line s = (
  record {
    rest = s.rest;
    splits = s.splits;
    size = s.size;
    ended = (is_ended_iff s.request).1 s.ended;
    first = λ n h. elim (Bool-cases (is_ended (take n s.request))) [
      | inl e ↦ absurd (s.first n h ((is_ended_iff (take n s.request)).0 e))
      | inr not_yet ↦ not_yet
    ];
  },
  ap first_line s.starts.splits ∙ first_line_unique line s.starts.rest s.starts.unbroken,
)

-- The bridge takes a client exactly when its socket works, and what it sends starts with a request of
-- fewer than 4,096 bytes that goes up to its first blank line, which is one behind CRLF or LF, and whose
-- text before the first line feed is one of the three that are served.
pub accept_http_iff :
    (s : Socket)
    → ((accept_http s).1 ≡ ok tt) ↔ (
        (s.configured ≡ true)
        × (s.writable ≡ true)
        × ((line : List ℕ) × Sends s.input.bytes line × Supported line))
accept_http_iff s = (there, back)
  where
    there :
        (accept_http s).1 ≡ ok tt
        → (s.configured ≡ true)
          × (s.writable ≡ true)
          × ((line : List ℕ) × Sends s.input.bytes line × Supported line)
    there e =
        let (c, w, (request, stopped, served)) = (accept_http-Stopped s).0 e in
        (c, w, (first_line request, Stopped-Sends s.input.bytes request stopped, served))

    back :
        (s.configured ≡ true)
          × (s.writable ≡ true)
          × ((line : List ℕ) × Sends s.input.bytes line × Supported line)
        → (accept_http s).1 ≡ ok tt
    back (c, w, (line, sends, served)) =
        let (stopped, same) = Sends-Stopped s.input.bytes line sends in
        (accept_http-Stopped s).1
          (c, w, (sends.request, stopped, subst Supported (sym same) served))
