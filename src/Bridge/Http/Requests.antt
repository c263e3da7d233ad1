-- ===== src/Bridge/Http/Requests.antt =====
-- Which requests `accept_http` takes.
use squeezebox_radio_spotify.Bridge.Http.{
  max_request, is_ended, read_request, get_http_1_0, is_supported, accept_http, Socket,
  get_http_1_1, first_line,
}
use squeezebox_radio_spotify.Bridge.Result.{ok, Result-cases}
use squeezebox_radio_spotify.Prelude.{
  Bool, [], suc, ◌∷◌, not, bytes_eq, List, ℕ, ◌≡◌, ◌++◌, length, ◌<◌, true, take, false, ◌≤◌, arith,
  append-nil, append_assoc, Bool-cases, inl, ◌∙◌, ◌⊎◌, ◌↔◌, zero, inr, ap, refl, ◌&&◌, ◌==◌, ◌||◌,
  bytes_eq_iff,
}

-- The loop reads `request` off `bytes`: it stops at the first end that its test finds.
pub record Stopped (bytes request : List ℕ) : Type 0 where
  pub rest : List ℕ
  pub splits : bytes ≡ request ++ rest
  pub size : length request < max_request
  pub ended : is_ended request ≡ true
  pub first : (n : ℕ) → n < length request → is_ended (take n request) ≡ false

abbrev NoneEnded : List ℕ → List ℕ → Type 0
NoneEnded request more =
    (k : ℕ) → 0 < k → k < length more → is_ended (request ++ take k more) ≡ false

-- What the loop has done when it returns `r`.
record Stops (n : ℕ) (request bytes r : List ℕ) : Type 0 where
  more : List ℕ
  rest : List ℕ
  splits : bytes ≡ more ++ rest
  result : r ≡ request ++ more
  room : length more ≤ n
  ended : length more < n → (is_ended r ≡ true)
  first : NoneEnded request more

first-cons :
    (request : List ℕ) (b : ℕ) (more : List ℕ)
    → is_ended (request ++ b ∷ []) ≡ false
    → NoneEnded (request ++ b ∷ []) more
    → NoneEnded request (b ∷ more)
first-cons request b more on later zero x y = absurd (omega arith)
first-cons request b more on later (suc zero) x y = on
first-cons request b more on later (suc (suc k)) x y =
    rw append_assoc at (later (suc k) (omega arith) (omega arith))

read_request-Stops :
    (n : ℕ) (request bytes : List ℕ) (broken : Bool) {r : List ℕ}
    → read_request n request bytes broken ≡ ok r
    → Stops n request bytes r
unfolding read_request
read_request-Stops zero request bytes broken {r} e = record {
  more = [];
  rest = bytes;
  splits = refl;
  result = ground (arith, append-nil request);
  room = omega arith;
  ended = λ h. absurd (omega arith);
  first = λ k a b. absurd (omega arith);
}
read_request-Stops (suc n) request [] broken e = ground arith
read_request-Stops (suc n) request (b ∷ bytes) broken {r} e =
    elim (Bool-cases (is_ended (request ++ b ∷ []))) [
      | inl stop ↦
          let same : r ≡ request ++ b ∷ [] = ground arith in
          record {
            more = b ∷ [];
            rest = bytes;
            splits = refl;
            result = same;
            room = omega arith;
            ended = λ h. rw same stop;
            first = λ k x y. absurd (omega arith);
          }
      | inr on ↦
          let s : Stops n (request ++ b ∷ []) bytes r =
            read_request-Stops n (request ++ b ∷ []) bytes broken (ground arith) in
          record {
            more = b ∷ s.more;
            rest = s.rest;
            splits = ap (◌∷◌ b) s.splits;
            result = s.result ∙ append_assoc request (b ∷ []) s.more;
            room = omega (arith, s.room);
            ended = λ h. s.ended (omega arith);
            first = first-cons request b s.more on s.first;
          }
    ]

read_request-append :
    (n : ℕ) (request more rest : List ℕ) (broken : Bool)
    → 0 < length more
    → length more ≤ n
    → is_ended (request ++ more) ≡ true
    → NoneEnded request more
    → read_request n request (more ++ rest) broken ≡ ok (request ++ more)
unfolding read_request
read_request-append n request [] rest broken pos room stop on = absurd (omega arith)
read_request-append zero request (b ∷ more) rest broken pos room stop on = absurd (omega arith)
read_request-append (suc n) request (b ∷ []) rest broken pos room stop on = rw stop
read_request-append (suc n) request (b ∷ c ∷ more) rest broken pos room stop on =
    rw (on 1 (omega arith) (omega arith)) (
      read_request-append n (request ++ b ∷ []) (c ∷ more) rest broken (omega arith) (omega arith)
        (rw append_assoc stop) (λ k x y. rw append_assoc (on (suc k) (omega arith) (omega arith)))
      ∙ ap ok (append_assoc request (b ∷ []) (c ∷ more)))

-- What the bridge serves.
abbrev pub Supported : List ℕ → Type 0
Supported line =
    (line ≡ get_http_1_0 ++ 0x0d ∷ []) ⊎ (line ≡ get_http_1_0) ⊎ (line ≡ get_http_1_1 ++ 0x0d ∷ [])

one_of_three :
    (t : Bool) (line a b c : List ℕ)
    → t ≡ true
    → ((t && (bytes_eq line a || bytes_eq line b || bytes_eq line c)) ≡ true)
      ↔ ((line ≡ a) ⊎ (line ≡ b) ⊎ (line ≡ c))
one_of_three t line a b c h =
    ground (arith, bytes_eq_iff line a, bytes_eq_iff line b, bytes_eq_iff line c)

is_supported_iff :
    (request : List ℕ)
    → length request < max_request
    → (is_supported request ≡ true) ↔ Supported (first_line request)
unfolding is_supported
is_supported_iff request h =
    one_of_three (not (length request == max_request)) (first_line request) _ _ _ (ground arith)

not_ended_yet :
    (more : List ℕ) → NoneEnded [] more → (n : ℕ) → n < length more → is_ended (take n more) ≡ false
unfolding is_ended bytes_eq
not_ended_yet more on zero h = refl
not_ended_yet more on (suc n) h = on (suc n) (omega arith) h

ended_pos : (request : List ℕ) → is_ended request ≡ true → 0 < length request
unfolding is_ended bytes_eq
ended_pos [] e = cc
ended_pos (b ∷ request) e = omega arith

-- An input with a request at its front is read up to the end of the request, and the loop returns
-- a request of fewer bytes than it has room for only then.
read_request-Stopped :
    (bytes request : List ℕ) (broken : Bool)
    → ((read_request max_request [] bytes broken ≡ ok request) × (length request < max_request))
      ↔ Stopped bytes request
read_request-Stopped bytes request broken = (there, back)
  where
    there :
        (read_request max_request [] bytes broken ≡ ok request) × (length request < max_request)
        → Stopped bytes request
    there (e, short) =
        let s : Stops max_request [] bytes request =
          read_request-Stops max_request [] bytes broken e in
        record {
          rest = s.rest;
          splits = rw s.result s.splits;
          size = short;
          ended = s.ended (rw (← s.result) short);
          first = λ n h.
              rw s.result (not_ended_yet s.more s.first n (omega (arith, ap length s.result)));
        }

    back :
        Stopped bytes request
        → (read_request max_request [] bytes broken ≡ ok request) × (length request < max_request)
    back s = (
      rw s.splits (
          read_request-append max_request [] request s.rest broken (ended_pos request s.ended)
            (omega (arith, s.size)) s.ended (λ k x y. s.first k y)),
      s.size,
    )

short_request :
    (bytes request : List ℕ) (broken : Bool)
    → read_request max_request [] bytes broken ≡ ok request
    → is_supported request ≡ true
    → length request < max_request
unfolding is_supported
short_request bytes request broken e good =
    let s : Stops max_request [] bytes request = read_request-Stops max_request [] bytes broken e in
    let n : length request ≡ length s.more = ap length s.result in
    let ne : (length request == max_request) ≡ false = ground arith in ground (arith, s.room)

accept_http-ok :
    (s : Socket)
    → (accept_http s).1 ≡ ok tt
    → (request : List ℕ) × (read_request max_request [] s.input.bytes s.input.broken ≡ ok request)
      × (s.configured ≡ true)
      × (s.writable ≡ true)
      × (is_supported request ≡ true)
unfolding accept_http
accept_http-ok s e =
    elim (Result-cases (read_request max_request [] s.input.bytes s.input.broken)) [
      | inl (request, read) ↦ (request, read, ground arith, ground arith, ground arith)
      | inr (why, read) ↦ ground arith
    ]

-- With the code's own tests of the end and of the first line.
pub accept_http-Stopped :
    (s : Socket)
    → ((accept_http s).1 ≡ ok tt) ↔ (
        (s.configured ≡ true)
        × (s.writable ≡ true)
        × ((request : List ℕ) × Stopped s.input.bytes request × Supported (first_line request)))
unfolding accept_http
accept_http-Stopped s = (there, back)
  where
    there :
        (accept_http s).1 ≡ ok tt
        → (s.configured ≡ true)
          × (s.writable ≡ true)
          × ((request : List ℕ) × Stopped s.input.bytes request × Supported (first_line request))
    there e =
        let (request, read, c, w, good) = accept_http-ok s e in
        let short : length request < max_request =
          short_request s.input.bytes request _ read good in
        (
          c,
          w,
          (
            request,
            (read_request-Stopped s.input.bytes request s.input.broken).0 (read, short),
            (is_supported_iff request short).0 good,
          ),
        )

    back :
        (s.configured ≡ true)
          × (s.writable ≡ true)
          × ((request : List ℕ) × Stopped s.input.bytes request × Supported (first_line request))
        → (accept_http s).1 ≡ ok tt
    back (c, w, (request, sends, line)) =
        let (read, short) = (read_request-Stopped s.input.bytes request s.input.broken).1 sends in
        let good : is_supported request ≡ true = (is_supported_iff request short).1 line in
        ground (arith, read, good)
