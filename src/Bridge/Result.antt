-- ===== src/Bridge/Result.antt =====
-- `io::Result` of bridge.rs: one constructor for each error the file raises. An index or a slice
-- out of range, on which the program panics, is the error `panic`.
use squeezebox_radio_spotify.Prelude.{
  ℕ, ◌-◌, ◌≤◌, ◌<◌, ◌≡◌, Bool, true, false, ◌&&◌, none, some, List, refl, arith, leb, if◌then◌else◌,
  length, get_elem?, get_or, take, drop, length-take, length-drop, get_elem?-eq-get_or, ◌≢◌, subst,
  ◌⊎◌, inl, inr,
}

pub data Error : Type 0 where
  io_fault unexpected_eof : Error
  invalid_capture : Error
  without_bos : Error
  headers_exceed_limit : Error
  audio_shares_setup : Error
  invalid_signature : Error
  short_identification : Error
  invalid_sample_rate : Error
  unsupported_request : Error
  panic : Error

pub data Result {ℓ} (A : Type ℓ) : Type ℓ where
  ok : A → Result A
  err : Error → Result A

infixl 5 ◌>>=◌
abbrev pub ◌>>=◌ {ℓ κ} : {A : Type ℓ} {B : Type κ} → Result A → (A → Result B) → Result B
ok x >>= next = next x
err why >>= next = err why

-- The early return of an error.
abbrev pub guard : Bool → Error → Result (Unit {0})
guard false why = err why
guard true why = ok tt

infixl 5 ◌>>◌
abbrev pub ◌>>◌ {ℓ} : {B : Type ℓ} → Result (Unit {0}) → Result B → Result B
first >> second = first >>= λ _. second

-- `xs[i]`
unfoldable pub index : List ℕ → ℕ → Result ℕ
index xs i = elim (get_elem? xs i) [ some x ↦ ok x | none ↦ err panic ]

-- `xs[a..b]`
unfoldable pub slice : List ℕ → ℕ → ℕ → Result (List ℕ)
slice xs a b = if leb a b && leb b (length xs) then ok (take (b - a) (drop a xs)) else err panic

pub index-in_range : (xs : List ℕ) (i : ℕ) → i < length xs → index xs i ≡ ok (get_or xs i 0)
unfolding index
index-in_range xs i h = rw (get_elem?-eq-get_or xs i 0 h, index)

pub slice-in_range :
    (xs : List ℕ) (a b : ℕ) → a ≤ b → b ≤ length xs → slice xs a b ≡ ok (take (b - a) (drop a xs))
unfolding slice
slice-in_range xs a b h k = ground arith

pub length-slice :
    (xs : List ℕ) (a b : ℕ) → a ≤ b → b ≤ length xs → length (take (b - a) (drop a xs)) ≡ b - a
length-slice xs a b h k = omega (arith, length-take (b - a) (drop a xs), length-drop a xs)

-- The code does not panic here, and a value that it returns satisfies `P`.
abbrev pub Ensures {ℓ} : {A : Type ℓ} → (A → Type 0) → Result A → Type 0
Ensures P (ok a) = P a
Ensures P (err e) = e ≢ panic

pub Ensures-bind {ℓ κ} :
    {A : Type ℓ} {B : Type κ} (Q : A → Type 0) (P : B → Type 0) (m : Result A) (f : A → Result B)
    → Ensures Q m
    → ((a : A) → Q a → Ensures P (f a))
    → Ensures P (m >>= f)
Ensures-bind Q P (ok a) f h k = k a h
Ensures-bind Q P (err e) f h k = h

pub Ensures-guard {ℓ} :
    {B : Type ℓ} (P : B → Type 0) (t : Bool) (why : Error) (k : Result B)
    → why ≢ panic
    → (t ≡ true → Ensures P k)
    → Ensures P (guard t why >> k)
Ensures-guard P true why k s h = h refl
Ensures-guard P false why k s h = s

pub Ensures-eq-ok {ℓ} :
    {A : Type ℓ} (P : A → Type 0) {m : Result A} {a : A} → Ensures P m → m ≡ ok a → P a
Ensures-eq-ok P h e = subst (Ensures P) e h

pub Ensures-map {ℓ} :
    {A : Type ℓ} (P Q : A → Type 0) (m : Result A)
    → Ensures P m
    → ((a : A) → P a → Q a)
    → Ensures Q m
Ensures-map P Q (ok a) h k = k a h
Ensures-map P Q (err e) h k = h

pub Ensures-both {ℓ} :
    {A : Type ℓ} (P Q : A → Type 0) (m : Result A)
    → Ensures P m
    → Ensures Q m
    → Ensures (λ a. P a × Q a) m
Ensures-both P Q (ok a) h k = (h, k)
Ensures-both P Q (err e) h k = h

pub Result-cases {ℓ} :
    {A : Type ℓ} (r : Result A) → ((a : A) × (r ≡ ok a)) ⊎ ((e : Error) × (r ≡ err e))
Result-cases (ok a) = inl (a, refl)
Result-cases (err e) = inr (e, refl)
