-- ===== src/Connect/State/Acting.antt =====
-- Operations on the state, which may fail.
use squeezebox_radio_spotify.Connect.State.Data.{ContextType, ConnectState}
use squeezebox_radio_spotify.Connect.Text.{Text}
use squeezebox_radio_spotify.Prelude.{Option, ℕ}

pub data StateError : Type 0 where
  no_context : ContextType → StateError
  can_not_find_track : Option ℕ → ℕ → StateError
  currently_disallowed : Text → StateError
  -- an index out of range
  panic : StateError
  -- no error of the engine: `fill_up_next_tracks` is shown not to run out of fuel
  out_of_fuel : StateError

pub data Result {ℓ} (A : Type ℓ) : Type ℓ where
  ok : A → Result A
  err : StateError → Result A

-- An operation keeps what it has done to the state also where it fails.
abbrev pub Act {ℓ} : Type ℓ → Type ℓ
Act A = ConnectState → Result A × ConnectState

abbrev pub after {ℓ κ} :
    {A : Type ℓ} {B : Type κ} → Result A × ConnectState → (A → Act B) → Result B × ConnectState
after (ok a, s) f = f a s
after (err e, s) f = (err e, s)

infixl 5 ◌>>=◌ ◌>>◌
abbrev pub ◌>>=◌ {ℓ κ} : {A : Type ℓ} {B : Type κ} → Act A → (A → Act B) → Act B
(m >>= f) s = after (m s) f

abbrev pub ◌>>◌ {κ} : {B : Type κ} → Act (Unit {0}) → Act B → Act B
(m >> k) s = after (m s) λ _. k

abbrev pub return {ℓ} : {A : Type ℓ} → A → Act A
return a s = (ok a, s)

abbrev pub fail {ℓ} : {A : Type ℓ} → StateError → Act A
fail e s = (err e, s)

abbrev pub get_state : Act ConnectState
get_state s = (ok s, s)

abbrev pub modify : (ConnectState → ConnectState) → Act (Unit {0})
modify f s = (ok tt, f s)
