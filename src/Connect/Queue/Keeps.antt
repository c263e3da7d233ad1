-- ===== src/Connect/Queue/Keeps.antt =====
-- A property of the state that an operation keeps, whether it fails or not.
use squeezebox_radio_spotify.Connect.State.{◌>>=◌, ◌>>◌, ConnectState, Act, Result, after, ok, err}

abbrev pub Keeps {ℓ} : {A : Type ℓ} → (ConnectState → Type 0) → Act A → Type 0
Keeps P m = (s : ConnectState) → P s → P (m s).1

pub Keeps-after {ℓ κ} :
    {A : Type ℓ} {B : Type κ} (P : ConnectState → Type 0) (r : Result A × ConnectState)
    (f : A → Act B)
    → P r.1
    → ((a : A) → Keeps P (f a))
    → P (after r f).1
Keeps-after P (ok a, s) f h k = k a s h
Keeps-after P (err e, s) f h k = h

pub Keeps-bind {ℓ κ} :
    {A : Type ℓ} {B : Type κ} (P : ConnectState → Type 0) (m : Act A) (f : A → Act B)
    → Keeps P m
    → ((a : A) → Keeps P (f a))
    → Keeps P (m >>= f)
Keeps-bind P m f h k s p = Keeps-after P (m s) f (h s p) k

pub Keeps-then {κ} :
    {B : Type κ} (P : ConnectState → Type 0) (m : Act (Unit {0})) (k : Act B)
    → Keeps P m
    → Keeps P k
    → Keeps P (m >> k)
Keeps-then P m k h g s p = Keeps-after P (m s) (λ _. k) (h s p) (λ _. g)
