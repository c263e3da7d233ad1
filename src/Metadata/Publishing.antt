-- ===== src/Metadata/Publishing.antt =====
-- What a reader of the files of native/metadata/main.rs can find, whenever the program is cut off.
use squeezebox_radio_spotify.Metadata.{
  Op, Files, write, Runs, rename, cuts, create_parent, writes, renames, creates, stops, Env,
  show_state, run, volume_path, publish, mark_loading, state_of, state_path, tmp, json,
  loading_path,
}
use squeezebox_radio_spotify.Prelude.{
  some, [], codes, List, ℕ, bytes_eq, ◌≡◌, false, All, ◌⊎◌, ◌∷◌, ◌∙◌, inl, inr, refl, true, ◌++◌,
  bytes_eq_iff, arith, ==_iff, Bool-cases, Option-cases, append_assoc,
}

bytes_eq_refl : (xs : List ℕ) → bytes_eq xs xs ≡ true
bytes_eq_refl xs = (bytes_eq_iff xs xs).1 refl

bytes_eq-front : (xs : List ℕ) (y : ℕ) (ys : List ℕ) → bytes_eq xs (xs ++ y ∷ ys) ≡ false
unfolding bytes_eq
bytes_eq-front [] y ys = refl
bytes_eq-front (x ∷ xs) y ys = ground (arith, bytes_eq-front xs y ys)

bytes_eq-back : (xs : List ℕ) (y : ℕ) (ys : List ℕ) → bytes_eq (xs ++ y ∷ ys) xs ≡ false
unfolding bytes_eq
bytes_eq-back [] y ys = refl
bytes_eq-back (x ∷ xs) y ys = ground (arith, bytes_eq-back xs y ys)

bytes_eq-append : (xs ys zs : List ℕ) → bytes_eq (xs ++ ys) (xs ++ zs) ≡ bytes_eq ys zs
unfolding bytes_eq
bytes_eq-append [] ys zs = refl
bytes_eq-append (x ∷ xs) ys zs = rw ((==_iff x x).1 refl) (bytes_eq-append xs ys zs)

-- No operation touches a file.
abbrev Spares : List ℕ → Op → Type 0
Spares path (write p text) = bytes_eq path p ≡ false
Spares path (rename old new) = (bytes_eq path old ≡ false) × (bytes_eq path new ≡ false)
Spares path (create_parent p) = Unit

spared :
    (path : List ℕ) (ops : List Op) {files after : Files}
    → All (Spares path) ops
    → Runs files ops after
    → after path ≡ files path
spared path ops h stops = refl
spared path (write p text ∷ ops) h (cuts n) = rw h.0 refl
spared path (write p text ∷ ops) {files} h (writes r) = spared path ops h.1 r ∙ rw h.0 refl
spared path (rename old new ∷ ops) h (renames r) = spared path ops h.1 r ∙ rw (h.0.0, h.0.1) refl
spared path (create_parent p ∷ ops) h (creates r) = spared path ops h.1 r

-- Written aside, and renamed.
replaced :
    (path aside text : List ℕ) (ops : List Op) {files after : Files}
    → bytes_eq path aside ≡ false
    → All (Spares path) ops
    → Runs files (write aside text ∷ rename aside path ∷ ops) after
    → (after path ≡ files path) ⊎ (after path ≡ some text)
replaced path aside text ops d h stops = inl refl
replaced path aside text ops d h (cuts n) = inl (rw d refl)
replaced path aside text ops d h (writes stops) = inl (rw d refl)
replaced path aside text ops d h (writes (renames r)) =
    inr (spared path ops h r ∙ rw (d, bytes_eq_refl path, bytes_eq_refl aside) refl)

-- What the program does, by the event.
data Shape (path : List ℕ) (env : Env) : List Op → Type 0 where
  volume : Shape path env (write (volume_path path) env.volume ∷ [])
  loading : Shape path env (mark_loading path env ++ write (state_path path) (codes "playing") ∷ [])
  changed :
      env.player_event ≡ codes "track_changed"
      → Shape path env (
          create_parent path
          ∷ write (tmp path) (json (codes "playing") env)
          ∷ rename (tmp path) path
          ∷ [])
  shown : (state : List ℕ) → Shape path env (write (state_path path) state ∷ [])
  nothing : Shape path env []

state_of_changed :
    (event : List ℕ)
    → bytes_eq event (codes "track_changed") ≡ true
    → state_of event ≡ some (codes "playing")
unfolding state_of bytes_eq
state_of_changed event t = rw ((bytes_eq_iff event (codes "track_changed")).0 t) refl

state_of_loading :
    (event : List ℕ)
    → bytes_eq event (codes "loading") ≡ true
    → (state_of event ≡ some (codes "playing")) × (bytes_eq event (codes "track_changed") ≡ false)
unfolding state_of bytes_eq
state_of_loading event t = rw ((bytes_eq_iff event (codes "loading")).0 t) (refl, refl)

show_state-Shape : (path : List ℕ) (env : Env) → Shape path env (show_state path env)
unfolding show_state publish
show_state-Shape path env = elim (Bool-cases (bytes_eq env.player_event (codes "track_changed"))) [
  | inl t ↦
      rw (state_of_changed env.player_event t, show_state, t)
        (changed ((bytes_eq_iff env.player_event (codes "track_changed")).0 t))
  | inr f ↦ elim (Option-cases (state_of env.player_event)) [
    | inl e ↦ rw (e, show_state) nothing
    | inr (state, e) ↦ rw (e, show_state, f) (shown state)
  ]
]

run-Shape : (path : List ℕ) (env : Env) → Shape path env (run path env)
unfolding run show_state publish
run-Shape path env = elim (Bool-cases (bytes_eq env.player_event (codes "volume_changed"))) [
  | inl e ↦ rw e volume
  | inr n ↦ elim (Bool-cases (bytes_eq env.player_event (codes "loading"))) [
    | inl e ↦
        let (s, f) = state_of_loading env.player_event e in rw (n, e, s, show_state, f) loading
    | inr m ↦ rw (n, m) (show_state-Shape path env)
  ]
]

bytes_eq-tmp : (path : List ℕ) (c : ℕ) (cs : List ℕ) → bytes_eq path (tmp (path ++ c ∷ cs)) ≡ false
bytes_eq-tmp path c cs = rw (append_assoc path (c ∷ cs) (codes ".tmp")) (bytes_eq-front path c _)

Shape_path :
    (path : List ℕ) (env : Env) {ops : List Op} {files after : Files}
    → Shape path env ops
    → Runs files ops after
    → (after path ≡ files path)
      ⊎ ((env.player_event ≡ codes "track_changed")
          × (after path ≡ some (json (codes "playing") env)))
Shape_path path env volume r = inl (spared path _ (bytes_eq-front path _ _, tt) r)
Shape_path path env loading r =
    let aside = bytes_eq-tmp path 0x2e (codes "loading") in
    inl (spared path _ (aside, ((aside, bytes_eq-front path _ _), (bytes_eq-front path _ _, tt))) r)
Shape_path path env (changed e) stops = inl refl
Shape_path path env (changed e) (creates r) =
    elim (replaced path (tmp path) (json (codes "playing") env) [] (bytes_eq-front path _ _) tt r) [
      | inl old ↦ inl old
      | inr new ↦ inr (e, new)
    ]
Shape_path path env (shown state) r = inl (spared path _ (bytes_eq-front path _ _, tt) r)
Shape_path path env nothing r = inl (spared path [] tt r)

module _ (path : List ℕ) where
  marks :
      (text : List ℕ)
      → bytes_eq (loading_path path) (path ++ text) ≡ bytes_eq (codes ".loading") text
  marks text = bytes_eq-append path (codes ".loading") text

  loading_path_ne : bytes_eq (loading_path path) path ≡ false
  loading_path_ne = bytes_eq-back path _ _

Shape_loading :
    (path : List ℕ) (env : Env) {ops : List Op} {files after : Files}
    → Shape path env ops
    → Runs files ops after
    → (after (loading_path path) ≡ files (loading_path path))
      ⊎ (after (loading_path path) ≡ some env.track_id)
unfolding bytes_eq
Shape_loading path env volume r =
    inl (spared (loading_path path) _ (marks path (codes ".volume"), tt) r)
Shape_loading path env loading r =
    replaced (loading_path path) (tmp (loading_path path)) env.track_id _
      (bytes_eq-front (loading_path path) _ _) (marks path (codes ".state"), tt) r
Shape_loading path env (changed e) r = inl (
    spared (loading_path path) _
      (tt, (marks path (codes ".tmp"), ((marks path (codes ".tmp"), loading_path_ne path), tt))) r)
Shape_loading path env (shown state) r =
    inl (spared (loading_path path) _ (marks path (codes ".state"), tt) r)
Shape_loading path env nothing r = inl (spared (loading_path path) [] tt r)

-- Wherever the program is cut off, and whichever of its operations fails, the metadata file is the
-- one from before or, after a change of the track only, the whole new JSON text; and the loading
-- marker is the one from before or the whole track id.
pub run_atomic :
    (path : List ℕ) (env : Env) {files after : Files}
    → Runs files (run path env) after
    → ((after path ≡ files path)
        ⊎ ((env.player_event ≡ codes "track_changed")
            × (after path ≡ some (json (codes "playing") env))))
      × ((after (loading_path path) ≡ files (loading_path path))
          ⊎ (after (loading_path path) ≡ some env.track_id))
run_atomic path env r =
    (Shape_path path env (run-Shape path env) r, Shape_loading path env (run-Shape path env) r)
