-- ===== src/Tests/CacheQueue.antt =====
-- A queue of files as a list, for the limiter of the cache.
use squeezebox_radio_spotify.Bridge.Loop.{is_some}
use squeezebox_radio_spotify.Cache.{PriorityQueue, without}
use squeezebox_radio_spotify.Cache.Limits.{IsQueue, Pops}
use squeezebox_radio_spotify.Cache.Sizes.{bytes_eq_refl, bytes_eq_same}
use squeezebox_radio_spotify.Prelude.{
  ℕ, List, [], ◌∷◌, Option, some, ◌≡◌, if◌then◌else◌, none, ◌≤◌, leb, bytes_eq, Bool-cases, refl,
  inl, inr, ◌∙◌, arith, false, ap, sym, leb→le, ◌&&◌, ◌<◌,
}

abbrev earlier : ℕ → Option ℕ → ℕ
earlier t none = t
earlier t (some u) = if leb t u then t else u

unfoldable pub access_of : List (List ℕ × ℕ) → List ℕ → Option ℕ
access_of [] f = none
access_of ((g, t) ∷ q) f =
    let rest = access_of q f in if bytes_eq g f then some (earlier t rest) else rest

abbrev pick : List ℕ → ℕ → Option (List ℕ × ℕ) → Option (List ℕ × ℕ)
pick g t none = some (g, t)
pick g t (some (f, u)) = if leb t u then some (g, t) else some (f, u)

unfoldable pub oldest_of : List (List ℕ × ℕ) → Option (List ℕ × ℕ)
oldest_of [] = none
oldest_of ((g, t) ∷ q) = pick g t (oldest_of q)

abbrev pop_of : List (List ℕ × ℕ) → Option (List ℕ × ℕ) → Option (List ℕ × List (List ℕ × ℕ))
pop_of q none = none
pop_of q (some (f, t)) = some (f, without q f)

abbrev pub list_queue : PriorityQueue (List (List ℕ × ℕ))
list_queue = record {
  empty_queue = [];
  push_file = λ q f t. (f, t) ∷ without q f;
  pop_first = λ q. pop_of q (oldest_of q);
  change_priority = λ q f t.
      (is_some (access_of q f), if is_some (access_of q f) then (f, t) ∷ without q f else q);
  remove_item = λ q f. (is_some (access_of q f), without q f);
}

access_of-without :
    (q : List (List ℕ × ℕ)) (f j : List ℕ)
    → access_of (without q f) j ≡ (if bytes_eq f j then none else access_of q j)
unfolding access_of without
access_of-without [] f j = elim (Bool-cases (bytes_eq f j)) [
  | inl y ↦ rw y refl
  | inr n ↦ rw n refl
]
access_of-without ((g, t) ∷ q) f j = elim (Bool-cases (bytes_eq g f)) [
  | inl same ↦ elim (Bool-cases (bytes_eq f j)) [
    | inl y ↦ rw (same, y) (access_of-without q f j ∙ rw y refl)
    | inr n ↦
        let n' : bytes_eq g j ≡ false = ap (λ x. bytes_eq x j) (bytes_eq_same g f same) ∙ n in
        rw (same, n, n') (access_of-without q f j ∙ rw n refl)
  ]
  | inr other ↦ elim (Bool-cases (bytes_eq f j)) [
    | inl y ↦
        let n' : bytes_eq g j ≡ false = ap (bytes_eq g) (sym (bytes_eq_same f j y)) ∙ other in
        rw (other, y, access_of) (rw n' (access_of-without q f j ∙ rw y refl))
    | inr n ↦
        let rest : access_of (without q f) j ≡ access_of q j =
          access_of-without q f j ∙ rw n refl in
        rw (other, n, access_of) (rw rest refl)
  ]
]

added :
    (q : List (List ℕ × ℕ)) (f : List ℕ) (t : ℕ) (j : List ℕ)
    → access_of ((f, t) ∷ without q f) j ≡ (if bytes_eq f j then some t else access_of q j)
unfolding access_of
added q f t j = elim (Bool-cases (bytes_eq f j)) [
  | inl y ↦
      let gone : access_of (without q f) j ≡ none = access_of-without q f j ∙ rw y refl in
      rw (y, gone) refl
  | inr n ↦ rw n (access_of-without q f j ∙ rw n refl)
]

unfoldable IsOldest : List (List ℕ × ℕ) → Option (List ℕ × ℕ) → Type 0
IsOldest q none = (j : List ℕ) → access_of q j ≡ none
IsOldest q (some (f, t)) =
    (access_of q f ≡ some t) × ((j : List ℕ) (u : ℕ) → access_of q j ≡ some u → t ≤ u)

earlier_bound :
    (b t w : ℕ) (o : Option ℕ) → b ≤ t → ((u : ℕ) → o ≡ some u → b ≤ u) → earlier t o ≡ w → b ≤ w
earlier_bound b t w none h k e = omega (arith, h, e)
earlier_bound b t w (some u) h k e = ground (arith, h, k u refl, e)

least_of_all :
    (g : List ℕ) (t b : ℕ) (q : List (List ℕ × ℕ))
    → b ≤ t
    → ((j : List ℕ) (u : ℕ) → access_of q j ≡ some u → b ≤ u)
    → (j : List ℕ) (w : ℕ) → access_of ((g, t) ∷ q) j ≡ some w
    → b ≤ w
unfolding access_of
least_of_all g t b q h k j w e = elim (Bool-cases (bytes_eq g j)) [
  | inl y ↦ earlier_bound b t w (access_of q j) h (k j) (grind (arith, e, y))
  | inr n ↦ k j w (grind (arith, e, n))
]

earlier-same : (t u : ℕ) (o : Option ℕ) → t ≤ u → ((w : ℕ) → o ≡ some w → u ≤ w) → earlier t o ≡ t
earlier-same t u none h k = refl
earlier-same t u (some w) h k = ground (arith, h, k w refl)

pick-IsOldest :
    (g : List ℕ) (t : ℕ) (q : List (List ℕ × ℕ)) (o : Option (List ℕ × ℕ))
    → IsOldest q o
    → IsOldest ((g, t) ∷ q) (pick g t o)
unfolding IsOldest access_of
pick-IsOldest g t q none h = (
  rw (bytes_eq_refl g, h g) refl,
  λ j u e. elim (Bool-cases (bytes_eq g j)) [
    | inl y ↦ grind (arith, e, y, h j)
    | inr n ↦ absurd (grind (arith, e, n, h j))
  ],
)
pick-IsOldest g t q (some (f, u)) (there, least) = elim (Bool-cases (leb t u)) [
  | inl y ↦
      let t_u : t ≤ u = leb→le t u y in
      rw y (
        rw (bytes_eq_refl g) (ap some (earlier-same t u (access_of q g) t_u (least g))),
        least_of_all g t t q (omega arith) (λ j w e. omega (arith, t_u, least j w e)),
      )
  | inr n ↦
      let u_t : u < t = ground (arith, n) in
      rw n (
        elim (Bool-cases (bytes_eq g f)) [
          | inl y ↦ rw (y, there) (rw n refl)
          | inr other ↦ rw other there
        ],
        least_of_all g t u q (omega (arith, u_t)) least,
      )
]

oldest_of-IsOldest : (q : List (List ℕ × ℕ)) → IsOldest q (oldest_of q)
unfolding IsOldest oldest_of access_of
oldest_of-IsOldest [] = λ j. refl
oldest_of-IsOldest ((g, t) ∷ q) = pick-IsOldest g t q (oldest_of q) (oldest_of-IsOldest q)

pop_of-Pops :
    (q : List (List ℕ × ℕ)) (o : Option (List ℕ × ℕ)) → IsOldest q o → Pops access_of q (pop_of q o)
unfolding IsOldest Pops
pop_of-Pops q none h = h
pop_of-Pops q (some (f, t)) (there, least) = ((t, there, least), access_of-without q f)

changes_of :
    (q : List (List ℕ × ℕ)) (f : List ℕ) (t : ℕ) (j : List ℕ)
    → access_of (if is_some (access_of q f) then (f, t) ∷ without q f else q) j
      ≡ (if bytes_eq f j && is_some (access_of q f) then some t else access_of q j)
changes_of q f t j = elim (Bool-cases (is_some (access_of q f))) [
  | inl y ↦
      rw y
        (added q f t j ∙ elim (Bool-cases (bytes_eq f j)) [ inl z ↦ rw z refl | inr z ↦ rw z refl ])
  | inr n ↦ rw n (elim (Bool-cases (bytes_eq f j)) [ inl z ↦ rw z refl | inr z ↦ rw z refl ])
]

pub list_queue-IsQueue : IsQueue list_queue access_of
unfolding access_of
list_queue-IsQueue = record {
  starts = λ j. refl;
  pushes = added;
  pops = λ q. pop_of-Pops q (oldest_of q) (oldest_of-IsOldest q);
  changed = λ q f t. refl;
  changes = changes_of;
  removed = λ q f. refl;
  removes = access_of-without;
}
