-- ===== src/Cache/Limits.antt =====
-- The limiter keeps its counts, and pruning ends below the limit.
use squeezebox_radio_spotify.Cache.{
  PriorityQueue, less, SizeLimiter, add_file, drop_size, size_of, forget, new_limiter, without,
  update_access, remove_file, pop_file, exceeds_limit,
}
use squeezebox_radio_spotify.Cache.Sizes.{
  Distinct, is_some, total, without-none, total-without, size_of-without, bytes_eq_refl,
  without-Distinct, bytes_eq_same,
}
use squeezebox_radio_spotify.Prelude.{
  ◌∷◌, [], ◌+◌, ◌%◌, ◌^◌, ℕ, List, ◌≡◌, Option, some, none, ◌≤◌, arith, if◌then◌else◌, bytes_eq,
  ◌&&◌, ap, Option-cases, ◌∙◌, refl, inl, Bool-cases, inr, sym, Bool, false, ◌⊎◌, true, subst,
}

-- What a queue that pops has to keep.
unfoldable pub Pops : {Q : Type 0} → (Q → List ℕ → Option ℕ) → Q → Option (List ℕ × Q) → Type 0
Pops access q none = (j : List ℕ) → access q j ≡ none
Pops access q (some (f, rest)) =
    ((t : ℕ) × (access q f ≡ some t) × ((j : List ℕ) (u : ℕ) → access q j ≡ some u → t ≤ u))
    × ((j : List ℕ) → access rest j ≡ (if bytes_eq f j then none else access q j))

-- The priority queue as its crate documents it: `access q f` is the priority of `f`.
pub record IsQueue {Q : Type 0} (pq : PriorityQueue Q) (access : Q → List ℕ → Option ℕ)
    : Type 0 where
  pub starts : (j : List ℕ) → access pq.empty_queue j ≡ none
  pub pushes :
      (q : Q) (f : List ℕ) (t : ℕ) (j : List ℕ)
      → access (pq.push_file q f t) j ≡ (if bytes_eq f j then some t else access q j)
  pub pops : (q : Q) → Pops access q (pq.pop_first q)
  pub changed : (q : Q) (f : List ℕ) (t : ℕ) → (pq.change_priority q f t).0 ≡ is_some (access q f)
  pub changes :
      (q : Q) (f : List ℕ) (t : ℕ) (j : List ℕ)
      → access (pq.change_priority q f t).1 j
        ≡ (if bytes_eq f j && is_some (access q f) then some t else access q j)
  pub removed : (q : Q) (f : List ℕ) → (pq.remove_item q f).0 ≡ is_some (access q f)
  pub removes :
      (q : Q) (f j : List ℕ)
      → access (pq.remove_item q f).1 j ≡ (if bytes_eq f j then none else access q j)

same_unless :
    (b : Bool) (x y : Option ℕ)
    → is_some x ≡ is_some y
    → is_some (if b then none else x) ≡ is_some (if b then none else y)
same_unless true x y h = refl
same_unless false x y h = h

no-some : (o : Option ℕ) → is_some o ≡ false → o ≡ none
no-some none h = refl
no-some (some n) h = absurd (ground (arith, h))

changed_same : (o : Option ℕ) (t : ℕ) → is_some (if is_some o then some t else o) ≡ is_some o
changed_same none t = refl
changed_same (some n) t = refl

empty-total : (m : List (List ℕ × ℕ)) → ((j : List ℕ) → size_of m j ≡ none) → total m ≡ 0
unfolding size_of total
empty-total [] h = refl
empty-total ((g, n) ∷ m) h =
    let e : size_of ((g, n) ∷ m) g ≡ some n = rw (bytes_eq_refl g) refl in
    absurd (ground (arith, e, h g))

less-total : (a t n r : ℕ) → a ≡ t % 2 ^ 64 → t ≡ n + r → less a n ≡ r % 2 ^ 64
less-total a t n r h e = omega (arith, h, e)

module _ {Q : Type 0} (pq : PriorityQueue Q) (access : Q → List ℕ → Option ℕ)
    (v : IsQueue pq access) where
  -- The queue and the map have the same files, and the bytes in use are the sum of the sizes.
  pub record IsConsistent (l : SizeLimiter Q) : Type 0 where
    pub same_files : (j : List ℕ) → is_some (access l.queue j) ≡ is_some (size_of l.sizes j)
    pub distinct : Distinct l.sizes
    pub counted : l.in_use ≡ total l.sizes % 2 ^ 64

  pub new_limiter-IsConsistent : (limit : ℕ) → IsConsistent (new_limiter pq limit)
  unfolding Distinct total size_of
  new_limiter-IsConsistent limit = record {
    same_files = λ j. ap is_some (v.starts j);
    distinct = tt;
    counted = refl;
  }

  -- What is left when a file's size is taken away.
  forget-total :
      (m : List (List ℕ × ℕ)) (f : List ℕ) (a k : ℕ)
      → Distinct m
      → a ≡ (total m + k) % 2 ^ 64
      → forget (size_of m f) a ≡ (total (without m f) + k) % 2 ^ 64
  forget-total m f a k d h = elim (Option-cases (size_of m f)) [
    | inl absent ↦ rw (absent, without-none m f absent) h
    | inr (n, present) ↦ rw present (
        less-total a (total m + k) n (total (without m f) + k) h
          (omega (arith, total-without m f n d present)))
  ]

  pub add_file-IsConsistent :
      (l : SizeLimiter Q) (f : List ℕ) (size t : ℕ)
      → IsConsistent l
      → IsConsistent (add_file pq l f size t)
  unfolding add_file Distinct total size_of
  add_file-IsConsistent l f size t c = record {
    same_files = λ j. ap is_some (v.pushes l.queue f t j) ∙ elim (Bool-cases (bytes_eq f j)) [
      | inl y ↦ rw y refl
      | inr n ↦ rw n (c.same_files j ∙ ap is_some (sym (size_of-without l.sizes f j ∙ rw n refl)))
    ];
    distinct = (
      size_of-without l.sizes f f ∙ rw (bytes_eq_refl f) refl,
      without-Distinct l.sizes f c.distinct,
    );
    counted =
        forget-total l.sizes f ((l.in_use + size) % 2 ^ 64) size c.distinct
          (omega (arith, c.counted))
        ∙ ap (λ n. n % 2 ^ 64) (omega arith);
  }

  pub drop_size-IsConsistent :
      (l : SizeLimiter Q) (q : Q) (f : List ℕ)
      → IsConsistent l
      → ((j : List ℕ) → access q j ≡ (if bytes_eq f j then none else access l.queue j))
      → IsConsistent (drop_size pq l q f)
  unfolding drop_size
  drop_size-IsConsistent l q f c h = record {
    same_files = λ j.
        ap is_some (h j)
        ∙ same_unless (bytes_eq f j) (access l.queue j) (size_of l.sizes j) (c.same_files j)
        ∙ ap is_some (sym (size_of-without l.sizes f j));
    distinct = without-Distinct l.sizes f c.distinct;
    counted =
        forget-total l.sizes f l.in_use 0 c.distinct
          (c.counted ∙ ap (λ n. n % 2 ^ 64) (omega arith))
        ∙ ap (λ n. n % 2 ^ 64) (omega arith);
  }

  -- What the access times are after a file that is not there was changed or removed.
  keeps-IsConsistent :
      (l : SizeLimiter Q) (q : Q)
      → IsConsistent l
      → ((j : List ℕ) → is_some (access q j) ≡ is_some (access l.queue j))
      → IsConsistent (record l { queue = q })
  keeps-IsConsistent l q c h = record {
    same_files = λ j. h j ∙ c.same_files j;
    distinct = c.distinct;
    counted = c.counted;
  }

  pub update_access-IsConsistent :
      (l : SizeLimiter Q) (f : List ℕ) (t : ℕ)
      → IsConsistent l
      → IsConsistent (update_access pq l f t).1
  unfolding update_access
  update_access-IsConsistent l f t c =
      keeps-IsConsistent l (pq.change_priority l.queue f t).1 c λ j.
        ap is_some (v.changes l.queue f t j) ∙ elim (Bool-cases (bytes_eq f j)) [
          | inl y ↦
              ap
                (λ g.
                  is_some (
                    if bytes_eq f j && is_some (access l.queue g)
                    then some t
                    else access l.queue j))
                (bytes_eq_same f j y)
              ∙ rw y (changed_same (access l.queue j) t)
          | inr n ↦ rw n refl
        ]

  pub remove_file-IsConsistent :
      (l : SizeLimiter Q) (f : List ℕ) → IsConsistent l → IsConsistent (remove_file pq l f).1
  unfolding remove_file
  remove_file-IsConsistent l f c = elim (Bool-cases (pq.remove_item l.queue f).0) [
    | inl y ↦ rw y (drop_size-IsConsistent l (pq.remove_item l.queue f).1 f c (v.removes l.queue f))
    | inr n ↦
        let absent : access l.queue f ≡ none =
          no-some (access l.queue f) (sym (v.removed l.queue f) ∙ n) in
        rw n (
          keeps-IsConsistent l (pq.remove_item l.queue f).1 c λ j.
            ap is_some (v.removes l.queue f j) ∙ elim (Bool-cases (bytes_eq f j)) [
              | inl z ↦
                  rw z (ap is_some (sym (ap (access l.queue) (sym (bytes_eq_same f j z)) ∙ absent)))
              | inr z ↦ rw z refl
            ])
  ]

  -- Either the limit is not exceeded, or the oldest file is no longer counted.
  pub pop_file-cases :
      (l : SizeLimiter Q)
      → IsConsistent l
      → ((pop_file pq l ≡ (none, l)) × (l.in_use ≤ l.size_limit))
        ⊎ ((f : List ℕ) × (q : Q) × (n : ℕ) × (pop_file pq l ≡ (some f, drop_size pq l q f))
            × (size_of l.sizes f ≡ some n)
            × Pops access l.queue (some (f, q)))
  unfolding pop_file Pops
  pop_file-cases l c = elim (Bool-cases (exceeds_limit l)) [
    | inr n ↦ inl (rw (n, pop_file) refl, ground (arith, n))
    | inl y ↦ elim (Option-cases (pq.pop_first l.queue)) [
      | inl nothing ↦
          let all_gone = subst (Pops access l.queue) nothing (v.pops l.queue) in
          let empty =
            empty-total l.sizes
              λ j. no-some (size_of l.sizes j) (sym (c.same_files j) ∙ ap is_some (all_gone j)) in
          absurd (grind (arith, y, c.counted, empty))
      | inr ((f, q), e) ↦
          let p = subst (Pops access l.queue) e (v.pops l.queue) in
          let (t, there, rest) = p.0 in
          let has_size = sym (c.same_files f) ∙ ap is_some there in
          elim (Option-cases (size_of l.sizes f)) [
            | inl absent ↦ absurd (ground (arith, has_size, absent))
            | inr (n, present) ↦ inr (f, q, n, rw (y, e, pop_file) refl, present, p)
          ]
    ]
  ]
