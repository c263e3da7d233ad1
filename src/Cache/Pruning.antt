-- ===== src/Cache/Pruning.antt =====
-- Pruning ends below the limit, and removes the files that were not accessed for the longest time.
use squeezebox_radio_spotify.Cache.{
  PriorityQueue, SizeLimiter, prune_internal, Pruned, drop_size, pop_file,
}
use squeezebox_radio_spotify.Cache.Limits.{
  IsQueue, IsConsistent, Pops, pop_file-cases, drop_size-IsConsistent,
}
use squeezebox_radio_spotify.Cache.Sizes.{total, bytes_eq_same, total-without, length-without}
use squeezebox_radio_spotify.Prelude.{
  ℕ, ◌∷◌, [], ◌^◌, List, Bool, false, Option, bytes_eq, if◌then◌else◌, ◌||◌, none, ◌≡◌, some, arith,
  ◌≤◌, ◌<◌, ◌∙◌, ap, length, true, Bool-cases, suc, refl, inl, sym, inr, not, zero,
}

unfoldable pub has_file : List (List ℕ) → List ℕ → Bool
has_file [] j = false
has_file (f ∷ fs) j = bytes_eq f j || has_file fs j

unless_both :
    (a b : Bool) (x : Option ℕ)
    → (if b then none else if a then none else x) ≡ (if a || b then none else x)
unless_both true true x = refl
unless_both true false x = refl
unless_both false true x = refl
unless_both false false x = refl

unless-some : (b : Bool) (x : Option ℕ) (u : ℕ) → (if b then none else x) ≡ some u → x ≡ some u
unless-some true x u h = absurd (ground (arith, h))
unless-some false x u h = h

module _ {Q : Type 0} (pq : PriorityQueue Q) (access : Q → List ℕ → Option ℕ)
    (v : IsQueue pq access) (delete : List ℕ → Bool) where
  pub record Fits (l : SizeLimiter Q) (r : Pruned Q) : Type 0 where
    pub consistent : IsConsistent pq access v r.limiter
    pub below : total r.limiter.sizes ≤ l.size_limit
    pub left :
        (j : List ℕ)
        → access r.limiter.queue j ≡ (if has_file r.files j then none else access l.queue j)
    pub oldest :
        (f j : List ℕ) (u : ℕ)
        → has_file r.files f ≡ true
        → access r.limiter.queue j ≡ some u
        → (t : ℕ) × (access l.queue f ≡ some t) × (t ≤ u)
    pub deleted : r.failed ≡ false → (f : List ℕ) → has_file r.files f ≡ true → delete f ≡ true

  done :
      (l : SizeLimiter Q)
      → IsConsistent pq access v l
      → total l.sizes < 2 ^ 64
      → l.in_use ≤ l.size_limit
      → Fits l (record { files = []; failed = false; limiter = l })
  unfolding has_file
  done l c small le = record {
    consistent = c;
    below = omega (arith, c.counted, small, le);
    left = λ j. refl;
    oldest = λ f j u h. absurd (ground (arith, h));
    deleted = λ e f h. absurd (ground (arith, h));
  }

  module _ (l : SizeLimiter Q) (f : List ℕ) (q : Q) (p : Pops access l.queue (some (f, q))) where
    one_more :
        (r : Pruned Q)
        → Fits (drop_size pq l q f) r
        → Fits l (record r { files = f ∷ r.files; failed = r.failed || not (delete f) })
    unfolding has_file drop_size Pops
    one_more r k =
        let left_all : (j : List ℕ)
            → access r.limiter.queue j
              ≡ (if bytes_eq f j || has_file r.files j then none else access l.queue j) =
          λ j.
            k.left j
            ∙ ap (λ o. if has_file r.files j then none else o) (p.1 j)
            ∙ unless_both (bytes_eq f j) (has_file r.files j) (access l.queue j) in
        record {
          consistent = k.consistent;
          below = k.below;
          left = left_all;
          oldest = λ g j u h e. elim (Bool-cases (bytes_eq f g)) [
            | inl same ↦
                let (t, there, least) = p.0 in
                (
                  t,
                  ap (access l.queue) (sym (bytes_eq_same f g same)) ∙ there,
                  least j u (
                      unless-some (bytes_eq f j || has_file r.files j) (access l.queue j) u
                        (sym (left_all j) ∙ e)),
                )
            | inr other ↦
                let (t, there, le) = k.oldest g j u (grind (arith, h, other)) e in
                (t, unless-some (bytes_eq f g) (access l.queue g) t (sym (p.1 g) ∙ there), le)
          ];
          deleted = λ e g h. elim (Bool-cases (bytes_eq f g)) [
            | inl same ↦ ap delete (sym (bytes_eq_same f g same)) ∙ grind (arith, e)
            | inr other ↦ k.deleted (grind (arith, e)) g (grind (arith, h, other))
          ];
        }

  prune_done :
      (fuel : ℕ) (l l' : SizeLimiter Q)
      → pop_file pq l ≡ (none, l')
      → prune_internal pq delete (suc fuel) l
        ≡ some (record { files = []; failed = false; limiter = l' })
  unfolding prune_internal
  prune_done fuel l l' e =
      rw (ap (λ r. r.0) e, prune_internal)
        (ap (λ r. some (record { files = []; failed = false; limiter = r.1 })) e)

  prune_more :
      (fuel : ℕ) (l l' : SizeLimiter Q) (f : List ℕ) (r : Pruned Q)
      → pop_file pq l ≡ (some f, l')
      → prune_internal pq delete fuel l' ≡ some r
      → prune_internal pq delete (suc fuel) l
        ≡ some (record r { files = f ∷ r.files; failed = r.failed || not (delete f) })
  unfolding prune_internal
  prune_more fuel l l' f r e e' =
      let rest = ap (λ x. prune_internal pq delete fuel x.1) e ∙ e' in
      rw (ap (λ r. r.0) e, prune_internal) (rw rest refl)

  -- Pruning a limiter that is consistent and counts less than 2 ^ 64 bytes ends, with fuel for each of
  -- its files, whichever files cannot be deleted. The files that are left have sizes of the limit at
  -- most; they are all but those that were popped, which were accessed no later than any of them. Where
  -- no failure is told, every file that was popped could be deleted.
  pub prune_internal-Fits :
      (fuel : ℕ) (l : SizeLimiter Q)
      → IsConsistent pq access v l
      → total l.sizes < 2 ^ 64
      → length l.sizes < fuel
      → (r : Pruned Q) × (prune_internal pq delete fuel l ≡ some r) × Fits l r
  unfolding prune_internal drop_size Pops
  prune_internal-Fits zero l c small enough = absurd (omega (arith, enough))
  prune_internal-Fits (suc fuel) l c small enough = elim (pop_file-cases pq access v l c) [
    | inl (e, le) ↦ (
      record { files = []; failed = false; limiter = l },
      prune_done fuel l l e,
      done l c small le,
    )
    | inr (f, q, n, e, present, p) ↦
        let smaller = total-without l.sizes f n c.distinct present in
        let shorter = length-without l.sizes f n present in
        let (r, e', k) =
          prune_internal-Fits fuel (drop_size pq l q f)
            (drop_size-IsConsistent pq access v l q f c p.1) (omega (arith, small, smaller))
            (omega (arith, enough, shorter)) in
        (
          record r { files = f ∷ r.files; failed = r.failed || not (delete f) },
          prune_more fuel l (drop_size pq l q f) f r e e',
          one_more l f q p r k,
        )
  ]
