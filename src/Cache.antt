-- ===== src/Cache.antt =====
-- native/librespot/core/src/cache.rs: SizeLimiter, which keeps the files of the cache below a limit,
-- and the loop that removes files. The crate's priority queue is a parameter.
pub mod Sizes
pub mod Limits
pub mod Pruning
pub mod Sessions
use squeezebox_radio_spotify.Prelude.{
  ℕ, List, Option, Bool, bytes_eq, none, ◌+◌, some, ltb, [], ◌∷◌, if◌then◌else◌, true, ◌^◌, ◌%◌,
  false, suc, ◌-◌, ◌||◌, not, zero,
}

-- A queue of files by the time of their last access, the oldest one first.
pub record PriorityQueue (Q : Type 0) : Type 0 where
  pub empty_queue : Q
  pub push_file : Q → List ℕ → ℕ → Q
  pub pop_first : Q → Option (List ℕ × Q)
  pub change_priority : Q → List ℕ → ℕ → Bool × Q
  pub remove_item : Q → List ℕ → Bool × Q

-- The map from files to sizes.
unfoldable pub size_of : List (List ℕ × ℕ) → List ℕ → Option ℕ
size_of [] f = none
size_of ((g, n) ∷ m) f = if bytes_eq g f then some n else size_of m f

unfoldable pub without : List (List ℕ × ℕ) → List ℕ → List (List ℕ × ℕ)
without [] f = []
without ((g, n) ∷ m) f = let rest = without m f in if bytes_eq g f then rest else (g, n) ∷ rest

pub record SizeLimiter (Q : Type 0) : Type 0 where
  pub queue : Q
  pub sizes : List (List ℕ × ℕ)
  pub size_limit : ℕ
  pub in_use : ℕ

-- The files that were popped, whether one of them could not be removed from the disk, and the limiter.
pub record Pruned (Q : Type 0) : Type 0 where
  pub files : List (List ℕ)
  pub failed : Bool
  pub limiter : SizeLimiter Q

-- Subtraction of numbers of 64 bits.
abbrev pub less : ℕ → ℕ → ℕ
less a b = (a + (2 ^ 64 - b % 2 ^ 64)) % 2 ^ 64

abbrev pub forget : Option ℕ → ℕ → ℕ
forget none in_use = in_use
forget (some old) in_use = less in_use old

abbrev pub exceeds_limit : {Q : Type 0} → SizeLimiter Q → Bool
exceeds_limit l = ltb l.size_limit l.in_use

module _ {Q : Type 0} (pq : PriorityQueue Q) where
  abbrev pub new_limiter : ℕ → SizeLimiter Q
  new_limiter limit = record { queue = pq.empty_queue; sizes = []; size_limit = limit; in_use = 0 }

  unfoldable pub add_file : SizeLimiter Q → List ℕ → ℕ → ℕ → SizeLimiter Q
  add_file l file size accessed = record l {
    queue = pq.push_file l.queue file accessed;
    sizes = (file, size) ∷ without l.sizes file;
    in_use = forget (size_of l.sizes file) ((l.in_use + size) % 2 ^ 64);
  }

  -- The file's size is no longer counted.
  unfoldable pub drop_size : SizeLimiter Q → Q → List ℕ → SizeLimiter Q
  drop_size l q file = record l {
    queue = q;
    sizes = without l.sizes file;
    in_use = forget (size_of l.sizes file) l.in_use;
  }

  unfoldable pub pop_file : SizeLimiter Q → Option (List ℕ) × SizeLimiter Q
  unfolding drop_size
  pop_file l = elim (exceeds_limit l) [
    | true ↦ elim (pq.pop_first l.queue) [
      | some (next, q) ↦ (some next, drop_size l q next)
      | none ↦ (none, l)
    ]
    | false ↦ (none, l)
  ]

  unfoldable pub update_access : SizeLimiter Q → List ℕ → ℕ → Bool × SizeLimiter Q
  update_access l file accessed =
      let (found, q) = pq.change_priority l.queue file accessed in (found, record l { queue = q })

  unfoldable pub remove_file : SizeLimiter Q → List ℕ → Bool × SizeLimiter Q
  unfolding drop_size
  remove_file l file =
      let (found, q) = pq.remove_item l.queue file in
      if found then (true, drop_size l q file) else (false, record l { queue = q })

  -- `delete` says which files can be removed from the disk; the result is none where the fuel is
  -- used up.
  unfoldable pub prune_internal : (List ℕ → Bool) → ℕ → SizeLimiter Q → Option (Pruned Q)
  unfolding pop_file
  prune_internal delete zero l = none
  prune_internal delete (suc fuel) l =
      let (popped, l') = pop_file l in
      elim popped [
        | none ↦ some (record { files = []; failed = false; limiter = l' })
        | some file ↦ elim (prune_internal delete fuel l') [
          | none ↦ none
          | some rest ↦
              some (record rest {
                files = file ∷ rest.files;
                failed = rest.failed || not (delete file);
              })
        ]
      ]
