-- ===== src/Tests/CacheRuns.antt =====
-- Runs of the limiter of native/librespot/core/src/cache.rs, over a queue that is a list.
use squeezebox_radio_spotify.Cache.{
  add_file, new_limiter, prune_internal, SizeLimiter, pop_file, Pruned, drop_size, size_of,
  remove_file, without,
}
use squeezebox_radio_spotify.Cache.Limits.{IsConsistent}
use squeezebox_radio_spotify.Cache.Pruning.{prune_internal-Fits, Fits}
use squeezebox_radio_spotify.Cache.Sessions.{
  operate_all-IsConsistent, Operation, operate_all, add, operate, remove,
}
use squeezebox_radio_spotify.Cache.Sizes.{total}
use squeezebox_radio_spotify.Prelude.{
  ℕ, List, [], ◌∷◌, arith, ◌≡◌, refl, Option, codes, some, subst, true, none, bytes_eq,
}
use squeezebox_radio_spotify.Tests.CacheQueue.{list_queue, access_of, list_queue-IsQueue, oldest_of}

abbrev three_files : SizeLimiter (List (List ℕ × ℕ))
three_files = record {
  queue = (codes "c", 3) ∷ (codes "b", 1) ∷ (codes "a", 2) ∷ [];
  sizes = (codes "c", 1000) ∷ (codes "b", 500) ∷ (codes "a", 500) ∷ [];
  size_limit = 1000;
  in_use = 2000;
}

abbrev three_files_ops : List Operation
three_files_ops = add (codes "a") 500 2 ∷ add (codes "b") 500 1 ∷ add (codes "c") 1000 3 ∷ []

three_files_added :
    operate_all list_queue (new_limiter list_queue 1000) three_files_ops ≡ three_files
unfolding operate_all operate add_file size_of without bytes_eq
three_files_added = refl

popped_files : Option (Pruned (List (List ℕ × ℕ))) → List (List ℕ)
popped_files none = []
popped_files (some r) = r.files

two_popped :
    popped_files (prune_internal list_queue (λ f. true) 4 three_files) ≡ codes "b" ∷ codes "a" ∷ []
unfolding popped_files prune_internal pop_file drop_size size_of without bytes_eq oldest_of
two_popped = refl

-- A file that is added again is counted once.
added_again :
    (operate_all list_queue three_files (add (codes "c") 10 4 ∷ remove (codes "a") ∷ [])).in_use
    ≡ 510
unfolding operate_all operate add_file remove_file drop_size access_of size_of without bytes_eq
added_again = refl

operate_all-IsConsistent_example :
    IsConsistent list_queue access_of list_queue-IsQueue
      (operate_all list_queue (new_limiter list_queue 1000) three_files_ops)
operate_all-IsConsistent_example =
    operate_all-IsConsistent list_queue access_of list_queue-IsQueue 1000 three_files_ops

three_files-IsConsistent : IsConsistent list_queue access_of list_queue-IsQueue three_files
three_files-IsConsistent =
    subst (λ l. IsConsistent list_queue access_of list_queue-IsQueue l) three_files_added
      (operate_all-IsConsistent list_queue access_of list_queue-IsQueue 1000 three_files_ops)

three_files_total : total three_files.sizes ≡ 2000
unfolding total
three_files_total = refl

prune_internal-Fits_example :
    (r : Pruned (List (List ℕ × ℕ))) × (prune_internal list_queue (λ f. true) 4 three_files
      ≡ some r)
    × Fits list_queue access_of list_queue-IsQueue (λ f. true) three_files r
prune_internal-Fits_example =
    prune_internal-Fits list_queue access_of list_queue-IsQueue (λ f. true) 4 three_files
      three_files-IsConsistent (omega (arith, three_files_total)) (omega arith)
