-- ===== src/Cache/Sessions.antt =====
-- The limiter over any sequence of its operations.
use squeezebox_radio_spotify.Cache.{
  PriorityQueue, SizeLimiter, add_file, update_access, pop_file, new_limiter, remove_file,
}
use squeezebox_radio_spotify.Cache.Limits.{
  IsQueue, Pops, IsConsistent, add_file-IsConsistent, pop_file-cases, update_access-IsConsistent,
  new_limiter-IsConsistent, remove_file-IsConsistent, drop_size-IsConsistent,
}
use squeezebox_radio_spotify.Prelude.{ℕ, List, [], ◌∷◌, Option, inl, subst, sym, inr}

-- What Cache and FsSizeLimiter ask of the limiter.
pub data Operation : Type 0 where
  add : List ℕ → ℕ → ℕ → Operation
  touch : List ℕ → ℕ → Operation
  remove : List ℕ → Operation
  pop : Operation

module _ {Q : Type 0} (pq : PriorityQueue Q) where
  unfoldable pub operate : SizeLimiter Q → Operation → SizeLimiter Q
  operate l (add f size t) = add_file pq l f size t
  operate l (touch f t) = (update_access pq l f t).1
  operate l (remove f) = (remove_file pq l f).1
  operate l pop = (pop_file pq l).1

  unfoldable pub operate_all : SizeLimiter Q → List Operation → SizeLimiter Q
  unfolding operate
  operate_all l [] = l
  operate_all l (op ∷ ops) = operate_all (operate l op) ops

module _ {Q : Type 0} (pq : PriorityQueue Q) (access : Q → List ℕ → Option ℕ)
    (v : IsQueue pq access) where
  pop_file-IsConsistent :
      (l : SizeLimiter Q) → IsConsistent pq access v l → IsConsistent pq access v (pop_file pq l).1
  unfolding Pops
  pop_file-IsConsistent l c = elim (pop_file-cases pq access v l c) [
    | inl (e, le) ↦ subst (λ r. IsConsistent pq access v r.1) (sym e) c
    | inr (f, q, n, e, present, p) ↦
        subst (λ r. IsConsistent pq access v r.1) (sym e)
          (drop_size-IsConsistent pq access v l q f c p.1)
  ]

  operate-IsConsistent :
      (l : SizeLimiter Q) (op : Operation)
      → IsConsistent pq access v l
      → IsConsistent pq access v (operate pq l op)
  unfolding operate
  operate-IsConsistent l (add f size t) c = add_file-IsConsistent pq access v l f size t c
  operate-IsConsistent l (touch f t) c = update_access-IsConsistent pq access v l f t c
  operate-IsConsistent l (remove f) c = remove_file-IsConsistent pq access v l f c
  operate-IsConsistent l pop c = pop_file-IsConsistent l c

  operate_all-keeps :
      (ops : List Operation) (l : SizeLimiter Q)
      → IsConsistent pq access v l
      → IsConsistent pq access v (operate_all pq l ops)
  unfolding operate_all
  operate_all-keeps [] l c = c
  operate_all-keeps (op ∷ ops) l c =
      operate_all-keeps ops (operate pq l op) (operate-IsConsistent l op c)

  -- Whatever is added, touched, removed and popped from the start, the queue and the map of the sizes
  -- have the same files, no file twice, and the bytes in use are the sum of the sizes, modulo 2 ^ 64.
  pub operate_all-IsConsistent :
      (limit : ℕ) (ops : List Operation)
      → IsConsistent pq access v (operate_all pq (new_limiter pq limit) ops)
  operate_all-IsConsistent limit ops =
      operate_all-keeps ops (new_limiter pq limit) (new_limiter-IsConsistent pq access v limit)
