-- ===== src/Virtual/Pool/Tests.antt =====
-- Runs of the pool at concrete inputs.
use bfcp.Base.{ℕ, ◌≡◌, ◌≤◌, refl, ◌⊎◌, true, false, [], ◌∷◌, nat_eq, subst, arith}
use bfcp.Base.Dict.{lookup}
use bfcp.Virtual.Pool.{UserIdPool, find_free, is_allocated, found, allocate, mark}
use bfcp.Virtual.Pool.Allocate.{TakesSmallest, Refuses, allocate_lem}
use bfcp.Virtual.Pool.Wrap.{allocate_wraps}

-- The IDs 10 to 12, of which 10 is allocated.
abbrev small_pool : UserIdPool
small_pool = record { start = 10; end = 12; allocated = (10, true) ∷ [] }

allocate_lem_example :
    TakesSmallest small_pool (allocate 5 small_pool) ⊎ Refuses small_pool (allocate 5 small_pool)
allocate_lem_example = allocate_lem 5 small_pool (omega arith) (omega arith) (omega arith)

-- The range of the one ID 65535, which is allocated.
abbrev last_pool : UserIdPool
last_pool = record { start = 65535; end = 65535; allocated = (65535, true) ∷ [] }

last_pool_busy : (j : ℕ) → 65535 ≤ j → j ≤ 65535 → is_allocated j last_pool ≡ true
unfolding is_allocated lookup
last_pool_busy j lo hi =
    let same : 65535 ≡ j = omega arith in subst (λ k. is_allocated k last_pool ≡ true) same refl

last_pool_free : is_allocated 0 last_pool ≡ false
unfolding is_allocated lookup
last_pool_free = refl

allocate_wraps_example : allocate 5 last_pool ≡ (mark 0 last_pool, found 0)
allocate_wraps_example =
    allocate_wraps 5 last_pool refl (omega arith) (omega arith) (omega arith) last_pool_busy
      last_pool_free

-- The second ID of the small pool is the first that is free.
allocate_small : (allocate 5 small_pool).1 ≡ found 11
unfolding allocate find_free is_allocated lookup
allocate_small = refl
