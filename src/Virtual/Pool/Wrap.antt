-- ===== src/Virtual/Pool/Wrap.antt =====
-- A pool whose range ends at 65535: the counter of `Allocate` is a `uint16`, so `id <= p.end`
-- never fails, and the loop goes on from 0 behind the end of the range.
use bfcp.Base.{ℕ, zero, suc, ◌+◌, ◌≤◌, ◌<◌, true, false, ◌≡◌, refl, ap, ◌∙◌, ◌-◌, arith}
use bfcp.Base.Bytes.{u16}
use bfcp.Virtual.Pool.{UserIdPool, is_allocated, found, running, find_free, mark, allocate}

find_free_step :
    (fuel id : ℕ) (p : UserIdPool)
    → p.end ≡ 65535
    → id ≤ 65535
    → is_allocated id p ≡ true
    → find_free (suc fuel) id p ≡ find_free fuel (u16 (id + 1)) p
unfolding find_free
find_free_step fuel id p e h b = ground arith

find_free_last :
    (fuel : ℕ) (p : UserIdPool)
    → p.end ≡ 65535
    → is_allocated 0 p ≡ false
    → find_free (suc fuel) 0 p ≡ found 0
unfolding find_free
find_free_last fuel p e free = ground arith

find_free_wraps :
    (k fuel id : ℕ) (p : UserIdPool)
    → p.end ≡ 65535
    → id + k ≡ 65535
    → k + 1 < fuel
    → ((j : ℕ) → id ≤ j → j ≤ 65535 → is_allocated j p ≡ true)
    → is_allocated 0 p ≡ false
    → find_free fuel id p ≡ found 0
find_free_wraps k zero id p e h f busy free = absurd (omega arith)
find_free_wraps k (suc zero) id p e h f busy free = absurd (omega arith)
find_free_wraps zero (suc (suc fuel)) id p e h f busy free =
    let wrap : u16 (id + 1) ≡ 0 = omega arith in
    find_free_step (suc fuel) id p e (omega arith) (busy id (omega arith) (omega arith))
    ∙ ap (λ i. find_free (suc fuel) i p) wrap
    ∙ find_free_last fuel p e free
find_free_wraps (suc k) (suc (suc fuel)) id p e h f busy free =
    let plain : u16 (id + 1) ≡ id + 1 = omega arith in
    find_free_step (suc fuel) id p e (omega arith) (busy id (omega arith) (omega arith))
    ∙ ap (λ i. find_free (suc fuel) i p) plain
    ∙ find_free_wraps k (suc fuel) (id + 1) p e (omega arith) (omega arith)
        (λ j lo hi. busy j (omega arith) hi) free

-- If the range of a pool is 1 or more up to 65535 and all of it is allocated, but 0 is not, then
-- `Allocate` returns user ID 0, which is outside the range, and marks it.
pub allocate_wraps :
    (fuel : ℕ) (p : UserIdPool)
    → p.end ≡ 65535
    → 0 < p.start
    → p.start ≤ 65535
    → 65536 < fuel + p.start
    → ((j : ℕ) → p.start ≤ j → j ≤ 65535 → is_allocated j p ≡ true)
    → is_allocated 0 p ≡ false
    → allocate fuel p ≡ (mark 0 p, found 0)
unfolding allocate
allocate_wraps fuel p e pos s f busy free =
    let r =
      find_free_wraps (65535 - p.start) fuel p.start p e (omega arith) (omega arith) busy free in
    rw r

find_free_runs :
    (fuel id : ℕ) (p : UserIdPool)
    → p.end ≡ 65535
    → id ≤ 65535
    → ((j : ℕ) → j ≤ 65535 → is_allocated j p ≡ true)
    → find_free fuel id p ≡ running
find_free_runs zero id p e h busy = unfold find_free in refl
find_free_runs (suc fuel) id p e h busy =
    find_free_step fuel id p e h (busy id h)
    ∙ find_free_runs fuel (u16 (id + 1)) p e (omega arith) busy

-- If the range of a pool ends at 65535 and all 65,536 IDs are allocated, the loop of `Allocate`
-- has not ended after any number of rounds: the call never returns.
pub allocate_never_returns :
    (fuel : ℕ) (p : UserIdPool)
    → p.end ≡ 65535
    → p.start ≤ 65535
    → ((j : ℕ) → j ≤ 65535 → is_allocated j p ≡ true)
    → allocate fuel p ≡ (p, running)
unfolding allocate
allocate_never_returns fuel p e s busy = rw (find_free_runs fuel p.start p e s busy)
