-- ===== src/Virtual/Pool/Allocate.antt =====
-- A pool whose range ends below 65535.
use bfcp.Base.{
  ℕ, zero, suc, ◌+◌, ◌≤◌, ◌<◌, leb, ltb, ◌==◌, if◌then◌else◌, Bool-cases, true, false, none, some,
  ◌≡◌, refl, subst, ◌⊎◌, inl, inr, nat_eq, ==_iff, ==_refl, ◌∙◌, arith,
}
use bfcp.Base.Bytes.{u16}
use bfcp.Base.Dict.{lookup-insert, lookup-remove}
use bfcp.Virtual.Pool.{
  UserIdPool, is_allocated, Search, found, exhausted, running, find_free, mark, taken, allocate,
  allocate_specific, release, SpecificError, outside_range, already_allocated,
}

pub is_allocated-mark :
    (id j : ℕ) (p : UserIdPool)
    → is_allocated j (mark id p) ≡ (if id == j then true else is_allocated j p)
unfolding is_allocated
is_allocated-mark id j p = ground (arith, lookup-insert id j true p.allocated)

pub is_allocated-release :
    (id j : ℕ) (p : UserIdPool)
    → is_allocated j (release id p) ≡ (if id == j then false else is_allocated j p)
unfolding is_allocated release
is_allocated-release id j p = ground (arith, lookup-remove id j p.allocated)

-- What the loop says from `id` on, when its counter cannot wrap.
abbrev Answer : ℕ → UserIdPool → Search → Type 0
Answer id p (found n) =
    (id ≤ n)
    × (n ≤ p.end)
    × (is_allocated n p ≡ false)
    × ((j : ℕ) → id ≤ j → j < n → is_allocated j p ≡ true)
Answer id p exhausted = (j : ℕ) → id ≤ j → j ≤ p.end → is_allocated j p ≡ true
Answer id p running = ⊥

Answer-next :
    (id : ℕ) (p : UserIdPool) (r : Search)
    → is_allocated id p ≡ true
    → Answer (id + 1) p r
    → Answer id p r
Answer-next id p (found n) b h = (
  omega arith,
  h.1,
  h.2,
  λ j lo hi. elim (Bool-cases (id == j)) [
    | inl e ↦ subst (λ k. is_allocated k p ≡ true) ((==_iff id j).0 e) b
    | inr e ↦ h.3 j (ground arith) hi
  ],
)
Answer-next id p exhausted b h = λ j lo hi. elim (Bool-cases (id == j)) [
  | inl e ↦ subst (λ k. is_allocated k p ≡ true) ((==_iff id j).0 e) b
  | inr e ↦ h j (ground arith) hi
]
Answer-next id p running b h = h

find_free-Answer :
    (fuel id : ℕ) (p : UserIdPool)
    → p.end < 65535
    → id ≤ p.end + 1
    → p.end + 1 < fuel + id
    → Answer id p (find_free fuel id p)
unfolding find_free
find_free-Answer zero id p e h f = absurd (omega arith)
find_free-Answer (suc fuel) id p e h f = elim (Bool-cases (leb id p.end)) [
  | inr out ↦ rw out (λ j lo hi. absurd (ground arith))
  | inl fits ↦ elim (Bool-cases (is_allocated id p)) [
    | inr free ↦ rw (fits, free) (omega arith, ground arith, free, λ j lo hi. absurd (omega arith))
    | inl busy ↦
        let no_wrap : u16 (id + 1) ≡ id + 1 = ground arith in
        rw (fits, busy, no_wrap)
          (Answer-next id p (find_free fuel (id + 1) p) busy
            (find_free-Answer fuel (id + 1) p e (ground arith) (omega arith)))
  ]
]

-- The smallest free ID of the range is returned and marked, and nothing else changes.
abbrev pub TakesSmallest : UserIdPool → UserIdPool × Search → Type 0
TakesSmallest p (p', r) =
    (n : ℕ) × (r ≡ found n)
    × (p.start ≤ n)
    × (n ≤ p.end)
    × (is_allocated n p ≡ false)
    × ((j : ℕ) → p.start ≤ j → j < n → is_allocated j p ≡ true)
    × ((j : ℕ) → is_allocated j p' ≡ (if n == j then true else is_allocated j p))

-- Every ID of the range is allocated, and nothing changes.
abbrev pub Refuses : UserIdPool → UserIdPool × Search → Type 0
Refuses p (p', r) =
    (r ≡ exhausted) × (p' ≡ p) × ((j : ℕ) → p.start ≤ j → j ≤ p.end → is_allocated j p ≡ true)

outcome :
    (p : UserIdPool) (r : Search)
    → Answer p.start p r
    → TakesSmallest p (taken r p, r) ⊎ Refuses p (taken r p, r)
outcome p (found n) h = inl (n, refl, h.0, h.1, h.2, h.3, λ j. is_allocated-mark n j p)
outcome p exhausted h = inr (refl, refl, h)
outcome p running h = absurd h

-- In a pool whose range ends below 65535 the loop of `Allocate` ends, within two rounds more than
-- the range has IDs. Either it returns the smallest ID of the range that is not allocated, after
-- which that ID is allocated and every other one is as before; or every ID of the range is
-- allocated, and the pool is left as it was.
pub allocate_lem :
    (fuel : ℕ) (p : UserIdPool)
    → p.start ≤ p.end
    → p.end < 65535
    → p.end + 1 < fuel + p.start
    → TakesSmallest p (allocate fuel p) ⊎ Refuses p (allocate fuel p)
unfolding allocate
allocate_lem fuel p s e f =
    outcome p (find_free fuel p.start p) (find_free-Answer fuel p.start p e (omega arith) f)

-- `AllocateSpecific` succeeds exactly for a free ID of the range; then that ID is allocated and
-- the others are as before, and else nothing changes.
pub allocate_specific_lem :
    (id : ℕ) (p : UserIdPool)
    → ((p.start ≤ id)
        × (id ≤ p.end)
        × (is_allocated id p ≡ false)
        × (allocate_specific id p ≡ (mark id p, none))
        × ((j : ℕ) → is_allocated j (mark id p) ≡ (if id == j then true else is_allocated j p)))
      ⊎ (((id < p.start) ⊎ (p.end < id) ⊎ (is_allocated id p ≡ true))
          × (e : SpecificError) × (allocate_specific id p ≡ (p, some e)))
unfolding allocate_specific
allocate_specific_lem id p = elim (Bool-cases (ltb id p.start)) [
  | inl a ↦ inr (ground arith, outside_range, rw a)
  | inr a ↦ elim (Bool-cases (ltb p.end id)) [
    | inl b ↦ inr (ground arith, outside_range, rw (a, b))
    | inr b ↦ elim (Bool-cases (is_allocated id p)) [
      | inl c ↦ inr (ground arith, already_allocated, rw (a, b, c))
      | inr c ↦ inl (ground arith, ground arith, c, rw (a, b, c), λ j. is_allocated-mark id j p)
    ]
  ]
]

-- What is released can be allocated again: after `Release` of an ID of the range,
-- `AllocateSpecific` of it succeeds.
pub allocate_specific-release :
    (id : ℕ) (p : UserIdPool)
    → p.start ≤ id
    → id ≤ p.end
    → allocate_specific id (release id p) ≡ (mark id (release id p), none)
unfolding allocate_specific release
allocate_specific-release id p lo hi =
    let free : is_allocated id (release id p) ≡ false =
      is_allocated-release id id p ∙ rw (==_refl id) in
    ground (arith, free)
