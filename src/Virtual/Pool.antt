-- ===== src/Virtual/Pool.antt =====
-- `UserIDPool` of virtual/manager.go. Each method holds the lock from its first line to its last.
pub mod Allocate
pub mod Wrap
mod Tests
use bfcp.Base.{
  ℕ, zero, suc, ◌+◌, ◌-◌, leb, ltb, not, if◌then◌else◌, Bool, true, false, ◌||◌, Option, none, some,
  List, [], ◌∷◌, nat_eq, length,
}
use bfcp.Base.Bytes.{u16}
use bfcp.Base.Dict.{lookup, insert, remove}

pub record UserIdPool : Type 0 where
  pub start : ℕ  -- uint16
  pub end : ℕ  -- uint16
  pub allocated : List (ℕ × Bool)

unfoldable pub new_user_id_pool : (start end : ℕ) → UserIdPool
new_user_id_pool s e = record { start = s; end = e; allocated = [] }

-- `p.allocated[id]`, which is false for a missing key.
unfoldable pub is_allocated : ℕ → UserIdPool → Bool
is_allocated id p = elim (lookup id p.allocated) [ some b ↦ b | none ↦ false ]

-- How the loop of `Allocate` ends. `running` is no Go value: the loop had not ended when the fuel
-- was used up.
pub data Search : Type 0 where
  found : ℕ → Search
  exhausted : Search
  running : Search

-- `for id := p.start; id <= p.end; id++`, from any `id`: the increment wraps at 65536.
unfoldable pub find_free : (fuel id : ℕ) → UserIdPool → Search
find_free zero id p = running
find_free (suc fuel) id p =
    let next = find_free fuel (u16 (id + 1)) p in
    if leb id p.end then if not (is_allocated id p) then found id else next else exhausted

abbrev pub mark : ℕ → UserIdPool → UserIdPool
mark id p = record p { allocated = insert id true p.allocated }

abbrev pub taken : Search → UserIdPool → UserIdPool
taken (found id) p = mark id p
taken _ p = p

unfoldable pub allocate : (fuel : ℕ) → UserIdPool → UserIdPool × Search
allocate fuel p = let r = find_free fuel p.start p in (taken r p, r)

pub data SpecificError : Type 0 where
  outside_range already_allocated : SpecificError

unfoldable pub allocate_specific : ℕ → UserIdPool → UserIdPool × Option SpecificError
allocate_specific id p =
    if ltb id p.start || ltb p.end id
    then (p, some outside_range)
    else if is_allocated id p
    then (p, some already_allocated)
    else (mark id p, none)

unfoldable pub release : ℕ → UserIdPool → UserIdPool
release id p = record p { allocated = remove id p.allocated }
