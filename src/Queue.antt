-- ===== src/Queue.antt =====
-- `FloorRequestQueue` of state.go: a slice of requests under a lock that every method holds from
-- its first line to its last. `time.Now()` is an argument. The server does not use the queue.
pub mod Order
pub mod Fifo
pub mod Runs
pub mod Position
mod Tests
use bfcp.Base.{
  ℕ, suc, ◌+◌, ◌==◌, ltb, if◌then◌else◌, Bool, true, false, ◌&&◌, Option, none, some, List, [], ◌∷◌,
  ◌++◌, length,
}

pub record FloorRequest : Type 0 where
  pub floor_id : ℕ
  pub floor_request_id : ℕ
  pub user_id : ℕ
  pub beneficiary_id : ℕ
  pub priority : ℕ
  pub timestamp : ℕ

-- The test of the loop in `Add`: request `a` behind request `b` is moved before it.
abbrev pub overtakes : FloorRequest → FloorRequest → Bool
overtakes a b =
    if ltb b.priority a.priority
    then true
    else a.priority == b.priority && ltb a.timestamp b.timestamp

-- One round of that loop, at index `i`: `b` is `q.requests[i-1]`, and the list is the slice from
-- index `i` on, which the rounds before have dealt with.
abbrev pub compare_swap : FloorRequest → List FloorRequest → List FloorRequest
compare_swap b [] = b ∷ []
compare_swap b (a ∷ rest) = if overtakes a b then a ∷ b ∷ rest else b ∷ a ∷ rest

-- The rounds from the last index down to 1.
pub bubble_up : List FloorRequest → List FloorRequest
bubble_up [] = []
bubble_up (b ∷ rest) = compare_swap b (bubble_up rest)

abbrev pub stamp : (now : ℕ) → FloorRequest → FloorRequest
stamp now req = record req { timestamp = now }

unfoldable pub add : (now : ℕ) → FloorRequest → List FloorRequest → List FloorRequest
unfolding bubble_up
add now req q = bubble_up (q ++ (stamp now req ∷ []))

-- The queue without the first request of that ID, and whether there was one.
unfoldable pub remove : (floor_request_id : ℕ) → List FloorRequest → List FloorRequest × Bool
remove n [] = ([], false)
remove n (req ∷ rest) =
    if req.floor_request_id == n then (rest, true) else (req ∷ (remove n rest).0, (remove n rest).1)

abbrev pub get_next : List FloorRequest → Option FloorRequest
get_next [] = none
get_next (req ∷ rest) = some req

abbrev pub pop_next : List FloorRequest → List FloorRequest × Option FloorRequest
pop_next [] = ([], none)
pop_next (req ∷ rest) = (rest, some req)

-- The loop of `GetPosition` at index `i`.
abbrev pub position_from : (i floor_request_id : ℕ) → List FloorRequest → ℕ
position_from i n [] = 0
position_from i n (req ∷ rest) =
    let later = position_from (suc i) n rest in if req.floor_request_id == n then i + 1 else later

unfoldable pub get_position : (floor_request_id : ℕ) → List FloorRequest → ℕ
get_position n q = position_from 0 n q
