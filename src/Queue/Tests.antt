-- ===== src/Queue/Tests.antt =====
-- Runs of the queue at concrete inputs.
use bfcp.Base.{
  ◌⊎◌, false, ℕ, ◌≡◌, ◌≤◌, refl, inl, ◌==◌, if◌then◌else◌, List, [], ◌∷◌, ◌++◌, All, arith,
}
use mathlib.Core.List.{Perm}
use bfcp.Queue.{FloorRequest, stamp, add, remove, get_position}
use bfcp.Queue.Order.{IsSorted, add-IsSorted}
use bfcp.Queue.Position.{IsAbsent, Found, position-remove}
use bfcp.Queue.Runs.{Call, adds, removes, pops, new_queue, run, IsQueue, new-run-IsQueue}
use bfcp.Queue.Fifo.{of_priority, add_fifo}

abbrev ask_of : (request user priority time : ℕ) → FloorRequest
ask_of r u p t = record {
  floor_id = 1;
  floor_request_id = r;
  user_id = u;
  beneficiary_id = 0;
  priority = p;
  timestamp = t;
}

abbrev two_waiting : List FloorRequest
two_waiting = ask_of 1 7 3 10 ∷ ask_of 2 8 2 5 ∷ []

two_waiting-IsSorted : IsSorted two_waiting
two_waiting-IsSorted = ((inl (omega arith), tt), (tt, tt))

two_waiting_earlier : All (λ x. x.timestamp ≤ 20) two_waiting
two_waiting_earlier = (omega arith, (omega arith, tt))

add-IsSorted_example :
    IsSorted (add 20 (ask_of 3 9 3 0) two_waiting)
    × Perm (add 20 (ask_of 3 9 3 0) two_waiting) (stamp 20 (ask_of 3 9 3 0) ∷ two_waiting)
add-IsSorted_example = add-IsSorted 20 (ask_of 3 9 3 0) two_waiting two_waiting-IsSorted

add_fifo_example : of_priority 3 (add 20 (ask_of 3 9 3 0) two_waiting) ≡ (
    if 3 == 3
    then of_priority 3 two_waiting ++ (stamp 20 (ask_of 3 9 3 0) ∷ [])
    else of_priority 3 two_waiting)
add_fifo_example =
    add_fifo 20 3 (ask_of 3 9 3 0) two_waiting two_waiting-IsSorted two_waiting_earlier

-- Three requests, one of which is served and one withdrawn.
abbrev some_calls : List Call
some_calls =
    adds 5 (ask_of 1 7 2 0)
    ∷ adds 6 (ask_of 2 8 3 0)
    ∷ pops
    ∷ adds 7 (ask_of 3 9 2 0)
    ∷ removes 1
    ∷ []

new-run-IsQueue_example : IsQueue (run some_calls new_queue)
new-run-IsQueue_example = new-run-IsQueue some_calls

position-remove_example :
    (IsAbsent 2 two_waiting
      × (get_position 2 two_waiting ≡ 0)
      × (remove 2 two_waiting ≡ (two_waiting, false)))
    ⊎ Found 2 0 two_waiting
position-remove_example = position-remove 2 two_waiting

-- The third request passes the one of lower priority, and stands behind the one of its own.
add_between : get_position 3 (add 20 (ask_of 3 9 3 0) two_waiting) ≡ 2
unfolding add get_position
add_between = refl
