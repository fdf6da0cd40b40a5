-- ===== src/Queue/Runs.antt =====
-- Runs of a queue: any calls of `Add`, `Remove` and `PopNext`, one after the other. Next to the queue
-- stands what went in and what came out.
use bfcp.Base.{
  ℕ, ◌==◌, if◌then◌else◌, Bool-cases, Option, none, some, inl, inr, List, [], ◌∷◌, ◌++◌, All,
  nat_eq,
}
use mathlib.Core.List.{Perm, perm_middle}
use mathlib.Core.List.Perm
use bfcp.Queue.{FloorRequest, stamp, add, remove, pop_next}
use bfcp.Queue.Order.{IsSorted, Precedes, add-IsSorted, remove-IsSorted}

pub data Call : Type 0 where
  adds : (now : ℕ) → FloorRequest → Call
  removes : (floor_request_id : ℕ) → Call
  pops : Call

-- `added` are the requests as they were put in, with their time; `taken` are those that came out
-- again; `served` are those that `PopNext` returned, each with the queue that it left.
pub record History : Type 0 where
  pub queue : List FloorRequest
  pub added : List FloorRequest
  pub taken : List FloorRequest
  pub served : List (FloorRequest × List FloorRequest)

abbrev pub new_queue : History
new_queue = record { queue = []; added = []; taken = []; served = [] }

-- What `Remove` takes out: the first request of that ID.
unfoldable pub first_of : (floor_request_id : ℕ) → List FloorRequest → List FloorRequest
first_of n [] = []
first_of n (req ∷ rest) = if req.floor_request_id == n then req ∷ [] else first_of n rest

abbrev pub after_pop : List FloorRequest × Option FloorRequest → History → History
after_pop (q, none) h = record h { queue = q }
after_pop (q, some r) h = record h { queue = q; taken = r ∷ h.taken; served = (r, q) ∷ h.served }

unfoldable pub perform : Call → History → History
unfolding add remove
perform (adds now r) h = record h { queue = add now r h.queue; added = stamp now r ∷ h.added }
perform (removes n) h = record h {
  queue = (remove n h.queue).0;
  taken = first_of n h.queue ++ h.taken;
}
perform pops h = after_pop (pop_next h.queue) h

unfoldable pub run : List Call → History → History
unfolding perform
run [] h = h
run (c ∷ cs) h = run cs (perform c h)

-- The queue is in order; it has what was added and not taken, each request as often; and whoever was
-- served might stand before all that were left waiting.
pub record IsQueue (h : History) : Type 0 where
  pub in_order : IsSorted h.queue
  pub is_complete : Perm (h.queue ++ h.taken) h.added
  pub in_turn : All (λ s. All (Precedes s.0) s.1) h.served

remove-perm :
    (n : ℕ) (q rest : List FloorRequest)
    → Perm ((remove n q).0 ++ (first_of n q ++ rest)) (q ++ rest)
unfolding remove first_of
remove-perm n [] rest = Perm.refl rest
remove-perm n (x ∷ xs) rest = elim (Bool-cases (x.floor_request_id == n)) [
  | inl e ↦ rw e (perm_middle xs rest)
  | inr e ↦ rw e (Perm.cons x (remove-perm n xs rest))
]

pops-IsQueue :
    (q added taken : List FloorRequest) (served : List (FloorRequest × List FloorRequest))
    → IsQueue (record { queue = q; added = added; taken = taken; served = served })
    → IsQueue (
        after_pop
          (pop_next q)
          (record { queue = q; added = added; taken = taken; served = served }))
pops-IsQueue [] added taken served i = i
pops-IsQueue (x ∷ xs) added taken served i = record {
  in_order = i.in_order.1;
  is_complete = Perm.trans (perm_middle xs taken) i.is_complete;
  in_turn = (i.in_order.0, i.in_turn);
}

perform-IsQueue : (c : Call) (h : History) → IsQueue h → IsQueue (perform c h)
unfolding perform
perform-IsQueue (adds now r) h i =
    let (sorted, same) = add-IsSorted now r h.queue i.in_order in
    record {
      in_order = sorted;
      is_complete =
          Perm.trans (Perm.append_right h.taken same) (Perm.cons (stamp now r) i.is_complete);
      in_turn = i.in_turn;
    }
perform-IsQueue (removes n) h i = record {
  in_order = remove-IsSorted n h.queue i.in_order;
  is_complete = Perm.trans (remove-perm n h.queue h.taken) i.is_complete;
  in_turn = i.in_turn;
}
perform-IsQueue pops h i = pops-IsQueue h.queue h.added h.taken h.served i

run-IsQueue : (cs : List Call) (h : History) → IsQueue h → IsQueue (run cs h)
unfolding run
run-IsQueue [] h i = i
run-IsQueue (c ∷ cs) h i = run-IsQueue cs (perform c h) (perform-IsQueue c h i)

-- After any calls of `Add`, `Remove` and `PopNext` on a new queue, whatever the times, the queue is in
-- order; it has exactly the requests that were added and not taken out again by `Remove`, which takes
-- the first of an ID, or `PopNext`; and each request that `PopNext` returned had, of those that were
-- then left, none before it: none of a higher priority, and none of its own with an earlier time.
pub new-run-IsQueue : (cs : List Call) → IsQueue (run cs new_queue)
new-run-IsQueue cs =
    run-IsQueue cs new_queue (record { in_order = tt; is_complete = Perm.refl []; in_turn = tt })
