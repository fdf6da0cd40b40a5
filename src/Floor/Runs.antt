-- ===== src/Floor/Runs.antt =====
-- What holds over a whole sequence of calls on one floor.
use bfcp.Base.{ℕ, ◌≡◌, ◌≢◌, some, List, [], ◌∷◌, All, arith}
use bfcp.Types.RequestStatus
use bfcp.Floor.{
  FloorStateMachine, Op, do_request, do_grant, do_deny, do_release, do_revoke, request, apply, run,
  IsConsistent, new_floor_state_machine, invalid_state,
}
use bfcp.Floor.Spec.{apply-IsConsistent, new-IsConsistent}

run-IsConsistent :
    (ops : List Op) (fsm : FloorStateMachine) → IsConsistent fsm → IsConsistent (run ops fsm)
unfolding run
run-IsConsistent [] fsm h = h
run-IsConsistent (op ∷ ops) fsm h =
    run-IsConsistent ops (apply op fsm).0 (apply-IsConsistent op fsm h)

-- Whatever calls are made on a new floor, it is released, pending, granted or denied, and a floor
-- that is neither pending nor granted has owner 0 and request ID 0.
pub new-run-IsConsistent :
    (ops : List Op) (now f c : ℕ) → IsConsistent (run ops (new_floor_state_machine now f c))
new-run-IsConsistent ops now f c = run-IsConsistent ops _ (new-IsConsistent now f c)

-- The calls that can take a floor from user `u`: a release by `u`, one by user 0, a revocation.
abbrev pub LeavesAlone : ℕ → Op → Type 0
LeavesAlone u (do_release v) = (v ≢ u) × (v ≢ 0)
LeavesAlone u do_revoke = ⊥
LeavesAlone u _ = Unit {0}

abbrev pub HeldBy : (user request_id : ℕ) → FloorStateMachine → Type 0
HeldBy u r fsm =
    (fsm.current_state ≡ RequestStatus.granted)
    × (fsm.owner_user_id ≡ u)
    × (fsm.floor_request_id ≡ r)

pub apply-HeldBy :
    (u r : ℕ) (op : Op) (fsm : FloorStateMachine)
    → LeavesAlone u op
    → HeldBy u r fsm
    → HeldBy u r (apply op fsm).0
unfolding apply
apply-HeldBy u r (do_request v r' p) fsm l h = ground arith
apply-HeldBy u r (do_grant now) fsm l h = ground arith
apply-HeldBy u r do_deny fsm l h = ground arith
apply-HeldBy u r (do_release v) fsm l h = ground arith
apply-HeldBy u r do_revoke fsm l h = absurd l

-- A granted floor stays with its holder, under the same request ID, through every sequence of
-- calls that has no release by the holder, no release by user 0 and no revocation.
pub run-HeldBy :
    (u r : ℕ) (ops : List Op) (fsm : FloorStateMachine)
    → All (LeavesAlone u) ops
    → HeldBy u r fsm
    → HeldBy u r (run ops fsm)
unfolding run
run-HeldBy u r [] fsm l h = h
run-HeldBy u r (op ∷ ops) fsm l h =
    run-HeldBy u r ops (apply op fsm).0 l.1 (apply-HeldBy u r op fsm l.0 h)

-- What clients with a user ID other than 0 can cause: all but a revocation.
abbrev pub IsClientOp : Op → Type 0
IsClientOp (do_release v) = v ≢ 0
IsClientOp do_revoke = ⊥
IsClientOp _ = Unit {0}

abbrev pub IsBlocked : FloorStateMachine → Type 0
IsBlocked fsm = (fsm.current_state ≡ RequestStatus.denied) × (fsm.owner_user_id ≡ 0)

apply-IsBlocked :
    (op : Op) (fsm : FloorStateMachine) → IsClientOp op → IsBlocked fsm → IsBlocked (apply op fsm).0
unfolding apply
apply-IsBlocked (do_request v r p) fsm l h = ground arith
apply-IsBlocked (do_grant now) fsm l h = ground arith
apply-IsBlocked do_deny fsm l h = ground arith
apply-IsBlocked (do_release v) fsm l h = ground arith
apply-IsBlocked do_revoke fsm l h = absurd l

run-IsBlocked :
    (ops : List Op) (fsm : FloorStateMachine)
    → All IsClientOp ops
    → IsBlocked fsm
    → IsBlocked (run ops fsm)
unfolding run
run-IsBlocked [] fsm l h = h
run-IsBlocked (op ∷ ops) fsm l h =
    run-IsBlocked ops (apply op fsm).0 l.1 (apply-IsBlocked op fsm l.0 h)

-- A floor that was denied once is lost to its clients: after every sequence of requests, grants,
-- denials and releases by users other than 0, each request is refused with the error for an
-- invalid state and changes nothing.
pub run-denied_refuses :
    (ops : List Op) (fsm : FloorStateMachine) (u r p : ℕ)
    → All IsClientOp ops
    → IsBlocked fsm
    → request (run ops fsm) u r p
      ≡ (run ops fsm, (RequestStatus.denied, some (invalid_state RequestStatus.denied)))
unfolding request
run-denied_refuses ops fsm u r p l h = ground (arith, run-IsBlocked ops fsm l h)
