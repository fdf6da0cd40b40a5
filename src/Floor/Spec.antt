-- ===== src/Floor/Spec.antt =====
-- What a floor promises, without its record: it is free, waits for a decision on one user's
-- request, is held by one user, or is blocked after a denial. The methods of
-- `FloorStateMachine` implement that.
use bfcp.Base.{ℕ, ◌==◌, if◌then◌else◌, Bool, true, false, ◌||◌, Option, none, some, ◌≡◌, arith}
use bfcp.Types.RequestStatus
use bfcp.Floor.{
  FloorStateMachine, FloorError, Op, do_request, do_grant, do_deny, do_release, do_revoke, apply,
  new_floor_state_machine, IsConsistent,
}

pub data View : Type 0 where
  free : View
  waiting : (user request_id : ℕ) → View
  held : (user request_id : ℕ) → View
  blocked : View

abbrev pub view : FloorStateMachine → View
view fsm =
    if fsm.current_state == RequestStatus.released
    then free
    else if fsm.current_state == RequestStatus.pending
    then waiting fsm.owner_user_id fsm.floor_request_id
    else if fsm.current_state == RequestStatus.granted
    then held fsm.owner_user_id fsm.floor_request_id
    else blocked

-- The next view, and whether the call reports no error.
abbrev pub spec : Op → View → View × Bool
spec (do_request u r p) free = (waiting u r, true)
spec (do_request u r p) v = (v, false)
spec (do_grant now) (waiting u r) = (held u r, true)
spec (do_grant now) v = (v, false)
spec do_deny (waiting u r) = (blocked, true)
spec do_deny v = (v, false)
spec (do_release u) (waiting o r) = if o == u || u == 0 then (free, true) else (waiting o r, false)
spec (do_release u) (held o r) = if o == u || u == 0 then (free, true) else (held o r, false)
spec (do_release u) free = (free, u == 0)
spec (do_release u) blocked = if u == 0 then (free, true) else (blocked, false)
spec do_revoke (waiting o r) = (free, if o == 0 then false else true)
spec do_revoke (held o r) = (free, if o == 0 then false else true)
spec do_revoke v = (free, false)

abbrev pub succeeded : Option FloorError → Bool
succeeded none = true
succeeded (some _) = false

pub new-IsConsistent : (now f c : ℕ) → IsConsistent (new_floor_state_machine now f c)
unfolding new_floor_state_machine
new-IsConsistent now f c = ground arith

-- Every method keeps the invariant.
pub apply-IsConsistent :
    (op : Op) (fsm : FloorStateMachine) → IsConsistent fsm → IsConsistent (apply op fsm).0
unfolding apply
apply-IsConsistent (do_request u r p) fsm h = ground arith
apply-IsConsistent (do_grant now) fsm h = ground arith
apply-IsConsistent do_deny fsm h = ground arith
apply-IsConsistent (do_release u) fsm h = ground arith
apply-IsConsistent do_revoke fsm h = ground arith

-- On a consistent floor each method does what the specification says, and reports an error
-- exactly when the specification refuses.
pub apply-refines :
    (op : Op) (fsm : FloorStateMachine)
    → IsConsistent fsm
    → (view (apply op fsm).0 ≡ (spec op (view fsm)).0)
      × (succeeded (apply op fsm).1 ≡ (spec op (view fsm)).1)
unfolding apply
apply-refines (do_request u r p) fsm h = ground arith
apply-refines (do_grant now) fsm h = ground arith
apply-refines do_deny fsm h = ground arith
apply-refines (do_release u) fsm h = ground arith
apply-refines do_revoke fsm h = ground arith
