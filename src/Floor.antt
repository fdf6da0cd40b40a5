-- ===== src/Floor.antt =====
-- `FloorStateMachine` of state.go. A method on `*FloorStateMachine` returns the new record, and
-- its `error` is an `Option`. Each method holds the lock from its first line to its last, so it is
-- one step. `time.Now()` is an argument.
pub mod Spec
pub mod Runs
mod Tests
use bfcp.Base.{
  ℕ, ◌==◌, if◌then◌else◌, Bool, not, ◌&&◌, ◌||◌, Option, none, some, ◌≡◌, ◌≢◌, ◌⊎◌, List, [], ◌∷◌,
}
use bfcp.Types.RequestStatus

pub record FloorStateMachine : Type 0 where
  pub floor_id : ℕ  -- uint16
  pub conference_id : ℕ  -- uint32
  pub current_state : ℕ  -- RequestStatus
  pub owner_user_id : ℕ  -- uint16
  pub floor_request_id : ℕ  -- uint16
  pub priority : ℕ  -- uint16
  pub created_at : ℕ
  pub granted_at : ℕ

-- What `fmt.Errorf` is given; the text is not modelled here.
pub data FloorError : Type 0 where
  in_use : (floor owner : ℕ) → FloorError
  invalid_state : (state : ℕ) → FloorError
  cannot_grant : (state : ℕ) → FloorError
  cannot_deny : (state : ℕ) → FloorError
  not_owner : (user floor owner : ℕ) → FloorError
  no_user_to_revoke : FloorError

-- The zero values of the fields that the literal leaves out are written out.
unfoldable pub new_floor_state_machine : (now floor_id conference_id : ℕ) → FloorStateMachine
new_floor_state_machine now f c = record {
  floor_id = f;
  conference_id = c;
  current_state = RequestStatus.released;
  owner_user_id = 0;
  floor_request_id = 0;
  priority = 0;
  created_at = now;
  granted_at = 0;
}

-- The status returned, and the error beside it.
unfoldable pub request :
    FloorStateMachine → (user request_id priority : ℕ) → FloorStateMachine × (ℕ × Option FloorError)
request fsm user rid p =
    if fsm.current_state == RequestStatus.released
    then (
      record fsm {
        owner_user_id = user;
        floor_request_id = rid;
        priority = p;
        current_state = RequestStatus.pending;
      },
      (RequestStatus.pending, none),
    )
    else if fsm.current_state == RequestStatus.pending || fsm.current_state == RequestStatus.granted
    then (fsm, (RequestStatus.denied, some (in_use fsm.floor_id fsm.owner_user_id)))
    else (fsm, (RequestStatus.denied, some (invalid_state fsm.current_state)))

unfoldable pub grant : (now : ℕ) → FloorStateMachine → FloorStateMachine × Option FloorError
grant now fsm =
    if not (fsm.current_state == RequestStatus.pending)
    then (fsm, some (cannot_grant fsm.current_state))
    else (record fsm { current_state = RequestStatus.granted; granted_at = now }, none)

unfoldable pub deny : FloorStateMachine → FloorStateMachine × Option FloorError
deny fsm =
    if not (fsm.current_state == RequestStatus.pending)
    then (fsm, some (cannot_deny fsm.current_state))
    else (
      record fsm { current_state = RequestStatus.denied; owner_user_id = 0; floor_request_id = 0 },
      none,
    )

unfoldable pub release : (user : ℕ) → FloorStateMachine → FloorStateMachine × Option FloorError
release user fsm =
    if not (fsm.owner_user_id == user) && not (user == 0)
    then (fsm, some (not_owner user fsm.floor_id fsm.owner_user_id))
    else (
      record fsm {
        current_state = RequestStatus.released;
        owner_user_id = 0;
        floor_request_id = 0;
        priority = 0;
      },
      none,
    )

-- The write of `Revoked` is overwritten before the lock is given up.
unfoldable pub revoke : FloorStateMachine → FloorStateMachine × Option FloorError
revoke fsm =
    let prev_owner = fsm.owner_user_id in
    (
      record fsm {
        owner_user_id = 0;
        floor_request_id = 0;
        current_state = RequestStatus.released;
      },
      if prev_owner == 0 then some no_user_to_revoke else none,
    )

abbrev pub is_available : FloorStateMachine → Bool
is_available fsm = fsm.current_state == RequestStatus.released

abbrev pub is_granted : FloorStateMachine → Bool
is_granted fsm = fsm.current_state == RequestStatus.granted

-- The calls that change a floor.
pub data Op : Type 0 where
  do_request : (user request_id priority : ℕ) → Op
  do_grant : (now : ℕ) → Op
  do_deny : Op
  do_release : (user : ℕ) → Op
  do_revoke : Op

unfoldable pub apply : Op → FloorStateMachine → FloorStateMachine × Option FloorError
unfolding request grant deny release revoke
apply (do_request u r p) fsm = let (fsm', res) = request fsm u r p in (fsm', res.1)
apply (do_grant now) fsm = grant now fsm
apply do_deny fsm = deny fsm
apply (do_release u) fsm = release u fsm
apply do_revoke fsm = revoke fsm

-- The states that the methods write, and what goes with each.
pub record IsConsistent (fsm : FloorStateMachine) : Type 0 where
  pub known :
      (fsm.current_state ≡ RequestStatus.released)
      ⊎ (fsm.current_state ≡ RequestStatus.pending)
      ⊎ (fsm.current_state ≡ RequestStatus.granted)
      ⊎ (fsm.current_state ≡ RequestStatus.denied)
  pub unowned :
      fsm.current_state ≢ RequestStatus.pending
      → fsm.current_state ≢ RequestStatus.granted
      → (fsm.owner_user_id ≡ 0) × (fsm.floor_request_id ≡ 0)

-- A sequence of calls, whatever goroutines make them: the lock puts them in one order.
unfoldable pub run : List Op → FloorStateMachine → FloorStateMachine
run [] fsm = fsm
run (op ∷ ops) fsm = run ops (apply op fsm).0
