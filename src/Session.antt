-- ===== src/Session.antt =====
-- `SessionStateMachine` of state.go. `time.Now()` is an argument, and a remote address is a number
-- that stands for its string.
use bfcp.Base.{ℕ, ◌-◌, List, []}

-- The states, 0 to 7 in the source.
pub data SessionState : Type 0 where
  disconnected connected wait_hello_ack wait_floor_request : SessionState
  floor_requested floor_granted floor_denied floor_released : SessionState

pub record SessionStateMachine : Type 0 where
  pub current_state : SessionState
  pub conference_id : ℕ  -- uint32
  pub user_id : ℕ  -- uint16
  pub remote_addr : ℕ
  pub client_version : ℕ  -- uint8
  pub supported_primitives : List ℕ
  pub supported_attributes : List ℕ
  pub created_at : ℕ
  pub last_activity_at : ℕ

-- The conference ID is a `uint16` here.
unfoldable pub new_session_state_machine :
    (now conference_id user_id remote_addr : ℕ) → SessionStateMachine
new_session_state_machine now c u addr = record {
  current_state = connected;
  conference_id = c;
  user_id = u;
  remote_addr = addr;
  client_version = 0;
  supported_primitives = [];
  supported_attributes = [];
  created_at = now;
  last_activity_at = now;
}

abbrev pub update_activity : (now : ℕ) → SessionStateMachine → SessionStateMachine
update_activity now ssm = record ssm { last_activity_at = now }

abbrev pub set_state : (now : ℕ) → SessionState → SessionStateMachine → SessionStateMachine
set_state now state ssm = record ssm { current_state = state; last_activity_at = now }

abbrev pub set_supported_primitives : List ℕ → SessionStateMachine → SessionStateMachine
set_supported_primitives ps ssm = record ssm { supported_primitives = ps }

abbrev pub set_supported_attributes : List ℕ → SessionStateMachine → SessionStateMachine
set_supported_attributes ts ssm = record ssm { supported_attributes = ts }

abbrev pub idle_duration : (now : ℕ) → SessionStateMachine → ℕ
idle_duration now ssm = now - ssm.last_activity_at
