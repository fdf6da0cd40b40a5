-- ===== src/Server.antt =====
-- `Server` and `Session` of server.go: the state that the handlers share, and its lookups. A
-- session object stands in a store under a number, its pointer; the map `sessions` takes a remote
-- address to a pointer. A floor is only reached through the map `floors`, so its ID serves as its
-- pointer. What a handler gives to the transport or to a hook of the application is an event at the
-- end of the log. The hooks `OnMessageIn`, `OnMessageOut` and `OnError` and the logger only observe.
pub mod Send
pub mod Request
pub mod Release
pub mod Hello
pub mod Dispatch
pub mod Register
pub mod Frame
pub mod Evolve
pub mod Acts
pub mod Safety
pub mod Application
pub mod Answers
mod Tests
use bfcp.Base.{
  ℕ, suc, ◌+◌, ◌%◌, ◌==◌, not, ◌&&◌, if◌then◌else◌, Bool, Option, none, some, List, [], ◌∷◌, ◌++◌,
  nat_eq,
}
use bfcp.Base.Bytes.{u16}
use bfcp.Base.Dict.{lookup, insert, remove}
use bfcp.Floor.{FloorStateMachine, FloorError, new_floor_state_machine, is_available}
use bfcp.Session.{SessionStateMachine}
use bfcp.Message.{Message}

-- The fields of `ServerConfig` that the handlers read.
pub record ServerConfig : Type 0 where
  pub conference_id : ℕ  -- uint32
  pub auto_grant : Bool

-- Every `Session` literal of the source sets one of the two transports.
pub data Carrier : Type 0 where
  tcp udp : Carrier

pub record Session : Type 0 where
  pub carrier : Carrier
  pub remote : ℕ
  pub machine : SessionStateMachine

-- What is given to the transports and to the hooks, in order.
pub data Event : Type 0 where
  sent : (session : ℕ) → Message → Event
  sent_raw : (session : ℕ) → (octets : List ℕ) → Event
  closed : (session : ℕ) → Event
  keepalive_started : (session : ℕ) → Event
  on_floor_request on_floor_granted on_floor_denied : (floor user request : ℕ) → Event
  on_floor_released : (floor user : ℕ) → Event
  on_client_connect on_client_disconnect : (remote user : ℕ) → Event

pub record Server : Type 0 where
  pub config : ServerConfig
  pub floors : List (ℕ × FloorStateMachine)
  pub objects : List (ℕ × Session)
  pub sessions : List (ℕ × ℕ)
  pub next_tx_id : ℕ  -- uint32
  pub log : List Event

unfoldable pub new_server : ServerConfig → Server
new_server config = record {
  config = config;
  floors = [];
  objects = [];
  sessions = [];
  next_tx_id = 0;
  log = [];
}

-- The texts of the error messages; `fmt` makes octets of them.
pub data ErrorText : Type 0 where
  no_floor_id missing_request_id missing_floor_id : ErrorText
  floor_does_not_exist request_id_does_not_exist : ℕ → ErrorText
  floor_error : FloorError → ErrorText

-- What a handler takes from outside: the clock, `fmt`, and the hook `OnFloorRequest` if it is set.
pub record Env : Type 0 where
  pub now : ℕ
  pub text : ErrorText → List ℕ
  pub decide : Option (ℕ → ℕ → ℕ → Bool)

abbrev pub emit : Event → Server → Server
emit e s = record s { log = s.log ++ (e ∷ []) }

abbrev pub put_floor : ℕ → FloorStateMachine → Server → Server
put_floor id f s = record s { floors = insert id f s.floors }

unfoldable pub get_floor : ℕ → Server → Option FloorStateMachine
get_floor id s = lookup id s.floors

-- The floor, made if it is missing, and the server that has it.
unfoldable pub create_floor : Env → ℕ → Server → Server × FloorStateMachine
unfolding get_floor
create_floor env id s = elim (get_floor id s) [
  | some f ↦ (s, f)
  | none ↦
      let f = new_floor_state_machine env.now id s.config.conference_id in (put_floor id f s, f)
]

-- The keys that the range loops of the two functions below stop at. Go visits a map in any order;
-- here it is the order of the list.
abbrev pub first_with_request : ℕ → List (ℕ × FloorStateMachine) → Option ℕ
first_with_request r [] = none
first_with_request r ((id, f) ∷ fs) =
    if f.floor_request_id == r then some id else first_with_request r fs

abbrev pub first_owned : ℕ → List (ℕ × FloorStateMachine) → Option ℕ
first_owned u [] = none
first_owned u ((id, f) ∷ fs) =
    if not (is_available f) && (f.owner_user_id == u) then some id else first_owned u fs

-- The floor of a key that was found, with its ID.
abbrev pub at_key : Option ℕ → Server → Option (ℕ × FloorStateMachine)
at_key none s = none
at_key (some id) s = elim (lookup id s.floors) [ some f ↦ some (id, f) | none ↦ none ]

unfoldable pub get_floor_by_request_id : ℕ → Server → Option (ℕ × FloorStateMachine)
get_floor_by_request_id r s = at_key (first_with_request r s.floors) s

unfoldable pub floor_owned_by : ℕ → Server → Option (ℕ × FloorStateMachine)
floor_owned_by u s = at_key (first_owned u s.floors) s

abbrev pub release_floor : ℕ → Server → Server
release_floor id s = record s { floors = remove id s.floors }

-- `uint16(s.nextTxID.Add(1))`, and the server behind it.
unfoldable pub take_tx_id : Server → Server × ℕ
take_tx_id s = let n = (s.next_tx_id + 1) % 4294967296 in (record s { next_tx_id = n }, u16 n)

-- A write to a session object.
unfoldable pub update_session : ℕ → (SessionStateMachine → SessionStateMachine) → Server → Server
update_session p g s = elim (lookup p s.objects) [
  | some sess ↦ record s { objects = insert p (record sess { machine = g sess.machine }) s.objects }
  | none ↦ s
]
