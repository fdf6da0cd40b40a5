-- ===== src/UdpClient/Runs.antt =====
-- Runs of a client of udpclient.go: any calls of the application and messages of the server, one
-- after the other, messages also during the calls.
use bfcp.Base.{ℕ, ◌==◌, not, Option, Option-cases, none, some, inl, inr, List, [], ◌∷◌, nat_eq}
use bfcp.Base.Dict.{lookup}
use bfcp.Base.Result.{Result, ok, err}
use bfcp.Types.Primitive
use bfcp.Message.{Message, add_floor_id, add_floor_request_id}
use bfcp.Message.Fields.{get_floor_request_id, get_request_status}
use bfcp.UdpClient.{UdpClient, Env, next_transaction_id, handle_message, close}
use bfcp.UdpClient.Transact.{Attempt, TransactError, transact}
use bfcp.UdpClient.Calls.{
  unexpected, response_error, request_message, hello_message, after_hello, hello, take_status,
  after_request, request_floor, after_release, release_floor, goodbye,
}
use bfcp.UdpClient.CallSteps.{if_first-Steps, transact-Steps}
use bfcp.UdpClient.Steps.{
  Steps, start, next, one, Steps-trans, asks, forgets, draws, shuts, handle_message-Steps,
}

pub data Call : Type 0 where
  says_hello says_goodbye : (script : ℕ → Attempt) → Call
  requests : (script : ℕ → Attempt) → (now floor : ℕ) → Call
  releases : (script : ℕ → Attempt) → (floor : ℕ) → Call
  receives : Env → Message → Call
  closes_down : Call

unfoldable pub perform : Call → UdpClient → UdpClient
unfolding hello request_floor release_floor goodbye handle_message close
perform (says_hello script) c = (hello script c).0
perform (says_goodbye script) c = goodbye script c
perform (requests script now fid) c = (request_floor script now fid c).0
perform (releases script fid) c = (release_floor script fid c).0
perform (receives env m) c = handle_message env m c
perform closes_down c = close c

unfoldable pub perform_all : List Call → UdpClient → UdpClient
unfolding perform
perform_all [] c = c
perform_all (call ∷ calls) c = perform_all calls (perform call c)

-- Under any transaction ID.
abbrev pub Every : ℕ → Type 0
Every t = Unit {0}

after_hello-Steps :
    (c : UdpClient) (r : UdpClient × Result TransactError Message)
    → Steps Every c r.0
    → Steps Every c (after_hello r).0
after_hello-Steps c (d, err e) h = h
after_hello-Steps c (d, ok m) h =
    if_first-Steps (m.primitive == Primitive.error) (d, err (response_error m)) _ h
      (if_first-Steps (not (m.primitive == Primitive.hello_ack)) (d, err (unexpected m.primitive))
        (d, ok tt) h h)

take_status-Steps :
    (now fid : ℕ) (o : Option ℕ) (p : Option (ℕ × ℕ)) (c : UdpClient)
    → Steps Every c (take_status now fid o p c).0
take_status-Steps now fid none p c = start
take_status-Steps now fid (some rid) none c = start
take_status-Steps now fid (some rid) (some (s, q)) c = one (asks now fid rid s)

after_request-Steps :
    (now fid : ℕ) (c : UdpClient) (r : UdpClient × Result TransactError Message)
    → Steps Every c r.0
    → Steps Every c (after_request now fid r).0
after_request-Steps now fid c (d, err e) h = h
after_request-Steps now fid c (d, ok m) h =
    if_first-Steps (m.primitive == Primitive.error) (d, err (response_error m)) _ h
      (if_first-Steps (not (m.primitive == Primitive.floor_request_status))
        (d, err (unexpected m.primitive)) _ h
        (Steps-trans h
          (take_status-Steps now fid (get_floor_request_id m) (get_request_status m) d)))

after_release-Steps :
    (fid : ℕ) (c : UdpClient) (r : UdpClient × Result TransactError Message)
    → Steps Every c r.0
    → Steps Every c (after_release fid r).0
after_release-Steps fid c (d, err e) h = h
after_release-Steps fid c (d, ok m) h =
    if_first-Steps (m.primitive == Primitive.error) (d, err (response_error m)) _ h
      (next h (forgets fid))

draw-Steps : (c : UdpClient) → Steps Every c (next_transaction_id c).0
unfolding next_transaction_id
draw-Steps c = one (draws _)

-- A call draws a transaction ID for its message.
abbrev drawn :
    (script : ℕ → Attempt)
    → (build : ℕ → UdpClient → Message) → UdpClient
    → UdpClient × Result TransactError Message
drawn script build c = let (d, tx) = next_transaction_id c in transact script (build tx d) d

drawn-Steps :
    (script : ℕ → Attempt) (build : ℕ → UdpClient → Message) (c : UdpClient)
    → Steps Every c (drawn script build c).0
drawn-Steps script build c =
    let (d, tx) = next_transaction_id c in
    Steps-trans (draw-Steps c) (transact-Steps script (build tx d) d (λ t. tt))

abbrev request_of : (fid tx : ℕ) → UdpClient → Message
request_of fid tx d = add_floor_id fid (request_message Primitive.floor_request tx d)

abbrev release_of : (rid tx : ℕ) → UdpClient → Message
release_of rid tx d = add_floor_request_id rid (request_message Primitive.floor_release tx d)

release_floor-Steps :
    (script : ℕ → Attempt) (fid : ℕ) (c : UdpClient) → Steps Every c (release_floor script fid c).0
unfolding release_floor
release_floor-Steps script fid c = elim (Option-cases (lookup fid c.active_requests)) [
  | inl x ↦ rw (x, release_floor) start
  | inr (req, x) ↦
      let build = release_of req.floor_request_id in
      rw (x, release_floor)
        (after_release-Steps fid c (drawn script build c) (drawn-Steps script build c))
]

pub perform-Steps : (call : Call) (c : UdpClient) → Steps Every c (perform call c)
unfolding perform hello request_floor goodbye
perform-Steps (says_hello script) c =
    after_hello-Steps c (drawn script hello_message c) (drawn-Steps script hello_message c)
perform-Steps (says_goodbye script) c = drawn-Steps script (request_message Primitive.goodbye) c
perform-Steps (requests script now fid) c =
    after_request-Steps now fid c (drawn script (request_of fid) c)
      (drawn-Steps script (request_of fid) c)
perform-Steps (releases script fid) c = release_floor-Steps script fid c
perform-Steps (receives env m) c = handle_message-Steps env m c tt
perform-Steps closes_down c = one shuts

pub perform_all-Steps : (calls : List Call) (c : UdpClient) → Steps Every c (perform_all calls c)
unfolding perform_all
perform_all-Steps [] c = start
perform_all-Steps (call ∷ calls) c =
    Steps-trans (perform-Steps call c) (perform_all-Steps calls (perform call c))
