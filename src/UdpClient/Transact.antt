-- ===== src/UdpClient/Transact.antt =====
-- `transact` of udpclient.go. A script says what happens during each attempt, while the client
-- waits for the response; at the end of what it says, the timer fires. The `select` takes a response
-- as soon as it is in the channel.
use bfcp.Base.{ℕ, zero, suc, ◌*◌, if◌then◌else◌, Bool, Option, none, some, List, [], ◌∷◌, nat_eq}
use bfcp.Base.Dict.{lookup, insert, remove}
use bfcp.Base.Result.{Result, ok, err}
use bfcp.Message.{Message}
use bfcp.Transport.Udp.{SendError}
use bfcp.UdpClient.{UdpClient, Env, timer, emit, send, handle_message, close}

pub data Happening : Type 0 where
  received : Env → Message → Happening
  closes : Happening

-- `writes` tells whether the socket takes the request.
pub record Attempt : Type 0 where
  pub writes : Bool
  pub meanwhile : List Happening

pub data TransactError : Type 0 where
  client_closed closed_while_waiting no_response : TransactError
  send_failed : SendError → TransactError

pub data Waited : Type 0 where
  answered : Message → Waited
  gave_up timed_out : Waited

-- The channel of the transaction, when it is pending.
abbrev pub slot : (tx : ℕ) → UdpClient → Option Message
slot tx c = elim (lookup tx c.pending) [ some o ↦ o | none ↦ none ]

abbrev pub or_else : Option Message → UdpClient × Waited → UdpClient → UdpClient × Waited
or_else (some response) later c = (c, answered response)
or_else none later c = later

-- The `select` of an attempt.
unfoldable pub wait_for : (tx : ℕ) → List Happening → UdpClient → UdpClient × Waited
wait_for tx [] c = (c, timed_out)
wait_for tx (closes ∷ later) c = (close c, gave_up)
wait_for tx (received env m ∷ later) c =
    let c' = handle_message env m c in or_else (slot tx c') (wait_for tx later c') c'

abbrev pub open_transaction : (tx : ℕ) → UdpClient → UdpClient
open_transaction tx c = record c { pending = insert tx none c.pending }

abbrev pub end_transaction : (tx : ℕ) → UdpClient → UdpClient
end_transaction tx c = record c { pending = remove tx c.pending }

-- What follows the `select`: the timer leads to the next attempt.
abbrev pub after_wait :
    (retry : UdpClient → UdpClient × Result TransactError Message)
    → UdpClient × Waited
    → UdpClient × Result TransactError Message
after_wait retry (c, answered response) = (c, ok response)
after_wait retry (c, gave_up) = (c, err closed_while_waiting)
after_wait retry (c, timed_out) = retry c

abbrev pub after_send :
    (tx wait : ℕ)
    → List Happening
    → (retry : UdpClient → UdpClient × Result TransactError Message) → UdpClient
    → Result SendError UdpClient
    → UdpClient × Result TransactError Message
after_send tx wait meanwhile retry c (err e) = (c, err (send_failed e))
after_send tx wait meanwhile retry c (ok c') =
    after_wait retry (wait_for tx meanwhile (emit (timer wait) c'))

-- `left` attempts are left, and `n` are made.
unfoldable pub attempts :
    (script : ℕ → Attempt)
    → (left n wait : ℕ) → Message
    → UdpClient
    → UdpClient × Result TransactError Message
unfolding wait_for
attempts script zero n wait m c = (c, err no_response)
attempts script (suc left) n wait m c =
    after_send m.transaction_id wait (script n).meanwhile
      (attempts script left (suc n) (wait * 2) m) c (send (script n).writes m c)

-- The deferred call ends the transaction whatever came of it.
abbrev pub ended :
    (tx : ℕ) → UdpClient × Result TransactError Message → UdpClient × Result TransactError Message
ended tx (c, r) = (end_transaction tx c, r)

unfoldable pub transact :
    (script : ℕ → Attempt) → Message → UdpClient → UdpClient × Result TransactError Message
unfolding attempts
transact script m c =
    if c.is_closed
    then (c, err client_closed)
    else ended m.transaction_id
        (attempts script c.config.max_retries 0 c.config.t1 m (open_transaction m.transaction_id c))
