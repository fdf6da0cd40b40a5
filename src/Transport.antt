-- ===== src/Transport.antt =====
-- `Transport`, `UDPTransport` and the listeners of transport.go. A TCP connection is the list of what
-- its reads meet; the list ends where the peer or `Close` ends the connection, which the loop takes
-- alike. `OnMessage`, `OnError` and `OnClose` are the events of the loop, in order.
pub mod Loop
pub mod Delivery
pub mod Ports
pub mod Udp
mod Tests
use bfcp.Base.{ℕ, zero, suc, List, [], ◌∷◌, ◌++◌, length}
use bfcp.Types.Protocol
use bfcp.Base.Result.{Result, ok, err}
use bfcp.Message.{Message}
use bfcp.Message.Decode.{DecodeError, decode}
use bfcp.Message.Read.{payload_size}

-- One octet, the read deadline of five seconds, or another error of the connection.
pub data Input : Type 0 where
  octet : ℕ → Input
  timeout reset : Input

-- What `io.ReadFull` comes to: the octets, or the error that it stops at. The octets that were read
-- before the error are not handed back.
pub data Full : Type 0 where
  full : (octets : List ℕ) → (rest : List Input) → Full
  timed_out : (rest : List Input) → Full
  was_reset at_end : Full

abbrev pub push : ℕ → Full → Full
push b (full bs rest) = full (b ∷ bs) rest
push b (timed_out rest) = timed_out rest
push b was_reset = was_reset
push b at_end = at_end

unfoldable pub read_full : ℕ → List Input → Full
read_full zero inputs = full [] inputs
read_full (suc n) [] = at_end
read_full (suc n) (timeout ∷ inputs) = timed_out inputs
read_full (suc n) (reset ∷ inputs) = was_reset
read_full (suc n) (octet b ∷ inputs) = push b (read_full n inputs)

-- `stuck` is no Go value: the loop ran out of fuel.
pub data Event : Type 0 where
  on_message : Message → Event
  on_read_error on_close stuck : Event
  on_decode_error : DecodeError → Event

-- One call of `ReadMessage` on the connection.
pub data Round : Type 0 where
  message : Message → (rest : List Input) → Round
  again : (rest : List Input) → Round
  ends : (errors : List Event) → Round

abbrev pub decoded : (rest : List Input) → Result DecodeError Message → Round
decoded rest (ok m) = message m rest
decoded rest (err e) = ends (on_decode_error e ∷ [])

abbrev pub after_payload : (header : List ℕ) → Full → Round
after_payload header (full payload rest) = decoded rest (decode (header ++ payload))
after_payload header (timed_out rest) = again rest
after_payload header was_reset = ends (on_read_error ∷ [])
after_payload header at_end = ends []

abbrev pub after_header : Full → Round
after_header (full header rest) = after_payload header (read_full (payload_size header) rest)
after_header (timed_out rest) = again rest
after_header was_reset = ends (on_read_error ∷ [])
after_header at_end = ends []

unfoldable pub read_round : List Input → Round
unfolding read_full
read_round inputs = after_header (read_full Protocol.common_header_length inputs)

-- `readLoop`: a deadline makes it try again. The deferred call closes the transport.
unfoldable pub read_loop : (fuel : ℕ) → List Input → List Event
read_loop zero inputs = stuck ∷ []
read_loop (suc fuel) inputs = elim (read_round inputs) [
  | message m rest ↦ on_message m ∷ read_loop fuel rest
  | again rest ↦ read_loop fuel rest
  | ends errors ↦ errors ++ (on_close ∷ [])
]

-- A round takes an input at least, or ends the loop.
unfoldable pub run_connection : List Input → List Event
unfolding read_loop
run_connection inputs = read_loop (suc (length inputs)) inputs
