-- ===== src/Lib.antt =====
-- A model of the Go library bfcp, which implements the Binary Floor Control Protocol of RFC 8855:
-- a server and clients that share floors, such as the right to present in a conference.
--
-- The parts and their files (paths are from the repository's root):
--   types.go              Types: the numbers of the protocol.
--   state.go              Floor: `FloorStateMachine`, one record, each method a function from the
--                         record to the new one and the error. Floor/Spec is its specification,
--                         Floor/Runs what holds over sequences of calls.
--                         Queue: `FloorRequestQueue`, a list; Queue/Order, Fifo, Position and
--                         Runs are its theorems. Session: `SessionStateMachine`.
--   message.go            Message: the record and the `Add` methods; Message/Tlv the builders of
--                         pre-encoded attributes, Message/Encode and Message/Decode the codec,
--                         Message/Read the framing over a stream, Message/Fields the getters.
--                         Message/Wire, RoundTrip, Total, Framing, Status and Announce are the
--                         theorems.
--   grouped.go            Message/Grouped: the parser of FLOOR-REQUEST-INFORMATION.
--   server.go             Server: the state and its lookups; Server/Send what is sent,
--                         Server/Request, Release, Hello the handlers, Server/Dispatch the switch,
--                         the connections and the datagrams, Server/Register
--                         `RegisterClient` and `BroadcastFloorState`. Of the theorems, Server/Frame,
--                         Evolve, Acts, Safety and Application are on the floors, Server/Answers on
--                         what is sent.
--   transport.go          Transport: the read loop of a TCP connection; Transport/Ports the listeners
--                         over a range of ports, Transport/Udp the UDP transports. Transport/Loop and
--                         Delivery are the theorems on the loop.
--   client.go             Client: the state and the messages of the server; Client/Calls the calls,
--                         Client/Runs any sequence of both. Client/Settled, Stale and Grant are the
--                         theorems; Exchange is a request with its response, and Response the
--                         server's statuses as they arrive.
--   udpclient.go          UdpClient: the state and the messages of the server; UdpClient/Transact the
--                         retransmissions, UdpClient/Calls the calls, UdpClient/Runs any sequence of
--                         both. UdpClient/Steps and CallSteps break a run into small steps, over
--                         which Kept and Safety go by induction; Waiting, Idle, Retry, Acks,
--                         TransactionIds and Association are the other theorems.
--   virtual/manager.go    Virtual/Pool: `UserIDPool`. Virtual/Manager: the clients of a `Manager`.
--   virtual/client.go     Virtual/Client: the hooks and the calls over the client of Client.
-- Base has what the parts share: octets, maps, Boolean tests, lists over the native numbers.
--
-- How they interact. The server decodes messages (Message), keeps a floor state machine for each
-- floor ID and a session for each remote address, and answers with messages whose attributes the
-- builders of Message/Tlv encode. A handler is a function from the server's state to the next; what
-- it sends, and the hooks of the application that it calls, it writes to a log. A handler is one
-- step (Server/Safety), but a TCP floor request, which sleeps before it grants, is two steps with any
-- others in between, also a deletion of the floor that it keeps a pointer to; Server/Application adds
-- the other calls of the application. Go may also switch between handlers where one takes a lock anew; for a single
-- floor, Floor/Runs is about every order of calls.
--
-- A client draws a transaction ID, sends a message and waits for a message under the same ID, which
-- another goroutine, the read loop, puts into a channel. A call of a client is one function; a script,
-- its argument, says what the transport does and which messages arrive while the call waits, in what
-- order. So all that happens during a call is explicit, but for two calls at the same time. A client
-- and a server meet in Client/Grant and UdpClient/Association: the server's messages go to the client as
-- octets, through `Encode` and `Decode`. The virtual client gets the events of the client under it,
-- and `RequestFloor`, which holds a lock that the hooks want, either returns or blocks.
--
-- Numbers are natural numbers, with the wrap-around of Go's types written out where a value can
-- reach it: `% 256` in an octet, `% 65536` in a transaction ID or an ID counter. An octet string is
-- a list of numbers; where a theorem needs them below 256 it says so.
--
-- Fuel. The loop of `Decode` takes two octets a round and has the payload's length as fuel; the
-- loop of `parseTLVs` has its input's length. The loop of `Allocate` takes its fuel as an
-- argument, since it need not end. The read loop of a connection takes an input a round or ends, and
-- has the number of inputs and one more as fuel. `transact` makes as many attempts as the
-- configuration says.
--
-- Not modelled: sockets, deadlines on writes, keepalive, the accept loop and the loop that reads
-- datagrams (transport.go); the getters of virtual/manager.go and `Connect` of virtual/client.go; the
-- logger and the examples, which the parts above do not depend on; the String methods;
-- `AddGroupedAttribute`; and of server.go the listeners, `Close` and the hand-over of a datagram to a
-- registered `UDPClient`. Durations have no upper bound. A channel that is closed while the read
-- loop is about to write to it is not modelled either. A send of the server that fails only omits a hook
-- that observes. The hooks `OnMessageIn`, `OnMessageOut` and `OnError` of the server only observe. Go
-- visits a map in any order; the model takes that of a list, and every theorem holds for all lists.
pub mod Base
pub mod Types
pub mod Floor
pub mod Queue
pub mod Message
pub mod Virtual
pub mod Session
pub mod Server
pub mod Transport
pub mod Client
pub mod UdpClient
