-- ===== src/Transport/Udp.antt =====
-- `UDPTransport` and `UDPListener` of transport.go. The transports stand in a store under a number,
-- their pointer; the map `sessions` takes a remote address to a pointer.
use bfcp.Base.{ℕ, Bool, true, false, if◌then◌else◌, Option, none, some, List, nat_eq}
use bfcp.Base.Dict.{lookup, insert, remove}
use bfcp.Base.Result.{Result, ok, err}
use bfcp.Message.{Message}
use bfcp.Message.Encode.{encode}

pub record UdpTransport : Type 0 where
  pub remote_addr : Option ℕ
  pub is_closed : Bool

pub data SendError : Type 0 where
  transport_closed no_remote_address encode_failed write_failed : SendError

abbrev written : (writes : Bool) → (remote : ℕ) → List ℕ → Result SendError (ℕ × List ℕ)
written true remote octets = ok (remote, octets)
written false remote octets = err write_failed

-- `SendMessage`: the datagram, or the error. `writes` tells whether the socket takes it.
unfoldable pub send_message :
    (writes : Bool) → Message → UdpTransport → Result SendError (ℕ × List ℕ)
send_message writes m t = if t.is_closed then err transport_closed else elim t.remote_addr [
  | none ↦ err no_remote_address
  | some remote ↦ elim (encode m) [
    | none ↦ err encode_failed
    | some (_, octets) ↦ written writes remote octets
  ]
]

pub record UdpListener : Type 0 where
  pub is_closed : Bool
  pub objects : List (ℕ × UdpTransport)
  pub sessions : List (ℕ × ℕ)

abbrev pub new_udp_transport : (remote : ℕ) → UdpTransport
new_udp_transport remote = record { remote_addr = some remote; is_closed = false }

-- `getOrCreateTransport`: `fresh` is the pointer of a new transport.
unfoldable pub get_or_create_transport : (fresh remote : ℕ) → UdpListener → UdpListener × ℕ
get_or_create_transport fresh remote l = elim (lookup remote l.sessions) [
  | some p ↦ (l, p)
  | none ↦ (
    record l {
      objects = insert fresh (new_udp_transport remote) l.objects;
      sessions = insert remote fresh l.sessions;
    },
    fresh,
  )
]

unfoldable pub remove_transport : (remote : ℕ) → UdpListener → UdpListener
remove_transport remote l = record l { sessions = remove remote l.sessions }
