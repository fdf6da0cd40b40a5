-- ===== src/UdpClient/Acks.antt =====
-- What a client of udpclient.go sends back for a message of the server.
use bfcp.Base.{
  ℕ, ◌==◌, if◌then◌else◌, Bool, true, false, Option, none, some, ◌≡◌, refl, sym, ap, ◌∙◌, List, [],
  ◌∷◌, ◌++◌, append-nil, nat_eq,
}
use bfcp.Base.Dict.{lookup}
use bfcp.Types.Primitive
use bfcp.Message.{Message, new_message, set_response}
use bfcp.Transport.Udp.{send_message}
use bfcp.Message.Fields.{get_error_code, get_error_info}
use bfcp.Message.Grouped.{floor_request_infos}
use bfcp.UdpClient.{
  Event, UdpClientConfig, sent, on_error, UdpClient, Env, emit, versioned, acknowledgement, send,
  ack, or_same, handle_notification, handle_unsolicited, handle_message,
}
use bfcp.UdpClient.Steps.{notify-Steps}
use bfcp.UdpClient.Kept.{copies, IsKept, IsKept-refl, if-IsKept, emit-IsKept, Steps-IsKept}
use bfcp.UdpClient.Waiting.{CanSend, send-ok}

-- The acknowledgement that a message of the server asks for.
abbrev pub ack_primitive : (primitive : ℕ) → Option ℕ
ack_primitive p =
    if p == Primitive.floor_request_status
    then some Primitive.floor_request_status_ack
    else if p == Primitive.floor_status
    then some Primitive.floor_status_ack
    else if p == Primitive.goodbye
    then some Primitive.goodbye_ack
    else none

abbrev pub acks : Message → Option ℕ → UdpClient → List Event
acks m (some p) c = sent (versioned (acknowledgement m p c) c) ∷ []
acks m none c = []

-- Between the two states the client sends these messages, and no others.
pub record Sends (c : UdpClient) (last : List Event) (d : UdpClient) : Type 0 where
  pub before : List Event
  pub in_order : d.log ≡ before ++ last
  pub nothing_else : (tx : ℕ) → copies tx before ≡ copies tx c.log

handle_notification-IsKept :
    (tx now : ℕ) (m : Message) (c : UdpClient) → IsKept tx c (handle_notification now m c)
unfolding handle_notification
handle_notification-IsKept tx now m c =
    Steps-IsKept {A = λ t. ⊥} tx (λ t a. absurd a) (notify-Steps now m (floor_request_infos m) c)

-- An acknowledgement depends on the settings only.
abbrev ack_of : Message → (primitive : ℕ) → UdpClientConfig → Message
ack_of m prim config =
    record (set_response true (new_message prim m.conference_id m.transaction_id config.user_id)) {
      version = config.version;
    }

ack-Sends :
    (env : Env) (m : Message) (prim : ℕ) (c d : UdpClient)
    → env.writes ≡ true
    → CanSend (acknowledgement m prim c) c
    → ((tx : ℕ) → IsKept tx c d)
    → Sends c (acks m (some prim) c) (ack env m prim d)
unfolding ack
ack-Sends env m prim c d writes (x, can) kept =
    let k = kept 0 in
    let same : ack_of m prim d.config ≡ ack_of m prim c.config = ap (ack_of m prim) k.same_config in
    let able : CanSend (acknowledgement m prim d) d = (
      x,
      ap (λ a. send_message true a d.transport) same
          ∙ ap (send_message true (ack_of m prim c.config)) k.same_transport
          ∙ can,
    ) in
    let done : ack env m prim d ≡ emit (sent (ack_of m prim d.config)) d = ap (or_same d) (
      ap (λ w. send w (acknowledgement m prim d) d) writes
      ∙ send-ok (acknowledgement m prim d) d able) in
    record {
      before = d.log;
      in_order = ap (λ e. e.log) done ∙ ap (λ a. d.log ++ (sent a ∷ [])) same;
      nothing_else = λ tx. (kept tx).same_copies;
    }

quiet-Sends : (c d : UdpClient) → ((tx : ℕ) → IsKept tx c d) → Sends c [] d
quiet-Sends c d kept = record {
  before = d.log;
  in_order = sym (append-nil d.log);
  nothing_else = λ tx. (kept tx).same_copies;
}

abbrev pub CanAck : Message → Option ℕ → UdpClient → Type 0
CanAck m none c = Unit {0}
CanAck m (some p) c = CanSend (acknowledgement m p c) c

if-Sends :
    (b : Bool) (m : Message) (c : UdpClient) {d d' : UdpClient} (o o' : Option ℕ)
    → (CanAck m o c → Sends c (acks m o c) d)
    → (CanAck m o' c → Sends c (acks m o' c) d')
    → CanAck m (if b then o else o') c
    → Sends c (acks m (if b then o else o') c) (if b then d else d')
if-Sends true m c o o' h k can = h can
if-Sends false m c o o' h k can = k can

handle_unsolicited-Sends :
    (env : Env) (m : Message) (c : UdpClient)
    → env.writes ≡ true
    → CanAck m (ack_primitive m.primitive) c
    → Sends c (acks m (ack_primitive m.primitive) c) (handle_unsolicited env m c)
unfolding handle_unsolicited
handle_unsolicited-Sends env m c writes =
    let d = handle_notification env.now m c in
    let told : (tx : ℕ) → IsKept tx c d = λ tx. handle_notification-IsKept tx env.now m c in
    let failed = on_error (get_error_code m) (get_error_info m) in
    if-Sends (m.primitive == Primitive.floor_request_status) m c
      (some Primitive.floor_request_status_ack) _
      (λ can. ack-Sends env m Primitive.floor_request_status_ack c d writes can told)
      (if-Sends (m.primitive == Primitive.floor_status) m c (some Primitive.floor_status_ack) _
        (λ can. ack-Sends env m Primitive.floor_status_ack c d writes can told)
        (if-Sends (m.primitive == Primitive.goodbye) m c (some Primitive.goodbye_ack) none
          (λ can. ack-Sends env m Primitive.goodbye_ack c c writes can (λ tx. IsKept-refl tx c))
          (λ can. quiet-Sends c _ (λ tx.
            if-IsKept (m.primitive == Primitive.error) (emit-IsKept tx failed c refl refl)
              (IsKept-refl tx c)))))

-- A message of the server that no transaction waits for is acknowledged once. A FloorRequestStatus, a
-- FloorStatus and a Goodbye are answered by their acknowledgement, with the message's transaction and
-- conference ID and the R flag, and by no other message, however many requests and floors the
-- message reports on; to any other message nothing is sent. The socket has to take the
-- acknowledgement.
pub handle_message-Sends :
    (env : Env) (m : Message) (c : UdpClient)
    → lookup m.transaction_id c.pending ≡ none
    → env.writes ≡ true
    → CanAck m (ack_primitive m.primitive) c
    → Sends c (acks m (ack_primitive m.primitive) c) (handle_message env m c)
unfolding handle_message
handle_message-Sends env m c free writes can =
    rw (free, handle_message) (handle_unsolicited-Sends env m c writes can)
