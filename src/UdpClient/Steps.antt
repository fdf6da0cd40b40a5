-- ===== src/UdpClient/Steps.antt =====
-- The changes that a client of udpclient.go is made of, and what a script of calls and messages does
-- in terms of them.
use bfcp.Base.{
  ℕ, ◌==◌, if◌then◌else◌, Bool, Bool-cases, true, false, Option, Option-cases, none, some, inl, inr,
  List, [], ◌∷◌, nat_eq,
}
use bfcp.Base.Dict.{lookup, insert}
use bfcp.Base.Result.{Result, ok, err}
use bfcp.Types.Primitive
use bfcp.Message.{Message, new_message, set_response}
use bfcp.Message.Grouped.{FloorRequestInfo, FloorRequestStatusInfo, floor_request_infos, status_of}
use bfcp.Message.Fields.{get_floor_id, get_error_code, get_error_info}
use bfcp.Transport.Udp.{SendError, send_message}
use bfcp.UdpClient.{
  Event, sent, timer, on_floor_status, on_error, UdpClient, Env, emit, send, versioned, ack,
  acknowledgement, apply_own_status, own_request, notify_floors, beneficiary_of, notify_status,
  notify_infos, notify_free, notify, sent_by, or_same, handle_notification, handle_unsolicited,
  deliver, handle_message, close,
}
use bfcp.UdpClient.Calls.{add_request, forget_request}
use bfcp.UdpClient.Transact.{end_transaction}

-- An event that tells the application nothing of a request of its own.
-- `A` tells under which transaction IDs something is sent.
pub data IsQuiet (A : ℕ → Type 0) : Event → Type 0 where
  sends : (m : Message) → A m.transaction_id → IsQuiet A (sent m)
  waits : (wait : ℕ) → ((t : ℕ) → A t) → IsQuiet A (timer wait)
  observes : (fid beneficiary status : ℕ) → IsQuiet A (on_floor_status fid beneficiary status)
  reports : (code : Option ℕ) (info : Option (List ℕ)) → IsQuiet A (on_error code info)

-- `A` tells also which transactions are begun, answered or ended.
pub data Step (A : ℕ → Type 0) (c : UdpClient) : UdpClient → Type 0 where
  quietly : (e : Event) → IsQuiet A e → Step A c (emit e c)
  told : (now fid rid status : ℕ) → Step A c (apply_own_status now fid rid status c)
  opens :
      (tx : ℕ) (o : Option Message) → A tx → Step A c (record c { pending = insert tx o c.pending })
  ends : (tx : ℕ) → A tx → Step A c (end_transaction tx c)
  asks :
      (now fid rid status : ℕ)
      → Step A c (apply_own_status now fid rid status (add_request now fid rid status c))
  forgets : (fid : ℕ) → Step A c (forget_request fid c)
  draws : (n : ℕ) → Step A c (record c { next_tx_id = n })
  shuts : Step A c (close c)

pub data Steps (A : ℕ → Type 0) (c : UdpClient) : UdpClient → Type 0 where
  start : Steps A c c
  next : {d d' : UdpClient} → Steps A c d → Step A d d' → Steps A c d'

pub one : {A : ℕ → Type 0} {c d : UdpClient} → Step A c d → Steps A c d
one s = next start s

pub Steps-trans : {A : ℕ → Type 0} {c d e : UdpClient} → Steps A c d → Steps A d e → Steps A c e
Steps-trans r start = r
Steps-trans r (next s a) = next (Steps-trans r s) a

-- What was sent is one step on; what was not sent changes nothing.
abbrev pub SentFrom : (ℕ → Type 0) → UdpClient → Result SendError UdpClient → Type 0
SentFrom A c (ok d) = Steps A c d
SentFrom A c (err e) = Unit {0}

sent_by-SentFrom :
    (A : ℕ → Type 0) (c : UdpClient) (m : Message) (r : Result SendError (ℕ × List ℕ))
    → A m.transaction_id
    → SentFrom A c (sent_by c m r)
sent_by-SentFrom A c m (ok _) a = one (quietly (sent m) (sends m a))
sent_by-SentFrom A c m (err e) a = tt

pub send-SentFrom :
    (A : ℕ → Type 0) (writes : Bool) (m : Message) (c : UdpClient)
    → A m.transaction_id
    → SentFrom A c (send writes m c)
unfolding send
send-SentFrom A writes m c a =
    sent_by-SentFrom A c (versioned m c) (send_message writes (versioned m c) c.transport) a

or_same-Steps :
    {A : ℕ → Type 0} (c : UdpClient) (r : Result SendError UdpClient)
    → SentFrom A c r
    → Steps A c (or_same c r)
or_same-Steps c (ok d) h = h
or_same-Steps c (err e) h = start

ack-Steps :
    {A : ℕ → Type 0} (env : Env) (m : Message) (prim : ℕ) (c : UdpClient)
    → A m.transaction_id
    → Steps A c (ack env m prim c)
unfolding ack
ack-Steps {A = A} env m prim c h =
    let a = acknowledgement m prim c in
    or_same-Steps c (send env.writes a c)
      (send-SentFrom A env.writes a c (unfold set_response new_message in h))

notify_floors-Steps :
    {A : ℕ → Type 0} (now rid b s : ℕ) (fls : List FloorRequestStatusInfo) (c : UdpClient)
    → Steps A c (notify_floors now rid b s fls c)
notify_floors-Steps now rid b s [] c = start
notify_floors-Steps now rid b s (fl ∷ fls) c = elim (Bool-cases (own_request fl.floor_id rid b c)) [
  | inl x ↦ rw x (
      Steps-trans (one (told now fl.floor_id rid s))
        (notify_floors-Steps now rid b s fls (apply_own_status now fl.floor_id rid s c)))
  | inr x ↦ rw x (
      Steps-trans (one (quietly (on_floor_status fl.floor_id b s) (observes fl.floor_id b s)))
        (notify_floors-Steps now rid b s fls (emit (on_floor_status fl.floor_id b s) c)))
]

notify_status-Steps :
    {A : ℕ → Type 0} (now : ℕ) (info : FloorRequestInfo) (o : Option ℕ) (c : UdpClient)
    → Steps A c (notify_status now info o c)
notify_status-Steps now info none c = start
notify_status-Steps now info (some s) c =
    notify_floors-Steps now info.floor_request_id (beneficiary_of info) s info.floors c

notify_infos-Steps :
    {A : ℕ → Type 0} (now : ℕ) (infos : List FloorRequestInfo) (c : UdpClient)
    → Steps A c (notify_infos now infos c)
notify_infos-Steps now [] c = start
notify_infos-Steps now (info ∷ infos) c =
    Steps-trans (notify_status-Steps now info (status_of info) c)
      (notify_infos-Steps now infos (notify_status now info (status_of info) c))

notify_free-Steps :
    {A : ℕ → Type 0} (m : Message) (o : Option ℕ) (c : UdpClient) → Steps A c (notify_free m o c)
notify_free-Steps m none c = start
notify_free-Steps m (some fid) c = elim (Bool-cases (m.primitive == Primitive.floor_status)) [
  | inl x ↦ rw x (one (quietly (on_floor_status fid 0 6) (observes fid 0 6)))
  | inr x ↦ rw x start
]

pub notify-Steps :
    {A : ℕ → Type 0} (now : ℕ) (m : Message) (infos : List FloorRequestInfo) (c : UdpClient)
    → Steps A c (notify now m infos c)
notify-Steps now m [] c = notify_free-Steps m (get_floor_id m) c
notify-Steps now m (info ∷ infos) c = notify_infos-Steps now (info ∷ infos) c

if-Steps :
    {A : ℕ → Type 0} (b : Bool) {c d e : UdpClient}
    → Steps A c d
    → Steps A c e
    → Steps A c (if b then d else e)
if-Steps true h k = h
if-Steps false h k = k

acked-Steps :
    {A : ℕ → Type 0} (env : Env) (m : Message) (prim : ℕ) (c : UdpClient)
    → A m.transaction_id
    → Steps A c (ack env m prim (handle_notification env.now m c))
unfolding handle_notification
acked-Steps env m prim c h =
    Steps-trans (notify-Steps env.now m (floor_request_infos m) c)
      (ack-Steps env m prim (handle_notification env.now m c) h)

handle_unsolicited-Steps :
    {A : ℕ → Type 0} (env : Env) (m : Message) (c : UdpClient)
    → A m.transaction_id
    → Steps A c (handle_unsolicited env m c)
unfolding handle_unsolicited
handle_unsolicited-Steps env m c h =
    let code = get_error_code m in
    let info = get_error_info m in
    if-Steps (m.primitive == Primitive.floor_request_status)
      (acked-Steps env m Primitive.floor_request_status_ack c h)
      (if-Steps (m.primitive == Primitive.floor_status)
        (acked-Steps env m Primitive.floor_status_ack c h)
        (if-Steps (m.primitive == Primitive.goodbye) (ack-Steps env m Primitive.goodbye_ack c h) (
          if-Steps (m.primitive == Primitive.error)
            (one (quietly (on_error code info) (reports code info))) start)))

deliver-Steps :
    {A : ℕ → Type 0} (o : Option Message) (m : Message) (c : UdpClient)
    → A m.transaction_id
    → Steps A c (deliver o m c)
deliver-Steps none m c a = one (opens m.transaction_id (some m) a)
deliver-Steps (some r) m c a = start

pub handle_message-Steps :
    {A : ℕ → Type 0} (env : Env) (m : Message) (c : UdpClient)
    → A m.transaction_id
    → Steps A c (handle_message env m c)
unfolding handle_message
handle_message-Steps env m c a = elim (Option-cases (lookup m.transaction_id c.pending)) [
  | inl x ↦ rw (x, handle_message) (handle_unsolicited-Steps env m c a)
  | inr (o, x) ↦ rw (x, handle_message) (deliver-Steps o m c a)
]
