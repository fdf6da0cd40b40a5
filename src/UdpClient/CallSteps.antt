-- ===== src/UdpClient/CallSteps.antt =====
-- The steps of a call of udpclient.go: the wait for a response, the attempts, and the transaction.
use bfcp.Base.{
  ℕ, zero, suc, ◌*◌, if◌then◌else◌, Bool, true, false, Option, none, some, List, [], ◌∷◌, nat_eq,
}
use bfcp.Base.Result.{Result, ok, err}
use bfcp.Message.{Message}
use bfcp.Transport.Udp.{SendError}
use bfcp.UdpClient.{timer, UdpClient, emit, send, handle_message}
use bfcp.UdpClient.Transact.{
  Happening, received, closes, Attempt, TransactError, client_closed, Waited, answered, gave_up,
  timed_out, slot, or_else, wait_for, after_wait, after_send, attempts, ended, open_transaction,
  transact,
}
use bfcp.UdpClient.Steps.{
  Steps, one, Steps-trans, SentFrom, send-SentFrom, handle_message-Steps, ends, next, opens,
  quietly, shuts, start, waits,
}

or_else-Steps :
    {A : ℕ → Type 0} (o : Option Message) {c d : UdpClient} (later : UdpClient × Waited)
    → Steps A c d
    → Steps A c later.0
    → Steps A c (or_else o later d).0
or_else-Steps (some m) later h k = h
or_else-Steps none later h k = k

wait_for-Steps :
    {A : ℕ → Type 0} (tx : ℕ) (hs : List Happening) (c : UdpClient)
    → ((t : ℕ) → A t)
    → Steps A c (wait_for tx hs c).0
unfolding wait_for
wait_for-Steps tx [] c all = start
wait_for-Steps tx (closes ∷ later) c all = one shuts
wait_for-Steps tx (received env m ∷ later) c all =
    let h = handle_message-Steps env m c (all m.transaction_id) in
    let c' = handle_message env m c in
    or_else-Steps (slot tx c') (wait_for tx later c') h
      (Steps-trans h (wait_for-Steps tx later c' all))

after_wait-Steps :
    {A : ℕ → Type 0} (retry : UdpClient → UdpClient × Result TransactError Message) (c : UdpClient)
    (w : UdpClient × Waited)
    → Steps A c w.0
    → ((d : UdpClient) → Steps A d (retry d).0)
    → Steps A c (after_wait retry w).0
after_wait-Steps retry c (d, answered m) h k = h
after_wait-Steps retry c (d, gave_up) h k = h
after_wait-Steps retry c (d, timed_out) h k = Steps-trans h (k d)

after_send-Steps :
    {A : ℕ → Type 0} (tx wait : ℕ) (hs : List Happening)
    (retry : UdpClient → UdpClient × Result TransactError Message) (c : UdpClient)
    (r : Result SendError UdpClient)
    → ((t : ℕ) → A t)
    → SentFrom A c r
    → ((d : UdpClient) → Steps A d (retry d).0)
    → Steps A c (after_send tx wait hs retry c r).0
after_send-Steps tx wait hs retry c (err e) all h k = start
after_send-Steps tx wait hs retry c (ok d) all h k =
    let timed = Steps-trans h (one (quietly (timer wait) (waits wait all))) in
    after_wait-Steps retry c (wait_for tx hs (emit (timer wait) d))
      (Steps-trans timed (wait_for-Steps tx hs (emit (timer wait) d) all)) k

attempts-Steps :
    {A : ℕ → Type 0} (script : ℕ → Attempt) (left n wait : ℕ) (m : Message) (c : UdpClient)
    → ((t : ℕ) → A t)
    → Steps A c (attempts script left n wait m c).0
unfolding attempts
attempts-Steps script zero n wait m c all = start
attempts-Steps {A = A} script (suc left) n wait m c all =
    after_send-Steps m.transaction_id wait (script n).meanwhile
      (attempts script left (suc n) (wait * 2) m) c (send (script n).writes m c) all
      (send-SentFrom A (script n).writes m c (all m.transaction_id))
      (λ d. attempts-Steps script left (suc n) (wait * 2) m d all)

ended-Steps :
    {A : ℕ → Type 0} (tx : ℕ) (c : UdpClient) (r : UdpClient × Result TransactError Message)
    → A tx
    → Steps A c r.0
    → Steps A c (ended tx r).0
ended-Steps tx c (d, r) a h = next h (ends tx a)

pub if_first-Steps :
    {A : ℕ → Type 0} {B : Type 0} (b : Bool) {c : UdpClient} (p q : UdpClient × B)
    → Steps A c p.0
    → Steps A c q.0
    → Steps A c (if b then p else q).0
if_first-Steps true p q h k = h
if_first-Steps false p q h k = k

pub transact-Steps :
    {A : ℕ → Type 0} (script : ℕ → Attempt) (m : Message) (c : UdpClient)
    → ((t : ℕ) → A t)
    → Steps A c (transact script m c).0
unfolding transact
transact-Steps script m c all =
    let opened = open_transaction m.transaction_id c in
    let tried = attempts script c.config.max_retries 0 c.config.t1 m opened in
    if_first-Steps c.is_closed (c, err client_closed) (ended m.transaction_id tried) start
      (ended-Steps m.transaction_id c tried (all m.transaction_id) (
        Steps-trans (one (opens m.transaction_id none (all m.transaction_id)))
          (attempts-Steps script c.config.max_retries 0 c.config.t1 m opened all)))
