-- ===== src/UdpClient/Retry.antt =====
-- The retransmissions of `transact` in udpclient.go, counted in copies of the request and in the
-- time that the client waits.
use bfcp.Base.{
  ℕ, suc, ◌+◌, ◌-◌, ◌*◌, ◌<◌, if◌then◌else◌, true, false, none, ◌≡◌, refl, sym, ap, ◌∙◌, List, ◌∷◌,
  ◌++◌, All, nat_eq, ==_refl, subst, arith,
}
use bfcp.Base.Dict.{lookup, lookup-insert_self, lookup-remove}
use bfcp.Base.Result.{Result, ok, err}
use bfcp.Message.{Message}
use bfcp.UdpClient.{UdpClient, Env, deliver}
use bfcp.UdpClient.Transact.{
  Happening, received, Attempt, TransactError, answered, no_response, client_closed, wait_for,
  attempts, after_wait, transact, open_transaction, end_transaction, ended,
}
use bfcp.UdpClient.Kept.{copies, waited}
use bfcp.UdpClient.Waiting.{
  IsAside, Waits, wait_for-aside, wait_for-response, CanSend, doubled, backoff, spent,
  backoff_closed, backoff-suc,
}
use bfcp.UdpClient.Idle.{
  IsAfter, IsIdle, waiting, waiting-IsAfter, attempts-sent, IsAfter-add, IsAfter-CanSend,
  attempts-all_idle,
}

-- What a transaction comes to: its result, and the copies that it sent and the time it waited, in
-- the client after it, where it is no longer pending.
pub record Comes (m : Message) (c : UdpClient) (copies_sent time_waited : ℕ)
    (result : Result TransactError Message) (after : UdpClient × Result TransactError Message)
    : Type 0 where
  pub same_result : after.1 ≡ result
  pub no_longer_pending : lookup m.transaction_id after.0.pending ≡ none
  pub sent_copies :
      copies m.transaction_id after.0.log ≡ copies_sent + copies m.transaction_id c.log
  pub time_passed : waited after.0.log ≡ time_waited + waited c.log

ended-pending : (tx : ℕ) (d : UdpClient) → lookup tx (end_transaction tx d).pending ≡ none
ended-pending tx d =
    lookup-remove tx tx d.pending ∙ ap (λ b. if b then none else lookup tx d.pending) (==_refl tx)

transact-open :
    (script : ℕ → Attempt) (m : Message) (c : UdpClient)
    → c.is_closed ≡ false
    → transact script m c
      ≡ ended m.transaction_id (
          attempts script c.config.max_retries 0 c.config.t1 m
            (open_transaction m.transaction_id c))
unfolding transact
transact-open script m c e =
    ap
      (λ b.
        if b
        then (c, err client_closed)
        else ended m.transaction_id (
            attempts script c.config.max_retries 0 c.config.t1 m
              (open_transaction m.transaction_id c)))
      e

-- A transaction that nobody answers ends, after all of the configured copies of the request, with
-- the error that there was no response. It has then waited T1, and twice as long after each further
-- copy: T1 · (2 ^ copies - 1) in all. Here the client is open, the socket takes the request each time,
-- and only messages of other transactions arrive meanwhile.
pub transact-unanswered :
    (script : ℕ → Attempt) (m : Message) (c : UdpClient)
    → c.is_closed ≡ false
    → CanSend m c
    → ((i : ℕ) → i < c.config.max_retries → IsIdle m.transaction_id (script i))
    → Comes m c c.config.max_retries
        (spent c.config.max_retries c.config.t1)
        (err no_response)
        (transact script m c)
transact-unanswered script m c up can idle =
    let tx = m.transaction_id in
    let n = c.config.max_retries in
    let c0 = open_transaction tx c in
    let (d, same, after) =
      attempts-all_idle script n 0 n 0 n c.config.t1 m c0 (omega arith) (omega arith)
        (λ i le lt. idle i lt) can (lookup-insert_self tx none c.pending) in
    let whole : transact script m c ≡ (end_transaction tx d, err no_response) =
      transact-open script m c up ∙ ap (ended tx) same ∙ (unfold attempts in refl) in
    subst (Comes m c n (spent n c.config.t1) (err no_response)) (sym whole) (record {
      same_result = refl;
      no_longer_pending = ended-pending tx d;
      sent_copies = after.more_copies;
      time_passed = omega (arith, after.more_wait, backoff_closed n c.config.t1);
    })

-- An attempt that gets the response.
pub record IsAnswered (m r : Message) (a : Attempt) : Type 0 where
  pub is_sent : a.writes ≡ true
  pub same_tx : r.transaction_id ≡ m.transaction_id
  pub before : List Happening
  pub after : List Happening
  pub env : Env
  pub aside : All (IsAside m.transaction_id) before
  pub in_order : a.meanwhile ≡ before ++ (received env r ∷ after)

-- What the transaction of `d` has reached, with the response in its channel.
deliver-Comes :
    (m r : Message) (k total : ℕ) (c d : UdpClient)
    → IsAfter m.transaction_id k total (open_transaction m.transaction_id c) d
    → Comes m c k total (ok r) (end_transaction m.transaction_id (deliver none r d), ok r)
deliver-Comes m r k total c d a = record {
  same_result = refl;
  no_longer_pending = ended-pending m.transaction_id (deliver none r d);
  sent_copies = a.more_copies;
  time_passed = a.more_wait;
}

attempt-answered :
    (script : ℕ → Attempt) (left n wait : ℕ) (m r : Message) (c : UdpClient)
    → IsAnswered m r (script n)
    → CanSend m c
    → Waits m.transaction_id c
    → (d : UdpClient) × (attempts script (suc left) n wait m c ≡ (deliver none r d, ok r))
      × IsAfter m.transaction_id 1 wait c d
attempt-answered script left n wait m r c answer can w =
    let tx = m.transaction_id in
    let c' = waiting wait m c in
    let (d, same, kept) =
      wait_for-aside tx answer.before (received answer.env r ∷ answer.after) c' answer.aside w in
    let reached = waiting-IsAfter wait m c d w kept in
    let whole : wait_for tx (script n).meanwhile c' ≡ (deliver none r d, answered r) =
      ap (λ l. wait_for tx l c') answer.in_order
      ∙ same
      ∙ wait_for-response answer.env r tx answer.after d answer.same_tx reached.still_waits in
    (
      d,
      attempts-sent script left n wait m c answer.is_sent can
          ∙ ap (after_wait (attempts script left (suc n) (wait * 2) m)) whole,
      reached,
    )

-- A response that arrives during attempt `k`, counted from 0, ends the transaction with that
-- response, after `k + 1` copies of the request and no more. The configuration must allow that many,
-- the client must be open, the socket must take the request each time, and before the response only
-- messages of other transactions may arrive.
pub transact-answered :
    (script : ℕ → Attempt) (k : ℕ) (m r : Message) (c : UdpClient)
    → c.is_closed ≡ false
    → k < c.config.max_retries
    → CanSend m c
    → ((i : ℕ) → i < k → IsIdle m.transaction_id (script i))
    → IsAnswered m r (script k)
    → Comes m c (suc k) (spent (suc k) c.config.t1) (ok r) (transact script m c)
transact-answered script k m r c up room can idle answer =
    let tx = m.transaction_id in
    let n = c.config.max_retries in
    let c0 = open_transaction tx c in
    let (d, same, after) =
      attempts-all_idle script k (suc (n - suc k)) n 0 k c.config.t1 m c0 (omega arith)
        (omega arith) (λ i le lt. idle i lt) can (lookup-insert_self tx none c.pending) in
    let wait = doubled k c.config.t1 in
    let (e, got, more) =
      attempt-answered script (n - suc k) k wait m r d answer (IsAfter-CanSend m after can)
        after.still_waits in
    let whole : transact script m c ≡ (end_transaction tx (deliver none r e), ok r) =
      transact-open script m c up ∙ ap (ended tx) (same ∙ got) in
    let total : spent (suc k) c.config.t1 ≡ backoff k c.config.t1 + wait =
      omega (arith, backoff-suc k c.config.t1, backoff_closed (suc k) c.config.t1) in
    subst (Comes m c (suc k) (spent (suc k) c.config.t1) (ok r)) (sym whole) (
      deliver-Comes m r (suc k) (spent (suc k) c.config.t1) c e
        (IsAfter-add (omega arith) total after more))
