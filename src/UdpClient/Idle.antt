-- ===== src/UdpClient/Idle.antt =====
-- The attempts of `transact` in udpclient.go that get no response.
use bfcp.Base.{
  ℕ, zero, suc, ◌+◌, ◌*◌, ◌<◌, ◌≤◌, if◌then◌else◌, append-nil, true, ◌≡◌, refl, sym, ap, ◌∙◌, [],
  All, nat_eq, ==_refl, arith,
}
use bfcp.Message.{Message}
use bfcp.Transport.Udp.{send_message}
use bfcp.UdpClient.{sent, timer, UdpClient, emit, versioned, send}
use bfcp.UdpClient.Transact.{Attempt, timed_out, wait_for, attempts, after_wait, after_send}
use bfcp.UdpClient.Kept.{copy, copies, waited, copies-append, waited-append, IsKept}
use bfcp.UdpClient.Waiting.{IsAside, Waits, wait_for-aside, CanSend, send-ok, doubled, backoff}

-- Where the client stands after `k` copies of the request, after waiting for `total` in all. The
-- transaction is still open.
pub record IsAfter (tx k total : ℕ) (c d : UdpClient) : Type 0 where
  pub same_transport : d.transport ≡ c.transport
  pub same_config : d.config ≡ c.config
  pub still_waits : Waits tx d
  pub more_copies : copies tx d.log ≡ k + copies tx c.log
  pub more_wait : waited d.log ≡ total + waited c.log

abbrev pub IsIdle : (tx : ℕ) → Attempt → Type 0
IsIdle tx a = (a.writes ≡ true) × All (IsAside tx) a.meanwhile

-- The client as an attempt begins to wait.
abbrev pub waiting : (wait : ℕ) → Message → UdpClient → UdpClient
waiting wait m c = emit (timer wait) (emit (sent (versioned m c)) c)

pub waiting-IsAfter :
    (wait : ℕ) (m : Message) (c d : UdpClient)
    → Waits m.transaction_id c
    → IsKept m.transaction_id (waiting wait m c) d
    → IsAfter m.transaction_id 1 wait c d
waiting-IsAfter wait m c d w kept =
    let tx = m.transaction_id in
    let c1 = emit (sent (versioned m c)) c in
    let one : copy tx (sent (versioned m c)) ≡ 1 = ap (λ b. if b then 1 else 0) (==_refl tx) in
    record {
      same_transport = kept.same_transport;
      same_config = kept.same_config;
      still_waits = kept.same_slot ∙ w;
      more_copies = omega (
        arith,
        kept.same_copies,
        copies-append tx c.log (sent (versioned m c)),
        copies-append tx c1.log (timer wait),
        one,
      );
      more_wait = omega (
        arith,
        kept.same_wait,
        waited-append c.log (sent (versioned m c)),
        waited-append c1.log (timer wait),
      );
    }

pub attempts-sent :
    (script : ℕ → Attempt) (left n wait : ℕ) (m : Message) (c : UdpClient)
    → (script n).writes ≡ true
    → CanSend m c
    → attempts script (suc left) n wait m c
      ≡ after_wait
          (attempts script left (suc n) (wait * 2) m)
          (wait_for m.transaction_id (script n).meanwhile (waiting wait m c))
unfolding attempts
attempts-sent script left n wait m c writes can =
    ap
      (after_send m.transaction_id wait (script n).meanwhile
        (attempts script left (suc n) (wait * 2) m) c)
      (ap (λ b. send b m c) writes ∙ send-ok m c can)

-- An attempt without a response.
attempts-idle :
    (script : ℕ → Attempt) (left n wait : ℕ) (m : Message) (c : UdpClient)
    → IsIdle m.transaction_id (script n)
    → CanSend m c
    → Waits m.transaction_id c
    → (d : UdpClient) × (attempts script (suc left) n wait m c
        ≡ attempts script left (suc n) (wait * 2) m d)
      × IsAfter m.transaction_id 1 wait c d
attempts-idle script left n wait m c (writes, aside) can w =
    let tx = m.transaction_id in
    let c' = waiting wait m c in
    let (d, same, kept) = wait_for-aside tx (script n).meanwhile [] c' aside w in
    let whole : wait_for tx (script n).meanwhile c' ≡ (d, timed_out) =
      ap (λ l. wait_for tx l c') (sym (append-nil (script n).meanwhile))
      ∙ same
      ∙ (unfold wait_for in refl) in
    (
      d,
      attempts-sent script left n wait m c writes can
          ∙ ap (after_wait (attempts script left (suc n) (wait * 2) m)) whole,
      waiting-IsAfter wait m c d w kept,
    )

pub IsAfter-add :
    {tx j k n s t total : ℕ} {c d e : UdpClient}
    → n ≡ j + k
    → total ≡ s + t
    → IsAfter tx j s c d
    → IsAfter tx k t d e
    → IsAfter tx n total c e
IsAfter-add n total a b = record {
  same_transport = b.same_transport ∙ a.same_transport;
  same_config = b.same_config ∙ a.same_config;
  still_waits = b.still_waits;
  more_copies = omega (arith, a.more_copies, b.more_copies);
  more_wait = omega (arith, a.more_wait, b.more_wait);
}

pub IsAfter-CanSend :
    {tx k t : ℕ} {c d : UdpClient} (m : Message) → IsAfter tx k t c d → CanSend m c → CanSend m d
IsAfter-CanSend {c = c} {d = d} m r (x, e) = (
  x,
  ap (λ v. send_message true (record m { version = v }) d.transport)
        (ap (λ k. k.version) r.same_config)
      ∙ ap (send_message true (versioned m c)) r.same_transport
      ∙ e,
)

IsAfter-start :
    (m : Message) (c : UdpClient) → Waits m.transaction_id c → IsAfter m.transaction_id 0 0 c c
IsAfter-start m c w = record {
  same_transport = refl;
  same_config = refl;
  still_waits = w;
  more_copies = omega arith;
  more_wait = omega arith;
}

-- `k` attempts without a response, the first of them attempt `n`.
pub attempts-all_idle :
    (script : ℕ → Attempt) (k left all n n' wait : ℕ) (m : Message) (c : UdpClient)
    → all ≡ k + left
    → n' ≡ k + n
    → ((i : ℕ) → n ≤ i → i < n' → IsIdle m.transaction_id (script i))
    → CanSend m c
    → Waits m.transaction_id c
    → (d : UdpClient) × (attempts script all n wait m c
        ≡ attempts script left n' (doubled k wait) m d)
      × IsAfter m.transaction_id k (backoff k wait) c d
attempts-all_idle script zero left all n n' wait m c ea en idle can w =
    let all' : all ≡ left = omega arith in
    let n'' : n ≡ n' = omega arith in
    (
      c,
      ap (λ a. attempts script a n wait m c) all' ∙ ap (λ i. attempts script left i wait m c) n'',
      IsAfter-start m c w,
    )
attempts-all_idle script (suc k) left all n n' wait m c ea en idle can w =
    let all' : all ≡ suc (k + left) = omega arith in
    let (d, first, after) =
      attempts-idle script (k + left) n wait m c (idle n (omega arith) (omega arith)) can w in
    let (e, rest, afters) =
      attempts-all_idle script k left (k + left) (suc n) n' (wait * 2) m d refl (omega arith)
        (λ i le lt. idle i (omega arith) lt) (IsAfter-CanSend m after can) after.still_waits in
    (
      e,
      ap (λ a. attempts script a n wait m c) all' ∙ first ∙ rest,
      IsAfter-add (omega arith) (omega arith) after afters,
    )
