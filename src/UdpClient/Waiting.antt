-- ===== src/UdpClient/Waiting.antt =====
-- One wait of `transact` in udpclient.go, and the durations that double.
use bfcp.Base.{
  ℕ, zero, suc, ◌+◌, ◌-◌, ◌*◌, ◌^◌, ◌==◌, true, false, none, some, ◌≡◌, refl, sym, ap, ◌∙◌, List,
  [], ◌∷◌, ◌++◌, All, nat_eq, arith,
}
use native.Mathlib.Nat.{mul_assoc, pow-succ'}
use bfcp.Base.Dict.{lookup, insert, lookup-insert_self}
use bfcp.Base.Result.{ok}
use bfcp.Message.{Message}
use bfcp.Transport.Udp.{send_message}
use bfcp.UdpClient.{sent, UdpClient, Env, emit, versioned, send, sent_by, handle_message, deliver}
use bfcp.UdpClient.Transact.{Happening, received, closes, answered, slot, or_else, wait_for}
use bfcp.UdpClient.Kept.{IsKept, IsKept-refl, IsKept-trans, handle_message-IsKept}

-- A message of another transaction.
abbrev pub IsAside : (tx : ℕ) → Happening → Type 0
IsAside tx (received env m) = (m.transaction_id == tx) ≡ false
IsAside tx closes = ⊥

-- The transaction is open and has no response yet.
abbrev pub Waits : (tx : ℕ) → UdpClient → Type 0
Waits tx c = lookup tx c.pending ≡ some none

pub Waits-slot : (tx : ℕ) (c : UdpClient) → Waits tx c → slot tx c ≡ none
Waits-slot tx c w = rw (w, slot) refl

-- Messages of other transactions are taken, and the wait goes on.
pub wait_for-aside :
    (tx : ℕ) (before after : List Happening) (c : UdpClient)
    → All (IsAside tx) before
    → Waits tx c
    → (d : UdpClient) × (wait_for tx (before ++ after) c ≡ wait_for tx after d) × IsKept tx c d
unfolding wait_for
wait_for-aside tx [] after c h w = (c, refl, IsKept-refl tx c)
wait_for-aside tx (closes ∷ before) after c h w = absurd h.0
wait_for-aside tx (received env m ∷ before) after c (ne, h) w =
    let c' = handle_message env m c in
    let kept = handle_message-IsKept env m tx c ne in
    let w' : Waits tx c' = kept.same_slot ∙ w in
    let (d, same, kept') = wait_for-aside tx before after c' h w' in
    (
      d,
      ap (λ o. or_else o (wait_for tx (before ++ after) c') c') (Waits-slot tx c' w') ∙ same,
      IsKept-trans kept kept',
    )

-- The response is taken when it comes.
pub wait_for-response :
    (env : Env) (r : Message) (tx : ℕ) (after : List Happening) (c : UdpClient)
    → r.transaction_id ≡ tx
    → Waits tx c
    → wait_for tx (received env r ∷ after) c ≡ (deliver none r c, answered r)
unfolding wait_for handle_message
wait_for-response env r tx after c e w =
    let got : handle_message env r c ≡ deliver none r c =
      let here : lookup r.transaction_id c.pending ≡ some none =
        ap (λ t. lookup t c.pending) e ∙ w in
      rw (here, handle_message) refl in
    let full : slot tx (deliver none r c) ≡ some r =
      let found : lookup tx (insert r.transaction_id (some r) c.pending) ≡ some (some r) =
        ap (λ t. lookup tx (insert t (some r) c.pending)) e
        ∙ lookup-insert_self tx (some r) c.pending in
      rw (found, slot) refl in
    ap (λ d. or_else (slot tx d) (wait_for tx after d) d) got
    ∙ ap (λ o. or_else o (wait_for tx after (deliver none r c)) (deliver none r c)) full

-- The socket takes the request.
abbrev pub CanSend : Message → UdpClient → Type 0
CanSend m c = (d : ℕ × List ℕ) × (send_message true (versioned m c) c.transport ≡ ok d)

pub send-ok :
    (m : Message) (c : UdpClient) → CanSend m c → send true m c ≡ ok (emit (sent (versioned m c)) c)
unfolding send
send-ok m c (d, e) = ap (sent_by c (versioned m c)) e

-- What `CanSend` reads of the client.
pub IsKept-CanSend :
    {tx : ℕ} {c d : UdpClient} (m : Message) → IsKept tx c d → CanSend m c → CanSend m d
IsKept-CanSend {c = c} {d = d} m kept (x, e) = (
  x,
  ap (λ v. send_message true (record m { version = v }) d.transport)
        (ap (λ k. k.version) kept.same_config)
      ∙ ap (send_message true (versioned m c)) kept.same_transport
      ∙ e,
)

-- The durations that double, and their sum.
abbrev pub doubled : (k wait : ℕ) → ℕ
doubled zero wait = wait
doubled (suc k) wait = doubled k (wait * 2)

abbrev pub backoff : (k wait : ℕ) → ℕ
backoff zero wait = 0
backoff (suc k) wait = wait + backoff k (wait * 2)

-- The same sum, in closed form.
abbrev pub spent : (k wait : ℕ) → ℕ
spent k wait = wait * 2 ^ k - wait

pub backoff_closed : (k wait : ℕ) → backoff k wait + wait ≡ wait * 2 ^ k
backoff_closed zero wait = omega arith
backoff_closed (suc k) wait =
    let power : wait * 2 * 2 ^ k ≡ wait * 2 ^ suc k =
      mul_assoc wait 2 (2 ^ k) ∙ ap (λ p. wait * p) (sym (pow-succ' 2 k)) in
    omega (arith, power, backoff_closed k (wait * 2))

-- One wait more.
pub backoff-suc : (k wait : ℕ) → backoff (suc k) wait ≡ backoff k wait + doubled k wait
backoff-suc zero wait = omega arith
backoff-suc (suc k) wait = omega (arith, backoff-suc k (wait * 2))
