-- ===== src/UdpClient/Kept.antt =====
-- What the steps of a client of udpclient.go leave alone: a transaction under an ID that they do not
-- use, the copies sent of its request, and the time waited.
use bfcp.Base.{
  ℕ, ◌+◌, ◌==◌, if◌then◌else◌, Bool, true, false, Option, none, some, ◌≡◌, refl, sym, ap, ◌∙◌, List,
  [], ◌∷◌, ◌++◌, nat_eq, ◌||◌, ==_refl, subst, arith,
}
use bfcp.Base.Dict.{lookup, insert, remove, lookup-insert, lookup-remove}
use bfcp.Message.{Message}
use bfcp.Types.RequestStatus
use bfcp.Client.{ActiveFloorRequest}
use bfcp.UdpClient.{
  Event, sent, timer, on_floor_granted, on_floor_denied, on_floor_released, on_floor_status,
  on_error, is_final, UdpClient, Env, emit, tell_status, put_found, put_status, apply_own_status,
  handle_message, close,
}
use bfcp.UdpClient.Calls.{add_request}
use bfcp.UdpClient.Steps.{
  IsQuiet, sends, waits, observes, reports, Step, quietly, told, opens, ends, asks, forgets, draws,
  shuts, Steps, start, next, handle_message-Steps,
}

-- What an event adds to the copies sent under a transaction ID, and to the time waited.
abbrev pub copy : (tx : ℕ) → Event → ℕ
copy tx (sent m) = if m.transaction_id == tx then 1 else 0
copy tx e = 0

abbrev pub pause : Event → ℕ
pause (timer wait) = wait
pause e = 0

abbrev pub copies : (tx : ℕ) → List Event → ℕ
copies tx [] = 0
copies tx (e ∷ log) = copy tx e + copies tx log

abbrev pub waited : List Event → ℕ
waited [] = 0
waited (e ∷ log) = pause e + waited log

pub copies-append :
    (tx : ℕ) (log : List Event) (e : Event)
    → copies tx (log ++ (e ∷ [])) ≡ copies tx log + copy tx e
copies-append tx [] e = omega arith
copies-append tx (d ∷ log) e = omega (arith, copies-append tx log e)

pub waited-append : (log : List Event) (e : Event) → waited (log ++ (e ∷ [])) ≡ waited log + pause e
waited-append [] e = omega arith
waited-append (d ∷ log) e = omega (arith, waited-append log e)

-- What other transactions leave alone.
pub record IsKept (tx : ℕ) (c d : UdpClient) : Type 0 where
  pub same_transport : d.transport ≡ c.transport
  pub same_config : d.config ≡ c.config
  pub same_slot : lookup tx d.pending ≡ lookup tx c.pending
  pub same_copies : copies tx d.log ≡ copies tx c.log
  pub same_wait : waited d.log ≡ waited c.log

pub IsKept-refl : (tx : ℕ) (c : UdpClient) → IsKept tx c c
IsKept-refl tx c = record {
  same_transport = refl;
  same_config = refl;
  same_slot = refl;
  same_copies = refl;
  same_wait = refl;
}

pub IsKept-trans : {tx : ℕ} {c d e : UdpClient} → IsKept tx c d → IsKept tx d e → IsKept tx c e
IsKept-trans a b = record {
  same_transport = b.same_transport ∙ a.same_transport;
  same_config = b.same_config ∙ a.same_config;
  same_slot = b.same_slot ∙ a.same_slot;
  same_copies = b.same_copies ∙ a.same_copies;
  same_wait = b.same_wait ∙ a.same_wait;
}

pub emit-IsKept :
    (tx : ℕ) (e : Event) (c : UdpClient) → copy tx e ≡ 0 → pause e ≡ 0 → IsKept tx c (emit e c)
emit-IsKept tx e c n p = record {
  same_transport = refl;
  same_config = refl;
  same_slot = refl;
  same_copies = omega (arith, copies-append tx c.log e);
  same_wait = omega (arith, waited-append c.log e);
}

pub if-IsKept :
    (b : Bool) {tx : ℕ} {c d e : UdpClient}
    → IsKept tx c d
    → IsKept tx c e
    → IsKept tx c (if b then d else e)
if-IsKept true h k = h
if-IsKept false h k = k

requests-IsKept :
    (tx : ℕ) (c : UdpClient) (rs : List (ℕ × ActiveFloorRequest))
    → IsKept tx c (record c { active_requests = rs })
requests-IsKept tx c rs = record {
  same_transport = refl;
  same_config = refl;
  same_slot = refl;
  same_copies = refl;
  same_wait = refl;
}

put_found-IsKept :
    (tx now fid s : ℕ) (o : Option ActiveFloorRequest) (c : UdpClient)
    → IsKept tx c (put_found now fid s o c)
put_found-IsKept tx now fid s none c = IsKept-refl tx c
put_found-IsKept tx now fid s (some req) c =
    if-IsKept (is_final s) (requests-IsKept tx c _) (requests-IsKept tx c _)

tell_status-IsKept : (tx fid rid s : ℕ) (c : UdpClient) → IsKept tx c (tell_status fid rid s c)
tell_status-IsKept tx fid rid s c =
    if-IsKept (s == RequestStatus.granted) (emit-IsKept tx (on_floor_granted fid rid) c refl refl) (
      if-IsKept (s == RequestStatus.denied) (emit-IsKept tx (on_floor_denied fid rid) c refl refl) (
        if-IsKept
          ((s == RequestStatus.released)
            || (s == RequestStatus.revoked)
            || (s == RequestStatus.cancelled))
          (emit-IsKept tx (on_floor_released fid) c refl refl) (IsKept-refl tx c)))

apply_own_status-IsKept :
    (tx now fid rid s : ℕ) (c : UdpClient) → IsKept tx c (apply_own_status now fid rid s c)
unfolding apply_own_status
apply_own_status-IsKept tx now fid rid s c =
    IsKept-trans (put_found-IsKept tx now fid s (lookup fid c.active_requests) c)
      (tell_status-IsKept tx fid rid s (put_status now fid s c))

slot-IsKept :
    (tx : ℕ) (c : UdpClient) (p : List (ℕ × Option Message))
    → lookup tx p ≡ lookup tx c.pending
    → IsKept tx c (record c { pending = p })
slot-IsKept tx c p e = record {
  same_transport = refl;
  same_config = refl;
  same_slot = e;
  same_copies = refl;
  same_wait = refl;
}

-- The transactions that `A` allows are others.
abbrev pub Excludes : (ℕ → Type 0) → ℕ → Type 0
Excludes A tx = (t : ℕ) → A t → (t == tx) ≡ false

no_Excludes {ℓ} : {A : ℕ → Type 0} {B : Type ℓ} (tx : ℕ) → Excludes A tx → A tx → B
no_Excludes tx ex a = let e = ex tx a in let f = ==_refl tx in absurd (let no : ⊥ = cc in no)

quietly-IsKept :
    {A : ℕ → Type 0} {e : Event} (tx : ℕ) (c : UdpClient)
    → Excludes A tx
    → IsQuiet A e
    → IsKept tx c (emit e c)
quietly-IsKept tx c ex (sends m a) =
    emit-IsKept tx (sent m) c (ap (λ b. if b then 1 else 0) (ex m.transaction_id a)) refl
quietly-IsKept tx c ex (waits wait all) = no_Excludes tx ex (all tx)
quietly-IsKept tx c ex (observes f b s) = emit-IsKept tx (on_floor_status f b s) c refl refl
quietly-IsKept tx c ex (reports k i) = emit-IsKept tx (on_error k i) c refl refl

Step-IsKept :
    {A : ℕ → Type 0} {c d : UdpClient} (tx : ℕ) → Excludes A tx → Step A c d → IsKept tx c d
Step-IsKept {c = c} tx ex (quietly e q) = quietly-IsKept tx c ex q
Step-IsKept {c = c} tx ex (told now fid rid s) = apply_own_status-IsKept tx now fid rid s c
Step-IsKept {c = c} tx ex (opens t o a) =
    slot-IsKept tx c (insert t o c.pending) (
      lookup-insert t tx o c.pending ∙ ap (λ b. if b then some o else lookup tx c.pending) (ex t a))
Step-IsKept {c = c} tx ex (ends t a) =
    slot-IsKept tx c (remove t c.pending)
      (lookup-remove t tx c.pending ∙ ap (λ b. if b then none else lookup tx c.pending) (ex t a))
Step-IsKept {c = c} tx ex (asks now fid rid s) =
    IsKept-trans (requests-IsKept tx c (add_request now fid rid s c).active_requests)
      (apply_own_status-IsKept tx now fid rid s (add_request now fid rid s c))
Step-IsKept {c = c} tx ex (forgets fid) =
    IsKept-trans (requests-IsKept tx c (remove fid c.active_requests)) (
      emit-IsKept tx (on_floor_released fid)
        (record c { active_requests = remove fid c.active_requests }) refl refl)
Step-IsKept {c = c} tx ex (draws n) = record {
  same_transport = refl;
  same_config = refl;
  same_slot = refl;
  same_copies = refl;
  same_wait = refl;
}
Step-IsKept {c = c} tx ex shuts =
    unfold close in
    record {
      same_transport = refl;
      same_config = refl;
      same_slot = refl;
      same_copies = refl;
      same_wait = refl;
    }

pub Steps-IsKept :
    {A : ℕ → Type 0} {c d : UdpClient} (tx : ℕ) → Excludes A tx → Steps A c d → IsKept tx c d
Steps-IsKept {c = c} tx ex start = IsKept-refl tx c
Steps-IsKept tx ex (next r s) = IsKept-trans (Steps-IsKept tx ex r) (Step-IsKept tx ex s)

-- A message of another transaction.
pub handle_message-IsKept :
    (env : Env) (m : Message) (tx : ℕ) (c : UdpClient)
    → (m.transaction_id == tx) ≡ false
    → IsKept tx c (handle_message env m c)
handle_message-IsKept env m tx c ne =
    Steps-IsKept {A = λ t. t ≡ m.transaction_id} tx
      (λ t e. subst (λ k. (k == tx) ≡ false) (sym e) ne) (handle_message-Steps env m c refl)
