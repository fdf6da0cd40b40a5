-- ===== src/UdpClient/Safety.antt =====
-- What holds of a client of udpclient.go whatever it goes through.
use bfcp.Base.{
  ℕ, ◌==◌, if◌then◌else◌, Bool, Bool-cases, true, false, Option, none, some, ◌≡◌, refl, sym, ap,
  ◌∙◌, inl, inr, List, nat_eq, ==_iff, subst, arith, ==_refl, ◌||◌,
}
use bfcp.Base.Dict.{lookup, insert, remove, lookup-insert, lookup-remove, lookup-insert_self}
use bfcp.Types.RequestStatus
use bfcp.Transport.Udp.{UdpTransport}
use bfcp.Client.{ActiveFloorRequest}
use bfcp.UdpClient.{
  on_floor_granted, on_floor_denied, on_floor_released, UdpClientConfig, UdpClient, emit,
  new_udp_client, is_final, with_status, put_found, put_status, close, tell_status,
  apply_own_status,
}
use bfcp.UdpClient.Calls.{requested, add_request, forget_request}
use bfcp.UdpClient.Steps.{
  Step, quietly, told, opens, ends, asks, forgets, draws, shuts, Steps, start, next,
}
use bfcp.UdpClient.Runs.{Call, perform_all, perform_all-Steps}
use bfcp.UdpClient.Words.{
  or_last, last_word, last_word-append, IsOwned, OwnedAt, Owned, emit-OwnedAt, IsQuiet-word,
}

-- What the hooks of a status say.
tell_status-same :
    (fid rid s : ℕ) (c : UdpClient)
    → ((tell_status fid rid s c).active_requests ≡ c.active_requests)
      × ((tell_status fid rid s c).config ≡ c.config)
tell_status-same fid rid s c = ground arith

if-OwnedAt :
    (b : Bool) {c d : UdpClient} (j : ℕ)
    → OwnedAt c j
    → OwnedAt d j
    → OwnedAt (if b then c else d) j
if-OwnedAt true j h k = h
if-OwnedAt false j h k = k

tell_status-OwnedAt :
    (fid rid s j : ℕ) (c : UdpClient)
    → (fid == j) ≡ false
    → OwnedAt c j
    → OwnedAt (tell_status fid rid s c) j
tell_status-OwnedAt fid rid s j c ne h =
    let says : (w : Bool) → (if fid == j then some w else none) ≡ none =
      λ w. ap (λ b. if b then some w else none) ne in
    if-OwnedAt (s == RequestStatus.granted) j
      (emit-OwnedAt (on_floor_granted fid rid) j c (says true) h)
      (if-OwnedAt (s == RequestStatus.denied) j
        (emit-OwnedAt (on_floor_denied fid rid) j c (says false) h)
        (if-OwnedAt
          ((s == RequestStatus.released)
            || (s == RequestStatus.revoked)
            || (s == RequestStatus.cancelled))
          j (emit-OwnedAt (on_floor_released fid) j c (says false) h) h))

told_granted :
    (fid rid : ℕ) (c : UdpClient)
    → last_word fid (emit (on_floor_granted fid rid) c).log ≡ some true
told_granted fid rid c =
    last_word-append fid c.log (on_floor_granted fid rid)
    ∙ ap (λ (b : Bool). or_last (last_word fid c.log) (if b then some true else none)) (==_refl fid)

tell_status-granted :
    (fid rid s : ℕ) (c : UdpClient)
    → s ≡ RequestStatus.granted
    → last_word fid (tell_status fid rid s c).log ≡ some true
tell_status-granted fid rid s c e =
    subst (λ k. last_word fid (tell_status fid rid k c).log ≡ some true) (sym e)
      (told_granted fid rid c)

lookup-insert_same :
    (fid j : ℕ) (req : ActiveFloorRequest) (m : List (ℕ × ActiveFloorRequest))
    → (fid == j) ≡ false
    → (lookup j (insert fid req m) ≡ lookup j m) × (lookup j (remove fid m) ≡ lookup j m)
lookup-insert_same fid j req m ne = (
  lookup-insert fid j req m ∙ ap (λ b. if b then some req else lookup j m) ne,
  lookup-remove fid j m ∙ ap (λ b. if b then none else lookup j m) ne,
)

-- A change of the requests that leaves the one for floor `j` alone.
moved-OwnedAt :
    (j : ℕ) (c d : UdpClient)
    → lookup j d.active_requests ≡ lookup j c.active_requests
    → d.config ≡ c.config
    → d.log ≡ c.log
    → OwnedAt c j
    → OwnedAt d j
moved-OwnedAt j c d at config log h req e =
    let r = h req (sym at ∙ e) in
    record {
      same_floor = r.same_floor;
      own = r.own ∙ ap (λ k. k.user_id) (sym config);
      goes_on = r.goes_on;
      was_told = λ g. ap (last_word j) log ∙ r.was_told g;
    }

put_found-OwnedAt :
    (now fid s j : ℕ) (o : Option ActiveFloorRequest) (c : UdpClient)
    → (fid == j) ≡ false
    → OwnedAt c j
    → OwnedAt (put_found now fid s o c) j
put_found-OwnedAt now fid s j none c ne h = h
put_found-OwnedAt now fid s j (some req) c ne h =
    let same = lookup-insert_same fid j (with_status now s req) c.active_requests ne in
    if-OwnedAt (is_final s) j (moved-OwnedAt j c _ same.1 refl refl h)
      (moved-OwnedAt j c _ same.0 refl refl h)

-- The request that the status is put into belongs to the floor and to the user.
abbrev Fitting : UdpClient → ℕ → Type 0
Fitting c fid =
    (req : ActiveFloorRequest)
    → lookup fid c.active_requests ≡ some req
    → (req.floor_id ≡ fid) × (req.beneficiary_id ≡ c.config.user_id)

absent-OwnedAt : (c : UdpClient) (fid : ℕ) → lookup fid c.active_requests ≡ none → OwnedAt c fid
absent-OwnedAt c fid gone req at = absurd (let no : ⊥ = cc in no)

present-OwnedAt :
    (c : UdpClient) (fid : ℕ) (r : ActiveFloorRequest)
    → lookup fid c.active_requests ≡ some r
    → IsOwned c fid r
    → OwnedAt c fid
present-OwnedAt c fid r at own req e = let same : r ≡ req = cc in subst (IsOwned c fid) same own

-- The floor of the status itself, when `o` is the request that was found for it.
told_self-OwnedAt :
    (now fid rid s : ℕ) (o : Option ActiveFloorRequest) (c : UdpClient)
    → lookup fid c.active_requests ≡ o
    → Fitting c fid
    → OwnedAt (tell_status fid rid s (put_found now fid s o c)) fid
told_self-OwnedAt now fid rid s none c at fits =
    absent-OwnedAt (tell_status fid rid s c) fid
      (ap (lookup fid) (tell_status-same fid rid s c).0 ∙ at)
told_self-OwnedAt now fid rid s (some req) c at fits =
    let req' = with_status now s req in
    let gone : UdpClient = record c { active_requests = remove fid c.active_requests } in
    let kept : UdpClient = record c { active_requests = insert fid req' c.active_requests } in
    elim (Bool-cases (is_final s)) [
      | inl y ↦
          subst (λ b. OwnedAt (tell_status fid rid s (if b then gone else kept)) fid) (sym y)
            (absent-OwnedAt (tell_status fid rid s gone) fid (
              ap (lookup fid) (tell_status-same fid rid s gone).0
              ∙ lookup-remove fid fid c.active_requests
              ∙ ap (λ b. if b then none else lookup fid c.active_requests) (==_refl fid)))
      | inr y ↦
          let same = tell_status-same fid rid s kept in
          subst (λ b. OwnedAt (tell_status fid rid s (if b then gone else kept)) fid) (sym y)
            (present-OwnedAt (tell_status fid rid s kept) fid req'
              (ap (lookup fid) same.0 ∙ lookup-insert_self fid req' c.active_requests)
              (record {
                same_floor = (fits req at).0;
                own = (fits req at).1 ∙ ap (λ k. k.user_id) (sym same.1);
                goes_on = y;
                was_told = tell_status-granted fid rid s kept;
              }))
    ]

apply_own_status-Owned :
    (now fid rid s : ℕ) (c : UdpClient)
    → Fitting c fid
    → ((j : ℕ) → (fid == j) ≡ false → OwnedAt c j)
    → Owned (apply_own_status now fid rid s c)
unfolding apply_own_status
apply_own_status-Owned now fid rid s c fits others j = elim (Bool-cases (fid == j)) [
  | inl x ↦
      subst (λ k. OwnedAt (tell_status fid rid s (put_status now fid s c)) k) ((==_iff fid j).0 x)
        (told_self-OwnedAt now fid rid s (lookup fid c.active_requests) c refl fits)
  | inr x ↦
      tell_status-OwnedAt fid rid s j (put_status now fid s c) x
        (put_found-OwnedAt now fid s j (lookup fid c.active_requests) c x (others j x))
]

add_request-Fitting :
    (now fid rid s : ℕ) (c : UdpClient) → Fitting (add_request now fid rid s c) fid
add_request-Fitting now fid rid s c req at =
    let same : requested now fid rid s c ≡ req =
      let found = lookup-insert_self fid (requested now fid rid s c) c.active_requests in cc in
    (ap (λ r. r.floor_id) (sym same), ap (λ r. r.beneficiary_id) (sym same))

forget_request-Owned : (fid : ℕ) (c : UdpClient) → Owned c → Owned (forget_request fid c)
forget_request-Owned fid c h j = elim (Bool-cases (fid == j)) [
  | inl x ↦ absent-OwnedAt (forget_request fid c) j (
      lookup-remove fid j c.active_requests
      ∙ ap (λ b. if b then none else lookup j c.active_requests) x)
  | inr x ↦
      emit-OwnedAt (on_floor_released fid) j
        (record c { active_requests = remove fid c.active_requests })
        (ap (λ b. if b then some false else none) x)
        (moved-OwnedAt j c _
          (lookup-remove fid j c.active_requests
            ∙ ap (λ b. if b then none else lookup j c.active_requests) x)
          refl refl (h j))
]

Step-Owned : {A : ℕ → Type 0} {c d : UdpClient} → Step A c d → Owned c → Owned d
Step-Owned {c = c} (quietly e q) h j = emit-OwnedAt e j c (IsQuiet-word j q) (h j)
Step-Owned {c = c} (told now fid rid s) h j =
    apply_own_status-Owned now fid rid s c
      (λ req at. ((h fid req at).same_floor, (h fid req at).own)) (λ k ne. h k) j
Step-Owned {c = c} (opens tx o a) h j = moved-OwnedAt j c _ refl refl refl (h j)
Step-Owned {c = c} (ends tx a) h j = moved-OwnedAt j c _ refl refl refl (h j)
Step-Owned {c = c} (asks now fid rid s) h j =
    apply_own_status-Owned now fid rid s (add_request now fid rid s c)
      (add_request-Fitting now fid rid s c)
      (λ k ne.
        moved-OwnedAt k c (add_request now fid rid s c)
          (lookup-insert_same fid k (requested now fid rid s c) c.active_requests ne).0 refl refl
          (h k))
      j
Step-Owned {c = c} (forgets fid) h j = forget_request-Owned fid c h j
Step-Owned {c = c} (draws n) h j = moved-OwnedAt j c _ refl refl refl (h j)
Step-Owned {c = c} shuts h j = unfold close in moved-OwnedAt j c _ refl refl refl (h j)

Steps-Owned : {A : ℕ → Type 0} {c d : UdpClient} → Steps A c d → Owned c → Owned d
Steps-Owned start h = h
Steps-Owned (next r s) h = Step-Owned s (Steps-Owned r h)

new-Owned : (config : UdpClientConfig) (t : UdpTransport) → Owned (new_udp_client config t)
unfolding new_udp_client
new-Owned config t fid = absent-OwnedAt _ fid (unfold lookup in refl)

-- Whatever calls the application makes of a new client and whatever messages arrive, also during the
-- calls, each request in its table stands under its floor's ID, is for the client's own user, and
-- is not denied, cancelled, released or revoked; and if it is granted, then the last that the
-- application heard of the floor through the hooks `OnFloorGranted`, `OnFloorDenied` and
-- `OnFloorReleased` is that it was granted.
pub new-perform_all-Owned :
    (config : UdpClientConfig) (t : UdpTransport) (calls : List Call)
    → Owned (perform_all calls (new_udp_client config t))
new-perform_all-Owned config t calls =
    Steps-Owned (perform_all-Steps calls (new_udp_client config t)) (new-Owned config t)
