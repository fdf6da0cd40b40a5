-- ===== src/UdpClient/Association.antt =====
-- A floor request of udpclient.go, answered by a server as server.go answers: through the octets of
-- the response, up to `HasFloor`.
use bfcp.Base.{
  ℕ, ◌<◌, ◌==◌, if◌then◌else◌, Bool-cases, true, false, none, some, ◌⊎◌, ◌≡◌, refl, sym, ap, ◌∙◌,
  inl, inr, [], append-nil, nat_eq, ==_refl, subst, arith,
}
use bfcp.Base.Dict.{lookup, lookup-insert_self, lookup-remove}
use bfcp.Base.Bytes.{IsWord, IsByte}
use bfcp.Base.Result.{Result, ok}
use bfcp.Types.Primitive
use bfcp.Server.{udp}
use bfcp.Server.Send.{response, outgoing_udp}
use bfcp.Message.Encode.{encode}
use bfcp.Message.Tlv.{add_floor_request_information}
use bfcp.Message.Wire.{wire, prepared}
use bfcp.Message.RoundTrip.{IsWellFormed}
use bfcp.Types.RequestStatus
use bfcp.Message.{Message, new_message, set_response, add_floor_id}
use bfcp.Message.Decode.{DecodeError, decode}
use bfcp.Message.Status.{Reports, attached-IsReported}
use bfcp.Client.{ActiveFloorRequest}
use bfcp.UdpClient.{
  UdpClientConfig, UdpClient, is_granted, next_transaction_id, has_floor, is_final, with_status,
  put_found, put_status, tell_status, apply_own_status,
}
use bfcp.UdpClient.Transact.{Attempt, transact}
use bfcp.UdpClient.Calls.{request_message, requested, add_request, after_request, request_floor}
use bfcp.UdpClient.Waiting.{CanSend}
use bfcp.UdpClient.Idle.{IsIdle}
use bfcp.UdpClient.Retry.{IsAnswered, transact-answered}

tell_status-requests :
    (fid rid s : ℕ) (c : UdpClient) → (tell_status fid rid s c).active_requests ≡ c.active_requests
tell_status-requests fid rid s c = ground arith

-- A status that ends a request is no grant.
final_is_no_grant : (s : ℕ) → is_final s ≡ true → (s == RequestStatus.granted) ≡ false
final_is_no_grant s h = ground arith

put_found-lookup :
    (now fid s : ℕ) (req : ActiveFloorRequest) (c : UdpClient)
    → lookup fid (put_found now fid s (some req) c).active_requests
      ≡ (if is_final s then none else some (with_status now s req))
put_found-lookup now fid s req c =
    let gone =
      lookup-remove fid fid c.active_requests
      ∙ ap (λ b. if b then none else lookup fid c.active_requests) (==_refl fid) in
    let kept = lookup-insert_self fid (with_status now s req) c.active_requests in
    elim (Bool-cases (is_final s)) [
      | inl x ↦ rw (x, put_found) gone
      | inr x ↦ rw (x, put_found) kept
    ]

granted_if_going :
    (now s : ℕ) (req : ActiveFloorRequest)
    → is_granted (if is_final s then none else some (with_status now s req))
      ≡ (s == RequestStatus.granted)
granted_if_going now s req = ground arith

-- The status of the response decides whether the client has the floor.
asked-has_floor :
    (now fid rid s : ℕ) (c : UdpClient)
    → has_floor fid (apply_own_status now fid rid s (add_request now fid rid s c))
      ≡ (s == RequestStatus.granted)
unfolding has_floor apply_own_status
asked-has_floor now fid rid s c =
    let req = requested now fid rid s c in
    let asked = add_request now fid rid s c in
    let found : lookup fid asked.active_requests ≡ some req =
      lookup-insert_self fid req c.active_requests in
    let put : put_status now fid s asked ≡ put_found now fid s (some req) asked =
      ap (λ o. put_found now fid s o asked) found in
    ap (λ l. is_granted (lookup fid l))
      (tell_status-requests fid rid s (put_status now fid s asked))
    ∙ ap (λ d. is_granted (lookup fid d.active_requests)) put
    ∙ ap is_granted (put_found-lookup now fid s req asked)
    ∙ granted_if_going now s req

-- The request that `RequestFloor` sends, and the client behind the transaction ID.
abbrev pub floor_request : (fid : ℕ) → UdpClient → Message
floor_request fid c0 =
    let (c, tx) = next_transaction_id c0 in
    add_floor_id fid (request_message Primitive.floor_request tx c)

-- What `RequestFloor` makes of a response that is a status.
after_request-Reports :
    (now fid rid s fid' : ℕ) (r : Message) (c : UdpClient)
    → r.primitive ≡ Primitive.floor_request_status
    → Reports rid s fid' r
    → after_request now fid (c, ok r)
      ≡ (apply_own_status now fid rid s (add_request now fid rid s c), ok rid)
after_request-Reports now fid rid s fid' r c prim (id, floor, status) =
    ground (arith, prim, id, status)

-- The server's answer to a floor request, as `sendUDPFloorStatusResponse` makes it and `sendUDP` sends
-- it to a peer of that version.
abbrev pub status_response : (version rid status fid : ℕ) → (req : Message) → Message
status_response v rid s fid req =
    outgoing_udp v
      (add_floor_request_information rid s fid (response udp Primitive.floor_request_status req))

abbrev bare_response : (version : ℕ) → (req : Message) → Message
bare_response v req = outgoing_udp v (response udp Primitive.floor_request_status req)

abbrev pub IsVersion : ℕ → Type 0
IsVersion v = (v ≡ 1) ⊎ (v ≡ 2)

status_response-bare :
    (v rid s fid : ℕ) (req : Message)
    → IsVersion v
    → status_response v rid s fid req
      ≡ add_floor_request_information rid s fid (bare_response v req)
unfolding add_floor_request_information new_message set_response
status_response-bare v rid s fid req (inl e) =
    subst
      (λ w.
        status_response w rid s fid req
        ≡ add_floor_request_information rid s fid (bare_response w req))
      (sym e) refl
status_response-bare v rid s fid req (inr e) =
    subst
      (λ w.
        status_response w rid s fid req
        ≡ add_floor_request_information rid s fid (bare_response w req))
      (sym e) refl

-- The settings fit the fields of a message.
abbrev pub ConfigFits : UdpClientConfig → Type 0
ConfigFits config = (config.conference_id < 4294967296) × IsWord config.user_id

-- The response without its attribute.
record IsBare (m : Message) : Type 0 where
  pub well_formed : IsWellFormed m
  pub no_attributes : m.attributes ≡ []
  pub is_status : m.primitive ≡ Primitive.floor_request_status

bare_response-IsBare :
    (v fid : ℕ) (c : UdpClient)
    → IsVersion v
    → ConfigFits c.config
    → IsBare (bare_response v (floor_request fid c))
unfolding next_transaction_id new_message set_response add_floor_id
bare_response-IsBare v fid c (inl e) (conference, user) =
    subst (λ w. IsBare (bare_response w (floor_request fid c))) (sym e)
      (record {
        well_formed = record {
          version_known = inl refl;
          reserved_fits = omega arith;
          primitive_fits = omega arith;
          conference_fits = conference;
          transaction_fits = omega arith;
          user_fits = user;
          encodable = tt;
          payload_fits = omega arith;
        };
        no_attributes = refl;
        is_status = refl;
      })
bare_response-IsBare v fid c (inr e) (conference, user) =
    subst (λ w. IsBare (bare_response w (floor_request fid c))) (sym e)
      (record {
        well_formed = record {
          version_known = inr refl;
          reserved_fits = omega arith;
          primitive_fits = omega arith;
          conference_fits = conference;
          transaction_fits = omega arith;
          user_fits = user;
          encodable = tt;
          payload_fits = omega arith;
        };
        no_attributes = refl;
        is_status = refl;
      })

-- The transaction of a floor request, when an attempt gets the response.
request_floor-returns :
    (script : ℕ → Attempt) (k fid : ℕ) (got : Message) (c : UdpClient)
    → c.is_closed ≡ false
    → k < c.config.max_retries
    → CanSend (floor_request fid c) c
    → ((i : ℕ) → i < k → IsIdle (floor_request fid c).transaction_id (script i))
    → IsAnswered (floor_request fid c) got (script k)
    → (transact script (floor_request fid c) (next_transaction_id c).0).1 ≡ ok got
unfolding next_transaction_id
request_floor-returns script k fid got c up room can idle answer =
    (transact-answered script k (floor_request fid c) got (next_transaction_id c).0 up room can idle
      answer).same_result

-- What `RequestFloor` makes of such a response, when the transaction returns it.
request_floor-got :
    (script : ℕ → Attempt) (now rid s fid : ℕ) (got : Message) (c : UdpClient)
    → let (c', tx) = next_transaction_id c in
      (transact script (floor_request fid c) c').1 ≡ ok got
      → got.primitive ≡ Primitive.floor_request_status
      → Reports rid s fid got
      → ((request_floor script now fid c).1 ≡ ok rid)
        × (has_floor fid (request_floor script now fid c).0 ≡ (s == RequestStatus.granted))
unfolding request_floor
request_floor-got script now rid s fid got c returns prim reported =
    let (c', tx) = next_transaction_id c in
    let (d, r) = transact script (floor_request fid c) c' in
    let whole : request_floor script now fid c ≡ after_request now fid (d, ok got) =
      ap (λ o. after_request now fid (d, o)) returns in
    let done = whole ∙ after_request-Reports now fid rid s fid got d prim reported in
    (ap (λ p. p.1) done, ap (λ p. has_floor fid p.0) done ∙ asked-has_floor now fid rid s d)

-- A floor request comes back as the server decided it. The client of `RequestFloor` asks for floor
-- `fid`; a server answers with request ID `rid` and status `s`, in version 1 or 2, and what `Decode` reads from the
-- octets of its response reaches the client while it waits behind its copy number `k + 1`. Then
-- `Encode` makes those octets, `RequestFloor` returns `rid`, and `HasFloor` says afterwards whether `s`
-- is Granted. The client is open and may send that many copies; the IDs, the status and the settings
-- fit their fields; before the response only messages of other transactions arrive.
pub request_floor-status_response :
    (script : ℕ → Attempt) (k now v rid s fid : ℕ) (got : Message) (c : UdpClient)
    → IsVersion v
    → IsWord rid
    → IsByte s
    → IsWord fid
    → ConfigFits c.config
    → c.is_closed ≡ false
    → k < c.config.max_retries
    → CanSend (floor_request fid c) c
    → ((i : ℕ) → i < k → IsIdle (floor_request fid c).transaction_id (script i))
    → decode (wire (status_response v rid s fid (floor_request fid c))) ≡ ok got
    → IsAnswered (floor_request fid c) got (script k)
    → let sent = status_response v rid s fid (floor_request fid c) in
      (encode sent ≡ some (prepared sent, wire sent))
      × ((request_floor script now fid c).1 ≡ ok rid)
      × (has_floor fid (request_floor script now fid c).0 ≡ (s == RequestStatus.granted))
request_floor-status_response script k now v rid s fid got c known hr hs hf fits up room can idle
      reads answer =
    let req = floor_request fid c in
    let bare = bare_response v req in
    let same = status_response-bare v rid s fid req known in
    let is_bare = bare_response-IsBare v fid c known fits in
    let (encoded, there) =
      attached-IsReported rid s fid bare [] hr hs hf is_bare.no_attributes is_bare.well_formed in
    let is_ok : ◌≡◌ {A = Result DecodeError Message} (ok there.got) (ok got) =
      sym there.decoded
      ∙ ap decode (append-nil (wire (add_floor_request_information rid s fid bare)))
      ∙ ap (λ m. decode (wire m)) (sym same)
      ∙ reads in
    let is_got : there.got ≡ got = cc in
    let (returned, held) =
      request_floor-got script now rid s fid got c
        (request_floor-returns script k fid got c up room can idle answer)
        (ap (λ m. m.primitive) (sym is_got) ∙ there.same_primitive ∙ is_bare.is_status)
        (subst (Reports rid s fid) is_got there.reports) in
    (subst (λ m. encode m ≡ some (prepared m, wire m)) (sym same) encoded, returned, held)
