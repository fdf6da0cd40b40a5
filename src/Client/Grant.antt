-- ===== src/Client/Grant.antt =====
-- A floor request of client.go against a server that answers as server.go does over TCP: first that
-- the request is pending, and later, under the same transaction ID, that it is granted.
use bfcp.Base.{
  ℕ, ◌==◌, if◌then◌else◌, true, some, ◌≡◌, refl, sym, ap, ◌∙◌, List, [], ◌∷◌, ◌++◌, nat_eq, subst,
  arith,
}
use bfcp.Base.Dict.{lookup, insert, lookup-insert_self}
use bfcp.Base.Bytes.{IsWord}
use bfcp.Base.Result.{Result, ok}
use bfcp.Types.Primitive
use bfcp.Types.RequestStatus
use bfcp.Session.{floor_granted, floor_requested}
use bfcp.Message.{Message}
use bfcp.Message.Decode.{decode}
use bfcp.Message.Fields.{get_floor_request_id, get_request_status}
use bfcp.Message.Wire.{wire}
use bfcp.Message.Status.{Reports}
use bfcp.Client.{
  ActiveFloorRequest, Event, on_floor_granted, Client, emit, set_state, with_status, put_found,
  handle_message, handle_unsolicited, handle_floor_request_status, handle_floor_status,
  handle_error, status_update, or_zero, tell_status, route,
}
use bfcp.Client.Calls.{
  Happening, received, Script, CallError, requested, after_request, request_floor,
}
use bfcp.Client.Runs.{requests, perform}
use bfcp.Client.Settled.{Absent, perform-Absent}
use bfcp.Client.Exchange.{floor_request, answered_client, exchange-response}
use bfcp.Client.Response.{status_response, ConfigFits, decoded-Arrives}

-- A status for a floor in the table, under a transaction ID that no call waits for.
handle_message-granted :
    (now rid fid : ℕ) (m : Message) (req : ActiveFloorRequest) (c : Client)
    → Absent m.transaction_id c
    → m.primitive ≡ Primitive.floor_request_status
    → Reports rid RequestStatus.granted fid m
    → lookup fid c.active_requests ≡ some req
    → handle_message now m c
      ≡ emit (on_floor_granted fid rid) (
          set_state floor_granted (record c {
            active_requests =
                insert fid (with_status now RequestStatus.granted req) c.active_requests;
          }))
unfolding handle_message handle_unsolicited handle_floor_request_status
handle_message-granted now rid fid m req c free prim (id, floor, status) found =
    ap (λ o. route now o m c) free
    ∙ (let switch : handle_unsolicited now m c ≡ handle_floor_request_status now m c =
          ap
            (λ k.
              if k == 4
              then handle_floor_request_status now m c
              else if k == 8
              then handle_floor_status m c
              else if k == 13
              then handle_error m c
              else c)
            prim in
        switch)
    ∙ ap (λ o. status_update now o (or_zero (get_floor_request_id m)) (get_request_status m) c)
        floor
    ∙ ap (λ o. status_update now (some fid) (or_zero o) (get_request_status m) c) id
    ∙ ap (λ o. status_update now (some fid) rid o c) status
    ∙ ap (λ o. tell_status fid rid 3 (put_found now fid 3 o c)) found

-- The client after a response that the request is pending.
abbrev pending_client : (now fid beneficiary priority rid : ℕ) → Client → Client
pending_client now fid b p rid c =
    set_state floor_requested
      (record c { active_requests = insert fid (requested now fid b p rid 1) c.active_requests })

after_request-pending :
    (now fid b p rid fid' : ℕ) (r : Message) (c : Client)
    → r.primitive ≡ Primitive.floor_request_status
    → Reports rid RequestStatus.pending fid' r
    → after_request now fid b p (c, ok r) ≡ (pending_client now fid b p rid c, ok rid)
after_request-pending now fid b p rid fid' r c prim (id, floor, status) =
    ground (arith, prim, id, status)

request_floor-pending :
    (script : Script) (now : ℕ) (later : List Happening) (fid b p rid : ℕ) (r : Message)
    (c : Client)
    → c.is_connected ≡ true
    → script.sends ≡ true
    → script.meanwhile ≡ received now r ∷ later
    → r.transaction_id ≡ (floor_request fid b p c).transaction_id
    → r.primitive ≡ Primitive.floor_request_status
    → Reports rid RequestStatus.pending fid r
    → request_floor script now fid b p c
      ≡ (pending_client now fid b p rid (answered_client fid b p r c), ok rid)
unfolding request_floor
request_floor-pending script now later fid b p rid r c up sends shape same prim reported =
    ap (after_request now fid b p)
      (exchange-response script now later fid b p r c up sends shape same)
    ∙ after_request-pending now fid b p rid fid r (answered_client fid b p r c) prim reported

-- The client knows that it has the floor.
pub record IsGranted (now rid fid : ℕ) (c : Client) : Type 0 where
  pub request : ActiveFloorRequest
  pub in_table : lookup fid c.active_requests ≡ some request
  pub same_id : request.floor_request_id ≡ rid
  pub is_granted : request.status ≡ RequestStatus.granted
  pub since : request.granted_at ≡ now
  pub state : c.state ≡ floor_granted
  pub told_before : List Event
  pub told_last : c.log ≡ told_before ++ (on_floor_granted fid rid ∷ [])

-- A floor request over TCP that the server grants after a while. The server's two statuses, Pending and
-- Granted, reach the client as `Decode` reads them: the first while `RequestFloor` waits, which then
-- returns the request ID, and the second afterwards, under the same transaction ID. Then the client is
-- in state FloorGranted, its table has the request as granted, since the time of the second message,
-- and the last thing it did is to call `OnFloorGranted` with the floor and the request. The client is
-- connected and waits for no other response under that ID; the IDs and the settings fit their
-- fields.
pub request_floor-IsGranted :
    (script : Script) (now now' : ℕ) (later : List Happening) (fid b p rid : ℕ)
    (first second : Message) (c : Client)
    → IsWord rid
    → IsWord fid
    → ConfigFits c.config
    → c.is_connected ≡ true
    → Absent second.transaction_id c
    → script.sends ≡ true
    → script.meanwhile ≡ received now first ∷ later
    → decode (wire (status_response rid RequestStatus.pending fid (floor_request fid b p c)))
      ≡ ok first
    → decode (wire (status_response rid RequestStatus.granted fid (floor_request fid b p c)))
      ≡ ok second
    → let (after, returned) = request_floor script now fid b p c in
      (returned ≡ ok rid) × IsGranted now' rid fid (handle_message now' second after)
unfolding perform
request_floor-IsGranted script now now' later fid b p rid first second c hr hf fits up free sends
      shape reads reads' =
    let one = decoded-Arrives rid 1 fid b p first c hr (omega arith) hf fits reads in
    let two = decoded-Arrives rid 3 fid b p second c hr (omega arith) hf fits reads' in
    let mid = answered_client fid b p first c in
    let pend = pending_client now fid b p rid mid in
    let whole =
      request_floor-pending script now later fid b p rid first c up sends shape one.same_tx
        one.is_status one.says in
    let still : Absent second.transaction_id pend =
      subst (λ (r : Client × Result CallError ℕ). Absent second.transaction_id r.0) whole
        (perform-Absent second.transaction_id (requests script now fid b p) c free) in
    let req = requested now fid b p rid 1 in
    let done =
      handle_message-granted now' rid fid second req pend still two.is_status two.says
        (lookup-insert_self fid req mid.active_requests) in
    let told = emit (on_floor_granted fid rid) (
      set_state floor_granted (record pend {
        active_requests = insert fid (with_status now' 3 req) pend.active_requests;
      })) in
    let there : IsGranted now' rid fid told = record {
      request = with_status now' 3 req;
      in_table = lookup-insert_self fid (with_status now' 3 req) pend.active_requests;
      same_id = refl;
      is_granted = refl;
      since = refl;
      state = refl;
      told_before = pend.log;
      told_last = refl;
    } in
    (
      ap (λ (r : Client × Result CallError ℕ). r.1) whole,
      subst
          (λ (r : Client × Result CallError ℕ).
            IsGranted now' rid fid (handle_message now' second r.0))
          (sym whole) (subst (IsGranted now' rid fid) (sym done) there),
    )
