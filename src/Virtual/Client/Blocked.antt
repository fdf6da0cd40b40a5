-- ===== src/Virtual/Client/Blocked.antt =====
-- `RequestFloor` of virtual/client.go when the floor is granted at once.
use bfcp.Base.{
  ℕ, ◌==◌, not, if◌then◌else◌, Bool, true, false, some, ◌≡◌, refl, ap, ◌∙◌, [], ◌∷◌, ◌++◌,
  append_assoc, length, drop, drop-append, arith,
}
use bfcp.Base.Result.{ok}
use bfcp.Types.Primitive
use bfcp.Types.RequestStatus
use bfcp.Message.{Message}
use bfcp.Message.Status.{Reports}
use bfcp.Client.{sent, on_floor_granted, Client, next_transaction_id}
use bfcp.Client.Calls.{after_request, request_floor}
use bfcp.Client.Exchange.{floor_request, answered_client, exchange-response}
use bfcp.Virtual.Client.{
  VirtualClient, RequestOptions, Outcome, blocked, news, any_wants_lock, reply_script,
}
use bfcp.Virtual.Client

after_request-granted :
    (now fid b p rid fid' : ℕ) (r : Message) (c : Client)
    → r.primitive ≡ Primitive.floor_request_status
    → Reports rid RequestStatus.granted fid' r
    → (after_request now fid b p (c, ok r)).0.log ≡ c.log ++ (on_floor_granted fid rid ∷ [])
after_request-granted now fid b p rid fid' r c prim (id, floor, status) =
    ground (arith, prim, id, status)

answered-log :
    (fid b p : ℕ) (r : Message) (c : Client)
    → (answered_client fid b p r c).log ≡ c.log ++ (sent (floor_request fid b p c) ∷ [])
unfolding next_transaction_id
answered-log fid b p r c = refl

-- The log of a call that is granted at once.
granted-log :
    (now now' fid b p rid : ℕ) (r : Message) (c : Client)
    → c.is_connected ≡ true
    → r.transaction_id ≡ (floor_request fid b p c).transaction_id
    → r.primitive ≡ Primitive.floor_request_status
    → Reports rid RequestStatus.granted fid r
    → (request_floor (reply_script true (some (now', r))) now fid b p c).0.log
      ≡ c.log ++ (sent (floor_request fid b p c) ∷ on_floor_granted fid rid ∷ [])
unfolding request_floor
granted-log now now' fid b p rid r c up same prim reported =
    let script = reply_script true (some (now', r)) in
    ap (λ e. (after_request now fid b p e).0.log)
      (exchange-response script now' [] fid b p r c up refl refl same)
    ∙ after_request-granted now fid b p rid fid r (answered_client fid b p r c) prim reported
    ∙ ap (λ l. l ++ (on_floor_granted fid rid ∷ [])) (answered-log fid b p r c)
    ∙ append_assoc c.log (sent (floor_request fid b p c) ∷ []) (on_floor_granted fid rid ∷ [])

-- The guards of `RequestFloor`, one after the other.
passes {ℓ} :
    {A : Type ℓ} (is_closed is_up no_floor waits : Bool) (x1 x2 x3 x4 x5 : A)
    → is_closed ≡ false
    → is_up ≡ true
    → no_floor ≡ false
    → waits ≡ true
    → (if is_closed
        then x1
        else if not is_up
        then x2
        else if no_floor
        then x3
        else if waits
        then x4
        else x5)
      ≡ x4
passes false true false true x1 x2 x3 x4 x5 a b c d = refl
passes true is_up no_floor waits x1 x2 x3 x4 x5 a b c d = absurd (let no : ⊥ = cc in no)
passes false false no_floor waits x1 x2 x3 x4 x5 a b c d = absurd (let no : ⊥ = cc in no)
passes false true true waits x1 x2 x3 x4 x5 a b c d = absurd (let no : ⊥ = cc in no)
passes false true false false x1 x2 x3 x4 x5 a b c d = absurd (let no : ⊥ = cc in no)

-- A floor that the server grants in its response is never had: `RequestFloor` does not return. The
-- client under it calls `OnFloorGranted` before it returns, and that hook waits for the lock that
-- `RequestFloor` holds. Here the client is open and connected, the floor ID is not 0, and the message
-- is a FloorRequestStatus under the transaction ID of the request that says Granted.
pub request_floor-blocked :
    (now now' fid rid : ℕ) (o : RequestOptions) (r : Message) (v : VirtualClient)
    → v.is_closed ≡ false
    → v.is_connected ≡ true
    → (fid == 0) ≡ false
    → v.client.is_connected ≡ true
    → r.transaction_id ≡ (floor_request fid o.beneficiary_id o.priority v.client).transaction_id
    → r.primitive ≡ Primitive.floor_request_status
    → Reports rid RequestStatus.granted fid r
    → (Client.request_floor true (some (now', r)) now fid o v).1 ≡ blocked
unfolding Client.request_floor
request_floor-blocked now now' fid rid o r v open_ up floor carrier same prim reported =
    let b = o.beneficiary_id in
    let p = o.priority in
    let req = floor_request fid b p v.client in
    let after = (request_floor (reply_script true (some (now', r))) now fid b p v.client).0 in
    let new : news v.client after ≡ sent req ∷ on_floor_granted fid rid ∷ [] =
      ap (drop (length v.client.log))
        (granted-log now now' fid b p rid r v.client carrier same prim reported)
      ∙ drop-append v.client.log (sent req ∷ on_floor_granted fid rid ∷ []) in
    let wants : any_wants_lock (news v.client after) ≡ true = ap any_wants_lock new in
    ap (λ (q : VirtualClient × Outcome ℕ). q.1)
      (passes v.is_closed v.is_connected (fid == 0) (any_wants_lock (news v.client after)) _ _ _ _ _
        open_ up floor wants)
