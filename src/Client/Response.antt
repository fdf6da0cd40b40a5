-- ===== src/Client/Response.antt =====
-- The statuses that a server sends in answer to a request of client.go, as the client decodes them.
use bfcp.Base.{
  ℕ, ◌<◌, if◌then◌else◌, ltb, Bool, true, false, ◌≡◌, refl, sym, ap, ◌∙◌, inl, List, [], append-nil,
  nat_eq, subst, arith,
}
use bfcp.Base.Bytes.{IsWord, IsByte}
use bfcp.Base.Result.{Result, ok}
use bfcp.Types.Primitive
use bfcp.Message.{
  Attribute, Message, new_message, add_attribute, add_floor_id, add_beneficiary_id, add_priority,
}
use bfcp.Message.Decode.{DecodeError, decode}
use bfcp.Message.Tlv.{add_floor_request_information}
use bfcp.Message.Wire.{wire}
use bfcp.Message.RoundTrip.{IsWellFormed}
use bfcp.Message.Status.{Reports, attached-IsReported}
use bfcp.Server.{tcp}
use bfcp.Server.Send.{response}
use bfcp.Client.{Client, ClientConfig, next_transaction_id}
use bfcp.Client.Calls.{request_message}
use bfcp.Client.Exchange.{floor_request}

-- What the server sends for the two statuses.
abbrev pub status_response : (rid status fid : ℕ) → (req : Message) → Message
status_response rid s fid req =
    add_floor_request_information rid s fid (response tcp Primitive.floor_request_status req)

pub if-same :
    (f : Message → ℕ) (b : Bool) (m m' : Message) (n : ℕ)
    → f m ≡ n
    → f m' ≡ n
    → f (if b then m else m') ≡ n
if-same f true m m' n h k = h
if-same f false m m' n h k = k

-- A header field that the attributes do not change.
abbrev Field : (Message → ℕ) → Type 0
Field f = (m : Message) (attrs : List Attribute) → f (record m { attributes = attrs }) ≡ f m

floor_request-Field :
    (f : Message → ℕ) (fid b p : ℕ) (c : Client)
    → Field f
    → let (d, tx) = next_transaction_id c in
      f (floor_request fid b p c) ≡ f (request_message Primitive.floor_request tx d)
unfolding add_floor_id add_beneficiary_id add_priority add_attribute
floor_request-Field f fid b p c field =
    let (d, tx) = next_transaction_id c in
    let bare = request_message Primitive.floor_request tx d in
    let m = add_floor_id fid bare in
    let m' = if ltb 0 b then add_beneficiary_id b m else m in
    let first : f m ≡ f bare = field bare _ in
    let second : f m' ≡ f bare = if-same f (ltb 0 b) _ m (f bare) (field m _ ∙ first) first in
    if-same f (ltb 0 p) _ m' (f bare) (field m' _ ∙ second) second

-- The settings fit the fields of a message.
abbrev pub ConfigFits : ClientConfig → Type 0
ConfigFits config = (config.conference_id < 4294967296) × IsWord config.user_id

response-IsWellFormed :
    (fid b p : ℕ) (c : Client)
    → ConfigFits c.config
    → IsWellFormed (response tcp Primitive.floor_request_status (floor_request fid b p c))
unfolding next_transaction_id new_message
response-IsWellFormed fid b p c (conference, user) = record {
  version_known = inl refl;
  reserved_fits = omega arith;
  primitive_fits = omega arith;
  conference_fits =
      subst (λ n. n < 4294967296)
        (sym (floor_request-Field (λ m. m.conference_id) fid b p c (λ m attrs. refl))) conference;
  transaction_fits =
      subst IsWord (sym (floor_request-Field (λ m. m.transaction_id) fid b p c (λ m attrs. refl)))
        (omega arith);
  user_fits =
      subst IsWord (sym (floor_request-Field (λ m. m.user_id) fid b p c (λ m attrs. refl))) user;
  encodable = tt;
  payload_fits = omega arith;
}

-- What arrives of a status of the server.
pub record Arrives (rid s fid : ℕ) (req got : Message) : Type 0 where
  pub is_status : got.primitive ≡ Primitive.floor_request_status
  pub same_tx : got.transaction_id ≡ req.transaction_id
  pub says : Reports rid s fid got

pub decoded-Arrives :
    (rid s fid b p : ℕ) (got : Message) (c : Client)
    → IsWord rid
    → IsByte s
    → IsWord fid
    → ConfigFits c.config
    → decode (wire (status_response rid s fid (floor_request fid b p c))) ≡ ok got
    → Arrives rid s fid (floor_request fid b p c) got
decoded-Arrives rid s fid b p got c hr hs hf fits reads =
    let req = floor_request fid b p c in
    let bare = response tcp Primitive.floor_request_status req in
    let (encoded, there) =
      attached-IsReported rid s fid bare [] hr hs hf (unfold new_message in refl)
        (response-IsWellFormed fid b p c fits) in
    let is_ok : ◌≡◌ {A = Result DecodeError Message} (ok there.got) (ok got) =
      sym there.decoded ∙ ap decode (append-nil (wire (status_response rid s fid req))) ∙ reads in
    let is_got : there.got ≡ got = cc in
    record {
      is_status =
          ap (λ m. m.primitive) (sym is_got) ∙ there.same_primitive ∙ (unfold new_message in refl);
      same_tx =
          ap (λ m. m.transaction_id) (sym is_got)
          ∙ there.same_transaction
          ∙ (unfold new_message in refl);
      says = subst (Reports rid s fid) is_got there.reports;
    }
