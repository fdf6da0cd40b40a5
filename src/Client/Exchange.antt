-- ===== src/Client/Exchange.antt =====
-- A request of client.go that gets its response.
use bfcp.Base.{ℕ, not, if◌then◌else◌, true, none, some, ◌≡◌, refl, ap, ◌∙◌, List, ◌∷◌, nat_eq}
use bfcp.Base.Dict.{lookup, insert, remove, lookup-insert_self}
use bfcp.Base.Result.{ok, err}
use bfcp.Message.{Message}
use bfcp.Client.{Client, emit, sent, next_transaction_id, handle_message, route}
use bfcp.Client.Calls.{
  Happening, received, Script, not_connected, send_failed, slot, or_else, wait_for, open_response,
  close_response, send_and_wait, exchange, floor_request_message,
}

-- The response is taken when it comes.
wait_for-response :
    (now : ℕ) (r : Message) (tx : ℕ) (later : List Happening) (c : Client)
    → r.transaction_id ≡ tx
    → lookup tx c.pending_responses ≡ some none
    → wait_for tx (received now r ∷ later) c
      ≡ (record c { pending_responses = insert tx (some r) c.pending_responses }, ok r)
unfolding wait_for handle_message
wait_for-response now r tx later c e waits =
    let d : Client = record c { pending_responses = insert tx (some r) c.pending_responses } in
    let here : lookup r.transaction_id c.pending_responses ≡ some none =
      ap (λ t. lookup t c.pending_responses) e ∙ waits in
    let got : handle_message now r c ≡ d =
      ap (λ o. route now o r c) here
      ∙ ap (λ t. record c { pending_responses = insert t (some r) c.pending_responses }) e in
    let full : slot tx d ≡ some r =
      rw (lookup-insert_self tx (some r) c.pending_responses, slot) refl in
    ap (λ x. or_else (slot tx x) (wait_for tx later x) x) got
    ∙ ap (λ o. or_else o (wait_for tx later d) d) full

-- The request that `RequestFloor` sends.
abbrev pub floor_request : (fid beneficiary priority : ℕ) → Client → Message
floor_request fid b p c0 =
    let (c, tx) = next_transaction_id c0 in floor_request_message fid b p tx c

-- The client as the response is taken from the channel.
abbrev pub answered_client : (fid beneficiary priority : ℕ) → Message → Client → Client
answered_client fid b p r c0 =
    let req = floor_request fid b p c0 in
    let tx = req.transaction_id in
    let c = emit (sent req) (open_response tx (next_transaction_id c0).0) in
    record c { pending_responses = remove tx (insert tx (some r) c.pending_responses) }

pub exchange-response :
    (script : Script) (now : ℕ) (later : List Happening) (fid b p : ℕ) (r : Message) (c : Client)
    → c.is_connected ≡ true
    → script.sends ≡ true
    → script.meanwhile ≡ received now r ∷ later
    → r.transaction_id ≡ (floor_request fid b p c).transaction_id
    → exchange script (floor_request_message fid b p) c ≡ (answered_client fid b p r c, ok r)
unfolding send_and_wait
exchange-response script now later fid b p r c up sends shape same =
    let (d, drawn) = next_transaction_id c in
    let req = floor_request fid b p c in
    let tx = req.transaction_id in
    let e = open_response tx d in
    let reached : wait_for tx script.meanwhile (emit (sent req) e) ≡ (
      record (emit (sent req) e) { pending_responses = insert tx (some r) e.pending_responses },
      ok r,
    ) =
      ap (λ l. wait_for tx l (emit (sent req) e)) shape
      ∙ wait_for-response now r tx later (emit (sent req) e) same
          (lookup-insert_self tx none d.pending_responses) in
    ap (λ b. if not b then (c, err not_connected) else send_and_wait script req d) up
    ∙ ap
        (λ b.
          close_response tx
            (if b then wait_for tx script.meanwhile (emit (sent req) e) else (e, err send_failed)))
        sends
    ∙ ap (close_response tx) reached
