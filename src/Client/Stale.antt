-- ===== src/Client/Stale.antt =====
-- The table of active requests of client.go, as the messages of the server leave it.
use bfcp.Base.{
  ℕ, ◌==◌, if◌then◌else◌, Bool, Bool-cases, true, false, Option, none, some, ◌≡◌, refl, sym, ap,
  ◌∙◌, inl, inr, List, [], ◌∷◌, nat_eq, ==_iff,
}
use bfcp.Base.Dict.{lookup, lookup-insert}
use bfcp.Message.{Message}
use bfcp.Message.Fields.{get_floor_id, get_floor_request_id, get_request_status}
use bfcp.Client.{
  ActiveFloorRequest, Client, with_status, put_found, tell_status, status_update, or_zero,
  handle_floor_request_status, status_seen, handle_floor_status, handle_error, handle_unsolicited,
  route, handle_message,
}

-- The table has a request for the floor, under this request ID.
pub record Keeps (fid rid : ℕ) (c : Client) : Type 0 where
  pub request : ActiveFloorRequest
  pub in_table : lookup fid c.active_requests ≡ some request
  pub same_id : request.floor_request_id ≡ rid

if-Keeps :
    (b : Bool) {fid rid : ℕ} {c d : Client}
    → Keeps fid rid c
    → Keeps fid rid d
    → Keeps fid rid (if b then c else d)
if-Keeps true h k = h
if-Keeps false h k = k

moved-Keeps :
    {fid rid : ℕ} (c d : Client)
    → d.active_requests ≡ c.active_requests
    → Keeps fid rid c
    → Keeps fid rid d
moved-Keeps {fid = fid} c d same k = record {
  request = k.request;
  in_table = ap (lookup fid) same ∙ k.in_table;
  same_id = k.same_id;
}

tell_status-Keeps :
    (fid rid f r s : ℕ) (c : Client) → Keeps fid rid c → Keeps fid rid (tell_status f r s c)
tell_status-Keeps fid rid f r s c k =
    let same : (d : Client) → d.active_requests ≡ c.active_requests → Keeps fid rid d =
      λ d e. moved-Keeps c d e k in
    if-Keeps (s == 3) (same _ refl) (
      if-Keeps (s == 4) (same _ refl)
        (if-Keeps (s == 6) (same _ refl) (if-Keeps (s == 7) (same _ refl) k)))

put_found-Keeps :
    (fid rid now f s : ℕ) (o : Option ActiveFloorRequest) (c : Client)
    → lookup f c.active_requests ≡ o
    → Keeps fid rid c
    → Keeps fid rid (put_found now f s o c)
put_found-Keeps fid rid now f s none c at k = k
put_found-Keeps fid rid now f s (some req) c at k =
    let found = lookup-insert f fid (with_status now s req) c.active_requests in
    elim (Bool-cases (f == fid)) [
      | inl x ↦
          let same : some req ≡ some k.request =
            sym at ∙ ap (λ i. lookup i c.active_requests) ((==_iff f fid).0 x) ∙ k.in_table in
          record {
            request = with_status now s req;
            in_table =
                found
                ∙ ap (λ b. if b then some (with_status now s req) else lookup fid c.active_requests)
                    x;
            same_id = let e : req ≡ k.request = cc in ap (λ q. q.floor_request_id) e ∙ k.same_id;
          }
      | inr x ↦ record {
        request = k.request;
        in_table =
            found
            ∙ ap (λ b. if b then some (with_status now s req) else lookup fid c.active_requests) x
            ∙ k.in_table;
        same_id = k.same_id;
      }
    ]

status_update-Keeps :
    (fid rid now r : ℕ) (o : Option ℕ) (p : Option (ℕ × ℕ)) (c : Client)
    → Keeps fid rid c
    → Keeps fid rid (status_update now o r p c)
status_update-Keeps fid rid now r none p c k = k
status_update-Keeps fid rid now r (some f) none c k = k
status_update-Keeps fid rid now r (some f) (some (s, q)) c k =
    tell_status-Keeps fid rid f r s (put_found now f s (lookup f c.active_requests) c)
      (put_found-Keeps fid rid now f s (lookup f c.active_requests) c refl k)

status_seen-Keeps :
    (fid rid : ℕ) (o : Option ℕ) (p : Option (ℕ × ℕ)) (c : Client)
    → Keeps fid rid c
    → Keeps fid rid (status_seen o p c)
status_seen-Keeps fid rid none p c k = k
status_seen-Keeps fid rid (some f) none c k = k
status_seen-Keeps fid rid (some f) (some (s, q)) c k = moved-Keeps c _ refl k

handle_unsolicited-Keeps :
    (fid rid now : ℕ) (m : Message) (c : Client)
    → Keeps fid rid c
    → Keeps fid rid (handle_unsolicited now m c)
unfolding handle_unsolicited handle_floor_request_status handle_floor_status handle_error
handle_unsolicited-Keeps fid rid now m c k =
    let r = or_zero (get_floor_request_id m) in
    if-Keeps (m.primitive == 4)
      (status_update-Keeps fid rid now r (get_floor_id m) (get_request_status m) c k)
      (if-Keeps (m.primitive == 8)
        (status_seen-Keeps fid rid (get_floor_id m) (get_request_status m) c k)
        (if-Keeps (m.primitive == 13) (moved-Keeps c _ refl k) k))

route-Keeps :
    (fid rid now : ℕ) (o : Option (Option Message)) (m : Message) (c : Client)
    → Keeps fid rid c
    → Keeps fid rid (route now o m c)
route-Keeps fid rid now none m c k = handle_unsolicited-Keeps fid rid now m c k
route-Keeps fid rid now (some (some r)) m c k = handle_unsolicited-Keeps fid rid now m c k
route-Keeps fid rid now (some none) m c k = moved-Keeps c _ refl k

abbrev pub receive_all : List (ℕ × Message) → Client → Client
receive_all [] c = c
receive_all ((now, m) ∷ later) c = receive_all later (handle_message now m c)

-- The server cannot end a request in the client's table. Whatever messages arrive, a FloorRequestStatus
-- that says Denied, Cancelled, Released or Revoked among them, the request for the floor stays there
-- under its request ID.
pub receive_all-Keeps :
    (fid rid : ℕ) (ms : List (ℕ × Message)) (c : Client)
    → Keeps fid rid c
    → Keeps fid rid (receive_all ms c)
unfolding handle_message
receive_all-Keeps fid rid [] c k = k
receive_all-Keeps fid rid ((now, m) ∷ later) c k =
    receive_all-Keeps fid rid later (handle_message now m c)
      (route-Keeps fid rid now (lookup m.transaction_id c.pending_responses) m c k)
