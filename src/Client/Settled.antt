-- ===== src/Client/Settled.antt =====
-- The transactions of client.go do not outlast their calls.
use bfcp.Base.{
  ℕ, ◌==◌, ◌||◌, not, if◌then◌else◌, Bool, Bool-cases, true, false, Option, none, some, ◌≡◌, refl,
  sym, ap, ◌∙◌, inl, inr, List, [], ◌∷◌, nat_eq, ==_iff,
}
use bfcp.Base.Dict.{lookup, lookup-insert, lookup-remove}
use bfcp.Base.Result.{Result, ok, err}
use bfcp.Types.Primitive
use bfcp.Message.{Message}
use bfcp.Message.Fields.{
  get_floor_id, get_floor_request_id, get_request_status, get_error_code, get_error_info,
}
use bfcp.Client.{
  sent, emit, ActiveFloorRequest, ClientConfig, Client, new_client, next_transaction_id, put_found,
  tell_status, status_update, or_zero, handle_floor_request_status, status_seen,
  handle_floor_status, handle_error, handle_unsolicited, route, handle_message, connection_closed,
}
use bfcp.Client.Calls.{
  Happening, received, hangs_up, Script, CallError, not_connected, send_failed, unexpected, refused,
  slot, or_else, wait_for, open_response, close_response, send_and_wait, exchange, connect,
  hello_message, after_hello, hello, floor_request_message, told, take_status, after_request,
  request_floor, release_message, after_release, release_floor, release_found, query_message,
  query_floor, goodbye, disconnect,
}
use bfcp.Client.Runs.{
  Call, says_hello, requests, releases, queries, says_goodbye, disconnects, Move, calls, connects,
  receives, loses_connection, perform, move, move_all,
}

-- No response is awaited under the transaction ID.
abbrev pub Absent : ℕ → Client → Type 0
Absent t c = lookup t c.pending_responses ≡ none

if-Absent :
    (t : ℕ) (b : Bool) (c d : Client) → Absent t c → Absent t d → Absent t (if b then c else d)
if-Absent t true c d h k = h
if-Absent t false c d h k = k

tell_status-Absent :
    (t fid rid s : ℕ) (c : Client) → Absent t c → Absent t (tell_status fid rid s c)
tell_status-Absent t fid rid s c h =
    if-Absent t (s == 3) _ _ h
      (if-Absent t (s == 4) _ _ h (if-Absent t (s == 6) _ _ h (if-Absent t (s == 7) _ _ h h)))

put_found-Absent :
    (t now fid s : ℕ) (o : Option ActiveFloorRequest) (c : Client)
    → Absent t c
    → Absent t (put_found now fid s o c)
put_found-Absent t now fid s none c h = h
put_found-Absent t now fid s (some req) c h = h

status_update-Absent :
    (t now rid : ℕ) (o : Option ℕ) (p : Option (ℕ × ℕ)) (c : Client)
    → Absent t c
    → Absent t (status_update now o rid p c)
status_update-Absent t now rid none p c h = h
status_update-Absent t now rid (some fid) none c h = h
status_update-Absent t now rid (some fid) (some (s, q)) c h =
    tell_status-Absent t fid rid s (put_found now fid s (lookup fid c.active_requests) c)
      (put_found-Absent t now fid s (lookup fid c.active_requests) c h)

status_seen-Absent :
    (t : ℕ) (o : Option ℕ) (p : Option (ℕ × ℕ)) (c : Client)
    → Absent t c
    → Absent t (status_seen o p c)
status_seen-Absent t none p c h = h
status_seen-Absent t (some fid) none c h = h
status_seen-Absent t (some fid) (some (s, q)) c h = h

handle_unsolicited-Absent :
    (t now : ℕ) (m : Message) (c : Client) → Absent t c → Absent t (handle_unsolicited now m c)
unfolding handle_unsolicited handle_floor_request_status handle_floor_status handle_error
handle_unsolicited-Absent t now m c h =
    let rid = or_zero (get_floor_request_id m) in
    if-Absent t (m.primitive == 4) _ _
      (status_update-Absent t now rid (get_floor_id m) (get_request_status m) c h)
      (if-Absent t (m.primitive == 8) _ _
        (status_seen-Absent t (get_floor_id m) (get_request_status m) c h)
        (if-Absent t (m.primitive == 13) _ _ h h))

route-Absent :
    (t now : ℕ) (o : Option (Option Message)) (m : Message) (c : Client)
    → lookup m.transaction_id c.pending_responses ≡ o
    → Absent t c
    → Absent t (route now o m c)
route-Absent t now none m c at h = handle_unsolicited-Absent t now m c h
route-Absent t now (some (some r)) m c at h = handle_unsolicited-Absent t now m c h
route-Absent t now (some none) m c at h = elim (Bool-cases (m.transaction_id == t)) [
  | inl x ↦
      let here : lookup t c.pending_responses ≡ some none =
        ap (λ k. lookup k c.pending_responses) (sym ((==_iff m.transaction_id t).0 x)) ∙ at in
      absurd (let no : ⊥ = cc in no)
  | inr x ↦
      lookup-insert m.transaction_id t (some m) c.pending_responses
      ∙ ap (λ b. if b then some (some m) else lookup t c.pending_responses) x
      ∙ h
]

handle_message-Absent :
    (t now : ℕ) (m : Message) (c : Client) → Absent t c → Absent t (handle_message now m c)
unfolding handle_message
handle_message-Absent t now m c h =
    route-Absent t now (lookup m.transaction_id c.pending_responses) m c refl h

or_else-Absent :
    (t : ℕ) (o : Option Message) (d : Client) (later : Client × Result CallError Message)
    → Absent t d
    → Absent t later.0
    → Absent t (or_else o later d).0
or_else-Absent t (some m) d later h k = h
or_else-Absent t none d later h k = k

wait_for-Absent :
    (t tx : ℕ) (hs : List Happening) (c : Client) → Absent t c → Absent t (wait_for tx hs c).0
unfolding wait_for
wait_for-Absent t tx [] c h = h
wait_for-Absent t tx (hangs_up ∷ later) c h =
    wait_for-Absent t tx later (connection_closed c) (unfold connection_closed in h)
wait_for-Absent t tx (received now m ∷ later) c h =
    let c' = handle_message now m c in
    let h' = handle_message-Absent t now m c h in
    or_else-Absent t (slot tx c') c' (wait_for tx later c') h' (wait_for-Absent t tx later c' h')

opened-Absent :
    (t tx : ℕ) (c : Client) → (tx == t) ≡ false → Absent t c → Absent t (open_response tx c)
opened-Absent t tx c other h =
    lookup-insert tx t none c.pending_responses
    ∙ ap (λ b. if b then some none else lookup t c.pending_responses) other
    ∙ h

closed-Absent :
    (t tx : ℕ) (r : Client × Result CallError Message)
    → ((tx == t) ≡ false → Absent t r.0)
    → Absent t (close_response tx r).0
closed-Absent t tx (d, r) h = elim (Bool-cases (tx == t)) [
  | inl x ↦
      lookup-remove tx t d.pending_responses
      ∙ ap (λ b. if b then none else lookup t d.pending_responses) x
  | inr x ↦
      lookup-remove tx t d.pending_responses
      ∙ ap (λ b. if b then none else lookup t d.pending_responses) x
      ∙ h x
]

if_first-Absent :
    {B : Type 0} (t : ℕ) (b : Bool) (p q : Client × B)
    → Absent t p.0
    → Absent t q.0
    → Absent t (if b then p else q).0
if_first-Absent t true p q h k = h
if_first-Absent t false p q h k = k

send_and_wait-Absent :
    (t : ℕ) (script : Script) (m : Message) (c : Client)
    → Absent t c
    → Absent t (send_and_wait script m c).0
unfolding send_and_wait
send_and_wait-Absent t script m c h =
    let tx = m.transaction_id in
    let d = open_response tx c in
    let waited = wait_for tx script.meanwhile (emit (sent m) d) in
    closed-Absent t tx (if script.sends then waited else (d, err send_failed)) (λ other.
      let h' = opened-Absent t tx c other h in
      if_first-Absent t script.sends waited (d, err send_failed)
        (wait_for-Absent t tx script.meanwhile (emit (sent m) d) h') h')

exchange-Absent :
    (t : ℕ) (script : Script) (build : ℕ → Client → Message) (c : Client)
    → Absent t c
    → Absent t (exchange script build c).0
unfolding next_transaction_id
exchange-Absent t script build c h =
    let (d, tx) = next_transaction_id c in
    if_first-Absent t (not c.is_connected) (c, err not_connected)
      (send_and_wait script (build tx d) d) h (send_and_wait-Absent t script (build tx d) d h)

after_hello-Absent :
    (t : ℕ) (r : Client × Result CallError Message) → Absent t r.0 → Absent t (after_hello r).0
after_hello-Absent t (c, err e) h = h
after_hello-Absent t (c, ok m) h =
    if_first-Absent t (not (m.primitive == Primitive.hello_ack)) (c, err (unexpected m.primitive)) _
      h h

told-Absent : (t fid rid s : ℕ) (c : Client) → Absent t c → Absent t (told fid rid s c)
told-Absent t fid rid s c h =
    if-Absent t (s == 3) _ _ h (if-Absent t ((s == 1) || (s == 2)) _ _ h h)

take_status-Absent :
    (t now fid b p : ℕ) (o : Option ℕ) (q : Option (ℕ × ℕ)) (c : Client)
    → Absent t c
    → Absent t (take_status now fid b p o q c).0
take_status-Absent t now fid b p none q c h = h
take_status-Absent t now fid b p (some rid) none c h = h
take_status-Absent t now fid b p (some rid) (some (s, q)) c h = told-Absent t fid rid s _ h

after_request-Absent :
    (t now fid b p : ℕ) (r : Client × Result CallError Message)
    → Absent t r.0
    → Absent t (after_request now fid b p r).0
after_request-Absent t now fid b p (c, err e) h = h
after_request-Absent t now fid b p (c, ok m) h =
    let failed = refused (get_error_code m) (get_error_info m) in
    if_first-Absent t (m.primitive == Primitive.error) (c, err failed) _ h
      (if_first-Absent t (not (m.primitive == Primitive.floor_request_status))
        (c, err (unexpected m.primitive)) _ h
        (take_status-Absent t now fid b p (get_floor_request_id m) (get_request_status m) c h))

after_release-Absent :
    (t fid : ℕ) (r : Client × Result CallError Message)
    → Absent t r.0
    → Absent t (after_release fid r).0
after_release-Absent t fid (c, err e) h = h
after_release-Absent t fid (c, ok m) h =
    let failed = refused (get_error_code m) (get_error_info m) in
    if_first-Absent t (m.primitive == Primitive.error) (c, err failed) _ h h

found-Absent :
    (t fid : ℕ) (script : Script) (o : Option ActiveFloorRequest) (c : Client)
    → Absent t c
    → Absent t (release_found script fid o c).0
found-Absent t fid script none c h = h
found-Absent t fid script (some req) c h =
    after_release-Absent t fid (exchange script (release_message fid req.floor_request_id) c)
      (exchange-Absent t script (release_message fid req.floor_request_id) c h)

goodbye-Absent : (t : ℕ) (sends : Bool) (c : Client) → Absent t c → Absent t (goodbye sends c).0
unfolding goodbye next_transaction_id
goodbye-Absent t sends c h =
    if_first-Absent t (not c.is_connected) _ _ h (if_first-Absent t sends _ _ h h)

pub perform-Absent : (t : ℕ) (call : Call) (c : Client) → Absent t c → Absent t (perform call c)
unfolding perform hello request_floor release_floor query_floor disconnect
perform-Absent t (says_hello script) c h =
    after_hello-Absent t (exchange script hello_message c)
      (exchange-Absent t script hello_message c h)
perform-Absent t (requests script now fid b p) c h =
    after_request-Absent t now fid b p (exchange script (floor_request_message fid b p) c)
      (exchange-Absent t script (floor_request_message fid b p) c h)
perform-Absent t (releases script fid) c h =
    if_first-Absent t (not c.is_connected) _ _ h
      (found-Absent t fid script (lookup fid c.active_requests) c h)
perform-Absent t (queries script fid) c h = exchange-Absent t script (query_message fid) c h
perform-Absent t (says_goodbye sends) c h = goodbye-Absent t sends c h
perform-Absent t (disconnects sends) c h =
    if-Absent t (not c.is_connected) _ _ h (goodbye-Absent t sends c h)

move-Absent : (t : ℕ) (x : Move) (c : Client) → Absent t c → Absent t (move x c)
unfolding move connect connection_closed
move-Absent t (calls call) c h = perform-Absent t call c h
move-Absent t (connects dials) c h =
    if_first-Absent t c.is_connected _ _ h (if_first-Absent t dials _ _ h h)
move-Absent t (receives now m) c h = handle_message-Absent t now m c h
move-Absent t loses_connection c h = h

move_all-Absent : (t : ℕ) (xs : List Move) (c : Client) → Absent t c → Absent t (move_all xs c)
unfolding move_all
move_all-Absent t [] c h = h
move_all-Absent t (x ∷ xs) c h = move_all-Absent t xs (move x c) (move-Absent t x c h)

-- Whatever the application and the server do to a new client, connected or not, and whatever comes of
-- its calls (a response, an error, no response in time, a message that cannot be sent, a connection
-- that is lost on the way), afterwards it waits for no response: each call takes its transaction out
-- of the table again.
pub new-move_all-Absent :
    (config : ClientConfig) (xs : List Move) (t : ℕ) → Absent t (move_all xs (new_client config))
unfolding new_client
new-move_all-Absent config xs t = move_all-Absent t xs (new_client config) (unfold lookup in refl)
