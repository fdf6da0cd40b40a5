-- ===== src/Server/Answers.antt =====
-- Who is sent what: the messages of the log that go to one session.
pub mod Handlers
pub mod Requests
pub mod Dispatch
use bfcp.Base.{
  ℕ, ◌==◌, ◌≢◌, if◌then◌else◌, Bool, Bool-cases, true, false, not, ◌||◌, ◌&&◌, Option, Option-cases,
  none, some, ◌≡◌, refl, sym, ap, ◌∙◌, inl, inr, List, [], ◌∷◌, ◌++◌, append-nil, append_assoc,
  nat_eq, ==_refl, subst, arith,
}
use bfcp.Base.Dict.{lookup, insert}
use bfcp.Types.Primitive
use bfcp.Session.{SessionStateMachine}
use bfcp.Message.{Message, new_message, set_response, add_error_code, add_error_info, add_attribute}
use bfcp.Message.Tlv.{add_floor_request_information}
use bfcp.Server.{
  Carrier, tcp, udp, Session, Server, Env, Event, ErrorText, sent, emit, update_session, take_tx_id,
}
use bfcp.Server.Send.{
  outgoing, send, response, with_info, send_floor_status, send_error, is_except, skips, notify,
  broadcast_to, broadcast_floor_status,
}

abbrev pub addressed : (session : ℕ) → Event → Option Message
addressed p (sent q m) = if q == p then some m else none
addressed p _ = none

abbrev pub to_session : (session : ℕ) → List Event → List Message
to_session p [] = []
to_session p (e ∷ es) = elim (addressed p e) [
  | some m ↦ m ∷ to_session p es
  | none ↦ to_session p es
]

to_session-append :
    (p : ℕ) (es es' : List Event) → to_session p (es ++ es') ≡ to_session p es ++ to_session p es'
to_session-append p [] es' = refl
to_session-append p (e ∷ es) es' = ground (arith, to_session-append p es es')

-- An event that is no message to the session adds nothing.
pub emit-to_session :
    (p : ℕ) (e : Event) (s : Server)
    → addressed p e ≡ none
    → to_session p (emit e s).log ≡ to_session p s.log
emit-to_session p e s h =
    to_session-append p s.log (e ∷ []) ∙ rw (h, to_session) (append-nil (to_session p s.log))

-- The message goes to the other side of the session, with the IDs of the request.
pub record IsAnswer (req m : Message) : Type 0 where
  pub same_transaction : m.transaction_id ≡ req.transaction_id
  pub same_user : m.user_id ≡ req.user_id
  pub same_conference : m.conference_id ≡ req.conference_id

-- Between the two states the session is sent one message, an answer to the request.
pub record Answers (p : ℕ) (req : Message) (s t : Server) : Type 0 where
  pub answer : Message
  pub only_one : to_session p t.log ≡ to_session p s.log ++ (answer ∷ [])
  pub is_answer : IsAnswer req answer

-- Between the two states the session is sent nothing, and the session objects stay.
pub record IsSilent (p : ℕ) (s t : Server) : Type 0 where
  pub same_messages : to_session p t.log ≡ to_session p s.log
  pub same_objects : t.objects ≡ s.objects

outgoing-IsAnswer :
    (req m : Message) (sess : Session) → IsAnswer req m → IsAnswer req (outgoing sess m)
unfolding set_response
outgoing-IsAnswer req m sess h = ground arith

pub send-Answers :
    (p : ℕ) (req m : Message) (sess : Session) (s : Server)
    → lookup p s.objects ≡ some sess
    → IsAnswer req m
    → Answers p req s (send p m s)
unfolding send
send-Answers p req m sess s at h = record {
  answer = outgoing sess m;
  only_one =
      rw (at, send)
        (to_session-append p s.log (sent p (outgoing sess m) ∷ [])
          ∙ rw (==_refl p, to_session) refl);
  is_answer = outgoing-IsAnswer req m sess h;
}

send-other :
    (p q : ℕ) (m : Message) (s : Server)
    → (q == p) ≡ false
    → to_session p (send q m s).log ≡ to_session p s.log
unfolding send
send-other p q m s ne = elim (Option-cases (lookup q s.objects)) [
  | inl x ↦ rw (x, send) refl
  | inr (sess, x) ↦ rw (x, send) (emit-to_session p (sent q (outgoing sess m)) s (rw ne refl))
]

pub response-IsAnswer :
    (c : Carrier) (prim : ℕ) (req : Message) → IsAnswer req (response c prim req)
unfolding new_message set_response
response-IsAnswer tcp prim req = record {
  same_transaction = refl;
  same_user = refl;
  same_conference = refl;
}
response-IsAnswer udp prim req = ground arith

pub send_floor_status-Answers :
    (c : Carrier) (p : ℕ) (req : Message) (fid rid st : ℕ) (sess : Session) (s : Server)
    → lookup p s.objects ≡ some sess
    → Answers p req s (send_floor_status c p req fid rid st s)
unfolding send_floor_status
send_floor_status-Answers c p req fid rid st sess s at =
    let r = response-IsAnswer c 4 req in
    send-Answers p req (add_floor_request_information rid st fid (response c 4 req)) sess s at (
      unfold add_floor_request_information in
      record {
        same_transaction = r.same_transaction;
        same_user = r.same_user;
        same_conference = r.same_conference;
      })

with_info-IsAnswer :
    (req m : Message) (bs : List ℕ) → IsAnswer req m → IsAnswer req (with_info bs m)
unfolding add_error_info add_attribute
with_info-IsAnswer req m [] h = h
with_info-IsAnswer req m (b ∷ bs) h = record {
  same_transaction = h.same_transaction;
  same_user = h.same_user;
  same_conference = h.same_conference;
}

pub send_error-Answers :
    (env : Env) (c : Carrier) (p : ℕ) (req : Message) (code : ℕ) (t : ErrorText) (sess : Session)
    (s : Server)
    → lookup p s.objects ≡ some sess
    → Answers p req s (send_error env c p req code t s)
unfolding send_error
send_error-Answers env c p req code t sess s at =
    let r = response-IsAnswer c 13 req in
    let coded : IsAnswer req (add_error_code code (response c 13 req)) =
      unfold add_error_code add_attribute in
      record {
        same_transaction = r.same_transaction;
        same_user = r.same_user;
        same_conference = r.same_conference;
      } in
    send-Answers p req (with_info (env.text t) (add_error_code code (response c 13 req))) sess s at
      (with_info-IsAnswer req (add_error_code code (response c 13 req)) (env.text t) coded)

notify-other :
    (u fid rid st p q : ℕ) (s : Server)
    → (q == p) ≡ false
    → to_session p (notify u fid rid st q s).log ≡ to_session p s.log
unfolding notify take_tx_id
notify-other u fid rid st p q s ne =
    send-other p q
      (add_floor_request_information rid st fid
        (new_message Primitive.floor_request_status s.config.conference_id (take_tx_id s).1 u))
      (take_tx_id s).0 ne

skip_or_not :
    (p : ℕ) (b : Bool) (s t : Server)
    → (b ≡ false → to_session p t.log ≡ to_session p s.log)
    → to_session p (if b then s else t).log ≡ to_session p s.log
skip_or_not p true s t h = refl
skip_or_not p false s t h = h refl

skips-other : (o : Bool) (p q : ℕ) (s : Server) → skips o (some p) q s ≡ false → (q == p) ≡ false
skips-other o p q s e = ground arith

-- A broadcast sends nothing to the session that it excepts.
broadcast_to-except :
    (o : Bool) (p u fid rid st : ℕ) (l : List (ℕ × ℕ)) (s : Server)
    → to_session p (broadcast_to o (some p) u fid rid st l s).log ≡ to_session p s.log
unfolding broadcast_to
broadcast_to-except o p u fid rid st [] s = refl
broadcast_to-except o p u fid rid st ((addr, q) ∷ rest) s =
    let out = if skips o (some p) q s then s else notify u fid rid st q s in
    let here : to_session p out.log ≡ to_session p s.log =
      skip_or_not p (skips o (some p) q s) s (notify u fid rid st q s)
        (λ e. notify-other u fid rid st p q s (skips-other o p q s e)) in
    broadcast_to-except o p u fid rid st rest out ∙ here

pub broadcast-except :
    (o : Bool) (p u fid rid st : ℕ) (s : Server)
    → to_session p (broadcast_floor_status o (some p) u fid rid st s).log ≡ to_session p s.log
unfolding broadcast_floor_status
broadcast-except o p u fid rid st s = broadcast_to-except o p u fid rid st s.sessions s

pub update_session-log :
    (p : ℕ) (g : SessionStateMachine → SessionStateMachine) (s : Server)
    → (update_session p g s).log ≡ s.log
unfolding update_session
update_session-log p g s = ground arith
