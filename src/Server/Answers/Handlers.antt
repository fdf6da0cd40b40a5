-- ===== src/Server/Answers/Handlers.antt =====
-- The handlers answer each request once.
use bfcp.Base.{ℕ, Option-cases, some, ◌≡◌, refl, ap, ◌∙◌, inl, inr, [], ◌∷◌, ◌++◌, nat_eq}
use bfcp.Base.Dict.{lookup}
use bfcp.Types.RequestStatus
use bfcp.Types.ErrorCode
use bfcp.Types.Primitive
use bfcp.Floor.{FloorStateMachine, release}
use bfcp.Session.{set_state, floor_released}
use bfcp.Message.{Message, add_attribute, add_floor_id, add_floor_request_id, add_request_status}
use bfcp.Message.Fields.{get_floor_id, get_floor_request_id}
use bfcp.Server.{
  Carrier, Session, Server, Env, floor_error, missing_floor_id, floor_does_not_exist, emit,
  on_floor_released, get_floor, put_floor, update_session,
}
use bfcp.Server.Send.{send_floor_status}
use bfcp.Server.Release.{
  Target, target, failure, find_target, or_zero, only_udp, released, release_target, floor_release,
  query_answer, floor_query,
}
use bfcp.Server.Answers.{
  to_session, emit-to_session, IsAnswer, Answers, send-Answers, response-IsAnswer,
  send_floor_status-Answers, send_error-Answers, broadcast-except, update_session-log,
}

-- What happens behind the answer, or before it, and says nothing to the session.
pub then_silent :
    {p : ℕ} {m : Message} {s t t' : Server}
    → Answers p m s t
    → to_session p t'.log ≡ to_session p t.log
    → Answers p m s t'
then_silent a e = record { answer = a.answer; only_one = e ∙ a.only_one; is_answer = a.is_answer }

pub silent_then :
    {p : ℕ} {m : Message} {s s' t : Server}
    → to_session p s'.log ≡ to_session p s.log
    → Answers p m s' t
    → Answers p m s t
silent_then e a = record {
  answer = a.answer;
  only_one = a.only_one ∙ ap (λ ms. ms ++ (a.answer ∷ [])) e;
  is_answer = a.is_answer;
}

released-Answers :
    (env : Env) (c : Carrier) (p : ℕ) (m : Message) (fid : ℕ) (sess : Session) (s : Server)
    → lookup p s.objects ≡ some sess
    → Answers p m s (released env c p m fid s)
released-Answers env c p m fid sess s at =
    let rid = or_zero (get_floor_request_id m) in
    let s1 = send_floor_status c p m fid rid RequestStatus.released s in
    let s2 = update_session p (set_state env.now floor_released) s1 in
    let s3 = emit (on_floor_released fid m.user_id) s2 in
    then_silent (send_floor_status-Answers c p m fid rid RequestStatus.released sess s at) (
      broadcast-except (only_udp c) p m.user_id fid rid RequestStatus.released s3
      ∙ emit-to_session p (on_floor_released fid m.user_id) s2 refl
      ∙ ap (to_session p) (update_session-log p (set_state env.now floor_released) s1))

release_target-Answers :
    (env : Env) (c : Carrier) (p : ℕ) (m : Message) (t : Target) (sess : Session) (s : Server)
    → lookup p s.objects ≡ some sess
    → Answers p m s (release_target env c p m t s)
unfolding release_target
release_target-Answers env c p m (failure code text) sess s at =
    send_error-Answers env c p m code text sess s at
release_target-Answers env c p m (target fid f) sess s at =
    elim (Option-cases (release m.user_id f).1) [
      | inl x ↦
          let s1 = put_floor fid (release m.user_id f).0 s in
          rw (x, release_target)
            (silent_then {s = s} {s' = s1} refl (released-Answers env c p m fid sess s1 at))
      | inr (err, x) ↦
          rw (x, release_target)
            (send_error-Answers env c p m ErrorCode.floor_release_denied (floor_error err) sess s
              at)
    ]

-- Over TCP and UDP a FloorRelease from a session that exists is answered once, whether it succeeds or
-- fails: the session is sent one message, with the transaction, user and conference ID of the
-- request. The notification of the others does not come back to it.
pub floor_release-Answers :
    (env : Env) (c : Carrier) (p : ℕ) (m : Message) (sess : Session) (s : Server)
    → lookup p s.objects ≡ some sess
    → Answers p m s (floor_release env c p m s)
unfolding floor_release
floor_release-Answers env c p m sess s at =
    release_target-Answers env c p m (find_target m s) sess s at

query_answer-IsAnswer :
    (c : Carrier) (m : Message) (fid : ℕ) (f : FloorStateMachine)
    → IsAnswer m (query_answer c m fid f)
unfolding add_attribute add_floor_id add_floor_request_id add_request_status
query_answer-IsAnswer c m fid f =
    let r = response-IsAnswer c Primitive.floor_status m in
    record {
      same_transaction = r.same_transaction;
      same_user = r.same_user;
      same_conference = r.same_conference;
    }

-- Over TCP and UDP a FloorQuery from a session that exists is answered once, with the IDs of the
-- request.
pub floor_query-Answers :
    (env : Env) (c : Carrier) (p : ℕ) (m : Message) (sess : Session) (s : Server)
    → lookup p s.objects ≡ some sess
    → Answers p m s (floor_query env c p m s)
unfolding floor_query get_floor
floor_query-Answers env c p m sess s at = elim (Option-cases (get_floor_id m)) [
  | inl x ↦
      rw (x, floor_query)
        (send_error-Answers env c p m ErrorCode.unknown_mandatory_attribute missing_floor_id sess s
          at)
  | inr (fid, x) ↦ elim (Option-cases (lookup fid s.floors)) [
    | inl y ↦
        rw (x, floor_query)
          (rw y (
            send_error-Answers env c p m ErrorCode.invalid_floor_id (floor_does_not_exist fid) sess
              s at))
    | inr (f, y) ↦
        rw (x, floor_query)
          (rw y
            (send-Answers p m (query_answer c m fid f) sess s at (query_answer-IsAnswer c m fid f)))
  ]
]
