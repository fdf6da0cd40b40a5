-- ===== src/Server/Acts/Release.antt =====
-- The handlers of FloorRelease, FloorQuery and Goodbye change the floors for their user only.
use bfcp.Base.{
  ℕ, Option, Option-cases, none, some, ◌≡◌, refl, sym, ap, ◌∙◌, inl, inr, List, [], ◌∷◌, nat_eq,
  subst,
}
use bfcp.Base.Dict.{lookup}
use bfcp.Types.RequestStatus
use bfcp.Types.Primitive
use bfcp.Types.ErrorCode
use bfcp.Floor.{FloorStateMachine, do_release, release, apply}
use bfcp.Session.{set_state, floor_released, disconnected}
use bfcp.Message.{Message}
use bfcp.Message.Fields.{get_floor_id, get_floor_request_id}
use bfcp.Server.{
  Carrier, tcp, Server, Env, floor_error, missing_floor_id, floor_does_not_exist, get_floor,
  put_floor, update_session, at_key, first_owned, first_with_request, get_floor_by_request_id,
  floor_owned_by, emit, on_floor_released,
}
use bfcp.Server.Send.{send, response, send_floor_status, broadcast_floor_status}
use bfcp.Server.Frame.{
  send-floors, send_floor_status-floors, send_error-floors, update_session-floors,
  broadcast_floor_status-floors,
}
use bfcp.Server.Evolve.{stay, act, Evolve-trans}
use bfcp.Server.Release.{
  Target, target, failure, by_owner, find_target, released, or_zero, only_udp, release_target,
  floor_release, query_answer, floor_query, owned_floors, release_floors, handle_goodbye,
}
use bfcp.Server.Acts.{Acts, quiet, after}

-- A target is the floor that the map has under its ID.
abbrev pub InMap : Server → Target → Type 0
InMap s (target fid f) = lookup fid s.floors ≡ some f
InMap s (failure c t) = Unit {0}

same_pair :
    (k id : ℕ) (g f : FloorStateMachine)
    → ◌≡◌ {A = Option (ℕ × FloorStateMachine)} (some (k, g)) (some (id, f))
    → (k ≡ id) × (g ≡ f)
same_pair k id g f e = (
  ap (λ (o : Option (ℕ × FloorStateMachine)). elim o [ some q ↦ q.0 | none ↦ k ]) e,
  ap (λ (o : Option (ℕ × FloorStateMachine)). elim o [ some q ↦ q.1 | none ↦ g ]) e,
)

at_key-lookup :
    (o : Option ℕ) (s : Server) (id : ℕ) (f : FloorStateMachine)
    → at_key o s ≡ some (id, f)
    → lookup id s.floors ≡ some f
at_key-lookup none s id f e = absurd (let x : ⊥ = cc in x)
at_key-lookup (some k) s id f e = elim (Option-cases (lookup k s.floors)) [
  | inl x ↦ cc
  | inr (g, x) ↦
      let found : at_key (some k) s ≡ some (k, g) = rw (x, at_key) refl in
      let (keys, floors) = same_pair k id g f (sym found ∙ e) in
      subst (λ i. lookup i s.floors ≡ some f) keys (x ∙ ap some floors)
]

by_owner-InMap : (u rid : ℕ) (s : Server) → InMap s (by_owner u rid s)
unfolding floor_owned_by
by_owner-InMap u rid s = elim (Option-cases (floor_owned_by u s)) [
  | inl x ↦ rw (x, by_owner) tt
  | inr (k, x) ↦
      let (fid, f) = k in rw (x, by_owner) (at_key-lookup (first_owned u s.floors) s fid f x)
]

find_target-InMap : (m : Message) (s : Server) → InMap s (find_target m s)
unfolding find_target get_floor get_floor_by_request_id
find_target-InMap m s = elim (Option-cases (get_floor_id m)) [
  | inr (fid, x) ↦ elim (Option-cases (lookup fid s.floors)) [
    | inl y ↦ rw (x, find_target) (rw y tt)
    | inr (f, y) ↦ rw (x, find_target) (rw y y)
  ]
  | inl x ↦ elim (Option-cases (get_floor_request_id m)) [
    | inl y ↦ rw (x, find_target) (rw y tt)
    | inr (rid, y) ↦ elim (Option-cases (get_floor_by_request_id rid s)) [
      | inl z ↦ rw (x, find_target) (rw y (rw z (by_owner-InMap m.user_id rid s)))
      | inr (k, z) ↦
          let (fid, f) = k in
          rw (x, find_target)
            (rw y (rw z (at_key-lookup (first_with_request rid s.floors) s fid f z)))
    ]
  ]
]

released-floors :
    (env : Env) (c : Carrier) (p : ℕ) (m : Message) (fid : ℕ) (s : Server)
    → (released env c p m fid s).floors ≡ s.floors
released-floors env c p m fid s =
    let rid = or_zero (get_floor_request_id m) in
    let s1 = send_floor_status c p m fid rid RequestStatus.released s in
    let s2 = update_session p (set_state env.now floor_released) s1 in
    broadcast_floor_status-floors (only_udp c) (some p) m.user_id fid rid RequestStatus.released
      (emit (on_floor_released fid m.user_id) s2)
    ∙ update_session-floors p (set_state env.now floor_released) s1
    ∙ send_floor_status-floors c p m fid rid RequestStatus.released s

release_target-Acts :
    (env : Env) (c : Carrier) (p : ℕ) (m : Message) (t : Target) (s : Server)
    → InMap s t
    → Acts m.user_id s (release_target env c p m t s)
unfolding release_target apply
release_target-Acts env c p m (failure code text) s at =
    quiet (send_error-floors env c p m code text s)
release_target-Acts env c p m (target fid f) s at = elim (Option-cases (release m.user_id f).1) [
  | inl x ↦
      rw (x, release_target)
        (after (released-floors env c p m fid (put_floor fid (release m.user_id f).0 s))
          (act (do_release m.user_id) fid f stay refl at))
  | inr (err, x) ↦
      rw (x, release_target)
        (quiet (send_error-floors env c p m ErrorCode.floor_release_denied (floor_error err) s))
]

pub floor_release-Acts :
    (env : Env) (c : Carrier) (p : ℕ) (m : Message) (s : Server)
    → Acts m.user_id s (floor_release env c p m s)
unfolding floor_release
floor_release-Acts env c p m s =
    release_target-Acts env c p m (find_target m s) s (find_target-InMap m s)

pub floor_query-floors :
    (env : Env) (c : Carrier) (p : ℕ) (m : Message) (s : Server)
    → (floor_query env c p m s).floors ≡ s.floors
unfolding floor_query get_floor
floor_query-floors env c p m s = elim (Option-cases (get_floor_id m)) [
  | inl x ↦
      rw (x, floor_query)
        (send_error-floors env c p m ErrorCode.unknown_mandatory_attribute missing_floor_id s)
  | inr (fid, x) ↦ elim (Option-cases (lookup fid s.floors)) [
    | inl y ↦
        rw (x, floor_query)
          (rw y
            (send_error-floors env c p m ErrorCode.invalid_floor_id (floor_does_not_exist fid) s))
    | inr (f, y) ↦ rw (x, floor_query) (rw y (send-floors p (query_answer c m fid f) s))
  ]
]

pub release_floors-Acts :
    (c : Carrier) (p : ℕ) (m : Message) (fids : List ℕ) (s : Server)
    → Acts m.user_id s (release_floors c p m fids s)
unfolding release_floors get_floor apply
release_floors-Acts c p m [] s = stay
release_floors-Acts c p m (fid ∷ fids) s = elim (Option-cases (lookup fid s.floors)) [
  | inl x ↦ rw (x, release_floors) (release_floors-Acts c p m fids s)
  | inr (f, x) ↦ elim (Option-cases (release m.user_id f).1) [
    | inr (err, y) ↦ rw (x, release_floors) (rw y (release_floors-Acts c p m fids s))
    | inl y ↦
        let f' = (release m.user_id f).0 in
        let s1 = put_floor fid f' s in
        let s2 = emit (on_floor_released fid m.user_id) (
          broadcast_floor_status (only_udp c) (some p) m.user_id fid f'.floor_request_id
            RequestStatus.released s1) in
        let now : Acts m.user_id s s2 =
          after
            (broadcast_floor_status-floors (only_udp c) (some p) m.user_id fid f'.floor_request_id
              RequestStatus.released s1)
            (act (do_release m.user_id) fid f stay refl x) in
        rw (x, release_floors) (rw y (Evolve-trans now (release_floors-Acts c p m fids s2)))
  ]
]

pub handle_goodbye-Acts :
    (env : Env) (p : ℕ) (m : Message) (s : Server) → Acts m.user_id s (handle_goodbye env p m s)
unfolding handle_goodbye
handle_goodbye-Acts env p m s =
    let s1 = release_floors tcp p m (owned_floors m.user_id s.floors) s in
    let s2 = send p (response tcp Primitive.goodbye_ack m) s1 in
    after
      (update_session-floors p (set_state env.now disconnected) s2
        ∙ send-floors p (response tcp Primitive.goodbye_ack m) s1)
      (release_floors-Acts tcp p m (owned_floors m.user_id s.floors) s)
