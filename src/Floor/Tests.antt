-- ===== src/Floor/Tests.antt =====
-- Runs of the floor state machine at concrete inputs.
use bfcp.Base.{ℕ, ◌≡◌, ◌≢◌, refl, some, [], ◌∷◌, arith}
use bfcp.Floor.{
  FloorStateMachine, do_request, do_grant, do_release, do_revoke, request, apply, run, IsConsistent,
  new_floor_state_machine, invalid_state, grant, release,
}
use bfcp.Floor.Spec.{free, view, spec, succeeded, apply-refines}
use bfcp.Floor.Runs.{HeldBy, new-run-IsConsistent, run-HeldBy, run-denied_refuses}

-- Floor 1, held by user 7 under request 3.
abbrev held_floor : FloorStateMachine
held_floor = record {
  floor_id = 1;
  conference_id = 1;
  current_state = 3;
  owner_user_id = 7;
  floor_request_id = 3;
  priority = 2;
  created_at = 10;
  granted_at = 20;
}

held_floor-IsConsistent : IsConsistent held_floor
held_floor-IsConsistent = ground arith

apply-refines_example :
    (view (apply (do_release 7) held_floor).0 ≡ (spec (do_release 7) (view held_floor)).0)
    × (succeeded (apply (do_release 7) held_floor).1 ≡ (spec (do_release 7) (view held_floor)).1)
apply-refines_example = apply-refines (do_release 7) held_floor held_floor-IsConsistent

new-run-IsConsistent_example :
    IsConsistent
      (run (do_request 7 1 0 ∷ do_grant 5 ∷ do_revoke ∷ []) (new_floor_state_machine 0 1 1))
new-run-IsConsistent_example =
    new-run-IsConsistent (do_request 7 1 0 ∷ do_grant 5 ∷ do_revoke ∷ []) 0 1 1

eight_is_not_seven : ◌≢◌ {A = ℕ} 8 7
eight_is_not_seven e = let no : ⊥ = omega arith in no

eight_is_not_zero : ◌≢◌ {A = ℕ} 8 0
eight_is_not_zero e = let no : ⊥ = omega arith in no

run-HeldBy_example :
    HeldBy 7 3 (run (do_request 8 4 0 ∷ do_release 8 ∷ do_grant 30 ∷ []) held_floor)
run-HeldBy_example =
    run-HeldBy 7 3 (do_request 8 4 0 ∷ do_release 8 ∷ do_grant 30 ∷ []) held_floor
      (tt, ((eight_is_not_seven, eight_is_not_zero), (tt, tt))) (refl, refl, refl)

-- Floor 1 behind a denial.
abbrev denied_floor : FloorStateMachine
denied_floor = record held_floor { current_state = 4; owner_user_id = 0; floor_request_id = 0 }

run-denied_refuses_example :
    request (run (do_request 8 4 0 ∷ do_release 8 ∷ []) denied_floor) 7 5 0
    ≡ (run (do_request 8 4 0 ∷ do_release 8 ∷ []) denied_floor, (4, some (invalid_state 4)))
run-denied_refuses_example =
    run-denied_refuses (do_request 8 4 0 ∷ do_release 8 ∷ []) denied_floor 7 5 0
      (tt, (eight_is_not_zero, tt)) (refl, refl)

-- A floor that is requested, granted and released is free again.
request_grant_release :
    view (run (do_request 7 1 0 ∷ do_grant 5 ∷ do_release 7 ∷ []) (new_floor_state_machine 0 1 1))
    ≡ free
unfolding run apply request grant release new_floor_state_machine
request_grant_release = refl
