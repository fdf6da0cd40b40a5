-- ===== src/Virtual/Manager/Tests.antt =====
-- Runs of the manager at concrete inputs.
use bfcp.Base.{◌⊎◌, ◌≡◌, refl, true, false, none, [], ◌∷◌, nat_eq, arith}
use bfcp.Base.Dict.{lookup}
use bfcp.Virtual.Manager.{
  Manager, creates, creates_with, removes, removes_all, perform_all, new_manager,
}
use bfcp.Virtual.Manager.{create_client}
use bfcp.Virtual.Manager.Agreement.{
  Creates, RunsOut, create_client_lem, Agrees, new-perform_all-Agrees,
}

new-perform_all-Agrees_example : Agrees (
    perform_all
      (creates 5 false 1
        ∷ creates_with false 2 11
        ∷ removes 1
        ∷ removes_all
        ∷ creates 5 false 3
        ∷ [])
      (new_manager 10 12))
new-perform_all-Agrees_example =
    new-perform_all-Agrees 10 12 (
      creates 5 false 1
      ∷ creates_with false 2 11
      ∷ removes 1
      ∷ removes_all
      ∷ creates 5 false 3
      ∷ [])

-- Client 1 with user ID 10.
abbrev one_client : Manager
one_client = record {
  clients = (1, 10) ∷ [];
  pool = record { start = 10; end = 12; allocated = (10, true) ∷ [] };
}

no_client_two : lookup 2 one_client.clients ≡ none
unfolding lookup
no_client_two = refl

create_client_lem_example :
    Creates 2 one_client (create_client 5 false 2 one_client)
    ⊎ RunsOut one_client (create_client 5 false 2 one_client)
create_client_lem_example =
    create_client_lem 5 2 one_client no_client_two (omega arith) (omega arith) (omega arith)
