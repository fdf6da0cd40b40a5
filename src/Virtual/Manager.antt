-- ===== src/Virtual/Manager.antt =====
-- `Manager` of virtual/manager.go: the clients by their IDs, and the pool of user IDs. A client ID is
-- a number that stands for its string; of a client only its user ID matters here. `fails` tells
-- whether `New` returns an error, which it does for an empty server address.
pub mod Agreement
mod Tests
use bfcp.Base.{ℕ, ◌==◌, ltb, ◌∷◌, if◌then◌else◌, Bool, Option, none, some, List, [], nat_eq}
use bfcp.Base.Dict.{lookup, insert, remove}
use bfcp.Virtual.Pool.{
  UserIdPool, Search, found, exhausted, running, SpecificError, new_user_id_pool, allocate,
  allocate_specific, release,
}

pub record Manager : Type 0 where
  pub clients : List (ℕ × ℕ)
  pub pool : UserIdPool

-- A range of the configuration: a bound of 0 stands for its default, and so do both of a range that
-- is empty.
abbrev pub or_default : (default bound : ℕ) → ℕ
or_default default bound = if bound == 0 then default else bound

abbrev pub ordered_range : (range_start range_end : ℕ) → ℕ × ℕ
ordered_range s e = if ltb e s then (100, 1000) else (s, e)

unfoldable pub new_manager : (range_start range_end : ℕ) → Manager
new_manager range_start range_end =
    let (s, e) = ordered_range (or_default 100 range_start) (or_default 1000 range_end) in
    record { clients = []; pool = new_user_id_pool s e }

-- What follows the allocation of a user ID.
abbrev pub add_client :
    (fails : Bool) → (id user_id : ℕ) → UserIdPool → Manager → Manager × Option ℕ
add_client fails id u pool' m =
    if fails
    then (record m { pool = release u pool' }, none)
    else (record { clients = insert id u m.clients; pool = pool' }, some u)

-- A search that has not ended is no Go value.
abbrev pub after_search :
    (fails : Bool) → (id : ℕ) → UserIdPool × Search → Manager → Manager × Option ℕ
after_search fails id (pool', found u) m = add_client fails id u pool' m
after_search fails id (pool', exhausted) m = (m, none)
after_search fails id (pool', running) m = (m, none)

abbrev pub after_specific :
    (fails : Bool)
    → (id user_id : ℕ) → UserIdPool × Option SpecificError
    → Manager
    → Manager × Option ℕ
after_specific fails id u (pool', none) m = add_client fails id u pool' m
after_specific fails id u (pool', some _) m = (m, none)

-- `CreateClient` for an ID that is not empty: the user ID of the new client, or `none` for an error.
unfoldable pub create_client : (fuel : ℕ) → (fails : Bool) → (id : ℕ) → Manager → Manager × Option ℕ
create_client fuel fails id m = elim (lookup id m.clients) [
  | some _ ↦ (m, none)
  | none ↦ after_search fails id (allocate fuel m.pool) m
]

-- `CreateClientWithUserID`: the pool tests the range that the manager was configured with.
unfoldable pub create_client_with_user_id :
    (fails : Bool) → (id user_id : ℕ) → Manager → Manager × Option ℕ
create_client_with_user_id fails id u m = elim (lookup id m.clients) [
  | some _ ↦ (m, none)
  | none ↦ after_specific fails id u (allocate_specific u m.pool) m
]

-- The user ID goes back to the pool whether or not `Close` fails. Go gives up the lock before
-- `Close`; here it is one step.
unfoldable pub remove_client : (id : ℕ) → Manager → Manager
remove_client id m = elim (lookup id m.clients) [
  | none ↦ m
  | some u ↦ record { clients = remove id m.clients; pool = release u m.pool }
]

-- `Release` of the user ID of each client.
unfoldable pub release_all : List (ℕ × ℕ) → UserIdPool → UserIdPool
release_all [] p = p
release_all ((id, u) ∷ rest) p = release_all rest (release u p)

-- The user IDs go back whether or not a `Close` fails.
abbrev pub remove_all : Manager → Manager
remove_all m = record { clients = []; pool = release_all m.clients m.pool }

-- The calls that change a manager, for IDs that are not empty.
pub data Call : Type 0 where
  creates : (fuel : ℕ) (fails : Bool) (id : ℕ) → Call
  creates_with : (fails : Bool) (id user_id : ℕ) → Call
  removes : (id : ℕ) → Call
  removes_all : Call

abbrev pub perform : Call → Manager → Manager
perform (creates fuel fails id) m = (create_client fuel fails id m).0
perform (creates_with fails id u) m = (create_client_with_user_id fails id u m).0
perform (removes id) m = remove_client id m
perform removes_all m = remove_all m

unfoldable pub perform_all : List Call → Manager → Manager
perform_all [] m = m
perform_all (c ∷ cs) m = perform_all cs (perform c m)
