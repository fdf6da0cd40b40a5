-- ===== src/Virtual/Manager/Agreement.antt =====
-- The clients of a manager and the user IDs of its pool agree.
use bfcp.Base.{
  Option, ◌⊎◌, ◌<◌, ◌≤◌, ℕ, zero, suc, ◌+◌, ◌==◌, leb, if◌then◌else◌, Bool, Bool-cases, true, false,
  Option-cases, none, some, ◌≡◌, refl, sym, ap, ◌∙◌, inl, inr, List, [], ◌∷◌, nat_eq, ==_refl,
  subst, arith,
}
use bfcp.Base.Bytes.{u16}
use bfcp.Base.Dict.{lookup, insert, lookup-insert, lookup-remove}
use bfcp.Virtual.Pool.{
  UserIdPool, new_user_id_pool, Search, found, exhausted, running, is_allocated, find_free,
  allocate, mark, taken, release,
}
use bfcp.Virtual.Pool.Allocate.{
  allocate_lem, is_allocated-mark, is_allocated-release, allocate_specific_lem,
}
use bfcp.Virtual.Manager.{
  Call, creates, creates_with, removes, removes_all, remove_all, release_all, perform, perform_all,
  Manager, new_manager, add_client, after_search, after_specific, create_client,
  create_client_with_user_id, remove_client,
}

-- The user ID of every client is allocated, no two clients share one, and no other is allocated.
pub record Agrees (m : Manager) : Type 0 where
  pub allocated : (id u : ℕ) → lookup id m.clients ≡ some u → is_allocated u m.pool ≡ true
  pub distinct : (a b u : ℕ) → lookup a m.clients ≡ some u → lookup b m.clients ≡ some u → a ≡ b
  pub in_use : (u : ℕ) → is_allocated u m.pool ≡ true → (id : ℕ) × (lookup id m.clients ≡ some u)

find_free-found :
    (fuel id n : ℕ) (p : UserIdPool) → find_free fuel id p ≡ found n → is_allocated n p ≡ false
unfolding find_free
find_free-found zero id n p e = absurd (let no_such : ⊥ = cc in no_such)
find_free-found (suc fuel) id n p e =
    let later = find_free-found fuel (u16 (id + 1)) n p in
    elim (Bool-cases (leb id p.end)) [
      | inl a ↦ elim (Bool-cases (is_allocated id p)) [
        | inl b ↦ ground (arith, later)
        | inr b ↦ ground (arith, later)
      ]
      | inr a ↦ ground (arith, later)
    ]

-- A client under a new ID with a user ID that was free.
insert-Agrees :
    (id u : ℕ) (m : Manager)
    → lookup id m.clients ≡ none
    → is_allocated u m.pool ≡ false
    → Agrees m
    → Agrees (record { clients = insert id u m.clients; pool = mark u m.pool })
insert-Agrees id u m new free h = record {
  allocated = λ j w e.
      ground (arith, lookup-insert id j u m.clients, is_allocated-mark u w m.pool, h.allocated j w);
  distinct = λ a b w ea eb. ground (
    arith,
    lookup-insert id a u m.clients,
    lookup-insert id b u m.clients,
    h.distinct a b w,
    h.allocated a w,
    h.allocated b w,
  );
  in_use = λ w e. elim (Bool-cases (u == w)) [
    | inl same ↦ (id, ground (arith, lookup-insert id id u m.clients, same))
    | inr other ↦
        let (j, at) = h.in_use w (ground (arith, is_allocated-mark u w m.pool, other, e)) in
        (j, ground (arith, lookup-insert id j u m.clients, new, at))
  ];
}

-- `Release` behind an allocation that was of no use.
undo-Agrees :
    (u : ℕ) (m : Manager)
    → is_allocated u m.pool ≡ false
    → Agrees m
    → Agrees (record m { pool = release u (mark u m.pool) })
undo-Agrees u m free h = record {
  allocated = λ j w e. ground (
    arith,
    is_allocated-release u w (mark u m.pool),
    is_allocated-mark u w m.pool,
    h.allocated j w,
  );
  distinct = h.distinct;
  in_use = λ w e.
      h.in_use w
        (ground (arith, is_allocated-release u w (mark u m.pool), is_allocated-mark u w m.pool, e));
}

add_client-Agrees :
    (fails : Bool) (id u : ℕ) (m : Manager)
    → lookup id m.clients ≡ none
    → is_allocated u m.pool ≡ false
    → Agrees m
    → Agrees (add_client fails id u (mark u m.pool) m).0
add_client-Agrees true id u m new free h = undo-Agrees u m free h
add_client-Agrees false id u m new free h = insert-Agrees id u m new free h

after_search-Agrees :
    (fuel : ℕ) (fails : Bool) (id : ℕ) (m : Manager) (r : Search)
    → find_free fuel m.pool.start m.pool ≡ r
    → lookup id m.clients ≡ none
    → Agrees m
    → Agrees (after_search fails id (taken r m.pool, r) m).0
after_search-Agrees fuel fails id m (found u) e new h =
    add_client-Agrees fails id u m new (find_free-found fuel m.pool.start u m.pool e) h
after_search-Agrees fuel fails id m exhausted e new h = h
after_search-Agrees fuel fails id m running e new h = h

-- `CreateClient`, whether it succeeds or fails, keeps the agreement.
pub create_client-Agrees :
    (fuel : ℕ) (fails : Bool) (id : ℕ) (m : Manager)
    → Agrees m
    → Agrees (create_client fuel fails id m).0
unfolding create_client allocate
create_client-Agrees fuel fails id m h = elim (Option-cases (lookup id m.clients)) [
  | inr (w, x) ↦ rw (x, create_client) h
  | inl x ↦
      rw (x, create_client)
        (after_search-Agrees fuel fails id m (find_free fuel m.pool.start m.pool) refl x h)
]

-- `CreateClientWithUserID`, whether it succeeds or fails, keeps the agreement.
pub create_client_with_user_id-Agrees :
    (fails : Bool) (id u : ℕ) (m : Manager)
    → Agrees m
    → Agrees (create_client_with_user_id fails id u m).0
unfolding create_client_with_user_id
create_client_with_user_id-Agrees fails id u m h = elim (Option-cases (lookup id m.clients)) [
  | inr (w, x) ↦ rw (x, create_client_with_user_id) h
  | inl x ↦ elim (allocate_specific_lem u m.pool) [
    | inl (lo, hi, free, done, rest) ↦
        rw (x, create_client_with_user_id)
          (subst (λ k. Agrees (after_specific fails id u k m).0) (sym done)
            (add_client-Agrees fails id u m x free h))
    | inr (why, err, failed) ↦
        rw (x, create_client_with_user_id)
          (subst (λ k. Agrees (after_specific fails id u k m).0) (sym failed) h)
  ]
]

-- `RemoveClient` of a client that exists keeps the agreement; behind it the client is gone, and its
-- user ID is free.
pub remove_client-Agrees :
    (id u : ℕ) (m : Manager)
    → Agrees m
    → lookup id m.clients ≡ some u
    → Agrees (remove_client id m)
      × (is_allocated u (remove_client id m).pool ≡ false)
      × (lookup id (remove_client id m).clients ≡ none)
unfolding remove_client
remove_client-Agrees id u m h at =
    rw (at, remove_client)
      (
        record {
          allocated = λ j w e. ground (
            arith,
            lookup-remove id j m.clients,
            is_allocated-release u w m.pool,
            h.allocated j w,
            h.distinct id j u at,
          );
          distinct = λ a b w ea eb.
              ground (
                arith,
                lookup-remove id a m.clients,
                lookup-remove id b m.clients,
                h.distinct a b w,
              );
          in_use = λ w e.
              let (j, here) = h.in_use w (ground (arith, is_allocated-release u w m.pool, e)) in
              (
                j,
                ground (
                  arith,
                  lookup-remove id j m.clients,
                  is_allocated-release u w m.pool,
                  at,
                  e,
                  here,
                ),
              );
        },
        is_allocated-release u u m.pool
            ∙ ap (λ b. if b then false else is_allocated u m.pool) (==_refl u),
        lookup-remove id id m.clients
            ∙ ap (λ b. if b then none else lookup id m.clients) (==_refl id),
      )

-- A manager without clients.
empty-Agrees : (m : Manager) → m.clients ≡ [] → ((u : ℕ) → is_allocated u m.pool ≡ false) → Agrees m
unfolding lookup
empty-Agrees m e free = record {
  allocated = λ id u at.
      absurd (let no_such : none ≡ some u = ap (lookup id) (sym e) ∙ at in let no : ⊥ = cc in no);
  distinct = λ a b u at bt.
      absurd (let no_such : none ≡ some u = ap (lookup a) (sym e) ∙ at in let no : ⊥ = cc in no);
  in_use = λ u at. absurd (let f = free u in let no : ⊥ = cc in no);
}

-- A user ID of a client in the list is free behind the loop, and one that is free stays so.
is_allocated-release_all :
    (u : ℕ) (cs : List (ℕ × ℕ)) (p : UserIdPool)
    → is_allocated u p ≡ false ⊎ ((id : ℕ) × (lookup id cs ≡ some u))
    → is_allocated u (release_all cs p) ≡ false
unfolding release_all lookup
is_allocated-release_all u [] p (inl free) = free
is_allocated-release_all u [] p (inr (id, e)) = absurd (let no_such : ⊥ = cc in no_such)
is_allocated-release_all u ((j, w) ∷ cs) p (inl free) =
    is_allocated-release_all u cs (release w p)
      (inl (is_allocated-release w u p ∙ ground (arith, free)))
is_allocated-release_all u ((j, w) ∷ cs) p (inr (id, e)) = elim (Bool-cases (j == id)) [
  | inl same ↦
      is_allocated-release_all u cs (release w p)
        (inl (is_allocated-release w u p ∙ ground (arith, e, same)))
  | inr other ↦ is_allocated-release_all u cs (release w p) (inr (id, ground (arith, e, other)))
]

all_released : (m : Manager) → Agrees m → (u : ℕ) → is_allocated u (remove_all m).pool ≡ false
all_released m h u =
    is_allocated-release_all u m.clients m.pool (elim (Bool-cases (is_allocated u m.pool)) [
      | inl used ↦ inr (h.in_use u used)
      | inr free ↦ inl free
    ])

perform-Agrees : (c : Call) (m : Manager) → Agrees m → Agrees (perform c m)
perform-Agrees (creates fuel fails id) m h = create_client-Agrees fuel fails id m h
perform-Agrees (creates_with fails id u) m h = create_client_with_user_id-Agrees fails id u m h
perform-Agrees (removes id) m h = elim (Option-cases (lookup id m.clients)) [
  | inl x ↦ unfold remove_client in rw (x, remove_client) h
  | inr (u, x) ↦ (remove_client-Agrees id u m h x).0
]
perform-Agrees removes_all m h = empty-Agrees (remove_all m) refl (all_released m h)

perform_all-Agrees : (cs : List Call) (m : Manager) → Agrees m → Agrees (perform_all cs m)
unfolding perform_all
perform_all-Agrees [] m h = h
perform_all-Agrees (c ∷ cs) m h = perform_all-Agrees cs (perform c m) (perform-Agrees c m h)

-- After any calls on a new manager, whether they succeed or fail, the user ID of every client is
-- allocated in the pool, no two clients share one, and the pool has no other user ID allocated.
pub new-perform_all-Agrees : (s e : ℕ) (cs : List Call) → Agrees (perform_all cs (new_manager s e))
unfolding new_manager lookup is_allocated new_user_id_pool
new-perform_all-Agrees s e cs =
    perform_all-Agrees cs (new_manager s e) (empty-Agrees (new_manager s e) refl (λ u. refl))

-- A client under a new ID, with a free user ID of the range; all else is as before.
abbrev pub Creates : (id : ℕ) → Manager → Manager × Option ℕ → Type 0
Creates id m r =
    (u : ℕ) × (r ≡ (record { clients = insert id u m.clients; pool = mark u m.pool }, some u))
    × (m.pool.start ≤ u)
    × (u ≤ m.pool.end)
    × (is_allocated u m.pool ≡ false)

-- Every user ID of the range is in use, and nothing changes.
abbrev pub RunsOut : Manager → Manager × Option ℕ → Type 0
RunsOut m r =
    (r ≡ (m, none)) × ((j : ℕ) → m.pool.start ≤ j → j ≤ m.pool.end → is_allocated j m.pool ≡ true)

-- With a range that ends below 65535 `CreateClient` returns: for an ID that no client has, and if
-- `New` does not fail, either a client of that ID is stored with a user ID of the range that was
-- free, or every user ID of the range is in use and nothing changes.
pub create_client_lem :
    (fuel id : ℕ) (m : Manager)
    → lookup id m.clients ≡ none
    → m.pool.start ≤ m.pool.end
    → m.pool.end < 65535
    → m.pool.end + 1 < fuel + m.pool.start
    → Creates id m (create_client fuel false id m) ⊎ RunsOut m (create_client fuel false id m)
unfolding create_client allocate
create_client_lem fuel id m new s e f =
    let r = find_free fuel m.pool.start m.pool in
    let opened : create_client fuel false id m ≡ after_search false id (taken r m.pool, r) m =
      rw (new, create_client) refl in
    elim (allocate_lem fuel m.pool s e f) [
      | inl (n, is_found, lo, hi, free, least, rest) ↦
          inl (
            n,
            opened ∙ ap (λ k. after_search false id (taken k m.pool, k) m) is_found,
            lo,
            hi,
            free,
          )
      | inr (is_exhausted, same, full) ↦
          inr (opened ∙ ap (λ k. after_search false id (taken k m.pool, k) m) is_exhausted, full)
    ]
