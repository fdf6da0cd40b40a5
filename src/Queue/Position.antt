-- ===== src/Queue/Position.antt =====
-- Requests looked up by their ID: `GetPosition` and `Remove` agree on the first of that ID.
use bfcp.Base.{
  ℕ, suc, ◌+◌, ◌==◌, Bool-cases, true, false, ==_iff, ◌≡◌, refl, ap, ◌⊎◌, inl, inr, List, [], ◌∷◌,
  ◌++◌, All, length, arith,
}
use bfcp.Queue.{FloorRequest, remove, position_from, get_position}

abbrev pub IsAbsent : ℕ → List FloorRequest → Type 0
IsAbsent n q = All (λ (x : FloorRequest). (x.floor_request_id == n) ≡ false) q

-- Where the first request of an ID stands, and what is left without it.
pub record Found (n i : ℕ) (q : List FloorRequest) : Type 0 where
  pub before : List FloorRequest
  pub found : FloorRequest
  pub behind : List FloorRequest
  pub split : q ≡ before ++ (found ∷ behind)
  pub has_id : found.floor_request_id ≡ n
  pub is_first : IsAbsent n before
  pub position : position_from i n q ≡ i + length before + 1
  pub removed : remove n q ≡ (before ++ behind, true)

abbrev pub Missing : (n i : ℕ) → List FloorRequest → Type 0
Missing n i q = IsAbsent n q × (position_from i n q ≡ 0) × (remove n q ≡ (q, false))

search_cases : (n i : ℕ) (q : List FloorRequest) → Missing n i q ⊎ Found n i q
unfolding remove
search_cases n i [] = inl (tt, refl, refl)
search_cases n i (x ∷ xs) = elim (Bool-cases (x.floor_request_id == n)) [
  | inl e ↦ inr (record {
    before = [];
    found = x;
    behind = xs;
    split = refl;
    has_id = (==_iff _ n).0 e;
    is_first = tt;
    position = rw e (omega arith);
    removed = rw e;
  })
  | inr e ↦ elim (search_cases n (suc i) xs) [
    | inl m ↦ inl ((e, m.0), rw e m.1, rw (e, m.2))
    | inr f ↦ inr (record {
      before = x ∷ f.before;
      found = f.found;
      behind = f.behind;
      split = ap (λ t. x ∷ t) f.split;
      has_id = f.has_id;
      is_first = (e, f.is_first);
      position = rw e (omega (arith, f.position));
      removed = rw (e, f.removed);
    })
  ]
]

-- For every ID, either no request of the queue has it, `GetPosition` is 0 and `Remove` changes
-- nothing and returns false; or `GetPosition` is the 1-based position of the first request that
-- has it, and `Remove` takes out exactly that one and returns true.
pub position-remove :
    (n : ℕ) (q : List FloorRequest)
    → (IsAbsent n q × (get_position n q ≡ 0) × (remove n q ≡ (q, false))) ⊎ Found n 0 q
unfolding get_position
position-remove n q = search_cases n 0 q
