-- ===== src/Queue/Fifo.antt =====
-- Fairness of the queue: requests of one priority are served in the order in which they came.
use bfcp.Base.{
  ℕ, ◌==◌, ◌<◌, ◌≤◌, if◌then◌else◌, Bool-cases, false, ◌≡◌, refl, inl, inr, subst, ==_iff, List, [],
  ◌∷◌, ◌++◌, All, arith,
}
use bfcp.Queue.{FloorRequest, overtakes, stamp, add}
use bfcp.Queue.Order.{IsSorted, Precedes, place, add-place}

-- The requests of one priority, in queue order.
abbrev pub of_priority : ℕ → List FloorRequest → List FloorRequest
of_priority p [] = []
of_priority p (x ∷ xs) = if x.priority == p then x ∷ of_priority p xs else of_priority p xs

abbrev pub LowerThan : ℕ → FloorRequest → Type 0
LowerThan p x = x.priority < p

of_priority-LowerThan :
    (p : ℕ) (xs : List FloorRequest) → All (LowerThan p) xs → of_priority p xs ≡ []
of_priority-LowerThan p [] h = refl
of_priority-LowerThan p (x ∷ xs) h = ground (arith, of_priority-LowerThan p xs h.1)

tail-LowerThan :
    (p : ℕ) (x : FloorRequest) (xs : List FloorRequest)
    → x.priority < p
    → All (Precedes x) xs
    → All (LowerThan p) xs
tail-LowerThan p x [] l h = tt
tail-LowerThan p x (y ∷ ys) l h = (ground arith, tail-LowerThan p x ys l h.1)

of_priority-place_self :
    (r : FloorRequest) (q : List FloorRequest)
    → IsSorted q
    → All (λ x. x.timestamp ≤ r.timestamp) q
    → of_priority r.priority (place r q) ≡ of_priority r.priority q ++ (r ∷ [])
unfolding place
of_priority-place_self r [] h t = ground arith
of_priority-place_self r (x ∷ xs) h t = elim (Bool-cases (overtakes r x)) [
  | inl e ↦
      let low : x.priority < r.priority = ground arith in
      rw e (ground (arith, of_priority-LowerThan r.priority xs (tail-LowerThan _ x xs low h.0)))
  | inr e ↦ rw e (ground (arith, of_priority-place_self r xs h.1 t.1))
]

of_priority-place_other :
    (p : ℕ) (r : FloorRequest) (q : List FloorRequest)
    → (r.priority == p) ≡ false
    → of_priority p (place r q) ≡ of_priority p q
unfolding place
of_priority-place_other p r [] e = rw e
of_priority-place_other p r (x ∷ xs) e = elim (Bool-cases (overtakes r x)) [
  | inl o ↦ rw (o, e)
  | inr o ↦ rw o (ground (arith, of_priority-place_other p r xs e))
]

-- If the queue is in order and no request in it bears a later time, `Add` puts the request behind
-- all those of its priority, and leaves the order within every other priority as it was.
pub add_fifo :
    (now p : ℕ) (r : FloorRequest) (q : List FloorRequest)
    → IsSorted q
    → All (λ x. x.timestamp ≤ now) q
    → of_priority p (add now r q)
      ≡ (if r.priority == p then of_priority p q ++ (stamp now r ∷ []) else of_priority p q)
add_fifo now p r q h t = elim (Bool-cases (r.priority == p)) [
  | inl e ↦
      rw (e, add-place now r q h)
        (subst (λ k. of_priority k (place (stamp now r) q) ≡ of_priority k q ++ (stamp now r ∷ []))
          ((==_iff _ p).0 e) (of_priority-place_self (stamp now r) q h t))
  | inr e ↦ rw (e, add-place now r q h) (of_priority-place_other p (stamp now r) q e)
]
