-- ===== src/Queue/Order.antt =====
-- The queue is kept in order: higher priority first, and the earlier timestamp first at the same
-- priority. One pass from the back is an insertion, because the queue was in order before.
use bfcp.Base.{
  ℕ, ◌==◌, ◌<◌, ◌≤◌, if◌then◌else◌, Bool-cases, true, false, ◌≡◌, refl, ap, ◌∙◌, ◌⊎◌, inl, inr,
  List, [], ◌∷◌, ◌++◌, All, arith,
}
use mathlib.Core.List.{Perm}
use mathlib.Core.List.Perm
use bfcp.Queue.{FloorRequest, overtakes, compare_swap, bubble_up, stamp, add, remove}

-- `a` may stand before `b`.
abbrev pub Precedes : FloorRequest → FloorRequest → Type 0
Precedes a b = (b.priority < a.priority) ⊎ ((b.priority ≡ a.priority) × (a.timestamp ≤ b.timestamp))

abbrev pub IsSorted : List FloorRequest → Type 0
IsSorted [] = Unit {0}
IsSorted (x ∷ xs) = All (Precedes x) xs × IsSorted xs

-- Insertion into a queue that is in order.
unfoldable pub place : FloorRequest → List FloorRequest → List FloorRequest
place r [] = r ∷ []
place r (x ∷ xs) = if overtakes r x then r ∷ x ∷ xs else x ∷ place r xs

compare_swap-place :
    (x r : FloorRequest) (xs : List FloorRequest)
    → All (Precedes x) xs
    → compare_swap x (place r xs) ≡ place r (x ∷ xs)
unfolding place
compare_swap-place x r [] h = refl
compare_swap-place x r (y ∷ ys) h = ground arith

bubble_up-place :
    (r : FloorRequest) (q : List FloorRequest) → IsSorted q → bubble_up (q ++ (r ∷ [])) ≡ place r q
unfolding bubble_up
bubble_up-place r [] h = unfold place in refl
bubble_up-place r (x ∷ xs) h =
    ap (compare_swap x) (bubble_up-place r xs h.1) ∙ compare_swap-place x r xs h.0

-- On a queue in order, the pass of `Add` is an insertion of the stamped request.
pub add-place :
    (now : ℕ) (r : FloorRequest) (q : List FloorRequest)
    → IsSorted q
    → add now r q ≡ place (stamp now r) q
unfolding add
add-place now r q h = bubble_up-place (stamp now r) q h

Precedes-trans : (a b c : FloorRequest) → Precedes a b → Precedes b c → Precedes a c
Precedes-trans a b c p q = ground arith

All-Precedes :
    (a b : FloorRequest) (xs : List FloorRequest)
    → Precedes a b
    → All (Precedes b) xs
    → All (Precedes a) xs
All-Precedes a b [] p h = tt
All-Precedes a b (x ∷ xs) p h = (Precedes-trans a b x p h.0, All-Precedes a b xs p h.1)

All-place :
    (x r : FloorRequest) (xs : List FloorRequest)
    → Precedes x r
    → All (Precedes x) xs
    → All (Precedes x) (place r xs)
unfolding place
All-place x r [] p h = (p, tt)
All-place x r (y ∷ ys) p h = elim (Bool-cases (overtakes r y)) [
  | inl e ↦ rw e (p, h)
  | inr e ↦ rw e (h.0, All-place x r ys p h.1)
]

overtakes-Precedes : (a b : FloorRequest) → overtakes a b ≡ true → Precedes a b
overtakes-Precedes a b h = ground arith

not-overtakes-Precedes : (a b : FloorRequest) → overtakes a b ≡ false → Precedes b a
not-overtakes-Precedes a b h = ground arith

pub place-IsSorted : (r : FloorRequest) (q : List FloorRequest) → IsSorted q → IsSorted (place r q)
unfolding place
place-IsSorted r [] h = (tt, tt)
place-IsSorted r (x ∷ xs) h = elim (Bool-cases (overtakes r x)) [
  | inl e ↦ rw e ((overtakes-Precedes r x e, All-Precedes r x xs (overtakes-Precedes r x e) h.0), h)
  | inr e ↦ rw e (All-place x r xs (not-overtakes-Precedes r x e) h.0, place-IsSorted r xs h.1)
]

place-perm : (r : FloorRequest) (q : List FloorRequest) → Perm (place r q) (r ∷ q)
unfolding place
place-perm r [] = Perm.refl (r ∷ [])
place-perm r (x ∷ xs) = elim (Bool-cases (overtakes r x)) [
  | inl e ↦ rw e (Perm.refl (r ∷ x ∷ xs))
  | inr e ↦ rw e (Perm.trans (Perm.cons x (place-perm r xs)) (Perm.swap r x xs))
]

-- `Add` keeps the queue in order, and adds the stamped request and nothing else.
pub add-IsSorted :
    (now : ℕ) (r : FloorRequest) (q : List FloorRequest)
    → IsSorted q
    → IsSorted (add now r q) × Perm (add now r q) (stamp now r ∷ q)
add-IsSorted now r q h =
    rw (add-place now r q h) (place-IsSorted (stamp now r) q h, place-perm (stamp now r) q)

All-remove :
    (P : FloorRequest → Type 0) (n : ℕ) (q : List FloorRequest) → All P q → All P (remove n q).0
unfolding remove
All-remove P n [] h = tt
All-remove P n (x ∷ xs) h = elim (Bool-cases (x.floor_request_id == n)) [
  | inl e ↦ rw e h.1
  | inr e ↦ rw e (h.0, All-remove P n xs h.1)
]

pub remove-IsSorted : (n : ℕ) (q : List FloorRequest) → IsSorted q → IsSorted (remove n q).0
unfolding remove
remove-IsSorted n [] h = tt
remove-IsSorted n (x ∷ xs) h = elim (Bool-cases (x.floor_request_id == n)) [
  | inl e ↦ rw e h.1
  | inr e ↦ rw e (All-remove (Precedes x) n xs h.0, remove-IsSorted n xs h.1)
]
