-- ===== src/Server/Evolve.antt =====
-- How the floors of a server change: floors are made, and the methods of the state machines are
-- called on floors that are there.
use bfcp.Base.{
  ℕ, ◌==◌, if◌then◌else◌, Bool-cases, true, false, Option, none, some, ◌≡◌, ◌≢◌, refl, sym, ap, ◌∙◌,
  inl, inr, List, nat_eq, ==_iff, subst, arith,
}
use bfcp.Base.Dict.{lookup, insert, lookup-insert}
use bfcp.Floor.{
  FloorStateMachine, Op, apply, new_floor_state_machine, IsConsistent, do_request, do_grant,
  do_deny, do_release, do_revoke,
}
use bfcp.Floor.Runs.{HeldBy, LeavesAlone, apply-HeldBy}
use bfcp.Floor.Spec.{apply-IsConsistent, new-IsConsistent}

abbrev pub Floors : Type 0
Floors = List (ℕ × FloorStateMachine)

-- Any number of changes, each by a call that `P` allows.
pub data Evolve (P : Op → Type 0) (fs : Floors) : Floors → Type 0 where
  stay : Evolve P fs fs
  create :
      {gs : Floors} (now id conference : ℕ)
      → Evolve P fs gs
      → lookup id gs ≡ none
      → Evolve P fs (insert id (new_floor_state_machine now id conference) gs)
  act :
      {gs : Floors} (op : Op) (id : ℕ) (f : FloorStateMachine)
      → Evolve P fs gs
      → P op
      → lookup id gs ≡ some f
      → Evolve P fs (insert id (apply op f).0 gs)

pub Evolve-trans :
    {P : Op → Type 0} {fs gs hs : Floors} → Evolve P fs gs → Evolve P gs hs → Evolve P fs hs
Evolve-trans a stay = a
Evolve-trans a (create now id c b e) = create now id c (Evolve-trans a b) e
Evolve-trans a (act op id f b p e) = act op id f (Evolve-trans a b) p e

-- Every floor of the map is consistent, and stands under its ID.
abbrev pub FloorsValid : Floors → Type 0
FloorsValid fs =
    (id : ℕ) (f : FloorStateMachine) → lookup id fs ≡ some f → IsConsistent f × (f.floor_id ≡ id)

apply-floor_id : (op : Op) (f : FloorStateMachine) → (apply op f).0.floor_id ≡ f.floor_id
unfolding apply
apply-floor_id (do_request u r p) f = ground arith
apply-floor_id op f = ground arith

pub lookup-insert_eq :
    (id j : ℕ) (g : FloorStateMachine) (fs : Floors)
    → (id == j) ≡ true
    → lookup j (insert id g fs) ≡ some g
lookup-insert_eq id j g fs x =
    lookup-insert id j g fs ∙ ap (λ b. if b then some g else lookup j fs) x

pub lookup-insert_ne :
    (id j : ℕ) (g : FloorStateMachine) (fs : Floors)
    → (id == j) ≡ false
    → lookup j (insert id g fs) ≡ lookup j fs
lookup-insert_ne id j g fs x =
    lookup-insert id j g fs ∙ ap (λ b. if b then some g else lookup j fs) x

insert-FloorsValid :
    (id : ℕ) (g : FloorStateMachine) (fs : Floors)
    → IsConsistent g × (g.floor_id ≡ id)
    → FloorsValid fs
    → FloorsValid (insert id g fs)
insert-FloorsValid id g fs h v j f e = elim (Bool-cases (id == j)) [
  | inl x ↦
      let same : g ≡ f = cc (lookup-insert_eq id j g fs x) in
      subst (λ k. IsConsistent k × (k.floor_id ≡ j)) same (h.0, h.1 ∙ (==_iff id j).0 x)
  | inr x ↦ v j f (sym (lookup-insert_ne id j g fs x) ∙ e)
]

pub Evolve-FloorsValid :
    {P : Op → Type 0} {fs gs : Floors} → Evolve P fs gs → FloorsValid fs → FloorsValid gs
Evolve-FloorsValid stay v = v
Evolve-FloorsValid (create {gs} now id c r e) v =
    insert-FloorsValid id (new_floor_state_machine now id c) gs
      (new-IsConsistent now id c, unfold new_floor_state_machine in refl) (Evolve-FloorsValid r v)
Evolve-FloorsValid (act {gs} op id f r p e) v =
    let old = Evolve-FloorsValid r v id f e in
    insert-FloorsValid id (apply op f).0 gs
      (apply-IsConsistent op f old.0, apply-floor_id op f ∙ old.1) (Evolve-FloorsValid r v)

-- The calls that a message of user `u` can cause. There is no revocation among them.
abbrev pub ByUser : ℕ → Op → Type 0
ByUser u (do_request v r p) = v ≡ u
ByUser u (do_grant now) = Unit {0}
ByUser u do_deny = Unit {0}
ByUser u (do_release v) = v ≡ u
ByUser u do_revoke = ⊥

-- The floor `id` is held by `u` under request `r`.
abbrev pub Holds : (id u r : ℕ) → Floors → Type 0
Holds id u r fs = (f : FloorStateMachine) × (lookup id fs ≡ some f) × HeldBy u r f

ByUser-LeavesAlone : {v u : ℕ} (op : Op) → v ≢ u → v ≢ 0 → ByUser v op → LeavesAlone u op
ByUser-LeavesAlone (do_request w r p) ne nz b = tt
ByUser-LeavesAlone (do_grant now) ne nz b = tt
ByUser-LeavesAlone do_deny ne nz b = tt
ByUser-LeavesAlone (do_release w) ne nz b = (λ e. ne (sym b ∙ e), λ e. nz (sym b ∙ e))
ByUser-LeavesAlone do_revoke ne nz b = b

none-ne-some {ℓ} : {A : Type ℓ} {o : Option A} {a : A} → o ≡ none → o ≡ some a → ⊥
none-ne-some p q = cc

-- The messages of one user leave alone what another user holds, unless that one user is 0.
pub Evolve-Holds :
    {v : ℕ} {fs gs : Floors} (id u r : ℕ)
    → v ≢ u
    → v ≢ 0
    → Evolve (ByUser v) fs gs
    → Holds id u r fs
    → Holds id u r gs
Evolve-Holds id u r ne nz stay h = h
Evolve-Holds id u r ne nz (create {gs} now k c e absent) h =
    let (f, at, held) = Evolve-Holds id u r ne nz e h in
    elim (Bool-cases (k == id)) [
      | inl x ↦
          absurd (none-ne-some (subst (λ i. lookup i gs ≡ none) ((==_iff k id).0 x) absent) at)
      | inr x ↦ (f, lookup-insert_ne k id _ gs x ∙ at, held)
    ]
Evolve-Holds id u r ne nz (act {gs} op k g e by at_k) h =
    let (f, at, held) = Evolve-Holds id u r ne nz e h in
    elim (Bool-cases (k == id)) [
      | inl x ↦
          let same : g ≡ f = cc (subst (λ i. lookup i gs ≡ some g) ((==_iff k id).0 x) at_k) in
          (
            (apply op g).0,
            lookup-insert_eq k id (apply op g).0 gs x,
            apply-HeldBy u r op g (ByUser-LeavesAlone op ne nz by)
                (subst (HeldBy u r) (sym same) held),
          )
      | inr x ↦ (f, lookup-insert_ne k id (apply op g).0 gs x ∙ at, held)
    ]
