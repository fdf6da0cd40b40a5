-- ===== src/Transport/Ports.antt =====
-- `ListenPortRange` and `ListenUDPPortRange` of transport.go: the two loops are the same.
use bfcp.Base.{
  ℕ, zero, suc, ◌+◌, ◌-◌, ◌≤◌, ◌<◌, Bool, true, false, Bool-cases, if◌then◌else◌, Option, none,
  some, ◌≡◌, inl, inr, arith, ◌==◌, ==_iff, subst, sym, ap,
}

-- The first port from `port` on that the system lets the listener bind, among `count` of them.
unfoldable pub try_ports : (binds : ℕ → Bool) → (count port : ℕ) → Option ℕ
try_ports binds zero port = none
try_ports binds (suc count) port =
    let later = try_ports binds count (suc port) in if binds port then some port else later

-- `for port := portMin; port < portMax; port++`
unfoldable pub listen_port_range : (binds : ℕ → Bool) → (port_min port_max : ℕ) → Option ℕ
unfolding try_ports
listen_port_range binds port_min port_max = try_ports binds (port_max - port_min) port_min

-- The port is bound, and the ones before it were not to be had; or none of them was.
abbrev pub IsFirst : (binds : ℕ → Bool) → (from below : ℕ) → Option ℕ → Type 0
IsFirst binds from below none = (q : ℕ) → from ≤ q → q < below → binds q ≡ false
IsFirst binds from below (some p) =
    (binds p ≡ true) × (from ≤ p) × (p < below) × ((q : ℕ) → from ≤ q → q < p → binds q ≡ false)

taken_from_suc :
    (binds : ℕ → Bool) (from below q : ℕ)
    → binds from ≡ false
    → ((r : ℕ) → suc from ≤ r → r < below → binds r ≡ false)
    → from ≤ q
    → q < below
    → binds q ≡ false
taken_from_suc binds from below q here later le lt = elim (Bool-cases (from == q)) [
  | inl x ↦ subst (λ r. binds r ≡ false) ((==_iff from q).0 x) here
  | inr x ↦ later q (ground (arith, le, x)) lt
]

later-IsFirst :
    (binds : ℕ → Bool) (from below : ℕ) (o : Option ℕ)
    → binds from ≡ false
    → IsFirst binds (suc from) below o
    → IsFirst binds from below o
later-IsFirst binds from below none taken h =
    λ q le lt. taken_from_suc binds from below q taken h le lt
later-IsFirst binds from below (some p) taken (free, le, lt, h) =
    (free, omega arith, lt, λ q from_le q_lt. taken_from_suc binds from p q taken h from_le q_lt)

try_ports-IsFirst :
    (binds : ℕ → Bool) (count port below : ℕ)
    → port + count ≡ below
    → IsFirst binds port below (try_ports binds count port)
unfolding try_ports
try_ports-IsFirst binds zero port below e = λ q le lt. absurd (omega arith)
try_ports-IsFirst binds (suc count) port below e = elim (Bool-cases (binds port)) [
  | inl x ↦
      subst (IsFirst binds port below)
        (sym (ap (λ b. if b then some port else try_ports binds count (suc port)) x))
        (x, omega arith, omega arith, λ q le lt. absurd (omega arith))
  | inr x ↦
      subst (IsFirst binds port below)
        (sym (ap (λ b. if b then some port else try_ports binds count (suc port)) x))
        (later-IsFirst binds port below (try_ports binds count (suc port)) x
          (try_ports-IsFirst binds count (suc port) below (omega arith)))
]

-- A listener over a range of ports binds the smallest one that the system lets it bind, and it is
-- below the end of the range, which is never tried itself; it fails exactly when none of the others
-- is to be had. The range must not end before it starts.
pub listen_port_range-IsFirst :
    (binds : ℕ → Bool) (port_min port_max : ℕ)
    → port_min ≤ port_max
    → IsFirst binds port_min port_max (listen_port_range binds port_min port_max)
unfolding listen_port_range
listen_port_range-IsFirst binds port_min port_max h =
    try_ports-IsFirst binds (port_max - port_min) port_min port_max (omega arith)
