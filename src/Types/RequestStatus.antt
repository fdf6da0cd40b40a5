-- ===== src/Types/RequestStatus.antt =====
-- The states of a floor request: `type RequestStatus uint8` of types.go.
use bfcp.Base.{ℕ}

abbrev pub pending : ℕ
pending = 1

abbrev pub accepted : ℕ
accepted = 2

abbrev pub granted : ℕ
granted = 3

abbrev pub denied : ℕ
denied = 4

abbrev pub cancelled : ℕ
cancelled = 5

abbrev pub released : ℕ
released = 6

abbrev pub revoked : ℕ
revoked = 7
