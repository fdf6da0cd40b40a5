-- ===== src/Types/Priority.antt =====
-- The priorities of a floor request: `type Priority uint16` of types.go.
use bfcp.Base.{ℕ}

abbrev pub lowest : ℕ
lowest = 0

abbrev pub low : ℕ
low = 256

abbrev pub normal : ℕ
normal = 512

abbrev pub high : ℕ
high = 768

abbrev pub highest : ℕ
highest = 1023
