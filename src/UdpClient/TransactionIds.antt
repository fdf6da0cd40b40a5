-- ===== src/UdpClient/TransactionIds.antt =====
-- The transaction IDs of udpclient.go.
use bfcp.Base.{ℕ, zero, suc, ◌+◌, ◌%◌, ◌≤◌, ◌<◌, ◌≡◌, ◌≢◌, arith}
use bfcp.UdpClient.{UdpClient, next_transaction_id}

-- The ID that a client draws after `j` others.
abbrev pub nth_id : (j : ℕ) → UdpClient → ℕ
nth_id zero c = (next_transaction_id c).1
nth_id (suc j) c = nth_id j (next_transaction_id c).0

-- The counter runs through 1 to 65535, and round again.
drawn_id :
    (c : UdpClient)
    → let n = c.next_tx_id % 65536 in
      ((next_transaction_id c).1 ≡ n % 65535 + 1)
      × ((next_transaction_id c).0.next_tx_id % 65536 ≡ n % 65535 + 1)
unfolding next_transaction_id
drawn_id c = (ground arith, ground arith)

nth_id_closed : (j : ℕ) (c : UdpClient) → nth_id j c ≡ (c.next_tx_id % 65536 + j) % 65535 + 1
nth_id_closed zero c = omega (arith, (drawn_id c).0)
nth_id_closed (suc j) c = omega (arith, (drawn_id c).1, nth_id_closed j (next_transaction_id c).0)

-- A client's transaction IDs are not 0 and fit 16 bits, and any two of them are different, unless at
-- least 65534 others were drawn between them.
pub nth_id-distinct :
    (c : UdpClient) (i j : ℕ)
    → i < j
    → j < i + 65535
    → (1 ≤ nth_id i c) × (nth_id i c < 65536) × (nth_id i c ≢ nth_id j c)
nth_id-distinct c i j lt near = (
  omega (arith, nth_id_closed i c),
  omega (arith, nth_id_closed i c),
  λ e. let no : ⊥ = omega (arith, nth_id_closed i c, nth_id_closed j c) in no,
)
