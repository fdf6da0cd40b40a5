-- ===== src/Transport/Tests.antt =====
-- Connections, datagrams and port ranges at concrete inputs.
use bfcp.Base.{ℕ, ◌≡◌, Bool, [], ◌∷◌, ◌==◌, ◌||◌, arith}
use bfcp.Message.{Message}
use bfcp.Message.RoundTrip.{IsWellFormed, decode-encode}
use bfcp.Message.Framing.{delivered}
use bfcp.Transport.{octet, timeout, on_message, on_close, run_connection}
use bfcp.Transport.Delivery.{arriving, run_connection-arriving, run_connection-cut}
use bfcp.Transport.Ports.{IsFirst, listen_port_range, listen_port_range-IsFirst}

-- A Goodbye of user 8.
abbrev goodbye : Message
goodbye = record {
  version = 1;
  reserved = 0;
  primitive = 16;
  payload_length = 0;
  conference_id = 1;
  transaction_id = 7;
  user_id = 8;
  attributes = [];
}

goodbye-IsWellFormed : IsWellFormed goodbye
goodbye-IsWellFormed = record {
  version_known = omega arith;
  reserved_fits = omega arith;
  primitive_fits = omega arith;
  conference_fits = omega arith;
  transaction_fits = omega arith;
  user_fits = omega arith;
  encodable = tt;
  payload_fits = omega arith;
}

run_connection-arriving_example :
    run_connection (arriving ((0, goodbye) ∷ (2, goodbye) ∷ []))
    ≡ on_message (delivered goodbye) ∷ on_message (delivered goodbye) ∷ on_close ∷ []
run_connection-arriving_example =
    run_connection-arriving ((0, goodbye) ∷ (2, goodbye) ∷ [])
      (goodbye-IsWellFormed, (goodbye-IsWellFormed, tt))

-- The deadline passes behind the version octet.
run_connection-cut_example :
    run_connection (octet 32 ∷ timeout ∷ arriving ((0, goodbye) ∷ []))
    ≡ run_connection (arriving ((0, goodbye) ∷ []))
run_connection-cut_example =
    run_connection-cut goodbye (32 ∷ []) (16 ∷ 0 ∷ 0 ∷ 0 ∷ 0 ∷ 0 ∷ 1 ∷ 0 ∷ 7 ∷ 0 ∷ 8 ∷ [])
      (arriving ((0, goodbye) ∷ [])) goodbye-IsWellFormed
      ((decode-encode goodbye [] goodbye-IsWellFormed).0) (λ e. let no : ⊥ = cc in no)

-- Ports 5004 and 5006 are free.
abbrev even_ones : ℕ → Bool
even_ones p = (p == 5004) || (p == 5006)

listen_port_range-IsFirst_example :
    IsFirst even_ones 5002 5006 (listen_port_range even_ones 5002 5006)
listen_port_range-IsFirst_example = listen_port_range-IsFirst even_ones 5002 5006 (omega arith)
