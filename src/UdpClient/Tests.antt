-- ===== src/UdpClient/Tests.antt =====
-- Clients at concrete inputs.
use bfcp.Base.{
  ℕ, zero, suc, ◌≡◌, ◌≢◌, refl, sym, subst, ap, ◌∙◌, true, false, some, List, [], ◌∷◌, ◌==◌, inr,
  nat_eq, ◌≤◌, ◌<◌, arith,
}
use bfcp.Base.Dict.{lookup}
use bfcp.Base.Result.{ok, err}
use bfcp.Message.Encode.{encode}
use bfcp.Message.{Attribute, Message, new_message, set_response, add_attribute, add_floor_id}
use bfcp.Message.Status.{received_info}
use bfcp.Message.Tlv.{add_floor_request_information, info_attribute, floor_request_info_attr}
use bfcp.Message.Decode.{decode, decode_attrs}
use bfcp.Message.RoundTrip.{IsWellFormed, decode-encode}
use bfcp.Message.Wire.{attr_wire, IsEncodable, wire, prepared, received}
use bfcp.Transport.Udp.{UdpTransport, send_message}
use bfcp.UdpClient.{
  versioned, acknowledgement, next_transaction_id, UdpClientConfig, UdpClient, Env, new_udp_client,
  has_floor, handle_message,
}
use bfcp.UdpClient.Transact.{received as arrives, Attempt, no_response, transact}
use bfcp.UdpClient.Calls.{request_floor}
use bfcp.UdpClient.Runs.{Call, requests, receives, releases, perform_all}
use bfcp.UdpClient.Words.{Owned}
use bfcp.UdpClient.Safety.{new-perform_all-Owned}
use bfcp.UdpClient.Waiting.{CanSend}
use bfcp.UdpClient.Idle.{IsIdle}
use bfcp.UdpClient.Retry.{Comes, transact-unanswered, transact-answered}
use bfcp.UdpClient.TransactionIds.{nth_id, nth_id-distinct}
use bfcp.UdpClient.Acks.{Sends, acks, handle_message-Sends}
use bfcp.UdpClient.Association.{floor_request, status_response, request_floor-status_response}

abbrev to_server : UdpTransport
to_server = record { remote_addr = some 9; is_closed = false }

-- User 8 in conference 1.
abbrev settings : UdpClientConfig
settings = record {
  remote_addr = 9;
  conference_id = 1;
  user_id = 8;
  version = 2;
  t1 = 10;
  max_retries = 3;
}

abbrev idle_client : UdpClient
idle_client = record {
  config = settings;
  transport = to_server;
  next_tx_id = 0;
  is_closed = false;
  pending = [];
  active_requests = [];
  log = [];
}

abbrev message_of : (primitive tx : ℕ) → Message
message_of p tx = record {
  version = 2;
  reserved = 0;
  primitive = p;
  payload_length = 0;
  conference_id = 1;
  transaction_id = tx;
  user_id = 8;
  attributes = [];
}

CanSend-IsWellFormed : (m : Message) → m.version ≡ 2 → IsWellFormed m → CanSend m idle_client
unfolding send_message
CanSend-IsWellFormed m v fits =
    let e = (decode-encode m [] fits).0 in
    let same : versioned m idle_client ≡ m = ap (λ k. record m { version = k }) (sym v) in
    ((9, wire m), ap (λ k. send_message true k to_server) same ∙ rw (e, send_message) refl)

message-CanSend : (p tx : ℕ) → p < 256 → tx < 65536 → CanSend (message_of p tx) idle_client
message-CanSend p tx hp ht = CanSend-IsWellFormed (message_of p tx) refl (record {
  version_known = inr refl;
  reserved_fits = omega arith;
  primitive_fits = hp;
  conference_fits = omega arith;
  transaction_fits = ht;
  user_fits = omega arith;
  encodable = tt;
  payload_fits = omega arith;
})

abbrev at_ten : Env
at_ten = record { now = 10; writes = true }

-- A notification of another transaction arrives during the first attempt, and `r` during the second.
abbrev second_attempt : Message → ℕ → Attempt
second_attempt r zero = record { writes = true; meanwhile = arrives at_ten (message_of 8 77) ∷ [] }
second_attempt r (suc n) = record { writes = true; meanwhile = arrives at_ten r ∷ [] }

abbrev never : ℕ → Attempt
never n = record { writes = true; meanwhile = [] }

transact-unanswered_example :
    Comes
      (message_of 16 5)
      idle_client
      3
      70
      (err no_response)
      (transact never (message_of 16 5) idle_client)
transact-unanswered_example =
    transact-unanswered never (message_of 16 5) idle_client refl
      (message-CanSend 16 5 (omega arith) (omega arith)) (λ i lt. (refl, tt))

first_attempt-IsIdle :
    (tx : ℕ) (r : Message) (i : ℕ) → (77 == tx) ≡ false → i < 1 → IsIdle tx (second_attempt r i)
first_attempt-IsIdle tx r zero other lt = (refl, (other, tt))
first_attempt-IsIdle tx r (suc i) other lt = absurd (omega arith)

transact-answered_example :
    Comes
      (message_of 16 5)
      idle_client
      2
      30
      (ok (message_of 17 5))
      (transact (second_attempt (message_of 17 5)) (message_of 16 5) idle_client)
transact-answered_example =
    transact-answered (second_attempt (message_of 17 5)) 1 (message_of 16 5) (message_of 17 5)
      idle_client refl (omega arith) (message-CanSend 16 5 (omega arith) (omega arith))
      (λ i lt. first_attempt-IsIdle 5 (message_of 17 5) i refl lt)
      (record {
        is_sent = refl;
        same_tx = refl;
        before = [];
        after = [];
        env = at_ten;
        aside = tt;
        in_order = refl;
      })

-- A request that is granted in the second attempt, a release that nobody answers, and a revocation.
abbrev got_granted : (tx : ℕ) → Message
got_granted tx = record {
  version = 2;
  reserved = 16;
  primitive = 4;
  payload_length = 5;
  conference_id = 1;
  transaction_id = tx;
  user_id = 8;
  attributes = received_info 3 3 5 ∷ [];
}

abbrev some_calls : List Call
some_calls =
    requests (second_attempt (got_granted 1)) 10 5
    ∷ releases never 5
    ∷ receives at_ten (message_of 16 99)
    ∷ []

new-perform_all-Owned_example : Owned (perform_all some_calls (new_udp_client settings to_server))
new-perform_all-Owned_example = new-perform_all-Owned settings to_server some_calls

nth_id-distinct_example :
    (1 ≤ nth_id 3 idle_client)
    × (nth_id 3 idle_client < 65536)
    × (nth_id 3 idle_client ≢ nth_id 900 idle_client)
nth_id-distinct_example = nth_id-distinct idle_client 3 900 (omega arith) (omega arith)

ack_is_sent : CanSend (acknowledgement (got_granted 77) 14 idle_client) idle_client
unfolding set_response new_message
ack_is_sent =
    CanSend-IsWellFormed (record (message_of 14 77) { reserved = 16 }) refl
      (record {
        version_known = inr refl;
        reserved_fits = omega arith;
        primitive_fits = omega arith;
        conference_fits = omega arith;
        transaction_fits = omega arith;
        user_fits = omega arith;
        encodable = tt;
        payload_fits = omega arith;
      })

handle_message-Sends_example :
    Sends idle_client
      (acks (got_granted 77) (some 14) idle_client)
      (handle_message at_ten (got_granted 77) idle_client)
handle_message-Sends_example =
    handle_message-Sends at_ten (got_granted 77) idle_client (unfold lookup in refl) refl
      ack_is_sent

granted_is_read :
    decode (wire (status_response 2 3 3 5 (floor_request 5 idle_client))) ≡ ok (got_granted 1)
unfolding decode decode_attrs add_floor_request_information info_attribute floor_request_info_attr
    received next_transaction_id new_message set_response add_floor_id add_attribute attr_wire
granted_is_read = refl

-- FLOOR-ID 5.
abbrev floor_five : Attribute
floor_five = record { type = 2; length = 2; value = 0 ∷ 5 ∷ []; raw_tlv = false }

floor_five-IsEncodable : IsEncodable floor_five
unfolding received
floor_five-IsEncodable = ground arith

request_is_sent : CanSend (floor_request 5 idle_client) idle_client
unfolding new_message add_floor_id add_attribute next_transaction_id
request_is_sent =
    CanSend-IsWellFormed (record (message_of 1 1) { attributes = floor_five ∷ [] }) refl
      (record {
        version_known = inr refl;
        reserved_fits = omega arith;
        primitive_fits = omega arith;
        conference_fits = omega arith;
        transaction_fits = omega arith;
        user_fits = omega arith;
        encodable = (floor_five-IsEncodable, tt);
        payload_fits = omega arith;
      })

request_tx : (floor_request 5 idle_client).transaction_id ≡ 1
unfolding next_transaction_id new_message add_floor_id add_attribute
request_tx = refl

-- The response comes with the second copy of the request.
request_floor-status_response_example :
    let after = request_floor (second_attempt (got_granted 1)) 10 5 idle_client in
    let sent = status_response 2 3 3 5 (floor_request 5 idle_client) in
    (encode sent ≡ some (prepared sent, wire sent))
    × (after.1 ≡ ok 3)
    × (has_floor 5 after.0 ≡ true)
request_floor-status_response_example =
    request_floor-status_response (second_attempt (got_granted 1)) 1 10 2 3 3 5 (got_granted 1)
      idle_client (inr refl) (omega arith) (omega arith) (omega arith) (omega arith, omega arith)
      refl (omega arith) request_is_sent
      (λ i lt.
        subst (λ tx. IsIdle tx (second_attempt (got_granted 1) i)) (sym request_tx)
          (first_attempt-IsIdle 1 (got_granted 1) i refl lt))
      granted_is_read
      (record {
        is_sent = refl;
        same_tx = sym request_tx;
        before = [];
        after = [];
        env = at_ten;
        aside = tt;
        in_order = refl;
      })
