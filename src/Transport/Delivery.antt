-- ===== src/Transport/Delivery.antt =====
-- What the read loop of transport.go hands over of the messages that the peer wrote, and what it
-- loses when a read deadline passes inside one.
use bfcp.Base.{
  ℕ, zero, suc, ◌≤◌, ◌<◌, ltb, Bool-cases, ltb→lt, some, none, ◌≡◌, ◌≢◌, refl, sym, ap, ◌∙◌, inl,
  inr, List, [], ◌∷◌, ◌++◌, replicate, append_assoc, length, length-append, All, subst, arith,
}
use bfcp.Message.{Message}
use bfcp.Message.Encode.{encode}
use bfcp.Message.Read.{payload_size}
use bfcp.Message.RoundTrip.{IsWellFormed, decode-encode}
use bfcp.Message.Wire.{wire, prepared}
use bfcp.Message.Framing.{delivered, IsFrame, wire-IsFrame}
use bfcp.Transport.{
  Input, octet, timeout, full, read_full, message, again, Event, on_message, on_close, after_header,
  after_payload, decoded, read_round, run_connection,
}
use bfcp.Transport.Loop.{octets, read_full-octets, read_full-timeout, after_round, run-round}

octets-append : (xs ys : List ℕ) → octets (xs ++ ys) ≡ octets xs ++ octets ys
octets-append [] ys = refl
octets-append (x ∷ xs) ys = ap (λ l. octet x ∷ l) (octets-append xs ys)

read_full-length :
    (n : ℕ) (bs : List ℕ) (rest : List Input)
    → length bs ≡ n
    → read_full n (octets bs ++ rest) ≡ full bs rest
read_full-length n bs rest e =
    ap (λ k. read_full k (octets bs ++ rest)) (sym e) ∙ read_full-octets bs rest

read_round-frame :
    {bs header payload : List ℕ} {got : Message} (rest : List Input)
    → IsFrame bs header payload got
    → read_round (octets bs ++ rest) ≡ message got rest
unfolding read_round
read_round-frame {bs} {header} {payload} {got} rest f =
    let whole : octets bs ++ rest ≡ octets header ++ (octets payload ++ rest) =
      ap (λ l. octets l ++ rest) f.parts
      ∙ ap (λ l. l ++ rest) (octets-append header payload)
      ∙ append_assoc (octets header) (octets payload) rest in
    ap (λ l. after_header (read_full 12 l)) whole
    ∙ ap after_header (read_full-length 12 header (octets payload ++ rest) f.header_length)
    ∙ ap (after_payload header)
        (read_full-length (payload_size header) payload rest (sym f.announced))
    ∙ ap (decoded rest) f.decodes

-- Of two ways to cut a list, the later cut goes through the back of the earlier.
split_append :
    (xs ys front back : List ℕ)
    → xs ++ ys ≡ front ++ back
    → length xs ≤ length front
    → (p : List ℕ) × (front ≡ xs ++ p) × (ys ≡ p ++ back)
split_append [] ys front back e h = (front, refl, e)
split_append (x ∷ xs) ys [] back e h = absurd (omega arith)
split_append (x ∷ xs) ys (f ∷ front) back e h =
    let tails : xs ++ ys ≡ front ++ back = cc in
    let heads : x ≡ f = cc in
    let (p, a, b) = split_append xs ys front back tails (omega arith) in (p, cc, b)

length-positive : (xs : List ℕ) → xs ≢ [] → 0 < length xs
length-positive [] h = absurd (h refl)
length-positive (x ∷ xs) h = omega arith

payload_cut :
    (header payload p back : List ℕ) (rest : List Input)
    → length header ≡ 12
    → payload_size header ≡ length payload
    → payload ≡ p ++ back
    → back ≢ []
    → read_round (octets (header ++ p) ++ (timeout ∷ rest)) ≡ again rest
unfolding read_round
payload_cut header payload p back rest n size b more =
    let short : length p < payload_size header =
      omega (arith, size, ap length b, length-append p back, length-positive back more) in
    ap (λ l. after_header (read_full 12 (l ++ (timeout ∷ rest)))) (octets-append header p)
    ∙ ap (λ l. after_header (read_full 12 l))
        (append_assoc (octets header) (octets p) (timeout ∷ rest))
    ∙ ap after_header (read_full-length 12 header (octets p ++ (timeout ∷ rest)) n)
    ∙ ap (after_payload header) (read_full-timeout (payload_size header) p rest short)

read_round-cut :
    {bs header payload : List ℕ} {got : Message} (front back : List ℕ) (rest : List Input)
    → IsFrame bs header payload got
    → bs ≡ front ++ back
    → back ≢ []
    → read_round (octets front ++ (timeout ∷ rest)) ≡ again rest
unfolding read_round
read_round-cut {bs} {header} {payload} front back rest f e more =
    elim (Bool-cases (ltb (length front) 12)) [
      | inl x ↦ ap after_header (read_full-timeout 12 front rest (ltb→lt (length front) 12 x))
      | inr x ↦
          let (p, a, b) =
            split_append header payload front back (sym f.parts ∙ e)
              (ground (arith, f.header_length, x)) in
          subst (λ l. read_round (octets l ++ (timeout ∷ rest)) ≡ again rest) (sym a)
            (payload_cut header payload p back rest f.header_length f.announced b more)
    ]

-- A read deadline that passes inside a message costs the octets read so far. If the octets that
-- `Encode` makes of a well-formed message are cut anywhere before the last one, and the deadline
-- passes after the first piece, the loop goes on as if that piece had never come: what arrives next,
-- the second piece of the message, is read as the header of a new one.
pub run_connection-cut :
    (m : Message) (front back : List ℕ) (rest : List Input)
    → IsWellFormed m
    → encode m ≡ some (prepared m, front ++ back)
    → back ≢ []
    → run_connection (octets front ++ (timeout ∷ rest)) ≡ run_connection rest
run_connection-cut m front back rest h e more =
    let same : wire m ≡ front ++ back = let known = (decode-encode m [] h).0 in cc in
    run-round (octets front ++ (timeout ∷ rest))
    ∙ ap (after_round run_connection) (read_round-cut front back rest (wire-IsFrame m h) same more)

run-timeout : (rest : List Input) → run_connection (timeout ∷ rest) ≡ run_connection rest
run-timeout rest =
    run-round (timeout ∷ rest)
    ∙ ap (after_round run_connection) (
        let idle : read_round (timeout ∷ rest) ≡ again rest =
          unfold read_round in ap after_header (read_full-timeout 12 [] rest (omega arith)) in
        idle)

run-timeouts :
    (k : ℕ) (rest : List Input) → run_connection (replicate k timeout ++ rest) ≡ run_connection rest
run-timeouts zero rest = refl
run-timeouts (suc k) rest = run-timeout (replicate k timeout ++ rest) ∙ run-timeouts k rest

-- What the peer writes: messages, each after so many idle reads.
abbrev encoded : Message → List ℕ
encoded m = elim (encode m) [ some (_, bytes) ↦ bytes | none ↦ [] ]

abbrev pub arriving : List (ℕ × Message) → List Input
arriving [] = []
arriving ((idle, m) ∷ later) = replicate idle timeout ++ (octets (encoded m) ++ arriving later)

abbrev pub handed_over : List (ℕ × Message) → List Event
handed_over [] = on_close ∷ []
handed_over ((idle, m) ∷ later) = on_message (delivered m) ∷ handed_over later

-- Messages that the peer writes without stopping inside one are all handed over, in order, each as
-- its receiver reads it, however many read deadlines pass between them; then `OnClose` is called.
-- The messages have to be well-formed.
pub run_connection-arriving :
    (ms : List (ℕ × Message))
    → All (λ p. IsWellFormed p.1) ms
    → run_connection (arriving ms) ≡ handed_over ms
run_connection-arriving [] h = run-round [] ∙ (unfold read_round read_full in refl)
run_connection-arriving ((idle, m) ∷ later) (here, h) =
    let bytes : encoded m ≡ wire m = rw ((decode-encode m [] here).0, encoded) refl in
    run-timeouts idle (octets (encoded m) ++ arriving later)
    ∙ ap (λ l. run_connection (octets l ++ arriving later)) bytes
    ∙ run-round (octets (wire m) ++ arriving later)
    ∙ ap (after_round run_connection) (read_round-frame (arriving later) (wire-IsFrame m here))
    ∙ ap (λ l. on_message (delivered m) ∷ l) (run_connection-arriving later h)
