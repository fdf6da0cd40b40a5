-- ===== src/Message/Framing.antt =====
-- Messages on a byte stream: what `WriteMessage` appends, `ReadMessage` takes off, and no more.
use bfcp.Base.{
  ℕ, ◌*◌, ◌/◌, ◌%◌, ltb, le→ltb, false, some, none, ◌≡◌, refl, sym, ap, ◌∙◌, List, [], ◌∷◌, ◌++◌,
  map, append_assoc, append-nil, length, length-append, take-append, drop-append, arith,
}
use bfcp.Base.Bytes.{uint16, uint16-put_uint16}
use bfcp.Base.{All, Option, zero, suc}
use bfcp.Base.Result.{Result, ok, err}
use bfcp.Message.{Message}
use bfcp.Message.Encode.{header_bytes}
use bfcp.Message.Decode.{decode}
use bfcp.Message.Read.{read_full, payload_size, ReadError, read_message, write_message}
use bfcp.Message.Wire.{received, attrs_wire, prepared, wire, encode_length}
use bfcp.Message.RoundTrip.{IsWellFormed, decode-encode}

read_full-append : (xs ys : List ℕ) → read_full (length xs) (xs ++ ys) ≡ some (xs, ys)
read_full-append xs ys =
    let enough : ltb (length (xs ++ ys)) (length xs) ≡ false =
      le→ltb _ _ (omega (arith, length-append xs ys)) in
    rw (enough, take-append, drop-append)

-- A message is read off the front of a stream.
read_message-append :
    (m got : Message) (header payload rest : List ℕ)
    → length header ≡ 12
    → payload_size header ≡ length payload
    → decode (header ++ payload) ≡ ok got
    → read_message ((header ++ payload) ++ rest) ≡ ok (got, rest)
unfolding read_message
read_message-append m got header payload rest n s d =
    let first : read_full 12 ((header ++ payload) ++ rest) ≡ some (header, payload ++ rest) =
      ap (read_full 12) (append_assoc header payload rest)
      ∙ ap (λ k. read_full k (header ++ (payload ++ rest))) (sym n)
      ∙ read_full-append header (payload ++ rest) in
    let second : read_full (payload_size header) (payload ++ rest) ≡ some (payload, rest) =
      ap (λ k. read_full k (payload ++ rest)) s ∙ read_full-append payload rest in
    ground (arith, first, second, d)

-- The message that the reader gets.
abbrev pub delivered : Message → Message
delivered m = record (prepared m) { attributes = map received m.attributes }

-- How the octets of a message fall into a header and the payload that the header announces.
pub record IsFrame (octets header payload : List ℕ) (got : Message) : Type 0 where
  pub parts : octets ≡ header ++ payload
  pub header_length : length header ≡ 12
  pub announced : payload_size header ≡ length payload
  pub decodes : decode (header ++ payload) ≡ ok got

pub wire-IsFrame :
    (m : Message)
    → IsWellFormed m
    → IsFrame (wire m) (header_bytes (prepared m)) (attrs_wire m.attributes) (delivered m)
wire-IsFrame m h =
    let n = (prepared m).payload_length in
    let size : uint16 (n / 256 % 256) (n % 256) * 4 ≡ length (attrs_wire m.attributes) = omega (
      arith,
      encode_length m h.encodable h.payload_fits,
      length-append (header_bytes (prepared m)) (attrs_wire m.attributes),
      uint16-put_uint16 n (omega arith),
    ) in
    record {
      parts = refl;
      header_length = refl;
      announced = size;
      decodes = ap decode (sym (append-nil (wire m))) ∙ (decode-encode m [] h).1;
    }

read_message-wire :
    (m : Message) (rest : List ℕ)
    → IsWellFormed m
    → read_message (wire m ++ rest) ≡ ok (delivered m, rest)
read_message-wire m rest h =
    let f = wire-IsFrame m h in
    read_message-append m (delivered m) (header_bytes (prepared m)) (attrs_wire m.attributes) rest
      f.header_length f.announced f.decodes

write_message-wire :
    (m : Message) (written : List ℕ)
    → IsWellFormed m
    → write_message m written ≡ some (written ++ wire m)
unfolding write_message
write_message-wire m written h = rw ((decode-encode m [] h).0, write_message)

-- Messages written one after the other, and read one after the other.
abbrev pub write_all : List Message → List ℕ → Option (List ℕ)
write_all [] written = some written
write_all (m ∷ ms) written = elim (write_message m written) [
  | some written' ↦ write_all ms written'
  | none ↦ none
]

abbrev pub read_all : (count : ℕ) → List ℕ → Result ReadError (List Message × List ℕ)
read_all zero stream = ok ([], stream)
read_all (suc n) stream = elim (read_message stream) [
  | ok (m, rest) ↦ elim (read_all n rest) [ ok (ms, left) ↦ ok (m ∷ ms, left) | err e ↦ err e ]
  | err e ↦ err e
]

abbrev wires : List Message → List ℕ
wires [] = []
wires (m ∷ ms) = wire m ++ wires ms

write_all-wires :
    (ms : List Message) (written : List ℕ)
    → All IsWellFormed ms
    → write_all ms written ≡ some (written ++ wires ms)
write_all-wires [] written h = ap some (sym (append-nil written))
write_all-wires (m ∷ ms) written h =
    rw (write_message-wire m written h.0, write_all)
      (write_all-wires ms (written ++ wire m) h.1
        ∙ ap some (append_assoc written (wire m) (wires ms)))

read_all-wires :
    (ms : List Message) (rest : List ℕ)
    → All IsWellFormed ms
    → read_all (length ms) (wires ms ++ rest) ≡ ok (map delivered ms, rest)
read_all-wires [] rest h = refl
read_all-wires (m ∷ ms) rest h =
    let first : read_message (wires (m ∷ ms) ++ rest) ≡ ok (delivered m, wires ms ++ rest) =
      ap read_message (append_assoc (wire m) (wires ms) rest)
      ∙ read_message-wire m (wires ms ++ rest) h.0 in
    ground (arith, first, read_all-wires ms rest h.1)

-- Framing keeps message boundaries. Well-formed messages written to a stream one after the other
-- come out of it in the same order, each as its receiver reads it, and the octets behind the last
-- one are left on the stream.
pub read_all-write_all :
    (ms : List Message) (rest : List ℕ)
    → All IsWellFormed ms
    → (stream : List ℕ) × (write_all ms [] ≡ some stream)
      × (read_all (length ms) (stream ++ rest) ≡ ok (map delivered ms, rest))
read_all-write_all ms rest h = (wires ms, write_all-wires ms [] h, read_all-wires ms rest h)
