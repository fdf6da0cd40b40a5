-- ===== src/Message/Read.antt =====
-- `ReadMessage` and `WriteMessage` of message.go over a byte stream: the list is what the stream
-- still holds, and `io.ReadFull` fails when it holds too little.
use bfcp.Base.{ℕ, ◌*◌, ltb, if◌then◌else◌, Option, none, some, List, ◌∷◌, ◌++◌, length, take, drop}
use bfcp.Base.Bytes.{uint16}
use bfcp.Base.Result.{Result, ok, err}
use bfcp.Types.Protocol
use bfcp.Message.{Message}
use bfcp.Message.Encode.{encode}
use bfcp.Message.Decode.{DecodeError, decode}

pub data ReadError : Type 0 where
  header_failed payload_failed : ReadError
  decode_failed : DecodeError → ReadError

-- The octets read, and the stream behind them.
abbrev pub read_full : ℕ → List ℕ → Option (List ℕ × List ℕ)
read_full n stream = if ltb (length stream) n then none else some (take n stream, drop n stream)

-- `header[2:4]`, in octets.
abbrev pub payload_size : List ℕ → ℕ
payload_size (_ ∷ _ ∷ l1 ∷ l0 ∷ _) = uint16 l1 l0 * 4
payload_size _ = 0

unfoldable pub read_message : List ℕ → Result ReadError (Message × List ℕ)
read_message stream = elim (read_full Protocol.common_header_length stream) [
  | none ↦ err header_failed
  | some (header, behind) ↦ elim (read_full (payload_size header) behind) [
    | none ↦ err payload_failed
    | some (payload, rest) ↦ elim (decode (header ++ payload)) [
      | ok m ↦ ok (m, rest)
      | err e ↦ err (decode_failed e)
    ]
  ]
]

-- The stream behind what was written before; `none` is the error of `Encode`.
unfoldable pub write_message : Message → List ℕ → Option (List ℕ)
write_message m written = elim (encode m) [
  | some (_, bytes) ↦ some (written ++ bytes)
  | none ↦ none
]
