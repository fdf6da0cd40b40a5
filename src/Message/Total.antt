-- ===== src/Message/Total.antt =====
-- `Decode` on any octets at all.
use bfcp.Base.{
  ℕ, zero, suc, ◌+◌, ◌-◌, ◌*◌, ◌/◌, ◌%◌, ◌≤◌, ◌<◌, ltb, ◌==◌, Bool-cases, false, some, ◌≡◌, ◌≢◌,
  refl, sym, ap, ◌∙◌, subst, map, ◌⊎◌, inl, inr, List, [], ◌∷◌, ◌++◌, All, All-append, length, take,
  drop, length-take, length-drop, not, ◌&&◌, arith,
}
use mathlib.Core.Path.{ap₂}
use bfcp.Base.Bytes.{u8, u16, IsByte, IsWord, uint16, uint32, bit_and_0x1f}
use bfcp.Base.Result.{ok, err, bind-ok}
use bfcp.Message.{Attribute, Message, parsed}
use bfcp.Message.Grouped.{padding}
use bfcp.Message.Encode.{attr_size, attr_length, encode}
use bfcp.Message.Decode.{stuck, decode_attrs, decode, decode_payload, header_message}
use bfcp.Message.Wire.{IsEncodable, received, prepared, wire}
use bfcp.Message.RoundTrip.{IsWellFormed, decode-encode}

decode_attrs-ne-stuck :
    (fuel : ℕ) (rest : List ℕ) (acc : List Attribute)
    → length rest ≤ fuel
    → decode_attrs fuel rest acc ≢ err stuck
unfolding decode_attrs
decode_attrs-ne-stuck fuel [] acc h = λ e. cc
decode_attrs-ne-stuck zero (t ∷ rest) acc h = absurd (omega arith)
decode_attrs-ne-stuck (suc fuel) (t ∷ []) acc h = λ e. cc
decode_attrs-ne-stuck (suc fuel) (t ∷ l ∷ body) acc h = ground (
  arith,
  decode_attrs-ne-stuck fuel (drop (padding l) (drop (l - 2) body))
      (acc ++ (parsed (t / 2) (l - 2) (take (l - 2) body) ∷ [])),
  length-drop (padding l) (drop (l - 2) body),
  length-drop (l - 2) body,
)

-- What the loop puts in the list.
abbrev pub IsParsed : Attribute → Type 0
IsParsed a =
    (a.type < 128) × (a.length ≡ length a.value) × (length a.value ≤ 253) × (a.raw_tlv ≡ false)

All-drop : (n : ℕ) (xs : List ℕ) → All IsByte xs → All IsByte (drop n xs)
All-drop zero xs h = h
All-drop (suc n) [] h = h
All-drop (suc n) (x ∷ xs) h = All-drop n xs h.1

All-take : (n : ℕ) (xs : List ℕ) → All IsByte xs → All IsByte (take n xs)
All-take zero xs h = tt
All-take (suc n) [] h = h
All-take (suc n) (x ∷ xs) h = (h.0, All-take n xs h.1)

attr_length-append :
    (xs ys : List Attribute) → attr_length (xs ++ ys) ≡ attr_length xs + attr_length ys
attr_length-append [] ys = omega arith
attr_length-append (x ∷ xs) ys = omega (arith, attr_length-append xs ys)

padding_bounds : (l : ℕ) → ((l + padding l) % 4 ≡ 0) × (padding l < 4)
padding_bounds l = ground arith

err-ne-ok {ℓ κ} : {E : Type ℓ} {A : Type κ} {x : E} {y : A} → err x ≡ ok y → ⊥
err-ne-ok h = cc

-- One round that passes its two checks: the attribute it adds, and the octets it leaves.
round_shape :
    (t l : ℕ) (body : List ℕ)
    → ltb l 2 ≡ false
    → ltb (length body) (l - 2) ≡ false
    → IsByte t
    → IsByte l
    → length (t ∷ l ∷ body) % 4 ≡ 0
    → let a = parsed (t / 2) (l - 2) (take (l - 2) body) in
      let left = drop (padding l) (drop (l - 2) body) in
      IsParsed a × (length left % 4 ≡ 0) × (attr_size a + length left ≡ length (t ∷ l ∷ body))
round_shape t l body x y ht hl z =
    let lo : 2 ≤ l = ground arith in
    let hi : l - 2 ≤ length body = ground arith in
    let n = length-take (l - 2) body hi in
    let w : 2 + u8 (l - 2) ≡ l = omega arith in
    let size : 2 + u8 (l - 2) + padding (2 + u8 (l - 2)) ≡ l + padding l =
      ap (λ k. k + padding k) w in
    let left : length (drop (padding l) (drop (l - 2) body)) ≡ length body - (l - 2) - padding l =
      omega (arith, length-drop (padding l) (drop (l - 2) body), length-drop (l - 2) body) in
    let (whole, few) = padding_bounds l in
    ((omega arith, (omega arith) ∙ sym n, omega arith, refl), omega arith, omega arith)

-- A run that succeeds has added parsed attributes only, whose padded sizes add up to the octets.
decode_attrs_result :
    (fuel : ℕ) (rest : List ℕ) (acc res : List Attribute)
    → decode_attrs fuel rest acc ≡ ok res
    → length rest % 4 ≡ 0
    → All IsByte rest
    → All IsParsed acc
    → All IsParsed res × (attr_length res ≡ attr_length acc + length rest)
unfolding decode_attrs
decode_attrs_result fuel [] acc res e z b p =
    let q : acc ≡ res = cc in
    subst (λ r. All IsParsed r × (attr_length r ≡ attr_length acc + 0)) q (p, omega arith)
decode_attrs_result zero (t ∷ rest) acc res e z b p = cc
decode_attrs_result (suc fuel) (t ∷ []) acc res e z b p = cc
decode_attrs_result (suc fuel) (t ∷ l ∷ body) acc res e z b p = elim (Bool-cases (ltb l 2)) [
  | inl x ↦ absurd (err-ne-ok (rw x at e))
  | inr x ↦ elim (Bool-cases (ltb (length body) (l - 2))) [
    | inl y ↦ absurd (err-ne-ok (rw (x, y) at e))
    | inr y ↦
        let a = parsed (t / 2) (l - 2) (take (l - 2) body) in
        let left = drop (padding l) (drop (l - 2) body) in
        let shape = round_shape t l body x y b.0 b.1.0 z in
        let (good, bound) =
          decode_attrs_result fuel left (acc ++ (a ∷ [])) res (rw (x, y) at e) shape.1
            (All-drop (padding l) (drop (l - 2) body) (All-drop (l - 2) body b.1.1))
            (All-append IsParsed acc (a ∷ []) p (shape.0, tt)) in
        (good, omega (arith, shape.2, attr_length-append acc (a ∷ [])))
  ]
]

decode_payload-ne-stuck : (m : Message) (rest : List ℕ) → decode_payload m rest ≢ err stuck
unfolding decode_payload
decode_payload-ne-stuck m rest h = ground (
  arith,
  decode_attrs-ne-stuck (m.payload_length * 4) (take (m.payload_length * 4) rest) [],
  length-take (m.payload_length * 4) rest,
)

-- `Decode` never runs past the fuel of its loop: on every input it returns a message or one of the
-- errors of the source.
decode-ne-stuck : (bytes : List ℕ) → decode bytes ≢ err stuck
unfolding decode
decode-ne-stuck (b0 ∷ p ∷ l1 ∷ l0 ∷ c3 ∷ c2 ∷ c1 ∷ c0 ∷ t1 ∷ t0 ∷ u1 ∷ u0 ∷ rest) h =
    decode_payload-ne-stuck
      (header_message b0 p (uint16 l1 l0) (uint32 c3 c2 c1 c0) (uint16 t1 t0) (uint16 u1 u0)) rest h
decode-ne-stuck _ h = cc

-- What a successful `decode_payload` shows.
pub record PayloadRead (m0 m : Message) : Type 0 where
  pub version_known : (m0.version ≡ 1) ⊎ (m0.version ≡ 2)
  pub good : All IsParsed m.attributes
  pub exact : attr_length m.attributes ≡ m0.payload_length * 4
  pub same : record m0 { attributes = m.attributes } ≡ m

decode_payload_result :
    (m0 m : Message) (rest : List ℕ)
    → decode_payload m0 rest ≡ ok m
    → All IsByte rest
    → PayloadRead m0 m
unfolding decode_payload
decode_payload_result m0 m rest e b =
    elim (Bool-cases (not (m0.version == 1) && not (m0.version == 2))) [
      | inl x ↦ absurd (err-ne-ok (rw x at e))
      | inr x ↦ elim (Bool-cases (ltb (length rest) (m0.payload_length * 4))) [
        | inl y ↦ absurd (err-ne-ok (rw (x, y) at e))
        | inr y ↦
            let n = m0.payload_length * 4 in
            let (attrs, got, done) = bind-ok (decode_attrs n (take n rest) []) _ (rw (x, y) at e) in
            let q : record m0 { attributes = attrs } ≡ m = cc in
            let size = length-take n rest (ground arith) in
            let (good, bound) =
              decode_attrs_result n (take n rest) [] attrs got (omega arith) (All-take n rest b)
                tt in
            subst (PayloadRead m0) q (record {
              version_known = ground arith;
              good = good;
              exact = omega arith;
              same = refl;
            })
      ]
    ]

received-parsed : (a : Attribute) → IsParsed a → received a ≡ a
unfolding received
received-parsed a h = rw h.3

IsParsed-IsEncodable : (a : Attribute) → IsParsed a → IsEncodable a
IsParsed-IsEncodable a h =
    let r = received-parsed a h in
    record {
      type_fits = h.0;
      value_fits = rw r h.2;
      same_type = rw r;
      length_exact = rw r h.1;
      not_raw = rw r h.3;
      octets = λ e. cc (h.3);
    }

All-IsEncodable : (attrs : List Attribute) → All IsParsed attrs → All IsEncodable attrs
All-IsEncodable [] h = tt
All-IsEncodable (a ∷ attrs) h = (IsParsed-IsEncodable a h.0, All-IsEncodable attrs h.1)

map-received : (attrs : List Attribute) → All IsParsed attrs → map received attrs ≡ attrs
map-received [] h = refl
map-received (a ∷ attrs) h = ap₂ (λ x xs. x ∷ xs) (received-parsed a h.0) (map-received attrs h.1)

-- The header of a message whose octets are bytes is within its widths.
abbrev HeaderFits : Message → Type 0
HeaderFits m =
    (m.reserved < 32)
    × (m.primitive < 256)
    × (m.conference_id < 4294967296)
    × IsWord m.transaction_id
    × IsWord m.user_id
    × IsWord m.payload_length

-- What `Decode` returns for a slice of bytes.
pub record Decoded (m : Message) : Type 0 where
  pub well_formed : IsWellFormed m
  pub all_parsed : All IsParsed m.attributes
  pub length_exact : prepared m ≡ m

payload-Decoded :
    (m0 m : Message) (rest : List ℕ)
    → HeaderFits m0
    → All IsByte rest
    → decode_payload m0 rest ≡ ok m
    → Decoded m
payload-Decoded m0 m rest f b e =
    let r = decode_payload_result m0 m rest e b in
    let n : m.payload_length ≡ m0.payload_length =
      ap (λ (x : Message). x.payload_length) (sym r.same) in
    subst Decoded r.same (record {
      well_formed = record {
        version_known = r.version_known;
        reserved_fits = f.0;
        primitive_fits = f.1;
        conference_fits = f.2;
        transaction_fits = f.3;
        user_fits = f.4;
        encodable = All-IsEncodable m.attributes r.good;
        payload_fits = omega arith;
      };
      all_parsed = r.good;
      length_exact =
          ap (λ k. record m0 { payload_length = k; attributes = m.attributes })
            (let k : u16 (attr_length m.attributes / 4) ≡ m0.payload_length = omega arith in k);
    })

decode-Decoded : (bytes : List ℕ) (m : Message) → All IsByte bytes → decode bytes ≡ ok m → Decoded m
unfolding decode
decode-Decoded (b0 ∷ p ∷ l1 ∷ l0 ∷ c3 ∷ c2 ∷ c1 ∷ c0 ∷ t1 ∷ t0 ∷ u1 ∷ u0 ∷ rest) m b e =
    payload-Decoded
      (header_message b0 p (uint16 l1 l0) (uint32 c3 c2 c1 c0) (uint16 t1 t0) (uint16 u1 u0)) m rest
      (omega (arith, bit_and_0x1f b0 b.0)) b.1.1.1.1.1.1.1.1.1.1.1.1 e
decode-Decoded _ m b e = absurd (err-ne-ok e)

-- What `Decode` accepts is a well-formed message, and encoding it is canonical: `Encode` succeeds
-- on it and changes no field, and `Decode` reads the same message from the result, whatever
-- follows. The octets may differ from those received in the padding and in the M bits.
pub encode-decode :
    (bytes : List ℕ) (m : Message) (rest : List ℕ)
    → All IsByte bytes
    → decode bytes ≡ ok m
    → IsWellFormed m × (encode m ≡ some (m, wire m)) × (decode (wire m ++ rest) ≡ ok m)
encode-decode bytes m rest b e =
    let d = decode-Decoded bytes m b e in
    let (sent, got) = decode-encode m rest d.well_formed in
    (
      d.well_formed,
      sent ∙ ap (λ (x : Message). some (x, wire m)) d.length_exact,
      got
          ∙ ap ok (
              ap₂ (λ (x : Message) attrs. record x { attributes = attrs }) d.length_exact
                (map-received m.attributes d.all_parsed)),
    )
