-- ===== src/Message/Wire.antt =====
-- The wire form of a message, written down without a buffer, and that `encode` produces it.
use bfcp.Base.{
  ℕ, ◌+◌, ◌-◌, ◌*◌, ◌/◌, ◌%◌, ◌≤◌, ◌<◌, ◌==◌, if◌then◌else◌, Bool-cases, true, false, ==_iff, subst,
  bit_or, some, ◌≡◌, refl, sym, ap, ◌∙◌, inl, inr, List, [], ◌∷◌, ◌++◌, All, append_assoc, length,
  take, replicate, copy_at, length-append, length-replicate, drop-replicate, replicate-append,
  copy_at-append, arith,
}
use bfcp.Base.Bytes.{u8, u16, bit_or_one}
use bfcp.Message.{Attribute, Message, parsed}
use bfcp.Message.Grouped.{padding}
use bfcp.Message.Encode.{attr_size, attr_length, header_bytes, encode_attr, encode_attrs, encode}

-- Type octet with the M bit, length octet, value, zeros up to a multiple of four.
abbrev pub tlv : (type : ℕ) (value : List ℕ) → List ℕ
tlv t v = (t * 2 + 1) ∷ (length v + 2) ∷ v ++ replicate (padding (2 + length v)) 0

-- What a receiver makes of an attribute: a pre-encoded one is read behind its header.
unfoldable pub received : Attribute → Attribute
received a =
    if a.raw_tlv
    then elim a.value [ t ∷ (l ∷ body) ↦ parsed a.type (l - 2) (take (l - 2) body) | _ ↦ a ]
    else a

-- An attribute that fits its octets: a 7-bit type, a value of at most 253 octets whose length is
-- the `Length` field, and, if it is pre-encoded, the octets of such an attribute.
pub record IsEncodable (a : Attribute) : Type 0 where
  pub type_fits : a.type < 128
  pub value_fits : length (received a).value ≤ 253
  pub same_type : (received a).type ≡ a.type
  pub length_exact : (received a).length ≡ length (received a).value
  pub not_raw : (received a).raw_tlv ≡ false
  pub octets : a.raw_tlv ≡ true → a.value ≡ tlv a.type (received a).value

unfoldable pub attr_wire : Attribute → List ℕ
attr_wire a = tlv a.type (received a).value

abbrev pub attrs_wire : List Attribute → List ℕ
attrs_wire [] = []
attrs_wire (a ∷ attrs) = attr_wire a ++ attrs_wire attrs

-- A write of `src` into the zeroed part of the buffer, at its front.
fill :
    (pre src : List ℕ) (n : ℕ)
    → length src ≤ n
    → copy_at (length pre) src (pre ++ replicate n 0) ≡ (pre ++ src) ++ replicate (n - length src) 0
fill pre src n h =
    copy_at-append pre src (replicate n 0) (rw length-replicate h)
    ∙ rw drop-replicate (sym (append_assoc pre src _))

abbrev zeros : ℕ → List ℕ
zeros n = replicate n 0

-- The offset and the buffer behind a write of `w` at the front of the zeroed part.
abbrev filled : (pre w : List ℕ) → ℕ → ℕ × List ℕ
filled pre w n = (length (pre ++ w), (pre ++ w) ++ zeros (n - length w))

raw_step :
    (pre w : List ℕ) (n : ℕ)
    → length w ≤ n
    → ◌≡◌ {A = ℕ × List ℕ}
        (length pre + length w, copy_at (length pre) w (pre ++ zeros n))
        (filled pre w n)
raw_step pre w n h = cc (length-append pre w, fill pre w n h)

length-tlv : (t : ℕ) (v : List ℕ) → length (tlv t v) ≡ 2 + length v + padding (2 + length v)
length-tlv t v =
    rw (length-append v (zeros (padding (2 + length v))), length-replicate) (omega arith)

-- The two writes of a plain attribute.
header_step :
    (t l : ℕ) (v pre : List ℕ) (n : ℕ)
    → 2 + length v ≤ n
    → copy_at (length pre + 2) v (copy_at (length pre) (t ∷ l ∷ []) (pre ++ zeros n))
      ≡ (pre ++ (t ∷ l ∷ v)) ++ zeros (n - (2 + length v))
header_step t l v pre n h =
    ap (copy_at (length pre + 2) v) (fill pre (t ∷ l ∷ []) n (omega arith))
    ∙ ap (λ i. copy_at i v ((pre ++ (t ∷ l ∷ [])) ++ zeros (n - 2)))
        (sym (length-append pre (t ∷ l ∷ [])))
    ∙ fill (pre ++ (t ∷ l ∷ [])) v (n - 2) (omega arith)
    ∙ cc (
      append_assoc pre (t ∷ l ∷ []) v,
      ap zeros (let e : n - 2 - length v ≡ n - (2 + length v) = omega arith in e),
    )

zeros_split : (k n : ℕ) → k ≤ n → zeros n ≡ zeros k ++ zeros (n - k)
zeros_split k n h =
    ap zeros (let e : n ≡ k + (n - k) = omega arith in e) ∙ sym (replicate-append k (n - k) 0)

plain_step :
    (t : ℕ) (v pre : List ℕ) (n : ℕ)
    → length (tlv t v) ≤ n
    → ◌≡◌ {A = ℕ × List ℕ}
        (
          length pre + 2 + length v + padding (2 + length v),
          copy_at
              (length pre + 2)
              v
              (copy_at (length pre) ((t * 2 + 1) ∷ (length v + 2) ∷ []) (pre ++ zeros n)),
        )
        (filled pre (tlv t v) n)
plain_step t v pre n h =
    let p = padding (2 + length v) in
    let m = n - (2 + length v) in
    let head = (t * 2 + 1) ∷ (length v + 2) ∷ v in
    let size : length (tlv t v) ≡ 2 + length v + p = length-tlv t v in
    let here : length pre + 2 + length v + p ≡ length (pre ++ tlv t v) =
      omega (arith, length-append pre (tlv t v), length-tlv t v) in
    let gone : m - p ≡ n - length (tlv t v) = omega arith in
    cc (
      here,
      header_step (t * 2 + 1) (length v + 2) v pre n (omega arith),
      zeros_split p m (omega arith),
      ap zeros gone,
      append_assoc pre head (zeros p ++ zeros (m - p)),
      append_assoc pre (tlv t v) (zeros (m - p)),
      append_assoc head (zeros p) (zeros (m - p)),
    )

received-plain : (a : Attribute) → a.raw_tlv ≡ false → received a ≡ a
unfolding received
received-plain a e = rw e

encode_attr-raw :
    (a : Attribute) (off : ℕ) (buf : List ℕ)
    → a.raw_tlv ≡ true
    → encode_attr a off buf ≡ (off + length a.value, copy_at off a.value buf)
unfolding encode_attr
encode_attr-raw a off buf e = rw e

encode_attr-plain :
    (a : Attribute) (off : ℕ) (buf : List ℕ)
    → a.raw_tlv ≡ false
    → a.type < 128
    → a.length ≡ length a.value
    → length a.value ≤ 253
    → let v = a.value in
      encode_attr a off buf ≡ (
        off + 2 + length v + padding (2 + length v),
        copy_at (off + 2) v (copy_at off ((a.type * 2 + 1) ∷ (length v + 2) ∷ []) buf),
      )
unfolding encode_attr
encode_attr-plain a off buf e ht hl hv =
    let m : bit_or (a.type * 2 % 256) 1 ≡ a.type * 2 + 1 =
      bit_or_one a.type (omega arith) ∙ (omega arith) in
    let l : u8 (length a.value + 2) ≡ length a.value + 2 = omega arith in rw e (rw hl (rw (m, l)))

encode_attr-filled :
    (a : Attribute) (pre : List ℕ) (n : ℕ)
    → IsEncodable a
    → length (attr_wire a) ≤ n
    → encode_attr a (length pre) (pre ++ zeros n) ≡ filled pre (attr_wire a) n
unfolding attr_wire
encode_attr-filled a pre n h fits = elim (Bool-cases a.raw_tlv) [
  | inl e ↦
      let o = h.octets e in
      encode_attr-raw a (length pre) (pre ++ zeros n) e
      ∙ subst
          (λ w.
            ◌≡◌ {A = ℕ × List ℕ} (length pre + length w, copy_at (length pre) w (pre ++ zeros n))
              (filled pre (attr_wire a) n))
          (sym o) (raw_step pre (attr_wire a) n fits)
  | inr e ↦
      let r : received a ≡ a = received-plain a e in
      let same : tlv a.type a.value ≡ attr_wire a =
        ap (λ (b : Attribute). tlv a.type b.value) (sym r) in
      let exact : a.length ≡ length a.value =
        subst (λ (b : Attribute). b.length ≡ length b.value) r h.length_exact in
      let small : length a.value ≤ 253 =
        subst (λ (b : Attribute). length b.value ≤ 253) r h.value_fits in
      encode_attr-plain a (length pre) (pre ++ zeros n) e h.type_fits exact small
      ∙ subst
          (λ w.
            ◌≡◌ {A = ℕ × List ℕ}
              (
                length pre + 2 + length a.value + padding (2 + length a.value),
                copy_at (length pre + 2) a.value (
                    copy_at (length pre) ((a.type * 2 + 1) ∷ (length a.value + 2) ∷ [])
                      (pre ++ zeros n)),
              )
              (filled pre w n))
          same (plain_step a.type a.value pre n (subst (λ w. length w ≤ n) (sym same) fits))
]

encode_attrs-wire :
    (attrs : List Attribute) (pre : List ℕ)
    → All IsEncodable attrs
    → encode_attrs attrs (length pre) (pre ++ zeros (length (attrs_wire attrs)))
      ≡ pre ++ attrs_wire attrs
unfolding encode_attrs
encode_attrs-wire [] pre h = refl
encode_attrs-wire (a ∷ attrs) pre h =
    let w = attr_wire a in
    let n = length (attrs_wire (a ∷ attrs)) in
    let size : n ≡ length w + length (attrs_wire attrs) = length-append w (attrs_wire attrs) in
    let left : n - length w ≡ length (attrs_wire attrs) = omega arith in
    rw (encode_attr-filled a pre n h.0 (omega arith)) (
      ap (λ k. encode_attrs attrs (length (pre ++ w)) ((pre ++ w) ++ zeros k)) left
      ∙ encode_attrs-wire attrs (pre ++ w) h.1
      ∙ append_assoc pre w (attrs_wire attrs))

length-attr_wire : (a : Attribute) → IsEncodable a → length (attr_wire a) ≡ attr_size a
unfolding attr_wire
length-attr_wire a h = elim (Bool-cases a.raw_tlv) [
  | inl e ↦ sym (ap length (h.octets e)) ∙ rw e
  | inr e ↦
      let l : length (received a).value ≡ a.length =
        sym h.length_exact ∙ ap (λ (b : Attribute). b.length) (received-plain a e) in
      length-tlv a.type (received a).value ∙ ap (λ k. 2 + k + padding (2 + k)) l ∙ rw e
]

length-attrs_wire :
    (attrs : List Attribute) → All IsEncodable attrs → length (attrs_wire attrs) ≡ attr_length attrs
length-attrs_wire [] h = refl
length-attrs_wire (a ∷ attrs) h = omega (
  arith,
  length-append (attr_wire a) (attrs_wire attrs),
  length-attr_wire a h.0,
  length-attrs_wire attrs h.1,
)

padded : (l : ℕ) → (l + padding l) % 4 ≡ 0
padded l = ground arith

attr_wire_aligned : (a : Attribute) → length (attr_wire a) % 4 ≡ 0
unfolding attr_wire
attr_wire_aligned a =
    ap (λ k. k % 4) (length-tlv a.type (received a).value) ∙ padded (2 + length (received a).value)

attrs_wire_aligned : (attrs : List Attribute) → length (attrs_wire attrs) % 4 ≡ 0
attrs_wire_aligned [] = omega arith
attrs_wire_aligned (a ∷ attrs) = omega (
  arith,
  length-append (attr_wire a) (attrs_wire attrs),
  attr_wire_aligned a,
  attrs_wire_aligned attrs,
)

-- The message as `Encode` leaves it, and its octets.
abbrev pub prepared : Message → Message
prepared m = record m { payload_length = u16 (attr_length m.attributes / 4) }

abbrev pub wire : Message → List ℕ
wire m = header_bytes (prepared m) ++ attrs_wire m.attributes

pub encode-wire :
    (m : Message) → All IsEncodable m.attributes → encode m ≡ some (prepared m, wire m)
unfolding encode
encode-wire m h =
    let n : attr_length m.attributes ≡ length (attrs_wire m.attributes) =
      sym (length-attrs_wire m.attributes h) in
    let z : (attr_length m.attributes % 4 == 0) ≡ true =
      (==_iff _ 0).1 (omega (arith, attrs_wire_aligned m.attributes)) in
    rw z (
      ap (λ (bytes : List ℕ). some (prepared m, bytes))
        (ap (λ k. encode_attrs m.attributes 12 (header_bytes (prepared m) ++ zeros k)) n
          ∙ encode_attrs-wire m.attributes (header_bytes (prepared m)) h))

-- What is encoded is a whole number of 32-bit words, and if the payload length fits its 16 bits
-- it counts the words behind the twelve octets of the header.
pub encode_length :
    (m : Message)
    → All IsEncodable m.attributes
    → attr_length m.attributes < 262144
    → length (wire m) ≡ 12 + (prepared m).payload_length * 4
encode_length m h fits = omega (
  arith,
  length-append (header_bytes (prepared m)) (attrs_wire m.attributes),
  length-attrs_wire m.attributes h,
  attrs_wire_aligned m.attributes,
)
