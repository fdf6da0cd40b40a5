-- ===== src/Message/Status.antt =====
-- The FLOOR-REQUEST-INFORMATION that the server attaches, from builder to getters.
use bfcp.Base.{
  ℕ, ◌/◌, ◌%◌, ◌≡◌, refl, sym, subst, ap, ◌∙◌, some, true, false, List, [], ◌∷◌, ◌++◌, bit_and,
  arith,
}
use bfcp.Base.Bytes.{u8, IsWord, IsByte, uint16, bit_and_0xff}
use bfcp.Base.Result.{ok}
use bfcp.Message.{Attribute, Message}
use bfcp.Message.Grouped.{FloorRequestInfo, infos_of, floor_request_infos, status_of}
use bfcp.Message.Fields.{get_floor_id, get_floor_request_id, get_request_status}
use bfcp.Message.Encode.{encode}
use bfcp.Message.Decode.{decode}
use bfcp.Message.Tlv.{floor_request_info_attr, info_attribute, add_floor_request_information}
use bfcp.Message.Wire.{received, IsEncodable, prepared, wire}
use bfcp.Message.RoundTrip.{IsWellFormed, decode-encode}

-- The value behind the header, with the IDs as octets.
abbrev pub info_body : (rh rl s fh fl : ℕ) → List ℕ
info_body rh rl s fh fl =
    rh ∷ rl ∷ 36 ∷ 8 ∷ rh ∷ rl ∷ 10 ∷ 4 ∷ s ∷ 0 ∷ 34 ∷ 8 ∷ fh ∷ fl ∷ 10 ∷ 4 ∷ s ∷ 0 ∷ []

abbrev pub high : ℕ → ℕ
high w = u8 (w / 256)

abbrev pub low : ℕ → ℕ
low w = bit_and w 0xff % 256

info_octets :
    (rid status fid : ℕ)
    → floor_request_info_attr rid status fid
      ≡ 31 ∷ 20 ∷ info_body (high rid) (low rid) (u8 status) (high fid) (low fid)
unfolding floor_request_info_attr
info_octets rid status fid = refl

word_octets : (w : ℕ) → IsWord w → uint16 (high w) (low w) ≡ w
word_octets w h = ap (λ l. uint16 (high w) (l % 256)) (bit_and_0xff w h) ∙ (omega arith)

abbrev pub info_of : (rid status fid : ℕ) → FloorRequestInfo
info_of rid s fid = record {
  floor_request_id = rid;
  overall_status = s;
  queue_position = 0;
  has_overall = true;
  floors = record { floor_id = fid; status = s; queue_position = 0; has_status = true } ∷ [];
  beneficiary_id = 0;
  has_beneficiary = false;
  requested_by_id = 0;
  has_requested_by = false;
  priority = 0;
  has_priority = false;
}

abbrev pub received_info : (rid status fid : ℕ) → Attribute
received_info rid s fid = record {
  type = 15;
  length = 18;
  value = info_body (high rid) (low rid) (u8 s) (high fid) (low fid);
  raw_tlv = false;
}

pub info_attribute-received :
    (rid s fid : ℕ) → received (info_attribute rid s fid) ≡ received_info rid s fid
unfolding received info_attribute
info_attribute-received rid s fid = refl

pub info_attribute-IsEncodable : (rid s fid : ℕ) → IsEncodable (info_attribute rid s fid)
unfolding received info_attribute
info_attribute-IsEncodable rid s fid = record {
  type_fits = omega arith;
  value_fits = omega arith;
  same_type = refl;
  length_exact = refl;
  not_raw = refl;
  octets = λ e. refl;
}

-- The sender's attribute and the receiver's parse alike.
pub sent_info :
    (rid s fid : ℕ)
    → IsWord rid
    → IsByte s
    → IsWord fid
    → (infos_of (info_attribute rid s fid ∷ []) ≡ info_of rid s fid ∷ [])
      × (infos_of (received_info rid s fid ∷ []) ≡ info_of rid s fid ∷ [])
sent_info rid s fid hr hs hf =
    let byte : u8 s ≡ s = omega arith in
    let r = word_octets rid hr in
    let f = word_octets fid hf in
    (unfold infos_of info_attribute in cc (r, f, byte), unfold infos_of in cc (r, f, byte))

-- What a getter says when the message holds that attribute alone.
abbrev pub Reports : (rid status fid : ℕ) → Message → Type 0
Reports rid s fid m =
    (get_floor_request_id m ≡ some rid)
    × (get_floor_id m ≡ some fid)
    × (get_request_status m ≡ some (s, 0))

abbrev pub with_only : Message → Attribute → Message
with_only m a = record m { attributes = a ∷ [] }

infos-with_only :
    (m : Message) (a : Attribute) → floor_request_infos (with_only m a) ≡ infos_of (a ∷ [])
unfolding floor_request_infos
infos-with_only m a = refl

reports :
    (rid s fid : ℕ) (m : Message) (a : Attribute)
    → a.type ≡ 15
    → infos_of (a ∷ []) ≡ info_of rid s fid ∷ []
    → Reports rid s fid (with_only m a)
unfolding get_floor_request_id get_floor_id get_request_status status_of
reports rid s fid m a t i =
    let infos = infos-with_only m a ∙ i in
    (ground (arith, infos), ground (arith, infos), ground (arith, infos))

attached :
    (rid s fid : ℕ) (m : Message)
    → m.attributes ≡ []
    → add_floor_request_information rid s fid m ≡ with_only m (info_attribute rid s fid)
unfolding add_floor_request_information
attached rid s fid m e = rw e

attached_fits :
    (rid s fid : ℕ) (m : Message)
    → m.attributes ≡ []
    → IsWellFormed m
    → IsWellFormed (with_only m (info_attribute rid s fid))
attached_fits rid s fid m e h = record {
  version_known = h.version_known;
  reserved_fits = h.reserved_fits;
  primitive_fits = h.primitive_fits;
  conference_fits = h.conference_fits;
  transaction_fits = h.transaction_fits;
  user_fits = h.user_fits;
  encodable = (info_attribute-IsEncodable rid s fid, tt);
  payload_fits = unfold info_attribute in omega arith;
}

info_attribute-type : (rid s fid : ℕ) → (info_attribute rid s fid).type ≡ 15
unfolding info_attribute
info_attribute-type rid s fid = refl

-- The message that is read at the other end, with its header fields.
pub record IsReported (rid s fid : ℕ) (m : Message) (octets : List ℕ) : Type 0 where
  pub got : Message
  pub decoded : decode octets ≡ ok got
  pub same_primitive : got.primitive ≡ m.primitive
  pub same_transaction : got.transaction_id ≡ m.transaction_id
  pub reports : Reports rid s fid got

pub attached-IsReported :
    (rid s fid : ℕ) (m : Message) (rest : List ℕ)
    → IsWord rid
    → IsByte s
    → IsWord fid
    → m.attributes ≡ []
    → IsWellFormed m
    → let sent = add_floor_request_information rid s fid m in
      (encode sent ≡ some (prepared sent, wire sent)) × IsReported rid s fid m (wire sent ++ rest)
attached-IsReported rid s fid m rest hr hs hf e h =
    let a = info_attribute rid s fid in
    let sent = with_only m a in
    let (encoded, decoded) = decode-encode sent rest (attached_fits rid s fid m e h) in
    rw (attached rid s fid m e) (
      encoded,
      record {
        got = with_only (prepared sent) (received_info rid s fid);
        decoded =
            decoded
            ∙ ap (λ (b : Attribute). ok (with_only (prepared sent) b))
                (info_attribute-received rid s fid);
        same_primitive = refl;
        same_transaction = refl;
        reports =
            reports rid s fid (prepared sent) (received_info rid s fid) refl
              (sent_info rid s fid hr hs hf).1;
      },
    )

-- A status response carries its three values to the other side. Let a well-formed message without
-- attributes be given the floor request information of a request ID, a status and a floor ID. Then
-- its own getters return the three, `Encode` succeeds, and from its octets `Decode` reads a
-- message whose getters return the three.
pub status_delivered :
    (rid s fid : ℕ) (m : Message) (rest : List ℕ)
    → IsWord rid
    → IsByte s
    → IsWord fid
    → m.attributes ≡ []
    → IsWellFormed m
    → let sent = add_floor_request_information rid s fid m in
      Reports rid s fid sent
      × (encode sent ≡ some (prepared sent, wire sent))
      × ((got : Message) × (decode (wire sent ++ rest) ≡ ok got) × Reports rid s fid got)
status_delivered rid s fid m rest hr hs hf e h =
    let a = info_attribute rid s fid in
    let here =
      reports rid s fid m a (info_attribute-type rid s fid) (sent_info rid s fid hr hs hf).0 in
    let (encoded, there) = attached-IsReported rid s fid m rest hr hs hf e h in
    (
      subst (Reports rid s fid) (sym (attached rid s fid m e)) here,
      encoded,
      (there.got, there.decoded, there.reports),
    )
