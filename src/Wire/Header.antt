-- ===== src/Wire/Header.antt =====
-- mdeth.h and mdeth.c: the header of a message and its form on the wire.
use excelfore_gptp.Common.{
  ℕ, ℤ, pos, negsuc, suc, ◌+◌, ◌*◌, ◌/◌, ◌%◌, ◌^◌, ◌<◌, ◌≡◌, List, [], ◌∷◌, arith, u8, ◌||◌, ◌==◌,
  if◌then◌else◌,
}
use excelfore_gptp.Types.{PortIdentity, ClockIdentity}
use excelfore_gptp.Config.{Config, to_uint8}
use excelfore_gptp.Wire.Order.{
  NetworkOrder, IsInverse, to_word, of_word, Fits, of_word-to_word, to_word-lt,
}

-- PTPMsgHeader with all its members. Those of the types Nibble, UInteger4 and Enumeration4 have four
-- bits.
pub record PtpHeader : Type 0 where
  pub major_sdo_id : ℕ
  pub message_type : ℕ
  pub minor_version_ptp : ℕ
  pub version_ptp : ℕ
  pub message_length : ℕ  -- uint16_t
  pub domain_number : ℕ  -- uint8_t
  pub minor_sdo_id : ℕ  -- uint8_t
  pub flags0 : ℕ  -- uint8_t
  pub flags1 : ℕ  -- uint8_t
  pub correction_field : ℤ  -- int64_t
  pub message_type_specific : List ℕ  -- four bytes
  pub source_port_identity : PortIdentity
  pub sequence_id : ℕ  -- uint16_t
  pub control : ℕ  -- uint8_t
  pub log_message_interval : ℤ  -- int8_t

-- MDPTPMsgHeader; a member named _ns or _nll is in the order of the network.
pub record MdPtpMsgHeader : Type 0 where
  pub major_sdo_id_message_type : ℕ  -- uint8_t
  pub minor_version_ptp_version_ptp : ℕ  -- uint8_t
  pub message_length_ns : ℕ
  pub domain_number : ℕ
  pub minor_sdo_id : ℕ
  pub flags0 : ℕ
  pub flags1 : ℕ
  pub correction_field_nll : ℕ
  pub message_type_specific : List ℕ
  pub clock_identity : ClockIdentity
  pub port_number_ns : ℕ
  pub sequence_id_ns : ℕ
  pub control : ℕ
  pub log_message_interval : ℤ

-- Half the number of values of an int64_t.
abbrev pub half_64 : ℕ
half_64 = 2 ^ 63

-- `(a << 4) | b` in a byte, for a `b` of four bits
unfoldable pub md_compose_head : NetworkOrder → PtpHeader → MdPtpMsgHeader
md_compose_head o h = record {
  major_sdo_id_message_type = u8 (16 * h.major_sdo_id + h.message_type);
  minor_version_ptp_version_ptp = u8 (16 * h.minor_version_ptp + h.version_ptp);
  message_length_ns = o.htons h.message_length;
  domain_number = h.domain_number;
  minor_sdo_id = h.minor_sdo_id;
  flags0 = h.flags0;
  flags1 = h.flags1;
  correction_field_nll = o.htonll (to_word half_64 h.correction_field);
  message_type_specific = h.message_type_specific;
  clock_identity = h.source_port_identity.clock_identity;
  port_number_ns = o.htons h.source_port_identity.port_number;
  sequence_id_ns = o.htons h.sequence_id;
  control = h.control;
  log_message_interval = h.log_message_interval;
}

unfoldable pub md_decompose_head : NetworkOrder → MdPtpMsgHeader → PtpHeader
md_decompose_head o p = record {
  major_sdo_id = p.major_sdo_id_message_type / 16 % 16;
  message_type = p.major_sdo_id_message_type % 16;
  minor_version_ptp = p.minor_version_ptp_version_ptp / 16 % 16;
  version_ptp = p.minor_version_ptp_version_ptp % 16;
  message_length = o.ntohs p.message_length_ns;
  domain_number = p.domain_number;
  minor_sdo_id = p.minor_sdo_id;
  flags0 = p.flags0;
  flags1 = p.flags1;
  correction_field = of_word half_64 (o.ntohll p.correction_field_nll);
  message_type_specific = p.message_type_specific;
  source_port_identity = record {
    clock_identity = p.clock_identity;
    port_number = o.ntohs p.port_number_ns;
  };
  sequence_id = o.ntohs p.sequence_id_ns;
  control = p.control;
  log_message_interval = p.log_message_interval;
}

-- The members are within their types.
pub record IsHeader (h : PtpHeader) : Type 0 where
  pub major_sdo_id : h.major_sdo_id < 16
  pub message_type : h.message_type < 16
  pub minor_version_ptp : h.minor_version_ptp < 16
  pub version_ptp : h.version_ptp < 16
  pub message_length : h.message_length < 2 ^ 16
  pub correction_field : Fits half_64 h.correction_field
  pub port_number : h.source_port_identity.port_number < 2 ^ 16
  pub sequence_id : h.sequence_id < 2 ^ 16

-- The values of PTPMsgType that md_header_template tells apart, and ANNOUNCE.
abbrev pub sync : ℕ
sync = 0

abbrev pub pdelay_resp : ℕ
pdelay_resp = 3

abbrev pub follow_up : ℕ
follow_up = 8

abbrev pub announce : ℕ
announce = 11

-- The lowest bit of an `int`.
abbrev low_bit : ℤ → ℕ
low_bit (pos n) = n % 2
low_bit (negsuc n) = suc n % 2

unfoldable pub md_header_template : Config → ℕ → ℕ → PortIdentity → ℕ → ℤ → PtpHeader
md_header_template c msgtype len port_id seqid log = record {
  major_sdo_id = 1;
  message_type = msgtype;
  minor_version_ptp = to_uint8 c.minor_version_ptp;
  version_ptp = 2;
  message_length = len;
  domain_number = 0;
  minor_sdo_id = 0;
  flags0 = if msgtype == sync || msgtype == pdelay_resp then 2 else 0;
  flags1 = 8 * low_bit c.timescale_ptp;
  correction_field = pos 0;
  message_type_specific = 0 ∷ 0 ∷ 0 ∷ 0 ∷ [];
  source_port_identity = port_id;
  sequence_id = seqid;
  control = if msgtype == sync then 0 else if msgtype == follow_up then 2 else 5;
  log_message_interval = log;
}

nibbles : (a b : ℕ) → a < 16 → b < 16 → u8 (16 * a + b) / 16 % 16 ≡ a
nibbles a b p q = omega (arith, p, q)

low_nibble : (a b : ℕ) → a < 16 → b < 16 → u8 (16 * a + b) % 16 ≡ b
low_nibble a b p q = omega (arith, p, q)

-- A header whose members are within their types comes back from its form on the wire.
pub md_decompose_head-md_compose_head :
    (o : NetworkOrder) (h : PtpHeader)
    → IsInverse o
    → IsHeader h
    → md_decompose_head o (md_compose_head o h) ≡ h
unfolding md_compose_head md_decompose_head
md_decompose_head-md_compose_head o h i k = ground (
  arith,
  nibbles h.major_sdo_id h.message_type k.major_sdo_id k.message_type,
  low_nibble h.major_sdo_id h.message_type k.major_sdo_id k.message_type,
  nibbles h.minor_version_ptp h.version_ptp k.minor_version_ptp k.version_ptp,
  low_nibble h.minor_version_ptp h.version_ptp k.minor_version_ptp k.version_ptp,
  i.short h.message_length k.message_length,
  i.short h.source_port_identity.port_number k.port_number,
  i.short h.sequence_id k.sequence_id,
  i.long (to_word half_64 h.correction_field)
      (to_word-lt half_64 h.correction_field k.correction_field),
  of_word-to_word half_64 h.correction_field k.correction_field,
)
