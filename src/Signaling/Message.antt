-- ===== src/Signaling/Message.antt =====
-- md_signaling_send_sm.c and md_signaling_receive_sm.c: the two kinds of TLV and their form on the wire.
use excelfore_gptp.Common.{ℕ, ℤ, pos, ◌+◌, ◌*◌, ◌/◌, ◌%◌, ◌^◌, ◌<◌, ◌≡◌, List, [], ◌∷◌, arith}
use excelfore_gptp.Types.{ClockIdentity, PortIdentity, PtpMsgGptpCapableTlv}
use excelfore_gptp.Config.{Config}
use excelfore_gptp.Wire.Order.{NetworkOrder, IsInverse, to_word, of_word, Fits, of_word-to_word}
use excelfore_gptp.Wire.Header.{MdPtpMsgHeader, md_header_template, md_compose_head}

-- PTPMsgIntervalRequestTLV with all its members
pub record PtpIntervalRequest : Type 0 where
  pub tlv_type : ℕ  -- uint16_t
  pub length_field : ℕ  -- uint16_t
  pub organization_id : List ℕ  -- three bytes
  pub organization_sub_type : ℕ  -- 24 bits
  pub link_delay_interval : ℤ  -- int8_t
  pub time_sync_interval : ℤ  -- int8_t
  pub announce_interval : ℤ  -- int8_t
  pub flags : ℕ  -- uint8_t

-- What the pointer to a TLV points to.
pub data Tlv : Type 0 where
  interval_request : PtpIntervalRequest → Tlv
  gptp_capable : PtpMsgGptpCapableTlv → Tlv

-- MDPTPMsgIntervalRequestTLV and MDPTPMsgGPTPCapableTLV, which agree up to organizationSubType_nb and
-- have six bytes after it. The last two are reserved in both and left out.
pub record MdSignaling : Type 0 where
  pub head : MdPtpMsgHeader
  pub target_clock_identity : ClockIdentity
  pub target_port_number_ns : ℕ
  pub tlv_type_ns : ℕ
  pub length_field_ns : ℕ
  pub organization_id : List ℕ
  pub organization_sub_type_nb0 : ℕ
  pub organization_sub_type_nb1 : ℕ
  pub organization_sub_type_nb2 : ℕ
  pub octet0 : ℕ  -- linkDelayInterval; logGptpCapableMessageInterval
  pub octet1 : ℕ  -- timeSyncInterval; flags
  pub octet2 : ℕ  -- announceInterval; reserved
  pub octet3 : ℕ  -- flags; reserved

-- The size of both.
abbrev pub signaling_size : ℕ
signaling_size = 60

-- SIGNALING
abbrev pub signaling : ℕ
signaling = 12

-- Half the number of values of an int8_t.
abbrev pub half_8 : ℕ
half_8 = 2 ^ 7

-- The message as sendSignaling has it before the TLV is written: the header, targetPortIdentity of 0xff,
-- and zeros.
unfoldable pub blank_signaling :
    NetworkOrder → Config → PortIdentity → (domain_number sequence_id : ℕ) → MdSignaling
unfolding md_header_template md_compose_head
blank_signaling o c id domain_number sequence_id =
    let head =
      md_compose_head o (md_header_template c signaling signaling_size id sequence_id (pos 127)) in
    record {
      head = record head { domain_number = domain_number };
      target_clock_identity = 255 ∷ 255 ∷ 255 ∷ 255 ∷ 255 ∷ 255 ∷ 255 ∷ 255 ∷ [];
      target_port_number_ns = 65535;
      tlv_type_ns = 0;
      length_field_ns = 0;
      organization_id = 0 ∷ 0 ∷ 0 ∷ [];
      organization_sub_type_nb0 = 0;
      organization_sub_type_nb1 = 0;
      organization_sub_type_nb2 = 0;
      octet0 = 0;
      octet1 = 0;
      octet2 = 0;
      octet3 = 0;
    }

unfoldable pub setup_gptp_capable_tlv :
    NetworkOrder → PtpMsgGptpCapableTlv → MdSignaling → MdSignaling
setup_gptp_capable_tlv o t p = record p {
  tlv_type_ns = o.htons t.tlv_type;
  length_field_ns = o.htons t.length_field;
  organization_id = t.organization_id;
  organization_sub_type_nb0 = t.organization_sub_type / 65536 % 256;
  organization_sub_type_nb1 = t.organization_sub_type / 256 % 256;
  organization_sub_type_nb2 = t.organization_sub_type % 256;
  octet0 = to_word half_8 t.log_gptp_capable_message_interval;
  octet1 = t.flags;
}

unfoldable pub setup_msg_interval_req_tlv :
    NetworkOrder → PtpIntervalRequest → MdSignaling → MdSignaling
setup_msg_interval_req_tlv o t p = record p {
  tlv_type_ns = o.htons t.tlv_type;
  length_field_ns = o.htons t.length_field;
  organization_id = t.organization_id;
  organization_sub_type_nb0 = t.organization_sub_type / 65536 % 256;
  organization_sub_type_nb1 = t.organization_sub_type / 256 % 256;
  organization_sub_type_nb2 = t.organization_sub_type % 256;
  octet0 = to_word half_8 t.link_delay_interval;
  octet1 = to_word half_8 t.time_sync_interval;
  octet2 = to_word half_8 t.announce_interval;
  octet3 = t.flags;
}

-- The three bytes of organizationSubType_nb, shifted and joined.
abbrev pub sub_type : MdSignaling → ℕ
sub_type p =
    65536 * p.organization_sub_type_nb0
    + 256 * p.organization_sub_type_nb1
    + p.organization_sub_type_nb2

unfoldable pub recv_gptp_capable : NetworkOrder → MdSignaling → PtpMsgGptpCapableTlv
recv_gptp_capable o p = record {
  tlv_type = o.ntohs p.tlv_type_ns;
  length_field = o.ntohs p.length_field_ns;
  organization_id = p.organization_id;
  organization_sub_type = sub_type p;
  log_gptp_capable_message_interval = of_word half_8 p.octet0;
  flags = p.octet1;
}

unfoldable pub recv_msg_interval_req : NetworkOrder → MdSignaling → PtpIntervalRequest
recv_msg_interval_req o p = record {
  tlv_type = o.ntohs p.tlv_type_ns;
  length_field = o.ntohs p.length_field_ns;
  organization_id = p.organization_id;
  organization_sub_type = sub_type p;
  link_delay_interval = of_word half_8 p.octet0;
  time_sync_interval = of_word half_8 p.octet1;
  announce_interval = of_word half_8 p.octet2;
  flags = p.octet3;
}

-- The members are within their types, with the organizationSubType of the kind.
pub data IsTlv : Tlv → Type 0 where
  is_request :
      {t : PtpIntervalRequest}
      → t.tlv_type < 2 ^ 16
      → t.length_field < 2 ^ 16
      → t.organization_sub_type ≡ 2
      → Fits half_8 t.link_delay_interval
      → Fits half_8 t.time_sync_interval
      → Fits half_8 t.announce_interval
      → IsTlv (interval_request t)
  is_capable :
      {t : PtpMsgGptpCapableTlv}
      → t.tlv_type < 2 ^ 16
      → t.length_field < 2 ^ 16
      → t.organization_sub_type ≡ 4
      → Fits half_8 t.log_gptp_capable_message_interval
      → IsTlv (gptp_capable t)

pub recv_gptp_capable-setup_gptp_capable_tlv :
    (o : NetworkOrder) (t : PtpMsgGptpCapableTlv) (p : MdSignaling)
    → IsInverse o
    → IsTlv (gptp_capable t)
    → recv_gptp_capable o (setup_gptp_capable_tlv o t p) ≡ t
unfolding recv_gptp_capable setup_gptp_capable_tlv
recv_gptp_capable-setup_gptp_capable_tlv o t p i (is_capable a b e f) = ground (
  arith,
  i.short t.tlv_type a,
  i.short t.length_field b,
  e,
  of_word-to_word half_8 t.log_gptp_capable_message_interval f,
)

pub recv_msg_interval_req-setup_msg_interval_req_tlv :
    (o : NetworkOrder) (t : PtpIntervalRequest) (p : MdSignaling)
    → IsInverse o
    → IsTlv (interval_request t)
    → recv_msg_interval_req o (setup_msg_interval_req_tlv o t p) ≡ t
unfolding recv_msg_interval_req setup_msg_interval_req_tlv
recv_msg_interval_req-setup_msg_interval_req_tlv o t p i (is_request a b e f g h) = ground (
  arith,
  i.short t.tlv_type a,
  i.short t.length_field b,
  e,
  of_word-to_word half_8 t.link_delay_interval f,
  of_word-to_word half_8 t.time_sync_interval g,
  of_word-to_word half_8 t.announce_interval h,
)
