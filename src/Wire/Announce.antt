-- ===== src/Wire/Announce.antt =====
-- md_announce_send_sm.c and md_announce_receive_sm.c: an Announce message and its form on the wire.
use excelfore_gptp.Common.{
  ℕ, ℤ, ◌+◌, ◌*◌, ◌-◌, ◌/◌, ◌^◌, Bool, not, ◌&&◌, Option, none, some, [], ◌∷◌, ltb, ◌==◌,
  if◌then◌else◌, u16,
}
use excelfore_gptp.Types.{
  ClockIdentity, PortIdentity, PtpMsgHeader, PtpMsgAnnounce, max_path_trace_n,
  clock_identity_length,
}
use excelfore_gptp.Config.{Config}
use excelfore_gptp.Arrays.{copy, copy_octets}
use excelfore_gptp.Wire.Order.{NetworkOrder, to_word, of_word}
use excelfore_gptp.Wire.Header.{
  PtpHeader, MdPtpMsgHeader, md_header_template, md_compose_head, md_decompose_head, announce,
}

-- MDPTPMsgAnnounce without its reserved members; a member named _ns is in the order of the network.
pub record MdPtpMsgAnnounce : Type 0 where
  pub head : MdPtpMsgHeader
  pub current_utc_offset_ns : ℕ
  pub grandmaster_priority1 : ℕ
  pub clock_class : ℕ
  pub clock_accuracy : ℕ
  pub offset_scaled_log_variance_ns : ℕ
  pub grandmaster_priority2 : ℕ
  pub grandmaster_identity : ClockIdentity
  pub steps_removed_ns : ℕ
  pub time_source : ℕ
  pub tlv_type_ns : ℕ
  pub tlv_length_ns : ℕ
  pub path_sequence : ℕ → ClockIdentity

-- sizeof(MDPTPMsgAnnounce) without pathSequence
abbrev pub announce_fixed_size : ℕ
announce_fixed_size = 68

-- IEEE_1588_ANNOUNCE_NO_TLV_SIZE
abbrev pub announce_no_tlv_size : ℕ
announce_no_tlv_size = 64

-- Half the number of values of an int16_t.
abbrev pub half_16 : ℕ
half_16 = 2 ^ 15

-- The port that sends: sm->ptasg->thisClock and sm->ppg->thisPort, domainNumber, the interval of the
-- port, flags[0] of the message, conformToAvnu, and what the send buffer held before.
pub record Sender : Type 0 where
  pub port_identity : PortIdentity
  pub domain_number : ℕ
  pub current_log_announce_interval : ℤ
  pub flags0 : ℕ
  pub conform_to_avnu : Bool
  pub buffer : ℕ → ClockIdentity

-- The number of entries of the path trace TLV that are sent, and the size that the header is made with.
abbrev pub path_count : PtpMsgAnnounce → ℕ
path_count a = a.tlv_length / clock_identity_length

abbrev pub composed_size : PtpMsgAnnounce → ℕ
composed_size a = announce_fixed_size + clock_identity_length * path_count a

-- The message that sendAnnounce has in the send buffer at the call of gptpnet_send_whook.
unfoldable pub compose_announce : NetworkOrder → Config → Sender → PtpMsgAnnounce → MdPtpMsgAnnounce
unfolding md_header_template md_compose_head
compose_announce o c s a =
    let template =
      md_header_template c announce (u16 (composed_size a)) s.port_identity a.header.sequence_id
        s.current_log_announce_interval in
    let head = md_compose_head o template in
    record {
      head = record head {
        domain_number = s.domain_number;
        flags0 = s.flags0;
        flags1 = a.header.flags;
      };
      current_utc_offset_ns = o.htons (to_word half_16 a.current_utc_offset);
      grandmaster_priority1 = a.grandmaster_priority1;
      clock_class = a.grandmaster_clock_quality.clock_class;
      clock_accuracy = a.grandmaster_clock_quality.clock_accuracy;
      offset_scaled_log_variance_ns =
          o.htons a.grandmaster_clock_quality.offset_scaled_log_variance;
      grandmaster_priority2 = a.grandmaster_priority2;
      grandmaster_identity = a.grandmaster_identity;
      steps_removed_ns = o.htons a.steps_removed;
      time_source = a.time_source;
      tlv_type_ns = o.htons a.tlv_type;
      tlv_length_ns = o.htons a.tlv_length;
      path_sequence = copy s.buffer a.path_sequence (path_count a);
    }

-- sendAnnounce up to the call of gptpnet_send_whook: `none` if the TLV has more entries than
-- pathSequence, which are read and written past its end.
unfoldable pub send_announce :
    NetworkOrder → Config → Sender → PtpMsgAnnounce → Option MdPtpMsgAnnounce
unfolding compose_announce
send_announce o c s a =
    if ltb max_path_trace_n (path_count a) then none else some (compose_announce o c s a)

-- The size that is sent: without the TLV if it is empty and AVnu is followed.
unfoldable pub sent_size : Sender → PtpMsgAnnounce → ℕ
sent_size s a =
    if a.tlv_length == 0 && s.conform_to_avnu then composed_size a - 4 else composed_size a

-- An entry whose bytes are all 0xFF.
abbrev pub filled_identity : ClockIdentity
filled_identity = 255 ∷ 255 ∷ 255 ∷ 255 ∷ 255 ∷ 255 ∷ 255 ∷ 255 ∷ []

-- The header of a message, with the members that the other machines read.
abbrev pub short_header : PtpHeader → PtpMsgHeader
short_header h = record {
  flags = h.flags1;
  source_port_identity = h.source_port_identity;
  sequence_id = h.sequence_id;
  log_message_interval = h.log_message_interval;
}

-- The members that recAnnounce takes from every message; those of the TLV keep the values of `old`, the
-- message before.
abbrev pub without_tlv : NetworkOrder → MdPtpMsgAnnounce → PtpMsgAnnounce → PtpMsgAnnounce
without_tlv o p old = record old {
  header = short_header (md_decompose_head o p.head);
  current_utc_offset = of_word half_16 (o.ntohs p.current_utc_offset_ns);
  grandmaster_priority1 = p.grandmaster_priority1;
  grandmaster_clock_quality = record {
    clock_class = p.clock_class;
    clock_accuracy = p.clock_accuracy;
    offset_scaled_log_variance = o.ntohs p.offset_scaled_log_variance_ns;
  };
  grandmaster_priority2 = p.grandmaster_priority2;
  grandmaster_identity = p.grandmaster_identity;
  steps_removed = o.ntohs p.steps_removed_ns;
  time_source = p.time_source;
}

abbrev pub with_tlv : NetworkOrder → MdPtpMsgAnnounce → PtpMsgAnnounce → PtpMsgAnnounce
with_tlv o p a = record a {
  tlv_type = o.ntohs p.tlv_type_ns;
  tlv_length = o.ntohs p.tlv_length_ns;
  path_sequence =
      copy_octets clock_identity_length
        (copy a.path_sequence (λ _. filled_identity) max_path_trace_n) p.path_sequence
        (o.ntohs p.tlv_length_ns);
}

-- What recAnnounce gives: a write past pathSequence, no message with the header's members changed
-- alone, or a message.
pub data Received : Type 0 where
  overrun : Received
  ignored : PtpMsgAnnounce → Received
  accepted : PtpMsgAnnounce → Received

-- The members of the TLV, if the header tells of a message that has them.
abbrev pub take_tlv : NetworkOrder → MdPtpMsgAnnounce → PtpMsgAnnounce → Received
take_tlv o p a =
    if not (ltb announce_no_tlv_size (o.ntohs p.head.message_length_ns))
    then accepted a
    else if ltb (max_path_trace_n * clock_identity_length) (o.ntohs p.tlv_length_ns)
    then overrun
    else accepted (with_tlv o p a)

-- recAnnounce, with `cmlds_mode` read as a condition.
unfoldable pub rec_announce : NetworkOrder → Bool → MdPtpMsgAnnounce → PtpMsgAnnounce → Received
unfolding md_decompose_head
rec_announce o cmlds_mode p old =
    if not cmlds_mode && not ((md_decompose_head o p.head).major_sdo_id == 1)
    then ignored (record old { header = short_header (md_decompose_head o p.head) })
    else take_tlv o p (without_tlv o p old)
