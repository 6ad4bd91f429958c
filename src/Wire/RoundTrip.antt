-- ===== src/Wire/RoundTrip.antt =====
-- An Announce message that is sent is received as it was.
use excelfore_gptp.Common.{ℕ, ◌*◌, ◌^◌, ◌<◌, ◌≤◌, ◌≡◌, refl, ap, ◌∙◌, some, Bool, arith, u16}
use excelfore_gptp.Types.{PtpMsgAnnounce, max_path_trace_n, clock_identity_length}
use excelfore_gptp.Config.{Config}
use excelfore_gptp.Globals.{PerPortGlobal}
use excelfore_gptp.AnnounceInformation.Procs.{message_vector, announced_properties}
use excelfore_gptp.Wire.Order.{
  NetworkOrder, IsInverse, to_word, of_word, Fits, of_word-to_word, to_word-lt,
}
use excelfore_gptp.Wire.Header.{md_header_template, md_compose_head, md_decompose_head}
use excelfore_gptp.Wire.Announce.{
  Sender, half_16, path_count, compose_announce, send_announce, accepted, rec_announce, without_tlv,
  with_tlv, composed_size,
}

-- The members of a message are within their types, and its path trace TLV has whole entries that fit.
pub record IsAnnounce (a : PtpMsgAnnounce) : Type 0 where
  pub current_utc_offset : Fits half_16 a.current_utc_offset
  pub variance : a.grandmaster_clock_quality.offset_scaled_log_variance < 2 ^ 16
  pub steps_removed : a.steps_removed < 2 ^ 16
  pub sequence_id : a.header.sequence_id < 2 ^ 16
  pub tlv_type : a.tlv_type < 2 ^ 16
  pub tlv_length : a.tlv_length ≤ max_path_trace_n * clock_identity_length

-- What a neighbour receives of the message `a`, where it has received `old` before: the header's port
-- and interval are the sender's.
abbrev pub arrived :
    NetworkOrder → Config → Sender → PtpMsgAnnounce → PtpMsgAnnounce → PtpMsgAnnounce
arrived o c s a old = let p = compose_announce o c s a in with_tlv o p (without_tlv o p old)

-- The message arrives with what it tells.
pub record Tells (s : Sender) (a b : PtpMsgAnnounce) : Type 0 where
  pub vector :
      (ppg : PerPortGlobal)
      → message_vector ppg b
        ≡ record (message_vector ppg a) { source_port_identity = s.port_identity }
  pub properties : announced_properties b ≡ announced_properties a
  pub tlv_type : b.tlv_type ≡ a.tlv_type
  pub tlv_length : b.tlv_length ≡ a.tlv_length
  pub path : (j : ℕ) → j < path_count a → b.path_sequence j ≡ a.path_sequence j
  pub sequence_id : b.header.sequence_id ≡ a.header.sequence_id
  pub log_message_interval : b.header.log_message_interval ≡ s.current_log_announce_interval

module _ (o : NetworkOrder) (c : Config) (s : Sender) (a old : PtpMsgAnnounce) (i : IsInverse o)
    (k : IsAnnounce a) (q : s.port_identity.port_number < 2 ^ 16) where
  offset_back :
      of_word half_16 (o.ntohs (o.htons (to_word half_16 a.current_utc_offset)))
      ≡ a.current_utc_offset
  offset_back =
      ap (of_word half_16) (
        i.short (to_word half_16 a.current_utc_offset)
          (to_word-lt half_16 a.current_utc_offset k.current_utc_offset))
      ∙ of_word-to_word half_16 a.current_utc_offset k.current_utc_offset

  length_back : o.ntohs (o.htons a.tlv_length) ≡ a.tlv_length
  length_back = i.short a.tlv_length (omega (arith, k.tlv_length))

  path_back : (j : ℕ) → j < path_count a → (arrived o c s a old).path_sequence j ≡ a.path_sequence j
  unfolding compose_announce
  path_back j h = ground (arith, h, length_back)

  arrived-Tells : Tells s a (arrived o c s a old)
  unfolding compose_announce md_header_template md_compose_head md_decompose_head
  arrived-Tells = record {
    vector = λ ppg. ground (
      arith,
      i.short a.grandmaster_clock_quality.offset_scaled_log_variance k.variance,
      i.short a.steps_removed k.steps_removed,
      i.short s.port_identity.port_number q,
    );
    properties = ground (arith, offset_back);
    tlv_type = i.short a.tlv_type k.tlv_type;
    tlv_length = length_back;
    path = path_back;
    sequence_id = i.short a.header.sequence_id k.sequence_id;
    log_message_interval = refl;
  }

  sdo_is_one : (md_decompose_head o (compose_announce o c s a).head).major_sdo_id ≡ 1
  unfolding compose_announce md_header_template md_compose_head md_decompose_head
  sdo_is_one = ground arith

  size_back : o.ntohs (compose_announce o c s a).head.message_length_ns ≡ composed_size a
  unfolding compose_announce md_header_template md_compose_head
  size_back = i.short (u16 (composed_size a)) (omega arith) ∙ (omega (arith, k.tlv_length))

  tlv_length_back : o.ntohs (compose_announce o c s a).tlv_length_ns ≡ a.tlv_length
  unfolding compose_announce
  tlv_length_back = length_back

  is_sent : send_announce o c s a ≡ some (compose_announce o c s a)
  unfolding send_announce
  is_sent = ground (arith, k.tlv_length)

  -- A neighbour accepts every message that is sent whole, and receives what it tells: the vector with
  -- the sender's port, the time properties, the TLV with its path, and the sequence number. The members
  -- of the message must be within their types, and its path within the array.
  pub announce-round_trip :
      (cmlds_mode : Bool)
      → (send_announce o c s a ≡ some (compose_announce o c s a))
        × (rec_announce o cmlds_mode (compose_announce o c s a) old
            ≡ accepted (arrived o c s a old))
        × Tells s a (arrived o c s a old)
  unfolding rec_announce
  announce-round_trip cmlds_mode =
      (is_sent, ground (arith, sdo_is_one, size_back, tlv_length_back, k.tlv_length), arrived-Tells)
