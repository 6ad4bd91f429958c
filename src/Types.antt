-- ===== src/Types.antt =====
-- gptpbasetypes.h and the message and parameter structs of mind.h: clock and port identities, the
-- priority vectors of the best master clock algorithm, the Announce message.
-- A byte or a word is a number, an array of bytes a list, and an array that is indexed a function.
-- A UScaledNs is its member `nsec`, the only one that the modelled code writes.
use excelfore_gptp.Common.{ℕ, ℤ, List}

-- ClockIdentity: eight bytes.
abbrev pub ClockIdentity : Type 0
ClockIdentity = List ℕ

abbrev pub UScaledNs : Type 0
UScaledNs = ℕ

abbrev pub max_port_number_limit : ℕ
max_port_number_limit = 33

abbrev pub max_path_trace_n : ℕ
max_path_trace_n = 179

-- sizeof(ClockIdentity)
abbrev pub clock_identity_length : ℕ
clock_identity_length = 8

pub record PortIdentity : Type 0 where
  pub clock_identity : ClockIdentity
  pub port_number : ℕ  -- uint16_t

pub record ClockQuality : Type 0 where
  pub clock_class : ℕ  -- uint8_t
  pub clock_accuracy : ℕ  -- uint8_t
  pub offset_scaled_log_variance : ℕ  -- uint16_t

-- systemIdentity
pub record UInteger112 : Type 0 where
  pub priority1 : ℕ  -- uint8_t
  pub clock_class : ℕ  -- uint8_t
  pub clock_accuracy : ℕ  -- uint8_t
  pub offset_scaled_log_variance : ℕ  -- uint16_t
  pub priority2 : ℕ  -- uint8_t
  pub clock_identity : ClockIdentity

-- A spanning tree priority vector.
pub record UInteger224 : Type 0 where
  pub root_system_identity : UInteger112
  pub steps_removed : ℕ  -- uint16_t
  pub source_port_identity : PortIdentity
  pub port_number : ℕ  -- uint16_t

-- PTPPortState, stored in an Enumeration2 (uint8_t), which is 0 before the first selection.
abbrev pub disabled_port : ℕ
disabled_port = 3

abbrev pub master_port : ℕ
master_port = 6

abbrev pub passive_port : ℕ
passive_port = 7

abbrev pub slave_port : ℕ
slave_port = 9

abbrev pub value_disabled : ℕ
value_disabled = 0

abbrev pub value_enabled : ℕ
value_enabled = 1

-- BmcsInfoIs
pub data InfoIs : Type 0 where
  received mine aged disabled : InfoIs

-- BmcsRcvdInfo
pub data RcvdInfo : Type 0 where
  repeated_master_info superior_master_info inferior_master_info other_info : RcvdInfo

-- The members of PTPMsgHeader that the modelled code reads or writes; `flags` is flags[1].
pub record PtpMsgHeader : Type 0 where
  pub flags : ℕ  -- uint8_t
  pub source_port_identity : PortIdentity
  pub sequence_id : ℕ  -- uint16_t
  pub log_message_interval : ℤ  -- int8_t

pub record PtpMsgAnnounce : Type 0 where
  pub header : PtpMsgHeader
  pub current_utc_offset : ℤ  -- int16_t
  pub grandmaster_priority1 : ℕ
  pub grandmaster_clock_quality : ClockQuality
  pub grandmaster_priority2 : ℕ
  pub grandmaster_identity : ClockIdentity
  pub steps_removed : ℕ  -- uint16_t
  pub time_source : ℕ
  pub tlv_type : ℕ  -- uint16_t
  pub tlv_length : ℕ  -- uint16_t
  pub path_sequence : ℕ → ClockIdentity

-- PTPMsgIntervalRequestTLV: the members of the message interval request that the machines read.
pub record PtpMsgIntervalRequestTlv : Type 0 where
  pub link_delay_interval : ℤ  -- int8_t
  pub time_sync_interval : ℤ  -- int8_t
  pub announce_interval : ℤ  -- int8_t
  pub flags : ℕ  -- uint8_t

-- PTPMsgGPTPCapableTLV
pub record PtpMsgGptpCapableTlv : Type 0 where
  pub tlv_type : ℕ  -- uint16_t
  pub length_field : ℕ  -- uint16_t
  pub organization_id : List ℕ  -- three bytes
  pub organization_sub_type : ℕ
  pub log_gptp_capable_message_interval : ℤ  -- int8_t
  pub flags : ℕ  -- uint8_t
