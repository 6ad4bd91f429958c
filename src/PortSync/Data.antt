-- ===== src/PortSync/Data.antt =====
-- mind.h, 10.2.2: the structures that carry synchronisation from port to port. A double is a value of
-- a parameter, with the operations that the code uses.
use excelfore_gptp.Common.{ℕ, ℤ, pos, negsuc, Bool, false, ◌==◌}
use excelfore_gptp.Types.{PortIdentity, UScaledNs}

-- What the machines do with a double.
pub record DoubleOps (D : Type 0) : Type 0 where
  pub add : D → D → D
  pub sub : D → D → D
  pub one : D  -- 1.0

pub record ScaledNs : Type 0 where
  pub subns : ℕ  -- uint16_t
  pub nsec : ℤ  -- int64_t
  pub nsec_msb : ℤ  -- int16_t

pub record Timestamp : Type 0 where
  pub nanoseconds : ℕ  -- uint32_t
  pub seconds : ℕ  -- 48 bits

pub record MdSyncSend (D : Type 0) : Type 0 where
  pub domain_number : ℕ
  pub follow_up_correction_field : ScaledNs
  pub source_port_identity : PortIdentity
  pub log_message_interval : ℤ
  pub precise_origin_timestamp : Timestamp
  pub upstream_tx_time : UScaledNs
  pub rate_ratio : D
  pub gm_time_base_indicator : ℕ
  pub last_gm_phase_change : ScaledNs
  pub last_gm_freq_change : D

pub record MdSyncReceive (D : Type 0) : Type 0 where
  pub domain_number : ℕ
  pub follow_up_correction_field : ScaledNs
  pub source_port_identity : PortIdentity
  pub log_message_interval : ℤ
  pub precise_origin_timestamp : Timestamp
  pub upstream_tx_time : UScaledNs
  pub rate_ratio : D
  pub gm_time_base_indicator : ℕ
  pub last_gm_phase_change : ScaledNs
  pub last_gm_freq_change : D
  pub seqid : ℕ  -- uint16_t

-- localPortNumber and localPortIndex are port numbers below 33, which an int16_t keeps. The pointer
-- local_ppg is left out.
pub record PortSyncSync (D : Type 0) : Type 0 where
  pub domain_number : ℕ
  pub local_port_number : ℕ
  pub sync_receipt_timeout_time : UScaledNs
  pub follow_up_correction_field : ScaledNs
  pub source_port_identity : PortIdentity
  pub log_message_interval : ℤ
  pub precise_origin_timestamp : Timestamp
  pub upstream_tx_time : UScaledNs
  pub rate_ratio : D
  pub gm_time_base_indicator : ℕ
  pub last_gm_phase_change : ScaledNs
  pub last_gm_freq_change : D
  pub local_port_index : ℕ
  pub sync_next_send_timeout_time : UScaledNs
  pub last_sync_seq_id : ℕ

-- `gptpconf_get_intitem(...) == n`
abbrev pub is_item : ℤ → ℕ → Bool
is_item (pos k) n = k == n
is_item (negsuc k) n = false
