-- ===== src/Globals/Records.antt =====
-- mind.h, 10.2.3, 10.2.4, 10.3.8 and 10.3.9: per-system and per-port global variables.
use excelfore_gptp.Common.{ℕ, ℤ, Bool, Option}
use excelfore_gptp.Types.{ClockIdentity, UScaledNs, UInteger224, InfoIs, PtpMsgAnnounce}

-- The double `lastGmFreqChange` is counted in parts per billion: the code only stores 0.0 and
-- `(double)(-adjppb) / 1.0E9` in it.
pub record PerTimeAwareSystemGlobal : Type 0 where
  pub begin : Bool  -- BEGIN
  pub gm_present : Bool
  pub gm_time_base_indicator : ℕ  -- uint16_t
  pub last_gm_phase_change : ℤ
  pub last_gm_freq_change : ℤ
  pub selected_state : ℕ → ℕ
  pub this_clock : ClockIdentity
  pub instance_enable : Bool
  pub domain_number : ℕ  -- uint8_t
  pub clock_master_log_sync_interval : ℤ
  pub parent_log_sync_interval : ℤ  -- int8_t
  pub clock_master_sync_interval : UScaledNs
  pub gm_stable_initdone : Bool
  pub as_capable_or_all : Bool
  pub gm_identity : ClockIdentity
  pub conform_to_avnu : Bool

pub record PerPortGlobalForAllDomain : Type 0 where
  pub asymmetry_measurement_mode : Bool
  pub compute_neighbor_rate_ratio : Bool
  pub compute_neighbor_prop_delay : Bool
  pub port_oper : Bool
  pub use_mgt_settable_log_announce_interval : Bool
  pub mgt_settable_log_announce_interval : ℤ  -- int8_t
  pub use_mgt_settable_log_pdelay_req_interval : Bool
  pub mgt_settable_log_pdelay_req_interval : ℤ  -- int8_t
  pub received_non_cmlds_pdelay_req : ℤ  -- int8_t

pub record PerPortGlobal : Type 0 where
  pub as_capable : Bool
  pub sync_receipt_timeout_time_interval : UScaledNs
  pub current_log_sync_interval : ℤ  -- int8_t
  pub initial_log_sync_interval : ℤ  -- int8_t
  pub sync_interval : UScaledNs
  pub ptp_port_enabled : Bool
  pub this_port : ℕ  -- uint16_t
  pub this_port_index : ℕ  -- uint16_t
  pub sync_locked : Bool
  pub neighbor_gptp_capable : Bool
  pub sync_slowdown : Bool
  pub old_announce_interval : UScaledNs
  pub for_all_domain : PerPortGlobalForAllDomain
  pub sync_receipt_timeout : ℤ  -- int8_t
  pub log_gptp_capable_message_interval : ℤ  -- int8_t
  pub gptp_capable_receipt_timeout : ℤ  -- int8_t
  pub use_mgt_settable_log_sync_interval : Bool
  pub mgt_settable_log_sync_interval : ℤ  -- int8_t
  pub initial_one_step_tx_oper : Bool
  pub current_one_step_tx_oper : Bool
  pub use_mgt_settable_one_step_tx_oper : Bool
  pub mgt_settable_one_step_tx_oper : Bool

-- The eight members leap61 ... timeSource, which the source has three times: of the system (sys*),
-- of the grandmaster in use, and of the last Announce message of a port (ann*).
pub record TimeProperties : Type 0 where
  pub leap61 : Bool
  pub leap59 : Bool
  pub current_utc_offset_valid : Bool
  pub ptp_timescale : Bool
  pub time_traceable : Bool
  pub frequency_traceable : Bool
  pub current_utc_offset : ℤ  -- int16_t
  pub time_source : ℕ  -- uint8_t

pub record BmcsPerTimeAwareSystemGlobal : Type 0 where
  pub reselect : ℕ → Bool
  pub selected : ℕ → Bool
  pub master_steps_removed : ℕ  -- uint16_t
  pub time_properties : TimeProperties
  pub sys_time_properties : TimeProperties
  pub system_priority : UInteger224
  pub gm_priority : UInteger224
  pub last_gm_priority : UInteger224
  pub path_trace_count : ℕ  -- uint8_t
  pub path_trace : ℕ → ClockIdentity
  pub external_port_configuration : ℕ  -- uint8_t
  pub bmcs_quick_update : ℤ  -- int

-- `rcvd_announce_ptr` is `none` for a null pointer. A pointer that is not null points to the
-- rcvdAnnounce buffer of the port's PortAnnounceReceive machine, which is written only together with
-- the pointer, so the model keeps the message itself.
pub record BmcsPerPortGlobal : Type 0 where
  pub announce_receipt_timeout_time_interval : UScaledNs
  pub announce_slowdown : Bool
  pub old_announce_interval : UScaledNs
  pub info_is : InfoIs
  pub master_priority : UInteger224
  pub current_log_announce_interval : ℤ  -- int8_t
  pub initial_log_announce_interval : ℤ  -- int8_t
  pub announce_interval : UScaledNs
  pub message_steps_removed : ℕ  -- uint16_t
  pub new_info : Bool
  pub port_priority : UInteger224
  pub port_steps_removed : ℕ  -- uint16_t
  pub rcvd_announce_ptr : Option PtpMsgAnnounce
  pub rcvd_msg : Bool
  pub updt_info : Bool
  pub ann_time_properties : TimeProperties
  pub ann_path_sequence_count : ℕ  -- uint8_t
  pub ann_path_sequence : ℕ → ClockIdentity
  pub announce_receipt_timeout : ℤ  -- int8_t
