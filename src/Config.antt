-- ===== src/Config.antt =====
-- The configuration items that the code reads by gptpconf_get_intitem (gptp_config.c is generated by
-- the build, so an item is a parameter: an `int`), the constant UB_SEC_NS of xl4unibase, and the
-- conversions from `int` that assignments make.
use excelfore_gptp.Common.{
  ℕ, suc, ℤ, pos, negsuc, ◌+◌, ◌-◌, ◌*◌, ◌/◌, ◌^◌, ltb, if◌then◌else◌, u8, u16, u64,
}
use excelfore_gptp.Priority.{ByteOrder}

-- CONF_PRIMARY_* or CONF_SECONDARY_*.
pub record ClockConfig : Type 0 where
  pub priority1 : ℤ
  pub clock_class : ℤ
  pub clock_accuracy : ℤ
  pub offset_scaled_log_variance : ℤ
  pub priority2 : ℤ

pub record Config : Type 0 where
  -- The order of the bytes of a uint16_t on the host.
  pub byte_order : ByteOrder
  pub ub_sec_ns : ℕ
  -- What the compiled code gives for a shift by 31 or more, which C leaves undefined.
  pub undefined_shift : ℤ → ℕ
  pub log_sync_interval : ℤ
  pub log_announce_interval : ℤ
  pub log_pdelayreq_interval : ℤ
  pub initial_log_announce_interval : ℤ
  pub log_gptp_capable_message_interval : ℤ
  pub sync_receipt_timeout : ℤ
  pub announce_receipt_timeout : ℤ
  pub gptp_capable_receipt_timeout : ℤ
  pub follow_avnu : ℤ
  pub external_port_configuration : ℤ
  pub bmcs_quick_update_mode : ℤ
  pub timescale_ptp : ℤ
  pub time_source : ℤ
  pub primary : ClockConfig
  pub secondary : ClockConfig
  pub static_port_state_slave_port : ℤ
  pub initial_slave_time : ℤ
  pub reset_freqadj_becomegm : ℤ
  pub initial_gm_stable_time : ℤ
  pub normal_gm_stable_time : ℤ
  pub allowed_lost_response : ℤ
  pub allowed_faults : ℤ
  pub minor_version_ptp : ℤ
  pub cmlds_mode : ℤ
  pub test_sync_rec_port : ℤ
  pub test_sync_send_port : ℤ
  pub neighbor_propdelay_thresh : ℤ
  pub neighbor_propdelay_minlimit : ℤ

-- An `int` stored in a variable of 8, 16 or 64 bits.
abbrev pub to_uint8 : ℤ → ℕ
to_uint8 (pos n) = u8 n
to_uint8 (negsuc n) = 255 - u8 n

abbrev pub to_uint16 : ℤ → ℕ
to_uint16 (pos n) = u16 n
to_uint16 (negsuc n) = 65535 - u16 n

abbrev pub to_uint64 : ℤ → ℕ
to_uint64 (pos n) = u64 n
to_uint64 (negsuc n) = 2 ^ 64 - 1 - u64 n

abbrev pub to_int8 : ℤ → ℤ
to_int8 z = let u = to_uint8 z in if ltb u 128 then pos u else negsuc (255 - u)

-- `(uint64_t)(k * t)` for an `int` k and a 64-bit t.
abbrev pub times_uint64 : ℤ → ℕ → ℕ
times_uint64 (pos k) t = u64 (k * t)
times_uint64 (negsuc k) t = u64 (2 ^ 64 - u64 (suc k * t))

-- LOG_TO_NSEC
unfoldable pub log_to_nsec : Config → ℤ → ℕ
log_to_nsec c (pos x) = if ltb x 31 then u64 (c.ub_sec_ns * 2 ^ x) else c.undefined_shift (pos x)
log_to_nsec c (negsuc x) =
    if ltb (x + 1) 31 then c.ub_sec_ns / 2 ^ (x + 1) else c.undefined_shift (negsuc x)
