-- ===== src/Examples/Data.antt =====
-- A configuration, a grandmaster and a bridge with three ports.
use excelfore_gptp.Common.{ℕ, ℤ, pos, true, false, [], ◌∷◌, if◌then◌else◌, ◌==◌}
use excelfore_gptp.Types.{ClockIdentity, UInteger224, received, mine, master_port, PtpMsgAnnounce}
use excelfore_gptp.Priority.{little}
use excelfore_gptp.Config.{Config, ClockConfig}
use excelfore_gptp.Globals.{
  PerTimeAwareSystemGlobal, PerPortGlobal, BmcsPerTimeAwareSystemGlobal, BmcsPerPortGlobal,
}
use excelfore_gptp.Globals.Init.{
  ptas_glb_init, for_all_domain_init, pp_glb_init, bmcs_ptas_glb_init, bmcs_pp_glb_init,
}
use excelfore_gptp.Clock.{MasterClock}

abbrev pub sample_clock_config : ClockConfig
sample_clock_config = record {
  priority1 = pos 248;
  clock_class = pos 248;
  clock_accuracy = pos 254;
  offset_scaled_log_variance = pos 17258;
  priority2 = pos 248;
}

abbrev pub sample_config : Config
sample_config = record {
  byte_order = little;
  ub_sec_ns = 1000000000;
  undefined_shift = λ _. 0;
  log_sync_interval = pos 0;
  log_announce_interval = pos 0;
  log_pdelayreq_interval = pos 0;
  initial_log_announce_interval = pos 0;
  log_gptp_capable_message_interval = pos 3;
  sync_receipt_timeout = pos 3;
  announce_receipt_timeout = pos 3;
  gptp_capable_receipt_timeout = pos 9;
  follow_avnu = pos 0;
  external_port_configuration = pos 0;
  bmcs_quick_update_mode = pos 0;
  timescale_ptp = pos 1;
  time_source = pos 160;
  primary = sample_clock_config;
  secondary = sample_clock_config;
  static_port_state_slave_port = ℤ.negsuc 0;
  initial_slave_time = pos 0;
  reset_freqadj_becomegm = pos 0;
  initial_gm_stable_time = pos 0;
  normal_gm_stable_time = pos 0;
  allowed_lost_response = pos 9;
  allowed_faults = pos 9;
  minor_version_ptp = pos 1;
  cmlds_mode = pos 0;
  test_sync_rec_port = ℤ.negsuc 0;
  test_sync_send_port = ℤ.negsuc 0;
  neighbor_propdelay_thresh = pos 800;
  neighbor_propdelay_minlimit = pos 0;
}

abbrev pub own_identity : ClockIdentity
own_identity = 1 ∷ 2 ∷ 3 ∷ 0xff ∷ 0xfe ∷ 4 ∷ 5 ∷ 6 ∷ []

abbrev pub gm_identity : ClockIdentity
gm_identity = 9 ∷ 9 ∷ 9 ∷ 0xff ∷ 0xfe ∷ 9 ∷ 9 ∷ 9 ∷ []

-- A vector with the root's priority1, from the given clock, received on port `n`.
abbrev pub vector_of : ℕ → ClockIdentity → ℕ → UInteger224
vector_of priority1 id n = record {
  root_system_identity = record {
    priority1 = priority1;
    clock_class = 248;
    clock_accuracy = 254;
    offset_scaled_log_variance = 17258;
    priority2 = 248;
    clock_identity = id;
  };
  steps_removed = 0;
  source_port_identity = record { clock_identity = id; port_number = 1 };
  port_number = n;
}

abbrev pub sample_system : PerTimeAwareSystemGlobal
sample_system = record (ptas_glb_init sample_config 0) {
  this_clock = own_identity;
  selected_state = λ _. master_port;
  begin = false;
  instance_enable = true;
}

-- The port is up.
abbrev pub sample_port : ℕ → PerPortGlobal
sample_port i =
    let p = pp_glb_init sample_config (for_all_domain_init sample_config) true i in
    record p {
      as_capable = true;
      ptp_port_enabled = true;
      this_port = i;
      this_port_index = i;
      for_all_domain = record (p.for_all_domain) {
        port_oper = true;
        asymmetry_measurement_mode = false;
      };
    }

abbrev pub sample_bmcs_system : BmcsPerTimeAwareSystemGlobal
sample_bmcs_system = record (bmcs_ptas_glb_init sample_config) {
  system_priority = vector_of 248 own_identity 0;
  gm_priority = vector_of 248 own_identity 0;
  path_trace_count = 0;
  external_port_configuration = 0;
  bmcs_quick_update = pos 0;
}

-- Port 1 has received the grandmaster's vector.
abbrev pub sample_bmcs_port : ℕ → BmcsPerPortGlobal
sample_bmcs_port i = record (bmcs_pp_glb_init sample_config) {
  info_is = if i == 1 then received else mine;
  port_priority =
      vector_of (if i == 1 then 100 else 248) (if i == 1 then gm_identity else own_identity) i;
  announce_receipt_timeout_time_interval = 3000000000;
  updt_info = false;
  rcvd_msg = false;
}

abbrev pub sample_clock : MasterClock
sample_clock = record {
  is_open = true;
  gmsync = false;
  we_are_gm = false;
  gm_clock_id = own_identity;
  gm_stable = false;
  gmchange_ind = 0;
  gm_synced_flag = false;
  gm_unsynced_flag = false;
  gm_change_flag = false;
  this_clock_adjppb = pos 0;
  adjustments = [];
}

-- An Announce message of a clock with the given priority1, whose path trace TLV has `length` bytes.
abbrev pub announce_of : ℕ → ℕ → PtpMsgAnnounce
announce_of priority1 length = record {
  header = record {
    flags = 8;
    source_port_identity = record { clock_identity = gm_identity; port_number = 1 };
    sequence_id = 7;
    log_message_interval = pos 0;
  };
  current_utc_offset = pos 37;
  grandmaster_priority1 = priority1;
  grandmaster_clock_quality = record {
    clock_class = 248;
    clock_accuracy = 254;
    offset_scaled_log_variance = 17258;
  };
  grandmaster_priority2 = 248;
  grandmaster_identity = gm_identity;
  steps_removed = 0;
  time_source = 160;
  tlv_type = 8;
  tlv_length = length;
  path_sequence = λ _. gm_identity;
}
