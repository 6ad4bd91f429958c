-- ===== src/Globals/Init.antt =====
-- mind.c: the initial values of the global variables. Memory that is allocated anew is cleared first.
use excelfore_gptp.Common.{ℕ, pos, Bool, true, false, none, [], ◌∷◌, if◌then◌else◌, is_nonzero}
use excelfore_gptp.Types.{ClockIdentity, UInteger224, InfoIs}
use excelfore_gptp.Config.{
  Config, ClockConfig, to_uint8, to_uint16, to_int8, times_uint64, log_to_nsec,
}
use excelfore_gptp.Globals.Records.{
  PerTimeAwareSystemGlobal, PerPortGlobalForAllDomain, PerPortGlobal, TimeProperties,
  BmcsPerTimeAwareSystemGlobal, BmcsPerPortGlobal,
}

-- Cleared memory.
abbrev pub zero_identity : ClockIdentity
zero_identity = 0 ∷ 0 ∷ 0 ∷ 0 ∷ 0 ∷ 0 ∷ 0 ∷ 0 ∷ []

-- The vector whose 28 bytes are all `b`; its 16-bit members are `w`.
abbrev pub filled_vector : ℕ → ℕ → UInteger224
filled_vector b w =
    let id = b ∷ b ∷ b ∷ b ∷ b ∷ b ∷ b ∷ b ∷ [] in
    record {
      root_system_identity = record {
        priority1 = b;
        clock_class = b;
        clock_accuracy = b;
        offset_scaled_log_variance = w;
        priority2 = b;
        clock_identity = id;
      };
      steps_removed = w;
      source_port_identity = record { clock_identity = id; port_number = w };
      port_number = w;
    }

abbrev pub zero_vector : UInteger224
zero_vector = filled_vector 0 0

abbrev pub zero_time_properties : TimeProperties
zero_time_properties = record {
  leap61 = false;
  leap59 = false;
  current_utc_offset_valid = false;
  ptp_timescale = false;
  time_traceable = false;
  frequency_traceable = false;
  current_utc_offset = pos 0;
  time_source = 0;
}

unfoldable pub ptas_glb_init : Config → ℕ → PerTimeAwareSystemGlobal
ptas_glb_init c domain_number = record {
  begin = false;
  gm_present = false;
  gm_time_base_indicator = 0;
  last_gm_phase_change = pos 0;
  last_gm_freq_change = pos 0;
  selected_state = λ _. 0;
  this_clock = zero_identity;
  instance_enable = true;
  domain_number = domain_number;
  parent_log_sync_interval = pos 0;
  clock_master_log_sync_interval = to_int8 c.log_sync_interval;
  clock_master_sync_interval = log_to_nsec c c.log_sync_interval;
  gm_stable_initdone = false;
  as_capable_or_all = false;
  gm_identity = zero_identity;
  conform_to_avnu = is_nonzero c.follow_avnu;
}

-- The part that pp_glb_init allocates for domain 0.
unfoldable pub for_all_domain_init : Config → PerPortGlobalForAllDomain
for_all_domain_init c = record {
  asymmetry_measurement_mode = false;
  compute_neighbor_rate_ratio = true;
  compute_neighbor_prop_delay = true;
  port_oper = false;
  use_mgt_settable_log_announce_interval = false;
  mgt_settable_log_announce_interval = to_int8 c.log_announce_interval;
  use_mgt_settable_log_pdelay_req_interval = false;
  mgt_settable_log_pdelay_req_interval = to_int8 c.log_pdelayreq_interval;
  received_non_cmlds_pdelay_req = pos 0;
}

-- `for_all_domain` is the record of domain 0, or the one just allocated; `enabled` is what
-- get_pp_ptpPortEnabled reads from the configuration for this port.
unfoldable pub pp_glb_init : Config → PerPortGlobalForAllDomain → Bool → ℕ → PerPortGlobal
pp_glb_init c for_all_domain enabled port_index = record {
  as_capable = false;
  sync_receipt_timeout_time_interval =
      times_uint64 c.sync_receipt_timeout (log_to_nsec c c.log_sync_interval);
  current_log_sync_interval = to_int8 c.log_sync_interval;
  initial_log_sync_interval = to_int8 c.log_sync_interval;
  sync_interval = log_to_nsec c c.log_sync_interval;
  ptp_port_enabled = enabled;
  this_port = port_index;
  this_port_index = port_index;
  sync_locked = false;
  neighbor_gptp_capable = false;
  sync_slowdown = false;
  old_announce_interval = 0;
  for_all_domain = for_all_domain;
  sync_receipt_timeout = to_int8 c.sync_receipt_timeout;
  log_gptp_capable_message_interval = to_int8 c.log_gptp_capable_message_interval;
  gptp_capable_receipt_timeout = to_int8 c.gptp_capable_receipt_timeout;
  use_mgt_settable_log_sync_interval = false;
  mgt_settable_log_sync_interval = pos 0;
  initial_one_step_tx_oper = false;
  current_one_step_tx_oper = false;
  use_mgt_settable_one_step_tx_oper = true;
  mgt_settable_one_step_tx_oper = false;
}

unfoldable pub bmcs_ptas_glb_init : Config → BmcsPerTimeAwareSystemGlobal
bmcs_ptas_glb_init c = record {
  reselect = λ _. false;
  selected = λ _. false;
  master_steps_removed = 0;
  time_properties = zero_time_properties;
  sys_time_properties = zero_time_properties;
  system_priority = zero_vector;
  gm_priority = zero_vector;
  last_gm_priority = zero_vector;
  path_trace_count = 0;
  path_trace = λ _. zero_identity;
  external_port_configuration = to_uint8 c.external_port_configuration;
  bmcs_quick_update = c.bmcs_quick_update_mode;
}

-- The systemPriority vector: {SS : 0 : {CS : 0} : 0}.
unfoldable pub system_vector : ClockConfig → ClockIdentity → UInteger224
system_vector k this_clock = record {
  root_system_identity = record {
    priority1 = to_uint8 k.priority1;
    clock_class = to_uint8 k.clock_class;
    clock_accuracy = to_uint8 k.clock_accuracy;
    offset_scaled_log_variance = to_uint16 k.offset_scaled_log_variance;
    priority2 = to_uint8 k.priority2;
    clock_identity = this_clock;
  };
  steps_removed = 0;
  source_port_identity = record { clock_identity = this_clock; port_number = 0 };
  port_number = 0;
}

-- The UTC offset is set only on the PTP timescale.
unfoldable pub bmcs_ptas_glb_update :
    Config
    → BmcsPerTimeAwareSystemGlobal
    → PerTimeAwareSystemGlobal
    → Bool
    → BmcsPerTimeAwareSystemGlobal
unfolding system_vector
bmcs_ptas_glb_update c btasglb ptasglb primary = record btasglb {
  sys_time_properties = record {
    leap61 = false;
    leap59 = false;
    current_utc_offset_valid = false;
    ptp_timescale = is_nonzero c.timescale_ptp;
    time_traceable = false;
    frequency_traceable = false;
    current_utc_offset =
        if is_nonzero c.timescale_ptp
        then pos 37
        else btasglb.sys_time_properties.current_utc_offset;
    time_source = to_uint8 c.time_source;
  };
  system_priority = system_vector (if primary then c.primary else c.secondary) ptasglb.this_clock;
}

unfoldable pub bmcs_pp_glb_init : Config → BmcsPerPortGlobal
bmcs_pp_glb_init c = record {
  announce_receipt_timeout_time_interval = 0;
  announce_slowdown = false;
  old_announce_interval = 0;
  info_is = InfoIs.disabled;
  master_priority = zero_vector;
  current_log_announce_interval = pos 0;
  initial_log_announce_interval = to_int8 c.initial_log_announce_interval;
  announce_interval = 0;
  message_steps_removed = 0;
  new_info = false;
  port_priority = zero_vector;
  port_steps_removed = 0;
  rcvd_announce_ptr = none;
  rcvd_msg = false;
  updt_info = false;
  ann_time_properties = zero_time_properties;
  ann_path_sequence_count = 0;
  ann_path_sequence = λ _. zero_identity;
  announce_receipt_timeout = to_int8 c.announce_receipt_timeout;
}
