-- ===== src/AnnounceInformation/Procs.antt =====
-- port_announce_information_sm.c: the data of the PortAnnounceInformation machine and the actions of
-- its states. An action is `none` where it would read through a null RCVD_ANNOUNCE_PTR, or write past
-- the end of annPathSequence.
use excelfore_gptp.Common.{
  ℕ, ◌+◌, ◌*◌, ◌/◌, ◌%◌, Bool, true, false, not, Option, none, some, leb, ◌==◌, if◌then◌else◌, u8,
  u64,
}
use excelfore_gptp.Types.{
  UScaledNs, UInteger224, PtpMsgAnnounce, received, mine, aged, disabled, RcvdInfo,
  repeated_master_info, superior_master_info, inferior_master_info, other_info, max_path_trace_n,
  clock_identity_length, disabled_port,
}
use excelfore_gptp.Arrays.{set, copy_octets}
use excelfore_gptp.Priority.{ByteOrder, memcmp_eq, octets, compare_priority_vectors, is_superior}
use excelfore_gptp.Config.{Config, times_uint64, log_to_nsec}
use excelfore_gptp.Globals.{
  PerTimeAwareSystemGlobal, PerPortGlobal, TimeProperties, BmcsPerTimeAwareSystemGlobal,
  BmcsPerPortGlobal,
}

pub data State : Type 0 where
  init disabled_state aged_state update current receive : State
  superior_master_port repeated_master_port inferior_master_or_other_port reaction : State

abbrev pub code : State → ℕ
code init = 0
code disabled_state = 1
code aged_state = 2
code update = 3
code current = 4
code receive = 5
code superior_master_port = 6
code repeated_master_port = 7
code inferior_master_or_other_port = 8
code reaction = 9

abbrev pub same : State → State → Bool
same s t = code s == code t

-- port_announce_information_data, with the members of thisSM.
pub record PortAnnounceInformation : Type 0 where
  pub ptasg : PerTimeAwareSystemGlobal
  pub ppg : PerPortGlobal
  pub bptasg : BmcsPerTimeAwareSystemGlobal
  pub bppg : BmcsPerPortGlobal
  pub state : State
  pub last_state : State
  pub port_index : ℕ
  pub announce_receipt_timeout_time : UScaledNs
  pub message_priority : UInteger224
  pub rcvd_info : RcvdInfo
  pub sync_receipt_timeout_time : UScaledNs

-- The messagePriority vector of an Announce message received on a port.
abbrev pub message_vector : PerPortGlobal → PtpMsgAnnounce → UInteger224
message_vector ppg a = record {
  root_system_identity = record {
    priority1 = a.grandmaster_priority1;
    clock_class = a.grandmaster_clock_quality.clock_class;
    clock_accuracy = a.grandmaster_clock_quality.clock_accuracy;
    offset_scaled_log_variance = a.grandmaster_clock_quality.offset_scaled_log_variance;
    priority2 = a.grandmaster_priority2;
    clock_identity = a.grandmaster_identity;
  };
  steps_removed = a.steps_removed;
  source_port_identity = a.header.source_port_identity;
  port_number = ppg.this_port;
}

-- The verdict of rcvdInfo on a message vector.
unfoldable pub classify : ByteOrder → ℕ → UInteger224 → UInteger224 → RcvdInfo
classify o selected_state message port =
    if not (selected_state == disabled_port)
    then (if memcmp_eq (octets o port) (octets o message)
        then repeated_master_info
        else if is_superior (compare_priority_vectors o message port)
        then superior_master_info
        else inferior_master_info)
    else other_info

-- `(flags[1] & (1 << k)) == (1 << k)`
abbrev pub flag_bit : ℕ → ℕ → Bool
flag_bit flags divisor = flags / divisor % 2 == 1

abbrev pub announced_properties : PtpMsgAnnounce → TimeProperties
announced_properties a = record {
  leap61 = flag_bit a.header.flags 1;
  leap59 = flag_bit a.header.flags 2;
  current_utc_offset_valid = flag_bit a.header.flags 4;
  ptp_timescale = flag_bit a.header.flags 8;
  time_traceable = flag_bit a.header.flags 16;
  frequency_traceable = flag_bit a.header.flags 32;
  current_utc_offset = a.current_utc_offset;
  time_source = a.time_source;
}

-- rcvdInfo: the message vector is stored and compared with the port's.
unfoldable pub rcvd_info_of :
    Config → PortAnnounceInformation → PtpMsgAnnounce → PortAnnounceInformation
rcvd_info_of c sm a =
    let message = message_vector sm.ppg a in
    record sm {
      message_priority = message;
      bppg = record (sm.bppg) { message_steps_removed = a.steps_removed };
      rcvd_info =
          classify c.byte_order (sm.ptasg.selected_state sm.ppg.this_port_index) message
            sm.bppg.port_priority;
    }

-- recordOtherAnnounceInfo; `none` if tlvLength bytes do not fit into annPathSequence.
abbrev pub with_other_info : PortAnnounceInformation → PtpMsgAnnounce → PortAnnounceInformation
with_other_info sm a = record sm {
  ptasg = record (sm.ptasg) { gm_identity = a.grandmaster_identity };
  bppg = record (sm.bppg) {
    ann_time_properties = announced_properties a;
    ann_path_sequence_count = u8 (a.tlv_length / clock_identity_length);
    ann_path_sequence =
        copy_octets clock_identity_length sm.bppg.ann_path_sequence a.path_sequence a.tlv_length;
  };
}

unfoldable pub record_other_announce_info :
    PortAnnounceInformation → PtpMsgAnnounce → Option PortAnnounceInformation
record_other_announce_info sm a =
    if leb a.tlv_length (clock_identity_length * max_path_trace_n)
    then some (with_other_info sm a)
    else none

-- `RESELECT[portIndex] = true; SELECTED[portIndex] = false;`
abbrev pub request_selection : ℕ → BmcsPerTimeAwareSystemGlobal → BmcsPerTimeAwareSystemGlobal
request_selection i b = record b {
  reselect = set b.reselect i true;
  selected = set b.selected i false;
}

unfoldable pub disabled_proc : ℕ → PortAnnounceInformation → PortAnnounceInformation
disabled_proc cts64 sm = record sm {
  announce_receipt_timeout_time = cts64;
  bptasg = request_selection sm.port_index sm.bptasg;
  bppg = record (sm.bppg) { rcvd_msg = false; info_is = disabled };
}

unfoldable pub aged_proc : PortAnnounceInformation → PortAnnounceInformation
aged_proc sm = record sm {
  ptasg = record (sm.ptasg) { gm_identity = sm.ptasg.this_clock };
  bptasg = request_selection sm.port_index sm.bptasg;
  bppg = record (sm.bppg) { info_is = aged; ann_path_sequence_count = 0 };
}

unfoldable pub update_proc : PortAnnounceInformation → PortAnnounceInformation
update_proc sm = record sm {
  bppg = record (sm.bppg) {
    port_priority = sm.bppg.master_priority;
    port_steps_removed = sm.bptasg.master_steps_removed;
    updt_info = false;
    info_is = mine;
    new_info = true;
  };
}

unfoldable pub receive_proc : Config → PortAnnounceInformation → Option PortAnnounceInformation
unfolding rcvd_info_of
receive_proc c sm = elim (sm.bppg.rcvd_announce_ptr) [
  | none ↦ none
  | some a ↦ some (rcvd_info_of c sm a)
]

-- The message is adopted at `cts64`, `sm` having its other information recorded.
abbrev pub adopt : Config → ℕ → PtpMsgAnnounce → PortAnnounceInformation → PortAnnounceInformation
adopt c cts64 a sm =
    let announce_interval =
      times_uint64 sm.bppg.announce_receipt_timeout (log_to_nsec c a.header.log_message_interval) in
    let sync_interval = times_uint64 sm.ppg.sync_receipt_timeout (
      log_to_nsec c (
        if sm.ppg.use_mgt_settable_log_sync_interval
        then sm.ppg.mgt_settable_log_sync_interval
        else sm.ppg.initial_log_sync_interval)) in
    record sm {
      ppg = record (sm.ppg) { sync_receipt_timeout_time_interval = sync_interval };
      announce_receipt_timeout_time = u64 (cts64 + announce_interval);
      sync_receipt_timeout_time = u64 (cts64 + sync_interval);
      bptasg = request_selection sm.port_index sm.bptasg;
      bppg = record (sm.bppg) {
        port_priority = sm.message_priority;
        port_steps_removed = a.steps_removed;
        announce_receipt_timeout_time_interval = announce_interval;
        info_is = received;
        rcvd_msg = false;
        rcvd_announce_ptr = none;
      };
    }

unfoldable pub superior_master_port_proc :
    Config → ℕ → PortAnnounceInformation → Option PortAnnounceInformation
unfolding record_other_announce_info
superior_master_port_proc c cts64 sm = elim (sm.bppg.rcvd_announce_ptr) [
  | none ↦ none
  | some a ↦ elim (record_other_announce_info sm a) [
    | none ↦ none
    | some sm' ↦ some (adopt c cts64 a sm')
  ]
]

unfoldable pub repeated_master_port_proc : ℕ → PortAnnounceInformation → PortAnnounceInformation
repeated_master_port_proc cts64 sm = record sm {
  announce_receipt_timeout_time = u64 (cts64 + sm.bppg.announce_receipt_timeout_time_interval);
  bppg = record (sm.bppg) { rcvd_msg = false; rcvd_announce_ptr = none };
}

unfoldable pub inferior_master_or_other_port_proc :
    PortAnnounceInformation → PortAnnounceInformation
inferior_master_or_other_port_proc sm = record sm {
  bppg = record (sm.bppg) { rcvd_msg = false; rcvd_announce_ptr = none };
}
