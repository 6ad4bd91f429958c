-- ===== src/AnnounceTransmit/Machine.antt =====
-- port_announce_transmit_sm.c: the PortAnnounceTransmit machine. What a call returns is the message that
-- is to be sent.
use excelfore_gptp.Common.{
  ℕ, ℤ, pos, negsuc, ◌+◌, ◌*◌, ◌/◌, Bool, true, false, not, ◌&&◌, ◌||◌, Option, none, some, ltb,
  leb, ◌==◌, if◌then◌else◌, u8, u16, u64,
}
use excelfore_gptp.Types.{
  UScaledNs, PtpMsgAnnounce, clock_identity_length, max_path_trace_n, master_port, value_disabled,
  value_enabled,
}
use excelfore_gptp.Arrays.{copy}
use excelfore_gptp.Globals.{
  PerTimeAwareSystemGlobal, PerPortGlobal, TimeProperties, BmcsPerTimeAwareSystemGlobal,
  BmcsPerPortGlobal,
}
use excelfore_gptp.Machine.{Outcome, Round, loop}
use excelfore_gptp.AnnounceInformation.Procs.{flag_bit}

pub data State : Type 0 where
  init transmit_init transmit_periodic idle transmit_announce reaction : State

abbrev pub code : State → ℕ
code init = 0
code transmit_init = 1
code transmit_periodic = 2
code idle = 3
code transmit_announce = 4
code reaction = 5

abbrev pub same : State → State → Bool
same s t = code s == code t

-- port_announce_transmit_data, with the members of thisSM.
pub record PortAnnounceTransmit : Type 0 where
  pub ptasg : PerTimeAwareSystemGlobal
  pub ppg : PerPortGlobal
  pub bptasg : BmcsPerTimeAwareSystemGlobal
  pub bppg : BmcsPerPortGlobal
  pub state : State
  pub last_state : State
  pub port_index : ℕ
  pub announce_send_time : UScaledNs
  pub number_announce_transmissions : ℕ  -- uint8_t
  pub interval2 : UScaledNs
  pub announce_tx : PtpMsgAnnounce

-- `if(b) flags |= bit`
abbrev pub or_flag : Bool → ℕ → ℕ → ℕ
or_flag b bit flags = if b && not (flag_bit flags bit) then flags + bit else flags

abbrev pub or_flags : TimeProperties → ℕ → ℕ
or_flags t flags = or_flag t.frequency_traceable 32 (
    or_flag t.time_traceable 16 (
      or_flag t.ptp_timescale 8
        (or_flag t.current_utc_offset_valid 4 (or_flag t.leap59 2 (or_flag t.leap61 1 flags)))))

-- txAnnounce
unfoldable pub tx_announce : PortAnnounceTransmit → PtpMsgAnnounce
tx_announce sm =
    let n = sm.bptasg.path_trace_count in
    let root = sm.bppg.master_priority.root_system_identity in
    record (sm.announce_tx) {
      header = record (sm.announce_tx.header) {
        sequence_id = u16 (sm.announce_tx.header.sequence_id + 1);
        flags = or_flags sm.bptasg.time_properties sm.announce_tx.header.flags;
      };
      current_utc_offset = sm.bptasg.time_properties.current_utc_offset;
      grandmaster_priority1 = root.priority1;
      grandmaster_clock_quality = record {
        clock_class = root.clock_class;
        clock_accuracy = root.clock_accuracy;
        offset_scaled_log_variance = root.offset_scaled_log_variance;
      };
      grandmaster_priority2 = root.priority2;
      grandmaster_identity = root.clock_identity;
      steps_removed = sm.bptasg.master_steps_removed;
      time_source = sm.bptasg.time_properties.time_source;
      tlv_type = 0x8;
      tlv_length = if leb n max_path_trace_n then clock_identity_length * n else 0;
      path_sequence =
          if leb n max_path_trace_n
          then copy sm.announce_tx.path_sequence sm.bptasg.path_trace n
          else sm.announce_tx.path_sequence;
    }

unfoldable pub allstate_condition : PortAnnounceTransmit → State
allstate_condition sm =
    if sm.ptasg.begin || not sm.ptasg.instance_enable || not sm.ppg.as_capable
    then transmit_init
    else sm.state

unfoldable pub transmit_init_proc : PortAnnounceTransmit → PortAnnounceTransmit
transmit_init_proc sm = record sm {
  bppg = record (sm.bppg) { new_info = true; announce_slowdown = false };
  number_announce_transmissions = 0;
}

unfoldable pub transmit_periodic_proc : PortAnnounceTransmit → PortAnnounceTransmit
transmit_periodic_proc sm = record sm {
  bppg = record (sm.bppg) {
    new_info = sm.bppg.new_info || sm.ptasg.selected_state sm.port_index == master_port;
  };
}

-- announceSendTime, aligned to 25 ms.
abbrev pub send_time : ℕ → UScaledNs → ℕ
send_time cts64 interval = u64 (cts64 + interval) / 25000000 * 25000000

unfoldable pub idle_proc : ℕ → PortAnnounceTransmit → PortAnnounceTransmit
idle_proc cts64 sm = record sm { announce_send_time = send_time cts64 sm.interval2 }

-- SELECTED[portIndex] && !UPDT_INFO
abbrev pub is_selected : PortAnnounceTransmit → Bool
is_selected sm = sm.bptasg.selected sm.port_index && not sm.bppg.updt_info

abbrev pub may_transmit : ℕ → PortAnnounceTransmit → Bool
may_transmit cts64 sm =
    sm.bppg.new_info
    && sm.ptasg.selected_state sm.port_index == master_port
    && ltb cts64 sm.announce_send_time
    && (is_selected sm || sm.bptasg.external_port_configuration == value_enabled)
    && not sm.ppg.for_all_domain.asymmetry_measurement_mode

unfoldable pub idle_condition : ℕ → PortAnnounceTransmit → State
idle_condition cts64 sm =
    if may_transmit cts64 sm
    then transmit_announce
    else if leb sm.announce_send_time cts64
        && (is_selected sm || sm.bptasg.external_port_configuration == value_disabled)
    then transmit_periodic
    else sm.state

-- `n >= t` for a uint8_t and an int8_t.
abbrev pub at_least : ℕ → ℤ → Bool
at_least n (pos t) = leb t n
at_least n (negsuc t) = true

-- The part of transmit_announce_proc behind txAnnounce.
abbrev pub slow_down : PortAnnounceTransmit → PortAnnounceTransmit
slow_down sm =
    if sm.bppg.announce_slowdown
    then (if at_least sm.number_announce_transmissions sm.bppg.announce_receipt_timeout
        then record sm {
          interval2 = sm.bppg.announce_interval;
          number_announce_transmissions = 0;
          bppg = record (sm.bppg) { announce_slowdown = false };
        }
        else record sm {
          interval2 = sm.ppg.old_announce_interval;
          number_announce_transmissions = u8 (sm.number_announce_transmissions + 1);
        })
    else record sm { number_announce_transmissions = 0; interval2 = sm.bppg.announce_interval }

unfoldable pub transmit_announce_proc : PortAnnounceTransmit → PortAnnounceTransmit
unfolding tx_announce
transmit_announce_proc sm =
    slow_down
      (record sm { bppg = record (sm.bppg) { new_info = false }; announce_tx = tx_announce sm })

abbrev goto : PortAnnounceTransmit → State → PortAnnounceTransmit × Option PtpMsgAnnounce
goto sm s = (record sm { state = s }, none)

abbrev pub switch :
    ℕ → State → Bool → PortAnnounceTransmit → PortAnnounceTransmit × Option PtpMsgAnnounce
switch cts64 init change sm = goto sm transmit_init
switch cts64 transmit_init change sm = goto (if change then transmit_init_proc sm else sm) idle
switch cts64 transmit_periodic change sm =
    goto (if change then transmit_periodic_proc sm else sm) idle
switch cts64 idle change sm =
    let sm' = if change then idle_proc cts64 sm else sm in goto sm' (idle_condition cts64 sm')
switch cts64 transmit_announce true sm =
    let sm' = transmit_announce_proc sm in (record sm' { state = idle }, some sm'.announce_tx)
switch cts64 transmit_announce false sm = goto sm idle
switch cts64 reaction change sm = (sm, none)

unfoldable pub round : ℕ → PortAnnounceTransmit → Round PortAnnounceTransmit PtpMsgAnnounce
unfolding transmit_init_proc transmit_periodic_proc idle_proc idle_condition transmit_announce_proc
round cts64 sm = some (
    switch cts64 sm.state (not (same sm.last_state sm.state)) (record sm { last_state = sm.state }))

abbrev pub settled : PortAnnounceTransmit → Bool
settled sm = same sm.last_state sm.state

abbrev pub fuel : ℕ
fuel = 10

-- port_announce_transmit_sm, with any number of rounds and with ten.
unfoldable pub rounds : ℕ → ℕ → PortAnnounceTransmit → Outcome PortAnnounceTransmit PtpMsgAnnounce
unfolding allstate_condition
rounds n cts64 sm = loop settled (round cts64) n (record sm { state = allstate_condition sm })

unfoldable pub port_announce_transmit_sm :
    ℕ → PortAnnounceTransmit → Outcome PortAnnounceTransmit PtpMsgAnnounce
unfolding rounds
port_announce_transmit_sm cts64 sm = rounds fuel cts64 sm
