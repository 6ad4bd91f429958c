-- ===== src/ExternalPort/Information.antt =====
-- port_announce_information_ext_sm.c: the PortAnnounceInformationExt machine.
use excelfore_gptp.Common.{
  ℕ, ◌+◌, Bool, false, not, ◌&&◌, ◌||◌, Option, none, some, ltb, ◌==◌, if◌then◌else◌, u16,
}
use excelfore_gptp.Types.{
  ClockIdentity, UInteger224, PtpMsgAnnounce, slave_port, value_enabled, max_path_trace_n,
}
use excelfore_gptp.Arrays.{set, copy}
use excelfore_gptp.Globals.{
  PerTimeAwareSystemGlobal, PerPortGlobal, BmcsPerTimeAwareSystemGlobal, BmcsPerPortGlobal,
}
use excelfore_gptp.Globals.Init.{zero_identity}
use excelfore_gptp.AnnounceInformation.Procs.{message_vector, announced_properties}
use excelfore_gptp.Machine.{Outcome, Round, loop}

pub data State : Type 0 where
  init initialize receive reaction : State

abbrev pub code : State → ℕ
code init = 0
code initialize = 1
code receive = 2
code reaction = 3

abbrev pub same : State → State → Bool
same s t = code s == code t

-- port_announce_information_ext_data, with the members of thisSM.
pub record PortAnnounceInformationExt : Type 0 where
  pub ptasg : PerTimeAwareSystemGlobal
  pub ppg : PerPortGlobal
  pub bptasg : BmcsPerTimeAwareSystemGlobal
  pub bppg : BmcsPerPortGlobal
  pub state : State
  pub last_state : State
  pub rcvd_announce : Bool
  pub message_priority : UInteger224

-- The path trace of a slave port: that of the message with this clock, or nothing if it does not fit.
-- The length is taken from stepsRemoved.
unfoldable pub trace_of : PtpMsgAnnounce → PortAnnounceInformationExt → ℕ → ClockIdentity
trace_of a sm =
    let n = a.steps_removed + 1 in
    if ltb n max_path_trace_n
    then set (copy sm.bptasg.path_trace a.path_sequence n) n sm.ptasg.this_clock
    else copy sm.bptasg.path_trace (λ _. zero_identity) max_path_trace_n

-- rcvdInfoExt, of a message that is there
unfoldable pub rcvd_info_ext :
    PtpMsgAnnounce → PortAnnounceInformationExt → PortAnnounceInformationExt
unfolding trace_of
rcvd_info_ext a sm = record sm {
  message_priority = message_vector sm.ppg a;
  bppg = record (sm.bppg) { message_steps_removed = a.steps_removed };
  bptasg = record (sm.bptasg) {
    path_trace =
        if sm.ptasg.selected_state sm.ppg.this_port_index == slave_port
        then trace_of a sm
        else sm.bptasg.path_trace;
  };
}

-- recordOtherAnnounceInfo, of a message that is there
unfoldable pub record_other_announce_info :
    PtpMsgAnnounce → PortAnnounceInformationExt → PortAnnounceInformationExt
record_other_announce_info a sm = record sm {
  bppg = record (sm.bppg) { ann_time_properties = announced_properties a };
}

-- PORT_OPER && PTP_PORT_ENABLED && AS_CAPABLE
abbrev pub is_capable : PerPortGlobal → Bool
is_capable ppg = ppg.for_all_domain.port_oper && ppg.ptp_port_enabled && ppg.as_capable

unfoldable pub allstate_condition : PortAnnounceInformationExt → State
allstate_condition sm =
    if (not (is_capable sm.ppg) || sm.ptasg.begin || not sm.ptasg.instance_enable)
      && sm.bptasg.external_port_configuration == value_enabled
    then initialize
    else sm.state

unfoldable pub initialize_proc : PortAnnounceInformationExt → PortAnnounceInformationExt
initialize_proc sm = record sm {
  rcvd_announce = false;
  bppg = record (sm.bppg) { updt_info = false };
}

unfoldable pub initialize_condition : PortAnnounceInformationExt → State
initialize_condition sm = if is_capable sm.ppg && sm.rcvd_announce then receive else initialize

-- `none` if rcvdAnnouncePtr is null.
unfoldable pub receive_proc : PortAnnounceInformationExt → Option PortAnnounceInformationExt
unfolding rcvd_info_ext record_other_announce_info
receive_proc sm = elim (sm.bppg.rcvd_announce_ptr) [
  | none ↦ none
  | some a ↦
      let sm' = record_other_announce_info a (rcvd_info_ext a sm) in
      some (record sm' {
        bppg = record (sm'.bppg) { port_steps_removed = u16 (sm'.bppg.message_steps_removed + 1) };
      })
]

unfoldable pub receive_condition : PortAnnounceInformationExt → State
receive_condition sm = if is_capable sm.ppg && sm.rcvd_announce then reaction else receive

abbrev goto : PortAnnounceInformationExt → State → Round PortAnnounceInformationExt UInteger224
goto sm s = some (record sm { state = s }, none)

abbrev pub after_receive :
    Option PortAnnounceInformationExt → Round PortAnnounceInformationExt UInteger224
after_receive none = none
after_receive (some sm) =
    some (record sm { state = receive_condition sm }, some sm.message_priority)

abbrev pub switch :
    State → Bool → PortAnnounceInformationExt → Round PortAnnounceInformationExt UInteger224
switch init change sm = goto sm initialize
switch initialize change sm =
    let sm' = if change then initialize_proc sm else sm in goto sm' (initialize_condition sm')
switch receive change sm =
    if change then after_receive (receive_proc sm) else goto sm (receive_condition sm)
switch reaction change sm = some (sm, none)

unfoldable pub round : PortAnnounceInformationExt → Round PortAnnounceInformationExt UInteger224
unfolding initialize_proc initialize_condition receive_proc receive_condition
round sm = switch sm.state (not (same sm.last_state sm.state)) (record sm { last_state = sm.state })

abbrev pub settled : PortAnnounceInformationExt → Bool
settled sm = same sm.last_state sm.state

abbrev pub fuel : ℕ
fuel = 10

unfoldable pub port_announce_information_ext_sm :
    PortAnnounceInformationExt → Outcome PortAnnounceInformationExt UInteger224
unfolding allstate_condition
port_announce_information_ext_sm sm =
    loop settled round fuel (record sm { state = allstate_condition sm })
