-- ===== src/AnnounceInformation/Machine.antt =====
-- port_announce_information_sm.c: the transition conditions, the `switch` and the loop of the
-- PortAnnounceInformation machine.
use excelfore_gptp.Common.{
  ℕ, Bool, true, false, not, ◌&&◌, ◌||◌, Option, none, some, leb, ◌==◌, if◌then◌else◌, is_nonzero,
}
use excelfore_gptp.Types.{
  UScaledNs, InfoIs, received, disabled, RcvdInfo, repeated_master_info, superior_master_info,
  inferior_master_info, other_info, value_disabled,
}
use excelfore_gptp.Priority.{memcmp_eq, octets_port}
use excelfore_gptp.Config.{Config}
use excelfore_gptp.Globals.{PerPortGlobal}
use excelfore_gptp.Machine.{Outcome, Round, loop}
use excelfore_gptp.AnnounceInformation.Procs.{
  State, init, disabled_state, aged_state, update, current, receive, superior_master_port,
  repeated_master_port, inferior_master_or_other_port, reaction, same, PortAnnounceInformation,
  disabled_proc, aged_proc, update_proc, receive_proc, superior_master_port_proc,
  repeated_master_port_proc, inferior_master_or_other_port_proc,
}

-- PORT_OPER && PTP_PORT_ENABLED && AS_CAPABLE
abbrev pub port_ready : PerPortGlobal → Bool
port_ready ppg = ppg.for_all_domain.port_oper && ppg.ptp_port_enabled && ppg.as_capable

abbrev pub is_disabled : InfoIs → Bool
is_disabled disabled = true
is_disabled _ = false

abbrev pub is_received : InfoIs → Bool
is_received received = true
is_received _ = false

unfoldable pub allstate_condition : PortAnnounceInformation → State
allstate_condition sm =
    if (((not sm.ppg.for_all_domain.port_oper
            || not sm.ppg.ptp_port_enabled
            || not sm.ppg.as_capable)
          && not (is_disabled sm.bppg.info_is))
        || sm.ptasg.begin
        || not sm.ptasg.instance_enable)
      && sm.bptasg.external_port_configuration == value_disabled
    then disabled_state
    else sm.state

unfoldable pub disabled_condition : PortAnnounceInformation → State
disabled_condition sm =
    if port_ready sm.ppg then aged_state else if sm.bppg.rcvd_msg then disabled_state else sm.state

-- SELECTED[portIndex] && UPDT_INFO
abbrev pub must_update : PortAnnounceInformation → Bool
must_update sm = sm.bptasg.selected sm.port_index && sm.bppg.updt_info

unfoldable pub aged_condition : PortAnnounceInformation → State
aged_condition sm = if must_update sm then update else aged_state

-- The information of the port has timed out.
abbrev pub timed_out : ℕ → PortAnnounceInformation → Bool
timed_out cts64 sm =
    leb sm.announce_receipt_timeout_time cts64
    || (leb sm.sync_receipt_timeout_time cts64 && sm.ptasg.gm_present)

unfoldable pub current_condition : ℕ → PortAnnounceInformation → State
current_condition cts64 sm =
    if must_update sm
    then update
    else if is_received sm.bppg.info_is
        && timed_out cts64 sm
        && not sm.bppg.updt_info
        && not sm.bppg.rcvd_msg
    then aged_state
    else if sm.bppg.rcvd_msg && not sm.bppg.updt_info
    then receive
    else current

abbrev pub receive_target : RcvdInfo → State
receive_target repeated_master_info = repeated_master_port
receive_target superior_master_info = superior_master_port
receive_target inferior_master_info = inferior_master_or_other_port
receive_target other_info = inferior_master_or_other_port

unfoldable pub receive_condition : PortAnnounceInformation → State
receive_condition sm =
    if sm.ppg.for_all_domain.asymmetry_measurement_mode
    then receive
    else receive_target sm.rcvd_info

unfoldable pub inferior_master_or_other_port_condition : Config → PortAnnounceInformation → State
inferior_master_or_other_port_condition c sm =
    if memcmp_eq (octets_port c.byte_order sm.message_priority.source_port_identity)
        (octets_port c.byte_order sm.bppg.port_priority.source_port_identity)
      && is_nonzero sm.bptasg.bmcs_quick_update
    then aged_state
    else current

abbrev goto : PortAnnounceInformation → State → PortAnnounceInformation
goto sm s = record sm { state = s }

abbrev go_on :
    Option PortAnnounceInformation
    → (PortAnnounceInformation → State)
    → Option PortAnnounceInformation
go_on none next = none
go_on (some sm) next = some (goto sm (next sm))

-- The `switch` of the loop, `last_state` being set to the state before; retp is always null.
unfoldable pub switch :
    Config → ℕ → State → Bool → PortAnnounceInformation → Option PortAnnounceInformation
unfolding disabled_proc aged_proc update_proc receive_proc superior_master_port_proc
    repeated_master_port_proc inferior_master_or_other_port_proc disabled_condition aged_condition
    current_condition receive_condition inferior_master_or_other_port_condition
switch c cts64 init change sm = some (goto sm disabled_state)
switch c cts64 disabled_state change sm =
    go_on (some (if change then disabled_proc cts64 sm else sm)) disabled_condition
switch c cts64 aged_state change sm =
    go_on (some (if change then aged_proc sm else sm)) aged_condition
switch c cts64 update change sm =
    go_on (some (if change then update_proc sm else sm)) (λ _. current)
switch c cts64 current change sm = go_on (some sm) (current_condition cts64)
switch c cts64 receive change sm =
    go_on (if change then receive_proc c sm else some sm) receive_condition
switch c cts64 superior_master_port change sm =
    go_on (if change then superior_master_port_proc c cts64 sm else some sm) (λ _. current)
switch c cts64 repeated_master_port change sm =
    go_on (some (if change then repeated_master_port_proc cts64 sm else sm)) (λ _. current)
switch c cts64 inferior_master_or_other_port change sm =
    go_on (some (if change then inferior_master_or_other_port_proc sm else sm))
      (inferior_master_or_other_port_condition c)
switch c cts64 reaction change sm = some sm

-- retp is null.
abbrev pub finish : Option PortAnnounceInformation → Round PortAnnounceInformation Unit
finish none = none
finish (some sm) = some (sm, none)

-- One round of the loop.
unfoldable pub round : Config → ℕ → PortAnnounceInformation → Round PortAnnounceInformation Unit
round c cts64 sm = finish (
    switch c cts64 sm.state (not (same sm.last_state sm.state))
      (record sm { last_state = sm.state }))

abbrev pub settled : PortAnnounceInformation → Bool
settled sm = same sm.last_state sm.state

-- More rounds than a call can take.
abbrev pub fuel : ℕ
fuel = 20

-- port_announce_information_sm
unfoldable pub port_announce_information_sm :
    Config → ℕ → PortAnnounceInformation → Outcome PortAnnounceInformation Unit
unfolding allstate_condition
port_announce_information_sm c cts64 sm =
    loop settled (round c cts64) fuel (record sm { state = allstate_condition sm })

-- port_announce_information_sm_SyncReceiptTimeoutTime, with the time of the PortSyncSync message.
unfoldable pub sync_receipt_timeout_time_update :
    PortAnnounceInformation → UScaledNs → PortAnnounceInformation
sync_receipt_timeout_time_update sm time = record sm { sync_receipt_timeout_time = time }
