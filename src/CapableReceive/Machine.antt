-- ===== src/CapableReceive/Machine.antt =====
-- gptp_capable_receive_sm.c: the gPtpCapableReceive machine, which watches whether the neighbour speaks
-- gPTP. Of the TLV only the member logGptpCapableMessageInterval is read.
use excelfore_gptp.Common.{
  ℕ, ℤ, pos, negsuc, ◌+◌, Bool, true, false, not, ◌&&◌, ◌||◌, Option, none, some, leb, ◌==◌,
  if◌then◌else◌, u64,
}
use excelfore_gptp.Types.{UScaledNs}
use excelfore_gptp.Config.{Config, log_to_nsec, times_uint64}
use excelfore_gptp.Globals.{PerTimeAwareSystemGlobal, PerPortGlobal}
use excelfore_gptp.Machine.{Outcome, Round, loop}

pub data State : Type 0 where
  init not_enabled initialize received_tlv reaction : State

abbrev pub code : State → ℕ
code init = 0
code not_enabled = 1
code initialize = 2
code received_tlv = 3
code reaction = 4

abbrev pub same : State → State → Bool
same s t = code s == code t

-- gptp_capable_receive_data, with the members of thisSM.
pub record GptpCapableReceive : Type 0 where
  pub ptasg : PerTimeAwareSystemGlobal
  pub ppg : PerPortGlobal
  pub state : State
  pub last_state : State
  pub rcvd_gptp_capable_tlv : Bool
  pub rcvd_signaling_msg_ptr : Option ℤ  -- int8_t
  pub gptp_capable_receipt_timeout_interval : UScaledNs
  pub timeout_time : UScaledNs

-- `x == -1`
abbrev pub is_minus_one : ℤ → Bool
is_minus_one (pos n) = false
is_minus_one (negsuc n) = n == 0

-- PORT_OPER && PTP_PORT_ENABLED && DOMAIN_ENABLED
abbrev pub is_enabled : PerPortGlobal → Bool
is_enabled ppg =
    ppg.for_all_domain.port_oper
    && ppg.ptp_port_enabled
    && is_minus_one ppg.for_all_domain.received_non_cmlds_pdelay_req

unfoldable pub allstate_condition : GptpCapableReceive → State
allstate_condition sm =
    if sm.ptasg.begin || not sm.ptasg.instance_enable || not (is_enabled sm.ppg)
    then not_enabled
    else sm.state

unfoldable pub not_enabled_condition : GptpCapableReceive → State
not_enabled_condition sm = if is_enabled sm.ppg then initialize else not_enabled

unfoldable pub initialize_proc : GptpCapableReceive → GptpCapableReceive
initialize_proc sm = record sm { ppg = record (sm.ppg) { neighbor_gptp_capable = false } }

unfoldable pub initialize_condition : GptpCapableReceive → State
initialize_condition sm = if sm.rcvd_gptp_capable_tlv then received_tlv else initialize

-- What received_tlv_proc makes of a TLV with the given interval.
unfoldable pub adopt_tlv : Config → ℕ → ℤ → GptpCapableReceive → GptpCapableReceive
adopt_tlv c cts64 log sm =
    let interval = times_uint64 sm.ppg.gptp_capable_receipt_timeout (log_to_nsec c log) in
    record sm {
      rcvd_gptp_capable_tlv = false;
      gptp_capable_receipt_timeout_interval = interval;
      timeout_time = u64 (cts64 + interval);
      ppg = record (sm.ppg) { neighbor_gptp_capable = true };
    }

-- `none` if rcvdSignalingMsgPtr is null.
unfoldable pub received_tlv_proc : Config → ℕ → GptpCapableReceive → Option GptpCapableReceive
unfolding adopt_tlv
received_tlv_proc c cts64 sm = elim (sm.rcvd_signaling_msg_ptr) [
  | none ↦ none
  | some log ↦ some (adopt_tlv c cts64 log sm)
]

-- received_tlv_condition, with its write of last_state.
unfoldable pub received_tlv_condition : ℕ → GptpCapableReceive → GptpCapableReceive
received_tlv_condition cts64 sm =
    if leb sm.timeout_time cts64
    then record sm { state = initialize }
    else if sm.rcvd_gptp_capable_tlv
    then record sm { state = received_tlv; last_state = reaction }
    else record sm { state = received_tlv }

abbrev pub after_tlv : ℕ → Option GptpCapableReceive → Option GptpCapableReceive
after_tlv cts64 none = none
after_tlv cts64 (some sm) = some (received_tlv_condition cts64 sm)

-- The `switch`; not_enabled_proc does nothing.
abbrev pub switch : Config → ℕ → State → Bool → GptpCapableReceive → Option GptpCapableReceive
switch c cts64 init change sm = some (record sm { state = not_enabled })
switch c cts64 not_enabled change sm = some (record sm { state = not_enabled_condition sm })
switch c cts64 initialize change sm =
    let sm' = if change then initialize_proc sm else sm in
    some (record sm' { state = initialize_condition sm' })
switch c cts64 received_tlv change sm =
    after_tlv cts64 (if change then received_tlv_proc c cts64 sm else some sm)
switch c cts64 reaction change sm = some sm

abbrev pub finish : Option GptpCapableReceive → Round GptpCapableReceive Unit
finish none = none
finish (some sm) = some (sm, none)

unfoldable pub round : Config → ℕ → GptpCapableReceive → Round GptpCapableReceive Unit
unfolding not_enabled_condition initialize_proc initialize_condition received_tlv_proc
    received_tlv_condition
round c cts64 sm = finish (
    switch c cts64 sm.state (not (same sm.last_state sm.state))
      (record sm { last_state = sm.state }))

abbrev pub settled : GptpCapableReceive → Bool
settled sm = same sm.last_state sm.state

abbrev pub fuel : ℕ
fuel = 10

-- gptp_capable_receive_sm
unfoldable pub gptp_capable_receive_sm :
    Config → ℕ → GptpCapableReceive → Outcome GptpCapableReceive Unit
unfolding allstate_condition
gptp_capable_receive_sm c cts64 sm =
    loop settled (round c cts64) fuel (record sm { state = allstate_condition sm })

-- gptp_capable_receive_rcvdSignalingMsg, for a TLV with the given interval.
unfoldable pub rcvd_signaling_msg :
    Config → ℕ → ℤ → GptpCapableReceive → Outcome GptpCapableReceive Unit
unfolding gptp_capable_receive_sm
rcvd_signaling_msg c cts64 log sm =
    gptp_capable_receive_sm c cts64
      (record sm { rcvd_gptp_capable_tlv = true; rcvd_signaling_msg_ptr = some log })
