-- ===== src/Signaling/Receive.antt =====
-- md_signaling_receive_sm.c: the MDSignalingReceive machine.
use excelfore_gptp.Common.{
  ℕ, ◌+◌, Bool, true, false, not, ◌||◌, Option, none, some, ◌==◌, if◌then◌else◌, u32,
}
use excelfore_gptp.Types.{PtpMsgGptpCapableTlv}
use excelfore_gptp.Globals.{PerTimeAwareSystemGlobal, PerPortGlobal}
use excelfore_gptp.Machine.{Outcome, Round, loop}
use excelfore_gptp.Wire.Order.{NetworkOrder}
use excelfore_gptp.Signaling.Message.{
  PtpIntervalRequest, Tlv, interval_request, gptp_capable, MdSignaling, recv_gptp_capable,
  recv_msg_interval_req,
}
use excelfore_gptp.Signaling.Send.{is_up}

pub data State : Type 0 where
  init initialize recv_signaling reaction : State

abbrev pub code : State → ℕ
code init = 0
code initialize = 1
code recv_signaling = 2
code reaction = 3

abbrev pub same : State → State → Bool
same s t = code s == code t

-- md_signaling_receive_data, with the members of statd; the message in the receive buffer is given as
-- the struct that the pointer is cast to.
pub record MdSignalingReceive : Type 0 where
  pub ptasg : PerTimeAwareSystemGlobal
  pub ppg : PerPortGlobal
  pub state : State
  pub last_state : State
  pub recv : Bool
  pub rcvd_rxmsg : Option MdSignaling
  pub gctlm : PtpMsgGptpCapableTlv
  pub mrtlm : PtpIntervalRequest
  pub signal_rec : ℕ  -- uint32_t
  pub signal_msg_interval_rec : ℕ  -- uint32_t
  pub signal_gptp_capable_rec : ℕ  -- uint32_t

unfoldable pub allstate_condition : MdSignalingReceive → MdSignalingReceive
allstate_condition sm =
    if sm.ptasg.begin || not sm.ptasg.instance_enable || not (is_up sm.ppg)
    then record sm { last_state = reaction; state = initialize }
    else sm

unfoldable pub initialize_condition : MdSignalingReceive → State
initialize_condition sm = if sm.recv then recv_signaling else initialize

-- recv_msg_interval_req and recv_gptp_capable on the machine's record, with the count of each.
abbrev pub keep_interval_req :
    NetworkOrder → MdSignaling → MdSignalingReceive → Round MdSignalingReceive Tlv
keep_interval_req o p sm =
    let t = recv_msg_interval_req o p in
    some (
      record sm { mrtlm = t; signal_msg_interval_rec = u32 (sm.signal_msg_interval_rec + 1) },
      some (interval_request t),
    )

abbrev pub keep_gptp_capable :
    NetworkOrder → MdSignaling → MdSignalingReceive → Round MdSignalingReceive Tlv
keep_gptp_capable o p sm =
    let t = recv_gptp_capable o p in
    some (
      record sm { gctlm = t; signal_gptp_capable_rec = u32 (sm.signal_gptp_capable_rec + 1) },
      some (gptp_capable t),
    )

-- The tests of the lowest byte of organizationSubType_nb.
abbrev pub take_tlv :
    NetworkOrder → MdSignaling → MdSignalingReceive → ℕ → Round MdSignalingReceive Tlv
take_tlv o p sm stype =
    if stype == 2
    then keep_interval_req o p sm
    else if stype == 4
    then keep_gptp_capable o p sm
    else some (sm, none)

-- recv_signaling_proc; `none` if rcvd_rxmsg is null.
unfoldable pub recv_signaling_proc :
    NetworkOrder → MdSignalingReceive → Round MdSignalingReceive Tlv
recv_signaling_proc o sm = elim (sm.rcvd_rxmsg) [
  | none ↦ none
  | some p ↦ take_tlv o p (record sm { recv = false }) p.organization_sub_type_nb2
]

unfoldable pub recv_signaling_condition : MdSignalingReceive → MdSignalingReceive
recv_signaling_condition sm = record (if sm.recv then record sm { last_state = reaction } else sm) {
  state = recv_signaling;
}

-- The `switch`; initialize_proc does nothing.
abbrev pub switch : NetworkOrder → State → Bool → MdSignalingReceive → Round MdSignalingReceive Tlv
switch o init change sm = some (record sm { state = initialize }, none)
switch o initialize change sm = some (record sm { state = initialize_condition sm }, none)
switch o recv_signaling change sm =
    if change then recv_signaling_proc o sm else some (recv_signaling_condition sm, none)
switch o reaction change sm = some (sm, none)

unfoldable pub round : NetworkOrder → MdSignalingReceive → Round MdSignalingReceive Tlv
unfolding initialize_condition recv_signaling_proc recv_signaling_condition
round o sm =
    switch o sm.state (not (same sm.last_state sm.state)) (record sm { last_state = sm.state })

abbrev pub settled : MdSignalingReceive → Bool
settled sm = same sm.last_state sm.state

abbrev pub fuel : ℕ
fuel = 10

unfoldable pub md_signaling_receive_sm :
    NetworkOrder → MdSignalingReceive → Outcome MdSignalingReceive Tlv
unfolding allstate_condition
md_signaling_receive_sm o sm = loop settled (round o) fuel (allstate_condition sm)

-- md_signaling_receive_sm_mdSignalingRec
unfoldable pub md_signaling_rec :
    NetworkOrder → MdSignaling → MdSignalingReceive → Outcome MdSignalingReceive Tlv
unfolding md_signaling_receive_sm
md_signaling_rec o p sm = md_signaling_receive_sm o (record sm {
  recv = true;
  rcvd_rxmsg = some p;
  last_state = reaction;
  signal_rec = u32 (sm.signal_rec + 1);
})
