-- ===== src/Signaling/Send.antt =====
-- md_signaling_send_sm.c: the MDSignalingSend machine. gptpnet_send_whook and rand are parameters of a
-- call: whether the network takes a message, and the random number that it may draw.
use excelfore_gptp.Common.{
  ℕ, ◌+◌, ◌%◌, ◌^◌, Bool, true, false, not, ◌&&◌, ◌||◌, Option, none, some, List, ◌∷◌, ◌==◌,
  if◌then◌else◌, u16, u32,
}
use excelfore_gptp.Types.{PortIdentity}
use excelfore_gptp.Config.{Config}
use excelfore_gptp.Globals.{PerTimeAwareSystemGlobal, PerPortGlobal}
use excelfore_gptp.Machine.{Outcome, done, Round, loop}
use excelfore_gptp.Wire.Order.{NetworkOrder}
use excelfore_gptp.Signaling.Message.{
  Tlv, interval_request, gptp_capable, MdSignaling, blank_signaling, setup_gptp_capable_tlv,
  setup_msg_interval_req_tlv,
}

pub data State : Type 0 where
  init initialize send_signaling reaction : State

abbrev pub code : State → ℕ
code init = 0
code initialize = 1
code send_signaling = 2
code reaction = 3

abbrev pub same : State → State → Bool
same s t = code s == code t

-- md_signaling_type_t
pub data SignalingType : Type 0 where
  type_none type_interval_req type_gptp_capable : SignalingType

-- The test of a value of it.
abbrev pub is_set : SignalingType → Bool
is_set type_none = false
is_set type_interval_req = true
is_set type_gptp_capable = true

-- md_signaling_send_data, with the members of statd. `has_net` tells that gpnetd is not null, and `sent`
-- holds the messages that were sent, the last one first.
pub record MdSignalingSend : Type 0 where
  pub has_net : Bool
  pub ptasg : PerTimeAwareSystemGlobal
  pub ppg : PerPortGlobal
  pub state : State
  pub last_state : State
  pub stype : SignalingType
  pub rcvd_txmsg : Option Tlv
  pub sequence_id : ℕ  -- uint16_t
  pub signal_msg_interval_send : ℕ  -- uint32_t
  pub signal_gptp_capable_send : ℕ  -- uint32_t
  pub sent : List MdSignaling

-- PORT_OPER && PTP_PORT_ENABLED
abbrev pub is_up : PerPortGlobal → Bool
is_up ppg = ppg.for_all_domain.port_oper && ppg.ptp_port_enabled

abbrev pub port_identity : MdSignalingSend → PortIdentity
port_identity sm = record { clock_identity = sm.ptasg.this_clock; port_number = sm.ppg.this_port }

-- The second `switch` of sendSignaling; `none` if rcvd_txmsg is null or points to the other kind.
unfoldable pub setup_tlv :
    NetworkOrder → SignalingType → Option Tlv → MdSignaling → Option MdSignaling
setup_tlv o type_interval_req (some (interval_request t)) p =
    some (setup_msg_interval_req_tlv o t p)
setup_tlv o type_gptp_capable (some (gptp_capable t)) p = some (setup_gptp_capable_tlv o t p)
setup_tlv o type_interval_req (some (gptp_capable t)) p = none
setup_tlv o type_gptp_capable (some (interval_request t)) p = none
setup_tlv o type_interval_req none p = none
setup_tlv o type_gptp_capable none p = none
setup_tlv o type_none m p = none

-- `(*statp)++`
abbrev pub count : SignalingType → MdSignalingSend → MdSignalingSend
count type_none sm = sm
count type_interval_req sm = record sm {
  signal_msg_interval_send = u32 (sm.signal_msg_interval_send + 1);
}
count type_gptp_capable sm = record sm {
  signal_gptp_capable_send = u32 (sm.signal_gptp_capable_send + 1);
}

-- The end of sendSignaling: whether it gives -2.
abbrev pub put_out : Bool → Option MdSignaling → MdSignalingSend → Option (MdSignalingSend × Bool)
put_out can_send none sm = none
put_out false (some p) sm = some (sm, true)
put_out true (some p) sm = some (
  count sm.stype (record sm { sequence_id = u16 (sm.sequence_id + 1); sent = p ∷ sm.sent }),
  false,
)

-- sendSignaling: whether it gives -2. Without a network md_header_compose gives a null pointer.
unfoldable pub send_message :
    NetworkOrder → Config → Bool → MdSignalingSend → Option (MdSignalingSend × Bool)
unfolding blank_signaling setup_tlv
send_message o c can_send sm =
    if not (is_set sm.stype)
    then some (sm, false)
    else if not sm.has_net
    then none
    else put_out can_send
        (setup_tlv o sm.stype sm.rcvd_txmsg
          (blank_signaling o c (port_identity sm) sm.ptasg.domain_number sm.sequence_id))
        sm

unfoldable pub allstate_condition : MdSignalingSend → MdSignalingSend
allstate_condition sm =
    if sm.ptasg.begin || not sm.ptasg.instance_enable || not (is_up sm.ppg)
    then record sm { last_state = reaction; state = initialize }
    else sm

unfoldable pub initialize_proc : ℕ → MdSignalingSend → MdSignalingSend
initialize_proc random sm = record sm { sequence_id = random % 2 ^ 16 }

unfoldable pub initialize_condition : MdSignalingSend → State
initialize_condition sm = if is_set sm.stype then send_signaling else initialize

-- send_signaling_proc and the test of its result: a failure ends the call at once. The pointer that a
-- call returns is null in every case.
abbrev pub after_send : Option (MdSignalingSend × Bool) → Round MdSignalingSend (Unit {0})
after_send none = none
after_send (some (sm, true)) = some (record sm { last_state = reaction }, some tt)
after_send (some (sm, false)) = some (record sm { stype = type_none }, none)

unfoldable pub send_signaling_proc :
    NetworkOrder → Config → Bool → MdSignalingSend → Round MdSignalingSend (Unit {0})
unfolding send_message
send_signaling_proc o c can_send sm = after_send (send_message o c can_send sm)

unfoldable pub send_signaling_condition : MdSignalingSend → MdSignalingSend
send_signaling_condition sm =
    record (if is_set sm.stype then record sm { last_state = reaction } else sm) {
      state = send_signaling;
    }

abbrev pub enter_initialize : ℕ → Bool → MdSignalingSend → MdSignalingSend
enter_initialize random change sm = if change then initialize_proc random sm else sm

abbrev pub switch :
    NetworkOrder
    → Config
    → Bool
    → ℕ
    → State
    → Bool
    → MdSignalingSend
    → Round MdSignalingSend (Unit {0})
switch o c can_send random init change sm = some (record sm { state = initialize }, none)
switch o c can_send random initialize change sm =
    let x = enter_initialize random change sm in
    some (record x { state = initialize_condition x }, none)
switch o c can_send random send_signaling change sm =
    if change then send_signaling_proc o c can_send sm else some (send_signaling_condition sm, none)
switch o c can_send random reaction change sm = some (sm, none)

unfoldable pub round :
    NetworkOrder → Config → Bool → ℕ → MdSignalingSend → Round MdSignalingSend (Unit {0})
unfolding initialize_proc initialize_condition send_signaling_proc send_signaling_condition
round o c can_send random sm =
    switch o c can_send random sm.state (not (same sm.last_state sm.state))
      (record sm { last_state = sm.state })

abbrev pub settled : MdSignalingSend → Bool
settled sm = same sm.last_state sm.state

abbrev pub fuel : ℕ
fuel = 10

unfoldable pub md_signaling_send_sm :
    NetworkOrder → Config → Bool → ℕ → MdSignalingSend → Outcome MdSignalingSend (Unit {0})
unfolding allstate_condition
md_signaling_send_sm o c can_send random sm =
    loop settled (round o c can_send random) fuel (allstate_condition sm)

-- The member at the place of organizationSubType, which both kinds have.
abbrev pub sub_type_of : Tlv → ℕ
sub_type_of (interval_request t) = t.organization_sub_type
sub_type_of (gptp_capable t) = t.organization_sub_type

abbrev pub type_of : ℕ → SignalingType
type_of n = if n == 2 then type_interval_req else if n == 4 then type_gptp_capable else type_none

-- md_signaling_send_sm_mdSignalingSend
unfoldable pub md_signaling_send :
    NetworkOrder → Config → Bool → ℕ → Tlv → MdSignalingSend → Outcome MdSignalingSend (Unit {0})
unfolding md_signaling_send_sm
md_signaling_send o c can_send random m sm =
    let x = record sm { stype = type_of (sub_type_of m) } in
    if is_set (type_of (sub_type_of m))
    then md_signaling_send_sm o c can_send random
        (record x { rcvd_txmsg = some m; last_state = reaction })
    else done x none
