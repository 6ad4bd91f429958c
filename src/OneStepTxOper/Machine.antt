-- ===== src/OneStepTxOper/Machine.antt =====
-- one_step_tx_oper_setting_sm.c: the OneStepTxOperSetting machine, which lets a port send one-step Sync
-- messages if its neighbour takes them.
use excelfore_gptp.Common.{
  ℕ, Bool, true, false, not, ◌&&◌, ◌||◌, Option, none, some, ◌==◌, if◌then◌else◌,
}
use excelfore_gptp.Types.{PtpMsgIntervalRequestTlv}
use excelfore_gptp.Flags.{get_flag_bit, one_step_receive_capable_bit}
use excelfore_gptp.Globals.{PerTimeAwareSystemGlobal, PerPortGlobal}
use excelfore_gptp.Globals.MdEntity.{MdEntityGlobal}
use excelfore_gptp.Machine.{Outcome, Round, loop}

pub data State : Type 0 where
  init not_enabled initialize set_one_step_tx_oper reaction : State

abbrev pub code : State → ℕ
code init = 0
code not_enabled = 1
code initialize = 2
code set_one_step_tx_oper = 3
code reaction = 4

abbrev pub same : State → State → Bool
same s t = code s == code t

-- one_step_tx_oper_setting_data, with the members of thisSM.
pub record OneStepTxOperSetting : Type 0 where
  pub ptasg : PerTimeAwareSystemGlobal
  pub ppg : PerPortGlobal
  pub mdeg : MdEntityGlobal
  pub state : State
  pub last_state : State
  pub rcvd_signaling_msg4 : Bool
  pub rcvd_signaling_ptr : Option PtpMsgIntervalRequestTlv

-- PORT_OPER && PTP_PORT_ENABLED && !USE_MGT_SETTABLE_ONE_STEP_TX_OPER
abbrev pub is_enabled : PerPortGlobal → Bool
is_enabled ppg =
    ppg.for_all_domain.port_oper
    && ppg.ptp_port_enabled
    && not ppg.use_mgt_settable_one_step_tx_oper

unfoldable pub allstate_condition : OneStepTxOperSetting → State
allstate_condition sm =
    if sm.ptasg.begin
      || not sm.ptasg.instance_enable
      || not sm.ppg.for_all_domain.port_oper
      || not sm.ppg.ptp_port_enabled
      || sm.ppg.use_mgt_settable_one_step_tx_oper
    then not_enabled
    else sm.state

-- CURRENT_ONE_STEP_TX_OPER = b; ONE_STEP_TX_OPER = CURRENT_ONE_STEP_TX_OPER && ONE_STEP_TRANSMIT;
abbrev pub use_one_step : Bool → OneStepTxOperSetting → OneStepTxOperSetting
use_one_step b sm = record sm {
  ppg = record (sm.ppg) { current_one_step_tx_oper = b };
  mdeg = record (sm.mdeg) { one_step_tx_oper = b && sm.mdeg.one_step_transmit };
}

unfoldable pub not_enabled_proc : OneStepTxOperSetting → OneStepTxOperSetting
not_enabled_proc sm =
    if sm.ppg.use_mgt_settable_one_step_tx_oper
    then use_one_step sm.ppg.mgt_settable_one_step_tx_oper sm
    else sm

unfoldable pub not_enabled_condition : OneStepTxOperSetting → State
not_enabled_condition sm = if is_enabled sm.ppg then initialize else not_enabled

unfoldable pub initialize_proc : OneStepTxOperSetting → OneStepTxOperSetting
initialize_proc sm = use_one_step sm.ppg.initial_one_step_tx_oper sm

unfoldable pub initialize_condition : OneStepTxOperSetting → State
initialize_condition sm = if sm.rcvd_signaling_msg4 then set_one_step_tx_oper else initialize

-- `none` if rcvdSignalingPtr is null.
unfoldable pub set_one_step_tx_oper_proc : OneStepTxOperSetting → Option OneStepTxOperSetting
set_one_step_tx_oper_proc sm = elim (sm.rcvd_signaling_ptr) [
  | none ↦ none
  | some tlv ↦
      some (record (use_one_step (get_flag_bit tlv.flags one_step_receive_capable_bit) sm) {
        rcvd_signaling_msg4 = false;
      })
]

-- A request that waits makes the next round enter the state anew.
unfoldable pub set_one_step_tx_oper_condition : OneStepTxOperSetting → OneStepTxOperSetting
set_one_step_tx_oper_condition sm =
    record (if sm.rcvd_signaling_msg4 then record sm { last_state = reaction } else sm) {
      state = set_one_step_tx_oper;
    }

abbrev goto : OneStepTxOperSetting → State → Option OneStepTxOperSetting
goto sm s = some (record sm { state = s })

abbrev pub after_set : Option OneStepTxOperSetting → Option OneStepTxOperSetting
after_set none = none
after_set (some sm) = some (set_one_step_tx_oper_condition sm)

abbrev pub switch : State → Bool → OneStepTxOperSetting → Option OneStepTxOperSetting
switch init change sm = goto sm not_enabled
switch not_enabled change sm =
    let sm' = if change then not_enabled_proc sm else sm in goto sm' (not_enabled_condition sm')
switch initialize change sm =
    let sm' = if change then initialize_proc sm else sm in goto sm' (initialize_condition sm')
switch set_one_step_tx_oper change sm =
    after_set (if change then set_one_step_tx_oper_proc sm else some sm)
switch reaction change sm = some sm

abbrev pub finish : Option OneStepTxOperSetting → Round OneStepTxOperSetting Unit
finish none = none
finish (some sm) = some (sm, none)

unfoldable pub round : OneStepTxOperSetting → Round OneStepTxOperSetting Unit
unfolding not_enabled_proc not_enabled_condition initialize_proc initialize_condition
    set_one_step_tx_oper_proc set_one_step_tx_oper_condition
round sm =
    finish
      (switch sm.state (not (same sm.last_state sm.state)) (record sm { last_state = sm.state }))

abbrev pub settled : OneStepTxOperSetting → Bool
settled sm = same sm.last_state sm.state

abbrev pub fuel : ℕ
fuel = 10

unfoldable pub one_step_tx_oper_setting_sm :
    OneStepTxOperSetting → Outcome OneStepTxOperSetting Unit
unfolding allstate_condition
one_step_tx_oper_setting_sm sm =
    loop settled round fuel (record sm { state = allstate_condition sm })

-- one_step_tx_oper_setting_SignalingMsg4.
unfoldable pub signaling_msg4 :
    PtpMsgIntervalRequestTlv → OneStepTxOperSetting → Outcome OneStepTxOperSetting Unit
unfolding one_step_tx_oper_setting_sm
signaling_msg4 value sm =
    one_step_tx_oper_setting_sm
      (record sm { rcvd_signaling_msg4 = true; rcvd_signaling_ptr = some value })
