-- ===== src/LinkDelayInterval/Machine.antt =====
-- link_delay_interval_setting_sm.c: the LinkDelayIntervalSetting machine, which sets the interval of the
-- Pdelay_Req messages, and what is computed from them, as a neighbour asks for it.
use excelfore_gptp.Common.{
  ℕ, ℤ, pos, negsuc, Bool, true, false, not, ◌&&◌, ◌||◌, Option, none, some, ◌==◌, if◌then◌else◌,
}
use excelfore_gptp.Types.{PtpMsgIntervalRequestTlv}
use excelfore_gptp.Config.{Config, log_to_nsec}
use excelfore_gptp.Flags.{
  get_flag_bit, compute_neighbor_rate_ratio_bit, compute_neighbor_prop_delay_bit,
}
use excelfore_gptp.Globals.{PerTimeAwareSystemGlobal, PerPortGlobal}
use excelfore_gptp.Globals.MdEntity.{MdEntityGlobal}
use excelfore_gptp.Machine.{Outcome, Round, loop}

pub data State : Type 0 where
  init not_enabled initialize set_interval reaction : State

abbrev pub code : State → ℕ
code init = 0
code not_enabled = 1
code initialize = 2
code set_interval = 3
code reaction = 4

abbrev pub same : State → State → Bool
same s t = code s == code t

-- link_delay_interval_setting_data, with the members of thisSM.
pub record LinkDelayIntervalSetting : Type 0 where
  pub ptasg : PerTimeAwareSystemGlobal
  pub ppg : PerPortGlobal
  pub mdeg : MdEntityGlobal
  pub state : State
  pub last_state : State
  pub rcvd_signaling_msg1 : Bool
  pub rcvd_signaling_ptr : Option PtpMsgIntervalRequestTlv
  pub port_enabled3 : Bool

-- PORT_OPER && portEnabled3 && !USE_MGTSETTABLE_LOG_PDELAY_REQ_INTERVAL
abbrev pub is_enabled : LinkDelayIntervalSetting → Bool
is_enabled sm =
    sm.ppg.for_all_domain.port_oper
    && sm.port_enabled3
    && not sm.ppg.for_all_domain.use_mgt_settable_log_pdelay_req_interval

unfoldable pub allstate_condition : LinkDelayIntervalSetting → State
allstate_condition sm =
    if sm.ptasg.begin
      || not sm.port_enabled3
      || not sm.ppg.for_all_domain.port_oper
      || sm.ppg.for_all_domain.use_mgt_settable_log_pdelay_req_interval
    then not_enabled
    else sm.state

-- The interval in use becomes 2 ^ log seconds.
abbrev pub use_interval : Config → ℤ → MdEntityGlobal → MdEntityGlobal
use_interval c log g = record g {
  for_all_domain = record (g.for_all_domain) {
    current_log_pdelay_req_interval = log;
    pdelay_req_interval = log_to_nsec c log;
  };
}

-- What the neighbour's messages are used for.
abbrev pub use_compute : Bool → Bool → PerPortGlobal → PerPortGlobal
use_compute rate_ratio prop_delay p = record p {
  for_all_domain = record (p.for_all_domain) {
    compute_neighbor_rate_ratio = rate_ratio;
    compute_neighbor_prop_delay = prop_delay;
  };
}

unfoldable pub not_enabled_proc : Config → LinkDelayIntervalSetting → LinkDelayIntervalSetting
not_enabled_proc c sm =
    if sm.ppg.for_all_domain.use_mgt_settable_log_pdelay_req_interval
    then record sm {
      mdeg = use_interval c sm.ppg.for_all_domain.mgt_settable_log_pdelay_req_interval sm.mdeg;
    }
    else sm

unfoldable pub not_enabled_condition : LinkDelayIntervalSetting → State
not_enabled_condition sm = if is_enabled sm then initialize else not_enabled

unfoldable pub initialize_proc : Config → LinkDelayIntervalSetting → LinkDelayIntervalSetting
initialize_proc c sm = record sm {
  mdeg = use_interval c sm.mdeg.for_all_domain.initial_log_pdelay_req_interval sm.mdeg;
  ppg = use_compute true true sm.ppg;
  rcvd_signaling_msg1 = false;
}

unfoldable pub initialize_condition : LinkDelayIntervalSetting → State
initialize_condition sm = if sm.rcvd_signaling_msg1 then set_interval else initialize

-- The `switch` on the requested value.
unfoldable pub requested : Config → ℤ → MdEntityGlobal → MdEntityGlobal
requested c (pos n) g =
    if n == 126
    then use_interval c g.for_all_domain.initial_log_pdelay_req_interval g
    else use_interval c (pos n) g
requested c (negsuc n) g = if n == 127 then g else use_interval c (negsuc n) g

-- `none` if rcvdSignalingPtr is null.
unfoldable pub set_interval_proc :
    Config → LinkDelayIntervalSetting → Option LinkDelayIntervalSetting
unfolding requested
set_interval_proc c sm = elim (sm.rcvd_signaling_ptr) [
  | none ↦ none
  | some tlv ↦ some (record sm {
    mdeg = requested c tlv.link_delay_interval sm.mdeg;
    ppg =
        use_compute (get_flag_bit tlv.flags compute_neighbor_rate_ratio_bit)
          (get_flag_bit tlv.flags compute_neighbor_prop_delay_bit) sm.ppg;
    rcvd_signaling_msg1 = false;
  })
]

-- A request that waits makes the next round enter the state anew.
unfoldable pub set_interval_condition : LinkDelayIntervalSetting → LinkDelayIntervalSetting
set_interval_condition sm =
    record (if sm.rcvd_signaling_msg1 then record sm { last_state = reaction } else sm) {
      state = set_interval;
    }

abbrev goto : LinkDelayIntervalSetting → State → Option LinkDelayIntervalSetting
goto sm s = some (record sm { state = s })

abbrev pub after_set : Option LinkDelayIntervalSetting → Option LinkDelayIntervalSetting
after_set none = none
after_set (some sm) = some (set_interval_condition sm)

abbrev pub switch :
    Config → State → Bool → LinkDelayIntervalSetting → Option LinkDelayIntervalSetting
switch c init change sm = goto sm not_enabled
switch c not_enabled change sm =
    let sm' = if change then not_enabled_proc c sm else sm in goto sm' (not_enabled_condition sm')
switch c initialize change sm =
    let sm' = if change then initialize_proc c sm else sm in goto sm' (initialize_condition sm')
switch c set_interval change sm = after_set (if change then set_interval_proc c sm else some sm)
switch c reaction change sm = some sm

abbrev pub finish : Option LinkDelayIntervalSetting → Round LinkDelayIntervalSetting Unit
finish none = none
finish (some sm) = some (sm, none)

unfoldable pub round : Config → LinkDelayIntervalSetting → Round LinkDelayIntervalSetting Unit
unfolding not_enabled_proc not_enabled_condition initialize_proc initialize_condition
    set_interval_proc set_interval_condition
round c sm =
    finish
      (switch c sm.state (not (same sm.last_state sm.state)) (record sm { last_state = sm.state }))

abbrev pub settled : LinkDelayIntervalSetting → Bool
settled sm = same sm.last_state sm.state

abbrev pub fuel : ℕ
fuel = 10

unfoldable pub link_delay_interval_setting_sm :
    Config → LinkDelayIntervalSetting → Outcome LinkDelayIntervalSetting Unit
unfolding allstate_condition
link_delay_interval_setting_sm c sm =
    loop settled (round c) fuel (record sm { state = allstate_condition sm })

-- link_delay_interval_setting_SignalingMsg1.
unfoldable pub signaling_msg1 :
    Config
    → PtpMsgIntervalRequestTlv
    → LinkDelayIntervalSetting
    → Outcome LinkDelayIntervalSetting Unit
unfolding link_delay_interval_setting_sm
signaling_msg1 c value sm =
    link_delay_interval_setting_sm c
      (record sm { rcvd_signaling_msg1 = true; rcvd_signaling_ptr = some value })
