-- ===== src/AnnounceInterval/Machine.antt =====
-- announce_interval_setting_sm.c: the AnnounceIntervalSetting machine, which sets the interval that a
-- neighbour asks for. Of the request TLV only the member announceInterval is read.
use excelfore_gptp.Common.{
  ℕ, ℤ, pos, negsuc, Bool, true, false, not, ◌&&◌, ◌||◌, Option, none, some, ltb, ◌==◌,
  if◌then◌else◌,
}
use excelfore_gptp.Config.{Config, log_to_nsec}
use excelfore_gptp.Globals.{PerTimeAwareSystemGlobal, PerPortGlobal, BmcsPerPortGlobal}
use excelfore_gptp.Machine.{Outcome, Round, loop}

pub data State : Type 0 where
  init not_enabled initialize set_intervals reaction : State

abbrev pub code : State → ℕ
code init = 0
code not_enabled = 1
code initialize = 2
code set_intervals = 3
code reaction = 4

abbrev pub same : State → State → Bool
same s t = code s == code t

-- announce_interval_setting_data, with the members of thisSM.
pub record AnnounceIntervalSetting : Type 0 where
  pub ptasg : PerTimeAwareSystemGlobal
  pub ppg : PerPortGlobal
  pub bppg : BmcsPerPortGlobal
  pub state : State
  pub last_state : State
  pub rcvd_signaling_msg2 : Bool
  pub rcvd_signaling_ptr : Option ℤ  -- int8_t

-- PORT_OPER && PTP_PORT_ENABLED && !useMgtSettableLogAnnounceInterval
abbrev pub is_enabled : PerPortGlobal → Bool
is_enabled ppg =
    ppg.for_all_domain.port_oper
    && ppg.ptp_port_enabled
    && not ppg.for_all_domain.use_mgt_settable_log_announce_interval

unfoldable pub allstate_condition : AnnounceIntervalSetting → State
allstate_condition sm =
    if sm.ptasg.begin
      || not sm.ptasg.instance_enable
      || not sm.ppg.for_all_domain.port_oper
      || not sm.ppg.ptp_port_enabled
      || sm.ppg.for_all_domain.use_mgt_settable_log_announce_interval
    then not_enabled
    else sm.state

-- The interval in use becomes 2 ^ log seconds.
abbrev pub use_interval : Config → ℤ → BmcsPerPortGlobal → BmcsPerPortGlobal
use_interval c log p = record p {
  current_log_announce_interval = log;
  announce_interval = log_to_nsec c log;
}

unfoldable pub not_enabled_proc : Config → AnnounceIntervalSetting → AnnounceIntervalSetting
not_enabled_proc c sm =
    if sm.ppg.for_all_domain.use_mgt_settable_log_announce_interval
    then record sm {
      bppg = use_interval c sm.ppg.for_all_domain.mgt_settable_log_announce_interval sm.bppg;
    }
    else sm

unfoldable pub not_enabled_condition : AnnounceIntervalSetting → State
not_enabled_condition sm = if is_enabled sm.ppg then initialize else not_enabled

unfoldable pub initialize_proc : Config → AnnounceIntervalSetting → AnnounceIntervalSetting
initialize_proc c sm = record sm {
  bppg = record (use_interval c sm.bppg.initial_log_announce_interval sm.bppg) {
    old_announce_interval = log_to_nsec c sm.bppg.initial_log_announce_interval;
    announce_slowdown = false;
  };
  rcvd_signaling_msg2 = false;
}

unfoldable pub initialize_condition : AnnounceIntervalSetting → State
initialize_condition sm = if sm.rcvd_signaling_msg2 then set_intervals else initialize

-- The `switch` on the requested value.
unfoldable pub requested : Config → ℤ → BmcsPerPortGlobal → BmcsPerPortGlobal
requested c (pos n) p =
    if n == 126 then use_interval c p.initial_log_announce_interval p else use_interval c (pos n) p
requested c (negsuc n) p = if n == 127 then p else use_interval c (negsuc n) p

-- `none` if rcvdSignalingPtr is null.
unfoldable pub set_intervals_proc :
    Config → AnnounceIntervalSetting → Option AnnounceIntervalSetting
unfolding requested
set_intervals_proc c sm = elim (sm.rcvd_signaling_ptr) [
  | none ↦ none
  | some value ↦
      let p = requested c value sm.bppg in
      some (record sm {
        bppg = record p { announce_slowdown = ltb p.announce_interval p.old_announce_interval };
        rcvd_signaling_msg2 = false;
      })
]

unfoldable pub set_intervals_condition : AnnounceIntervalSetting → State
set_intervals_condition sm = if sm.rcvd_signaling_msg2 then reaction else set_intervals

abbrev goto : AnnounceIntervalSetting → State → Option AnnounceIntervalSetting
goto sm s = some (record sm { state = s })

abbrev pub after_set : Option AnnounceIntervalSetting → Option AnnounceIntervalSetting
after_set none = none
after_set (some sm) = goto sm (set_intervals_condition sm)

abbrev pub switch : Config → State → Bool → AnnounceIntervalSetting → Option AnnounceIntervalSetting
switch c init change sm = goto sm not_enabled
switch c not_enabled change sm =
    let sm' = if change then not_enabled_proc c sm else sm in goto sm' (not_enabled_condition sm')
switch c initialize change sm =
    let sm' = if change then initialize_proc c sm else sm in goto sm' (initialize_condition sm')
switch c set_intervals change sm = after_set (if change then set_intervals_proc c sm else some sm)
switch c reaction change sm = some sm

abbrev pub finish : Option AnnounceIntervalSetting → Round AnnounceIntervalSetting Unit
finish none = none
finish (some sm) = some (sm, none)

unfoldable pub round : Config → AnnounceIntervalSetting → Round AnnounceIntervalSetting Unit
unfolding not_enabled_proc not_enabled_condition initialize_proc initialize_condition
    set_intervals_proc set_intervals_condition
round c sm =
    finish
      (switch c sm.state (not (same sm.last_state sm.state)) (record sm { last_state = sm.state }))

abbrev pub settled : AnnounceIntervalSetting → Bool
settled sm = same sm.last_state sm.state

abbrev pub fuel : ℕ
fuel = 10

-- announce_interval_setting_sm
unfoldable pub announce_interval_setting_sm :
    Config → AnnounceIntervalSetting → Outcome AnnounceIntervalSetting Unit
unfolding allstate_condition
announce_interval_setting_sm c sm =
    loop settled (round c) fuel (record sm { state = allstate_condition sm })

-- announce_interval_setting_sm_SignalingMsg2, for a request of `value`.
unfoldable pub signaling_msg2 :
    Config → ℤ → AnnounceIntervalSetting → Outcome AnnounceIntervalSetting Unit
unfolding announce_interval_setting_sm
signaling_msg2 c value sm =
    announce_interval_setting_sm c
      (record sm { rcvd_signaling_ptr = some value; rcvd_signaling_msg2 = true })
