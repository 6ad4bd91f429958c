-- ===== src/SyncInterval/Machine.antt =====
-- sync_interval_setting_sm.c: the SyncIntervalSetting machine, which sets the interval of the Sync
-- messages that a neighbour asks for. Of the request TLV only the member timeSyncInterval is read.
use excelfore_gptp.Common.{
  ℕ, ℤ, pos, negsuc, Bool, true, false, not, ◌&&◌, ◌||◌, Option, none, some, ◌==◌, if◌then◌else◌,
}
use excelfore_gptp.Config.{Config, log_to_nsec}
use excelfore_gptp.Globals.{PerTimeAwareSystemGlobal, PerPortGlobal}
use excelfore_gptp.Machine.{Outcome, Round, loop}

pub data State : Type 0 where
  init not_enabled initialize set_interval reaction : State

abbrev pub code : State → ℕ
code init = 0
code not_enabled = 1
code initialize = 2
code set_interval = 3
code reaction = 4

abbrev pub same : State → State → Bool
same s t = code s == code t

-- sync_interval_setting_data, with the members of thisSM.
pub record SyncIntervalSetting : Type 0 where
  pub ptasg : PerTimeAwareSystemGlobal
  pub ppg : PerPortGlobal
  pub state : State
  pub last_state : State
  pub rcvd_signaling_msg1 : Bool
  pub rcvd_signaling_ptr : Option ℤ  -- int8_t

-- PORT_OPER && PTP_PORT_ENABLED && !useMgtSettableLogSyncInterval
abbrev pub is_enabled : PerPortGlobal → Bool
is_enabled ppg =
    ppg.for_all_domain.port_oper
    && ppg.ptp_port_enabled
    && not ppg.use_mgt_settable_log_sync_interval

unfoldable pub allstate_condition : SyncIntervalSetting → State
allstate_condition sm =
    if sm.ptasg.begin
      || not sm.ptasg.instance_enable
      || not sm.ppg.for_all_domain.port_oper
      || not sm.ppg.ptp_port_enabled
      || sm.ppg.use_mgt_settable_log_sync_interval
    then not_enabled
    else sm.state

-- The interval in use becomes 2 ^ log seconds.
abbrev pub use_interval : Config → ℤ → PerPortGlobal → PerPortGlobal
use_interval c log p = record p {
  current_log_sync_interval = log;
  sync_interval = log_to_nsec c log;
}

unfoldable pub not_enabled_proc : Config → SyncIntervalSetting → SyncIntervalSetting
not_enabled_proc c sm =
    if sm.ppg.use_mgt_settable_log_sync_interval
    then record sm { ppg = use_interval c sm.ppg.mgt_settable_log_sync_interval sm.ppg }
    else sm

unfoldable pub not_enabled_condition : SyncIntervalSetting → State
not_enabled_condition sm = if is_enabled sm.ppg then initialize else not_enabled

unfoldable pub initialize_proc : Config → SyncIntervalSetting → SyncIntervalSetting
initialize_proc c sm = record sm {
  ppg = use_interval c sm.ppg.initial_log_sync_interval sm.ppg;
  rcvd_signaling_msg1 = false;
}

unfoldable pub initialize_condition : SyncIntervalSetting → State
initialize_condition sm = if sm.rcvd_signaling_msg1 then set_interval else initialize

-- The `switch` on the requested value.
unfoldable pub requested : Config → ℤ → PerPortGlobal → PerPortGlobal
requested c (pos n) p =
    if n == 126 then use_interval c p.initial_log_sync_interval p else use_interval c (pos n) p
requested c (negsuc n) p = if n == 127 then p else use_interval c (negsuc n) p

-- `none` if rcvdSignalingPtr is null.
unfoldable pub set_interval_proc : Config → SyncIntervalSetting → Option SyncIntervalSetting
unfolding requested
set_interval_proc c sm = elim (sm.rcvd_signaling_ptr) [
  | none ↦ none
  | some value ↦ some (record sm { ppg = requested c value sm.ppg; rcvd_signaling_msg1 = false })
]

-- A request that waits makes the next round enter the state anew.
unfoldable pub set_interval_condition : SyncIntervalSetting → SyncIntervalSetting
set_interval_condition sm =
    record (if sm.rcvd_signaling_msg1 then record sm { last_state = reaction } else sm) {
      state = set_interval;
    }

abbrev goto : SyncIntervalSetting → State → Option SyncIntervalSetting
goto sm s = some (record sm { state = s })

abbrev pub after_set : Option SyncIntervalSetting → Option SyncIntervalSetting
after_set none = none
after_set (some sm) = some (set_interval_condition sm)

-- On entry to INITIALIZE the condition is not asked.
abbrev pub switch : Config → State → Bool → SyncIntervalSetting → Option SyncIntervalSetting
switch c init change sm = goto sm not_enabled
switch c not_enabled change sm =
    let sm' = if change then not_enabled_proc c sm else sm in goto sm' (not_enabled_condition sm')
switch c initialize change sm =
    if change then some (initialize_proc c sm) else goto sm (initialize_condition sm)
switch c set_interval change sm = after_set (if change then set_interval_proc c sm else some sm)
switch c reaction change sm = some sm

abbrev pub finish : Option SyncIntervalSetting → Round SyncIntervalSetting Unit
finish none = none
finish (some sm) = some (sm, none)

unfoldable pub round : Config → SyncIntervalSetting → Round SyncIntervalSetting Unit
unfolding not_enabled_proc not_enabled_condition initialize_proc initialize_condition
    set_interval_proc set_interval_condition
round c sm =
    finish
      (switch c sm.state (not (same sm.last_state sm.state)) (record sm { last_state = sm.state }))

abbrev pub settled : SyncIntervalSetting → Bool
settled sm = same sm.last_state sm.state

abbrev pub fuel : ℕ
fuel = 10

unfoldable pub sync_interval_setting_sm :
    Config → SyncIntervalSetting → Outcome SyncIntervalSetting Unit
unfolding allstate_condition
sync_interval_setting_sm c sm =
    loop settled (round c) fuel (record sm { state = allstate_condition sm })

-- sync_interval_setting_SignalingMsg1, for a request of `value`.
unfoldable pub signaling_msg1 : Config → ℤ → SyncIntervalSetting → Outcome SyncIntervalSetting Unit
unfolding sync_interval_setting_sm
signaling_msg1 c value sm =
    sync_interval_setting_sm c
      (record sm { rcvd_signaling_msg1 = true; rcvd_signaling_ptr = some value })
