-- ===== src/ExternalPort/Setting.antt =====
-- port_state_setting_ext_sm.c: the PortStateSettingExt machine.
use excelfore_gptp.Common.{ℕ, Bool, false, not, ◌&&◌, ◌||◌, none, some, ◌==◌, if◌then◌else◌}
use excelfore_gptp.Types.{UInteger224, value_enabled}
use excelfore_gptp.Machine.{Outcome, Round, loop}
use excelfore_gptp.ExternalPort.Tree.{
  State, init, initialize, state_setting, reaction, PortStateSettingExt, reset_state_disabled_tree,
  updt_port_state,
}

abbrev pub code : State → ℕ
code init = 0
code initialize = 1
code state_setting = 2
code reaction = 3

abbrev pub same : State → State → Bool
same s t = code s == code t

unfoldable pub allstate_condition : PortStateSettingExt → State
allstate_condition sm =
    if (sm.ptasg.begin || not sm.ptasg.instance_enable)
      && sm.bptasg.external_port_configuration == value_enabled
    then initialize
    else sm.state

unfoldable pub initialize_condition : PortStateSettingExt → State
initialize_condition sm =
    if sm.rcvd_port_state_ind || sm.mode_change then state_setting else initialize

unfoldable pub state_setting_proc : PortStateSettingExt → PortStateSettingExt
state_setting_proc sm = record (updt_port_state sm) {
  mode_change = false;
  rcvd_port_state_ind = false;
}

unfoldable pub state_setting_condition : PortStateSettingExt → PortStateSettingExt
state_setting_condition sm =
    record (if sm.rcvd_port_state_ind || sm.disabled_ext || sm.mode_change
      then record sm { last_state = reaction }
      else sm) { state = state_setting }

abbrev pub switch : State → Bool → PortStateSettingExt → PortStateSettingExt
switch init change sm = record sm { state = initialize }
switch initialize change sm =
    let sm' = if change then reset_state_disabled_tree sm else sm in
    record sm' { state = initialize_condition sm' }
switch state_setting change sm =
    state_setting_condition (if change then state_setting_proc sm else sm)
switch reaction change sm = sm

unfoldable pub round : PortStateSettingExt → Round PortStateSettingExt Unit
unfolding initialize_condition state_setting_proc state_setting_condition
round sm = some (
  switch sm.state (not (same sm.last_state sm.state)) (record sm { last_state = sm.state }),
  none,
)

abbrev pub settled : PortStateSettingExt → Bool
settled sm = same sm.last_state sm.state

abbrev pub fuel : ℕ
fuel = 10

-- port_state_setting_ext_sm, with any number of rounds and with ten.
unfoldable pub rounds : ℕ → PortStateSettingExt → Outcome PortStateSettingExt Unit
unfolding allstate_condition
rounds n sm = loop settled round n (record sm { state = allstate_condition sm })

unfoldable pub port_state_setting_ext_sm : PortStateSettingExt → Outcome PortStateSettingExt Unit
unfolding rounds
port_state_setting_ext_sm sm = rounds fuel sm

-- port_state_setting_ext_sm_messagePriority
unfoldable pub set_message_priority : UInteger224 → PortStateSettingExt → PortStateSettingExt
set_message_priority v sm = record sm { message_priority = v }
