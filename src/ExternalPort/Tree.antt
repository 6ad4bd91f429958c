-- ===== src/ExternalPort/Tree.antt =====
-- port_state_setting_ext_sm.c: resetStateDisabledTree and updtPortState.
use excelfore_gptp.Common.{
  ℕ, zero, suc, ◌+◌, ◌-◌, Bool, true, false, not, Option, none, some, ltb, ◌==◌, if◌then◌else◌,
  is_some,
}
use excelfore_gptp.Types.{
  ClockIdentity, UInteger224, disabled_port, passive_port, slave_port, max_path_trace_n,
}
use excelfore_gptp.Arrays.{set, copy}
use excelfore_gptp.Globals.{
  PerTimeAwareSystemGlobal, PerPortGlobal, BmcsPerTimeAwareSystemGlobal, BmcsPerPortGlobal,
}
use excelfore_gptp.Globals.Init.{zero_identity}

pub data State : Type 0 where
  init initialize state_setting reaction : State

-- port_state_setting_ext_data, with the members of thisSM; `mode_change` is
-- forAllDomain->asymmetryMeasurementModeChangeThisPort.
pub record PortStateSettingExt : Type 0 where
  pub ptasg : PerTimeAwareSystemGlobal
  pub ppgl : ℕ → PerPortGlobal
  pub bptasg : BmcsPerTimeAwareSystemGlobal
  pub bppgl : ℕ → BmcsPerPortGlobal
  pub state : State
  pub last_state : State
  pub disabled_ext : Bool
  pub rcvd_port_state_ind : Bool
  pub port_state_ind : ℕ  -- Enumeration2
  pub mode_change : Bool
  pub port_index : ℕ
  pub max_ports : ℕ
  pub message_priority : UInteger224

-- The loops that look for a slave port among `k` ports from `i` on.
unfoldable pub slave_from : (ℕ → ℕ) → ℕ → ℕ → Option ℕ
slave_from selected zero i = none
slave_from selected (suc k) i =
    let rest = slave_from selected k (i + 1) in if selected i == slave_port then some i else rest

-- The path trace of this clock alone.
unfoldable pub own_trace : ClockIdentity → (ℕ → ClockIdentity) → ℕ → ClockIdentity
own_trace this_clock trace = set (copy trace (λ _. zero_identity) max_path_trace_n) 0 this_clock

-- The path trace if no port is a slave port.
abbrev pub without_slave : Bool → PortStateSettingExt → PortStateSettingExt
without_slave avail sm = record sm {
  bptasg = record (sm.bptasg) {
    path_trace =
        if avail then sm.bptasg.path_trace else own_trace sm.ptasg.this_clock sm.bptasg.path_trace;
  };
}

-- SELECTED_STATE[i] = s
abbrev pub select : ℕ → ℕ → PortStateSettingExt → PortStateSettingExt
select i s sm = record sm {
  ptasg = record (sm.ptasg) { selected_state = set sm.ptasg.selected_state i s };
}

unfoldable pub reset_state_disabled_tree : PortStateSettingExt → PortStateSettingExt
unfolding slave_from own_trace
reset_state_disabled_tree sm =
    let x = select sm.port_index disabled_port sm in
    without_slave (is_some (slave_from x.ptasg.selected_state sm.max_ports 0)) x

-- gmPresent and gmIdentity, from the priority1 that is looked at and the identity that is used.
abbrev pub note_gm : ℕ → ClockIdentity → PerTimeAwareSystemGlobal → PerTimeAwareSystemGlobal
note_gm priority1 id g =
    if ltb priority1 255
    then record g { gm_present = true; gm_identity = id }
    else record g { gm_present = false }

-- The first part of updtPortState: the information of a slave port or of the system.
unfoldable pub use_information : Option ℕ → PortStateSettingExt → PortStateSettingExt
use_information (some slave_index) sm =
    let p = sm.bppgl sm.port_index in
    record sm {
      bptasg = record (sm.bptasg) {
        time_properties = p.ann_time_properties;
        master_steps_removed = (sm.bppgl slave_index).port_steps_removed;
      };
      ptasg =
          note_gm sm.message_priority.root_system_identity.priority1
            p.master_priority.root_system_identity.clock_identity sm.ptasg;
    }
use_information none sm = record sm {
  bptasg = record (sm.bptasg) {
    gm_priority = sm.bptasg.system_priority;
    time_properties = sm.bptasg.sys_time_properties;
    master_steps_removed = 0;
  };
  ptasg =
      note_gm sm.bptasg.system_priority.root_system_identity.priority1
        sm.bptasg.system_priority.root_system_identity.clock_identity sm.ptasg;
}

-- The state that the port gets.
unfoldable pub assigned_state : PortStateSettingExt → ℕ
assigned_state sm =
    if sm.disabled_ext
    then disabled_port
    else if (sm.ppgl sm.port_index).for_all_domain.asymmetry_measurement_mode
    then passive_port
    else sm.port_state_ind

-- The state of port 0, for the state that the port has got.
abbrev pub assign_port0_ext : Bool → PortStateSettingExt → PortStateSettingExt
assign_port0_ext avail sm =
    if sm.ptasg.selected_state sm.port_index == slave_port
    then select 0 passive_port sm
    else if avail
    then sm
    else select 0 slave_port sm

-- gmPriority, for the states that the port and port 0 have got.
unfoldable pub choose_gm_priority : Bool → PortStateSettingExt → UInteger224
choose_gm_priority avail sm =
    if not avail
    then sm.bptasg.system_priority
    else if sm.ptasg.selected_state sm.port_index == slave_port
    then sm.message_priority
    else sm.bptasg.gm_priority

-- The masterPriority vector of the port, from gmPriority.
unfoldable pub set_master_priority : PortStateSettingExt → PortStateSettingExt
set_master_priority sm =
    let this_port = (sm.ppgl sm.port_index).this_port in
    record sm {
      bppgl = set sm.bppgl sm.port_index (record (sm.bppgl sm.port_index) {
        master_priority = record (sm.bptasg.gm_priority) {
          source_port_identity = record {
            clock_identity = sm.ptasg.this_clock;
            port_number = this_port;
          };
          port_number = this_port;
        };
      });
    }

-- updtPortState, for the slave port found before.
abbrev pub update_for : Option ℕ → PortStateSettingExt → PortStateSettingExt
update_for found sm =
    let avail = is_some found in
    let x = use_information found sm in
    let y = assign_port0_ext avail (select sm.port_index (assigned_state x) x) in
    let z = record y { bptasg = record (y.bptasg) { gm_priority = choose_gm_priority avail y } } in
    without_slave avail (set_master_priority z)

unfoldable pub updt_port_state : PortStateSettingExt → PortStateSettingExt
unfolding slave_from own_trace use_information assigned_state choose_gm_priority set_master_priority
updt_port_state sm = update_for (slave_from sm.ptasg.selected_state (sm.max_ports - 1) 1) sm
