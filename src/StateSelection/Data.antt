-- ===== src/StateSelection/Data.antt =====
-- port_state_selection_sm.c: the data of the PortStateSelection machine, and the functions that do
-- not touch the priority vectors.
use excelfore_gptp.Common.{ℕ, Bool, true, false, ◌==◌}
use excelfore_gptp.Types.{max_port_number_limit, disabled_port}
use excelfore_gptp.Arrays.{set, copy}
use excelfore_gptp.Globals.{
  PerTimeAwareSystemGlobal, PerPortGlobal, BmcsPerTimeAwareSystemGlobal, BmcsPerPortGlobal,
}
use excelfore_gptp.Globals.Init.{filled_vector}
use excelfore_gptp.Clock.{MasterClock}

pub data State : Type 0 where
  init init_bridge state_selection reaction : State

abbrev pub code : State → ℕ
code init = 0
code init_bridge = 1
code state_selection = 2
code reaction = 3

abbrev pub same : State → State → Bool
same s t = code s == code t

-- port_state_selection_data. `ppgl` and `bppgl` hold the ports' globals; `system_identity_change` and
-- `asymmetry_measurement_mode_change` are thisSM's. `clock` is the master clock of the domain, and
-- `domain0_gm_stable` what gptpclock_get_gmstable(0) returns.
pub record PortStateSelection : Type 0 where
  pub ptasg : PerTimeAwareSystemGlobal
  pub ppgl : ℕ → PerPortGlobal
  pub bptasg : BmcsPerTimeAwareSystemGlobal
  pub bppgl : ℕ → BmcsPerPortGlobal
  pub state : State
  pub last_state : State
  pub system_identity_change : Bool
  pub asymmetry_measurement_mode_change : Bool
  pub domain_index : ℕ
  pub max_ports : ℕ
  pub init_slave_ts : ℕ  -- int64_t
  pub deferred_gmsync : Bool
  pub clock : MasterClock
  pub domain0_gm_stable : Bool

-- updateStateDisabledTree. Every byte of lastGmPriority becomes 1.
unfoldable pub update_state_disabled_tree : PortStateSelection → PortStateSelection
update_state_disabled_tree sm = record sm {
  ptasg = record (sm.ptasg) {
    selected_state = copy sm.ptasg.selected_state (λ _. disabled_port) max_port_number_limit;
  };
  bptasg = record (sm.bptasg) {
    last_gm_priority = filled_vector 1 257;
    path_trace = set sm.bptasg.path_trace 0 sm.ptasg.this_clock;
    path_trace_count = 1;
  };
}

-- clearReselectTree
unfoldable pub clear_reselect_tree : PortStateSelection → PortStateSelection
clear_reselect_tree sm = record sm {
  bptasg = record (sm.bptasg) {
    reselect = copy sm.bptasg.reselect (λ _. false) max_port_number_limit;
  };
}

-- setSelectedTree
unfoldable pub set_selected_tree : PortStateSelection → PortStateSelection
set_selected_tree sm = record sm {
  bptasg = record (sm.bptasg) {
    selected = copy sm.bptasg.selected (λ _. true) max_port_number_limit;
  };
}
