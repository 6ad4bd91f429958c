-- ===== src/Examples/Selection.antt =====
-- port_state_selection_sm.c at a bridge with three ports, of which port 1 has received a better vector.
use excelfore_gptp.Common.{ℕ, true, false, none, some, arith, ◌<◌, ◌≡◌, refl, if◌then◌else◌}
use excelfore_gptp.Types.{max_port_number_limit, slave_port}
use excelfore_gptp.Machine.{done, Returns}
use excelfore_gptp.Priority.{
  memcmp_eq, octets, octets_112, octets_port, uint16_octets, memcmp, compare_priority_vectors,
  has_port_priority,
}
use excelfore_gptp.StateSelection.Data.{state_selection, PortStateSelection}
use excelfore_gptp.StateSelection.Tree.{
  gm_root, updt_states_tree, select_gm, choose_gm, choose_step, gm_path_priority, announce_gm,
  set_master_priorities, assign_states, port_state_update, decide_state, take_path, set_gm_present,
  assign_port0, slave_port_avail, own_path_trace, update_last_gm_info,
}
use excelfore_gptp.Clock.{set_gmchange, set_gmsync, reset_gmsync}
use excelfore_gptp.Arrays.{for_range, exists_from}
use excelfore_gptp.StateSelection.Machine.{
  state_selection_proc, selection_due, port_state_selection_sm,
}
use excelfore_gptp.StateSelection.Best.{IsBest}
use excelfore_gptp.StateSelection.Slaves.{
  IsReady, updt_states_tree_one_slave, system_choice, chosen,
}
use excelfore_gptp.StateSelection.Result.{
  updt_states_tree_decides, updt_states_tree_reports, updt_states_tree-IsBest, with_master,
}
use excelfore_gptp.StateSelection.Run.{port_state_selection_sm-Returns, reselection_served}
use excelfore_gptp.Globals.Init.{bmcs_pp_glb_init}
use excelfore_gptp.Examples.Data.{
  sample_config, sample_system, sample_port, sample_bmcs_system, sample_bmcs_port, sample_clock,
}

abbrev bridge : PortStateSelection
bridge = record {
  ptasg = sample_system;
  ppgl = sample_port;
  bptasg = record sample_bmcs_system { reselect = λ _. true };
  bppgl = sample_bmcs_port;
  state = state_selection;
  last_state = state_selection;
  system_identity_change = false;
  asymmetry_measurement_mode_change = false;
  domain_index = 0;
  max_ports = 3;
  init_slave_ts = 0;
  deferred_gmsync = false;
  clock = sample_clock;
  domain0_gm_stable = false;
}

bridge-IsReady : IsReady bridge
unfolding has_port_priority
bridge-IsReady = record {
  some_port = omega arith;
  system = record { root_length = refl; source_length = refl };
  vectors = λ i. record { root_length = ground arith; source_length = ground arith };
  ports = λ i lt. record { numbered = refl; present = λ e. ground arith; arrived_here = λ e. refl };
}

one_slave_example :
    (i : ℕ) × (i < 3)
    × ((updt_states_tree sample_config bridge).0.ptasg.selected_state i ≡ slave_port)
    × ((j : ℕ)
        → j < 3
        → (updt_states_tree sample_config bridge).0.ptasg.selected_state j ≡ slave_port
        → j ≡ i)
one_slave_example = updt_states_tree_one_slave sample_config bridge bridge-IsReady

best_example :
    IsBest sample_config.byte_order bridge.ptasg.this_clock bridge.bppgl
      (system_choice bridge)
      3
      (chosen (updt_states_tree sample_config bridge).0)
best_example = updt_states_tree-IsBest sample_config bridge bridge-IsReady

decides_example :
    let result = (updt_states_tree sample_config bridge).0 in
    let gm = result.bptasg.gm_priority in
    result.ptasg.selected_state 1
    ≡ (decide_state sample_config.byte_order gm gm.steps_removed
        (bridge.ppgl 1)
        (with_master bridge gm 1)).0
decides_example =
    updt_states_tree_decides sample_config bridge (omega arith) 1 (omega arith) (omega arith)

reports_example :
    let (result, report) = updt_states_tree sample_config bridge in
    report ≡ (
      if memcmp_eq
        (octets sample_config.byte_order bridge.bptasg.gm_priority)
        (octets sample_config.byte_order result.bptasg.gm_priority)
      then none
      else some (gm_root result))
reports_example = updt_states_tree_reports sample_config bridge (omega arith)

selection-Returns_example : Returns (port_state_selection_sm sample_config 5 bridge)
selection-Returns_example = port_state_selection_sm-Returns sample_config 5 bridge

bridge_due : selection_due bridge ≡ true
unfolding selection_due exists_from
bridge_due = refl

reselection_example :
    let (x, report) = state_selection_proc sample_config 5 bridge in
    (port_state_selection_sm sample_config 5 bridge ≡ done x report)
    × (selection_due x ≡ false)
    × ((i : ℕ) → i < max_port_number_limit → x.bptasg.selected i ≡ true)
reselection_example = reselection_served sample_config 5 bridge refl refl refl refl refl bridge_due

-- The port with the better vector is the slave.
slave_test : (updt_states_tree sample_config bridge).0.ptasg.selected_state 1 ≡ slave_port
unfolding updt_states_tree select_gm choose_gm choose_step gm_path_priority announce_gm
    set_master_priorities assign_states port_state_update decide_state take_path set_gm_present
    assign_port0 slave_port_avail own_path_trace for_range exists_from has_port_priority
    compare_priority_vectors memcmp octets octets_112 octets_port uint16_octets update_last_gm_info
    set_gmchange set_gmsync reset_gmsync bmcs_pp_glb_init
slave_test = refl
