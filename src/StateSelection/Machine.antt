-- ===== src/StateSelection/Machine.antt =====
-- port_state_selection_sm.c: the actions and conditions of the PortStateSelection machine, and its
-- loop. What the function returns is the identity of the new grandmaster.
use excelfore_gptp.Common.{
  ℕ, ℤ, pos, negsuc, ◌+◌, ◌^◌, Bool, true, false, not, ◌&&◌, ◌||◌, Option, none, some, ltb, ◌==◌,
  if◌then◌else◌, u64, is_nonzero, is_nonneg, is_some,
}
use excelfore_gptp.Types.{
  ClockIdentity, max_port_number_limit, master_port, slave_port, value_disabled,
}
use excelfore_gptp.Arrays.{copy, exists_from}
use excelfore_gptp.Config.{Config, to_uint8, times_uint64}
use excelfore_gptp.Machine.{Outcome, Round, loop}
use excelfore_gptp.Clock.{get_gmsync, set_gmsync}
use excelfore_gptp.StateSelection.Data.{
  State, init, init_bridge, state_selection, reaction, same, PortStateSelection,
  update_state_disabled_tree, clear_reselect_tree, set_selected_tree,
}
use excelfore_gptp.StateSelection.Tree.{updt_states_tree}

-- `a < b` for two int64_t.
abbrev pub int64_lt : ℕ → ℕ → Bool
int64_lt a b = ltb (u64 (a + 2 ^ 63)) (u64 (b + 2 ^ 63))

-- SYSTEM_PRIORITY.rootSystemIdentity.priority1 = p
abbrev pub with_priority1 : ℕ → PortStateSelection → PortStateSelection
with_priority1 p sm = record sm {
  bptasg = record (sm.bptasg) {
    system_priority = record (sm.bptasg.system_priority) {
      root_system_identity = record (sm.bptasg.system_priority.root_system_identity) {
        priority1 = p;
      };
    };
  };
}

-- This system becomes the synchronised grandmaster, where port 0 is the slave.
abbrev pub become_gm : Config → PortStateSelection → PortStateSelection
become_gm c sm =
    if sm.ptasg.selected_state 0 == slave_port
    then record sm { clock = set_gmsync c sm.ptasg.domain_number sm.ptasg.this_clock sm.clock }
    else sm

-- The part of proc_init_slave behind the label clearexit.
unfoldable pub clear_exit : Config → PortStateSelection → PortStateSelection × Option ClockIdentity
clear_exit c sm = updt_states_tree c (
    with_priority1 (to_uint8 c.primary.priority1)
      (record sm { deferred_gmsync = false; init_slave_ts = 0 }))

-- proc_init_slave, of domain 0.
unfoldable pub proc_init_slave :
    Config → ℕ → PortStateSelection → PortStateSelection × Option ClockIdentity
proc_init_slave c cts64 sm =
    if not (sm.ptasg.selected_state 0 == slave_port)
      && get_gmsync sm.clock
      && sm.ptasg.gm_stable_initdone
    then clear_exit c sm
    else if int64_lt sm.init_slave_ts cts64
    then clear_exit c (become_gm c sm)
    else (sm, none)

-- proc_deferred_gmsync
unfoldable pub proc_deferred_gmsync :
    Config → ℕ → PortStateSelection → PortStateSelection × Option ClockIdentity
unfolding proc_init_slave
proc_deferred_gmsync c cts64 sm =
    if not (sm.init_slave_ts == 0)
    then proc_init_slave c cts64 sm
    else if sm.domain_index == 0
    then (sm, none)
    else if sm.domain0_gm_stable
    then (record (become_gm c sm) { deferred_gmsync = false }, none)
    else (sm, none)

unfoldable pub allstate_condition : PortStateSelection → State
allstate_condition sm =
    if (sm.ptasg.begin || not sm.ptasg.instance_enable)
      && sm.bptasg.external_port_configuration == value_disabled
    then init_bridge
    else sm.state

-- With a configured slave port the states of all ports are fixed.
abbrev static_states : Config → ℕ → PortStateSelection → PortStateSelection
static_states c slave sm =
    let fixed = record sm {
      ptasg = record (sm.ptasg) {
        selected_state =
            copy sm.ptasg.selected_state (λ i. if i == slave then slave_port else master_port)
              max_port_number_limit;
        gm_present = true;
      };
    } in
    if slave == 0
    then record fixed { clock = set_gmsync c sm.ptasg.domain_number sm.ptasg.this_clock sm.clock }
    else fixed

abbrev init_bridge_as : Config → ℤ → PortStateSelection → PortStateSelection
init_bridge_as c (pos slave) sm = static_states c slave sm
init_bridge_as c (negsuc _) sm = update_state_disabled_tree sm

unfoldable pub init_bridge_proc : Config → PortStateSelection → PortStateSelection
init_bridge_proc c sm = init_bridge_as c c.static_port_state_slave_port sm

unfoldable pub init_bridge_condition : Config → State
init_bridge_condition c =
    if is_nonneg c.static_port_state_slave_port then init_bridge else state_selection

-- Domain 0 begins as a slave of whatever grandmaster there is, for the configured time.
abbrev pub begin_as_slave : Config → ℕ → PortStateSelection → PortStateSelection
begin_as_slave c cts64 sm =
    if sm.domain_index == 0 && is_nonzero c.initial_slave_time && not sm.ptasg.gm_stable_initdone
    then record (with_priority1 254 sm) {
      init_slave_ts = u64 (cts64 + times_uint64 c.initial_slave_time c.ub_sec_ns);
      deferred_gmsync = true;
    }
    else sm

abbrev pub defer_other_domain : PortStateSelection → PortStateSelection
defer_other_domain sm =
    if not (sm.domain_index == 0) && not sm.ptasg.gm_stable_initdone
    then record sm { deferred_gmsync = true }
    else sm

unfoldable pub state_selection_proc :
    Config → ℕ → PortStateSelection → PortStateSelection × Option ClockIdentity
unfolding clear_reselect_tree set_selected_tree
state_selection_proc c cts64 sm =
    let cleared =
      clear_reselect_tree
        (record sm { system_identity_change = false; asymmetry_measurement_mode_change = false }) in
    let (sm', rval) = updt_states_tree c (defer_other_domain (begin_as_slave c cts64 cleared)) in
    (set_selected_tree sm', rval)

-- RESELECT of some port, or another reason to select again.
unfoldable pub selection_due : PortStateSelection → Bool
selection_due sm =
    exists_from (λ b. b) sm.bptasg.reselect max_port_number_limit 0
    || sm.system_identity_change
    || sm.asymmetry_measurement_mode_change

-- state_selection_condition, with its write of last_state.
unfoldable pub state_selection_condition : PortStateSelection → PortStateSelection
state_selection_condition sm =
    if selection_due sm then record sm { state = state_selection; last_state = reaction } else sm

-- The case STATE_SELECTION: a result of proc_deferred_gmsync leaves the switch at once.
abbrev pub select_ports :
    Config → ℕ → Bool → PortStateSelection → PortStateSelection × Option ClockIdentity
select_ports c cts64 change sm =
    let (sm', retp) = if change then state_selection_proc c cts64 sm else (sm, none) in
    (state_selection_condition sm', retp)

abbrev pub case_state_selection :
    Config → ℕ → Bool → PortStateSelection → PortStateSelection × Option ClockIdentity
case_state_selection c cts64 change sm =
    let (sm', retp) = if sm.deferred_gmsync then proc_deferred_gmsync c cts64 sm else (sm, none) in
    if is_some retp then (sm', retp) else select_ports c cts64 change sm'

abbrev pub switch :
    Config → ℕ → State → Bool → PortStateSelection → PortStateSelection × Option ClockIdentity
switch c cts64 init change sm = (record sm { state = init_bridge }, none)
switch c cts64 init_bridge change sm = (
  record (if change then init_bridge_proc c sm else sm) { state = init_bridge_condition c },
  none,
)
switch c cts64 state_selection change sm = case_state_selection c cts64 change sm
switch c cts64 reaction change sm = (sm, none)

unfoldable pub round : Config → ℕ → PortStateSelection → Round PortStateSelection ClockIdentity
unfolding proc_deferred_gmsync init_bridge_proc init_bridge_condition state_selection_proc
    state_selection_condition clear_exit
round c cts64 sm = some (
    switch c cts64 sm.state (not (same sm.last_state sm.state))
      (record sm { last_state = sm.state }))

abbrev pub settled : PortStateSelection → Bool
settled sm = same sm.last_state sm.state

abbrev pub fuel : ℕ
fuel = 10

-- port_state_selection_sm
unfoldable pub port_state_selection_sm :
    Config → ℕ → PortStateSelection → Outcome PortStateSelection ClockIdentity
unfolding allstate_condition
port_state_selection_sm c cts64 sm =
    loop settled (round c cts64) fuel (record sm { state = allstate_condition sm })
