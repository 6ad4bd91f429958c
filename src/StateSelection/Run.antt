-- ===== src/StateSelection/Run.antt =====
-- port_state_selection_sm returns for every state.
use excelfore_gptp.Common.{
  ℕ, ◌-◌, ◌<◌, ◌≡◌, refl, sym, ap, ◌∙◌, Bool, true, false, not, arith, ◌||◌, if◌then◌else◌, none,
  some, is_some,
}
use excelfore_gptp.Types.{max_port_number_limit}
use excelfore_gptp.Arrays.{copy, exists_from, exists_from-copy, for_range_rule}
use excelfore_gptp.Machine.{done, loop, Returns, Keeps, loop_rule, loop-next, loop-stop}
use mathlib.Core.Path.{subst}
use excelfore_gptp.Config.{Config}
use excelfore_gptp.StateSelection.Data.{
  State, init, init_bridge, state_selection, reaction, same, PortStateSelection,
  clear_reselect_tree, update_state_disabled_tree, set_selected_tree,
}
use excelfore_gptp.StateSelection.Tree.{
  port_state_update, take_path, select_gm, announce_gm, set_master_priorities, assign_states,
  set_gm_present, assign_port0, own_path_trace, updt_states_tree,
}
use excelfore_gptp.StateSelection.Machine.{
  clear_exit, become_gm, proc_init_slave, proc_deferred_gmsync, state_selection_proc, selection_due,
  state_selection_condition, switch, select_ports, case_state_selection, init_bridge_proc,
  init_bridge_condition, round, settled, fuel, allstate_condition, port_state_selection_sm,
}
use excelfore_gptp.StateSelection.Assign.{control}

-- What the conditions read.
abbrev flags : PortStateSelection → ((State × State) × (Bool × Bool)) × (ℕ → Bool)
flags sm = (control sm, sm.bptasg.reselect)

update_flags :
    (c : Config) (i : ℕ) (sm : PortStateSelection) → flags (port_state_update c i sm) ≡ flags sm
unfolding port_state_update take_path
update_flags c i sm = ground arith

assign_flags : (c : Config) (sm : PortStateSelection) → flags (assign_states c sm) ≡ flags sm
unfolding assign_states
assign_flags c sm =
    for_range_rule (port_state_update c) (λ _ x. flags x ≡ flags sm)
      (λ j x e. update_flags c j x ∙ e) (sm.max_ports - 1) 1 sm refl

prepare_flags :
    (c : Config) (sm : PortStateSelection)
    → flags (set_master_priorities (announce_gm c (select_gm c sm))) ≡ flags sm
unfolding set_master_priorities announce_gm select_gm
prepare_flags c sm = ground arith

port0_flags :
    (c : Config) (sm : PortStateSelection)
    → flags (own_path_trace (assign_port0 c (set_gm_present sm))) ≡ flags sm
unfolding own_path_trace assign_port0 set_gm_present
port0_flags c sm = ground arith

-- The choice of the states leaves the machine's own state and the requests alone.
tree_flags : (c : Config) (sm : PortStateSelection) → flags (updt_states_tree c sm).0 ≡ flags sm
unfolding updt_states_tree
tree_flags c sm = port0_flags c _ ∙ assign_flags c _ ∙ prepare_flags c sm

cleared_requests :
    (r : ℕ → Bool)
    → exists_from (λ b. b) (copy r (λ _. false) max_port_number_limit) max_port_number_limit 0
      ≡ false
cleared_requests r =
    exists_from-copy (λ b. b) r false max_port_number_limit max_port_number_limit 0 refl
      (omega arith)

proc_flags :
    (c : Config) (cts64 : ℕ) (sm : PortStateSelection)
    → flags (state_selection_proc c cts64 sm).0 ≡ (
      ((sm.state, sm.last_state), (false, false)),
      copy sm.bptasg.reselect (λ _. false) max_port_number_limit,
    )
unfolding state_selection_proc clear_reselect_tree set_selected_tree
proc_flags c cts64 sm = tree_flags c _ ∙ ground arith

not_due :
    (sm : PortStateSelection) (r : ℕ → Bool) (s t : State)
    → flags sm ≡ (((s, t), (false, false)), copy r (λ _. false) max_port_number_limit)
    → selection_due sm ≡ false
unfolding selection_due
not_due sm r s t e = ground (arith, cleared_requests r)

-- The rounds from a state on, at most.
abbrev rank_of : State → Bool → ℕ
rank_of init change = 4
rank_of init_bridge change = 3
rank_of state_selection true = 1
rank_of state_selection false = 2
rank_of reaction change = 0

abbrev rank : PortStateSelection → ℕ
rank sm = rank_of sm.state (not (same sm.last_state sm.state))

abbrev Always : PortStateSelection → Type 0
Always _ = Unit

-- A selection serves the requests: the state is left as it is.
select_ports-rests :
    (c : Config) (cts64 : ℕ) (sm : PortStateSelection)
    → sm.state ≡ state_selection
    → sm.last_state ≡ state_selection
    → let x = (state_selection_proc c cts64 sm).0 in
      (state_selection_condition x ≡ x)
      × (x.state ≡ state_selection)
      × (x.last_state ≡ state_selection)
      × (selection_due x ≡ false)
unfolding state_selection_condition
select_ports-rests c cts64 sm e l =
    let f = proc_flags c cts64 sm in
    let none_due = not_due _ _ _ _ f in
    (rw none_due refl, ap (λ x. x.0.0.0) f ∙ e, ap (λ x. x.0.0.1) f ∙ l, none_due)

clear_flags : (c : Config) (sm : PortStateSelection) → flags (clear_exit c sm).0 ≡ flags sm
unfolding clear_exit
clear_flags c sm = tree_flags c _

become_flags : (c : Config) (sm : PortStateSelection) → flags (become_gm c sm) ≡ flags sm
become_flags c sm = ground arith

slave_flags :
    (c : Config) (cts64 : ℕ) (sm : PortStateSelection)
    → flags (proc_init_slave c cts64 sm).0 ≡ flags sm
unfolding proc_init_slave
slave_flags c cts64 sm =
    ground (arith, clear_flags c sm, clear_flags c (become_gm c sm) ∙ become_flags c sm)

deferred_flags :
    (c : Config) (cts64 : ℕ) (sm : PortStateSelection)
    → flags (proc_deferred_gmsync c cts64 sm).0 ≡ flags sm
unfolding proc_deferred_gmsync
deferred_flags c cts64 sm = ground (arith, slave_flags c cts64 sm, become_flags c sm)

bridge_last :
    (c : Config) (sm : PortStateSelection) → (init_bridge_proc c sm).last_state ≡ sm.last_state
unfolding init_bridge_proc update_state_disabled_tree
bridge_last c sm = ground arith

settled_as :
    (x : PortStateSelection)
    → x.state ≡ state_selection
    → x.last_state ≡ state_selection
    → settled x ≡ true
settled_as x e l = ground arith

selection-Keeps :
    (c : Config) (cts64 : ℕ) (change : Bool) (x : PortStateSelection)
    → x.state ≡ state_selection
    → x.last_state ≡ state_selection
    → settled (select_ports c cts64 change x).0 ≡ false
    → rank (select_ports c cts64 change x).0 < rank_of state_selection change
unfolding state_selection_condition
selection-Keeps c cts64 true x e l h =
    let (rests, state, last, _) = select_ports-rests c cts64 x e l in
    let e' : settled (select_ports c cts64 true x).0 ≡ true =
      ap settled rests ∙ settled_as (state_selection_proc c cts64 x).0 state last in
    absurd (ground arith)
selection-Keeps c cts64 false x e l h = ground arith

switch-Keeps :
    (c : Config) (cts64 : ℕ) (s : State) (change : Bool) (x : PortStateSelection)
    → x.state ≡ s
    → x.last_state ≡ s
    → let (x', retp) = switch c cts64 s change x in
      (is_some retp || settled x') ≡ false → rank x' < rank_of s change
unfolding init_bridge_condition
switch-Keeps c cts64 init change x e l h = ground arith
switch-Keeps c cts64 init_bridge change x e l h = ground (arith, bridge_last c x)
switch-Keeps c cts64 state_selection change x e l h = ground (
  arith,
  deferred_flags c cts64 x,
  selection-Keeps c cts64 change x e l,
  selection-Keeps c cts64 change (proc_deferred_gmsync c cts64 x).0,
)
switch-Keeps c cts64 reaction change x e l h = ground arith

round-Keeps :
    (c : Config) (cts64 : ℕ) (sm : PortStateSelection)
    → Keeps settled (round c cts64) Always rank sm (round c cts64 sm)
unfolding round
round-Keeps c cts64 sm = (
  tt,
  switch-Keeps c cts64 sm.state (not (same sm.last_state sm.state))
      (record sm { last_state = sm.state }) refl refl,
)

-- A call returns for every state and every configuration: ten rounds are enough.
pub port_state_selection_sm-Returns :
    (c : Config) (cts64 : ℕ) (sm : PortStateSelection)
    → Returns (port_state_selection_sm c cts64 sm)
unfolding port_state_selection_sm
port_state_selection_sm-Returns c cts64 sm =
    let (x, r, e, _) =
      loop_rule settled (round c cts64) Always rank (λ y _. round-Keeps c cts64 y) fuel
        (record sm { state = allstate_condition sm }) tt
        (rank_bound (record sm { state = allstate_condition sm })) in
    (x, r, e)
  where
    rank_bound : (y : PortStateSelection) → rank y < fuel
    rank_bound y = bound_of y.state (not (same y.last_state y.state))
      where
        bound_of : (s : State) (b : Bool) → rank_of s b < fuel
        bound_of init b = omega arith
        bound_of init_bridge b = omega arith
        bound_of state_selection true = omega arith
        bound_of state_selection false = omega arith
        bound_of reaction b = omega arith

abbrev at_selection : PortStateSelection → State → PortStateSelection
at_selection sm last = record sm { state = state_selection; last_state = last }

case_now :
    (c : Config) (cts64 : ℕ) (change : Bool) (x : PortStateSelection)
    → x.deferred_gmsync ≡ false
    → case_state_selection c cts64 change x ≡ select_ports c cts64 change x
case_now c cts64 change x d =
    ap
      (λ (b : Bool).
        let (x', retp) = if b then proc_deferred_gmsync c cts64 x else (x, none) in
        if is_some retp then (x', retp) else select_ports c cts64 change x')
      d

asks :
    (sm : PortStateSelection)
    → selection_due sm ≡ true
    → state_selection_condition sm ≡ at_selection sm reaction
unfolding state_selection_condition
asks sm due = ap (λ (b : Bool). if b then at_selection sm reaction else sm) due

round_asks :
    (c : Config) (cts64 : ℕ) (sm : PortStateSelection)
    → sm.deferred_gmsync ≡ false
    → selection_due (at_selection sm state_selection) ≡ true
    → round c cts64 (at_selection sm state_selection) ≡ some (at_selection sm reaction, none)
unfolding round
round_asks c cts64 sm d due =
    let x0 = at_selection sm state_selection in
    ap some (case_now c cts64 false x0 d ∙ (λ j. (asks x0 due j, none)))

round_serves :
    (c : Config) (cts64 : ℕ) (sm : PortStateSelection)
    → sm.deferred_gmsync ≡ false
    → round c cts64 (at_selection sm reaction)
      ≡ some (state_selection_proc c cts64 (at_selection sm state_selection))
unfolding round
round_serves c cts64 sm d =
    let x0 = at_selection sm state_selection in
    let rests = (select_ports-rests c cts64 x0 refl refl).0 in
    ap some (case_now c cts64 true x0 d ∙ (λ j. (rests j, (state_selection_proc c cts64 x0).1)))

stays :
    (sm : PortStateSelection)
    → sm.ptasg.begin ≡ false
    → sm.ptasg.instance_enable ≡ true
    → allstate_condition sm ≡ sm.state
unfolding allstate_condition
stays sm b i = ground arith

all_selected :
    (c : Config) (cts64 : ℕ) (sm : PortStateSelection) (i : ℕ)
    → i < max_port_number_limit
    → (state_selection_proc c cts64 sm).0.bptasg.selected i ≡ true
unfolding state_selection_proc set_selected_tree
all_selected c cts64 sm i lt = ground arith

abbrev Served : Config → ℕ → PortStateSelection → Type 0
Served c cts64 sm =
    let (x, report) = state_selection_proc c cts64 sm in
    (port_state_selection_sm c cts64 sm ≡ done x report)
    × (selection_due x ≡ false)
    × ((i : ℕ) → i < max_port_number_limit → x.bptasg.selected i ≡ true)

serves_request :
    (c : Config) (cts64 : ℕ) (sm : PortStateSelection)
    → sm.ptasg.begin ≡ false
    → sm.ptasg.instance_enable ≡ true
    → sm.deferred_gmsync ≡ false
    → selection_due (at_selection sm state_selection) ≡ true
    → Served c cts64 (at_selection sm state_selection)
unfolding port_state_selection_sm
serves_request c cts64 sm b i d due =
    let x0 = at_selection sm state_selection in
    let (_, state, last, none_due) = select_ports-rests c cts64 x0 refl refl in
    let proc = state_selection_proc c cts64 x0 in
    (
      (ap (λ s. loop settled (round c cts64) fuel (record x0 { state = s })) (stays x0 b i)
          ∙ loop-next settled (round c cts64) 9 x0 (at_selection sm reaction) none
              (round_asks c cts64 sm d due) refl
          ∙ loop-stop settled (round c cts64) 8 (at_selection sm reaction) proc.0 proc.1
              (round_serves c cts64 sm d) (ground (arith, settled_as proc.0 state last))),
      none_due,
      all_selected c cts64 x0,
    )

-- A machine that waits in STATE_SELECTION, in an enabled instance and with no deferred
-- synchronisation, serves a request within the call that finds it: the function leaves what
-- state_selection_proc gives, with its report, no request is pending in it and every port is selected.
pub reselection_served :
    (c : Config) (cts64 : ℕ) (sm : PortStateSelection)
    → sm.state ≡ state_selection
    → sm.last_state ≡ state_selection
    → sm.ptasg.begin ≡ false
    → sm.ptasg.instance_enable ≡ true
    → sm.deferred_gmsync ≡ false
    → selection_due sm ≡ true
    → let (x, report) = state_selection_proc c cts64 sm in
      (port_state_selection_sm c cts64 sm ≡ done x report)
      × (selection_due x ≡ false)
      × ((i : ℕ) → i < max_port_number_limit → x.bptasg.selected i ≡ true)
reselection_served c cts64 sm e l b i d due =
    let p : sm ≡ at_selection sm state_selection =
      λ j. record sm { state = e j; last_state = l j } in
    subst (λ x. Served c cts64 x) (sym p)
      (serves_request c cts64 sm b i d (ap selection_due (sym p) ∙ due))
