-- ===== src/StateSelection/Result.antt =====
-- What updtStatesTree leaves beside the one slave: the grandmaster, the states of the other ports, and
-- what it returns.
use excelfore_gptp.Common.{
  ℕ, ◌<◌, ◌≤◌, ◌≡◌, refl, sym, ap, ◌∙◌, Bool, true, false, not, arith, inl, inr, Bool-cases,
  if◌then◌else◌, Option, none, some, ltb,
}
use mathlib.Core.Path.{subst}
use excelfore_gptp.Clock.{MasterClock, set_gmchange}
use excelfore_gptp.Types.{passive_port, slave_port, UInteger224, ClockIdentity}
use excelfore_gptp.Arrays.{set}
use excelfore_gptp.Config.{Config}
use excelfore_gptp.Priority.{memcmp_eq, octets}
use excelfore_gptp.Globals.{BmcsPerPortGlobal}
use excelfore_gptp.StateSelection.Data.{PortStateSelection}
use excelfore_gptp.StateSelection.Tree.{
  GmChoice, gm_changed, gm_root, master_vector, decide_state, select_gm, announce_gm,
  set_master_priorities, assign_states, set_gm_present, slave_port_avail, assign_port0,
  own_path_trace, updt_states_tree,
}
use excelfore_gptp.StateSelection.Best.{IsBest}
use excelfore_gptp.StateSelection.Assign.{IsAssigned, decision, assign_states-IsAssigned}
use excelfore_gptp.StateSelection.Slaves.{
  IsReady, chosen, system_choice, prepared, prepared_same, select_gm-IsBest, final_states,
}

port0_gm :
    (c : Config) (x : PortStateSelection)
    → chosen (own_path_trace (assign_port0 c (set_gm_present x))) ≡ chosen x
unfolding assign_port0 own_path_trace set_gm_present
port0_gm c x = ground arith

prepared_gm :
    (c : Config) (sm : PortStateSelection) → chosen (prepared c sm) ≡ chosen (select_gm c sm)
unfolding set_master_priorities announce_gm
prepared_gm c sm = ground arith

prepared_ports : (c : Config) (sm : PortStateSelection) → (prepared c sm).max_ports ≡ sm.max_ports
prepared_ports c sm = (prepared_same c sm).1

-- The vector of port i when its state is decided.
abbrev pub with_master : PortStateSelection → UInteger224 → ℕ → BmcsPerPortGlobal
with_master sm gm i = record (sm.bppgl i) {
  master_priority = master_vector gm sm.ptasg.this_clock (sm.ppgl i).this_port;
}

decision_prepared :
    (c : Config) (x : PortStateSelection) (i : ℕ)
    → i < x.max_ports
    → decision c (set_master_priorities x) i
      ≡ decide_state c.byte_order x.bptasg.gm_priority x.bptasg.gm_priority.steps_removed
          (x.ppgl i)
          (with_master x x.bptasg.gm_priority i)
unfolding set_master_priorities
decision_prepared c x i lt = let e : ltb i x.max_ports ≡ true = ground arith in rw e refl

announce_gm_same :
    (c : Config) (x : PortStateSelection)
    → (k : MasterClock) × (announce_gm c x ≡ record x { clock = k })
unfolding announce_gm
announce_gm_same c x = elim (Bool-cases (gm_changed c x)) [
  | inl changed ↦ (set_gmchange (gm_root x) x.clock, rw changed refl)
  | inr not_changed ↦ (x.clock, rw not_changed refl)
]

prepared_port :
    (c : Config) (sm : PortStateSelection) (i : ℕ)
    → i < sm.max_ports
    → decision c (prepared c sm) i
      ≡ decide_state c.byte_order
          (select_gm c sm).bptasg.gm_priority
          (select_gm c sm).bptasg.gm_priority.steps_removed
          (sm.ppgl i)
          (with_master sm (select_gm c sm).bptasg.gm_priority i)
unfolding select_gm
prepared_port c sm i lt =
    let (k, e) = announce_gm_same c (select_gm c sm) in
    ap (λ x. decision c (set_master_priorities x) i) e
    ∙ decision_prepared c (record (select_gm c sm) { clock = k }) i lt

module _ (c : Config) (sm : PortStateSelection) (some_port : 1 ≤ sm.max_ports) where
  assigned : IsAssigned c (prepared c sm) sm.max_ports (assign_states c (prepared c sm))
  assigned =
      let e = prepared_ports c sm in
      subst (λ (k : ℕ). IsAssigned c (prepared c sm) k (assign_states c (prepared c sm))) e
        (assign_states-IsAssigned c (prepared c sm) (subst (λ (k : ℕ). 1 ≤ k) (sym e) some_port))

  result_gm : chosen (updt_states_tree c sm).0 ≡ chosen (select_gm c sm)
  unfolding updt_states_tree
  result_gm =
      let a = assigned in
      port0_gm c (assign_states c (prepared c sm))
      ∙ (λ i. record { gm_priority = a.gm i; time_properties = a.time_properties i })
      ∙ prepared_gm c sm

  -- With at least one port: a port beside port 0 gets the state that its information decides, against
  -- the chosen grandmaster's vector and the masterPriority made of it.
  pub updt_states_tree_decides :
      (i : ℕ)
      → 1 ≤ i
      → i < sm.max_ports
      → let result = (updt_states_tree c sm).0 in
        let gm = result.bptasg.gm_priority in
        result.ptasg.selected_state i
        ≡ (decide_state c.byte_order gm gm.steps_removed (sm.ppgl i) (with_master sm gm i)).0
  updt_states_tree_decides i one lt =
      let same = ap (λ g. g.gm_priority) result_gm in
      final_states c sm i
      ∙ not_port0 i one
      ∙ assigned.decided i one lt
      ∙ ap (λ d. d.0) (prepared_port c sm i lt)
      ∙ ap
          (λ (gm : UInteger224).
            (decide_state c.byte_order gm gm.steps_removed (sm.ppgl i) (with_master sm gm i)).0)
          (sym same)
    where
      not_port0 :
          (j : ℕ)
          → 1 ≤ j
          → set
              (assign_states c (prepared c sm)).ptasg.selected_state
              0
              (if slave_port_avail (assign_states c (prepared c sm))
                then passive_port
                else slave_port)
              j
            ≡ (assign_states c (prepared c sm)).ptasg.selected_state j
      not_port0 j one = ground arith

  -- With at least one port: the function reports the root of the chosen vector exactly if the vector's
  -- bytes differ from those of the vector chosen before, and then it is the root of the new vector.
  pub updt_states_tree_reports :
      let (result, report) = updt_states_tree c sm in
      report ≡ (
        if memcmp_eq
          (octets c.byte_order sm.bptasg.gm_priority)
          (octets c.byte_order result.bptasg.gm_priority)
        then none
        else some (gm_root result))
  unfolding updt_states_tree select_gm
  updt_states_tree_reports =
      let same = ap (λ g. g.gm_priority) result_gm in
      if-not
        (memcmp_eq (octets c.byte_order sm.bptasg.gm_priority)
          (octets c.byte_order (select_gm c sm).bptasg.gm_priority))
        (some (gm_root (select_gm c sm))) none
      ∙ ap
          (λ (gm : UInteger224).
            if memcmp_eq (octets c.byte_order sm.bptasg.gm_priority) (octets c.byte_order gm)
            then none
            else some gm.root_system_identity.clock_identity)
          (sym same)
    where
      if-not :
          (b : Bool) (x y : Option ClockIdentity) → (if not b then x else y) ≡ (if b then y else x)
      if-not false x y = refl
      if-not true x y = refl

-- In a state that is ready, the vector chosen as the grandmaster's is the best one.
pub updt_states_tree-IsBest :
    (c : Config) (sm : PortStateSelection)
    → IsReady sm
    → IsBest c.byte_order sm.ptasg.this_clock sm.bppgl
        (system_choice sm)
        sm.max_ports
        (chosen (updt_states_tree c sm).0)
updt_states_tree-IsBest c sm h =
    subst
      (λ (g : GmChoice).
        IsBest c.byte_order sm.ptasg.this_clock sm.bppgl (system_choice sm) sm.max_ports g)
      (sym (result_gm c sm h.some_port)) (select_gm-IsBest c sm h)
