-- ===== src/StateSelection/Slaves.antt =====
-- The states that updtStatesTree leaves: one port is the slave.
use excelfore_gptp.Common.{
  ℕ, ◌+◌, ◌-◌, ◌<◌, ◌≤◌, ◌≡◌, refl, sym, ap, ◌∙◌, Bool, true, not, arith, inl, inr, ◌==◌,
  Bool-cases, ◌&&◌, if◌then◌else◌,
}
use native.Mathlib.Decide.{dec_lt}
use excelfore_gptp.Types.{UInteger224, received, slave_port, passive_port}
use excelfore_gptp.Arrays.{set, exists_from_none, exists_from_found}
use excelfore_gptp.Priority.{
  ByteOrder, memcmp_eq, octets, has_port_priority, compare_priority_vectors, same_priority,
}
use excelfore_gptp.Priority.Order.{IsVector, compare_priority_vectors-same_iff}
use excelfore_gptp.Config.{Config}
use excelfore_gptp.Globals.{PerPortGlobal, BmcsPerPortGlobal}
use excelfore_gptp.StateSelection.Data.{PortStateSelection}
use excelfore_gptp.StateSelection.Best.{IsBest, choose_gm-IsBest}
use excelfore_gptp.StateSelection.Tree.{
  GmChoice, update_last_gm_info, is_aged, gm_path_priority, decide_state, select_gm, announce_gm,
  set_master_priorities, assign_states, set_gm_present, slave_port_avail, assign_port0,
  own_path_trace, updt_states_tree,
}
use excelfore_gptp.StateSelection.Assign.{assign_states-IsAssigned}

-- What the PortAnnounceInformation machines keep of port i: a port with received information has a
-- vector, and the vector's portNumber is the port's own.
pub record IsPort (i : ℕ) (ppg : PerPortGlobal) (p : BmcsPerPortGlobal) : Type 0 where
  pub numbered : ppg.this_port ≡ i
  pub present : p.info_is ≡ received → has_port_priority p.port_priority ≡ true
  pub arrived_here : p.info_is ≡ received → p.port_priority.port_number ≡ ppg.this_port

-- The state that stands before the ports' states are assigned.
abbrev pub prepared : Config → PortStateSelection → PortStateSelection
prepared c sm = set_master_priorities (announce_gm c (select_gm c sm))

slave_matches :
    (o : ByteOrder) (gm : UInteger224) (n : ℕ) (ppg : PerPortGlobal) (p : BmcsPerPortGlobal)
    → (decide_state o gm n ppg p).0 ≡ slave_port
    → (p.info_is ≡ received) × (memcmp_eq (octets o gm) (octets o (gm_path_priority p)) ≡ true)
unfolding decide_state
slave_matches o gm n ppg p h = ground arith

same_of_memcmp_eq :
    (o : ByteOrder) (a b : UInteger224)
    → memcmp_eq (octets o a) (octets o b) ≡ true
    → compare_priority_vectors o a b ≡ same_priority
unfolding compare_priority_vectors
same_of_memcmp_eq o a b h = ground arith

pub IsVector-gm_path_priority :
    (p : BmcsPerPortGlobal) → IsVector p.port_priority → IsVector (gm_path_priority p)
unfolding gm_path_priority
IsVector-gm_path_priority p h =
    elim (Bool-cases (has_port_priority p.port_priority && not (is_aged p.info_is))) [
      | inl own ↦ rw own (record { root_length = h.root_length; source_length = h.source_length })
      | inr filled ↦ rw filled (record { root_length = refl; source_length = refl })
    ]

path_number :
    (p : BmcsPerPortGlobal)
    → has_port_priority p.port_priority ≡ true
    → p.info_is ≡ received
    → (gm_path_priority p).port_number ≡ p.port_priority.port_number
unfolding gm_path_priority
path_number p h r = ground (arith, h, r)

-- A slave port's vector names that port.
slave_number :
    (o : ByteOrder) (gm : UInteger224) (n i : ℕ) (ppg : PerPortGlobal) (p : BmcsPerPortGlobal)
    → IsVector gm
    → IsVector p.port_priority
    → IsPort i ppg p
    → (decide_state o gm n ppg p).0 ≡ slave_port
    → gm.port_number ≡ i
slave_number o gm n i ppg p hg hp h e =
    let (r, m) = slave_matches o gm n ppg p e in
    let same =
      (compare_priority_vectors-same_iff o hg (IsVector-gm_path_priority p hp)).0
        (same_of_memcmp_eq o gm (gm_path_priority p) m) in
    ap (λ v. v.port_number) same ∙ path_number p (h.present r) r ∙ h.arrived_here r ∙ h.numbered

-- A state from which ports are selected. The arrays are functions on all of ℕ, so that the vectors
-- beyond the ports have a length too.
pub record IsReady (sm : PortStateSelection) : Type 0 where
  pub some_port : 1 ≤ sm.max_ports
  pub system : IsVector sm.bptasg.system_priority
  pub vectors : (i : ℕ) → IsVector (sm.bppgl i).port_priority
  pub ports : (i : ℕ) → i < sm.max_ports → IsPort i (sm.ppgl i) (sm.bppgl i)

abbrev pub system_choice : PortStateSelection → GmChoice
system_choice sm = record {
  gm_priority = sm.bptasg.system_priority;
  time_properties = sm.bptasg.sys_time_properties;
}

abbrev pub chosen : PortStateSelection → GmChoice
chosen sm = record {
  gm_priority = sm.bptasg.gm_priority;
  time_properties = sm.bptasg.time_properties;
}

pub select_gm-IsBest :
    (c : Config) (sm : PortStateSelection)
    → IsReady sm
    → IsBest c.byte_order sm.ptasg.this_clock sm.bppgl
        (system_choice sm)
        sm.max_ports
        (chosen (select_gm c sm))
unfolding select_gm
select_gm-IsBest c sm h =
    choose_gm-IsBest c.byte_order sm.ptasg.this_clock sm.bppgl (system_choice sm) h.system
      (λ i. IsVector-gm_path_priority (sm.bppgl i) (h.vectors i)) sm.max_ports

pub prepared_same :
    (c : Config) (sm : PortStateSelection)
    → ((prepared c sm).bptasg.gm_priority ≡ (select_gm c sm).bptasg.gm_priority)
      × ((prepared c sm).max_ports ≡ sm.max_ports)
      × ((prepared c sm).ppgl ≡ sm.ppgl)
      × ((i : ℕ) → ((prepared c sm).bppgl i).port_priority ≡ (sm.bppgl i).port_priority)
      × ((i : ℕ) → ((prepared c sm).bppgl i).info_is ≡ (sm.bppgl i).info_is)
unfolding set_master_priorities announce_gm select_gm
prepared_same c sm =
    (ground arith, ground arith, ground arith, λ i. ground arith, λ i. ground arith)

IsPort-kept :
    (i : ℕ) (ppg ppg' : PerPortGlobal) (p q : BmcsPerPortGlobal)
    → ppg' ≡ ppg
    → q.port_priority ≡ p.port_priority
    → q.info_is ≡ p.info_is
    → IsPort i ppg p
    → IsPort i ppg' q
IsPort-kept i ppg ppg' p q g e f h = record {
  numbered = rw g h.numbered;
  present = λ r. rw e (h.present (sym f ∙ r));
  arrived_here = λ r. rw (e, g) (h.arrived_here (sym f ∙ r));
}

port0_states :
    (c : Config) (x : PortStateSelection) (i : ℕ)
    → (assign_port0 c x).ptasg.selected_state i
      ≡ set x.ptasg.selected_state 0 (if slave_port_avail x then passive_port else slave_port) i
unfolding assign_port0 update_last_gm_info
port0_states c x i = ground arith

avail_same : (x : PortStateSelection) → slave_port_avail (set_gm_present x) ≡ slave_port_avail x
unfolding slave_port_avail set_gm_present
avail_same x = refl

own_path_states : (x : PortStateSelection) → (own_path_trace x).ptasg ≡ x.ptasg
unfolding own_path_trace
own_path_states x = ground arith

-- The states of the ports in the result.
pub final_states :
    (c : Config) (sm : PortStateSelection) (i : ℕ)
    → let assigned = assign_states c (prepared c sm) in
      (updt_states_tree c sm).0.ptasg.selected_state i
      ≡ set assigned.ptasg.selected_state 0
          (if slave_port_avail assigned then passive_port else slave_port)
          i
unfolding updt_states_tree set_gm_present
final_states c sm i =
    let assigned = assign_states c (prepared c sm) in
    ap (λ g. g.selected_state i) (own_path_states (assign_port0 c (set_gm_present assigned)))
    ∙ port0_states c (set_gm_present assigned) i
    ∙ ap
        (λ (b : Bool).
          set assigned.ptasg.selected_state 0 (if b then passive_port else slave_port) i)
        (avail_same assigned)

-- If no port beside port 0 but the n-th is a slave, port 0 completes them to one slave.
one_slave_of :
    (a : PortStateSelection) (n max : ℕ)
    → a.max_ports ≡ max
    → 1 ≤ max
    → ((i : ℕ) → 1 ≤ i → i < max → a.ptasg.selected_state i ≡ slave_port → n ≡ i)
    → let states =
        set a.ptasg.selected_state 0 (if slave_port_avail a then passive_port else slave_port) in
      (i : ℕ) × (i < max)
      × (states i ≡ slave_port)
      × ((j : ℕ) → j < max → states j ≡ slave_port → j ≡ i)
unfolding slave_port_avail
one_slave_of a n max e one named = elim (Bool-cases (slave_port_avail a)) [
  | inl avail ↦
      let (k, lt, found) =
        exists_from_found (λ s. s == slave_port) a.ptasg.selected_state (a.max_ports - 1) 1 avail in
      (1 + k, omega arith, ground arith, λ j le eq. ground (arith, named j, named (1 + k)))
  | inr none_avail ↦ (
    0,
    omega arith,
    ground arith,
    λ j le eq. elim (dec_lt 0 j) [
      | yes above ↦
          let e' : 1 + (j - 1) ≡ j = omega arith in
          let other = rw e' at (
            exists_from_none (λ s. s == slave_port) a.ptasg.selected_state (a.max_ports - 1) 1
              none_avail (j - 1) (omega arith)) in
          absurd (ground arith)
      | no here ↦ omega arith
    ],
  )
]

module _ (c : Config) (sm : PortStateSelection) (h : IsReady sm) where
  -- A port beside port 0 that is a slave is the one which the grandmaster's vector names.
  slave_named :
      (i : ℕ)
      → 1 ≤ i
      → i < sm.max_ports
      → (assign_states c (prepared c sm)).ptasg.selected_state i ≡ slave_port
      → (select_gm c sm).bptasg.gm_priority.port_number ≡ i
  slave_named i one lt e =
      let (gm, ports, ppgl, priority, info) = prepared_same c sm in
      let a = assign_states-IsAssigned c (prepared c sm) (rw ports h.some_port) in
      let p = (prepared c sm).bppgl i in
      ap (λ v. v.port_number) (sym gm)
      ∙ slave_number c.byte_order (prepared c sm).bptasg.gm_priority
          (prepared c sm).bptasg.master_steps_removed i ((prepared c sm).ppgl i) p
          (rw gm (select_gm-IsBest c sm h).valid) (rw (priority i) (h.vectors i))
          (IsPort-kept i (sm.ppgl i) ((prepared c sm).ppgl i) (sm.bppgl i) p (ap (λ f. f i) ppgl)
            (priority i) (info i) (h.ports i lt))
          (sym (a.decided i one (rw ports lt)) ∙ e)

  -- In a state that is ready, updtStatesTree leaves exactly one of the ports in SlavePort.
  pub updt_states_tree_one_slave :
      (i : ℕ) × (i < sm.max_ports)
      × ((updt_states_tree c sm).0.ptasg.selected_state i ≡ slave_port)
      × ((j : ℕ)
          → j < sm.max_ports
          → (updt_states_tree c sm).0.ptasg.selected_state j ≡ slave_port
          → j ≡ i)
  updt_states_tree_one_slave =
      let a = assign_states c (prepared c sm) in
      let same = prepared_same c sm in
      let assigned = assign_states-IsAssigned c (prepared c sm) (rw (same.1) h.some_port) in
      let (i, lt, is_slave, unique) =
        one_slave_of a (select_gm c sm).bptasg.gm_priority.port_number sm.max_ports
          (assigned.max_ports ∙ same.1) h.some_port slave_named in
      (i, lt, final_states c sm i ∙ is_slave, λ j le e. unique j le (sym (final_states c sm j) ∙ e))
