-- ===== src/StateSelection/Assign.antt =====
-- The loop of updtStatesTree that calls portStateUpdate gives every port from 1 on the state that is
-- decided for it.
use excelfore_gptp.Common.{ℕ, ◌+◌, ◌-◌, ◌<◌, ◌≤◌, ◌≡◌, refl, Bool, arith}
use excelfore_gptp.Arrays.{for_range_rule}
use excelfore_gptp.Config.{Config}
use excelfore_gptp.StateSelection.Data.{State, PortStateSelection}
use excelfore_gptp.StateSelection.Tree.{decide_state, take_path, port_state_update, assign_states}

-- What the machine's conditions read beside `reselect`.
abbrev pub control : PortStateSelection → (State × State) × (Bool × Bool)
control sm =
    ((sm.state, sm.last_state), (sm.system_identity_change, sm.asymmetry_measurement_mode_change))

module _ (c : Config) (s0 : PortStateSelection) where
  -- The decision for port i.
  abbrev pub decision : ℕ → ℕ × Bool
  decision i =
      decide_state c.byte_order s0.bptasg.gm_priority s0.bptasg.master_steps_removed (s0.ppgl i)
        (s0.bppgl i)

  -- After the ports below j: those have their decided state, the others are as before, and so are the
  -- chosen vector and the parts that decisions rest on.
  pub record IsAssigned (j : ℕ) (s : PortStateSelection) : Type 0 where
    pub gm : s.bptasg.gm_priority ≡ s0.bptasg.gm_priority
    pub time_properties : s.bptasg.time_properties ≡ s0.bptasg.time_properties
    pub steps : s.bptasg.master_steps_removed ≡ s0.bptasg.master_steps_removed
    pub last_gm : s.bptasg.last_gm_priority ≡ s0.bptasg.last_gm_priority
    pub ports : s.ppgl ≡ s0.ppgl
    pub max_ports : s.max_ports ≡ s0.max_ports
    pub this_clock : s.ptasg.this_clock ≡ s0.ptasg.this_clock
    pub decided : (i : ℕ) → 1 ≤ i → i < j → s.ptasg.selected_state i ≡ (decision i).0
    pub updates : (i : ℕ) → 1 ≤ i → i < j → (s.bppgl i).updt_info ≡ (decision i).1
    pub waiting : (i : ℕ) → j ≤ i → s.bppgl i ≡ s0.bppgl i
    pub port0 : s.ptasg.selected_state 0 ≡ s0.ptasg.selected_state 0
    pub control_kept : control s ≡ control s0
    pub reselect_kept : s.bptasg.reselect ≡ s0.bptasg.reselect

  update_decides :
      (j : ℕ) (s : PortStateSelection)
      → IsAssigned j s
      → (decide_state c.byte_order s.bptasg.gm_priority s.bptasg.master_steps_removed
          (s.ppgl j)
          (s.bppgl j))
        ≡ decision j
  update_decides j s h = rw (h.gm, h.steps, h.ports, h.waiting j (omega arith)) refl

  port_state_update-IsAssigned :
      (j : ℕ) (s : PortStateSelection)
      → 1 ≤ j
      → IsAssigned j s
      → IsAssigned (j + 1) (port_state_update c j s)
  unfolding port_state_update take_path
  port_state_update-IsAssigned j s one h = record {
    gm = ground (arith, h.gm);
    time_properties = ground (arith, h.time_properties);
    steps = ground (arith, h.steps);
    last_gm = ground (arith, h.last_gm);
    ports = h.ports;
    max_ports = h.max_ports;
    this_clock = h.this_clock;
    decided = λ i le lt. ground (arith, h.decided i le, update_decides j s h);
    updates = λ i le lt. ground (arith, h.updates i le, update_decides j s h);
    waiting = λ i le. ground (arith, h.waiting i);
    port0 = ground (arith, h.port0);
    control_kept = h.control_kept;
    reselect_kept = ground (arith, h.reselect_kept);
  }

-- The loop over the ports from 1 on.
pub assign_states-IsAssigned :
    (c : Config) (s : PortStateSelection)
    → 1 ≤ s.max_ports
    → IsAssigned c s s.max_ports (assign_states c s)
unfolding assign_states
assign_states-IsAssigned c s one =
    let e : 1 + (s.max_ports - 1) ≡ s.max_ports = omega arith in
    rw e at
      (for_range_rule (port_state_update c) (λ j x. (1 ≤ j) × IsAssigned c s j x)
        (λ j x h. (omega arith, port_state_update-IsAssigned c s j x h.0 h.1)) (s.max_ports - 1) 1 s
        (
          omega arith,
          record {
            gm = refl;
            time_properties = refl;
            steps = refl;
            last_gm = refl;
            ports = refl;
            max_ports = refl;
            this_clock = refl;
            control_kept = refl;
            reselect_kept = refl;
            decided = λ i le lt. absurd (omega arith);
            updates = λ i le lt. absurd (omega arith);
            waiting = λ i le. refl;
            port0 = refl;
          },
        )).1
