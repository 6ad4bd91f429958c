-- ===== src/StateSelection/Tree.antt =====
-- port_state_selection_sm.c: updtStatesTree and portStateUpdate, which choose the grandmaster and the
-- state of every port.
use excelfore_gptp.Common.{
  ℕ, pos, ◌+◌, ◌-◌, Bool, true, false, not, ◌&&◌, ◌||◌, Option, none, some, ltb, leb, ◌==◌,
  if◌then◌else◌, u16, is_nonzero, neg,
}
use excelfore_gptp.Types.{
  ClockIdentity, UInteger224, InfoIs, received, mine, aged, disabled, max_path_trace_n,
  disabled_port, master_port, passive_port, slave_port,
}
use excelfore_gptp.Arrays.{set, copy, for_range, exists_from}
use excelfore_gptp.Priority.{
  ByteOrder, memcmp_eq, octets, compare_priority_vectors, is_superior, has_port_priority,
}
use excelfore_gptp.Config.{Config}
use excelfore_gptp.Globals.{
  PerTimeAwareSystemGlobal, PerPortGlobal, TimeProperties, BmcsPerTimeAwareSystemGlobal,
  BmcsPerPortGlobal,
}
use excelfore_gptp.Globals.Init.{filled_vector}
use excelfore_gptp.Clock.{MasterClock, set_gmsync, reset_gmsync, set_gmchange}
use excelfore_gptp.StateSelection.Data.{PortStateSelection}

abbrev pub is_aged : InfoIs → Bool
is_aged aged = true
is_aged _ = false

abbrev pub is_disabled : InfoIs → Bool
is_disabled disabled = true
is_disabled _ = false

-- gmPathPriority[i]: {RM : SRM + 1 : PM : PNS}, or all bytes 0xFF.
unfoldable pub gm_path_priority : BmcsPerPortGlobal → UInteger224
gm_path_priority p =
    if has_port_priority p.port_priority && not (is_aged p.info_is)
    then record (p.port_priority) { steps_removed = u16 (p.port_priority.steps_removed + 1) }
    else filled_vector 0xFF 0xFFFF

-- The grandmaster's vector and the time properties that go with it.
pub record GmChoice : Type 0 where
  pub gm_priority : UInteger224
  pub time_properties : TimeProperties

-- A port that may offer a grandmaster: it is not disabled, and its vector does not come from here.
abbrev pub offers : ClockIdentity → BmcsPerPortGlobal → Bool
offers this_clock p =
    not (is_disabled p.info_is)
    && not (memcmp_eq (gm_path_priority p).source_port_identity.clock_identity this_clock)

module _ (o : ByteOrder) (this_clock : ClockIdentity) (bppgl : ℕ → BmcsPerPortGlobal) where
  -- One round of the loop over the ports that looks for a superior vector.
  unfoldable pub choose_step : ℕ → GmChoice → GmChoice
  choose_step i g =
      if offers this_clock (bppgl i)
        && is_superior (compare_priority_vectors o (gm_path_priority (bppgl i)) g.gm_priority)
      then record {
        gm_priority = gm_path_priority (bppgl i);
        time_properties = (bppgl i).ann_time_properties;
      }
      else g

  unfoldable pub choose_gm : ℕ → GmChoice → GmChoice
  choose_gm max_ports = for_range choose_step max_ports 0

-- The masterPriority vector of a port.
abbrev pub master_vector : UInteger224 → ClockIdentity → ℕ → UInteger224
master_vector gm this_clock this_port = record gm {
  source_port_identity = record { clock_identity = this_clock; port_number = this_port };
  port_number = this_port;
}

-- What portStateUpdate decides for a port, given gmPriority and masterStepsRemoved: its state, and
-- updtInfo.
unfoldable pub decide_state :
    ByteOrder → UInteger224 → ℕ → PerPortGlobal → BmcsPerPortGlobal → ℕ × Bool
decide_state o gm master_steps_removed ppg p =
    if is_disabled p.info_is
    then (disabled_port, false)
    else if ppg.for_all_domain.asymmetry_measurement_mode
    then (passive_port, false)
    else elim (p.info_is) [
      | disabled ↦ (disabled_port, false)
      | aged ↦ (master_port, true)
      | mine ↦ (
        master_port,
        if not (memcmp_eq (octets o p.master_priority) (octets o p.port_priority))
              || not (master_steps_removed == p.port_steps_removed)
            then true
            else p.updt_info,
      )
      | received ↦
          if memcmp_eq (octets o gm) (octets o (gm_path_priority p))
          then (slave_port, false)
          else if not (is_superior (compare_priority_vectors o p.master_priority p.port_priority))
          then (passive_port, false)
          else (master_port, true)
    ]

-- The path trace of a port that has just become the slave.
unfoldable pub take_path :
    BmcsPerTimeAwareSystemGlobal → BmcsPerPortGlobal → ClockIdentity → BmcsPerTimeAwareSystemGlobal
take_path b p this_clock =
    let n =
      if ltb p.ann_path_sequence_count max_path_trace_n
      then p.ann_path_sequence_count
      else max_path_trace_n in
    if leb (n + 1) max_path_trace_n
    then record b {
      path_trace = set (copy b.path_trace p.ann_path_sequence n) n this_clock;
      path_trace_count = n + 1;
    }
    else record b { path_trace_count = 0 }

-- portStateUpdate for port i, with the caller's reset of the clock where the slave port is lost.
unfoldable pub port_state_update : Config → ℕ → PortStateSelection → PortStateSelection
port_state_update c i sm =
    let old_state = sm.ptasg.selected_state i in
    let (new_state, updt_info) =
      decide_state c.byte_order sm.bptasg.gm_priority sm.bptasg.master_steps_removed (sm.ppgl i)
        (sm.bppgl i) in
    record sm {
      ptasg = record (sm.ptasg) { selected_state = set sm.ptasg.selected_state i new_state };
      bppgl = set sm.bppgl i (record (sm.bppgl i) { updt_info = updt_info });
      bptasg =
          if new_state == slave_port && not (old_state == slave_port)
          then take_path sm.bptasg (sm.bppgl i) sm.ptasg.this_clock
          else sm.bptasg;
      clock =
          if not (old_state == new_state) && old_state == slave_port
          then reset_gmsync sm.clock
          else sm.clock;
    }

-- update_lastGmInfo
unfoldable pub update_last_gm_info :
    Config → MasterClock → PerTimeAwareSystemGlobal → PerTimeAwareSystemGlobal
update_last_gm_info c k g = record g {
  gm_time_base_indicator = u16 (g.gm_time_base_indicator + 1);
  last_gm_phase_change = pos 0;
  last_gm_freq_change =
      if is_nonzero c.reset_freqadj_becomegm then neg k.this_clock_adjppb else pos 0;
}

-- The grandmaster is chosen: updtStatesTree down to the test of lastGmPriority.
unfoldable pub select_gm : Config → PortStateSelection → PortStateSelection
select_gm c sm =
    let g = choose_gm c.byte_order sm.ptasg.this_clock sm.bppgl sm.max_ports (record {
      gm_priority = sm.bptasg.system_priority;
      time_properties = sm.bptasg.sys_time_properties;
    }) in
    record sm {
      bptasg = record (sm.bptasg) {
        last_gm_priority = sm.bptasg.gm_priority;
        gm_priority = g.gm_priority;
        time_properties = g.time_properties;
      };
    }

-- `memcmp(&LAST_GM_PRIORITY, &GM_PRIORITY, sizeof(UInteger224))`
abbrev pub gm_changed : Config → PortStateSelection → Bool
gm_changed c sm = not (
    memcmp_eq (octets c.byte_order sm.bptasg.last_gm_priority)
      (octets c.byte_order sm.bptasg.gm_priority))

abbrev pub gm_root : PortStateSelection → ClockIdentity
gm_root sm = sm.bptasg.gm_priority.root_system_identity.clock_identity

unfoldable pub announce_gm : Config → PortStateSelection → PortStateSelection
announce_gm c sm =
    if gm_changed c sm then record sm { clock = set_gmchange (gm_root sm) sm.clock } else sm

-- The masterPriority of every port, and masterStepsRemoved.
unfoldable pub set_master_priorities : PortStateSelection → PortStateSelection
set_master_priorities sm = record sm {
  bppgl = λ i.
      if ltb i sm.max_ports
      then record (sm.bppgl i) {
        master_priority =
            master_vector sm.bptasg.gm_priority sm.ptasg.this_clock (sm.ppgl i).this_port;
      }
      else sm.bppgl i;
  bptasg = record (sm.bptasg) { master_steps_removed = sm.bptasg.gm_priority.steps_removed };
}

-- The states of the ports from 1 on.
unfoldable pub assign_states : Config → PortStateSelection → PortStateSelection
assign_states c sm = for_range (port_state_update c) (sm.max_ports - 1) 1 sm

unfoldable pub set_gm_present : PortStateSelection → PortStateSelection
set_gm_present sm = record sm {
  ptasg = record (sm.ptasg) {
    gm_present = ltb sm.bptasg.gm_priority.root_system_identity.priority1 255;
  };
}

unfoldable pub slave_port_avail : PortStateSelection → Bool
slave_port_avail sm =
    exists_from (λ s. s == slave_port) sm.ptasg.selected_state (sm.max_ports - 1) 1

-- The state of port 0, the clock's own port: it is the slave exactly if no other port is.
unfoldable pub assign_port0 : Config → PortStateSelection → PortStateSelection
assign_port0 c sm =
    let old_state = sm.ptasg.selected_state 0 in
    if slave_port_avail sm
    then record sm {
      ptasg = record (sm.ptasg) { selected_state = set sm.ptasg.selected_state 0 passive_port };
      clock = if not (old_state == passive_port) then reset_gmsync sm.clock else sm.clock;
    }
    else (let g = record (sm.ptasg) { selected_state = set sm.ptasg.selected_state 0 slave_port } in
        record sm {
          ptasg = if gm_changed c sm then update_last_gm_info c sm.clock g else g;
          clock =
              if not (old_state == slave_port) && not sm.deferred_gmsync
              then set_gmsync c sm.ptasg.domain_number sm.ptasg.this_clock sm.clock
              else sm.clock;
        })

unfoldable pub own_path_trace : PortStateSelection → PortStateSelection
own_path_trace sm =
    if memcmp_eq sm.ptasg.this_clock (gm_root sm)
    then record sm {
      bptasg = record (sm.bptasg) {
        path_trace = set sm.bptasg.path_trace 0 sm.ptasg.this_clock;
        path_trace_count = 1;
      };
    }
    else sm

-- updtStatesTree. The result is the new grandmaster's identity if the grandmaster has changed.
unfoldable pub updt_states_tree :
    Config → PortStateSelection → PortStateSelection × Option ClockIdentity
updt_states_tree c sm =
    let chosen = select_gm c sm in
    let assigned = assign_states c (set_master_priorities (announce_gm c chosen)) in
    let final = own_path_trace (assign_port0 c (set_gm_present assigned)) in
    (final, if gm_changed c chosen then some (gm_root chosen) else none)
