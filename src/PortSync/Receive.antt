-- ===== src/PortSync/Receive.antt =====
-- port_sync_sync_receive_sm.c: the PortSyncSyncReceive machine, which takes the synchronisation that a
-- port receives and hands it to the site.
use excelfore_gptp.Common.{
  ℕ, ◌+◌, ◌/◌, Bool, true, false, not, ◌&&◌, ◌||◌, Option, none, some, ◌==◌, if◌then◌else◌, u64,
}
use excelfore_gptp.Config.{Config, log_to_nsec, times_uint64}
use excelfore_gptp.Globals.{PerTimeAwareSystemGlobal, PerPortGlobal}
use excelfore_gptp.Machine.{Outcome, Round, loop}
use excelfore_gptp.PortSync.Data.{DoubleOps, MdSyncReceive, PortSyncSync}

pub data State : Type 0 where
  init discard received_sync reaction : State

abbrev pub code : State → ℕ
code init = 0
code discard = 1
code received_sync = 2
code reaction = 3

abbrev pub same : State → State → Bool
same s t = code s == code t

-- port_sync_sync_receive_data, with the members of thisSM and forAllDomain->neighborRateRatio.
pub record PortSyncSyncReceive (D : Type 0) : Type 0 where
  pub ptasg : PerTimeAwareSystemGlobal
  pub ppg : PerPortGlobal
  pub neighbor_rate_ratio : D
  pub state : State
  pub last_state : State
  pub rcvd_md_sync : Bool
  pub rcvd_md_sync_ptr : Option (MdSyncReceive D)
  pub port_sync_sync : PortSyncSync D

-- PORT_OPER && PTP_PORT_ENABLED && AS_CAPABLE
abbrev pub is_capable : PerPortGlobal → Bool
is_capable ppg = ppg.for_all_domain.port_oper && ppg.ptp_port_enabled && ppg.as_capable

abbrev pub fuel : ℕ
fuel = 10

module _ {D : Type 0} where
  -- setPSSyncPSSR, of a message that is there
  unfoldable pub set_ps_sync_pssr :
      Config → ℕ → D → MdSyncReceive D → PortSyncSyncReceive D → PortSyncSyncReceive D
  set_ps_sync_pssr c cts64 rate_ratio m sm =
      let interval = log_to_nsec c m.log_message_interval in
      record sm {
        port_sync_sync = record {
          domain_number = m.domain_number;
          local_port_number = sm.ppg.this_port;
          sync_receipt_timeout_time = u64 (cts64 + sm.ppg.sync_receipt_timeout_time_interval);
          follow_up_correction_field = m.follow_up_correction_field;
          source_port_identity = m.source_port_identity;
          log_message_interval = m.log_message_interval;
          precise_origin_timestamp = m.precise_origin_timestamp;
          upstream_tx_time = m.upstream_tx_time;
          rate_ratio = rate_ratio;
          gm_time_base_indicator = m.gm_time_base_indicator;
          last_gm_phase_change = m.last_gm_phase_change;
          last_gm_freq_change = m.last_gm_freq_change;
          local_port_index = sm.ppg.this_port_index;
          sync_next_send_timeout_time = u64 (cts64 + interval + interval / 2);
          last_sync_seq_id = m.seqid;
        };
      }

  abbrev pub with_timeout_interval : Config → MdSyncReceive D → PerPortGlobal → PerPortGlobal
  with_timeout_interval c m ppg = record ppg {
    sync_receipt_timeout_time_interval =
        times_uint64 ppg.sync_receipt_timeout (log_to_nsec c m.log_message_interval);
  }

  -- What received_sync does with a message.
  unfoldable pub take_sync :
      DoubleOps D → Config → ℕ → MdSyncReceive D → PortSyncSyncReceive D → PortSyncSyncReceive D
  unfolding set_ps_sync_pssr
  take_sync f c cts64 m sm =
      let sm' =
        set_ps_sync_pssr c cts64 (f.add m.rate_ratio (f.sub sm.neighbor_rate_ratio f.one)) m
          (record sm { rcvd_md_sync = false; ppg = with_timeout_interval c m sm.ppg }) in
      record sm' {
        ptasg = record (sm'.ptasg) { parent_log_sync_interval = m.log_message_interval };
      }

  -- received_sync, which is `none` if rcvdMDSyncPtr is null
  unfoldable pub received_sync_proc :
      DoubleOps D → Config → ℕ → PortSyncSyncReceive D → Option (PortSyncSyncReceive D)
  unfolding take_sync
  received_sync_proc f c cts64 sm = elim (sm.rcvd_md_sync_ptr) [
    | none ↦ none
    | some m ↦ some (take_sync f c cts64 m sm)
  ]

  -- The state that the call starts in, and whether last_state becomes REACTION.
  unfoldable pub allstate_condition : PortSyncSyncReceive D → PortSyncSyncReceive D
  allstate_condition sm =
      if sm.ptasg.begin
        || not sm.ptasg.instance_enable
        || (sm.rcvd_md_sync && not (is_capable sm.ppg))
      then record sm { last_state = reaction; state = discard }
      else sm

  unfoldable pub discard_condition : PortSyncSyncReceive D → State
  discard_condition sm = if sm.rcvd_md_sync && is_capable sm.ppg then received_sync else discard

  unfoldable pub received_sync_condition : PortSyncSyncReceive D → State
  received_sync_condition sm =
      if sm.rcvd_md_sync
        && is_capable sm.ppg
        && not sm.ppg.for_all_domain.asymmetry_measurement_mode
      then reaction
      else received_sync

  abbrev goto : PortSyncSyncReceive D → State → Round (PortSyncSyncReceive D) (PortSyncSync D)
  goto sm s = some (record sm { state = s }, none)

  abbrev pub after_received :
      Option (PortSyncSyncReceive D) → Round (PortSyncSyncReceive D) (PortSyncSync D)
  after_received none = none
  after_received (some sm) =
      some (record sm { state = received_sync_condition sm }, some sm.port_sync_sync)

  -- On entry to DISCARD the message is dropped, and the next state does not depend on the port.
  abbrev pub switch :
      DoubleOps D
      → Config
      → ℕ
      → State
      → Bool
      → PortSyncSyncReceive D
      → Round (PortSyncSyncReceive D) (PortSyncSync D)
  switch f c cts64 init change sm = goto sm discard
  switch f c cts64 discard change sm =
      if change
      then goto (record sm { rcvd_md_sync = false }) received_sync
      else goto sm (discard_condition sm)
  switch f c cts64 received_sync change sm =
      if change
      then after_received (received_sync_proc f c cts64 sm)
      else goto sm (received_sync_condition sm)
  switch f c cts64 reaction change sm = some (sm, none)

  unfoldable pub round :
      DoubleOps D
      → Config
      → ℕ
      → PortSyncSyncReceive D
      → Round (PortSyncSyncReceive D) (PortSyncSync D)
  unfolding received_sync_proc discard_condition received_sync_condition
  round f c cts64 sm =
      switch f c cts64 sm.state (not (same sm.last_state sm.state))
        (record sm { last_state = sm.state })

  abbrev pub settled : PortSyncSyncReceive D → Bool
  settled sm = same sm.last_state sm.state

  unfoldable pub port_sync_sync_receive_sm :
      DoubleOps D
      → Config
      → ℕ
      → PortSyncSyncReceive D
      → Outcome (PortSyncSyncReceive D) (PortSyncSync D)
  unfolding allstate_condition
  port_sync_sync_receive_sm f c cts64 sm =
      loop settled (round f c cts64) fuel (allstate_condition sm)

  -- port_sync_sync_receive_sm_recvMDSync
  unfoldable pub recv_md_sync :
      DoubleOps D
      → Config
      → ℕ
      → MdSyncReceive D
      → PortSyncSyncReceive D
      → Outcome (PortSyncSyncReceive D) (PortSyncSync D)
  unfolding port_sync_sync_receive_sm
  recv_md_sync f c cts64 m sm =
      port_sync_sync_receive_sm f c cts64
        (record sm { rcvd_md_sync = true; rcvd_md_sync_ptr = some m; last_state = reaction })
