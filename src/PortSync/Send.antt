-- ===== src/PortSync/Send.antt =====
-- port_sync_sync_send_sm.c: the PortSyncSyncSend machine, which sends the synchronisation of the site
-- from a master port.
use excelfore_gptp.Common.{
  ℕ, ℤ, pos, negsuc, ◌+◌, ◌-◌, ◌^◌, Bool, true, false, not, ◌&&◌, ◌||◌, Option, none, some, leb,
  ◌==◌, if◌then◌else◌, u8, u64,
}
use excelfore_gptp.Types.{UScaledNs, master_port}
use excelfore_gptp.Config.{Config}
use excelfore_gptp.Globals.{PerTimeAwareSystemGlobal, PerPortGlobal}
use excelfore_gptp.Machine.{Outcome, Round, loop}
use excelfore_gptp.PortSync.Data.{ScaledNs, Timestamp, MdSyncSend, PortSyncSync, is_item}
use excelfore_gptp.PortSync.Receive.{is_capable}

pub data State : Type 0 where
  init transmit_init send_md_sync sync_receipt_timeout reaction : State

abbrev pub code : State → ℕ
code init = 0
code transmit_init = 1
code send_md_sync = 2
code sync_receipt_timeout = 3
code reaction = 4

abbrev pub same : State → State → Bool
same s t = code s == code t

-- port_sync_sync_send_data, with the members of thisSM. `md_sync_send` is empty before the first
-- message.
pub record PortSyncSyncSend (D : Type 0) : Type 0 where
  pub ptasg : PerTimeAwareSystemGlobal
  pub ppg : PerPortGlobal
  pub port_index : ℕ
  pub state : State
  pub last_state : State
  pub rcvd_pssync : Bool
  pub rcvd_pssync_ptr : Option (PortSyncSync D)
  pub last_precise_origin_timestamp : Timestamp
  pub last_follow_up_correction_field : ScaledNs
  pub last_rate_ratio : D
  pub last_upstream_tx_time : UScaledNs
  pub last_sync_sent_time : UScaledNs
  pub last_rcvd_port_num : ℕ  -- uint16_t
  pub last_gm_time_base_indicator : ℕ
  pub last_gm_phase_change : ScaledNs
  pub last_gm_freq_change : D
  pub sync_receipt_timeout_time : UScaledNs
  pub number_sync_transmissions : ℕ  -- uint8_t
  pub interval1 : UScaledNs
  pub md_sync_send : Option (MdSyncSend D)

-- `n >= z` for an int8_t z
abbrev at_least : ℕ → ℤ → Bool
at_least n (pos k) = leb k n
at_least n (negsuc k) = true

abbrev same_int : ℤ → ℤ → Bool
same_int (pos a) (pos b) = a == b
same_int (negsuc a) (negsuc b) = a == b
same_int _ _ = false

abbrev pub fuel : ℕ
fuel = 10

abbrev pub go_if : Bool → State → Option Bool → Option State
go_if b s none = none
go_if b s (some other) = some (if other && b then send_md_sync else s)

module _ {D : Type 0} where
  -- setMDSync: the message that the machine's members give.
  unfoldable pub set_md_sync : PortSyncSyncSend D → MdSyncSend D
  set_md_sync sm = record {
    domain_number = sm.ptasg.domain_number;
    follow_up_correction_field = sm.last_follow_up_correction_field;
    source_port_identity = record {
      clock_identity = sm.ptasg.this_clock;
      port_number = sm.ppg.this_port;
    };
    log_message_interval = sm.ppg.current_log_sync_interval;
    precise_origin_timestamp = sm.last_precise_origin_timestamp;
    upstream_tx_time = sm.last_upstream_tx_time;
    rate_ratio = sm.last_rate_ratio;
    gm_time_base_indicator = sm.last_gm_time_base_indicator;
    last_gm_phase_change = sm.last_gm_phase_change;
    last_gm_freq_change = sm.last_gm_freq_change;
  }

  unfoldable pub allstate_condition : PortSyncSyncSend D → PortSyncSyncSend D
  allstate_condition sm =
      if sm.ptasg.begin
        || not sm.ptasg.instance_enable
        || (sm.rcvd_pssync && not (is_capable sm.ppg))
      then record sm { last_state = reaction; state = transmit_init }
      else sm

  unfoldable pub transmit_init_proc : PortSyncSyncSend D → PortSyncSyncSend D
  transmit_init_proc sm = record sm {
    rcvd_pssync = false;
    ppg = record (sm.ppg) { sync_slowdown = false };
    number_sync_transmissions = 0;
  }

  -- The last part of the conditions: the port is up and sends.
  abbrev pub may_send : Config → PortSyncSyncSend D → Bool
  may_send c sm =
      is_capable sm.ppg
      && (sm.ptasg.selected_state sm.port_index == master_port
          || is_item c.test_sync_send_port sm.port_index)

  -- RCVD_PSSYNC && RCVD_PSSYNC_PTR->localPortNumber != THIS_PORT, which is `none` if the pointer is
  -- null.
  abbrev pub from_other : PortSyncSyncSend D → Option Bool
  from_other sm =
      if sm.rcvd_pssync
      then elim (sm.rcvd_pssync_ptr) [
        | none ↦ none
        | some p ↦ some (not (p.local_port_number == sm.ppg.this_port))
      ]
      else some false

  unfoldable pub transmit_init_condition : Config → PortSyncSyncSend D → Option State
  transmit_init_condition c sm = go_if (may_send c sm) transmit_init (from_other sm)

  -- What send_md_sync_proc takes from a message.
  unfoldable pub take_pssync : PortSyncSync D → PortSyncSyncSend D → PortSyncSyncSend D
  take_pssync p sm = record sm {
    last_rcvd_port_num = p.local_port_number;
    last_precise_origin_timestamp = p.precise_origin_timestamp;
    last_follow_up_correction_field = p.follow_up_correction_field;
    last_rate_ratio = p.rate_ratio;
    last_upstream_tx_time = p.upstream_tx_time;
    last_gm_time_base_indicator = p.gm_time_base_indicator;
    last_gm_phase_change = p.last_gm_phase_change;
    last_gm_freq_change = p.last_gm_freq_change;
    sync_receipt_timeout_time = p.sync_receipt_timeout_time;
    ppg = record (sm.ppg) {
      sync_locked = same_int sm.ptasg.parent_log_sync_interval sm.ppg.current_log_sync_interval;
    };
  }

  -- The rest of send_md_sync_proc. OLD_SYNC_INTERVAL is the interval in use.
  unfoldable pub transmit : ℕ → PortSyncSyncSend D → PortSyncSyncSend D
  unfolding set_md_sync
  transmit cts64 sm =
      let sm' = record sm {
        rcvd_pssync = false;
        last_sync_sent_time = cts64;
        md_sync_send = some (set_md_sync sm);
        interval1 = sm.ppg.sync_interval;
      } in
      if not sm.ppg.sync_slowdown
      then record sm' { number_sync_transmissions = 0 }
      else if at_least sm.number_sync_transmissions sm.ppg.sync_receipt_timeout
      then record sm' {
        number_sync_transmissions = 0;
        ppg = record (sm.ppg) { sync_slowdown = false };
      }
      else record sm' { number_sync_transmissions = u8 (sm.number_sync_transmissions + 1) }

  -- `none` if a message waits and rcvdPSSyncPtr is null.
  unfoldable pub send_md_sync_proc : ℕ → PortSyncSyncSend D → Option (PortSyncSyncSend D)
  unfolding take_pssync transmit
  send_md_sync_proc cts64 sm =
      if sm.rcvd_pssync
      then elim (sm.rcvd_pssync_ptr) [
        | none ↦ none
        | some p ↦ some (transmit cts64 (take_pssync p sm))
      ]
      else some (transmit cts64 sm)

  -- The first operand of the long condition, and the second one, whose difference is one of uint64_t.
  abbrev pub is_new : PortSyncSyncSend D → Option Bool
  is_new sm = if sm.ppg.sync_locked then from_other sm else some false

  abbrev pub is_due : ℕ → PortSyncSyncSend D → Bool
  is_due cts64 sm =
      not sm.ppg.sync_locked
      && leb sm.interval1 (u64 (2 ^ 64 + cts64 - sm.last_sync_sent_time))
      && not (sm.last_rcvd_port_num == sm.ppg.this_port)

  abbrev pub react_if : Bool → Bool → PortSyncSyncSend D → Option Bool → Option (PortSyncSyncSend D)
  react_if due may sm none = none
  react_if due may sm (some new) =
      some (if (new || due) && may then record sm { last_state = reaction } else sm)

  abbrev pub has_timed_out : ℕ → PortSyncSyncSend D → Bool
  has_timed_out cts64 sm = leb sm.sync_receipt_timeout_time cts64 && not sm.ppg.sync_locked

  unfoldable pub send_md_sync_condition :
      Config → ℕ → PortSyncSyncSend D → Option (PortSyncSyncSend D)
  send_md_sync_condition c cts64 sm =
      if has_timed_out cts64 sm
      then some (record sm { state = sync_receipt_timeout })
      else react_if (is_due cts64 sm) (may_send c sm) (record sm { state = send_md_sync })
          (is_new sm)

  unfoldable pub sync_receipt_timeout_condition : Config → PortSyncSyncSend D → Option State
  sync_receipt_timeout_condition c sm = go_if (may_send c sm) sync_receipt_timeout (from_other sm)

  abbrev pub at : PortSyncSyncSend D → Option State → Round (PortSyncSyncSend D) (MdSyncSend D)
  at sm none = none
  at sm (some s) = some (record sm { state = s }, none)

  abbrev pub ends : Bool → Option (PortSyncSyncSend D) → Round (PortSyncSyncSend D) (MdSyncSend D)
  ends sent none = none
  ends sent (some sm) = some (sm, if sent then sm.md_sync_send else none)

  -- On entry to SEND_MD_SYNC the condition is not asked.
  abbrev pub switch :
      Config → ℕ → State → Bool → PortSyncSyncSend D → Round (PortSyncSyncSend D) (MdSyncSend D)
  switch c cts64 init change sm = at sm (some transmit_init)
  switch c cts64 transmit_init change sm =
      let sm' = if change then transmit_init_proc sm else sm in
      at sm' (transmit_init_condition c sm')
  switch c cts64 send_md_sync change sm =
      ends change (if change then send_md_sync_proc cts64 sm else send_md_sync_condition c cts64 sm)
  switch c cts64 sync_receipt_timeout change sm =
      let sm' = if change then record sm { rcvd_pssync = false } else sm in
      at sm' (sync_receipt_timeout_condition c sm')
  switch c cts64 reaction change sm = some (sm, none)

  unfoldable pub round : Config → ℕ → PortSyncSyncSend D → Round (PortSyncSyncSend D) (MdSyncSend D)
  unfolding transmit_init_proc transmit_init_condition send_md_sync_proc send_md_sync_condition
      sync_receipt_timeout_condition
  round c cts64 sm =
      switch c cts64 sm.state (not (same sm.last_state sm.state))
        (record sm { last_state = sm.state })

  abbrev pub settled : PortSyncSyncSend D → Bool
  settled sm = same sm.last_state sm.state

  unfoldable pub port_sync_sync_send_sm :
      Config → ℕ → PortSyncSyncSend D → Outcome (PortSyncSyncSend D) (MdSyncSend D)
  unfolding allstate_condition
  port_sync_sync_send_sm c cts64 sm = loop settled (round c cts64) fuel (allstate_condition sm)

  -- port_sync_sync_send_sm_portSyncSync
  unfoldable pub send_port_sync_sync :
      Config → ℕ → PortSyncSync D → PortSyncSyncSend D → Outcome (PortSyncSyncSend D) (MdSyncSend D)
  unfolding port_sync_sync_send_sm
  send_port_sync_sync c cts64 p sm =
      port_sync_sync_send_sm c cts64 (record sm { rcvd_pssync = true; rcvd_pssync_ptr = some p })
