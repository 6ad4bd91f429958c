-- ===== src/PortSync/Site.antt =====
-- site_sync_sync_sm.c: the SiteSyncSync machine, which passes on the synchronisation of the slave port.
use excelfore_gptp.Common.{
  ℕ, ℤ, pos, negsuc, Bool, true, false, not, ◌&&◌, ◌||◌, Option, none, some, ltb, leb, ◌==◌,
  if◌then◌else◌, u8, ◌^◌, ◌-◌,
}
use excelfore_gptp.Types.{slave_port}
use excelfore_gptp.Config.{Config}
use excelfore_gptp.Arrays.{set}
use excelfore_gptp.Clock.{MasterClock, reset_gmsync, set_gmstable}
use excelfore_gptp.Globals.{PerTimeAwareSystemGlobal}
use excelfore_gptp.Machine.{Outcome, Round, loop}
use excelfore_gptp.PortSync.Data.{PortSyncSync, is_item}

pub data State : Type 0 where
  init initializing receiving_sync reaction : State

abbrev pub code : State → ℕ
code init = 0
code initializing = 1
code receiving_sync = 2
code reaction = 3

abbrev pub same : State → State → Bool
same s t = code s == code t

-- site_sync_sync_data, with the members of thisSM. A pointer to a PortSyncSync holds the value that it
-- points to. `clocks` holds the master clock of each domain number, with the domain's entry of gcd.pdd,
-- which the machine's domain index finds.
pub record SiteSyncSync (D : Type 0) : Type 0 where
  pub ptasg : PerTimeAwareSystemGlobal
  pub clocks : ℕ → MasterClock
  pub state : State
  pub last_state : State
  pub domain_index : ℕ
  pub rcvd_pssync : Bool
  pub rcvd_pssync_ptr : Option (PortSyncSync D)
  pub tx_pssync_ptr_sss : Option (PortSyncSync D)
  pub port_sync_sync : Option (PortSyncSync D)
  pub site_sync_timeout : ℕ  -- uint64_t
  pub site_sync_sendtime : ℕ  -- uint64_t

-- `sm->x && ...` for a uint64_t
abbrev nonzero : ℕ → Bool
nonzero n = not (n == 0)

-- `gptpconf_get_intitem(...) > 0`
abbrev is_positive : ℤ → Bool
is_positive (pos n) = nonzero n
is_positive (negsuc n) = false

abbrev pub fuel : ℕ
fuel = 10

module _ {D : Type 0} where
  -- The state that the call starts in, and whether last_state becomes REACTION.
  unfoldable pub allstate_condition : SiteSyncSync D → SiteSyncSync D
  allstate_condition sm =
      if sm.ptasg.begin || not sm.ptasg.instance_enable
      then record sm { last_state = reaction; state = initializing }
      else sm

  -- SELECTED_STATE[p->localPortIndex] == SlavePort && GM_PRESENT
  abbrev pub from_slave : SiteSyncSync D → PortSyncSync D → Bool
  from_slave sm p = sm.ptasg.selected_state p.local_port_index == slave_port && sm.ptasg.gm_present

  -- The condition of both states on a message that is there.
  abbrev pub is_accepted : Config → SiteSyncSync D → PortSyncSync D → Bool
  is_accepted c sm p = from_slave sm p || is_item c.test_sync_rec_port p.local_port_index

  -- `none` if a message waits and rcvdPSSyncPtr is null.
  unfoldable pub initializing_condition : Config → SiteSyncSync D → Option State
  initializing_condition c sm =
      if sm.rcvd_pssync
      then elim (sm.rcvd_pssync_ptr) [
        | none ↦ none
        | some p ↦ some (if is_accepted c sm p then receiving_sync else initializing)
      ]
      else some initializing

  -- receiving_sync_proc with setPSSyncSend, on a message that is there
  unfoldable pub pass_on : PortSyncSync D → SiteSyncSync D → SiteSyncSync D
  pass_on p sm = record sm {
    rcvd_pssync = false;
    port_sync_sync = some p;
    site_sync_timeout = p.sync_receipt_timeout_time;
    site_sync_sendtime = p.sync_next_send_timeout_time;
    tx_pssync_ptr_sss = some p;
    ptasg = record (sm.ptasg) { parent_log_sync_interval = p.log_message_interval };
  }

  -- `none` if rcvdPSSyncPtr is null.
  unfoldable pub receiving_sync_proc : SiteSyncSync D → Option (SiteSyncSync D)
  unfolding pass_on
  receiving_sync_proc sm = elim (sm.rcvd_pssync_ptr) [ none ↦ none | some p ↦ some (pass_on p sm) ]

  -- The second `if` of receiving_sync_condition, for the message that waits and the one sent before:
  -- Sync has been lost.
  abbrev is_late : ℕ → SiteSyncSync D → PortSyncSync D → Bool
  is_late cts64 sm tx =
      from_slave sm tx
      && nonzero sm.site_sync_timeout
      && not (ltb sm.site_sync_timeout cts64)
      && nonzero sm.site_sync_sendtime
      && ltb sm.site_sync_sendtime cts64

  abbrev pub replaces : SiteSyncSync D → PortSyncSync D → Bool
  replaces sm p =
      p.sync_receipt_timeout_time == 2 ^ 64 - 1
      || leb p.sync_receipt_timeout_time sm.site_sync_sendtime

  abbrev lost_sync : ℕ → PortSyncSync D → PortSyncSync D → SiteSyncSync D → SiteSyncSync D
  lost_sync cts64 p tx sm =
      if is_late cts64 sm tx
      then record sm {
        rcvd_pssync_ptr = some (if replaces sm p then tx else p);
        last_state = reaction;
      }
      else sm

  -- The first two `if`s, with a message that waits.
  abbrev with_message : Config → ℕ → SiteSyncSync D → Option (SiteSyncSync D)
  with_message c cts64 sm = elim (sm.rcvd_pssync_ptr) [
    | none ↦ none
    | some p ↦ elim (sm.tx_pssync_ptr_sss) [
      | none ↦ none
      | some tx ↦ some (
          lost_sync cts64 p tx
            (if is_accepted c sm p then record sm { last_state = reaction } else sm))
    ]
  ]

  -- What a static slave port does on the timeout. gptpclock_reset_gmsync gets the domain's index as the
  -- domain's number.
  abbrev tell_clock : SiteSyncSync D → ℕ → MasterClock
  tell_clock sm =
      let k = set sm.clocks (u8 sm.domain_index) (reset_gmsync (sm.clocks (u8 sm.domain_index))) in
      set k sm.ptasg.domain_number (set_gmstable false (k sm.ptasg.domain_number))

  -- The third `if`: the timeout is told once.
  unfoldable pub check_timeout : Config → ℕ → SiteSyncSync D → SiteSyncSync D
  check_timeout c cts64 sm =
      if nonzero sm.site_sync_timeout && ltb sm.site_sync_timeout cts64
      then record sm {
        site_sync_timeout = 0;
        clocks = if is_positive c.static_port_state_slave_port then tell_clock sm else sm.clocks;
      }
      else sm

  abbrev pub stay : Config → ℕ → Option (SiteSyncSync D) → Option (SiteSyncSync D)
  stay c cts64 none = none
  stay c cts64 (some sm) = some (record (check_timeout c cts64 sm) { state = receiving_sync })

  unfoldable pub receiving_sync_condition : Config → ℕ → SiteSyncSync D → Option (SiteSyncSync D)
  unfolding check_timeout
  receiving_sync_condition c cts64 sm =
      stay c cts64 (if sm.rcvd_pssync then with_message c cts64 sm else some sm)

  abbrev pub at : SiteSyncSync D → Option State → Round (SiteSyncSync D) (PortSyncSync D)
  at sm none = none
  at sm (some s) = some (record sm { state = s }, none)

  abbrev pub ends :
      Option (PortSyncSync D) → Option (SiteSyncSync D) → Round (SiteSyncSync D) (PortSyncSync D)
  ends retp none = none
  ends retp (some sm) = some (sm, retp)

  abbrev pub after_receiving :
      Config → ℕ → Option (SiteSyncSync D) → Round (SiteSyncSync D) (PortSyncSync D)
  after_receiving c cts64 none = none
  after_receiving c cts64 (some sm) = ends sm.port_sync_sync (receiving_sync_condition c cts64 sm)

  abbrev pub switch :
      Config → ℕ → State → Bool → SiteSyncSync D → Round (SiteSyncSync D) (PortSyncSync D)
  switch c cts64 init change sm = at sm (some initializing)
  switch c cts64 initializing change sm =
      let sm' = if change then record sm { rcvd_pssync = false } else sm in
      at sm' (initializing_condition c sm')
  switch c cts64 receiving_sync change sm =
      if change
      then after_receiving c cts64 (receiving_sync_proc sm)
      else ends none (receiving_sync_condition c cts64 sm)
  switch c cts64 reaction change sm = some (sm, none)

  unfoldable pub round : Config → ℕ → SiteSyncSync D → Round (SiteSyncSync D) (PortSyncSync D)
  unfolding initializing_condition receiving_sync_proc receiving_sync_condition
  round c cts64 sm =
      switch c cts64 sm.state (not (same sm.last_state sm.state))
        (record sm { last_state = sm.state })

  abbrev pub settled : SiteSyncSync D → Bool
  settled sm = same sm.last_state sm.state

  unfoldable pub site_sync_sync_sm :
      Config → ℕ → SiteSyncSync D → Outcome (SiteSyncSync D) (PortSyncSync D)
  unfolding allstate_condition
  site_sync_sync_sm c cts64 sm = loop settled (round c cts64) fuel (allstate_condition sm)

  -- site_sync_sync_sm_portSyncSync
  unfoldable pub site_port_sync_sync :
      Config → ℕ → PortSyncSync D → SiteSyncSync D → Outcome (SiteSyncSync D) (PortSyncSync D)
  unfolding site_sync_sync_sm
  site_port_sync_sync c cts64 p sm =
      site_sync_sync_sm c cts64 (record sm { rcvd_pssync = true; rcvd_pssync_ptr = some p })
