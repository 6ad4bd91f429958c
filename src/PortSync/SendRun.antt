-- ===== src/PortSync/SendRun.antt =====
-- port_sync_sync_send_sm_portSyncSync: what a master port sends of the synchronisation that the site
-- passes on.
use excelfore_gptp.Common.{
  ℕ, ◌≡◌, ◌≢◌, refl, ◌∙◌, ap, true, false, arith, ◌⊎◌, inl, inr, none, some, ◌==◌, is_some,
}
use excelfore_gptp.Config.{Config}
use excelfore_gptp.Machine.{done, loop, loop-next, loop-stop, Returns, Continues, loop-Returns}
use excelfore_gptp.PortSync.Data.{MdSyncSend, PortSyncSync}
use excelfore_gptp.PortSync.Send.{
  State, init, transmit_init, send_md_sync, sync_receipt_timeout, reaction, PortSyncSyncSend,
  set_md_sync, allstate_condition, transmit_init_proc, may_send, transmit_init_condition,
  take_pssync, transmit, send_md_sync_proc, send_md_sync_condition, sync_receipt_timeout_condition,
  round, settled, fuel, port_sync_sync_send_sm, send_port_sync_sync,
}

module _ {D : Type 0} (c : Config) (cts64 : ℕ) (p : PortSyncSync D) where
  abbrev pub given : State → State → PortSyncSyncSend D → PortSyncSyncSend D
  given s l sm = record sm {
    rcvd_pssync = true;
    rcvd_pssync_ptr = some p;
    state = s;
    last_state = l;
  }

  -- The message of the port for the synchronisation `p`: the time and the rate are those of `p`, the
  -- identity and the interval are the port's.
  abbrev pub md_sync_of : PortSyncSyncSend D → MdSyncSend D
  md_sync_of sm = record {
    domain_number = sm.ptasg.domain_number;
    follow_up_correction_field = p.follow_up_correction_field;
    source_port_identity = record {
      clock_identity = sm.ptasg.this_clock;
      port_number = sm.ppg.this_port;
    };
    log_message_interval = sm.ppg.current_log_sync_interval;
    precise_origin_timestamp = p.precise_origin_timestamp;
    upstream_tx_time = p.upstream_tx_time;
    rate_ratio = p.rate_ratio;
    gm_time_base_indicator = p.gm_time_base_indicator;
    last_gm_phase_change = p.last_gm_phase_change;
    last_gm_freq_change = p.last_gm_freq_change;
  }

  abbrev pub sent : PortSyncSyncSend D → PortSyncSyncSend D
  sent sm = transmit cts64 (take_pssync p (given send_md_sync send_md_sync sm))

  sends :
      (l : State) (sm : PortSyncSyncSend D)
      → l ≢ send_md_sync
      → round c cts64 (given send_md_sync l sm) ≡ some (sent sm, some (md_sync_of sm))
  unfolding round send_md_sync_proc take_pssync transmit set_md_sync
  sends l sm h = ground (arith, h)

  -- The port is up, sends, and did not hand the message to the site itself.
  pub record IsUp (sm : PortSyncSyncSend D) : Type 0 where
    pub begin : sm.ptasg.begin ≡ false
    pub instance_enable : sm.ptasg.instance_enable ≡ true
    pub may : may_send c sm ≡ true
    pub from_other : (p.local_port_number == sm.ppg.this_port) ≡ false

  leaves_init :
      (sm : PortSyncSyncSend D)
      → IsUp sm
      → round c cts64 (given transmit_init transmit_init sm)
        ≡ some (given send_md_sync transmit_init sm, none)
  unfolding round transmit_init_condition
  leaves_init sm u = ground (arith, u.may, u.from_other)

  leaves_timeout :
      (sm : PortSyncSyncSend D)
      → IsUp sm
      → round c cts64 (given sync_receipt_timeout sync_receipt_timeout sm)
        ≡ some (given send_md_sync sync_receipt_timeout sm, none)
  unfolding round sync_receipt_timeout_condition
  leaves_timeout sm u = ground (arith, u.may, u.from_other)

  reacts :
      (sm : PortSyncSyncSend D)
      → IsUp sm
      → sm.ppg.sync_locked ≡ true
      → round c cts64 (given send_md_sync send_md_sync sm)
        ≡ some (given send_md_sync reaction sm, none)
  unfolding round send_md_sync_condition
  reacts sm u k = ground (arith, u.may, u.from_other, k)

  starts :
      (sm : PortSyncSyncSend D)
      → IsUp sm
      → allstate_condition (given sm.state sm.last_state sm) ≡ given sm.state sm.last_state sm
  unfolding allstate_condition
  starts sm u = ground (arith, u.begin, u.instance_enable, u.may)

  begins :
      (sm : PortSyncSyncSend D) (s : State)
      → IsUp sm
      → sm.state ≡ s
      → sm.last_state ≡ sm.state
      → send_port_sync_sync c cts64 p sm ≡ loop settled (round c cts64) fuel (given s s sm)
  unfolding send_port_sync_sync port_sync_sync_send_sm
  begins sm s u e r = ap (loop settled (round c cts64) fuel) (starts sm u) ∙ λ j.
      loop settled (round c cts64) fuel (given (e j) ((r ∙ e) j) sm)

  two_rounds :
      (sm : PortSyncSyncSend D) (s l : State)
      → IsUp sm
      → sm.state ≡ s
      → sm.last_state ≡ sm.state
      → round c cts64 (given s s sm) ≡ some (given send_md_sync l sm, none)
      → l ≢ send_md_sync
      → settled (given send_md_sync l sm) ≡ false
      → send_port_sync_sync c cts64 p sm ≡ done (sent sm) (some (md_sync_of sm))
  two_rounds sm s l u e r q n g =
      begins sm s u e r
      ∙ loop-next settled (round c cts64) 9 (given s s sm) (given send_md_sync l sm) none q g
      ∙ loop-stop settled (round c cts64) 8 (given send_md_sync l sm) (sent sm)
          (some (md_sync_of sm)) (sends l sm n) refl

  -- The machine rests, ready to send at once.
  abbrev pub IsReady : PortSyncSyncSend D → Type 0
  IsReady sm =
      (sm.state ≡ transmit_init)
      ⊎ ((sm.state ≡ sync_receipt_timeout)
          ⊎ ((sm.state ≡ send_md_sync) × (sm.ppg.sync_locked ≡ true)))

  -- A port that is up and sends, and waits for synchronisation or is locked to the rate in which it
  -- comes, sends a message for synchronisation from another port in its call.
  pub send-sends :
      (sm : PortSyncSyncSend D)
      → IsUp sm
      → sm.last_state ≡ sm.state
      → IsReady sm
      → send_port_sync_sync c cts64 p sm ≡ done (sent sm) (some (md_sync_of sm))
  send-sends sm u r (inl e) =
      two_rounds sm transmit_init transmit_init u e r (leaves_init sm u) (λ q. ground (arith, q))
        refl
  send-sends sm u r (inr (inl e)) =
      two_rounds sm sync_receipt_timeout sync_receipt_timeout u e r (leaves_timeout sm u)
        (λ q. ground (arith, q)) refl
  send-sends sm u r (inr (inr (e, k))) =
      two_rounds sm send_md_sync reaction u e r (reacts sm u k) (λ q. ground (arith, q)) refl

-- A bound on the rounds to go.
abbrev rank_of : State → State → ℕ
rank_of init l = 5
rank_of transmit_init l = 4
rank_of send_md_sync send_md_sync = 3
rank_of send_md_sync l = 1
rank_of sync_receipt_timeout l = 2
rank_of reaction l = 0

module _ {D : Type 0} (c : Config) (cts64 : ℕ) where
  abbrev rank : PortSyncSyncSend D → ℕ
  rank sm = rank_of sm.state sm.last_state

  abbrev HasSync : PortSyncSyncSend D → Type 0
  HasSync sm = is_some sm.rcvd_pssync_ptr ≡ true

  round-Keeps :
      (sm : PortSyncSyncSend D)
      → HasSync sm
      → Continues settled (round c cts64) HasSync rank sm (round c cts64 sm)
  unfolding round transmit_init_proc transmit_init_condition send_md_sync_proc take_pssync transmit
      send_md_sync_condition sync_receipt_timeout_condition
  round-Keeps sm h = ground (arith, h)

  -- A call with a message returns.
  pub send-Returns :
      (p : PortSyncSync D) (sm : PortSyncSyncSend D) → Returns (send_port_sync_sync c cts64 p sm)
  unfolding send_port_sync_sync port_sync_sync_send_sm allstate_condition
  send-Returns p sm =
      loop-Returns settled (round c cts64) HasSync rank round-Keeps fuel
        (allstate_condition (record sm { rcvd_pssync = true; rcvd_pssync_ptr = some p }))
        (ground arith) (ground arith)
