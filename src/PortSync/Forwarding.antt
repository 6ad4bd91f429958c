-- ===== src/PortSync/Forwarding.antt =====
-- gptpman.c: the way of a Follow_Up message from the port that receives it to the ports that send, as
-- gptpnet_cb_recv and portSyncSync_for_all call the machines. The other calls of portSyncSync_for_all,
-- which change none of these machines, are left out.
use excelfore_gptp.Common.{
  ℕ, zero, suc, ◌+◌, ◌-◌, ◌<◌, ◌≤◌, ◌≡◌, refl, sym, arith, Option, none, some, ◌==◌, if◌then◌else◌,
  Bool-cases, inl, inr, ==_iff,
}
use mathlib.Core.Path.{subst}
use excelfore_gptp.Config.{Config}
use excelfore_gptp.Arrays.{set}
use excelfore_gptp.Machine.{Outcome, done, fault, out_of_fuel}
use excelfore_gptp.PortSync.Data.{DoubleOps, MdSyncReceive, MdSyncSend, PortSyncSync}
use excelfore_gptp.PortSync.Receive.{PortSyncSyncReceive, recv_md_sync}
use excelfore_gptp.PortSync.Site.{SiteSyncSync, site_port_sync_sync}
use excelfore_gptp.PortSync.Send.{PortSyncSyncSend, send_port_sync_sync}
use excelfore_gptp.PortSync.SendRun

module _ {D : Type 0} where
  -- The loop of portSyncSync_for_all over `k` ports from `i` on: the machines afterwards, and what each
  -- port gives to its media-dependent layer.
  unfoldable pub port_sync_sync_for_all :
      Config
      → ℕ
      → PortSyncSync D
      → ℕ
      → ℕ
      → (ℕ → PortSyncSyncSend D)
      → Option ((ℕ → PortSyncSyncSend D) × (ℕ → Option (MdSyncSend D)))
  port_sync_sync_for_all c cts64 p zero i ptds = some (ptds, λ _. none)
  port_sync_sync_for_all c cts64 p (suc k) i ptds = elim (send_port_sync_sync c cts64 p (ptds i)) [
    | done sm retp ↦ elim (port_sync_sync_for_all c cts64 p k (i + 1) (set ptds i sm)) [
      | none ↦ none
      | some (ptds', out) ↦ some (ptds', set out i retp)
    ]
    | fault ↦ none
    | out_of_fuel ↦ none
  ]

  -- The loop ends, and gives for each of the ports what its machine returns.
  pub for_all-each :
      (c : Config) (cts64 : ℕ) (p : PortSyncSync D) (k i : ℕ) (ptds : ℕ → PortSyncSyncSend D)
      → (ptds' : ℕ → PortSyncSyncSend D) × (out : ℕ → Option (MdSyncSend D))
        × (port_sync_sync_for_all c cts64 p k i ptds ≡ some (ptds', out))
        × ((j : ℕ) (sm : PortSyncSyncSend D) (retp : Option (MdSyncSend D))
            → i ≤ j
            → j < i + k
            → send_port_sync_sync c cts64 p (ptds j) ≡ done sm retp
            → out j ≡ retp)
  unfolding port_sync_sync_for_all
  for_all-each c cts64 p zero i ptds =
      (ptds, λ _. none, refl, λ j sm retp a b e. absurd (omega (arith, a, b)))
  for_all-each c cts64 p (suc k) i ptds =
      let (sm, retp, e) = SendRun.send-Returns c cts64 p (ptds i) in
      let (ptds', out, e', each) = for_all-each c cts64 p k (i + 1) (set ptds i sm) in
      (
        ptds',
        set out i retp,
        ground (arith, e, e'),
        λ j x r a b q. elim (Bool-cases (i == j)) [
          | inl h ↦
              let ij : i ≡ j = (==_iff i j).0 h in
              let q' : send_port_sync_sync c cts64 p (ptds i) ≡ done x r =
                subst (λ (n : ℕ). send_port_sync_sync c cts64 p (ptds n) ≡ done x r) (sym ij) q in
              ground (arith, h, e, q')
          | inr h ↦
              let later : i + 1 ≤ j = ground (arith, a, h) in
              let there : send_port_sync_sync c cts64 p (set ptds i sm j) ≡ done x r =
                ground (arith, h, q) in
              let found = each j x r later (omega (arith, b)) there in ground (arith, h, found)
        ],
      )

-- The machines that a Follow_Up message on port `port_index` passes. The system's global variables are
-- those of `site`, and the port's are those of `receive`: the other copies are not looked at.
pub record Bridge (D : Type 0) : Type 0 where
  pub max_ports : ℕ
  pub port_index : ℕ
  pub receive : PortSyncSyncReceive D
  pub site : SiteSyncSync D
  pub sends : ℕ → PortSyncSyncSend D

module _ {D : Type 0} where
  -- The sending machine of port `j`, with the global variables that it shares.
  abbrev pub send_machine :
      PortSyncSyncReceive D → SiteSyncSync D → Bridge D → ℕ → PortSyncSyncSend D
  send_machine r s b j = record (b.sends j) {
    ptasg = s.ptasg;
    ppg = if j == b.port_index then r.ppg else (b.sends j).ppg;
  }

  -- The three calls of gptpnet_cb_recv, of which each is made if the one before gave something.
  abbrev pub after_site :
      Config
      → ℕ
      → PortSyncSyncReceive D
      → Bridge D
      → Outcome (SiteSyncSync D) (PortSyncSync D)
      → Option (Bridge D × (ℕ → Option (MdSyncSend D)))
  after_site c cts64 r b (done s none) = some (record b { receive = r; site = s }, λ _. none)
  after_site c cts64 r b (done s (some p)) =
      elim (port_sync_sync_for_all c cts64 p (b.max_ports - 1) 1 (send_machine r s b)) [
        | none ↦ none
        | some (ptds, out) ↦ some (record b { receive = r; site = s; sends = ptds }, out)
      ]
  after_site c cts64 r b fault = none
  after_site c cts64 r b out_of_fuel = none

  -- The site's machine, with the global variables that the receiving machine leaves.
  abbrev pub site_machine : PortSyncSyncReceive D → Bridge D → SiteSyncSync D
  site_machine r b = record (b.site) { ptasg = r.ptasg }

  abbrev pub after_receive :
      Config
      → ℕ
      → Bridge D
      → Outcome (PortSyncSyncReceive D) (PortSyncSync D)
      → Option (Bridge D × (ℕ → Option (MdSyncSend D)))
  after_receive c cts64 b (done r none) =
      some (record b { receive = r; site = site_machine r b }, λ _. none)
  after_receive c cts64 b (done r (some p)) =
      after_site c cts64 r b (site_port_sync_sync c cts64 p (site_machine r b))
  after_receive c cts64 b fault = none
  after_receive c cts64 b out_of_fuel = none

  unfoldable pub follow_up :
      DoubleOps D
      → Config
      → ℕ
      → MdSyncReceive D
      → Bridge D
      → Option (Bridge D × (ℕ → Option (MdSyncSend D)))
  unfolding port_sync_sync_for_all
  follow_up f c cts64 m b =
      after_receive c cts64 b
        (recv_md_sync f c cts64 m (record (b.receive) { ptasg = b.site.ptasg }))

  -- What a master port sends for a message that another port received: its time and its correction are
  -- those of the message, and its rate is the message's with that of the neighbour added.
  abbrev pub forwarded :
      DoubleOps D → MdSyncReceive D → Bridge D → PortSyncSyncSend D → MdSyncSend D
  forwarded f m b sm = record {
    domain_number = b.site.ptasg.domain_number;
    follow_up_correction_field = m.follow_up_correction_field;
    source_port_identity = record {
      clock_identity = b.site.ptasg.this_clock;
      port_number = sm.ppg.this_port;
    };
    log_message_interval = sm.ppg.current_log_sync_interval;
    precise_origin_timestamp = m.precise_origin_timestamp;
    upstream_tx_time = m.upstream_tx_time;
    rate_ratio = f.add m.rate_ratio (f.sub b.receive.neighbor_rate_ratio f.one);
    gm_time_base_indicator = m.gm_time_base_indicator;
    last_gm_phase_change = m.last_gm_phase_change;
    last_gm_freq_change = m.last_gm_freq_change;
  }
