-- ===== src/PortSync/EndToEnd.antt =====
-- The way of synchronisation through the system, from a Follow_Up message on the slave port to the
-- message that a master port sends.
use excelfore_gptp.Common.{
  ℕ, ◌-◌, ◌<◌, ◌≤◌, ◌≡◌, ◌≢◌, ap, ◌∙◌, true, false, arith, Option, some, ◌==◌,
}
use excelfore_gptp.Config.{Config}
use excelfore_gptp.Machine.{done}
use excelfore_gptp.PortSync.Data.{DoubleOps, MdSyncReceive, MdSyncSend, PortSyncSync}
use excelfore_gptp.PortSync.Receive.{
  reaction, PortSyncSyncReceive, take_sync, set_ps_sync_pssr, recv_md_sync,
}
use excelfore_gptp.PortSync.Site.{SiteSyncSync, site_port_sync_sync, is_accepted, replaces}
use excelfore_gptp.PortSync.Send.{PortSyncSyncSend, may_send, send_port_sync_sync}
use excelfore_gptp.PortSync.ReceiveRun
use excelfore_gptp.PortSync.SiteRun
use excelfore_gptp.PortSync.SendRun
use excelfore_gptp.PortSync.Forwarding.{
  Bridge, for_all-each, send_machine, site_machine, after_site, after_receive, follow_up, forwarded,
}

module _ {D : Type 0} (f : DoubleOps D) (c : Config) (cts64 : ℕ) (m : MdSyncReceive D)
    (b : Bridge D) where
  -- The receiving machine after the message, and what it hands to the site.
  abbrev pub receiver : PortSyncSyncReceive D
  receiver = ReceiveRun.taken f c cts64 m (record (b.receive) { ptasg = b.site.ptasg })

  abbrev pub received : PortSyncSync D
  received = receiver.port_sync_sync

  -- The system is up, and its site takes the message.
  pub record Accepts : Type 0 where
    pub begin : b.site.ptasg.begin ≡ false
    pub instance_enable : b.site.ptasg.instance_enable ≡ true
    pub receive_state : b.receive.state ≢ reaction
    pub accepted : is_accepted c b.site received ≡ true
    pub fresh : replaces b.site received ≡ false
    pub at_rest : b.site.last_state ≡ b.site.state
    pub ready : SiteRun.IsReady c cts64 received b.site

  -- Port `j` is another port, is up as a master port and is ready to send.
  pub record Sends (j : ℕ) : Type 0 where
    pub lower : 1 ≤ j
    pub upper : j < b.max_ports
    pub other : (j == b.port_index) ≡ false
    pub other_number : (b.receive.ppg.this_port == (b.sends j).ppg.this_port) ≡ false
    pub may : may_send c (record (b.sends j) { ptasg = b.site.ptasg }) ≡ true
    pub at_rest : (b.sends j).last_state ≡ (b.sends j).state
    pub ready : SendRun.IsReady c cts64 received (b.sends j)

  -- The sending machine of port `j` once the site has passed on the message.
  abbrev sender : ℕ → PortSyncSyncSend D
  sender j = record (b.sends j) {
    ptasg = record (b.site.ptasg) { parent_log_sync_interval = m.log_message_interval };
  }

  sender-machine :
      (y : SiteSyncSync D) (j : ℕ)
      → SiteRun.HasPassed c cts64 received (site_machine receiver b) y
      → Sends j
      → send_machine receiver y b j ≡ sender j
  unfolding take_sync set_ps_sync_pssr
  sender-machine y j h s = ground (arith, h.system, s.other)

  sender_sends :
      (j : ℕ)
      → Accepts
      → Sends j
      → send_port_sync_sync c cts64 received (sender j)
        ≡ done (SendRun.sent c cts64 received (sender j)) (some (forwarded f m b (b.sends j)))
  unfolding take_sync set_ps_sync_pssr
  sender_sends j a s =
      SendRun.send-sends c cts64 received (sender j)
        (record {
          begin = a.begin;
          instance_enable = a.instance_enable;
          may = s.may;
          from_other = s.other_number;
        })
        s.at_rest s.ready

  receives :
      Accepts
      → recv_md_sync f c cts64 m (record (b.receive) { ptasg = b.site.ptasg })
        ≡ done receiver (some received)
  receives a =
      ReceiveRun.recv_md_sync-hands_on f c cts64 m (record (b.receive) { ptasg = b.site.ptasg })
        a.receive_state

  passes_on :
      Accepts
      → (y : SiteSyncSync D) × (site_port_sync_sync c cts64 received (site_machine receiver b)
          ≡ done y (some received))
        × SiteRun.HasPassed c cts64 received (site_machine receiver b) y
  unfolding take_sync set_ps_sync_pssr
  passes_on a =
      SiteRun.site-passes_on c cts64 received (site_machine receiver b)
        (record { begin = a.begin; instance_enable = a.instance_enable }) a.accepted a.fresh
        a.at_rest a.ready

  -- A Follow_Up message that the site takes passes through the system in one call, and every other
  -- master port that is up and ready sends a message for it: its origin timestamp, correction and
  -- upstream time are those of the message received, and its rate ratio is that of the message with the
  -- rate ratio of the neighbour added, less one.
  pub follow_up-forwarded :
      (j : ℕ)
      → Accepts
      → Sends j
      → (b' : Bridge D) × (out : ℕ → Option (MdSyncSend D)) × (follow_up f c cts64 m b
          ≡ some (b', out))
        × (out j ≡ some (forwarded f m b (b.sends j)))
  unfolding follow_up
  follow_up-forwarded j a s =
      let (y, e, h) = passes_on a in
      let (ptds, out, l, each) =
        for_all-each c cts64 received (b.max_ports - 1) 1 (send_machine receiver y b) in
      (
        record b { receive = receiver; site = y; sends = ptds },
        out,
        ap (after_receive c cts64 b) (receives a)
            ∙ ap (after_site c cts64 receiver b) e
            ∙ ground (arith, l),
        each j (SendRun.sent c cts64 received (sender j)) (some (forwarded f m b (b.sends j)))
            s.lower (omega (arith, s.lower, s.upper))
            (ap (send_port_sync_sync c cts64 received) (sender-machine y j h s)
              ∙ sender_sends j a s),
      )
