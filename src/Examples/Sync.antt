-- ===== src/Examples/Sync.antt =====
-- Synchronisation through a bridge with three ports: port 1 is the slave port, port 2 a master port. A
-- double is a number of billionths.
use excelfore_gptp.Common.{
  ℕ, pos, ◌+◌, ◌-◌, ◌≡◌, refl, arith, true, false, Option, none, some, inl, ◌==◌, if◌then◌else◌,
}
use excelfore_gptp.Types.{slave_port, master_port}
use excelfore_gptp.Config.{log_to_nsec}
use excelfore_gptp.Globals.{PerTimeAwareSystemGlobal}
use excelfore_gptp.Machine.{done}
use excelfore_gptp.PortSync.Data.{
  DoubleOps, ScaledNs, Timestamp, MdSyncReceive, MdSyncSend, PortSyncSync,
}
use excelfore_gptp.PortSync.Receive
use excelfore_gptp.PortSync.ReceiveRun
use excelfore_gptp.PortSync.Site
use excelfore_gptp.PortSync.Send
use excelfore_gptp.PortSync.Forwarding.{Bridge, follow_up, forwarded}
use excelfore_gptp.PortSync.EndToEnd.{Accepts, Sends, follow_up-forwarded}
use excelfore_gptp.Examples.Data.{
  sample_config, sample_system, sample_port, sample_clock, own_identity, gm_identity,
}

abbrev billionths : DoubleOps ℕ
billionths = record { add = ◌+◌; sub = ◌-◌; one = 1000000000 }

abbrev no_time : ScaledNs
no_time = record { subns = 0; nsec = pos 0; nsec_msb = pos 0 }

abbrev epoch : Timestamp
epoch = record { nanoseconds = 0; seconds = 0 }

abbrev message : MdSyncReceive ℕ
message = record {
  domain_number = 0;
  follow_up_correction_field = record no_time { nsec = pos 150 };
  source_port_identity = record { clock_identity = gm_identity; port_number = 1 };
  log_message_interval = pos 0;
  precise_origin_timestamp = record { nanoseconds = 5; seconds = 1000 };
  upstream_tx_time = 700;
  rate_ratio = 1000000003;
  gm_time_base_indicator = 0;
  last_gm_phase_change = no_time;
  last_gm_freq_change = 0;
  seqid = 9;
}

abbrev system : PerTimeAwareSystemGlobal
system = record sample_system {
  selected_state = λ i. if i == 1 then slave_port else master_port;
  gm_present = true;
}

abbrev nothing : PortSyncSync ℕ
nothing = record {
  domain_number = 0;
  local_port_number = 0;
  sync_receipt_timeout_time = 0;
  follow_up_correction_field = no_time;
  source_port_identity = record { clock_identity = own_identity; port_number = 0 };
  log_message_interval = pos 0;
  precise_origin_timestamp = epoch;
  upstream_tx_time = 0;
  rate_ratio = 0;
  gm_time_base_indicator = 0;
  last_gm_phase_change = no_time;
  last_gm_freq_change = 0;
  local_port_index = 0;
  sync_next_send_timeout_time = 0;
  last_sync_seq_id = 0;
}

abbrev bridge : Bridge ℕ
bridge = record {
  max_ports = 3;
  port_index = 1;
  receive = record {
    ptasg = system;
    ppg = record (sample_port 1) { sync_receipt_timeout = pos 3 };
    neighbor_rate_ratio = 1000000004;
    state = Receive.received_sync;
    last_state = Receive.received_sync;
    rcvd_md_sync = false;
    rcvd_md_sync_ptr = none;
    port_sync_sync = nothing;
  };
  site = record {
    ptasg = system;
    clocks = λ _. sample_clock;
    state = Site.initializing;
    last_state = Site.initializing;
    domain_index = 0;
    rcvd_pssync = false;
    rcvd_pssync_ptr = none;
    tx_pssync_ptr_sss = none;
    port_sync_sync = none;
    site_sync_timeout = 0;
    site_sync_sendtime = 0;
  };
  sends = λ i. record {
    ptasg = system;
    ppg = sample_port i;
    port_index = i;
    state = Send.transmit_init;
    last_state = Send.transmit_init;
    rcvd_pssync = false;
    rcvd_pssync_ptr = none;
    last_precise_origin_timestamp = epoch;
    last_follow_up_correction_field = no_time;
    last_rate_ratio = 0;
    last_upstream_tx_time = 0;
    last_sync_sent_time = 0;
    last_rcvd_port_num = 0;
    last_gm_time_base_indicator = 0;
    last_gm_phase_change = no_time;
    last_gm_freq_change = 0;
    sync_receipt_timeout_time = 0;
    number_sync_transmissions = 0;
    interval1 = 0;
    md_sync_send = none;
  };
}

bridge-Accepts : Accepts billionths sample_config 5000 message bridge
unfolding Receive.take_sync Receive.set_ps_sync_pssr log_to_nsec
bridge-Accepts = record {
  begin = refl;
  instance_enable = refl;
  receive_state = λ e. ground (arith, e);
  accepted = refl;
  fresh = refl;
  at_rest = refl;
  ready = inl refl;
}

bridge-Sends : Sends billionths sample_config 5000 message bridge 2
bridge-Sends = record {
  lower = omega arith;
  upper = omega arith;
  other = refl;
  other_number = refl;
  may = refl;
  at_rest = refl;
  ready = inl refl;
}

forwarded_example :
    (b' : Bridge ℕ) × (out : ℕ → Option (MdSyncSend ℕ)) × (follow_up billionths sample_config 5000
        message bridge
      ≡ some (b', out))
    × (out 2 ≡ some (forwarded billionths message bridge (bridge.sends 2)))
forwarded_example =
    follow_up-forwarded billionths sample_config 5000 message bridge 2 bridge-Accepts bridge-Sends

-- The port is down.
abbrev down : Receive.PortSyncSyncReceive ℕ
down = record (bridge.receive) { ppg = record (bridge.receive.ppg) { as_capable = false } }

hands_on_example :
    Receive.recv_md_sync billionths sample_config 5000 message down
    ≡ done
        (ReceiveRun.taken billionths sample_config 5000 message down)
        (some (ReceiveRun.taken billionths sample_config 5000 message down).port_sync_sync)
hands_on_example =
    ReceiveRun.recv_md_sync-hands_on billionths sample_config 5000 message down
      (λ e. ground (arith, e))
