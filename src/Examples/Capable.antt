-- ===== src/Examples/Capable.antt =====
-- gptp_capable_receive_sm.c at a port that is up.
use excelfore_gptp.Common.{pos, negsuc, true, false, none, some, arith, ◌≡◌, refl}
use excelfore_gptp.Machine.{done}
use excelfore_gptp.CapableReceive.Machine.{
  received_tlv, GptpCapableReceive, gptp_capable_receive_sm,
}
use excelfore_gptp.CapableReceive.Run.{IsUp, lost, timeout_loses}
use excelfore_gptp.Examples.Data.{sample_config, sample_system, sample_port}

abbrev watcher : GptpCapableReceive
watcher = record {
  ptasg = sample_system;
  ppg = record (sample_port 1) {
    neighbor_gptp_capable = true;
    gptp_capable_receipt_timeout = pos 9;
    for_all_domain = record ((sample_port 1).for_all_domain) {
      received_non_cmlds_pdelay_req = negsuc 0;
    };
  };
  state = received_tlv;
  last_state = received_tlv;
  rcvd_gptp_capable_tlv = false;
  rcvd_signaling_msg_ptr = some (pos 3);
  gptp_capable_receipt_timeout_interval = 900;
  timeout_time = 1000;
}

watcher-IsUp : IsUp watcher
watcher-IsUp = record { begin = refl; instance_enable = refl; enabled = refl }

loses_example : gptp_capable_receive_sm sample_config 2000 watcher ≡ done (lost watcher) none
loses_example = timeout_loses sample_config 2000 watcher watcher-IsUp refl refl refl (omega arith)
