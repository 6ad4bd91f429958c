-- ===== src/Examples/Receive.antt =====
-- port_announce_receive_sm.c at a port that is up.
use excelfore_gptp.Common.{true, false, arith, ◌≤◌, ◌≡◌, ◌↔◌, refl}
use excelfore_gptp.Types.{PtpMsgAnnounce, slave_port, max_path_trace_n}
use excelfore_gptp.Arrays.{exists_from}
use excelfore_gptp.Priority.{memcmp}
use excelfore_gptp.AnnounceReceive.Machine.{
  PortAnnounceReceive, discard, path_length, qualify_announce,
}
use excelfore_gptp.AnnounceReceive.Qualify.{
  IsQualified, IsTrace, qualify_announce_iff, qualify_announce-IsTrace, qualify_announce-count-le,
}
use excelfore_gptp.Examples.Data.{
  sample_system, sample_port, sample_bmcs_system, sample_bmcs_port, announce_of,
}

abbrev receiver : PortAnnounceReceive
receiver = record {
  ptasg = record sample_system { selected_state = λ _. slave_port };
  ppg = sample_port 1;
  bptasg = sample_bmcs_system;
  bppg = sample_bmcs_port 1;
  state = discard;
  last_state = discard;
  rcvd_announce = false;
}

abbrev better : PtpMsgAnnounce
better = announce_of 90 8

qualify_example : ((qualify_announce receiver better).1 ≡ true) ↔ IsQualified receiver better
qualify_example = qualify_announce_iff receiver better

better_qualified : (qualify_announce receiver better).1 ≡ true
unfolding qualify_announce exists_from memcmp
better_qualified = refl

path_example :
    IsTrace
      (qualify_announce receiver better).0
      better.path_sequence
      (path_length better)
      receiver.ptasg.this_clock
path_example = qualify_announce-IsTrace receiver better refl refl better_qualified

count_example : (qualify_announce receiver better).0.path_trace_count ≤ max_path_trace_n
count_example = qualify_announce-count-le receiver better (omega arith)
