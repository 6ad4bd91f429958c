-- ===== src/Examples/Transmit.antt =====
-- port_announce_transmit_sm.c at port 2 of the bridge, which announces itself.
use excelfore_gptp.Common.{ℕ, true, false, some, arith, ◌<◌, ◌≡◌, refl}
use excelfore_gptp.Machine.{done, out_of_fuel}
use excelfore_gptp.AnnounceReceive.Machine.{
  PortAnnounceReceive, discard, path_length, qualify_announce,
}
use excelfore_gptp.AnnounceInformation.Procs.{message_vector, announced_properties}
use excelfore_gptp.AnnounceTransmit.Machine.{
  PortAnnounceTransmit, idle, may_transmit, tx_announce, rounds, port_announce_transmit_sm,
}
use excelfore_gptp.AnnounceTransmit.Message.{tx_announce-read, tx_announce_stops}
use excelfore_gptp.AnnounceTransmit.Run.{late_call_cycles, announce_sent}
use excelfore_gptp.Globals.Init.{bmcs_ptas_glb_init}
use excelfore_gptp.Examples.Data.{
  sample_system, sample_port, sample_bmcs_system, sample_bmcs_port, announce_of, vector_of,
  own_identity,
}

abbrev announcer : PortAnnounceTransmit
announcer = record {
  ptasg = sample_system;
  ppg = sample_port 2;
  bptasg = record sample_bmcs_system {
    path_trace = λ _. own_identity;
    path_trace_count = 1;
    selected = λ _. true;
  };
  bppg = record (sample_bmcs_port 2) {
    new_info = true;
    master_priority = vector_of 248 own_identity 2;
  };
  state = idle;
  last_state = idle;
  port_index = 2;
  announce_send_time = 1000;
  number_announce_transmissions = 0;
  interval2 = 1000000000;
  announce_tx = record (announce_of 0 0) {
    header = record ((announce_of 0 0).header) { flags = 0 };
  };
}

may_send : may_transmit 5 announcer ≡ true
may_send = refl

sent_example :
    (sm' : PortAnnounceTransmit) × (port_announce_transmit_sm 5 announcer
      ≡ done sm' (some (tx_announce announcer)))
    × (sm'.state ≡ idle)
    × (sm'.bppg.new_info ≡ false)
    × (sm'.announce_tx ≡ tx_announce announcer)
sent_example = announce_sent 5 announcer refl refl refl refl refl may_send

-- With an interval of 0 and a send time that has come.
abbrev late_announcer : PortAnnounceTransmit
late_announcer = record announcer { interval2 = 0; announce_send_time = 0 }

late_example : rounds 1000 5 late_announcer ≡ out_of_fuel
late_example =
    late_call_cycles 1000 5 late_announcer refl refl refl refl
      (record { late = omega arith; due = omega arith; periodic = refl })

abbrev hearer : PortAnnounceReceive
hearer = record {
  ptasg = sample_system;
  ppg = sample_port 1;
  bptasg = sample_bmcs_system;
  bppg = sample_bmcs_port 1;
  state = discard;
  last_state = discard;
  rcvd_announce = false;
}

stops_example : (qualify_announce hearer (tx_announce announcer)).1 ≡ false
stops_example = tx_announce_stops announcer hearer 0 (omega arith) (omega arith) refl

read_example :
    (message_vector (sample_port 3) (tx_announce announcer) ≡ record {
      root_system_identity = (vector_of 248 own_identity 2).root_system_identity;
      steps_removed = 0;
      source_port_identity = announcer.announce_tx.header.source_port_identity;
      port_number = 3;
    })
    × (path_length (tx_announce announcer) ≡ 1)
    × ((j : ℕ) → j < 1 → (tx_announce announcer).path_sequence j ≡ own_identity)
    × (announced_properties (tx_announce announcer) ≡ announcer.bptasg.time_properties)
unfolding bmcs_ptas_glb_init
read_example = tx_announce-read announcer (sample_port 3) (omega arith) refl
