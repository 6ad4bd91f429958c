-- ===== src/Examples/Information.antt =====
-- port_announce_information_sm.c at a port that is up and rests in CURRENT.
use excelfore_gptp.Common.{true, false, Option, none, some, arith, ◌≡◌, refl, is_some}
use excelfore_gptp.Types.{
  PtpMsgAnnounce, received, aged, disabled, repeated_master_info, superior_master_info,
  inferior_master_info,
}
use excelfore_gptp.Config.{log_to_nsec}
use excelfore_gptp.Machine.{done, fault}
use excelfore_gptp.Priority.{
  compare_priority_vectors, memcmp, octets, octets_112, octets_port, uint16_octets,
}
use excelfore_gptp.AnnounceInformation.Procs.{
  PortAnnounceInformation, current, disabled_state, aged_state, message_vector,
  announced_properties, classify, rcvd_info_of,
}
use excelfore_gptp.AnnounceInformation.Machine.{port_announce_information_sm}
use excelfore_gptp.AnnounceInformation.Behaviour.{
  IsCurrent, Waits, IsConsumed, verdict, superior_message, repeated_message,
}
use excelfore_gptp.AnnounceInformation.Expiry.{timeout_ages, port_down_disables, long_path_faults}
use excelfore_gptp.AnnounceInformation.Run.{
  HasMessage, HasPortNumber, port_announce_information_sm-Returns,
}
use excelfore_gptp.Globals.Init.{bmcs_pp_glb_init, ptas_glb_init, pp_glb_init}
use excelfore_gptp.Examples.Data.{
  sample_config, sample_system, sample_port, sample_bmcs_system, sample_bmcs_port, announce_of,
  vector_of, gm_identity,
}

-- Port 1 has information from a clock of priority1 100; `message` waits.
abbrev port_with : Option PtpMsgAnnounce → PortAnnounceInformation
port_with message = record {
  ptasg = sample_system;
  ppg = sample_port 1;
  bptasg = sample_bmcs_system;
  bppg = record (sample_bmcs_port 1) { rcvd_announce_ptr = message; rcvd_msg = is_some message };
  state = current;
  last_state = current;
  port_index = 1;
  announce_receipt_timeout_time = 1000;
  message_priority = vector_of 100 gm_identity 1;
  rcvd_info = repeated_master_info;
  sync_receipt_timeout_time = 1000;
}

abbrev waiting : PtpMsgAnnounce → PortAnnounceInformation
waiting a = port_with (some a)

waiting-IsCurrent : (m : Option PtpMsgAnnounce) → IsCurrent (port_with m)
unfolding ptas_glb_init pp_glb_init
waiting-IsCurrent m = record {
  state = refl;
  last_state = refl;
  begin = refl;
  instance_enable = refl;
  ready = refl;
  no_update = refl;
}

waiting-Waits : (a : PtpMsgAnnounce) → Waits (waiting a) a
waiting-Waits a = record { waits = refl; there = refl; symmetric = refl }

is_superior_message :
    verdict sample_config (waiting (announce_of 90 8)) (announce_of 90 8) ≡ superior_master_info
unfolding classify compare_priority_vectors memcmp octets octets_112 octets_port uint16_octets
is_superior_message = refl

superior_example :
    (sm' : PortAnnounceInformation) × (port_announce_information_sm sample_config 5
        (waiting (announce_of 90 8))
      ≡ done sm' none)
    × IsConsumed sm'
    × (sm'.bppg.port_priority ≡ message_vector (sample_port 1) (announce_of 90 8))
    × (sm'.bppg.info_is ≡ received)
    × (sm'.bppg.port_steps_removed ≡ 0)
    × (sm'.bppg.ann_time_properties ≡ announced_properties (announce_of 90 8))
    × (sm'.ptasg.gm_identity ≡ gm_identity)
    × (sm'.bptasg.reselect 1 ≡ true)
    × (sm'.bptasg.selected 1 ≡ false)
unfolding rcvd_info_of bmcs_pp_glb_init log_to_nsec pp_glb_init
superior_example =
    superior_message sample_config 5 (waiting (announce_of 90 8)) (announce_of 90 8)
      (waiting-IsCurrent _) (waiting-Waits _) is_superior_message (omega arith) (omega arith)
      (omega arith)

is_repeated_message :
    verdict sample_config (waiting (announce_of 100 8)) (announce_of 100 8) ≡ repeated_master_info
unfolding classify compare_priority_vectors memcmp octets octets_112 octets_port uint16_octets
is_repeated_message = refl

repeated_example :
    (sm' : PortAnnounceInformation) × (port_announce_information_sm sample_config 5
        (waiting (announce_of 100 8))
      ≡ done sm' none)
    × IsConsumed sm'
    × (sm'.announce_receipt_timeout_time ≡ 3000000005)
    × (sm'.bppg.port_priority ≡ vector_of 100 gm_identity 1)
    × (sm'.bppg.info_is ≡ received)
    × (sm'.bptasg ≡ sample_bmcs_system)
repeated_example =
    repeated_message sample_config 5 (waiting (announce_of 100 8)) (announce_of 100 8)
      (waiting-IsCurrent _) (waiting-Waits _) is_repeated_message (omega arith) (omega arith)

is_inferior_message :
    verdict sample_config (waiting (announce_of 110 8)) (announce_of 110 8) ≡ inferior_master_info
unfolding classify compare_priority_vectors memcmp octets octets_112 octets_port uint16_octets
is_inferior_message = refl

timeout_example :
    (sm' : PortAnnounceInformation) × (port_announce_information_sm sample_config 2000
        (port_with none)
      ≡ done sm' none)
    × (sm'.state ≡ aged_state)
    × (sm'.bppg.info_is ≡ aged)
    × (sm'.bppg.port_priority ≡ vector_of 100 gm_identity 1)
    × (sm'.ptasg.gm_identity ≡ sample_system.this_clock)
    × (sm'.bptasg.reselect 1 ≡ true)
    × (sm'.bptasg.selected 1 ≡ false)
timeout_example =
    timeout_ages sample_config 2000 (port_with none) (waiting-IsCurrent none) refl refl refl

is_superior_long :
    verdict sample_config (waiting (announce_of 90 1440)) (announce_of 90 1440)
    ≡ superior_master_info
unfolding classify compare_priority_vectors memcmp octets octets_112 octets_port uint16_octets
is_superior_long = refl

long_path_example :
    port_announce_information_sm sample_config 5 (waiting (announce_of 90 1440)) ≡ fault
long_path_example =
    long_path_faults sample_config 5 (waiting (announce_of 90 1440)) (announce_of 90 1440)
      (waiting-IsCurrent _) (waiting-Waits _) is_superior_long (omega arith)

-- The same port, with its link down.
abbrev port_down : PortAnnounceInformation
port_down = record (port_with none) { ppg = record (sample_port 1) { as_capable = false } }

down_example :
    (sm' : PortAnnounceInformation) × (port_announce_information_sm sample_config 5 port_down
      ≡ done sm' none)
    × (sm'.state ≡ disabled_state)
    × (sm'.bppg.info_is ≡ disabled)
    × (sm'.bppg.rcvd_msg ≡ false)
    × (sm'.bptasg.reselect 1 ≡ true)
    × (sm'.bptasg.selected 1 ≡ false)
down_example = port_down_disables sample_config 5 port_down refl refl refl refl

information-Returns_example :
    (sm' : PortAnnounceInformation) × (retp : Option Unit) × (port_announce_information_sm
        sample_config 5
        (waiting (announce_of 90 8))
      ≡ done sm' retp)
    × (HasMessage sm' × HasPortNumber sm')
information-Returns_example =
    port_announce_information_sm-Returns sample_config 5 (waiting (announce_of 90 8))
      (λ _. omega arith, λ _. omega arith, λ _. omega arith)
      (record { adopting = λ _. refl; receiving = λ _ _. refl; received_port = λ _. refl })
