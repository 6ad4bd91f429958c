-- ===== src/AnnounceInformation/Expiry.antt =====
-- When the information of a port is given up, and the message that the machine cannot take.
use excelfore_gptp.Common.{ℕ, ◌*◌, ◌<◌, ◌≡◌, refl, true, false, none, some, arith, ap, ◌∙◌}
use excelfore_gptp.Types.{
  received, aged, disabled, PtpMsgAnnounce, max_path_trace_n, clock_identity_length, value_disabled,
  superior_master_info,
}
use excelfore_gptp.Config.{Config}
use excelfore_gptp.Machine.{done, fault, loop, loop-next, loop-stop, loop-fault}
use excelfore_gptp.AnnounceInformation.Procs.{
  aged_state, disabled_state, current, superior_master_port, PortAnnounceInformation, aged_proc,
  disabled_proc, same,
}
use excelfore_gptp.AnnounceInformation.Machine.{
  is_disabled, port_ready, timed_out, settled, round, switch, fuel, port_announce_information_sm,
}
use excelfore_gptp.AnnounceInformation.Behaviour.{
  IsCurrent, Waits, verdict, start, to_receive, to_verdict, heading,
}

module _ (c : Config) (cts64 : ℕ) where
  expire :
      (sm : PortAnnounceInformation)
      → IsCurrent sm
      → sm.bppg.info_is ≡ received
      → timed_out cts64 sm ≡ true
      → sm.bppg.rcvd_msg ≡ false
      → round c cts64 sm ≡ some (record sm { state = aged_state }, none)
  unfolding round switch
  expire sm r i t m = ground arith

  enter_aged :
      (sm : PortAnnounceInformation)
      → round c cts64 (record sm { state = aged_state; last_state = current })
        ≡ some (record (aged_proc sm) { state = aged_state; last_state = aged_state }, none)
  unfolding round switch aged_proc
  enter_aged sm = ground arith

  -- If the machine rests in CURRENT with received information that has timed out and no message
  -- waits, one call ages the information, sets the grandmaster identity back to this clock and
  -- asks for a new selection; the vector is kept.
  pub timeout_ages :
      (sm : PortAnnounceInformation)
      → IsCurrent sm
      → sm.bppg.info_is ≡ received
      → timed_out cts64 sm ≡ true
      → sm.bppg.rcvd_msg ≡ false
      → (sm' : PortAnnounceInformation) × (port_announce_information_sm c cts64 sm ≡ done sm' none)
        × (sm'.state ≡ aged_state)
        × (sm'.bppg.info_is ≡ aged)
        × (sm'.bppg.port_priority ≡ sm.bppg.port_priority)
        × (sm'.ptasg.gm_identity ≡ sm.ptasg.this_clock)
        × (sm'.bptasg.reselect sm.port_index ≡ true)
        × (sm'.bptasg.selected sm.port_index ≡ false)
  unfolding aged_proc
  timeout_ages sm r i t m = (
    record (aged_proc sm) { state = aged_state; last_state = aged_state },
    start c cts64 sm r
        ∙ loop-next settled (round c cts64) 19 sm _ none (expire sm r i t m) (ground arith)
        ∙ loop-stop settled (round c cts64) 18 _ _ none
            (ap (round c cts64) (ground arith) ∙ enter_aged sm) refl,
    refl,
    refl,
    refl,
    refl,
    ground arith,
    ground arith,
  )

  -- If the machine rests in CURRENT and a superior message waits whose tlvLength exceeds the 1432
  -- bytes of annPathSequence, the call writes past that array.
  pub long_path_faults :
      (sm : PortAnnounceInformation) (a : PtpMsgAnnounce)
      → IsCurrent sm
      → Waits sm a
      → verdict c sm a ≡ superior_master_info
      → clock_identity_length * max_path_trace_n < a.tlv_length
      → port_announce_information_sm c cts64 sm ≡ fault
  unfolding round switch
  long_path_faults sm a r w v f =
      start c cts64 sm r
      ∙ loop-next settled (round c cts64) 19 sm _ none (to_receive c cts64 sm a r w) (ground arith)
      ∙ loop-next settled (round c cts64) 18 _ _ none
          (to_verdict c cts64 sm a superior_master_port r w (rw v)) refl
      ∙ loop-fault settled (round c cts64) 17 (heading c cts64 superior_master_port sm a)
          (ground arith)

  down :
      (sm : PortAnnounceInformation)
      → port_ready sm.ppg ≡ false
      → (same sm.last_state disabled_state) ≡ false
      → round c cts64 (record sm { state = disabled_state })
        ≡ some (
          record (disabled_proc cts64 sm) { state = disabled_state; last_state = disabled_state },
          none,
        )
  unfolding round switch disabled_proc
  down sm p l = ground arith

  down_start :
      (sm : PortAnnounceInformation)
      → port_ready sm.ppg ≡ false
      → is_disabled sm.bppg.info_is ≡ false
      → sm.bptasg.external_port_configuration ≡ value_disabled
      → port_announce_information_sm c cts64 sm
        ≡ loop settled (round c cts64) fuel (record sm { state = disabled_state })
  unfolding port_announce_information_sm
  down_start sm p i x = ap (loop settled (round c cts64) fuel) (ground arith)

  -- If the port is down, its information is not yet disabled, port states are not configured
  -- externally and the machine was not in DISABLED, one call disables the information, drops a
  -- waiting message and asks for a new selection.
  pub port_down_disables :
      (sm : PortAnnounceInformation)
      → port_ready sm.ppg ≡ false
      → is_disabled sm.bppg.info_is ≡ false
      → sm.bptasg.external_port_configuration ≡ value_disabled
      → same sm.last_state disabled_state ≡ false
      → (sm' : PortAnnounceInformation) × (port_announce_information_sm c cts64 sm ≡ done sm' none)
        × (sm'.state ≡ disabled_state)
        × (sm'.bppg.info_is ≡ disabled)
        × (sm'.bppg.rcvd_msg ≡ false)
        × (sm'.bptasg.reselect sm.port_index ≡ true)
        × (sm'.bptasg.selected sm.port_index ≡ false)
  unfolding disabled_proc
  port_down_disables sm p i x l = (
    record (disabled_proc cts64 sm) { state = disabled_state; last_state = disabled_state },
    down_start sm p i x ∙ loop-stop settled (round c cts64) 19 _ _ none (down sm p l) refl,
    refl,
    refl,
    refl,
    ground arith,
    ground arith,
  )
