-- ===== src/AnnounceInformation/Behaviour.antt =====
-- What a call of port_announce_information_sm does with a message that waits in CURRENT, and when the
-- information of a port is given up.
use excelfore_gptp.Common.{
  ℕ, ◌+◌, ◌*◌, ◌<◌, ◌≤◌, ◌≡◌, refl, ap, true, false, none, some, arith, u64, ◌&&◌, ◌∙◌, is_nonzero,
  ◌⊎◌,
}
use excelfore_gptp.Types.{
  RcvdInfo, received, PtpMsgAnnounce, max_path_trace_n, clock_identity_length, superior_master_info,
  repeated_master_info, inferior_master_info, other_info,
}
use excelfore_gptp.Config.{Config}
use excelfore_gptp.Machine.{Outcome, done, loop, loop-next, loop-stop}
use excelfore_gptp.AnnounceInformation.Procs.{
  State, current, receive, superior_master_port, repeated_master_port,
  inferior_master_or_other_port, same, PortAnnounceInformation, classify, rcvd_info_of, adopt,
  with_other_info, message_vector, announced_properties, repeated_master_port_proc,
  inferior_master_or_other_port_proc,
}
use excelfore_gptp.AnnounceInformation.Machine.{
  must_update, is_received, port_ready, receive_target, timed_out, settled, switch, round, fuel,
  port_announce_information_sm,
}

-- The machine rests in CURRENT on a port that is up, and no update of the port is due.
pub record IsCurrent (sm : PortAnnounceInformation) : Type 0 where
  pub state : sm.state ≡ current
  pub last_state : sm.last_state ≡ current
  pub begin : sm.ptasg.begin ≡ false
  pub instance_enable : sm.ptasg.instance_enable ≡ true
  pub ready : port_ready sm.ppg ≡ true
  pub no_update : sm.bppg.updt_info ≡ false

-- The message `a` waits, and the asymmetry is not being measured.
pub record Waits (sm : PortAnnounceInformation) (a : PtpMsgAnnounce) : Type 0 where
  pub waits : sm.bppg.rcvd_msg ≡ true
  pub there : sm.bppg.rcvd_announce_ptr ≡ some a
  pub symmetric : sm.ppg.for_all_domain.asymmetry_measurement_mode ≡ false

-- What rcvdInfo finds.
abbrev pub verdict : Config → PortAnnounceInformation → PtpMsgAnnounce → RcvdInfo
verdict c sm a =
    classify c.byte_order (sm.ptasg.selected_state sm.ppg.this_port_index) (message_vector sm.ppg a)
      sm.bppg.port_priority

-- The machine rests in CURRENT again and no message waits.
pub record IsConsumed (sm : PortAnnounceInformation) : Type 0 where
  pub state : sm.state ≡ current
  pub last_state : sm.last_state ≡ current
  pub no_message : sm.bppg.rcvd_msg ≡ false
  pub no_pointer : sm.bppg.rcvd_announce_ptr ≡ none

module _ (c : Config) (cts64 : ℕ) where
  abbrev pub run : ℕ → PortAnnounceInformation → Outcome PortAnnounceInformation Unit
  run = loop settled (round c cts64)

  -- The machine after rcvdInfo, on its way to `s`.
  abbrev pub heading : State → PortAnnounceInformation → PtpMsgAnnounce → PortAnnounceInformation
  heading s sm a = record (rcvd_info_of c sm a) { state = s; last_state = receive }

  pub start :
      (sm : PortAnnounceInformation)
      → IsCurrent sm
      → port_announce_information_sm c cts64 sm ≡ run fuel sm
  unfolding port_announce_information_sm
  start sm r = ap (run fuel) (ground arith)

  pub to_receive :
      (sm : PortAnnounceInformation) (a : PtpMsgAnnounce)
      → IsCurrent sm
      → Waits sm a
      → round c cts64 sm ≡ some (record sm { state = receive }, none)
  unfolding round switch
  to_receive sm a r w = ground arith

  pub to_verdict :
      (sm : PortAnnounceInformation) (a : PtpMsgAnnounce) (s : State)
      → IsCurrent sm
      → Waits sm a
      → receive_target (verdict c sm a) ≡ s
      → round c cts64 (record sm { state = receive }) ≡ some (heading s sm a, none)
  unfolding round switch
  to_verdict sm a s r w v = ground arith

  -- CURRENT is kept while no update is due, no message waits and the information has not timed out.
  stay_current :
      (sm : PortAnnounceInformation)
      → sm.state ≡ current
      → must_update sm ≡ false
      → sm.bppg.rcvd_msg ≡ false
      → is_received sm.bppg.info_is && timed_out cts64 sm ≡ false
      → round c cts64 sm ≡ some (record sm { last_state = current }, none)
  unfolding round switch
  stay_current sm s u m t = ground arith

  from_repeated :
      (sm : PortAnnounceInformation) (a : PtpMsgAnnounce)
      → round c cts64 (heading repeated_master_port sm a)
        ≡ some (
          record (repeated_master_port_proc cts64 (rcvd_info_of c sm a)) {
            state = current;
            last_state = repeated_master_port;
          },
          none,
        )
  unfolding round switch
  from_repeated sm a = ground arith

  from_superior :
      (sm : PortAnnounceInformation) (a : PtpMsgAnnounce)
      → sm.bppg.rcvd_announce_ptr ≡ some a
      → a.tlv_length ≤ clock_identity_length * max_path_trace_n
      → round c cts64 (heading superior_master_port sm a)
        ≡ some (
          record (adopt c cts64 a (with_other_info (rcvd_info_of c sm a) a)) {
            state = current;
            last_state = superior_master_port;
          },
          none,
        )
  unfolding round switch
  from_superior sm a p t = ground arith

  from_inferior :
      (sm : PortAnnounceInformation) (a : PtpMsgAnnounce)
      → is_nonzero sm.bptasg.bmcs_quick_update ≡ false
      → round c cts64 (heading inferior_master_or_other_port sm a)
        ≡ some (
          record (inferior_master_or_other_port_proc (rcvd_info_of c sm a)) {
            state = current;
            last_state = inferior_master_or_other_port;
          },
          none,
        )
  unfolding round switch
  from_inferior sm a q = ground arith

  -- Four rounds from CURRENT through `s` back to CURRENT.
  four_rounds :
      (sm x : PortAnnounceInformation) (a : PtpMsgAnnounce) (s : State)
      → IsCurrent sm
      → Waits sm a
      → receive_target (verdict c sm a) ≡ s
      → same receive s ≡ false
      → round c cts64 (heading s sm a) ≡ some (x, none)
      → settled x ≡ false
      → round c cts64 x ≡ some (record x { last_state = current }, none)
      → x.state ≡ current
      → port_announce_information_sm c cts64 sm ≡ done (record x { last_state = current }) none
  four_rounds sm x a s r w v d e go e' cur =
      start sm r
      ∙ loop-next settled (round c cts64) 19 sm _ none (to_receive sm a r w) (ground arith)
      ∙ loop-next settled (round c cts64) 18 _ _ none (to_verdict sm a s r w v) d
      ∙ loop-next settled (round c cts64) 17 _ x none e go
      ∙ loop-stop settled (round c cts64) 16 x _ none e' (rw cur refl)

  -- If the machine rests in CURRENT as above and a waiting message repeats the port's vector,
  -- with timeouts that lie ahead, one call restarts the announce timeout and consumes the
  -- message; the port's vector, the origin of its information and the system's selection data
  -- stay as they are.
  pub repeated_message :
      (sm : PortAnnounceInformation) (a : PtpMsgAnnounce)
      → IsCurrent sm
      → Waits sm a
      → verdict c sm a ≡ repeated_master_info
      → cts64 < u64 (cts64 + sm.bppg.announce_receipt_timeout_time_interval)
      → cts64 < sm.sync_receipt_timeout_time
      → (sm' : PortAnnounceInformation) × (port_announce_information_sm c cts64 sm ≡ done sm' none)
        × IsConsumed sm'
        × (sm'.announce_receipt_timeout_time
            ≡ u64 (cts64 + sm.bppg.announce_receipt_timeout_time_interval))
        × (sm'.bppg.port_priority ≡ sm.bppg.port_priority)
        × (sm'.bppg.info_is ≡ sm.bppg.info_is)
        × (sm'.bptasg ≡ sm.bptasg)
  unfolding repeated_master_port_proc rcvd_info_of
  repeated_message sm a r w v t u =
      let x : PortAnnounceInformation =
        record (repeated_master_port_proc cts64 (rcvd_info_of c sm a)) {
          state = current;
          last_state = repeated_master_port;
        } in
      (
        record x { last_state = current },
        four_rounds sm x a repeated_master_port r w (rw v) refl (from_repeated sm a) refl
            (stay_current x refl (ground arith) refl (ground arith)) refl,
        ground arith,
        refl,
        refl,
        refl,
        refl,
      )

  -- What superior_master_port_proc makes of the message.
  abbrev pub adopted : PortAnnounceInformation → PtpMsgAnnounce → PortAnnounceInformation
  adopted sm a = adopt c cts64 a (with_other_info (rcvd_info_of c sm a) a)

  -- If the machine rests in CURRENT as above and a waiting message is superior, has a path that
  -- fits and gives timeouts that lie ahead, one call adopts and consumes it: the port's vector,
  -- steps, time properties and the grandmaster identity become the message's, the information
  -- counts as received, and the port asks for a new selection.
  pub superior_message :
      (sm : PortAnnounceInformation) (a : PtpMsgAnnounce)
      → IsCurrent sm
      → Waits sm a
      → verdict c sm a ≡ superior_master_info
      → a.tlv_length ≤ clock_identity_length * max_path_trace_n
      → cts64 < (adopted sm a).announce_receipt_timeout_time
      → cts64 < (adopted sm a).sync_receipt_timeout_time
      → (sm' : PortAnnounceInformation) × (port_announce_information_sm c cts64 sm ≡ done sm' none)
        × IsConsumed sm'
        × (sm'.bppg.port_priority ≡ message_vector sm.ppg a)
        × (sm'.bppg.info_is ≡ received)
        × (sm'.bppg.port_steps_removed ≡ a.steps_removed)
        × (sm'.bppg.ann_time_properties ≡ announced_properties a)
        × (sm'.ptasg.gm_identity ≡ a.grandmaster_identity)
        × (sm'.bptasg.reselect sm.port_index ≡ true)
        × (sm'.bptasg.selected sm.port_index ≡ false)
  unfolding rcvd_info_of
  superior_message sm a r w v f t u =
      let x : PortAnnounceInformation = record (adopted sm a) {
        state = current;
        last_state = superior_master_port;
      } in
      (
        record x { last_state = current },
        four_rounds sm x a superior_master_port r w (rw v) refl (from_superior sm a w.there f) refl
            (stay_current x refl (ground arith) refl (ground arith)) refl,
        ground arith,
        refl,
        refl,
        refl,
        refl,
        refl,
        ground arith,
        ground arith,
      )

  -- If the machine rests in CURRENT as above, a waiting message is inferior or of no use, quick
  -- updates are off and received information has not timed out, one call consumes the message;
  -- the port's vector, the origin of its information, both timeouts and the system's selection
  -- data stay as they are.
  pub inferior_message :
      (sm : PortAnnounceInformation) (a : PtpMsgAnnounce)
      → IsCurrent sm
      → Waits sm a
      → (verdict c sm a ≡ inferior_master_info) ⊎ (verdict c sm a ≡ other_info)
      → is_nonzero sm.bptasg.bmcs_quick_update ≡ false
      → is_received sm.bppg.info_is && timed_out cts64 sm ≡ false
      → (sm' : PortAnnounceInformation) × (port_announce_information_sm c cts64 sm ≡ done sm' none)
        × IsConsumed sm'
        × (sm'.bppg.port_priority ≡ sm.bppg.port_priority)
        × (sm'.bppg.info_is ≡ sm.bppg.info_is)
        × (sm'.announce_receipt_timeout_time ≡ sm.announce_receipt_timeout_time)
        × (sm'.sync_receipt_timeout_time ≡ sm.sync_receipt_timeout_time)
        × (sm'.bptasg ≡ sm.bptasg)
  unfolding inferior_master_or_other_port_proc rcvd_info_of
  inferior_message sm a r w v q t =
      let x : PortAnnounceInformation =
        record (inferior_master_or_other_port_proc (rcvd_info_of c sm a)) {
          state = current;
          last_state = inferior_master_or_other_port;
        } in
      (
        record x { last_state = current },
        four_rounds sm x a inferior_master_or_other_port r w (ground arith) refl
            (from_inferior sm a q) refl (stay_current x refl (ground arith) refl t) refl,
        ground arith,
        refl,
        refl,
        refl,
        refl,
        refl,
      )
