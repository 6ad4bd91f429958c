-- ===== src/Signaling/ReceiveRun.antt =====
-- md_signaling_receive_sm_mdSignalingRec: a TLV that a neighbour has sent is handed on as it was.
use excelfore_gptp.Common.{
  ℕ, ◌+◌, ◌%◌, ◌<◌, ◌≡◌, ◌≢◌, refl, ap, ◌∙◌, true, false, arith, ◌⊎◌, inl, inr, none, some, u32,
}
use excelfore_gptp.Config.{Config}
use excelfore_gptp.Machine.{done, loop, loop-next, loop-stop}
use excelfore_gptp.Wire.Order.{NetworkOrder, IsInverse}
use excelfore_gptp.Signaling.Message.{
  blank_signaling, Tlv, interval_request, gptp_capable, MdSignaling, setup_gptp_capable_tlv,
  setup_msg_interval_req_tlv, IsTlv, is_request, is_capable,
  recv_gptp_capable-setup_gptp_capable_tlv, recv_msg_interval_req-setup_msg_interval_req_tlv,
}
use excelfore_gptp.Signaling.Send
use excelfore_gptp.Signaling.SendRun.{written}
use excelfore_gptp.Signaling.Receive.{
  State, init, initialize, recv_signaling, reaction, MdSignalingReceive, allstate_condition,
  initialize_condition, recv_signaling_proc, take_tlv, round, settled, fuel,
  md_signaling_receive_sm, md_signaling_rec,
}

-- The port and the instance are up.
pub record IsUp (sm : MdSignalingReceive) : Type 0 where
  pub begin : sm.ptasg.begin ≡ false
  pub instance_enable : sm.ptasg.instance_enable ≡ true
  pub up : Send.is_up sm.ppg ≡ true

-- The machine with the message.
abbrev pub given : MdSignaling → State → State → MdSignalingReceive → MdSignalingReceive
given p s l sm = record sm {
  recv = true;
  signal_rec = u32 (sm.signal_rec + 1);
  rcvd_rxmsg = some p;
  state = s;
  last_state = l;
}

-- The machine that has taken the TLV `m` from it.
abbrev pub taken : MdSignaling → Tlv → MdSignalingReceive → MdSignalingReceive
taken p (interval_request t) sm = record (given p recv_signaling recv_signaling sm) {
  recv = false;
  mrtlm = t;
  signal_msg_interval_rec = u32 (sm.signal_msg_interval_rec + 1);
}
taken p (gptp_capable t) sm = record (given p recv_signaling recv_signaling sm) {
  recv = false;
  gctlm = t;
  signal_gptp_capable_rec = u32 (sm.signal_gptp_capable_rec + 1);
}

low_octet : (n k : ℕ) → n ≡ k → k < 256 → n % 256 ≡ k
low_octet n k e l = omega (arith, e, l)

-- The message on the wire comes back as the TLV.
takes_written :
    (o : NetworkOrder) (c : Config) (m : Tlv) (n : Send.MdSignalingSend) (sm : MdSignalingReceive)
    → IsInverse o
    → IsTlv m
    → take_tlv o
        (written o c m n)
        (record (given (written o c m n) recv_signaling recv_signaling sm) { recv = false })
        (written o c m n).organization_sub_type_nb2
      ≡ some (taken (written o c m n) m sm, some m)
unfolding setup_gptp_capable_tlv setup_msg_interval_req_tlv
takes_written o c (interval_request t) n sm i (is_request a b e f g h) =
    let p = written o c (interval_request t) n in
    let x = record (given p recv_signaling recv_signaling sm) { recv = false } in
    ap (take_tlv o p x) (low_octet t.organization_sub_type 2 e (omega arith))
    ∙ ap
        (λ r. some (
          record x { mrtlm = r; signal_msg_interval_rec = u32 (sm.signal_msg_interval_rec + 1) },
          some (interval_request r),
        ))
        (recv_msg_interval_req-setup_msg_interval_req_tlv o t
          (blank_signaling o c (Send.port_identity n) n.ptasg.domain_number n.sequence_id) i
          (is_request a b e f g h))
takes_written o c (gptp_capable t) n sm i (is_capable a b e f) =
    let p = written o c (gptp_capable t) n in
    let x = record (given p recv_signaling recv_signaling sm) { recv = false } in
    ap (take_tlv o p x) (low_octet t.organization_sub_type 4 e (omega arith))
    ∙ ap
        (λ r. some (
          record x { gctlm = r; signal_gptp_capable_rec = u32 (sm.signal_gptp_capable_rec + 1) },
          some (gptp_capable r),
        ))
        (recv_gptp_capable-setup_gptp_capable_tlv o t
          (blank_signaling o c (Send.port_identity n) n.ptasg.domain_number n.sequence_id) i
          (is_capable a b e f))

module _ (o : NetworkOrder) (p : MdSignaling) where
  to_recv :
      (sm : MdSignalingReceive)
      → round o (given p initialize reaction sm) ≡ some (given p recv_signaling initialize sm, none)
  unfolding round initialize_condition
  to_recv sm = refl

  takes :
      (l : State) (sm : MdSignalingReceive)
      → l ≢ recv_signaling
      → round o (given p recv_signaling l sm)
        ≡ take_tlv o p
            (record (given p recv_signaling recv_signaling sm) { recv = false })
            p.organization_sub_type_nb2
  unfolding round recv_signaling_proc
  takes init sm h = refl
  takes initialize sm h = refl
  takes recv_signaling sm h = absurd (h refl)
  takes reaction sm h = refl

  starts :
      (sm : MdSignalingReceive)
      → IsUp sm
      → allstate_condition (given p sm.state reaction sm) ≡ given p sm.state reaction sm
  unfolding allstate_condition
  starts sm u = ground (arith, u.begin, u.instance_enable, u.up)

  begins :
      (s : State) (sm : MdSignalingReceive)
      → IsUp sm
      → sm.state ≡ s
      → md_signaling_rec o p sm ≡ loop settled (round o) fuel (given p s reaction sm)
  unfolding md_signaling_rec md_signaling_receive_sm
  begins s sm u e = ap (loop settled (round o) fuel) (starts sm u) ∙ λ j.
      loop settled (round o) fuel (given p (e j) reaction sm)

  -- A machine on a port that is up hands on the TLV of a message.
  pub message_taken :
      (m : Tlv) (sm : MdSignalingReceive)
      → IsUp sm
      → (sm.state ≡ initialize) ⊎ (sm.state ≡ recv_signaling)
      → take_tlv o p
          (record (given p recv_signaling recv_signaling sm) { recv = false })
          p.organization_sub_type_nb2
        ≡ some (taken p m sm, some m)
      → md_signaling_rec o p sm ≡ done (taken p m sm) (some m)
  message_taken m sm u (inl e) h =
      begins initialize sm u e
      ∙ loop-next settled (round o) 9 (given p initialize reaction sm)
          (given p recv_signaling initialize sm) none (to_recv sm) refl
      ∙ loop-stop settled (round o) 8 (given p recv_signaling initialize sm) (taken p m sm) (some m)
          (takes initialize sm (λ q. ground (arith, q)) ∙ h) refl
  message_taken m sm u (inr e) h =
      begins recv_signaling sm u e
      ∙ loop-stop settled (round o) 9 (given p recv_signaling reaction sm) (taken p m sm) (some m)
          (takes reaction sm (λ q. ground (arith, q)) ∙ h) refl

-- On a port that is up, a machine that has left INIT hands on, in its call, the TLV of a message that a
-- neighbour has made of it, if its members are within their types and its organizationSubType is its
-- kind's.
pub signaling_arrives :
    (o : NetworkOrder) (c : Config) (m : Tlv) (n : Send.MdSignalingSend) (sm : MdSignalingReceive)
    → IsInverse o
    → IsTlv m
    → IsUp sm
    → (sm.state ≡ initialize) ⊎ (sm.state ≡ recv_signaling)
    → md_signaling_rec o (written o c m n) sm ≡ done (taken (written o c m n) m sm) (some m)
signaling_arrives o c m n sm i k u h =
    message_taken o (written o c m n) m sm u h (takes_written o c m n sm i k)
