-- ===== src/Wire/ReceiveRun.antt =====
-- md_announce_receive_sm_mdAnnounceRec: a message that a neighbour has sent is handed on as it was.
use excelfore_gptp.Common.{
  ◌+◌, ◌^◌, ◌<◌, ◌≡◌, ◌≢◌, refl, ap, ◌∙◌, Bool, true, false, arith, ◌⊎◌, inl, inr, none, some, u32,
}
use excelfore_gptp.Types.{PtpMsgAnnounce}
use excelfore_gptp.Config.{Config}
use excelfore_gptp.Machine.{done, loop, loop-next, loop-stop}
use excelfore_gptp.Wire.Order.{NetworkOrder, IsInverse}
use excelfore_gptp.Wire.Announce.{
  MdPtpMsgAnnounce, Sender, accepted, rec_announce, send_announce, compose_announce,
}
use excelfore_gptp.Wire.RoundTrip.{IsAnnounce, Tells, arrived, announce-round_trip}
use excelfore_gptp.Wire.Send.{is_capable}
use excelfore_gptp.Wire.Receive.{
  State, init, initialize, recv, reaction, MdAnnounceReceive, allstate_condition,
  initialize_condition, recv_announce_proc, keep_received, round, settled, fuel,
  md_announce_receive_sm, md_announce_rec,
}

-- The port and the instance are up.
pub record IsUp (sm : MdAnnounceReceive) : Type 0 where
  pub begin : sm.ptasg.begin ≡ false
  pub instance_enable : sm.ptasg.instance_enable ≡ true
  pub capable : is_capable sm.ppg ≡ true

module _ (o : NetworkOrder) (p : MdPtpMsgAnnounce) where
  -- The machine with the message.
  abbrev pub given : Bool → State → State → MdAnnounceReceive → MdAnnounceReceive
  given waits s l sm = record sm {
    rcvd_rx_announce = waits;
    announce_rec = u32 (sm.announce_rec + 1);
    rx_announce_ptr = some p;
    state = s;
    last_state = l;
  }

  -- The machine that has taken the message `b` from it.
  abbrev pub taken : PtpMsgAnnounce → MdAnnounceReceive → MdAnnounceReceive
  taken b sm = record (given false recv recv sm) {
    rcvd_announce = b;
    announce_rec_valid = u32 (sm.announce_rec_valid + 1);
  }

  to_recv :
      (sm : MdAnnounceReceive)
      → round o (given true initialize reaction sm) ≡ some (given true recv initialize sm, none)
  unfolding round initialize_condition
  to_recv sm = refl

  takes :
      (l : State) (sm : MdAnnounceReceive) (b : PtpMsgAnnounce)
      → l ≢ recv
      → rec_announce o sm.cmlds_mode p sm.rcvd_announce ≡ accepted b
      → round o (given true recv l sm) ≡ some (taken b sm, some b)
  unfolding round recv_announce_proc
  takes init sm b h e = ap (keep_received (given false recv recv sm)) e
  takes initialize sm b h e = ap (keep_received (given false recv recv sm)) e
  takes recv sm b h e = absurd (h refl)
  takes reaction sm b h e = ap (keep_received (given false recv recv sm)) e

  starts :
      (sm : MdAnnounceReceive)
      → IsUp sm
      → allstate_condition (given true sm.state reaction sm) ≡ given true sm.state reaction sm
  unfolding allstate_condition
  starts sm u = ground (arith, u.begin, u.instance_enable, u.capable)

  begins :
      (s : State) (sm : MdAnnounceReceive)
      → IsUp sm
      → sm.state ≡ s
      → md_announce_rec o p sm ≡ loop settled (round o) fuel (given true s reaction sm)
  unfolding md_announce_rec md_announce_receive_sm
  begins s sm u e = ap (loop settled (round o) fuel) (starts sm u) ∙ λ j.
      loop settled (round o) fuel (given true (e j) reaction sm)

  -- A machine on a port that is up hands on a message that recAnnounce accepts.
  pub message_taken :
      (sm : MdAnnounceReceive) (b : PtpMsgAnnounce)
      → IsUp sm
      → (sm.state ≡ initialize) ⊎ (sm.state ≡ recv)
      → rec_announce o sm.cmlds_mode p sm.rcvd_announce ≡ accepted b
      → md_announce_rec o p sm ≡ done (taken b sm) (some b)
  message_taken sm b u (inl e) h =
      begins initialize sm u e
      ∙ loop-next settled (round o) 9 (given true initialize reaction sm)
          (given true recv initialize sm) none (to_recv sm) refl
      ∙ loop-stop settled (round o) 8 (given true recv initialize sm) (taken b sm) (some b)
          (takes initialize sm b (λ q. ground (arith, q)) h) refl
  message_taken sm b u (inr e) h =
      begins recv sm u e
      ∙ loop-stop settled (round o) 9 (given true recv reaction sm) (taken b sm) (some b)
          (takes reaction sm b (λ q. ground (arith, q)) h) refl

-- On a port that is up, a machine that has left INIT hands on a message that a neighbour has sent whole,
-- in its call, and the message is as it was: the vector with the sender's port, the time properties, the
-- TLV with its path, and the sequence number. The members of the message must be within their types, and
-- its path within the array.
pub announce_arrives :
    (o : NetworkOrder) (c : Config) (s : Sender) (a : PtpMsgAnnounce) (sm : MdAnnounceReceive)
    → IsInverse o
    → IsAnnounce a
    → s.port_identity.port_number < 2 ^ 16
    → IsUp sm
    → (sm.state ≡ initialize) ⊎ (sm.state ≡ recv)
    → (send_announce o c s a ≡ some (compose_announce o c s a))
      × (b : PtpMsgAnnounce) × (md_announce_rec o (compose_announce o c s a) sm
          ≡ done (taken o (compose_announce o c s a) b sm) (some b))
      × Tells s a b
announce_arrives o c s a sm i k q u h =
    let (x, e, t) = announce-round_trip o c s a sm.rcvd_announce i k q sm.cmlds_mode in
    (
      x,
      arrived o c s a sm.rcvd_announce,
      message_taken o (compose_announce o c s a) sm (arrived o c s a sm.rcvd_announce) u h e,
      t,
    )
