-- ===== src/AnnounceReceive/Run.antt =====
-- port_announce_receive_sm returns for every state, and what a call leaves behind.
use excelfore_gptp.Common.{ℕ, ◌≡◌, true, false, Option, none, some, arith, ◌⊎◌, is_some}
use excelfore_gptp.Types.{PtpMsgAnnounce}
use excelfore_gptp.Machine.{done, loop, Keeps, loop_rule}
use excelfore_gptp.AnnounceReceive.Machine.{
  init, discard, receive, reaction, PortAnnounceReceive, port_ready, settled, round, fuel,
  port_announce_receive_sm, recv_announce, qualify_announce,
}

-- A message that waits to be looked at is there.
abbrev pub HasMessage : PortAnnounceReceive → Type 0
HasMessage sm =
    (sm.rcvd_announce ≡ true → is_some sm.bppg.rcvd_announce_ptr ≡ true)
    × (sm.state ≡ receive → is_some sm.bppg.rcvd_announce_ptr ≡ true)

abbrev rank : PortAnnounceReceive → ℕ
rank sm = elim (sm.state) [ init ↦ 3 | discard ↦ 2 | receive ↦ 1 | reaction ↦ 0 ]

round-Keeps :
    (sm : PortAnnounceReceive) → HasMessage sm → Keeps settled round HasMessage rank sm (round sm)
unfolding round
round-Keeps sm h = ground arith

-- A call returns, and reads no null pointer, in every state where a message that waits is there; and
-- it leaves such a state.
pub port_announce_receive_sm-Returns :
    (sm : PortAnnounceReceive)
    → HasMessage sm
    → (sm' : PortAnnounceReceive) × (retp : Option Unit) × (port_announce_receive_sm sm
        ≡ done sm' retp)
      × HasMessage sm'
unfolding port_announce_receive_sm
port_announce_receive_sm-Returns sm h =
    loop_rule settled round HasMessage rank round-Keeps fuel _ (ground arith) (ground arith)

-- The machine stands in one of its two states between calls.
abbrev pub IsResting : PortAnnounceReceive → Type 0
IsResting sm = (sm.state ≡ discard) ⊎ (sm.state ≡ receive)

-- What a message does to a machine whose port is up.
abbrev pub received_state : PortAnnounceReceive → PtpMsgAnnounce → PortAnnounceReceive
received_state sm a = record sm {
  rcvd_announce = false;
  bptasg = (qualify_announce sm a).0;
  bppg = record (sm.bppg) { rcvd_announce_ptr = some a; rcvd_msg = (qualify_announce sm a).1 };
  state = receive;
  last_state = receive;
}

recv_announce_ready :
    (sm : PortAnnounceReceive) (a : PtpMsgAnnounce)
    → IsResting sm
    → sm.ptasg.begin ≡ false
    → sm.ptasg.instance_enable ≡ true
    → port_ready sm.ppg ≡ true
    → recv_announce sm a ≡ done (received_state sm a) none
unfolding recv_announce loop round qualify_announce
recv_announce_ready sm a r b i p = ground arith
