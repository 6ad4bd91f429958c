-- ===== src/Wire/Receive.antt =====
-- md_announce_receive_sm.c: the MDAnnounceReceive machine.
use excelfore_gptp.Common.{
  ℕ, ◌+◌, Bool, true, false, not, ◌||◌, Option, none, some, ◌==◌, if◌then◌else◌, u32,
}
use excelfore_gptp.Types.{PtpMsgAnnounce}
use excelfore_gptp.Globals.{PerTimeAwareSystemGlobal, PerPortGlobal}
use excelfore_gptp.Machine.{Outcome, Round, loop}
use excelfore_gptp.Wire.Order.{NetworkOrder}
use excelfore_gptp.Wire.Announce.{
  MdPtpMsgAnnounce, Received, overrun, ignored, accepted, rec_announce,
}
use excelfore_gptp.Wire.Send.{is_capable}

pub data State : Type 0 where
  init initialize recv reaction : State

abbrev pub code : State → ℕ
code init = 0
code initialize = 1
code recv = 2
code reaction = 3

abbrev pub same : State → State → Bool
same s t = code s == code t

-- md_announce_receive_data, with the members of thisSM; the message in the receive buffer is given as
-- the struct that the pointer is cast to.
pub record MdAnnounceReceive : Type 0 where
  pub ptasg : PerTimeAwareSystemGlobal
  pub ppg : PerPortGlobal
  pub state : State
  pub last_state : State
  pub rcvd_rx_announce : Bool
  pub rx_announce_ptr : Option MdPtpMsgAnnounce
  pub rcvd_announce : PtpMsgAnnounce
  pub announce_rec : ℕ  -- uint32_t
  pub announce_rec_valid : ℕ  -- uint32_t
  pub cmlds_mode : Bool

unfoldable pub allstate_condition : MdAnnounceReceive → MdAnnounceReceive
allstate_condition sm =
    if sm.ptasg.begin || not sm.ptasg.instance_enable || not (is_capable sm.ppg)
    then record sm { last_state = reaction; state = initialize }
    else sm

unfoldable pub initialize_condition : MdAnnounceReceive → State
initialize_condition sm = if sm.rcvd_rx_announce then recv else initialize

-- recAnnounce on the machine's record; `none` for a write past pathSequence.
abbrev pub keep_received : MdAnnounceReceive → Received → Round MdAnnounceReceive PtpMsgAnnounce
keep_received sm overrun = none
keep_received sm (ignored a) = some (record sm { rcvd_announce = a }, none)
keep_received sm (accepted a) =
    some (
      record sm { rcvd_announce = a; announce_rec_valid = u32 (sm.announce_rec_valid + 1) },
      some a,
    )

-- recv_announce_proc; `none` also if rxAnnouncePtr is null.
unfoldable pub recv_announce_proc :
    NetworkOrder → MdAnnounceReceive → Round MdAnnounceReceive PtpMsgAnnounce
recv_announce_proc o sm = elim (sm.rx_announce_ptr) [
  | none ↦ none
  | some p ↦
      keep_received (record sm { rcvd_rx_announce = false })
        (rec_announce o sm.cmlds_mode p sm.rcvd_announce)
]

unfoldable pub recv_announce_condition : MdAnnounceReceive → MdAnnounceReceive
recv_announce_condition sm =
    record (if sm.rcvd_rx_announce then record sm { last_state = reaction } else sm) {
      state = recv;
    }

abbrev pub switch :
    NetworkOrder → State → Bool → MdAnnounceReceive → Round MdAnnounceReceive PtpMsgAnnounce
switch o init change sm = some (record sm { state = initialize }, none)
switch o initialize change sm = some (record sm { state = initialize_condition sm }, none)
switch o recv change sm =
    if change then recv_announce_proc o sm else some (recv_announce_condition sm, none)
switch o reaction change sm = some (sm, none)

unfoldable pub round : NetworkOrder → MdAnnounceReceive → Round MdAnnounceReceive PtpMsgAnnounce
unfolding initialize_condition recv_announce_proc recv_announce_condition
round o sm =
    switch o sm.state (not (same sm.last_state sm.state)) (record sm { last_state = sm.state })

abbrev pub settled : MdAnnounceReceive → Bool
settled sm = same sm.last_state sm.state

abbrev pub fuel : ℕ
fuel = 10

unfoldable pub md_announce_receive_sm :
    NetworkOrder → MdAnnounceReceive → Outcome MdAnnounceReceive PtpMsgAnnounce
unfolding allstate_condition
md_announce_receive_sm o sm = loop settled (round o) fuel (allstate_condition sm)

-- md_announce_receive_sm_mdAnnounceRec
unfoldable pub md_announce_rec :
    NetworkOrder → MdPtpMsgAnnounce → MdAnnounceReceive → Outcome MdAnnounceReceive PtpMsgAnnounce
unfolding md_announce_receive_sm
md_announce_rec o p sm = md_announce_receive_sm o (record sm {
  rcvd_rx_announce = true;
  announce_rec = u32 (sm.announce_rec + 1);
  rx_announce_ptr = some p;
  last_state = reaction;
})
