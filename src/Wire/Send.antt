-- ===== src/Wire/Send.antt =====
-- md_announce_send_sm.c: the MDAnnounceSend machine. `has_net` and `can_send` tell what the network
-- layer does: gpnetd is there, and gptpnet_send_whook sends.
use excelfore_gptp.Common.{
  ℕ, ◌+◌, Bool, true, false, not, ◌&&◌, ◌||◌, Option, none, some, List, ◌∷◌, ◌==◌, if◌then◌else◌,
  u32,
}
use excelfore_gptp.Types.{PtpMsgAnnounce, ClockIdentity}
use excelfore_gptp.Config.{Config}
use excelfore_gptp.Globals.{PerTimeAwareSystemGlobal, PerPortGlobal, BmcsPerPortGlobal}
use excelfore_gptp.Machine.{Outcome, Round, loop}
use excelfore_gptp.Wire.Order.{NetworkOrder}
use excelfore_gptp.Wire.Announce.{Sender, MdPtpMsgAnnounce, send_announce, sent_size}

pub data State : Type 0 where
  init initialize send reaction : State

abbrev pub code : State → ℕ
code init = 0
code initialize = 1
code send = 2
code reaction = 3

abbrev pub same : State → State → Bool
same s t = code s == code t

-- md_announce_send_data, with the members of thisSM. `sent` holds the messages that were sent, with
-- their sizes, the last one first.
pub record MdAnnounceSend : Type 0 where
  pub has_net : Bool
  pub ptasg : PerTimeAwareSystemGlobal
  pub ppg : PerPortGlobal
  pub bppg : BmcsPerPortGlobal
  pub state : State
  pub last_state : State
  pub rcvd_tx_announce : Bool
  pub tx_announce_ptr : Option PtpMsgAnnounce
  pub tx_flags0 : ℕ  -- flags[0] of that message
  pub buffer : ℕ → ClockIdentity
  pub announce_send : ℕ  -- uint32_t
  pub sent : List (MdPtpMsgAnnounce × ℕ)

abbrev pub sender : MdAnnounceSend → Sender
sender sm = record {
  port_identity = record { clock_identity = sm.ptasg.this_clock; port_number = sm.ppg.this_port };
  domain_number = sm.ptasg.domain_number;
  current_log_announce_interval = sm.bppg.current_log_announce_interval;
  flags0 = sm.tx_flags0;
  conform_to_avnu = sm.ptasg.conform_to_avnu;
  buffer = sm.buffer;
}

-- PORT_OPER && PTP_PORT_ENABLED && AS_CAPABLE
abbrev pub is_capable : PerPortGlobal → Bool
is_capable ppg = ppg.for_all_domain.port_oper && ppg.ptp_port_enabled && ppg.as_capable

unfoldable pub allstate_condition : MdAnnounceSend → MdAnnounceSend
allstate_condition sm =
    if sm.ptasg.begin || not sm.ptasg.instance_enable || not (is_capable sm.ppg)
    then record sm { last_state = reaction; state = initialize }
    else sm

unfoldable pub initialize_condition : MdAnnounceSend → State
initialize_condition sm = if sm.rcvd_tx_announce then send else initialize

-- The end of sendAnnounce: the message is in the buffer and goes out if the network takes it. The result
-- tells whether it is -2.
abbrev pub put_out :
    Bool → ℕ → Option MdPtpMsgAnnounce → MdAnnounceSend → Option (MdAnnounceSend × Bool)
put_out can_send size none sm = none
put_out false size (some p) sm = some (record sm { buffer = p.path_sequence }, true)
put_out true size (some p) sm = some (
  record sm {
    buffer = p.path_sequence;
    announce_send = u32 (sm.announce_send + 1);
    sent = (p, size) ∷ sm.sent;
  },
  false,
)

-- send_announce_proc with sendAnnounce: `none` if txAnnouncePtr is null or the message does not fit,
-- and else whether the result is -2.
unfoldable pub send_announce_proc :
    NetworkOrder → Config → Bool → MdAnnounceSend → Option (MdAnnounceSend × Bool)
unfolding send_announce sent_size
send_announce_proc o c can_send sm = elim (sm.tx_announce_ptr) [
  | none ↦ none
  | some a ↦
      let x = record sm { rcvd_tx_announce = false } in
      if sm.has_net
      then put_out can_send (sent_size (sender x) a) (send_announce o c (sender x) a) x
      else some (x, false)
]

unfoldable pub send_announce_condition : MdAnnounceSend → MdAnnounceSend
send_announce_condition sm =
    record (if sm.rcvd_tx_announce then record sm { last_state = reaction } else sm) {
      state = send;
    }

-- A round that returns at once gives `some tt`; the pointer that the call returns is null in every case.
abbrev pub after_proc : Option (MdAnnounceSend × Bool) → Round MdAnnounceSend (Unit {0})
after_proc none = none
after_proc (some (sm, true)) = some (record sm { last_state = reaction }, some tt)
after_proc (some (sm, false)) = some (sm, none)

abbrev pub switch :
    NetworkOrder → Config → Bool → State → Bool → MdAnnounceSend → Round MdAnnounceSend (Unit {0})
switch o c can_send init change sm = some (record sm { state = initialize }, none)
switch o c can_send initialize change sm =
    some (record sm { state = initialize_condition sm }, none)
switch o c can_send send change sm =
    if change
    then after_proc (send_announce_proc o c can_send sm)
    else some (send_announce_condition sm, none)
switch o c can_send reaction change sm = some (sm, none)

unfoldable pub round :
    NetworkOrder → Config → Bool → MdAnnounceSend → Round MdAnnounceSend (Unit {0})
unfolding initialize_condition send_announce_proc send_announce_condition
round o c can_send sm =
    switch o c can_send sm.state (not (same sm.last_state sm.state))
      (record sm { last_state = sm.state })

abbrev pub settled : MdAnnounceSend → Bool
settled sm = same sm.last_state sm.state

abbrev pub fuel : ℕ
fuel = 10

unfoldable pub md_announce_send_sm :
    NetworkOrder → Config → Bool → MdAnnounceSend → Outcome MdAnnounceSend (Unit {0})
unfolding allstate_condition
md_announce_send_sm o c can_send sm = loop settled (round o c can_send) fuel (allstate_condition sm)

-- md_announce_send_sm_mdAnnouncSend
unfoldable pub md_announc_send :
    NetworkOrder
    → Config
    → Bool
    → PtpMsgAnnounce
    → MdAnnounceSend
    → Outcome MdAnnounceSend (Unit {0})
unfolding md_announce_send_sm
md_announc_send o c can_send a sm =
    md_announce_send_sm o c can_send
      (record sm { rcvd_tx_announce = true; tx_announce_ptr = some a; last_state = reaction })
