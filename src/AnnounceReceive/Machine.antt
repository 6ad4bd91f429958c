-- ===== src/AnnounceReceive/Machine.antt =====
-- port_announce_receive_sm.c: the PortAnnounceReceive state machine and qualifyAnnounce.
use excelfore_gptp.Common.{
  ℕ, ◌+◌, ◌/◌, Bool, true, false, not, ◌&&◌, ◌||◌, Option, none, some, ltb, leb, ◌==◌,
  if◌then◌else◌,
}
use excelfore_gptp.Types.{
  ClockIdentity, PtpMsgAnnounce, max_path_trace_n, clock_identity_length, slave_port,
  value_disabled,
}
use excelfore_gptp.Arrays.{set, copy, exists_from}
use excelfore_gptp.Priority.{memcmp_eq}
use excelfore_gptp.Globals.{
  PerTimeAwareSystemGlobal, PerPortGlobal, BmcsPerTimeAwareSystemGlobal, BmcsPerPortGlobal,
}
use excelfore_gptp.Globals.Init.{zero_identity}
use excelfore_gptp.Machine.{Outcome, Round, loop}

pub data State : Type 0 where
  init discard receive reaction : State

abbrev pub same : State → State → Bool
same init init = true
same discard discard = true
same receive receive = true
same reaction reaction = true
same _ _ = false

-- port_announce_receive_data; `rcvd_announce` is thisSM->rcvdAnnounce.
pub record PortAnnounceReceive : Type 0 where
  pub ptasg : PerTimeAwareSystemGlobal
  pub ppg : PerPortGlobal
  pub bptasg : BmcsPerTimeAwareSystemGlobal
  pub bppg : BmcsPerPortGlobal
  pub state : State
  pub last_state : State
  pub rcvd_announce : Bool

-- PORT_OPER && PTP_PORT_ENABLED && AS_CAPABLE
abbrev pub port_ready : PerPortGlobal → Bool
port_ready ppg = ppg.for_all_domain.port_oper && ppg.ptp_port_enabled && ppg.as_capable

-- The number of entries of the path trace TLV that are looked at.
abbrev pub path_length : PtpMsgAnnounce → ℕ
path_length a =
    if ltb (a.tlv_length / clock_identity_length) max_path_trace_n
    then a.tlv_length / clock_identity_length
    else max_path_trace_n

-- The slave port's path trace becomes the message's path followed by this clock, or is given up.
unfoldable pub record_path :
    BmcsPerTimeAwareSystemGlobal
    → (ℕ → ClockIdentity)
    → ℕ
    → ClockIdentity
    → BmcsPerTimeAwareSystemGlobal
record_path b path n this_clock =
    if leb (n + 1) max_path_trace_n
    then record b {
      path_trace = set (copy b.path_trace path n) n this_clock;
      path_trace_count = n + 1;
    }
    else record b { path_trace_count = 0 }

-- qualifyAnnounce, on the message that RCVD_ANNOUNCE_PTR points to.
unfoldable pub qualify_announce :
    PortAnnounceReceive → PtpMsgAnnounce → BmcsPerTimeAwareSystemGlobal × Bool
unfolding record_path
qualify_announce sm a =
    if memcmp_eq a.header.source_port_identity.clock_identity sm.ptasg.this_clock
    then (sm.bptasg, false)
    else if leb 255 a.steps_removed
    then (sm.bptasg, false)
    else if a.tlv_type == 0x8
    then (if exists_from (λ c. memcmp_eq c sm.ptasg.this_clock) a.path_sequence (path_length a) 0
        then (sm.bptasg, false)
        else if sm.ptasg.selected_state sm.ppg.this_port_index == slave_port
        then (record_path sm.bptasg a.path_sequence (path_length a) sm.ptasg.this_clock, true)
        else (sm.bptasg, true))
    else (
      record sm.bptasg {
        path_trace = copy sm.bptasg.path_trace (λ _. zero_identity) max_path_trace_n;
      },
      true,
    )

unfoldable pub allstate_condition : PortAnnounceReceive → State
allstate_condition sm =
    if (sm.ptasg.begin
        || not sm.ptasg.instance_enable
        || (sm.rcvd_announce
            && (not sm.ppg.for_all_domain.port_oper
                || not sm.ppg.ptp_port_enabled
                || not sm.ppg.as_capable)))
      && sm.bptasg.external_port_configuration == value_disabled
    then discard
    else sm.state

unfoldable pub discard_proc : PortAnnounceReceive → PortAnnounceReceive
discard_proc sm = record sm { rcvd_announce = false; bppg = record (sm.bppg) { rcvd_msg = false } }

unfoldable pub discard_condition : PortAnnounceReceive → State
discard_condition sm = if sm.rcvd_announce && port_ready sm.ppg then receive else discard

-- `none` if RCVD_ANNOUNCE_PTR is null.
unfoldable pub receive_proc : PortAnnounceReceive → Option PortAnnounceReceive
receive_proc sm = elim (sm.bppg.rcvd_announce_ptr) [
  | none ↦ none
  | some a ↦
      let (b, qualified) = qualify_announce sm a in
      some (record sm {
        rcvd_announce = false;
        bptasg = b;
        bppg = record (sm.bppg) { rcvd_msg = qualified };
      })
]

unfoldable pub receive_condition : PortAnnounceReceive → State
receive_condition sm =
    if sm.rcvd_announce && port_ready sm.ppg && not sm.bppg.rcvd_msg then receive else sm.state

abbrev goto : PortAnnounceReceive → State → PortAnnounceReceive
goto sm s = record sm { state = s }

-- The `switch` of the loop, `last_state` being set to the state before; retp is always null.
abbrev pub switch : State → Bool → PortAnnounceReceive → Option PortAnnounceReceive
switch init change sm = some (goto sm discard)
switch discard change sm =
    let sm' = if change then discard_proc sm else sm in some (goto sm' (discard_condition sm'))
switch receive change sm = elim (if change then receive_proc sm else some sm) [
  | none ↦ none
  | some sm' ↦ some (goto sm' (receive_condition sm'))
]
switch reaction change sm = some sm

-- One round of the loop.
unfoldable pub round : PortAnnounceReceive → Round PortAnnounceReceive Unit
unfolding discard_proc discard_condition receive_proc receive_condition
round sm =
    elim (switch sm.state (not (same sm.last_state sm.state))
      (record sm { last_state = sm.state })) [ none ↦ none | some sm' ↦ some (sm', none) ]

abbrev pub settled : PortAnnounceReceive → Bool
settled sm = same sm.last_state sm.state

-- The rounds that a call can take, and one to spare.
abbrev pub fuel : ℕ
fuel = 5

-- port_announce_receive_sm
unfoldable pub port_announce_receive_sm : PortAnnounceReceive → Outcome PortAnnounceReceive Unit
unfolding allstate_condition
port_announce_receive_sm sm = loop settled round fuel (record sm { state = allstate_condition sm })

-- port_announce_receive_sm_recv_announce
unfoldable pub recv_announce :
    PortAnnounceReceive → PtpMsgAnnounce → Outcome PortAnnounceReceive Unit
unfolding port_announce_receive_sm
recv_announce sm a = port_announce_receive_sm (record sm {
  rcvd_announce = true;
  bppg = record (sm.bppg) { rcvd_announce_ptr = some a };
  last_state = discard;
})
