-- ===== src/CapableTransmit/Machine.antt =====
-- gptp_capable_transmit_sm.c: the gPtpCapableTransmit machine, which tells the neighbour in regular
-- intervals that the port speaks gPTP.
use excelfore_gptp.Common.{
  ℕ, ℤ, pos, negsuc, ◌+◌, ◌*◌, ◌^◌, Bool, false, not, ◌&&◌, ◌||◌, none, some, leb, ltb, ◌==◌,
  if◌then◌else◌, u64, [], ◌∷◌,
}
use excelfore_gptp.Types.{UScaledNs, PtpMsgGptpCapableTlv}
use excelfore_gptp.Config.{Config}
use excelfore_gptp.Flags.{
  set_reset_flag_bit, compute_neighbor_rate_ratio_bit, compute_neighbor_prop_delay_bit,
}
use excelfore_gptp.Globals.{PerTimeAwareSystemGlobal, PerPortGlobal}
use excelfore_gptp.Machine.{Outcome, Round, loop}

pub data State : Type 0 where
  init not_enabled initialize transmit_tlv reaction : State

abbrev pub code : State → ℕ
code init = 0
code not_enabled = 1
code initialize = 2
code transmit_tlv = 3
code reaction = 4

abbrev pub same : State → State → Bool
same s t = code s == code t

-- gptp_capable_transmit_data, with the members of thisSM.
pub record GptpCapableTransmit : Type 0 where
  pub ptasg : PerTimeAwareSystemGlobal
  pub ppg : PerPortGlobal
  pub state : State
  pub last_state : State
  pub signaling_msg_time_interval : UScaledNs
  pub interval_timer : UScaledNs
  pub signaling_msg : PtpMsgGptpCapableTlv

-- `x == -1`
abbrev is_minus_one : ℤ → Bool
is_minus_one (pos n) = false
is_minus_one (negsuc n) = n == 0

-- PORT_OPER && PTP_PORT_ENABLED && DOMAIN_ENABLED
abbrev pub is_enabled : PerPortGlobal → Bool
is_enabled ppg =
    ppg.for_all_domain.port_oper
    && ppg.ptp_port_enabled
    && is_minus_one ppg.for_all_domain.received_non_cmlds_pdelay_req

-- setGptpCapableTlv. Of the flags the two bits are written, and the others kept.
unfoldable pub set_gptp_capable_tlv : GptpCapableTransmit → PtpMsgGptpCapableTlv
set_gptp_capable_tlv sm = record {
  tlv_type = 3;
  length_field = 12;
  organization_id = 0x00 ∷ 0x80 ∷ 0xc2 ∷ [];
  organization_sub_type = 4;
  log_gptp_capable_message_interval = sm.ppg.log_gptp_capable_message_interval;
  flags =
      set_reset_flag_bit sm.ppg.for_all_domain.compute_neighbor_rate_ratio
        (set_reset_flag_bit sm.ppg.for_all_domain.compute_neighbor_prop_delay sm.signaling_msg.flags
          compute_neighbor_prop_delay_bit)
        compute_neighbor_rate_ratio_bit;
}

unfoldable pub allstate_condition : GptpCapableTransmit → State
allstate_condition sm =
    if sm.ptasg.begin || not sm.ptasg.instance_enable || not (is_enabled sm.ppg)
    then not_enabled
    else sm.state

unfoldable pub not_enabled_condition : GptpCapableTransmit → State
not_enabled_condition sm = if is_enabled sm.ppg then initialize else not_enabled

-- UB_SEC_NS * (1 << x), where C leaves a negative x and one of 31 or more undefined.
unfoldable pub shifted_second : Config → ℤ → ℕ
shifted_second c (pos x) = if ltb x 31 then u64 (c.ub_sec_ns * 2 ^ x) else c.undefined_shift (pos x)
shifted_second c (negsuc x) = c.undefined_shift (negsuc x)

unfoldable pub initialize_proc : Config → ℕ → GptpCapableTransmit → GptpCapableTransmit
initialize_proc c cts64 sm = record sm {
  signaling_msg_time_interval = shifted_second c sm.ppg.log_gptp_capable_message_interval;
  interval_timer = cts64;
}

unfoldable pub transmit_tlv_proc : GptpCapableTransmit → GptpCapableTransmit
transmit_tlv_proc sm = record sm {
  interval_timer = u64 (sm.interval_timer + sm.signaling_msg_time_interval);
  signaling_msg = set_gptp_capable_tlv sm;
}

-- Once the time has come, the next round enters the state anew.
unfoldable pub transmit_tlv_condition : ℕ → GptpCapableTransmit → GptpCapableTransmit
transmit_tlv_condition cts64 sm =
    record (if leb sm.interval_timer cts64 then record sm { last_state = reaction } else sm) {
      state = transmit_tlv;
    }

-- A machine with what the round returns.
abbrev goto : GptpCapableTransmit → State → Round GptpCapableTransmit PtpMsgGptpCapableTlv
goto sm s = some (record sm { state = s }, none)

abbrev sent : GptpCapableTransmit → Round GptpCapableTransmit PtpMsgGptpCapableTlv
sent sm = some (sm, some sm.signaling_msg)

-- On entry to TRANSMIT_TLV the condition is not asked.
abbrev pub switch :
    Config → ℕ → State → Bool → GptpCapableTransmit → Round GptpCapableTransmit PtpMsgGptpCapableTlv
switch c cts64 init change sm = goto sm not_enabled
switch c cts64 not_enabled change sm = goto sm (not_enabled_condition sm)
switch c cts64 initialize change sm =
    goto (if change then initialize_proc c cts64 sm else sm) transmit_tlv
switch c cts64 transmit_tlv change sm =
    if change then sent (transmit_tlv_proc sm) else some (transmit_tlv_condition cts64 sm, none)
switch c cts64 reaction change sm = some (sm, none)

unfoldable pub round :
    Config → ℕ → GptpCapableTransmit → Round GptpCapableTransmit PtpMsgGptpCapableTlv
unfolding not_enabled_condition initialize_proc transmit_tlv_proc transmit_tlv_condition
round c cts64 sm =
    switch c cts64 sm.state (not (same sm.last_state sm.state))
      (record sm { last_state = sm.state })

abbrev pub settled : GptpCapableTransmit → Bool
settled sm = same sm.last_state sm.state

abbrev pub fuel : ℕ
fuel = 10

unfoldable pub gptp_capable_transmit_sm :
    Config → ℕ → GptpCapableTransmit → Outcome GptpCapableTransmit PtpMsgGptpCapableTlv
unfolding allstate_condition
gptp_capable_transmit_sm c cts64 sm =
    loop settled (round c cts64) fuel (record sm { state = allstate_condition sm })
