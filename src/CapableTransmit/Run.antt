-- ===== src/CapableTransmit/Run.antt =====
-- Calls of gptp_capable_transmit_sm: they return, and a message goes out whenever its time has come.
use excelfore_gptp.Common.{
  ℕ, ◌+◌, ◌≡◌, sym, inl, inr, Bool-cases, if◌then◌else◌, if_true, if_false, refl, ◌∙◌, true, false,
  arith, none, some, u64, leb,
}
use excelfore_gptp.Types.{PtpMsgGptpCapableTlv}
use excelfore_gptp.Config.{Config}
use excelfore_gptp.Flags.{
  get_flag_bit, compute_neighbor_rate_ratio_bit, compute_neighbor_prop_delay_bit,
}
use excelfore_gptp.Machine.{done, loop, Continues, loop-Returns, Returns, loop-next, loop-stop}
use excelfore_gptp.CapableTransmit.Machine.{
  State, init, not_enabled, initialize, transmit_tlv, reaction, GptpCapableTransmit, is_enabled,
  set_gptp_capable_tlv, allstate_condition, not_enabled_condition, initialize_proc,
  transmit_tlv_proc, transmit_tlv_condition, shifted_second, round, settled, fuel,
  gptp_capable_transmit_sm,
}

abbrev rank_of : State → State → ℕ
rank_of init l = 5
rank_of not_enabled l = 4
rank_of initialize l = 3
rank_of transmit_tlv transmit_tlv = 2
rank_of transmit_tlv l = 1
rank_of reaction l = 0

abbrev rank : GptpCapableTransmit → ℕ
rank sm = rank_of sm.state sm.last_state

round-Continues :
    (c : Config) (cts64 : ℕ) (sm : GptpCapableTransmit)
    → Unit {0}
    → Continues settled (round c cts64) (λ _. Unit {0}) rank sm (round c cts64 sm)
unfolding round not_enabled_condition initialize_proc transmit_tlv_proc transmit_tlv_condition
round-Continues c cts64 sm h = ground arith

-- Every call returns.
pub gptp_capable_transmit_sm-Returns :
    (c : Config) (cts64 : ℕ) (sm : GptpCapableTransmit)
    → Returns (gptp_capable_transmit_sm c cts64 sm)
unfolding gptp_capable_transmit_sm
gptp_capable_transmit_sm-Returns c cts64 sm =
    loop-Returns settled (round c cts64) (λ _. Unit {0}) rank (round-Continues c cts64) fuel
      (record sm { state = allstate_condition sm }) tt (ground arith)

-- The message tells the interval and what the port computes from the neighbour's messages.
pub record Tells (sm : GptpCapableTransmit) (tlv : PtpMsgGptpCapableTlv) : Type 0 where
  pub interval : tlv.log_gptp_capable_message_interval ≡ sm.ppg.log_gptp_capable_message_interval
  pub rate_ratio :
      get_flag_bit tlv.flags compute_neighbor_rate_ratio_bit
      ≡ sm.ppg.for_all_domain.compute_neighbor_rate_ratio
  pub prop_delay :
      get_flag_bit tlv.flags compute_neighbor_prop_delay_bit
      ≡ sm.ppg.for_all_domain.compute_neighbor_prop_delay

pub set_gptp_capable_tlv-Tells : (sm : GptpCapableTransmit) → Tells sm (set_gptp_capable_tlv sm)
unfolding set_gptp_capable_tlv
set_gptp_capable_tlv-Tells sm = record {
  interval = refl;
  rate_ratio = ground arith;
  prop_delay = ground arith;
}

-- The instance and the port are up, and the neighbour takes part in the domain.
pub record IsUp (sm : GptpCapableTransmit) : Type 0 where
  pub begin : sm.ptasg.begin ≡ false
  pub instance_enable : sm.ptasg.instance_enable ≡ true
  pub enabled : is_enabled sm.ppg ≡ true

abbrev pub at_state : GptpCapableTransmit → State → State → GptpCapableTransmit
at_state sm s l = record sm { state = s; last_state = l }

stays : (sm : GptpCapableTransmit) → IsUp sm → allstate_condition sm ≡ sm.state
unfolding allstate_condition
stays sm u = ground (arith, u.begin, u.instance_enable, u.enabled)

begins :
    (c : Config) (cts64 : ℕ) (sm : GptpCapableTransmit) (s : State)
    → IsUp sm
    → sm.state ≡ s
    → sm.last_state ≡ s
    → gptp_capable_transmit_sm c cts64 sm ≡ loop settled (round c cts64) fuel (at_state sm s s)
unfolding gptp_capable_transmit_sm
begins c cts64 sm s u e f =
    let p = stays sm u in λ j. loop settled (round c cts64) fuel (at_state sm ((p ∙ e) j) (f j))

-- The machine that has just sent its message: the next one is due an interval later.
abbrev pub sent : GptpCapableTransmit → GptpCapableTransmit
sent sm = record (at_state sm transmit_tlv transmit_tlv) {
  interval_timer = u64 (sm.interval_timer + sm.signaling_msg_time_interval);
  signaling_msg = set_gptp_capable_tlv sm;
}

is_due :
    (c : Config) (cts64 : ℕ) (sm : GptpCapableTransmit)
    → leb sm.interval_timer cts64 ≡ true
    → round c cts64 (at_state sm transmit_tlv transmit_tlv)
      ≡ some (at_state sm transmit_tlv reaction, none)
unfolding round transmit_tlv_condition
is_due c cts64 sm h = ground (arith, h)

sends :
    (c : Config) (cts64 : ℕ) (sm : GptpCapableTransmit)
    → round c cts64 (at_state sm transmit_tlv reaction)
      ≡ some (sent sm, some (set_gptp_capable_tlv sm))
unfolding round transmit_tlv_proc set_gptp_capable_tlv
sends c cts64 sm = refl

sends_first :
    (c : Config) (cts64 : ℕ) (sm : GptpCapableTransmit)
    → round c cts64 (at_state sm transmit_tlv initialize)
      ≡ some (sent sm, some (set_gptp_capable_tlv sm))
unfolding round transmit_tlv_proc set_gptp_capable_tlv
sends_first c cts64 sm = refl

waits :
    (c : Config) (cts64 : ℕ) (sm : GptpCapableTransmit)
    → leb sm.interval_timer cts64 ≡ false
    → round c cts64 (at_state sm transmit_tlv transmit_tlv)
      ≡ some (at_state sm transmit_tlv transmit_tlv, none)
unfolding round transmit_tlv_condition
waits c cts64 sm h = ground (arith, h)

-- A machine that is up and rests in TRANSMIT_TLV sends a message in a call exactly if its time has
-- come, and then the next one is due an interval later. The message tells the interval of the port and
-- what the port computes from the neighbour's messages.
pub sends_when_due :
    (c : Config) (cts64 : ℕ) (sm : GptpCapableTransmit)
    → IsUp sm
    → sm.state ≡ transmit_tlv
    → sm.last_state ≡ transmit_tlv
    → (gptp_capable_transmit_sm c cts64 sm ≡ (
        if leb sm.interval_timer cts64
        then done (sent sm) (some (set_gptp_capable_tlv sm))
        else done (at_state sm transmit_tlv transmit_tlv) none))
      × Tells sm (set_gptp_capable_tlv sm)
sends_when_due c cts64 sm u e f = (
  elim (Bool-cases (leb sm.interval_timer cts64)) [
    | inl h ↦
        begins c cts64 sm transmit_tlv u e f
        ∙ loop-next settled (round c cts64) 9 (at_state sm transmit_tlv transmit_tlv)
            (at_state sm transmit_tlv reaction) none (is_due c cts64 sm h) refl
        ∙ loop-stop settled (round c cts64) 8 (at_state sm transmit_tlv reaction) (sent sm)
            (some (set_gptp_capable_tlv sm)) (sends c cts64 sm) refl
        ∙ sym (if_true _ _ h)
    | inr h ↦
        begins c cts64 sm transmit_tlv u e f
        ∙ loop-stop settled (round c cts64) 9 (at_state sm transmit_tlv transmit_tlv)
            (at_state sm transmit_tlv transmit_tlv) none (waits c cts64 sm h) refl
        ∙ sym (if_false _ _ h)
  ],
  set_gptp_capable_tlv-Tells sm,
)

-- The machine whose timer starts with the call.
abbrev pub started : Config → ℕ → GptpCapableTransmit → GptpCapableTransmit
started c cts64 sm = record sm {
  signaling_msg_time_interval = shifted_second c sm.ppg.log_gptp_capable_message_interval;
  interval_timer = cts64;
}

becomes_enabled :
    (c : Config) (cts64 : ℕ) (sm : GptpCapableTransmit)
    → is_enabled sm.ppg ≡ true
    → round c cts64 (at_state sm not_enabled not_enabled)
      ≡ some (at_state sm initialize not_enabled, none)
unfolding round not_enabled_condition
becomes_enabled c cts64 sm h = ground (arith, h)

starts :
    (c : Config) (cts64 : ℕ) (sm : GptpCapableTransmit)
    → round c cts64 (at_state sm initialize not_enabled)
      ≡ some (at_state (started c cts64 sm) transmit_tlv initialize, none)
unfolding round initialize_proc
starts c cts64 sm = refl

-- A machine that rests in NOT_ENABLED sends its first message in the first call once it is up, and the
-- next one is due an interval after that call.
pub sends_at_once :
    (c : Config) (cts64 : ℕ) (sm : GptpCapableTransmit)
    → IsUp sm
    → sm.state ≡ not_enabled
    → sm.last_state ≡ not_enabled
    → gptp_capable_transmit_sm c cts64 sm
      ≡ done (sent (started c cts64 sm)) (some (set_gptp_capable_tlv sm))
unfolding set_gptp_capable_tlv
sends_at_once c cts64 sm u e f =
    let x = started c cts64 sm in
    begins c cts64 sm not_enabled u e f
    ∙ loop-next settled (round c cts64) 9 (at_state sm not_enabled not_enabled)
        (at_state sm initialize not_enabled) none (becomes_enabled c cts64 sm u.enabled) refl
    ∙ loop-next settled (round c cts64) 8 (at_state sm initialize not_enabled)
        (at_state x transmit_tlv initialize) none (starts c cts64 sm) refl
    ∙ loop-stop settled (round c cts64) 7 (at_state x transmit_tlv initialize) (sent x)
        (some (set_gptp_capable_tlv x)) (sends_first c cts64 x) refl
