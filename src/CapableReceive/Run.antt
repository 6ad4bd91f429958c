-- ===== src/CapableReceive/Run.antt =====
-- Calls of gptp_capable_receive_sm: a TLV makes the neighbour capable, a timeout ends it.
use excelfore_gptp.Common.{
  ℕ, ℤ, ◌+◌, ◌<◌, ◌≤◌, ◌≡◌, refl, ◌∙◌, Bool, true, false, not, arith, Option, none, some, is_some,
  if◌then◌else◌, u64,
}
use excelfore_gptp.Config.{Config, times_uint64, log_to_nsec}
use excelfore_gptp.Machine.{done, loop, Keeps, loop_rule, loop-next, loop-stop}
use excelfore_gptp.CapableReceive.Machine.{
  State, init, not_enabled, initialize, received_tlv, reaction, same, GptpCapableReceive,
  is_enabled, allstate_condition, not_enabled_condition, initialize_proc, initialize_condition,
  adopt_tlv, received_tlv_proc, received_tlv_condition, round, settled, fuel,
  gptp_capable_receive_sm, rcvd_signaling_msg,
}

-- A TLV that waits, or is to be looked at, is there.
abbrev pub HasTlv : GptpCapableReceive → Type 0
HasTlv sm =
    (sm.rcvd_gptp_capable_tlv ≡ true → is_some sm.rcvd_signaling_msg_ptr ≡ true)
    × (sm.state ≡ received_tlv → is_some sm.rcvd_signaling_msg_ptr ≡ true)

abbrev rank_of : State → Bool → Bool → ℕ
rank_of init change waits = 9
rank_of not_enabled change waits = 8
rank_of initialize true waits = if waits then 4 else 1
rank_of initialize false waits = if waits then 4 else 1
rank_of received_tlv true waits = 3
rank_of received_tlv false waits = 7
rank_of reaction change waits = 0

abbrev rank : GptpCapableReceive → ℕ
rank sm = rank_of sm.state (not (same sm.last_state sm.state)) sm.rcvd_gptp_capable_tlv

round-Keeps :
    (c : Config) (cts64 : ℕ) (sm : GptpCapableReceive)
    → HasTlv sm
    → Keeps settled (round c cts64) HasTlv rank sm (round c cts64 sm)
unfolding round not_enabled_condition initialize_proc initialize_condition adopt_tlv
    received_tlv_proc received_tlv_condition
round-Keeps c cts64 sm h = ground arith

-- A call returns without a fault in every state where a TLV that waits is there, and leaves such a
-- state.
pub gptp_capable_receive_sm-Returns :
    (c : Config) (cts64 : ℕ) (sm : GptpCapableReceive)
    → HasTlv sm
    → (sm' : GptpCapableReceive) × (retp : Option Unit) × (gptp_capable_receive_sm c cts64 sm
        ≡ done sm' retp)
      × HasTlv sm'
unfolding gptp_capable_receive_sm allstate_condition
gptp_capable_receive_sm-Returns c cts64 sm h =
    loop_rule settled (round c cts64) HasTlv rank (round-Keeps c cts64) fuel
      (record sm { state = allstate_condition sm }) (ground arith) (ground arith)

-- The instance and the port are up, and the domain is enabled.
pub record IsUp (sm : GptpCapableReceive) : Type 0 where
  pub begin : sm.ptasg.begin ≡ false
  pub instance_enable : sm.ptasg.instance_enable ≡ true
  pub enabled : is_enabled sm.ppg ≡ true

abbrev at_state : GptpCapableReceive → State → State → GptpCapableReceive
at_state sm s l = record sm { state = s; last_state = l }

stays : (sm : GptpCapableReceive) → IsUp sm → allstate_condition sm ≡ sm.state
unfolding allstate_condition
stays sm u = ground (arith, u.begin, u.instance_enable, u.enabled)

begins :
    (c : Config) (cts64 : ℕ) (sm : GptpCapableReceive) (s : State)
    → IsUp sm
    → sm.state ≡ s
    → sm.last_state ≡ s
    → gptp_capable_receive_sm c cts64 sm ≡ loop settled (round c cts64) fuel (at_state sm s s)
unfolding gptp_capable_receive_sm
begins c cts64 sm s u e f =
    let p = stays sm u in λ j. loop settled (round c cts64) fuel (at_state sm ((p ∙ e) j) (f j))

expires :
    (c : Config) (cts64 : ℕ) (sm : GptpCapableReceive)
    → sm.timeout_time ≤ cts64
    → round c cts64 (at_state sm received_tlv received_tlv)
      ≡ some (at_state sm initialize received_tlv, none)
unfolding round received_tlv_condition
expires c cts64 sm t = ground arith

-- The neighbour is not capable any more.
abbrev pub lost : GptpCapableReceive → GptpCapableReceive
lost sm = record sm {
  ppg = record (sm.ppg) { neighbor_gptp_capable = false };
  state = initialize;
  last_state = initialize;
}

loses :
    (c : Config) (cts64 : ℕ) (sm : GptpCapableReceive)
    → sm.rcvd_gptp_capable_tlv ≡ false
    → round c cts64 (at_state sm initialize received_tlv) ≡ some (lost sm, none)
unfolding round initialize_proc initialize_condition
loses c cts64 sm w = ground arith

-- If a machine that is up rests in RECEIVED_TLV with no TLV waiting and the timeout has come, one call
-- takes the neighbour's capability away and leaves the machine in INITIALIZE.
pub timeout_loses :
    (c : Config) (cts64 : ℕ) (sm : GptpCapableReceive)
    → IsUp sm
    → sm.state ≡ received_tlv
    → sm.last_state ≡ received_tlv
    → sm.rcvd_gptp_capable_tlv ≡ false
    → sm.timeout_time ≤ cts64
    → gptp_capable_receive_sm c cts64 sm ≡ done (lost sm) none
timeout_loses c cts64 sm u e f w t =
    begins c cts64 sm received_tlv u e f
    ∙ loop-next settled (round c cts64) 9 (at_state sm received_tlv received_tlv)
        (at_state sm initialize received_tlv) none (expires c cts64 sm t) refl
    ∙ loop-stop settled (round c cts64) 8 (at_state sm initialize received_tlv) (lost sm) none
        (loses c cts64 sm w) refl

-- The machine with a TLV that waits.
abbrev told : GptpCapableReceive → ℤ → GptpCapableReceive
told sm log = record sm { rcvd_gptp_capable_tlv = true; rcvd_signaling_msg_ptr = some log }

asks :
    (c : Config) (cts64 : ℕ) (log : ℤ) (sm : GptpCapableReceive)
    → cts64 < sm.timeout_time
    → round c cts64 (at_state (told sm log) received_tlv received_tlv)
      ≡ some (at_state (told sm log) received_tlv reaction, none)
unfolding round received_tlv_condition
asks c cts64 log sm t = ground arith

-- The neighbour is capable until the timeout of the interval in its TLV.
abbrev pub renewed : Config → ℕ → ℤ → GptpCapableReceive → GptpCapableReceive
renewed c cts64 log sm =
    let interval = times_uint64 sm.ppg.gptp_capable_receipt_timeout (log_to_nsec c log) in
    record sm {
      ppg = record (sm.ppg) { neighbor_gptp_capable = true };
      rcvd_gptp_capable_tlv = false;
      rcvd_signaling_msg_ptr = some log;
      gptp_capable_receipt_timeout_interval = interval;
      timeout_time = u64 (cts64 + interval);
      state = received_tlv;
      last_state = received_tlv;
    }

renews :
    (c : Config) (cts64 : ℕ) (log : ℤ) (sm : GptpCapableReceive)
    → cts64 < (renewed c cts64 log sm).timeout_time
    → round c cts64 (at_state (told sm log) received_tlv reaction)
      ≡ some (renewed c cts64 log sm, none)
unfolding round adopt_tlv received_tlv_proc received_tlv_condition
renews c cts64 log sm t = ground arith

-- If a machine that is up rests in RECEIVED_TLV, its timeout has not come and the timeout of a new TLV
-- lies ahead, the call for that TLV makes the neighbour capable until the new timeout.
pub tlv_renews :
    (c : Config) (cts64 : ℕ) (log : ℤ) (sm : GptpCapableReceive)
    → IsUp sm
    → sm.state ≡ received_tlv
    → sm.last_state ≡ received_tlv
    → cts64 < sm.timeout_time
    → cts64 < (renewed c cts64 log sm).timeout_time
    → rcvd_signaling_msg c cts64 log sm ≡ done (renewed c cts64 log sm) none
unfolding rcvd_signaling_msg
tlv_renews c cts64 log sm u e f t t' =
    begins c cts64 (told sm log) received_tlv
      (record { begin = u.begin; instance_enable = u.instance_enable; enabled = u.enabled }) e f
    ∙ loop-next settled (round c cts64) 9 (at_state (told sm log) received_tlv received_tlv)
        (at_state (told sm log) received_tlv reaction) none (asks c cts64 log sm t) refl
    ∙ loop-stop settled (round c cts64) 8 (at_state (told sm log) received_tlv reaction)
        (renewed c cts64 log sm) none (renews c cts64 log sm t') refl
