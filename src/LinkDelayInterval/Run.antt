-- ===== src/LinkDelayInterval/Run.antt =====
-- Calls of link_delay_interval_setting_sm: they return, and every request is served in its call.
use excelfore_gptp.Common.{
  ℕ, ℤ, pos, negsuc, ◌/◌, ◌%◌, ◌≡◌, refl, ap, ◌∙◌, ◌==◌, Bool-cases, Bool, true, false, arith, ◌⊎◌,
  inl, inr, Option, none, some, is_some,
}
use excelfore_gptp.Types.{UScaledNs, PtpMsgIntervalRequestTlv}
use excelfore_gptp.Globals.MdEntity.{MdEntityGlobal}
use excelfore_gptp.RequestedInterval.{IsChosen, unchanged, to_initial, indicated}
use excelfore_gptp.Config.{Config}
use excelfore_gptp.Flags.{
  get_flag_bit, compute_neighbor_rate_ratio_bit, compute_neighbor_prop_delay_bit,
}
use excelfore_gptp.Machine.{done, loop, Keeps, loop_rule, loop-next, loop-stop}
use excelfore_gptp.LinkDelayInterval.Machine.{
  State, init, not_enabled, initialize, set_interval, reaction, LinkDelayIntervalSetting,
  is_enabled, use_compute, allstate_condition, not_enabled_proc, not_enabled_condition,
  initialize_proc, initialize_condition, requested, set_interval_proc, set_interval_condition,
  round, settled, fuel, link_delay_interval_setting_sm, signaling_msg1,
}

-- A request that waits is there.
abbrev pub HasRequest : LinkDelayIntervalSetting → Type 0
HasRequest sm =
    (sm.rcvd_signaling_msg1 ≡ true → is_some sm.rcvd_signaling_ptr ≡ true)
    × (sm.state ≡ set_interval → is_some sm.rcvd_signaling_ptr ≡ true)

abbrev rank_of : State → State → ℕ
rank_of init l = 5
rank_of not_enabled l = 4
rank_of initialize l = 3
rank_of set_interval set_interval = 2
rank_of set_interval l = 1
rank_of reaction l = 0

abbrev rank : LinkDelayIntervalSetting → ℕ
rank sm = rank_of sm.state sm.last_state

round-Keeps :
    (c : Config) (sm : LinkDelayIntervalSetting)
    → HasRequest sm
    → Keeps settled (round c) HasRequest rank sm (round c sm)
unfolding round not_enabled_proc not_enabled_condition initialize_proc initialize_condition
    set_interval_proc set_interval_condition
round-Keeps c sm h = ground arith

-- A call returns without a fault in every state where a request that waits is there, and leaves such
-- a state.
pub link_delay_interval_setting_sm-Returns :
    (c : Config) (sm : LinkDelayIntervalSetting)
    → HasRequest sm
    → (sm' : LinkDelayIntervalSetting) × (retp : Option Unit) × (link_delay_interval_setting_sm c sm
        ≡ done sm' retp)
      × HasRequest sm'
unfolding link_delay_interval_setting_sm allstate_condition
link_delay_interval_setting_sm-Returns c sm h =
    loop_rule settled (round c) HasRequest rank (round-Keeps c) fuel
      (record sm { state = allstate_condition sm }) (ground arith) (ground arith)

-- The port is up, and the interval is not set by management.
pub record IsUp (sm : LinkDelayIntervalSetting) : Type 0 where
  pub begin : sm.ptasg.begin ≡ false
  pub enabled : is_enabled sm ≡ true

-- The machine with a request.
abbrev pub asked :
    LinkDelayIntervalSetting
    → PtpMsgIntervalRequestTlv
    → Bool
    → State
    → State
    → LinkDelayIntervalSetting
asked sm value waits s l = record sm {
  rcvd_signaling_ptr = some value;
  rcvd_signaling_msg1 = waits;
  state = s;
  last_state = l;
}

stays : (sm : LinkDelayIntervalSetting) → IsUp sm → allstate_condition sm ≡ sm.state
unfolding allstate_condition
stays sm u = ground (arith, u.begin, u.enabled)

begins :
    (c : Config) (value : PtpMsgIntervalRequestTlv) (sm : LinkDelayIntervalSetting) (s : State)
    → IsUp sm
    → sm.state ≡ s
    → sm.last_state ≡ sm.state
    → signaling_msg1 c value sm ≡ loop settled (round c) fuel (asked sm value true s s)
unfolding signaling_msg1 link_delay_interval_setting_sm
begins c value sm s u e r =
    let x = asked sm value true sm.state sm.last_state in
    let p = stays x (record { begin = u.begin; enabled = u.enabled }) in
    λ j. loop settled (round c) fuel (asked sm value true ((p ∙ e) j) ((r ∙ e) j))

requested-IsChosen :
    (c : Config) (value : ℤ) (g : MdEntityGlobal)
    → IsChosen c g.for_all_domain.initial_log_pdelay_req_interval
        g.for_all_domain.current_log_pdelay_req_interval g.for_all_domain.pdelay_req_interval value
        (requested c value g).for_all_domain.current_log_pdelay_req_interval
        (requested c value g).for_all_domain.pdelay_req_interval
unfolding requested
requested-IsChosen c (pos n) g = elim (Bool-cases (n == 126)) [
  | inl e ↦ to_initial (ground (arith, e)) (ground (arith, e)) (ground (arith, e))
  | inr e ↦
      indicated (λ q. ground (arith, q)) (λ q. ground (arith, e, q)) (ground (arith, e))
        (ground (arith, e))
]
requested-IsChosen c (negsuc n) g = elim (Bool-cases (n == 127)) [
  | inl e ↦ unchanged (ground (arith, e)) (ground (arith, e)) (ground (arith, e))
  | inr e ↦
      indicated (λ q. ground (arith, e, q)) (λ q. ground (arith, q)) (ground (arith, e))
        (ground (arith, e))
]

-- The machine after a request that it serves, for the logarithm and the interval that are then in use.
-- Bit 0 of the request's flags tells whether the rate ratio of the neighbour is computed, and bit 1
-- whether the propagation delay is.
abbrev pub served :
    PtpMsgIntervalRequestTlv → ℤ → UScaledNs → LinkDelayIntervalSetting → LinkDelayIntervalSetting
served value log t sm = record (asked sm value false set_interval set_interval) {
  mdeg = record (sm.mdeg) {
    for_all_domain = record (sm.mdeg.for_all_domain) {
      current_log_pdelay_req_interval = log;
      pdelay_req_interval = t;
    };
  };
  ppg = record (sm.ppg) {
    for_all_domain = record (sm.ppg.for_all_domain) {
      compute_neighbor_rate_ratio = value.flags % 2 == 1;
      compute_neighbor_prop_delay = value.flags / 2 % 2 == 1;
    };
  };
}

-- The machine as set_interval_proc leaves it.
abbrev served_by :
    Config → PtpMsgIntervalRequestTlv → LinkDelayIntervalSetting → LinkDelayIntervalSetting
served_by c value sm =
    let g = requested c value.link_delay_interval sm.mdeg in
    served value g.for_all_domain.current_log_pdelay_req_interval
      g.for_all_domain.pdelay_req_interval sm

requested-frame :
    (c : Config) (value : ℤ) (g : MdEntityGlobal)
    → requested c value g ≡ record g {
      for_all_domain = record (g.for_all_domain) {
        current_log_pdelay_req_interval =
            (requested c value g).for_all_domain.current_log_pdelay_req_interval;
        pdelay_req_interval = (requested c value g).for_all_domain.pdelay_req_interval;
      };
    }
unfolding requested
requested-frame c (pos n) g = ground arith
requested-frame c (negsuc n) g = ground arith

set_interval_proc-frame :
    (c : Config) (value : PtpMsgIntervalRequestTlv) (sm : LinkDelayIntervalSetting)
    → record (asked sm value false set_interval set_interval) {
      mdeg = requested c value.link_delay_interval sm.mdeg;
      ppg =
          use_compute
            (get_flag_bit value.flags compute_neighbor_rate_ratio_bit)
            (get_flag_bit value.flags compute_neighbor_prop_delay_bit)
            sm.ppg;
    }
      ≡ served_by c value sm
set_interval_proc-frame c value sm =
    ground (arith, requested-frame c value.link_delay_interval sm.mdeg)

to_set :
    (c : Config) (value : PtpMsgIntervalRequestTlv) (sm : LinkDelayIntervalSetting)
    → round c (asked sm value true initialize initialize)
      ≡ some (asked sm value true set_interval initialize, none)
unfolding round initialize_condition
to_set c value sm = refl

again :
    (c : Config) (value : PtpMsgIntervalRequestTlv) (sm : LinkDelayIntervalSetting)
    → round c (asked sm value true set_interval set_interval)
      ≡ some (asked sm value true set_interval reaction, none)
unfolding round set_interval_condition
again c value sm = refl

sets :
    (c : Config) (value : PtpMsgIntervalRequestTlv) (sm : LinkDelayIntervalSetting)
    → round c (asked sm value true set_interval initialize) ≡ some (served_by c value sm, none)
unfolding round set_interval_proc set_interval_condition requested
sets c value sm = ap (λ x. some (x, none)) (set_interval_proc-frame c value sm)

sets_again :
    (c : Config) (value : PtpMsgIntervalRequestTlv) (sm : LinkDelayIntervalSetting)
    → round c (asked sm value true set_interval reaction) ≡ some (served_by c value sm, none)
unfolding round set_interval_proc set_interval_condition requested
sets_again c value sm = ap (λ x. some (x, none)) (set_interval_proc-frame c value sm)

served_call :
    (c : Config) (value : PtpMsgIntervalRequestTlv) (sm : LinkDelayIntervalSetting)
    → IsUp sm
    → sm.last_state ≡ sm.state
    → (sm.state ≡ initialize) ⊎ (sm.state ≡ set_interval)
    → signaling_msg1 c value sm ≡ done (served_by c value sm) none
served_call c value sm u r (inl e) =
    begins c value sm initialize u e r
    ∙ loop-next settled (round c) 9 (asked sm value true initialize initialize)
        (asked sm value true set_interval initialize) none (to_set c value sm) refl
    ∙ loop-stop settled (round c) 8 (asked sm value true set_interval initialize)
        (served_by c value sm) none (sets c value sm) refl
served_call c value sm u r (inr e) =
    begins c value sm set_interval u e r
    ∙ loop-next settled (round c) 9 (asked sm value true set_interval set_interval)
        (asked sm value true set_interval reaction) none (again c value sm) refl
    ∙ loop-stop settled (round c) 8 (asked sm value true set_interval reaction)
        (served_by c value sm) none (sets_again c value sm) refl

-- The call for the request ends with no request waiting, and the logarithm and the interval in use are
-- the requested ones.
abbrev pub IsServed : Config → PtpMsgIntervalRequestTlv → LinkDelayIntervalSetting → Type 0
IsServed c value sm =
    (log : ℤ) × (t : UScaledNs) × IsChosen c sm.mdeg.for_all_domain.initial_log_pdelay_req_interval
      sm.mdeg.for_all_domain.current_log_pdelay_req_interval
      sm.mdeg.for_all_domain.pdelay_req_interval value.link_delay_interval log t
    × (signaling_msg1 c value sm ≡ done (served value log t sm) none)

-- A machine that is up and rests in INITIALIZE or SET_INTERVAL serves a request in its call, however
-- many it served before: the interval of the Pdelay_Req messages and the
-- two computations are the requested ones, and no request waits.
pub signaling_msg1-IsServed :
    (c : Config) (value : PtpMsgIntervalRequestTlv) (sm : LinkDelayIntervalSetting)
    → IsUp sm
    → sm.last_state ≡ sm.state
    → (sm.state ≡ initialize) ⊎ (sm.state ≡ set_interval)
    → IsServed c value sm
signaling_msg1-IsServed c value sm u r h = (
  (requested c value.link_delay_interval sm.mdeg).for_all_domain.current_log_pdelay_req_interval,
  (requested c value.link_delay_interval sm.mdeg).for_all_domain.pdelay_req_interval,
  requested-IsChosen c value.link_delay_interval sm.mdeg,
  served_call c value sm u r h,
)
