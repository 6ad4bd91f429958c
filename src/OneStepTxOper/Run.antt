-- ===== src/OneStepTxOper/Run.antt =====
-- Calls of one_step_tx_oper_setting_sm: they return, and every request is served in its call.
use excelfore_gptp.Common.{
  ℕ, ◌/◌, ◌%◌, ◌==◌, ◌&&◌, ◌≡◌, refl, ◌∙◌, Bool, true, false, arith, ◌⊎◌, inl, inr, Option, none,
  some, is_some,
}
use excelfore_gptp.Types.{PtpMsgIntervalRequestTlv}
use excelfore_gptp.Machine.{done, loop, Keeps, loop_rule, loop-next, loop-stop}
use excelfore_gptp.OneStepTxOper.Machine.{
  State, init, not_enabled, initialize, set_one_step_tx_oper, reaction, OneStepTxOperSetting,
  is_enabled, allstate_condition, not_enabled_proc, not_enabled_condition, initialize_proc,
  initialize_condition, set_one_step_tx_oper_proc, set_one_step_tx_oper_condition, round, settled,
  fuel, one_step_tx_oper_setting_sm, signaling_msg4,
}

-- A request that waits is there.
abbrev pub HasRequest : OneStepTxOperSetting → Type 0
HasRequest sm =
    (sm.rcvd_signaling_msg4 ≡ true → is_some sm.rcvd_signaling_ptr ≡ true)
    × (sm.state ≡ set_one_step_tx_oper → is_some sm.rcvd_signaling_ptr ≡ true)

abbrev rank_of : State → State → ℕ
rank_of init l = 5
rank_of not_enabled l = 4
rank_of initialize l = 3
rank_of set_one_step_tx_oper set_one_step_tx_oper = 2
rank_of set_one_step_tx_oper l = 1
rank_of reaction l = 0

abbrev rank : OneStepTxOperSetting → ℕ
rank sm = rank_of sm.state sm.last_state

round-Keeps :
    (sm : OneStepTxOperSetting) → HasRequest sm → Keeps settled round HasRequest rank sm (round sm)
unfolding round not_enabled_proc not_enabled_condition initialize_proc initialize_condition
    set_one_step_tx_oper_proc set_one_step_tx_oper_condition
round-Keeps sm h = ground arith

-- A call returns without a fault in every state where a request that waits is there, and leaves such
-- a state.
pub one_step_tx_oper_setting_sm-Returns :
    (sm : OneStepTxOperSetting)
    → HasRequest sm
    → (sm' : OneStepTxOperSetting) × (retp : Option Unit) × (one_step_tx_oper_setting_sm sm
        ≡ done sm' retp)
      × HasRequest sm'
unfolding one_step_tx_oper_setting_sm allstate_condition
one_step_tx_oper_setting_sm-Returns sm h =
    loop_rule settled round HasRequest rank round-Keeps fuel
      (record sm { state = allstate_condition sm }) (ground arith) (ground arith)

-- The instance and the port are up, and the choice is not made by management.
pub record IsUp (sm : OneStepTxOperSetting) : Type 0 where
  pub begin : sm.ptasg.begin ≡ false
  pub instance_enable : sm.ptasg.instance_enable ≡ true
  pub enabled : is_enabled sm.ppg ≡ true

-- The machine with a request.
abbrev pub asked :
    OneStepTxOperSetting → PtpMsgIntervalRequestTlv → Bool → State → State → OneStepTxOperSetting
asked sm value waits s l = record sm {
  rcvd_signaling_ptr = some value;
  rcvd_signaling_msg4 = waits;
  state = s;
  last_state = l;
}

stays : (sm : OneStepTxOperSetting) → IsUp sm → allstate_condition sm ≡ sm.state
unfolding allstate_condition
stays sm u = ground (arith, u.begin, u.instance_enable, u.enabled)

begins :
    (value : PtpMsgIntervalRequestTlv) (sm : OneStepTxOperSetting) (s : State)
    → IsUp sm
    → sm.state ≡ s
    → sm.last_state ≡ sm.state
    → signaling_msg4 value sm ≡ loop settled round fuel (asked sm value true s s)
unfolding signaling_msg4 one_step_tx_oper_setting_sm
begins value sm s u e r =
    let x = asked sm value true sm.state sm.last_state in
    let p =
      stays x
        (record { begin = u.begin; instance_enable = u.instance_enable; enabled = u.enabled }) in
    λ j. loop settled round fuel (asked sm value true ((p ∙ e) j) ((r ∙ e) j))

-- The machine after a request that it serves. Bit 2 of the request's flags tells whether the neighbour
-- takes one-step Sync messages.
abbrev pub served : PtpMsgIntervalRequestTlv → OneStepTxOperSetting → OneStepTxOperSetting
served value sm = record (asked sm value false set_one_step_tx_oper set_one_step_tx_oper) {
  ppg = record (sm.ppg) { current_one_step_tx_oper = value.flags / 4 % 2 == 1 };
  mdeg = record (sm.mdeg) {
    one_step_tx_oper = value.flags / 4 % 2 == 1 && sm.mdeg.one_step_transmit;
  };
}

to_set :
    (value : PtpMsgIntervalRequestTlv) (sm : OneStepTxOperSetting)
    → round (asked sm value true initialize initialize)
      ≡ some (asked sm value true set_one_step_tx_oper initialize, none)
unfolding round initialize_condition
to_set value sm = refl

again :
    (value : PtpMsgIntervalRequestTlv) (sm : OneStepTxOperSetting)
    → round (asked sm value true set_one_step_tx_oper set_one_step_tx_oper)
      ≡ some (asked sm value true set_one_step_tx_oper reaction, none)
unfolding round set_one_step_tx_oper_condition
again value sm = refl

sets :
    (value : PtpMsgIntervalRequestTlv) (sm : OneStepTxOperSetting)
    → round (asked sm value true set_one_step_tx_oper initialize) ≡ some (served value sm, none)
unfolding round set_one_step_tx_oper_proc set_one_step_tx_oper_condition
sets value sm = refl

sets_again :
    (value : PtpMsgIntervalRequestTlv) (sm : OneStepTxOperSetting)
    → round (asked sm value true set_one_step_tx_oper reaction) ≡ some (served value sm, none)
unfolding round set_one_step_tx_oper_proc set_one_step_tx_oper_condition
sets_again value sm = refl

-- A machine that is up and rests in INITIALIZE or SET_INTERVAL serves a request in its call, however
-- many it served before: the port sends one-step Sync messages exactly if
-- the neighbour takes them and the port can send them, and no request waits.
pub request_served :
    (value : PtpMsgIntervalRequestTlv) (sm : OneStepTxOperSetting)
    → IsUp sm
    → sm.last_state ≡ sm.state
    → (sm.state ≡ initialize) ⊎ (sm.state ≡ set_one_step_tx_oper)
    → signaling_msg4 value sm ≡ done (served value sm) none
request_served value sm u r (inl e) =
    begins value sm initialize u e r
    ∙ loop-next settled round 9 (asked sm value true initialize initialize)
        (asked sm value true set_one_step_tx_oper initialize) none (to_set value sm) refl
    ∙ loop-stop settled round 8 (asked sm value true set_one_step_tx_oper initialize)
        (served value sm) none (sets value sm) refl
request_served value sm u r (inr e) =
    begins value sm set_one_step_tx_oper u e r
    ∙ loop-next settled round 9 (asked sm value true set_one_step_tx_oper set_one_step_tx_oper)
        (asked sm value true set_one_step_tx_oper reaction) none (again value sm) refl
    ∙ loop-stop settled round 8 (asked sm value true set_one_step_tx_oper reaction)
        (served value sm) none (sets_again value sm) refl
