-- ===== src/AnnounceInterval/Run.antt =====
-- Calls of announce_interval_setting_sm: the first request, and the requests after it.
use excelfore_gptp.Common.{
  ℕ, ℤ, pos, negsuc, ◌≡◌, refl, ◌∙◌, ◌==◌, Bool-cases, Bool, true, false, arith, ◌⊎◌, inl, inr,
  Option, none, some, is_some, ltb,
}
use excelfore_gptp.Config.{Config}
use excelfore_gptp.Types.{UScaledNs}
use excelfore_gptp.Globals.{BmcsPerPortGlobal}
use excelfore_gptp.RequestedInterval.{IsChosen, unchanged, to_initial, indicated}
use excelfore_gptp.Machine.{done, loop, Keeps, loop_rule, loop-next, loop-stop}
use excelfore_gptp.AnnounceInterval.Machine.{
  State, init, not_enabled, initialize, set_intervals, reaction, AnnounceIntervalSetting,
  is_enabled, allstate_condition, not_enabled_proc, not_enabled_condition, initialize_proc,
  initialize_condition, requested, set_intervals_proc, set_intervals_condition, round, settled,
  fuel, announce_interval_setting_sm, signaling_msg2,
}

-- A request that waits is there.
abbrev pub HasRequest : AnnounceIntervalSetting → Type 0
HasRequest sm =
    (sm.rcvd_signaling_msg2 ≡ true → is_some sm.rcvd_signaling_ptr ≡ true)
    × (sm.state ≡ set_intervals → is_some sm.rcvd_signaling_ptr ≡ true)

abbrev rank : AnnounceIntervalSetting → ℕ
rank sm = elim (sm.state) [
  | init ↦ 4
  | not_enabled ↦ 3
  | initialize ↦ 2
  | set_intervals ↦ 1
  | reaction ↦ 0
]

round-Keeps :
    (c : Config) (sm : AnnounceIntervalSetting)
    → HasRequest sm
    → Keeps settled (round c) HasRequest rank sm (round c sm)
unfolding round not_enabled_proc not_enabled_condition initialize_proc initialize_condition
    set_intervals_proc set_intervals_condition
round-Keeps c sm h = ground arith

-- A call returns without a fault in every state where a request that waits is there, and leaves such
-- a state.
pub announce_interval_setting_sm-Returns :
    (c : Config) (sm : AnnounceIntervalSetting)
    → HasRequest sm
    → (sm' : AnnounceIntervalSetting) × (retp : Option Unit) × (announce_interval_setting_sm c sm
        ≡ done sm' retp)
      × HasRequest sm'
unfolding announce_interval_setting_sm allstate_condition
announce_interval_setting_sm-Returns c sm h =
    loop_rule settled (round c) HasRequest rank (round-Keeps c) fuel
      (record sm { state = allstate_condition sm }) (ground arith) (ground arith)

-- The instance and the port are up, and the interval is not set by management.
pub record IsUp (sm : AnnounceIntervalSetting) : Type 0 where
  pub begin : sm.ptasg.begin ≡ false
  pub instance_enable : sm.ptasg.instance_enable ≡ true
  pub enabled : is_enabled sm.ppg ≡ true

-- The machine with a request.
abbrev pub asked : AnnounceIntervalSetting → ℤ → Bool → State → State → AnnounceIntervalSetting
asked sm value waits s l = record sm {
  rcvd_signaling_ptr = some value;
  rcvd_signaling_msg2 = waits;
  state = s;
  last_state = l;
}

stays : (sm : AnnounceIntervalSetting) → IsUp sm → allstate_condition sm ≡ sm.state
unfolding allstate_condition
stays sm u = ground (arith, u.begin, u.instance_enable, u.enabled)

begins :
    (c : Config) (value : ℤ) (sm : AnnounceIntervalSetting) (s l : State)
    → IsUp sm
    → sm.state ≡ s
    → sm.last_state ≡ l
    → signaling_msg2 c value sm ≡ loop settled (round c) fuel (asked sm value true s l)
unfolding signaling_msg2 announce_interval_setting_sm
begins c value sm s l u e f =
    let x = asked sm value true sm.state sm.last_state in
    let p =
      stays x
        (record { begin = u.begin; instance_enable = u.instance_enable; enabled = u.enabled }) in
    λ j. loop settled (round c) fuel (asked sm value true ((p ∙ e) j) (f j))

requested-IsChosen :
    (c : Config) (value : ℤ) (p : BmcsPerPortGlobal)
    → IsChosen c p.initial_log_announce_interval p.current_log_announce_interval p.announce_interval
        value
        (requested c value p).current_log_announce_interval
        (requested c value p).announce_interval
unfolding requested
requested-IsChosen c (pos n) p = elim (Bool-cases (n == 126)) [
  | inl e ↦ to_initial (ground (arith, e)) (ground (arith, e)) (ground (arith, e))
  | inr e ↦
      indicated (λ q. ground (arith, q)) (λ q. ground (arith, e, q)) (ground (arith, e))
        (ground (arith, e))
]
requested-IsChosen c (negsuc n) p = elim (Bool-cases (n == 127)) [
  | inl e ↦ unchanged (ground (arith, e)) (ground (arith, e)) (ground (arith, e))
  | inr e ↦
      indicated (λ q. ground (arith, e, q)) (λ q. ground (arith, q)) (ground (arith, e))
        (ground (arith, e))
]

-- The machine after a request that it serves, for the logarithm and the interval that are then in use.
abbrev pub served : ℤ → ℤ → UScaledNs → AnnounceIntervalSetting → AnnounceIntervalSetting
served value log t sm = record (asked sm value false set_intervals set_intervals) {
  bppg = record (sm.bppg) {
    current_log_announce_interval = log;
    announce_interval = t;
    announce_slowdown = ltb t sm.bppg.old_announce_interval;
  };
}

-- The machine as set_intervals_proc leaves it.
abbrev served_by : Config → ℤ → AnnounceIntervalSetting → AnnounceIntervalSetting
served_by c value sm =
    served value (requested c value sm.bppg).current_log_announce_interval
      (requested c value sm.bppg).announce_interval sm

to_set :
    (c : Config) (value : ℤ) (sm : AnnounceIntervalSetting)
    → round c (asked sm value true initialize initialize)
      ≡ some (asked sm value true set_intervals initialize, none)
unfolding round initialize_condition
to_set c value sm = refl

sets :
    (c : Config) (value : ℤ) (sm : AnnounceIntervalSetting)
    → round c (asked sm value true set_intervals initialize) ≡ some (served_by c value sm, none)
unfolding round set_intervals_proc set_intervals_condition requested
sets c (pos n) sm = ground arith
sets c (negsuc n) sm = ground arith

first_served :
    (c : Config) (value : ℤ) (sm : AnnounceIntervalSetting)
    → IsUp sm
    → sm.state ≡ initialize
    → sm.last_state ≡ initialize
    → signaling_msg2 c value sm ≡ done (served_by c value sm) none
first_served c value sm u e f =
    begins c value sm initialize initialize u e f
    ∙ loop-next settled (round c) 9 (asked sm value true initialize initialize)
        (asked sm value true set_intervals initialize) none (to_set c value sm) refl
    ∙ loop-stop settled (round c) 8 (asked sm value true set_intervals initialize)
        (served_by c value sm) none (sets c value sm) refl

-- With the instance and the port up and the interval not set by management, a machine that rests in
-- INITIALIZE serves a request in one call. The interval, with its logarithm, is the requested one: -128
-- keeps it, 126 stands for the initial one, and another value for itself. The announcements slow down
-- exactly if it is less than the old one, and nothing else of the port changes.
pub first_request :
    (c : Config) (value : ℤ) (sm : AnnounceIntervalSetting)
    → IsUp sm
    → sm.state ≡ initialize
    → sm.last_state ≡ initialize
    → (log : ℤ) × (t : UScaledNs) × IsChosen c sm.bppg.initial_log_announce_interval
        sm.bppg.current_log_announce_interval sm.bppg.announce_interval value log t
      × (signaling_msg2 c value sm ≡ done (served value log t sm) none)
first_request c value sm u e f = (
  (requested c value sm.bppg).current_log_announce_interval,
  (requested c value sm.bppg).announce_interval,
  requested-IsChosen c value sm.bppg,
  first_served c value sm u e f,
)

to_reaction :
    (c : Config) (value : ℤ) (sm : AnnounceIntervalSetting)
    → round c (asked sm value true set_intervals set_intervals)
      ≡ some (asked sm value true reaction set_intervals, none)
unfolding round set_intervals_condition
to_reaction c value sm = refl

rests :
    (c : Config) (value : ℤ) (sm : AnnounceIntervalSetting) (l : State)
    → round c (asked sm value true reaction l) ≡ some (asked sm value true reaction reaction, none)
unfolding round
rests c value sm l = refl

-- A machine that rests in SET_INTERVALS, which it does after it has served a request, or in REACTION
-- ignores a request: the call leaves it in REACTION with the request waiting and the interval kept.
pub later_request :
    (c : Config) (value : ℤ) (sm : AnnounceIntervalSetting)
    → IsUp sm
    → sm.last_state ≡ sm.state
    → (sm.state ≡ set_intervals) ⊎ (sm.state ≡ reaction)
    → signaling_msg2 c value sm ≡ done (asked sm value true reaction reaction) none
later_request c value sm u r (inl e) =
    begins c value sm set_intervals set_intervals u e (r ∙ e)
    ∙ loop-next settled (round c) 9 (asked sm value true set_intervals set_intervals)
        (asked sm value true reaction set_intervals) none (to_reaction c value sm) refl
    ∙ loop-stop settled (round c) 8 (asked sm value true reaction set_intervals)
        (asked sm value true reaction reaction) none (rests c value sm set_intervals) refl
later_request c value sm u r (inr e) =
    begins c value sm reaction reaction u e (r ∙ e)
    ∙ loop-stop settled (round c) 9 (asked sm value true reaction reaction)
        (asked sm value true reaction reaction) none (rests c value sm reaction) refl
