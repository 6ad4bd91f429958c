-- ===== src/ExternalPort/Run.antt =====
-- Calls of port_state_setting_ext_sm: what is configured for a port, and the call that does not end.
use excelfore_gptp.Common.{
  ℕ, zero, suc, ◌-◌, ◌≡◌, ◌≢◌, refl, ◌∙◌, Bool, true, false, arith, ◌⊎◌, inl, inr, Option, none,
  some, ◌==◌, if◌then◌else◌, Bool-cases, ◌||◌,
}
use excelfore_gptp.Types.{slave_port}
use mathlib.Core.Path.{subst}
use excelfore_gptp.Machine.{done, out_of_fuel, loop, loop-next, loop-stop}
use excelfore_gptp.ExternalPort.Tree.{
  State, initialize, state_setting, reaction, PortStateSettingExt, slave_from, use_information,
  assigned_state, set_master_priority, choose_gm_priority, update_for, updt_port_state,
}
use excelfore_gptp.ExternalPort.States.{
  IsWanted, IsSlave, StateAfter, updt_port_state-StateAfter, updt_port_state-same,
  updt_port_state-keeps,
}
use excelfore_gptp.ExternalPort.Setting.{
  allstate_condition, initialize_condition, state_setting_proc, state_setting_condition, round,
  settled, same, fuel, rounds, port_state_setting_ext_sm,
}

abbrev at_state : State → State → PortStateSettingExt → PortStateSettingExt
at_state s l sm = record sm { state = s; last_state = l }

-- The machine after it has set the state of its port.
abbrev pub served : PortStateSettingExt → PortStateSettingExt
served sm = record (updt_port_state (at_state state_setting state_setting sm)) {
  mode_change = false;
  rcvd_port_state_ind = false;
  state = state_setting;
  last_state = state_setting;
}

-- A port state is configured, or the measurement mode has changed.
abbrev pub is_asked : PortStateSettingExt → Bool
is_asked sm = sm.rcvd_port_state_ind || sm.mode_change

-- What updtPortState leaves of the machine itself.
pub record IsKept (sm sm' : PortStateSettingExt) : Type 0 where
  pub disabled_ext : sm'.disabled_ext ≡ sm.disabled_ext
  pub last_state : sm'.last_state ≡ sm.last_state

update_for-IsKept : (found : Option ℕ) (sm : PortStateSettingExt) → IsKept sm (update_for found sm)
unfolding use_information assigned_state choose_gm_priority set_master_priority
update_for-IsKept none sm = record { disabled_ext = ground arith; last_state = ground arith }
update_for-IsKept (some k) sm = record { disabled_ext = ground arith; last_state = ground arith }

updt_port_state-IsKept : (sm : PortStateSettingExt) → IsKept sm (updt_port_state sm)
unfolding updt_port_state
updt_port_state-IsKept sm =
    update_for-IsKept (slave_from sm.ptasg.selected_state (sm.max_ports - 1) 1) sm

served_states :
    {w : ℕ} (sm : PortStateSettingExt)
    → IsWanted sm w
    → (j : ℕ) → StateAfter sm w j ((served sm).ptasg.selected_state j)
unfolding assigned_state
served_states {w} sm k j =
    subst (λ (s : ℕ). StateAfter sm w j s)
      (updt_port_state-same sm (at_state state_setting state_setting sm) (λ i. refl) j)
      (updt_port_state-StateAfter sm k j)

serves :
    (l : State) (sm : PortStateSettingExt)
    → l ≢ state_setting
    → sm.disabled_ext ≡ false
    → round (at_state state_setting l sm) ≡ some (served sm, none)
unfolding round state_setting_proc state_setting_condition
serves l sm h d =
    let k = updt_port_state-IsKept (at_state state_setting state_setting sm) in
    ground (arith, h, d, k.disabled_ext, k.last_state)

wakes :
    (sm : PortStateSettingExt)
    → is_asked sm ≡ true
    → round (at_state initialize initialize sm) ≡ some (at_state state_setting initialize sm, none)
unfolding round initialize_condition
wakes sm h = ground (arith, h)

again :
    (sm : PortStateSettingExt)
    → is_asked sm ≡ true
    → round (at_state state_setting state_setting sm)
      ≡ some (at_state state_setting reaction sm, none)
unfolding round state_setting_condition
again sm h = ground (arith, h)

stays :
    (sm : PortStateSettingExt)
    → sm.ptasg.begin ≡ false
    → sm.ptasg.instance_enable ≡ true
    → allstate_condition sm ≡ sm.state
unfolding allstate_condition
stays sm b i = ground (arith, b, i)

begins :
    (n : ℕ) (s : State) (sm : PortStateSettingExt)
    → sm.ptasg.begin ≡ false
    → sm.ptasg.instance_enable ≡ true
    → sm.state ≡ s
    → sm.last_state ≡ sm.state
    → rounds n sm ≡ loop settled round n (at_state s s sm)
unfolding rounds
begins n s sm b i e r =
    let p = stays sm b i in λ j. loop settled round n (at_state ((p ∙ e) j) ((r ∙ e) j) sm)

-- In an enabled instance a machine that rests in INITIALIZE or STATE_SETTING sets the state of its port
-- once in a call for a port state or a change of the measurement mode, if the port is not disabled
-- externally, and nothing waits then. The port, if it is not port 0, is passive in the measurement mode,
-- and has the configured state otherwise. Port 0 is passive if that is the state of a slave port; it is a
-- slave port if that is not one and no port from 1 on was one before; and else it keeps its state, or has
-- the state set if it is the port itself. The other ports keep their states.
pub port_state_served :
    {w : ℕ} (sm : PortStateSettingExt)
    → IsWanted sm w
    → sm.ptasg.begin ≡ false
    → sm.ptasg.instance_enable ≡ true
    → sm.last_state ≡ sm.state
    → (sm.state ≡ initialize) ⊎ (sm.state ≡ state_setting)
    → is_asked sm ≡ true
    → sm.disabled_ext ≡ false
    → (port_state_setting_ext_sm sm ≡ done (served sm) none)
      × ((j : ℕ) → StateAfter sm w j ((served sm).ptasg.selected_state j))
unfolding port_state_setting_ext_sm
port_state_served sm k b i r (inl e) a d = (
  begins fuel initialize sm b i e r
      ∙ loop-next settled round 9 (at_state initialize initialize sm)
          (at_state state_setting initialize sm) none (wakes sm a) refl
      ∙ loop-stop settled round 8 (at_state state_setting initialize sm) (served sm) none
          (serves initialize sm (λ q. ground (arith, q)) d) refl,
  served_states sm k,
)
port_state_served sm k b i r (inr e) a d = (
  begins fuel state_setting sm b i e r
      ∙ loop-next settled round 9 (at_state state_setting state_setting sm)
          (at_state state_setting reaction sm) none (again sm a) refl
      ∙ loop-stop settled round 8 (at_state state_setting reaction sm) (served sm) none
          (serves reaction sm (λ q. ground (arith, q)) d) refl,
  served_states sm k,
)

-- The machine that enters STATE_SETTING anew.
abbrev asking : PortStateSettingExt → PortStateSettingExt
asking sm =
    let x = record sm { last_state = state_setting } in
    at_state state_setting reaction
      (if same sm.last_state state_setting then x else state_setting_proc x)

-- A round in STATE_SETTING of a port that is disabled externally asks for another one.
asks_again :
    (sm : PortStateSettingExt)
    → sm.disabled_ext ≡ true
    → sm.state ≡ state_setting
    → (sm' : PortStateSettingExt) × (round sm ≡ some (sm', none))
      × (settled sm' ≡ false)
      × (sm'.disabled_ext ≡ true)
      × (sm'.state ≡ state_setting)
unfolding round state_setting_proc state_setting_condition
asks_again sm d e =
    let k = updt_port_state-IsKept (record sm { last_state = state_setting }) in
    (asking sm, ground (arith, d, e, k.disabled_ext), refl, ground (arith, d, k.disabled_ext), refl)

loops :
    (n : ℕ) (sm : PortStateSettingExt)
    → sm.disabled_ext ≡ true
    → sm.state ≡ state_setting
    → loop settled round n sm ≡ out_of_fuel
unfolding loop
loops zero sm d e = refl
loops (suc n) sm d e =
    let (sm', q, go, d', e') = asks_again sm d e in
    loop-next settled round n sm sm' none q go ∙ loops n sm' d' e'

-- In an enabled instance a call in STATE_SETTING does not return, however many rounds are made, if the
-- port is disabled externally.
pub disabled_never_returns :
    (n : ℕ) (sm : PortStateSettingExt)
    → sm.ptasg.begin ≡ false
    → sm.ptasg.instance_enable ≡ true
    → sm.state ≡ state_setting
    → sm.disabled_ext ≡ true
    → rounds n sm ≡ out_of_fuel
unfolding rounds
disabled_never_returns n sm b i e d =
    loops n (record sm { state = allstate_condition sm }) d (stays sm b i ∙ e)

-- If the port is the only slave port, from 1 on, and updtPortState gives it another state, which it then
-- has, port 0, which is to be a slave port then, keeps its state, and no port is a slave port any more.
pub updt_port_state-leaves_none :
    {w : ℕ} (sm : PortStateSettingExt)
    → IsSlave sm sm.port_index
    → ((j : ℕ) → j ≢ sm.port_index → sm.ptasg.selected_state j ≢ slave_port)
    → IsWanted sm w
    → w ≢ slave_port
    → ((updt_port_state sm).ptasg.selected_state sm.port_index ≡ w)
      × ((updt_port_state sm).ptasg.selected_state 0 ≡ sm.ptasg.selected_state 0)
      × ((j : ℕ) → (updt_port_state sm).ptasg.selected_state j ≢ slave_port)
updt_port_state-leaves_none sm q others k n =
    let keeps = updt_port_state-keeps sm sm.port_index q k n in
    (
      ground (arith, keeps sm.port_index),
      ground (arith, keeps 0, q.from_one),
      λ j e. elim (Bool-cases (sm.port_index == j)) [
        | inl here ↦ n (ground (arith, e, keeps j, here))
        | inr there ↦ others j (λ x. ground (arith, there, x)) (ground (arith, e, keeps j, there))
      ],
    )
