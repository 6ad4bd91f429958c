-- ===== src/ExternalPort/States.antt =====
-- The states of the ports after updtPortState of port_state_setting_ext_sm.c, described apart from the
-- code.
use excelfore_gptp.Common.{
  sym, ◌∙◌, ℕ, ◌+◌, ◌≤◌, ◌<◌, zero, suc, ◌-◌, ◌≡◌, ◌≢◌, refl, Bool, true, false, arith, inl, inr,
  Option, none, some, is_some, ◌==◌, ==_refl, if◌then◌else◌, Bool-cases,
}
use excelfore_gptp.Types.{disabled_port, passive_port, slave_port}
use excelfore_gptp.Arrays.{set}
use excelfore_gptp.ExternalPort.Tree.{
  PortStateSettingExt, slave_from, use_information, assigned_state, set_master_priority,
  choose_gm_priority, update_for, updt_port_state,
}

-- The states of the ports as updtPortState computes them.
abbrev states_after : PortStateSettingExt → Bool → ℕ → ℕ
states_after sm avail j =
    let s = set sm.ptasg.selected_state sm.port_index (assigned_state sm) in
    if assigned_state sm == slave_port
    then set s 0 passive_port j
    else if avail
    then s j
    else set s 0 slave_port j

update_for-selected :
    (sm : PortStateSettingExt) (found : Option ℕ) (j : ℕ)
    → (update_for found sm).ptasg.selected_state j ≡ states_after sm (is_some found) j
unfolding use_information assigned_state choose_gm_priority set_master_priority
update_for-selected sm none j = ground (arith, ==_refl sm.port_index)
update_for-selected sm (some k) j = ground (arith, ==_refl sm.port_index)

-- A slave port is found among the ports from 1 on.
abbrev has_slave : PortStateSettingExt → Bool
has_slave sm = is_some (slave_from sm.ptasg.selected_state (sm.max_ports - 1) 1)

updt_port_state-selected :
    (sm : PortStateSettingExt) (j : ℕ)
    → (updt_port_state sm).ptasg.selected_state j ≡ states_after sm (has_slave sm) j
unfolding updt_port_state
updt_port_state-selected sm j =
    update_for-selected sm (slave_from sm.ptasg.selected_state (sm.max_ports - 1) 1) j

-- The state that the port is to have: it is disabled if that is configured, or else passive in the
-- measurement mode, or else in the configured state.
pub data IsWanted (sm : PortStateSettingExt) : ℕ → Type 0 where
  disabled : sm.disabled_ext ≡ true → IsWanted sm disabled_port
  measuring :
      sm.disabled_ext ≡ false
      → (sm.ppgl sm.port_index).for_all_domain.asymmetry_measurement_mode ≡ true
      → IsWanted sm passive_port
  configured :
      sm.disabled_ext ≡ false
      → (sm.ppgl sm.port_index).for_all_domain.asymmetry_measurement_mode ≡ false
      → IsWanted sm sm.port_state_ind

assigned_state-IsWanted : {w : ℕ} (sm : PortStateSettingExt) → IsWanted sm w → assigned_state sm ≡ w
unfolding assigned_state
assigned_state-IsWanted sm (disabled d) = ground (arith, d)
assigned_state-IsWanted sm (measuring d m) = ground (arith, d, m)
assigned_state-IsWanted sm (configured d m) = ground (arith, d, m)

-- Port k, from 1 on, is a slave port.
pub record IsSlave (sm : PortStateSettingExt) (k : ℕ) : Type 0 where
  pub from_one : 1 ≤ k
  pub is_port : k < sm.max_ports
  pub selected : sm.ptasg.selected_state k ≡ slave_port

slave_from-none :
    (s : ℕ → ℕ) (n i : ℕ)
    → is_some (slave_from s n i) ≡ false
    → (k : ℕ) → i ≤ k
    → k < i + n
    → s k ≢ slave_port
unfolding slave_from
slave_from-none s zero i h k p q e = omega (arith, p, q)
slave_from-none s (suc n) i h k p q e = elim (Bool-cases (i == k)) [
  | inl here ↦ ground (arith, h, here, e)
  | inr there ↦
      slave_from-none s n (i + 1) (ground (arith, h)) k (ground (arith, p, there))
        (omega (arith, q)) e
]

slave_from-some :
    (s : ℕ → ℕ) (n i : ℕ)
    → is_some (slave_from s n i) ≡ true
    → (k : ℕ) × (i ≤ k) × (k < i + n) × (s k ≡ slave_port)
unfolding slave_from
slave_from-some s zero i h = absurd (ground (arith, h))
slave_from-some s (suc n) i h = elim (Bool-cases (s i == slave_port)) [
  | inl here ↦ (i, omega arith, omega arith, ground (arith, here))
  | inr there ↦
      let (k, p, q, e) = slave_from-some s n (i + 1) (ground (arith, h, there)) in
      (k, omega (arith, p), omega (arith, q), e)
]

has_slave-no : (sm : PortStateSettingExt) → has_slave sm ≡ false → (k : ℕ) → ¬ IsSlave sm k
has_slave-no sm h k q =
    slave_from-none sm.ptasg.selected_state (sm.max_ports - 1) 1 h k q.from_one
      (omega (arith, q.from_one, q.is_port)) q.selected

has_slave-yes : (sm : PortStateSettingExt) → has_slave sm ≡ true → (k : ℕ) × IsSlave sm k
has_slave-yes sm h =
    let (k, p, q, e) = slave_from-some sm.ptasg.selected_state (sm.max_ports - 1) 1 h in
    (k, record { from_one = p; is_port = omega (arith, p, q); selected = e })

-- The state of port j after the port of the machine has got the state w: port 0 is passive if w is that
-- of a slave port; it is a slave port if w is not and no port from 1 on was one before; and else it
-- keeps its state. The ports other than it and that of the machine keep theirs.
pub data StateAfter (sm : PortStateSettingExt) (w j s : ℕ) : Type 0 where
  own : j ≢ 0 → sm.port_index ≡ j → s ≡ w → StateAfter sm w j s
  other : j ≢ 0 → sm.port_index ≢ j → s ≡ sm.ptasg.selected_state j → StateAfter sm w j s
  port0_passive : j ≡ 0 → w ≡ slave_port → s ≡ passive_port → StateAfter sm w j s
  port0_slave :
      j ≡ 0 → w ≢ slave_port → ((k : ℕ) → ¬ IsSlave sm k) → s ≡ slave_port → StateAfter sm w j s
  port0_kept :
      {k : ℕ}
      → j ≡ 0
      → w ≢ slave_port
      → IsSlave sm k
      → sm.port_index ≢ j
      → s ≡ sm.ptasg.selected_state j
      → StateAfter sm w j s
  port0_own :
      {k : ℕ}
      → j ≡ 0
      → w ≢ slave_port
      → IsSlave sm k
      → sm.port_index ≡ j
      → s ≡ w
      → StateAfter sm w j s

module _ {w : ℕ} (sm : PortStateSettingExt) (e : assigned_state sm ≡ w) where
  -- A port other than port 0.
  after_later : (j : ℕ) → j ≢ 0 → StateAfter sm w j ((updt_port_state sm).ptasg.selected_state j)
  after_later j n =
      let q = updt_port_state-selected sm j in
      elim (Bool-cases (sm.port_index == j)) [
        | inl h ↦ own n (ground (arith, h)) (ground (arith, q, e, n, h))
        | inr h ↦ other n (λ x. ground (arith, h, x)) (ground (arith, q, n, h))
      ]

  -- Port 0 if the port does not become a slave port.
  after_zero : w ≢ slave_port → StateAfter sm w 0 ((updt_port_state sm).ptasg.selected_state 0)
  after_zero n =
      let q = updt_port_state-selected sm 0 in
      elim (Bool-cases (has_slave sm)) [
        | inl f ↦ elim (Bool-cases (sm.port_index == 0)) [
          | inl h ↦
              port0_own refl n (has_slave-yes sm f).1 (ground (arith, h))
                (ground (arith, q, e, n, f, h))
          | inr h ↦
              port0_kept refl n (has_slave-yes sm f).1 (λ x. ground (arith, h, x))
                (ground (arith, q, e, n, f, h))
        ]
        | inr f ↦ port0_slave refl n (has_slave-no sm f) (ground (arith, q, e, n, f))
      ]

-- updtPortState leaves every port in the state that the description gives.
pub updt_port_state-StateAfter :
    {w : ℕ} (sm : PortStateSettingExt)
    → IsWanted sm w
    → (j : ℕ) → StateAfter sm w j ((updt_port_state sm).ptasg.selected_state j)
updt_port_state-StateAfter {w} sm k zero =
    let e = assigned_state-IsWanted sm k in
    let q = updt_port_state-selected sm 0 in
    elim (Bool-cases (w == slave_port)) [
      | inl h ↦ port0_passive refl (ground (arith, h)) (ground (arith, q, e, h))
      | inr h ↦ after_zero sm e (λ x. ground (arith, h, x))
    ]
updt_port_state-StateAfter sm k (suc j) =
    after_later sm (assigned_state-IsWanted sm k) (suc j) (λ x. ground (arith, x))

pub updt_port_state-same :
    (sm x : PortStateSettingExt)
    → ((j : ℕ) → states_after sm (has_slave sm) j ≡ states_after x (has_slave x) j)
    → (j : ℕ)
    → (updt_port_state sm).ptasg.selected_state j ≡ (updt_port_state x).ptasg.selected_state j
updt_port_state-same sm x h j =
    updt_port_state-selected sm j ∙ h j ∙ sym (updt_port_state-selected x j)

has_slave-of : (sm : PortStateSettingExt) (k : ℕ) → IsSlave sm k → has_slave sm ≡ true
has_slave-of sm k q = elim (Bool-cases (has_slave sm)) [
  | inl h ↦ h
  | inr h ↦ absurd (has_slave-no sm h k q)
]

-- Where a slave port was found and the port does not become one, the other ports keep their states.
pub updt_port_state-keeps :
    {w : ℕ} (sm : PortStateSettingExt) (k : ℕ)
    → IsSlave sm k
    → IsWanted sm w
    → w ≢ slave_port
    → (j : ℕ)
    → (updt_port_state sm).ptasg.selected_state j
      ≡ (if sm.port_index == j then w else sm.ptasg.selected_state j)
updt_port_state-keeps sm k q c n j =
    ground
      (arith, updt_port_state-selected sm j, has_slave-of sm k q, assigned_state-IsWanted sm c, n)
