-- ===== src/AnnounceTransmit/Run.antt =====
-- When port_announce_transmit_sm returns, and what it sends.
use excelfore_gptp.Common.{
  ℕ, zero, suc, ◌+◌, ◌<◌, ◌≤◌, ◌≡◌, refl, ap, ◌∙◌, Bool, true, false, not, arith, ◌⊎◌, inl, inr,
  none, some, is_some, ◌&&◌, ◌||◌, leb, ◌==◌, ◌^◌, if◌then◌else◌,
}
use excelfore_gptp.Types.{value_disabled, master_port}
use excelfore_gptp.Machine.{
  done, out_of_fuel, loop, Continues, Returns, loop-Returns, loop-next, loop-stop,
}
use excelfore_gptp.AnnounceTransmit.Machine.{
  State, init, transmit_init, transmit_periodic, idle, transmit_announce, reaction, same,
  PortAnnounceTransmit, tx_announce, allstate_condition, transmit_init_proc, transmit_periodic_proc,
  idle_proc, idle_condition, transmit_announce_proc, send_time, is_selected, may_transmit, switch,
  round, settled, fuel, rounds, port_announce_transmit_sm,
}

-- A send time that lies ahead: at the entry of IDLE.
abbrev IsAhead : ℕ → PortAnnounceTransmit → Type 0
IsAhead cts64 sm = cts64 < send_time cts64 sm.interval2

send_time_ahead :
    (cts64 interval : ℕ)
    → 25000000 ≤ interval
    → cts64 + interval < 2 ^ 64
    → cts64 < send_time cts64 interval
send_time_ahead cts64 interval h k = omega arith

abbrev rank_of : State → Bool → ℕ
rank_of init change = 6
rank_of transmit_init change = 3
rank_of transmit_periodic change = 3
rank_of idle true = 2
rank_of idle false = 4
rank_of transmit_announce true = 1
rank_of transmit_announce false = 5
rank_of reaction change = 0

abbrev rank : PortAnnounceTransmit → ℕ
rank sm = rank_of sm.state (not (same sm.last_state sm.state))

switch-Continues :
    (cts64 : ℕ) (s : State) (change : Bool) (x : PortAnnounceTransmit)
    → IsAhead cts64 x
    → x.state ≡ s
    → x.last_state ≡ s
    → let (x', retp) = switch cts64 s change x in
      (is_some retp || settled x') ≡ false → (rank x' < rank_of s change) × IsAhead cts64 x'
unfolding transmit_init_proc transmit_periodic_proc idle_proc idle_condition
switch-Continues cts64 init change x a e l = ground arith
switch-Continues cts64 transmit_init change x a e l = ground arith
switch-Continues cts64 transmit_periodic change x a e l = ground arith
switch-Continues cts64 idle true x a e l = ground arith
switch-Continues cts64 idle false x a e l = ground arith
switch-Continues cts64 transmit_announce true x a e l = ground arith
switch-Continues cts64 transmit_announce false x a e l = ground arith
switch-Continues cts64 reaction change x a e l = ground arith

round-Continues :
    (cts64 : ℕ) (sm : PortAnnounceTransmit)
    → IsAhead cts64 sm
    → Continues settled (round cts64) (IsAhead cts64) rank sm (round cts64 sm)
unfolding round
round-Continues cts64 sm a =
    switch-Continues cts64 sm.state (not (same sm.last_state sm.state))
      (record sm { last_state = sm.state }) a refl refl

rank_bound : (s : State) (b : Bool) → rank_of s b < fuel
rank_bound init b = omega arith
rank_bound transmit_init b = omega arith
rank_bound transmit_periodic b = omega arith
rank_bound idle true = omega arith
rank_bound idle false = omega arith
rank_bound transmit_announce true = omega arith
rank_bound transmit_announce false = omega arith
rank_bound reaction b = omega arith

-- A call returns if the interval is at least 25 ms and the clock does not overflow.
pub port_announce_transmit_sm-Returns :
    (cts64 : ℕ) (sm : PortAnnounceTransmit)
    → 25000000 ≤ sm.interval2
    → cts64 + sm.interval2 < 2 ^ 64
    → Returns (port_announce_transmit_sm cts64 sm)
unfolding port_announce_transmit_sm rounds
port_announce_transmit_sm-Returns cts64 sm h k =
    loop-Returns settled (round cts64) (IsAhead cts64) rank (round-Continues cts64) fuel
      (record sm { state = allstate_condition sm }) (send_time_ahead cts64 sm.interval2 h k)
      (rank_bound (allstate_condition sm) (not (same sm.last_state (allstate_condition sm))))

-- The aligned send time of a shorter interval may have passed already.
pub record IsLate (cts64 : ℕ) (sm : PortAnnounceTransmit) : Type 0 where
  pub late : send_time cts64 sm.interval2 ≤ cts64
  pub due : sm.announce_send_time ≤ cts64
  pub periodic : (is_selected sm || sm.bptasg.external_port_configuration == value_disabled) ≡ true

abbrev Cycles : PortAnnounceTransmit → Type 0
Cycles sm = (sm.state ≡ idle) ⊎ ((sm.state ≡ transmit_periodic) × (sm.last_state ≡ idle))

idle_switch :
    (cts64 : ℕ) (change : Bool) (x : PortAnnounceTransmit)
    → IsLate cts64 x
    → x.last_state ≡ idle
    → let (x', retp) = switch cts64 idle change x in
      (retp ≡ none) × (x'.state ≡ transmit_periodic) × (x'.last_state ≡ idle) × IsLate cts64 x'
unfolding idle_proc idle_condition
idle_switch cts64 true x h l = (
  refl,
  ground (arith, h.late, h.periodic),
  l,
  record { late = h.late; due = h.late; periodic = h.periodic },
)
idle_switch cts64 false x h l = (
  refl,
  ground (arith, h.due, h.periodic),
  l,
  record { late = h.late; due = h.due; periodic = h.periodic },
)

-- One round from IDLE, or from a TRANSMIT_PERIODIC that was entered from it.
round-Cycles :
    (cts64 : ℕ) (sm : PortAnnounceTransmit)
    → IsLate cts64 sm
    → Cycles sm
    → (sm' : PortAnnounceTransmit) × (round cts64 sm ≡ some (sm', none))
      × (settled sm' ≡ false)
      × IsLate cts64 sm'
      × Cycles sm'
unfolding round transmit_periodic_proc
round-Cycles cts64 sm h (inl i) =
    let change = not (same sm.last_state sm.state) in
    let x = record sm { last_state = sm.state } in
    let (r, s, l, h') =
      idle_switch cts64 change x (record { late = h.late; due = h.due; periodic = h.periodic }) i in
    let x' = (switch cts64 idle change x).0 in
    (
      x',
      ap (λ t. some (switch cts64 t change x)) i ∙ (λ j. some (x', r j)),
      ground (arith, s, l),
      h',
      inr (s, l),
    )
round-Cycles cts64 sm h (inr (p, l)) = (
  record sm {
    bppg = record (sm.bppg) {
      new_info = sm.bppg.new_info || sm.ptasg.selected_state sm.port_index == master_port;
    };
    state = idle;
    last_state = transmit_periodic;
  },
  ground (arith, p, l),
  refl,
  record { late = h.late; due = h.due; periodic = h.periodic },
  inl refl,
)

late_loop :
    (n cts64 : ℕ) (sm : PortAnnounceTransmit)
    → IsLate cts64 sm
    → Cycles sm
    → loop settled (round cts64) n sm ≡ out_of_fuel
unfolding loop
late_loop zero cts64 sm h k = refl
late_loop (suc n) cts64 sm h k =
    let (sm', e, go, h', k') = round-Cycles cts64 sm h k in
    loop-next settled (round cts64) n sm sm' none e go ∙ late_loop n cts64 sm' h' k'

stays :
    (sm : PortAnnounceTransmit)
    → sm.ptasg.begin ≡ false
    → sm.ptasg.instance_enable ≡ true
    → sm.ppg.as_capable ≡ true
    → allstate_condition sm ≡ sm.state
unfolding allstate_condition
stays sm b i a = ground arith

-- In an enabled instance on a capable port, a call in IDLE does not return, however many rounds are
-- made, if the send time has come and the aligned send time of the interval is not ahead either.
pub late_call_cycles :
    (n cts64 : ℕ) (sm : PortAnnounceTransmit)
    → sm.state ≡ idle
    → sm.ptasg.begin ≡ false
    → sm.ptasg.instance_enable ≡ true
    → sm.ppg.as_capable ≡ true
    → IsLate cts64 sm
    → rounds n cts64 sm ≡ out_of_fuel
unfolding rounds
late_call_cycles n cts64 sm s b i a h =
    late_loop n cts64 (record sm { state = allstate_condition sm })
      (record { late = h.late; due = h.due; periodic = h.periodic }) (inl (stays sm b i a ∙ s))

abbrev at_state : PortAnnounceTransmit → State → State → PortAnnounceTransmit
at_state sm s l = record sm { state = s; last_state = l }

to_transmit :
    (cts64 : ℕ) (sm : PortAnnounceTransmit)
    → may_transmit cts64 sm ≡ true
    → round cts64 (at_state sm idle idle) ≡ some (at_state sm transmit_announce idle, none)
unfolding round idle_condition
to_transmit cts64 sm m =
    ap
      (λ (b : Bool). some (
        at_state sm
            (if b
              then transmit_announce
              else if leb sm.announce_send_time cts64
                  && (is_selected sm || sm.bptasg.external_port_configuration == value_disabled)
              then transmit_periodic
              else idle)
            idle,
        none,
      ))
      m

-- What transmit_announce_proc leaves.
transmitted :
    (sm : PortAnnounceTransmit)
    → ((transmit_announce_proc sm).announce_tx ≡ tx_announce sm)
      × ((transmit_announce_proc sm).bppg.new_info ≡ false)
unfolding transmit_announce_proc
transmitted sm = (ground arith, ground arith)

transmits :
    (cts64 : ℕ) (sm : PortAnnounceTransmit)
    → round cts64 (at_state sm transmit_announce idle)
      ≡ some (
        record (transmit_announce_proc (at_state sm transmit_announce transmit_announce)) {
          state = idle;
        },
        some (tx_announce sm),
      )
unfolding round tx_announce
transmits cts64 sm =
    let x = at_state sm transmit_announce transmit_announce in
    λ j. some (record (transmit_announce_proc x) { state = idle }, some ((transmitted x).0 j))

-- In an enabled instance on a capable port, a call in IDLE that may transmit returns the message of
-- txAnnounce; the new information counts as announced and the machine waits in IDLE again.
pub announce_sent :
    (cts64 : ℕ) (sm : PortAnnounceTransmit)
    → sm.state ≡ idle
    → sm.last_state ≡ idle
    → sm.ptasg.begin ≡ false
    → sm.ptasg.instance_enable ≡ true
    → sm.ppg.as_capable ≡ true
    → may_transmit cts64 sm ≡ true
    → (sm' : PortAnnounceTransmit) × (port_announce_transmit_sm cts64 sm
        ≡ done sm' (some (tx_announce sm)))
      × (sm'.state ≡ idle)
      × (sm'.bppg.new_info ≡ false)
      × (sm'.announce_tx ≡ tx_announce sm)
unfolding port_announce_transmit_sm rounds tx_announce
announce_sent cts64 sm s l b i a m =
    let x = at_state sm transmit_announce transmit_announce in
    let start : record sm { state = allstate_condition sm } ≡ at_state sm idle idle =
      λ j. record sm { state = (stays sm b i a ∙ s) j; last_state = l j } in
    (
      record (transmit_announce_proc x) { state = idle },
      ap (loop settled (round cts64) fuel) start
          ∙ loop-next settled (round cts64) 9 (at_state sm idle idle)
              (at_state sm transmit_announce idle) none (to_transmit cts64 sm m) refl
          ∙ loop-stop settled (round cts64) 8 (at_state sm transmit_announce idle)
              (record (transmit_announce_proc x) { state = idle }) (some (tx_announce sm))
              (transmits cts64 sm) refl,
      refl,
      (transmitted x).1,
      (transmitted x).0,
    )
