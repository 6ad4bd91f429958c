-- ===== src/AnnounceInformation/Run.antt =====
-- port_announce_information_sm returns, without a read through a null pointer or a write past an
-- array, from every state in which a message that waits is there and has a path trace that fits.
use excelfore_gptp.Common.{
  ℕ, ◌*◌, ◌≤◌, ◌≡◌, refl, Bool, true, false, not, Option, none, some, arith, if◌then◌else◌,
}
use excelfore_gptp.Types.{received, PtpMsgAnnounce, max_path_trace_n, clock_identity_length}
use excelfore_gptp.Config.{Config}
use excelfore_gptp.Machine.{done, Keeps, After, Keeps-and, loop_rule}
use excelfore_gptp.AnnounceInformation.Procs.{
  State, init, disabled_state, aged_state, update, current, receive, superior_master_port, reaction,
  same, PortAnnounceInformation,
}
use excelfore_gptp.AnnounceInformation.Machine.{
  must_update, settled, switch, finish, round, fuel, port_announce_information_sm,
}

-- The message is there, and the entries of its path trace TLV fit into pathSequence.
abbrev pub IsFitting : Option PtpMsgAnnounce → Type 0
IsFitting none = ⊥
IsFitting (some a) = a.tlv_length ≤ clock_identity_length * max_path_trace_n

-- A message that waits, or is being processed, is there and fits.
abbrev pub HasMessage : PortAnnounceInformation → Type 0
HasMessage sm =
    (sm.bppg.rcvd_msg ≡ true → IsFitting sm.bppg.rcvd_announce_ptr)
    × (sm.state ≡ receive → IsFitting sm.bppg.rcvd_announce_ptr)
    × (sm.state ≡ superior_master_port → IsFitting sm.bppg.rcvd_announce_ptr)

-- The vectors that come from a message carry the number of the receiving port.
pub record HasPortNumber (sm : PortAnnounceInformation) : Type 0 where
  pub adopting :
      sm.state ≡ superior_master_port → sm.message_priority.port_number ≡ sm.ppg.this_port
  pub receiving :
      sm.state ≡ receive
      → same sm.last_state receive ≡ true
      → sm.message_priority.port_number ≡ sm.ppg.this_port
  pub received_port :
      sm.bppg.info_is ≡ received → sm.bppg.port_priority.port_number ≡ sm.ppg.this_port

-- A bound on the rounds that follow, by the state, whether it was just entered, whether an update is
-- due and whether a message waits.
abbrev rounds_left : State → Bool → Bool → Bool → ℕ
rounds_left init entered due waits = 3
rounds_left disabled_state entered due waits = 2
rounds_left aged_state entered due waits = if entered then 1 else 10
rounds_left update entered due waits = if entered then (if waits then 8 else 3) else 10
rounds_left current entered due waits =
    if due then (if waits then 9 else 4) else (if waits then 7 else 2)
rounds_left receive entered due waits = 6
rounds_left reaction entered due waits = 0
rounds_left _ entered due waits = if entered then 5 else 10

abbrev rank : PortAnnounceInformation → ℕ
rank sm = rounds_left sm.state (not (same sm.last_state sm.state)) (must_update sm) sm.bppg.rcvd_msg

module _ (c : Config) (cts64 : ℕ) where
  round-HasMessage :
      (sm : PortAnnounceInformation)
      → HasMessage sm
      → Keeps settled (round c cts64) HasMessage rank sm (round c cts64 sm)
  unfolding round switch
  round-HasMessage sm h = ground arith

  -- The same for one round in state `s`; `change` says that the state was just entered.
  record IsNumbered (s : State) (change : Bool) (sm : PortAnnounceInformation) : Type 0 where
    here : sm.last_state ≡ s
    stays : sm.state ≡ s
    adopting : s ≡ superior_master_port → sm.message_priority.port_number ≡ sm.ppg.this_port
    receiving : s ≡ receive → change ≡ false → sm.message_priority.port_number ≡ sm.ppg.this_port
    received_port :
        sm.bppg.info_is ≡ received → sm.bppg.port_priority.port_number ≡ sm.ppg.this_port

  abbrev Numbered : State → Option PortAnnounceInformation → Type 0
  Numbered s none = Unit
  Numbered s (some sm) =
      (sm.last_state ≡ s)
      × (sm.state ≡ superior_master_port → sm.message_priority.port_number ≡ sm.ppg.this_port)
      × (s ≡ receive → sm.message_priority.port_number ≡ sm.ppg.this_port)
      × (sm.bppg.info_is ≡ received → sm.bppg.port_priority.port_number ≡ sm.ppg.this_port)

  switch-Numbered :
      (s : State) (change : Bool) (sm : PortAnnounceInformation)
      → IsNumbered s change sm
      → Numbered s (switch c cts64 s change sm)
  unfolding switch
  switch-Numbered init true sm h = ground arith
  switch-Numbered init false sm h = ground arith
  switch-Numbered _ true sm h = ground arith
  switch-Numbered _ false sm h = ground arith

  finish-HasPortNumber :
      (s : State) (o : Option PortAnnounceInformation)
      → Numbered s o
      → After settled (round c cts64) HasPortNumber (finish o)
  finish-HasPortNumber s none n = tt
  finish-HasPortNumber s (some sm) n = record {
    adopting = n.1;
    receiving = λ e q. n.2 (ground arith);
    received_port = n.3;
  }

  round-HasPortNumber :
      (sm : PortAnnounceInformation)
      → HasPortNumber sm
      → After settled (round c cts64) HasPortNumber (round c cts64 sm)
  unfolding round
  round-HasPortNumber sm h = finish-HasPortNumber sm.state _ (
      switch-Numbered sm.state (not (same sm.last_state sm.state))
        (record sm { last_state = sm.state })
        (record {
          here = refl;
          stays = refl;
          adopting = h.adopting;
          receiving = λ e q. h.receiving e (ground arith);
          received_port = h.received_port;
        }))

  abbrev IsSound : PortAnnounceInformation → Type 0
  IsSound sm = HasMessage sm × HasPortNumber sm

  -- A call returns, and reads no null pointer and writes past no array, from every state in which a
  -- message that waits or is processed is there, fits and was received on this port; and it leaves
  -- such a state.
  pub port_announce_information_sm-Returns :
      (sm : PortAnnounceInformation)
      → HasMessage sm
      → HasPortNumber sm
      → (sm' : PortAnnounceInformation) × (retp : Option Unit) × (port_announce_information_sm c
            cts64 sm
          ≡ done sm' retp)
        × (HasMessage sm' × HasPortNumber sm')
  unfolding port_announce_information_sm
  port_announce_information_sm-Returns sm h k =
      loop_rule settled (round c cts64) IsSound rank
        (λ x p.
          Keeps-and settled (round c cts64) HasMessage HasPortNumber rank x _
            (round-HasMessage x p.0) (round-HasPortNumber x p.1))
        fuel _ (ground arith, ground arith) (ground arith)
