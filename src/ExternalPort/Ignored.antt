-- ===== src/ExternalPort/Ignored.antt =====
-- port_announce_information_ext_sm never looks at a message: nothing sets its flag rcvdAnnounce.
use excelfore_gptp.Common.{
  ◌≡◌, refl, ap, ◌∙◌, false, arith, ◌⊎◌, inl, inr, none, some, not, if◌then◌else◌,
}
use excelfore_gptp.Machine.{done, loop, loop-next, loop-stop}
use excelfore_gptp.ExternalPort.Information.{
  State, init, initialize, same, PortAnnounceInformationExt, allstate_condition, initialize_proc,
  initialize_condition, round, settled, fuel, port_announce_information_ext_sm,
}

-- The machine has not left INITIALIZE, and no message waits.
abbrev pub IsIdle : PortAnnounceInformationExt → Type 0
IsIdle sm = ((sm.state ≡ init) ⊎ (sm.state ≡ initialize)) × (sm.rcvd_announce ≡ false)

-- The machine in INITIALIZE, entered from `l`.
abbrev pub rested : State → PortAnnounceInformationExt → PortAnnounceInformationExt
rested l sm = record (if not (same l initialize) then initialize_proc sm else sm) {
  state = initialize;
  last_state = initialize;
}

abbrev at_state : State → State → PortAnnounceInformationExt → PortAnnounceInformationExt
at_state s l sm = record sm { state = s; last_state = l }

rests :
    (l : State) (sm : PortAnnounceInformationExt)
    → sm.rcvd_announce ≡ false
    → round (at_state initialize l sm) ≡ some (rested l sm, none)
unfolding round initialize_proc initialize_condition
rests l sm h = ground (arith, h)

moves :
    (l : State) (sm : PortAnnounceInformationExt)
    → round (at_state init l sm) ≡ some (at_state initialize init sm, none)
unfolding round
moves l sm = refl

-- A call that starts in `s`, from a rest in `l`.
runs :
    (s l : State) (sm : PortAnnounceInformationExt)
    → (s ≡ init) ⊎ (s ≡ initialize)
    → sm.rcvd_announce ≡ false
    → (k : State) × (loop settled round fuel (at_state s l sm) ≡ done (rested k sm) none)
runs s l sm (inl e) h = (
  init,
  ap (λ (x : State). loop settled round fuel (at_state x l sm)) e
      ∙ loop-next settled round 9 (at_state init l sm) (at_state initialize init sm) none
          (moves l sm) refl
      ∙ loop-stop settled round 8 (at_state initialize init sm) (rested init sm) none
          (rests init sm h) refl,
)
runs s l sm (inr e) h = (
  l,
  ap (λ (x : State). loop settled round fuel (at_state x l sm)) e
      ∙ loop-stop settled round 9 (at_state initialize l sm) (rested l sm) none (rests l sm h) refl,
)

starts :
    (sm : PortAnnounceInformationExt)
    → IsIdle sm
    → (allstate_condition sm ≡ init) ⊎ (allstate_condition sm ≡ initialize)
unfolding allstate_condition
starts sm h = ground arith

-- What a call leaves as it was, with the machine idle.
pub record IsUntouched (sm sm' : PortAnnounceInformationExt) : Type 0 where
  pub state : sm'.state ≡ initialize
  pub rcvd_announce : sm'.rcvd_announce ≡ false
  pub system : sm'.bptasg ≡ sm.bptasg
  pub properties : sm'.bppg.ann_time_properties ≡ sm.bppg.ann_time_properties
  pub steps : sm'.bppg.port_steps_removed ≡ sm.bppg.port_steps_removed
  pub message_priority : sm'.message_priority ≡ sm.message_priority

rested-IsUntouched :
    (k : State) (sm : PortAnnounceInformationExt)
    → sm.rcvd_announce ≡ false
    → IsUntouched sm (rested k sm)
unfolding initialize_proc
rested-IsUntouched k sm h = record {
  state = refl;
  rcvd_announce = ground arith;
  system = ground arith;
  properties = ground arith;
  steps = ground arith;
  message_priority = ground arith;
}

-- In every state that a machine reaches from its creation, a call gives no message priority and records
-- nothing of a message, whatever the port and its message, and leaves such a state.
pub announcements_ignored :
    (sm : PortAnnounceInformationExt)
    → IsIdle sm
    → (sm' : PortAnnounceInformationExt) × (port_announce_information_ext_sm sm ≡ done sm' none)
      × IsUntouched sm sm'
unfolding port_announce_information_ext_sm
announcements_ignored sm h =
    let (k, e) = runs (allstate_condition sm) sm.last_state sm (starts sm h) h.1 in
    (rested k sm, e, rested-IsUntouched k sm h.1)
