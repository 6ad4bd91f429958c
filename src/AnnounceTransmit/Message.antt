-- ===== src/AnnounceTransmit/Message.antt =====
-- What a neighbour reads in the message that txAnnounce makes.
use excelfore_gptp.Common.{
  ℕ, ◌<◌, ◌≤◌, ◌≡◌, refl, sym, ap, ◌∙◌, true, false, arith, inl, inr, Bool-cases,
}
use excelfore_gptp.Types.{max_path_trace_n}
use mathlib.Core.Path.{subst}
use excelfore_gptp.Priority.{memcmp_eq, is_eq}
use excelfore_gptp.Priority.Memcmp.{memcmp_refl}
use excelfore_gptp.Globals.{PerPortGlobal}
use excelfore_gptp.AnnounceInformation.Procs.{announced_properties, message_vector}
use excelfore_gptp.AnnounceReceive.Machine.{PortAnnounceReceive, path_length, qualify_announce}
use excelfore_gptp.AnnounceReceive.Qualify.{qualify_announce_iff}
use excelfore_gptp.AnnounceTransmit.Machine.{PortAnnounceTransmit, tx_announce}

-- The neighbour's vector has the root and the steps of the sender's masterPriority and
-- masterStepsRemoved, with the sender's port identity and the neighbour's port number.
pub message_vector-tx_announce :
    (sm : PortAnnounceTransmit) (ppg : PerPortGlobal)
    → message_vector ppg (tx_announce sm) ≡ record {
      root_system_identity = sm.bppg.master_priority.root_system_identity;
      steps_removed = sm.bptasg.master_steps_removed;
      source_port_identity = sm.announce_tx.header.source_port_identity;
      port_number = ppg.this_port;
    }
unfolding tx_announce
message_vector-tx_announce sm ppg = refl

-- The neighbour reads the path trace of the sender, if its count is within the array.
pub path_length-tx_announce :
    (sm : PortAnnounceTransmit)
    → sm.bptasg.path_trace_count ≤ max_path_trace_n
    → (path_length (tx_announce sm) ≡ sm.bptasg.path_trace_count)
      × ((j : ℕ)
          → j < sm.bptasg.path_trace_count
          → (tx_announce sm).path_sequence j ≡ sm.bptasg.path_trace j)
unfolding tx_announce
path_length-tx_announce sm h = (ground arith, λ j lt. ground arith)

-- A system that stands in the path trace of the sender does not qualify the message, so that an
-- announcement does not run in a circle.
pub tx_announce_stops :
    (sm : PortAnnounceTransmit) (r : PortAnnounceReceive) (j : ℕ)
    → sm.bptasg.path_trace_count ≤ max_path_trace_n
    → j < sm.bptasg.path_trace_count
    → sm.bptasg.path_trace j ≡ r.ptasg.this_clock
    → (qualify_announce r (tx_announce sm)).1 ≡ false
unfolding tx_announce
tx_announce_stops sm r j h lt e = elim (Bool-cases (qualify_announce r (tx_announce sm)).1) [
  | inl qualified ↦
      let q = (qualify_announce_iff r (tx_announce sm)).0 qualified in
      let (count, entries) = path_length-tx_announce sm h in
      let differs = q.no_cycle refl j (subst (λ (n : ℕ). j < n) (sym count) lt) in
      let own : memcmp_eq ((tx_announce sm).path_sequence j) r.ptasg.this_clock ≡ true =
        ap (λ c. memcmp_eq c r.ptasg.this_clock) (entries j lt ∙ e)
        ∙ ap is_eq (memcmp_refl r.ptasg.this_clock) in
      absurd (ground arith)
  | inr refused ↦ refused
]

-- With no flag set before, the neighbour reads the time properties that the sender holds.
pub announced_properties-tx_announce :
    (sm : PortAnnounceTransmit)
    → sm.announce_tx.header.flags ≡ 0
    → announced_properties (tx_announce sm) ≡ sm.bptasg.time_properties
unfolding tx_announce
announced_properties-tx_announce sm h = ground arith

-- What a neighbour reads in the message that txAnnounce makes is what the sender holds. The vector has
-- the root and the steps of masterPriority and masterStepsRemoved, with the sender's port identity and
-- the neighbour's port number; the path is the path trace, whose count must be within the array; and
-- the time properties are those of the system, if no flag of the message was set before.
pub tx_announce-read :
    (sm : PortAnnounceTransmit) (ppg : PerPortGlobal)
    → sm.bptasg.path_trace_count ≤ max_path_trace_n
    → sm.announce_tx.header.flags ≡ 0
    → (message_vector ppg (tx_announce sm) ≡ record {
      root_system_identity = sm.bppg.master_priority.root_system_identity;
      steps_removed = sm.bptasg.master_steps_removed;
      source_port_identity = sm.announce_tx.header.source_port_identity;
      port_number = ppg.this_port;
    })
      × (path_length (tx_announce sm) ≡ sm.bptasg.path_trace_count)
      × ((j : ℕ)
          → j < sm.bptasg.path_trace_count
          → (tx_announce sm).path_sequence j ≡ sm.bptasg.path_trace j)
      × (announced_properties (tx_announce sm) ≡ sm.bptasg.time_properties)
tx_announce-read sm ppg h f =
    let (count, entries) = path_length-tx_announce sm h in
    (message_vector-tx_announce sm ppg, count, entries, announced_properties-tx_announce sm f)
