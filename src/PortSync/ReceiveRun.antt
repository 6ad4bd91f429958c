-- ===== src/PortSync/ReceiveRun.antt =====
-- port_sync_sync_receive_sm_recvMDSync: what becomes of a message that a port receives.
use excelfore_gptp.Common.{
  ℕ, ◌≡◌, ◌≢◌, refl, ◌∙◌, Bool, true, false, arith, none, some, inl, inr, ◌⊎◌, ap, suc,
}
use excelfore_gptp.Config.{Config}
use excelfore_gptp.Machine.{Outcome, done, loop, loop-next, loop-stop}
use excelfore_gptp.PortSync.Data.{DoubleOps, MdSyncReceive, PortSyncSync}
use excelfore_gptp.PortSync.Receive.{
  State, init, discard, received_sync, reaction, PortSyncSyncReceive, take_sync, received_sync_proc,
  allstate_condition, received_sync_condition, round, settled, fuel, port_sync_sync_receive_sm,
  recv_md_sync,
}

module _ {D : Type 0} (f : DoubleOps D) (c : Config) (cts64 : ℕ) where
  -- The machine that holds the message.
  abbrev pub given :
      MdSyncReceive D → Bool → State → State → PortSyncSyncReceive D → PortSyncSyncReceive D
  given m waits s l sm = record sm {
    rcvd_md_sync = waits;
    rcvd_md_sync_ptr = some m;
    state = s;
    last_state = l;
  }

  -- The machine after it has handed on the message.
  abbrev pub taken : MdSyncReceive D → PortSyncSyncReceive D → PortSyncSyncReceive D
  taken m sm = take_sync f c cts64 m (given m false received_sync received_sync sm)

  hands_on :
      (m : MdSyncReceive D) (b : Bool) (l : State) (sm : PortSyncSyncReceive D)
      → l ≢ received_sync
      → round f c cts64 (given m b received_sync l sm)
        ≡ some (taken m sm, some (taken m sm).port_sync_sync)
  unfolding round received_sync_proc take_sync received_sync_condition
  hands_on m b init sm h = refl
  hands_on m b discard sm h = refl
  hands_on m b received_sync sm h = absurd (h refl)
  hands_on m b reaction sm h = refl

  drops :
      (m : MdSyncReceive D) (l : State) (sm : PortSyncSyncReceive D)
      → l ≢ discard
      → round f c cts64 (given m true discard l sm)
        ≡ some (given m false received_sync discard sm, none)
  unfolding round
  drops m init sm h = refl
  drops m discard sm h = absurd (h refl)
  drops m received_sync sm h = refl
  drops m reaction sm h = refl

  enters :
      (m : MdSyncReceive D) (sm : PortSyncSyncReceive D)
      → round f c cts64 (given m true init reaction sm) ≡ some (given m true discard init sm, none)
  unfolding round
  enters m sm = refl

  abbrev result :
      MdSyncReceive D → PortSyncSyncReceive D → Outcome (PortSyncSyncReceive D) (PortSyncSync D)
  result m sm = done (taken m sm) (some (taken m sm).port_sync_sync)

  from_received :
      (m : MdSyncReceive D) (b : Bool) (l : State) (n : ℕ) (sm : PortSyncSyncReceive D)
      → l ≢ received_sync
      → loop settled (round f c cts64) (suc n) (given m b received_sync l sm) ≡ result m sm
  from_received m b l n sm h =
      loop-stop settled (round f c cts64) n (given m b received_sync l sm) (taken m sm)
        (some (taken m sm).port_sync_sync) (hands_on m b l sm h) refl

  from_discard :
      (m : MdSyncReceive D) (l : State) (n : ℕ) (sm : PortSyncSyncReceive D)
      → l ≢ discard
      → loop settled (round f c cts64) (suc (suc n)) (given m true discard l sm) ≡ result m sm
  from_discard m l n sm h =
      loop-next settled (round f c cts64) (suc n) (given m true discard l sm)
        (given m false received_sync discard sm) none (drops m l sm h) refl
      ∙ from_received m false discard n sm (λ e. ground (arith, e))

  from_state :
      (m : MdSyncReceive D) (s : State) (sm : PortSyncSyncReceive D)
      → s ≢ reaction
      → loop settled (round f c cts64) fuel (given m true s reaction sm) ≡ result m sm
  from_state m init sm h =
      loop-next settled (round f c cts64) 9 (given m true init reaction sm)
        (given m true discard init sm) none (enters m sm) refl
      ∙ from_discard m init 7 sm (λ e. ground (arith, e))
  from_state m discard sm h = from_discard m reaction 8 sm (λ e. ground (arith, e))
  from_state m received_sync sm h = from_received m true reaction 9 sm (λ e. ground (arith, e))
  from_state m reaction sm h = absurd (h refl)

  -- What recv_md_sync starts in.
  starts :
      (m : MdSyncReceive D) (sm : PortSyncSyncReceive D)
      → (allstate_condition (given m true sm.state reaction sm) ≡ given m true sm.state reaction sm)
        ⊎ (allstate_condition (given m true sm.state reaction sm)
            ≡ given m true discard reaction sm)
  unfolding allstate_condition
  starts m sm = ground arith

  -- Every message that reaches a port is handed on to the site in its call, whatever the state of the
  -- port and of the instance: the port's status decides only whether the machine passes DISCARD first,
  -- which goes on to RECEIVED_SYNC in any case.
  pub recv_md_sync-hands_on :
      (m : MdSyncReceive D) (sm : PortSyncSyncReceive D)
      → sm.state ≢ reaction
      → recv_md_sync f c cts64 m sm ≡ done (taken m sm) (some (taken m sm).port_sync_sync)
  unfolding recv_md_sync port_sync_sync_receive_sm
  recv_md_sync-hands_on m sm h = elim (starts m sm) [
    | inl e ↦ ap (loop settled (round f c cts64) fuel) e ∙ from_state m sm.state sm h
    | inr e ↦
        ap (loop settled (round f c cts64) fuel) e
        ∙ from_state m discard sm (λ q. ground (arith, q))
  ]
