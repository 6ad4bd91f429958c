-- ===== src/Settings.antt =====
-- The machines that take a neighbour's signaling messages: announce_interval_setting_sm.c,
-- sync_interval_setting_sm.c, link_delay_interval_setting_sm.c, one_step_tx_oper_setting_sm.c and
-- gptp_capable_receive_sm.c, and the one that sends such messages, gptp_capable_transmit_sm.c.
use excelfore_gptp.Common.{ℕ, ◌≡◌, Option}
use excelfore_gptp.Config.{Config}
use excelfore_gptp.Machine.{Outcome, done, Returns}
use excelfore_gptp.AnnounceInterval
use excelfore_gptp.SyncInterval
use excelfore_gptp.LinkDelayInterval
use excelfore_gptp.OneStepTxOper
use excelfore_gptp.CapableReceive
use excelfore_gptp.CapableTransmit

-- The run returns, and leaves a machine with the property.
abbrev pub ReturnsWith : {D R : Type 0} → (D → Type 0) → Outcome D R → Type 0
ReturnsWith {D} {R} P o = (d : D) × (retp : Option R) × (o ≡ done d retp) × P d

-- In every state where a request is there whenever one waits or the machine is in the state that serves
-- requests, a call of each of the setting machines returns without a fault and leaves such a state; a
-- call of the transmitting machine always returns.
pub sm-Returns :
    (c : Config) (cts64 : ℕ) (a : AnnounceInterval.Machine.AnnounceIntervalSetting)
    (s : SyncInterval.Machine.SyncIntervalSetting)
    (l : LinkDelayInterval.Machine.LinkDelayIntervalSetting)
    (o : OneStepTxOper.Machine.OneStepTxOperSetting) (r : CapableReceive.Machine.GptpCapableReceive)
    (t : CapableTransmit.Machine.GptpCapableTransmit)
    → AnnounceInterval.Run.HasRequest a
    → SyncInterval.Run.HasRequest s
    → LinkDelayInterval.Run.HasRequest l
    → OneStepTxOper.Run.HasRequest o
    → CapableReceive.Run.HasTlv r
    → ReturnsWith AnnounceInterval.Run.HasRequest
        (AnnounceInterval.Machine.announce_interval_setting_sm c a)
      × ReturnsWith SyncInterval.Run.HasRequest (SyncInterval.Machine.sync_interval_setting_sm c s)
      × ReturnsWith LinkDelayInterval.Run.HasRequest
          (LinkDelayInterval.Machine.link_delay_interval_setting_sm c l)
      × ReturnsWith OneStepTxOper.Run.HasRequest
          (OneStepTxOper.Machine.one_step_tx_oper_setting_sm o)
      × ReturnsWith CapableReceive.Run.HasTlv
          (CapableReceive.Machine.gptp_capable_receive_sm c cts64 r)
      × Returns (CapableTransmit.Machine.gptp_capable_transmit_sm c cts64 t)
sm-Returns c cts64 a s l o r t ha hs hl ho hr = (
  AnnounceInterval.Run.announce_interval_setting_sm-Returns c a ha,
  SyncInterval.Run.sync_interval_setting_sm-Returns c s hs,
  LinkDelayInterval.Run.link_delay_interval_setting_sm-Returns c l hl,
  OneStepTxOper.Run.one_step_tx_oper_setting_sm-Returns o ho,
  CapableReceive.Run.gptp_capable_receive_sm-Returns c cts64 r hr,
  CapableTransmit.Run.gptp_capable_transmit_sm-Returns c cts64 t,
)
