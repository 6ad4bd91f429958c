-- ===== src/Examples/Settings.antt =====
-- The machines of signaling messages at a port that is up.
use excelfore_gptp.Common.{
  pos, negsuc, true, false, none, some, ◌≡◌, refl, [], arith, leb, if◌then◌else◌,
}
use excelfore_gptp.Types.{PtpMsgIntervalRequestTlv}
use excelfore_gptp.Globals.MdEntity.{MdEntityGlobal, md_entity_glb_init}
use excelfore_gptp.Globals.{PerPortGlobal}
use excelfore_gptp.Machine.{done, Returns}
use excelfore_gptp.AnnounceInterval
use excelfore_gptp.SyncInterval
use excelfore_gptp.LinkDelayInterval
use excelfore_gptp.OneStepTxOper
use excelfore_gptp.CapableReceive
use excelfore_gptp.CapableTransmit
use excelfore_gptp.Settings.{ReturnsWith, sm-Returns}
use excelfore_gptp.Examples.Data.{sample_config, sample_system, sample_port, sample_bmcs_port}

-- The neighbour takes part in the domain, and no setting is left to management.
abbrev open_port : PerPortGlobal
open_port = record (sample_port 1) {
  use_mgt_settable_log_sync_interval = false;
  use_mgt_settable_one_step_tx_oper = false;
  for_all_domain = record ((sample_port 1).for_all_domain) {
    use_mgt_settable_log_pdelay_req_interval = false;
    received_non_cmlds_pdelay_req = negsuc 0;
  };
}

abbrev sample_entity : MdEntityGlobal
sample_entity = record (md_entity_glb_init sample_config 77 none) { one_step_transmit = true }

abbrev sample_tlv : PtpMsgIntervalRequestTlv
sample_tlv = record {
  link_delay_interval = pos 1;
  time_sync_interval = negsuc 2;
  announce_interval = pos 126;
  flags = 5;
}

abbrev announce : AnnounceInterval.Machine.AnnounceIntervalSetting
announce = record {
  ptasg = sample_system;
  ppg = open_port;
  bppg = sample_bmcs_port 1;
  state = AnnounceInterval.Machine.initialize;
  last_state = AnnounceInterval.Machine.initialize;
  rcvd_signaling_msg2 = false;
  rcvd_signaling_ptr = none;
}

abbrev sync : SyncInterval.Machine.SyncIntervalSetting
sync = record {
  ptasg = sample_system;
  ppg = open_port;
  state = SyncInterval.Machine.set_interval;
  last_state = SyncInterval.Machine.set_interval;
  rcvd_signaling_msg1 = false;
  rcvd_signaling_ptr = some (pos 0);
}

abbrev link_delay : LinkDelayInterval.Machine.LinkDelayIntervalSetting
link_delay = record {
  ptasg = sample_system;
  ppg = open_port;
  mdeg = sample_entity;
  state = LinkDelayInterval.Machine.initialize;
  last_state = LinkDelayInterval.Machine.initialize;
  rcvd_signaling_msg1 = false;
  rcvd_signaling_ptr = none;
  port_enabled3 = true;
}

abbrev one_step : OneStepTxOper.Machine.OneStepTxOperSetting
one_step = record {
  ptasg = sample_system;
  ppg = open_port;
  mdeg = sample_entity;
  state = OneStepTxOper.Machine.set_one_step_tx_oper;
  last_state = OneStepTxOper.Machine.set_one_step_tx_oper;
  rcvd_signaling_msg4 = false;
  rcvd_signaling_ptr = some sample_tlv;
}

abbrev receiver : CapableReceive.Machine.GptpCapableReceive
receiver = record {
  ptasg = sample_system;
  ppg = open_port;
  state = CapableReceive.Machine.initialize;
  last_state = CapableReceive.Machine.initialize;
  rcvd_gptp_capable_tlv = false;
  rcvd_signaling_msg_ptr = none;
  gptp_capable_receipt_timeout_interval = 0;
  timeout_time = 0;
}

abbrev sender : CapableTransmit.Machine.State → CapableTransmit.Machine.GptpCapableTransmit
sender s = record {
  ptasg = sample_system;
  ppg = open_port;
  state = s;
  last_state = s;
  signaling_msg_time_interval = 8000;
  interval_timer = 1000;
  signaling_msg = record {
    tlv_type = 0;
    length_field = 0;
    organization_id = [];
    organization_sub_type = 0;
    log_gptp_capable_message_interval = pos 0;
    flags = 0;
  };
}

sm-Returns_example :
    ReturnsWith AnnounceInterval.Run.HasRequest
      (AnnounceInterval.Machine.announce_interval_setting_sm sample_config announce)
    × ReturnsWith SyncInterval.Run.HasRequest
        (SyncInterval.Machine.sync_interval_setting_sm sample_config sync)
    × ReturnsWith LinkDelayInterval.Run.HasRequest
        (LinkDelayInterval.Machine.link_delay_interval_setting_sm sample_config link_delay)
    × ReturnsWith OneStepTxOper.Run.HasRequest
        (OneStepTxOper.Machine.one_step_tx_oper_setting_sm one_step)
    × ReturnsWith CapableReceive.Run.HasTlv
        (CapableReceive.Machine.gptp_capable_receive_sm sample_config 2000 receiver)
    × Returns (
        CapableTransmit.Machine.gptp_capable_transmit_sm sample_config 2000
          (sender CapableTransmit.Machine.transmit_tlv))
sm-Returns_example =
    sm-Returns sample_config 2000 announce sync link_delay one_step receiver
      (sender CapableTransmit.Machine.transmit_tlv) (ground arith, ground arith)
      (λ _. refl, λ _. refl) (ground arith, ground arith) (λ _. refl, λ _. refl)
      (ground arith, ground arith)

sender-IsUp : (s : CapableTransmit.Machine.State) → CapableTransmit.Run.IsUp (sender s)
sender-IsUp s = record { begin = refl; instance_enable = refl; enabled = refl }

sends_when_due_example :
    (CapableTransmit.Machine.gptp_capable_transmit_sm sample_config 2000
        (sender CapableTransmit.Machine.transmit_tlv)
      ≡ (if leb 1000 2000
          then done (CapableTransmit.Run.sent (sender CapableTransmit.Machine.transmit_tlv)) (
              some (
                CapableTransmit.Machine.set_gptp_capable_tlv
                  (sender CapableTransmit.Machine.transmit_tlv)))
          else done (sender CapableTransmit.Machine.transmit_tlv) none))
    × CapableTransmit.Run.Tells
        (sender CapableTransmit.Machine.transmit_tlv)
        (CapableTransmit.Machine.set_gptp_capable_tlv (sender CapableTransmit.Machine.transmit_tlv))
sends_when_due_example =
    CapableTransmit.Run.sends_when_due sample_config 2000
      (sender CapableTransmit.Machine.transmit_tlv)
      (sender-IsUp CapableTransmit.Machine.transmit_tlv) refl refl
