-- ===== src/Examples/Signaling.antt =====
-- A request for message intervals from one system to another, on hosts that store words as the network
-- does.
use excelfore_gptp.Common.{
  pos, negsuc, true, false, refl, ◌≡◌, none, some, inl, inr, [], ◌∷◌, arith,
}
use excelfore_gptp.Types.{PtpMsgGptpCapableTlv}
use excelfore_gptp.Machine.{done}
use excelfore_gptp.Wire.Order.{NetworkOrder, IsInverse, is_pos, is_neg}
use excelfore_gptp.Signaling.Message.{PtpIntervalRequest, interval_request, IsTlv, is_request}
use excelfore_gptp.Signaling.Send
use excelfore_gptp.Signaling.SendRun
use excelfore_gptp.Signaling.Receive
use excelfore_gptp.Signaling.ReceiveRun
use excelfore_gptp.Signaling.EndToEnd.{signaling-delivered}
use excelfore_gptp.Examples.Data.{sample_config, sample_system, sample_port}

abbrev big_endian : NetworkOrder
big_endian = record { htons = λ n. n; ntohs = λ n. n; htonll = λ n. n; ntohll = λ n. n }

big_endian-IsInverse : IsInverse big_endian
big_endian-IsInverse = record { short = λ n l. refl; long = λ n l. refl }

abbrev request : PtpIntervalRequest
request = record {
  tlv_type = 3;
  length_field = 12;
  organization_id = 0x00 ∷ 0x80 ∷ 0xc2 ∷ [];
  organization_sub_type = 2;
  link_delay_interval = pos 126;
  time_sync_interval = negsuc 2;
  announce_interval = pos 0;
  flags = 3;
}

request-IsTlv : IsTlv (interval_request request)
request-IsTlv =
    is_request (omega arith) (omega arith) refl (is_pos (omega arith)) (is_neg (omega arith))
      (is_pos (omega arith))

abbrev no_tlv : PtpMsgGptpCapableTlv
no_tlv = record {
  tlv_type = 0;
  length_field = 0;
  organization_id = 0 ∷ 0 ∷ 0 ∷ [];
  organization_sub_type = 0;
  log_gptp_capable_message_interval = pos 0;
  flags = 0;
}

abbrev sending : Send.MdSignalingSend
sending = record {
  has_net = true;
  ptasg = sample_system;
  ppg = sample_port 2;
  state = Send.initialize;
  last_state = Send.initialize;
  stype = Send.type_none;
  rcvd_txmsg = none;
  sequence_id = 9;
  signal_msg_interval_send = 0;
  signal_gptp_capable_send = 0;
  sent = [];
}

abbrev receiving : Receive.MdSignalingReceive
receiving = record {
  ptasg = sample_system;
  ppg = sample_port 1;
  state = Receive.recv_signaling;
  last_state = Receive.recv_signaling;
  recv = false;
  rcvd_rxmsg = none;
  gctlm = no_tlv;
  mrtlm = request;
  signal_rec = 4;
  signal_msg_interval_rec = 4;
  signal_gptp_capable_rec = 0;
}

abbrev started : Send.MdSignalingSend
started = SendRun.drawn 70000 sending

delivered_example :
    (Send.md_signaling_send big_endian sample_config true 70000 (interval_request request) sending
      ≡ done
          (SendRun.delivered big_endian sample_config 70000 (interval_request request) started)
          none)
    × (Send.md_signaling_send big_endian sample_config false 70000
          (interval_request request)
          sending
        ≡ done (SendRun.held (interval_request request) started) (some tt))
    × (Send.md_signaling_send_sm big_endian sample_config true 70000
          (SendRun.held (interval_request request) started)
        ≡ done
            (SendRun.delivered big_endian sample_config 70000 (interval_request request) started)
            none)
    × ((SendRun.delivered big_endian sample_config 70000 (interval_request request) started).sent
        ≡ SendRun.written big_endian sample_config (interval_request request) started ∷ [])
    × (Receive.md_signaling_rec big_endian
          (SendRun.written big_endian sample_config (interval_request request) started)
          receiving
        ≡ done
            (ReceiveRun.taken
              (SendRun.written big_endian sample_config (interval_request request) started)
              (interval_request request)
              receiving)
            (some (interval_request request)))
delivered_example =
    signaling-delivered big_endian sample_config 70000 (interval_request request) sending receiving
      big_endian-IsInverse request-IsTlv
      (record { has_net = refl; begin = refl; instance_enable = refl; up = refl }) (inl refl)
      (record { begin = refl; instance_enable = refl; up = refl }) (inr refl)
