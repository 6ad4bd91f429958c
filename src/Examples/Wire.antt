-- ===== src/Examples/Wire.antt =====
-- An Announce message from one system to another, on hosts that store words as the network does.
use excelfore_gptp.Common.{◌≡◌, refl, arith, true, false, none, some, inl, inr, [], ◌∷◌}
use excelfore_gptp.Types.{PtpMsgAnnounce}
use excelfore_gptp.Machine.{done}
use excelfore_gptp.Wire.Order.{NetworkOrder, IsInverse, is_pos}
use excelfore_gptp.Wire.Announce.{compose_announce, send_announce, sent_size}
use excelfore_gptp.Wire.Send
use excelfore_gptp.Wire.SendRun
use excelfore_gptp.Wire.Receive
use excelfore_gptp.Wire.ReceiveRun
use excelfore_gptp.Wire.RoundTrip.{IsAnnounce, Tells}
use excelfore_gptp.Globals.Init.{zero_identity}
use excelfore_gptp.Examples.Data.{
  sample_config, sample_system, sample_port, sample_bmcs_port, announce_of,
}

abbrev big_endian : NetworkOrder
big_endian = record { htons = λ n. n; ntohs = λ n. n; htonll = λ n. n; ntohll = λ n. n }

big_endian-IsInverse : IsInverse big_endian
big_endian-IsInverse = record { short = λ n l. refl; long = λ n l. refl }

abbrev sending : Send.MdAnnounceSend
sending = record {
  has_net = true;
  ptasg = sample_system;
  ppg = sample_port 2;
  bppg = sample_bmcs_port 2;
  state = Send.initialize;
  last_state = Send.initialize;
  rcvd_tx_announce = false;
  tx_announce_ptr = none;
  tx_flags0 = 0;
  buffer = λ _. zero_identity;
  announce_send = 0;
  sent = [];
}

-- The machine after the network has refused the message four times.
abbrev refused : Send.MdAnnounceSend
refused = SendRun.held_for big_endian sample_config (announce_of 100 8) 3 sending

goes_out_example :
    (Send.md_announc_send big_endian sample_config true (announce_of 100 8) sending
      ≡ done (SendRun.delivered big_endian sample_config (announce_of 100 8) sending) none)
    × ((SendRun.delivered big_endian sample_config (announce_of 100 8) sending).sent
        ≡ (
          compose_announce big_endian sample_config (Send.sender sending) (announce_of 100 8),
          sent_size (Send.sender sending) (announce_of 100 8),
        )
          ∷ [])
    × (Send.md_announc_send big_endian sample_config false (announce_of 100 8) sending
        ≡ done (SendRun.held_for big_endian sample_config (announce_of 100 8) 0 sending) (some tt))
    × (Send.md_announce_send_sm big_endian sample_config false refused
        ≡ done (SendRun.held_for big_endian sample_config (announce_of 100 8) 4 sending) (some tt))
    × (refused.sent ≡ [])
    × (Send.md_announce_send_sm big_endian sample_config true refused
        ≡ done (SendRun.delivered big_endian sample_config (announce_of 100 8) refused) none)
    × ((SendRun.delivered big_endian sample_config (announce_of 100 8) refused).sent
        ≡ (
          compose_announce big_endian sample_config (Send.sender refused) (announce_of 100 8),
          sent_size (Send.sender refused) (announce_of 100 8),
        )
          ∷ [])
goes_out_example =
    SendRun.message_goes_out big_endian sample_config (announce_of 100 8) 3 sending (omega arith)
      (record { has_net = refl; begin = refl; instance_enable = refl; capable = refl }) (inl refl)

abbrev receiving : Receive.MdAnnounceReceive
receiving = record {
  ptasg = sample_system;
  ppg = sample_port 1;
  state = Receive.recv;
  last_state = Receive.recv;
  rcvd_rx_announce = false;
  rx_announce_ptr = none;
  rcvd_announce = announce_of 200 0;
  announce_rec = 4;
  announce_rec_valid = 4;
  cmlds_mode = false;
}

sample-IsAnnounce : IsAnnounce (announce_of 100 8)
sample-IsAnnounce = record {
  current_utc_offset = is_pos (omega arith);
  variance = omega arith;
  steps_removed = omega arith;
  sequence_id = omega arith;
  tlv_type = omega arith;
  tlv_length = omega arith;
}

arrives_example :
    (send_announce big_endian sample_config (Send.sender sending) (announce_of 100 8)
      ≡ some (compose_announce big_endian sample_config (Send.sender sending) (announce_of 100 8)))
    × (b : PtpMsgAnnounce) × (Receive.md_announce_rec big_endian
          (compose_announce big_endian sample_config (Send.sender sending) (announce_of 100 8))
          receiving
        ≡ done
            (ReceiveRun.taken big_endian
              (compose_announce big_endian sample_config (Send.sender sending) (announce_of 100 8))
              b
              receiving)
            (some b))
    × Tells (Send.sender sending) (announce_of 100 8) b
arrives_example =
    ReceiveRun.announce_arrives big_endian sample_config (Send.sender sending) (announce_of 100 8)
      receiving big_endian-IsInverse sample-IsAnnounce (omega arith)
      (record { begin = refl; instance_enable = refl; capable = refl }) (inr refl)
