-- ===== src/Signaling/EndToEnd.antt =====
-- A TLV from the machine that sends it to the one that receives it.
use excelfore_gptp.Common.{ℕ, ◌≡◌, refl, true, false, ◌⊎◌, none, some, ◌∷◌}
use excelfore_gptp.Config.{Config}
use excelfore_gptp.Machine.{done}
use excelfore_gptp.Wire.Order.{NetworkOrder, IsInverse}
use excelfore_gptp.Signaling.Message.{Tlv, interval_request, gptp_capable, IsTlv}
use excelfore_gptp.Signaling.Send
use excelfore_gptp.Signaling.SendRun
use excelfore_gptp.Signaling.Receive
use excelfore_gptp.Signaling.ReceiveRun

sent_head :
    (o : NetworkOrder) (c : Config) (random : ℕ) (m : Tlv) (n : Send.MdSignalingSend)
    → (SendRun.delivered o c random m n).sent ≡ SendRun.written o c m n ∷ n.sent
sent_head o c random (interval_request t) n = refl
sent_head o c random (gptp_capable t) n = refl

-- Both machines are on ports that are up and have left INIT, and the members of a TLV are within their
-- types, with the organizationSubType of its kind. Then the TLV goes out once, in its call if the network
-- takes it, and else in the first later call in which it does; and the call that receives the message
-- hands on the TLV as it was.
pub signaling-delivered :
    (o : NetworkOrder) (c : Config) (random : ℕ) (m : Tlv) (n : Send.MdSignalingSend)
    (r : Receive.MdSignalingReceive)
    → IsInverse o
    → IsTlv m
    → SendRun.IsUp n
    → (n.state ≡ Send.initialize) ⊎ (n.state ≡ Send.send_signaling)
    → ReceiveRun.IsUp r
    → (r.state ≡ Receive.initialize) ⊎ (r.state ≡ Receive.recv_signaling)
    → (Send.md_signaling_send o c true random m n
        ≡ done (SendRun.delivered o c random m (SendRun.draw_in random n.state n)) none)
      × (Send.md_signaling_send o c false random m n
          ≡ done (SendRun.held m (SendRun.draw_in random n.state n)) (some tt))
      × (Send.md_signaling_send_sm o c true random
            (SendRun.held m (SendRun.draw_in random n.state n))
          ≡ done (SendRun.delivered o c random m (SendRun.draw_in random n.state n)) none)
      × ((SendRun.delivered o c random m (SendRun.draw_in random n.state n)).sent
          ≡ SendRun.written o c m (SendRun.draw_in random n.state n)
            ∷ (SendRun.draw_in random n.state n).sent)
      × (Receive.md_signaling_rec o (SendRun.written o c m (SendRun.draw_in random n.state n)) r
          ≡ done
              (ReceiveRun.taken (SendRun.written o c m (SendRun.draw_in random n.state n)) m r)
              (some m))
signaling-delivered o c random m n r i k u h v q =
    let x = SendRun.draw_in random n.state n in
    (
      SendRun.sends_now o c random m n k u h,
      SendRun.holds_now o c random m n k u h,
      SendRun.held_goes_out o c random m x (SendRun.draw_in-IsUp random n.state n u),
      sent_head o c random m x,
      ReceiveRun.signaling_arrives o c m x r i k v q,
    )
