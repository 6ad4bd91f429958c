-- ===== src/Signaling/SendRun.antt =====
-- md_signaling_send_sm_mdSignalingSend: a TLV goes out in its call, or in the first later call in which
-- the network takes it.
use excelfore_gptp.Common.{
  ℕ, ◌+◌, ◌%◌, ◌^◌, ◌≡◌, ◌≢◌, refl, sym, ap, ◌∙◌, Bool, true, false, arith, ◌⊎◌, inl, inr, none,
  some, ◌∷◌, if◌then◌else◌, u16,
}
use excelfore_gptp.Config.{Config}
use excelfore_gptp.Machine.{Outcome, done, loop, loop-next, loop-stop}
use excelfore_gptp.Wire.Order.{NetworkOrder}
use excelfore_gptp.Signaling.Message.{
  Tlv, interval_request, gptp_capable, MdSignaling, blank_signaling, setup_gptp_capable_tlv,
  setup_msg_interval_req_tlv, IsTlv, is_request, is_capable,
}
use excelfore_gptp.Signaling.Send.{
  State, init, initialize, send_signaling, reaction, SignalingType, type_none, type_interval_req,
  type_gptp_capable, MdSignalingSend, is_up, port_identity, setup_tlv, count, send_message, is_set,
  allstate_condition, initialize_proc, initialize_condition, send_signaling_proc, round, settled,
  fuel, md_signaling_send_sm, sub_type_of, type_of, md_signaling_send,
}

-- The port and the instance are up.
pub record IsUp (sm : MdSignalingSend) : Type 0 where
  pub has_net : sm.has_net ≡ true
  pub begin : sm.ptasg.begin ≡ false
  pub instance_enable : sm.ptasg.instance_enable ≡ true
  pub up : is_up sm.ppg ≡ true

-- The kind of a TLV.
abbrev pub kind : Tlv → SignalingType
kind (interval_request t) = type_interval_req
kind (gptp_capable t) = type_gptp_capable

-- The message on the wire.
abbrev pub written : NetworkOrder → Config → Tlv → MdSignalingSend → MdSignaling
written o c (interval_request t) sm =
    setup_msg_interval_req_tlv o t
      (blank_signaling o c (port_identity sm) sm.ptasg.domain_number sm.sequence_id)
written o c (gptp_capable t) sm =
    setup_gptp_capable_tlv o t
      (blank_signaling o c (port_identity sm) sm.ptasg.domain_number sm.sequence_id)

-- The machine with the TLV.
abbrev pub given : Tlv → State → State → MdSignalingSend → MdSignalingSend
given m s l sm = record sm { stype = kind m; rcvd_txmsg = some m; state = s; last_state = l }

-- The machine that keeps the TLV.
abbrev pub held : Tlv → MdSignalingSend → MdSignalingSend
held m sm = given m send_signaling reaction sm

-- The machine that has drawn a sequence number, as it does in INITIALIZE.
abbrev pub drawn : ℕ → MdSignalingSend → MdSignalingSend
drawn random sm = record sm { sequence_id = random % 2 ^ 16 }

abbrev pub draw_in : ℕ → State → MdSignalingSend → MdSignalingSend
draw_in random init sm = sm
draw_in random initialize sm = drawn random sm
draw_in random send_signaling sm = sm
draw_in random reaction sm = sm

pub draw_in-IsUp :
    (random : ℕ) (s : State) (sm : MdSignalingSend) → IsUp sm → IsUp (draw_in random s sm)
draw_in-IsUp random init sm u = u
draw_in-IsUp random initialize sm u = record {
  has_net = u.has_net;
  begin = u.begin;
  instance_enable = u.instance_enable;
  up = u.up;
}
draw_in-IsUp random send_signaling sm u = u
draw_in-IsUp random reaction sm u = u

module _ (o : NetworkOrder) (c : Config) (random : ℕ) where
  -- The machine after the message has gone out.
  abbrev pub delivered : Tlv → MdSignalingSend → MdSignalingSend
  delivered m sm =
      record (count (kind m) (record (given m send_signaling send_signaling sm) {
        sequence_id = u16 (sm.sequence_id + 1);
        sent = written o c m sm ∷ sm.sent;
      })) { stype = type_none }

  to_send :
      (m : Tlv) (can_send : Bool) (sm : MdSignalingSend)
      → round o c can_send random (given m initialize reaction sm)
        ≡ some (given m send_signaling initialize (drawn random sm), none)
  unfolding round initialize_proc initialize_condition
  to_send (interval_request t) can_send sm = refl
  to_send (gptp_capable t) can_send sm = refl

  goes_out :
      (m : Tlv) (l : State) (sm : MdSignalingSend)
      → l ≢ send_signaling
      → sm.has_net ≡ true
      → round o c true random (given m send_signaling l sm) ≡ some (delivered m sm, none)
  unfolding round send_signaling_proc send_message setup_tlv
  goes_out (interval_request t) l sm h n = ground (arith, h, n)
  goes_out (gptp_capable t) l sm h n = ground (arith, h, n)

  stays_here :
      (m : Tlv) (l : State) (sm : MdSignalingSend)
      → l ≢ send_signaling
      → sm.has_net ≡ true
      → round o c false random (given m send_signaling l sm) ≡ some (held m sm, some tt)
  unfolding round send_signaling_proc send_message setup_tlv
  stays_here (interval_request t) l sm h n = ground (arith, h, n)
  stays_here (gptp_capable t) l sm h n = ground (arith, h, n)

  starts :
      (m : Tlv) (s : State) (sm : MdSignalingSend)
      → IsUp sm
      → allstate_condition (given m s reaction sm) ≡ given m s reaction sm
  unfolding allstate_condition
  starts m s sm u = ground (arith, u.begin, u.instance_enable, u.up)

  type_of-sub_type_of : (m : Tlv) → IsTlv m → type_of (sub_type_of m) ≡ kind m
  type_of-sub_type_of (interval_request t) (is_request a b e f g h) = ground (arith, e)
  type_of-sub_type_of (gptp_capable t) (is_capable a b e f) = ground (arith, e)

  -- What md_signaling_send_sm_mdSignalingSend does for the given type.
  abbrev entered :
      (can_send : Bool) → Tlv → MdSignalingSend → SignalingType → Outcome MdSignalingSend (Unit {0})
  entered can_send m sm k =
      if is_set k
      then loop settled (round o c can_send random) fuel
          (allstate_condition (record sm { stype = k; rcvd_txmsg = some m; last_state = reaction }))
      else done (record sm { stype = k }) none

  enters :
      (m : Tlv) (can_send : Bool) (sm : MdSignalingSend)
      → entered can_send m sm (kind m)
        ≡ loop settled
            (round o c can_send random)
            fuel
            (allstate_condition (given m sm.state reaction sm))
  enters (interval_request t) can_send sm = refl
  enters (gptp_capable t) can_send sm = refl

  begins :
      (m : Tlv) (can_send : Bool) (s : State) (sm : MdSignalingSend)
      → IsTlv m
      → IsUp sm
      → sm.state ≡ s
      → md_signaling_send o c can_send random m sm
        ≡ loop settled (round o c can_send random) fuel (given m s reaction sm)
  unfolding md_signaling_send md_signaling_send_sm
  begins m can_send s sm k u e =
      ap (entered can_send m sm) (type_of-sub_type_of m k)
      ∙ enters m can_send sm
      ∙ ap (loop settled (round o c can_send random) fuel) (starts m sm.state sm u)
      ∙ λ j. loop settled (round o c can_send random) fuel (given m (e j) reaction sm)

  rests : (m : Tlv) (sm : MdSignalingSend) → settled (delivered m sm) ≡ true
  rests (interval_request t) sm = refl
  rests (gptp_capable t) sm = refl

  pub sends_now :
      (m : Tlv) (sm : MdSignalingSend)
      → IsTlv m
      → IsUp sm
      → (sm.state ≡ initialize) ⊎ (sm.state ≡ send_signaling)
      → md_signaling_send o c true random m sm
        ≡ done (delivered m (draw_in random sm.state sm)) none
  sends_now m sm k u (inl e) =
      begins m true initialize sm k u e
      ∙ loop-next settled (round o c true random) 9 (given m initialize reaction sm)
          (given m send_signaling initialize (drawn random sm)) none (to_send m true sm) refl
      ∙ loop-stop settled (round o c true random) 8
          (given m send_signaling initialize (drawn random sm)) (delivered m (drawn random sm)) none
          (goes_out m initialize (drawn random sm) (λ q. ground (arith, q)) u.has_net)
          (rests m (drawn random sm))
      ∙ ap (λ s. done (delivered m (draw_in random s sm)) none) (sym e)
  sends_now m sm k u (inr e) =
      begins m true send_signaling sm k u e
      ∙ loop-stop settled (round o c true random) 9 (given m send_signaling reaction sm)
          (delivered m sm) none (goes_out m reaction sm (λ q. ground (arith, q)) u.has_net)
          (rests m sm)
      ∙ ap (λ s. done (delivered m (draw_in random s sm)) none) (sym e)

  pub holds_now :
      (m : Tlv) (sm : MdSignalingSend)
      → IsTlv m
      → IsUp sm
      → (sm.state ≡ initialize) ⊎ (sm.state ≡ send_signaling)
      → md_signaling_send o c false random m sm
        ≡ done (held m (draw_in random sm.state sm)) (some tt)
  holds_now m sm k u (inl e) =
      begins m false initialize sm k u e
      ∙ loop-next settled (round o c false random) 9 (given m initialize reaction sm)
          (given m send_signaling initialize (drawn random sm)) none (to_send m false sm) refl
      ∙ loop-stop settled (round o c false random) 8
          (given m send_signaling initialize (drawn random sm)) (held m (drawn random sm)) (some tt)
          (stays_here m initialize (drawn random sm) (λ q. ground (arith, q)) u.has_net) refl
      ∙ ap (λ s. done (held m (draw_in random s sm)) (some tt)) (sym e)
  holds_now m sm k u (inr e) =
      begins m false send_signaling sm k u e
      ∙ loop-stop settled (round o c false random) 9 (given m send_signaling reaction sm)
          (held m sm) (some tt) (stays_here m reaction sm (λ q. ground (arith, q)) u.has_net) refl
      ∙ ap (λ s. done (held m (draw_in random s sm)) (some tt)) (sym e)

  -- A machine that keeps a TLV on a port that is up sends it in the first call in which the network
  -- takes it.
  pub held_goes_out :
      (m : Tlv) (sm : MdSignalingSend)
      → IsUp sm
      → md_signaling_send_sm o c true random (held m sm) ≡ done (delivered m sm) none
  unfolding md_signaling_send_sm
  held_goes_out m sm u =
      ap (loop settled (round o c true random) fuel) (starts m send_signaling sm u)
      ∙ loop-stop settled (round o c true random) 9 (held m sm) (delivered m sm) none
          (goes_out m reaction sm (λ q. ground (arith, q)) u.has_net) (rests m sm)
