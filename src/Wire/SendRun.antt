-- ===== src/Wire/SendRun.antt =====
-- md_announce_send_sm_mdAnnouncSend: a message goes out in its call, or in the first later call in which
-- the network takes it.
use excelfore_gptp.Common.{
  ℕ, zero, suc, ◌+◌, ◌≤◌, u32, ◌≡◌, ◌≢◌, refl, ap, ◌∙◌, Bool, true, false, arith, ◌⊎◌, inl, inr,
  none, some, ◌∷◌,
}
use excelfore_gptp.Types.{PtpMsgAnnounce, max_path_trace_n}
use excelfore_gptp.Config.{Config}
use excelfore_gptp.Machine.{done, loop, loop-next, loop-stop}
use excelfore_gptp.Wire.Order.{NetworkOrder}
use excelfore_gptp.Wire.Announce.{compose_announce, send_announce, sent_size, path_count}
use excelfore_gptp.Wire.Send.{
  State, initialize, send, reaction, MdAnnounceSend, sender, is_capable, allstate_condition,
  initialize_condition, send_announce_proc, round, settled, fuel, md_announce_send_sm,
  md_announc_send,
}

module _ (o : NetworkOrder) (c : Config) (a : PtpMsgAnnounce) where
  -- The machine with the message.
  abbrev pub given : Bool → State → State → MdAnnounceSend → MdAnnounceSend
  given waits s l sm = record sm {
    rcvd_tx_announce = waits;
    tx_announce_ptr = some a;
    state = s;
    last_state = l;
  }

  -- The machine after the message has gone out.
  abbrev pub delivered : MdAnnounceSend → MdAnnounceSend
  delivered sm = record (given false send send sm) {
    buffer = (compose_announce o c (sender sm) a).path_sequence;
    announce_send = u32 (sm.announce_send + 1);
    sent = (compose_announce o c (sender sm) a, sent_size (sender sm) a) ∷ sm.sent;
  }

  -- The machine that keeps the message.
  abbrev pub held : MdAnnounceSend → MdAnnounceSend
  held sm = record (given false send reaction sm) {
    buffer = (compose_announce o c (sender sm) a).path_sequence;
  }

  -- The machine that has kept the message in that many further calls.
  abbrev pub held_for : ℕ → MdAnnounceSend → MdAnnounceSend
  held_for zero sm = held sm
  held_for (suc n) sm = held (held_for n sm)

  -- The port and the instance are up.
  pub record IsUp (sm : MdAnnounceSend) : Type 0 where
    pub has_net : sm.has_net ≡ true
    pub begin : sm.ptasg.begin ≡ false
    pub instance_enable : sm.ptasg.instance_enable ≡ true
    pub capable : is_capable sm.ppg ≡ true

  to_send :
      (can_send : Bool) (sm : MdAnnounceSend)
      → round o c can_send (given true initialize reaction sm)
        ≡ some (given true send initialize sm, none)
  unfolding round initialize_condition
  to_send can_send sm = refl

  goes_out :
      (b : Bool) (l : State) (sm : MdAnnounceSend)
      → path_count a ≤ max_path_trace_n
      → l ≢ send
      → sm.has_net ≡ true
      → round o c true (given b send l sm) ≡ some (delivered sm, none)
  unfolding round send_announce_proc send_announce
  goes_out b l sm p h n = ground (arith, p, h, n)

  stays_here :
      (b : Bool) (l : State) (sm : MdAnnounceSend)
      → path_count a ≤ max_path_trace_n
      → l ≢ send
      → sm.has_net ≡ true
      → round o c false (given b send l sm) ≡ some (held sm, some tt)
  unfolding round send_announce_proc send_announce
  stays_here b l sm p h n = ground (arith, p, h, n)

  starts :
      (sm : MdAnnounceSend)
      → IsUp sm
      → allstate_condition (given true sm.state reaction sm) ≡ given true sm.state reaction sm
  unfolding allstate_condition
  starts sm u = ground (arith, u.begin, u.instance_enable, u.capable)

  begins :
      (can_send : Bool) (s : State) (sm : MdAnnounceSend)
      → IsUp sm
      → sm.state ≡ s
      → md_announc_send o c can_send a sm
        ≡ loop settled (round o c can_send) fuel (given true s reaction sm)
  unfolding md_announc_send md_announce_send_sm
  begins can_send s sm u e = ap (loop settled (round o c can_send) fuel) (starts sm u) ∙ λ j.
      loop settled (round o c can_send) fuel (given true (e j) reaction sm)

  sends_now :
      (sm : MdAnnounceSend)
      → path_count a ≤ max_path_trace_n
      → IsUp sm
      → (sm.state ≡ initialize) ⊎ (sm.state ≡ send)
      → md_announc_send o c true a sm ≡ done (delivered sm) none
  sends_now sm f u (inl e) =
      begins true initialize sm u e
      ∙ loop-next settled (round o c true) 9 (given true initialize reaction sm)
          (given true send initialize sm) none (to_send true sm) refl
      ∙ loop-stop settled (round o c true) 8 (given true send initialize sm) (delivered sm) none
          (goes_out true initialize sm f (λ q. ground (arith, q)) u.has_net) refl
  sends_now sm f u (inr e) =
      begins true send sm u e
      ∙ loop-stop settled (round o c true) 9 (given true send reaction sm) (delivered sm) none
          (goes_out true reaction sm f (λ q. ground (arith, q)) u.has_net) refl

  holds_now :
      (sm : MdAnnounceSend)
      → path_count a ≤ max_path_trace_n
      → IsUp sm
      → (sm.state ≡ initialize) ⊎ (sm.state ≡ send)
      → md_announc_send o c false a sm ≡ done (held sm) (some tt)
  holds_now sm f u (inl e) =
      begins false initialize sm u e
      ∙ loop-next settled (round o c false) 9 (given true initialize reaction sm)
          (given true send initialize sm) none (to_send false sm) refl
      ∙ loop-stop settled (round o c false) 8 (given true send initialize sm) (held sm) (some tt)
          (stays_here true initialize sm f (λ q. ground (arith, q)) u.has_net) refl
  holds_now sm f u (inr e) =
      begins false send sm u e
      ∙ loop-stop settled (round o c false) 9 (given true send reaction sm) (held sm) (some tt)
          (stays_here true reaction sm f (λ q. ground (arith, q)) u.has_net) refl

  stays_up : (sm : MdAnnounceSend) → IsUp sm → allstate_condition (held sm) ≡ held sm
  unfolding allstate_condition
  stays_up sm u = ground (arith, u.begin, u.instance_enable, u.capable)

  held-IsUp : (sm : MdAnnounceSend) → IsUp sm → IsUp (held sm)
  held-IsUp sm u = record {
    has_net = u.has_net;
    begin = u.begin;
    instance_enable = u.instance_enable;
    capable = u.capable;
  }

  held_for-IsUp : (n : ℕ) (sm : MdAnnounceSend) → IsUp sm → IsUp (held_for n sm)
  held_for-IsUp zero sm u = held-IsUp sm u
  held_for-IsUp (suc n) sm u = held-IsUp (held_for n sm) (held_for-IsUp n sm u)

  held_for-sent : (n : ℕ) (sm : MdAnnounceSend) → (held_for n sm).sent ≡ sm.sent
  held_for-sent zero sm = refl
  held_for-sent (suc n) sm = held_for-sent n sm

  sends_later :
      (sm : MdAnnounceSend)
      → path_count a ≤ max_path_trace_n
      → IsUp sm
      → md_announce_send_sm o c true (held sm) ≡ done (delivered (held sm)) none
  unfolding md_announce_send_sm
  sends_later sm f u =
      ap (loop settled (round o c true) fuel) (stays_up sm u)
      ∙ loop-stop settled (round o c true) 9 (held sm) (delivered (held sm)) none
          (goes_out false reaction (held sm) f (λ q. ground (arith, q)) u.has_net) refl

  holds_later :
      (sm : MdAnnounceSend)
      → path_count a ≤ max_path_trace_n
      → IsUp sm
      → md_announce_send_sm o c false (held sm) ≡ done (held (held sm)) (some tt)
  unfolding md_announce_send_sm
  holds_later sm f u =
      ap (loop settled (round o c false) fuel) (stays_up sm u)
      ∙ loop-stop settled (round o c false) 9 (held sm) (held (held sm)) (some tt)
          (stays_here false reaction (held sm) f (λ q. ground (arith, q)) u.has_net) refl

  held_for-calls :
      (n : ℕ) (sm : MdAnnounceSend)
      → path_count a ≤ max_path_trace_n
      → IsUp sm
      → (md_announce_send_sm o c false (held_for n sm) ≡ done (held_for (suc n) sm) (some tt))
        × (md_announce_send_sm o c true (held_for n sm) ≡ done (delivered (held_for n sm)) none)
  held_for-calls zero sm f u = (holds_later sm f u, sends_later sm f u)
  held_for-calls (suc n) sm f u =
      let v = held_for-IsUp n sm u in
      (holds_later (held_for n sm) f v, sends_later (held_for n sm) f v)

  -- On a port that is up, a machine that has left INIT sends a message, with a path that fits into
  -- pathSequence, in its call if the network takes it. If not, the call keeps the message and sends
  -- nothing, and so does each later call, however many, until the first one in which the network takes
  -- it, which sends it once.
  pub message_goes_out :
      (n : ℕ) (sm : MdAnnounceSend)
      → path_count a ≤ max_path_trace_n
      → IsUp sm
      → (sm.state ≡ initialize) ⊎ (sm.state ≡ send)
      → (md_announc_send o c true a sm ≡ done (delivered sm) none)
        × ((delivered sm).sent
            ≡ (compose_announce o c (sender sm) a, sent_size (sender sm) a) ∷ sm.sent)
        × (md_announc_send o c false a sm ≡ done (held_for 0 sm) (some tt))
        × (md_announce_send_sm o c false (held_for n sm) ≡ done (held_for (suc n) sm) (some tt))
        × ((held_for n sm).sent ≡ sm.sent)
        × (md_announce_send_sm o c true (held_for n sm) ≡ done (delivered (held_for n sm)) none)
        × ((delivered (held_for n sm)).sent
            ≡ (
              compose_announce o c (sender (held_for n sm)) a,
              sent_size (sender (held_for n sm)) a,
            )
              ∷ sm.sent)
  message_goes_out n sm f u h =
      let (stays, goes) = held_for-calls n sm f u in
      let kept = held_for-sent n sm in
      let x = held_for n sm in
      (
        sends_now sm f u h,
        refl,
        holds_now sm f u h,
        stays,
        kept,
        goes,
        ap (λ l. (compose_announce o c (sender x) a, sent_size (sender x) a) ∷ l) kept,
      )
