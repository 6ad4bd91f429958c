-- ===== src/AnnounceReceive/Qualify.antt =====
-- What qualifyAnnounce accepts, and what it leaves in the path trace.
use excelfore_gptp.Common.{
  ℕ, ◌+◌, ◌<◌, ◌≤◌, ◌≡◌, Bool, true, false, arith, ◌↔◌, Bool-cases, inl, inr,
}
use excelfore_gptp.Types.{ClockIdentity, PtpMsgAnnounce, max_path_trace_n, slave_port}
use excelfore_gptp.Arrays.{exists_from, scan_none, scan_found}
use excelfore_gptp.Priority.{memcmp_eq}
use excelfore_gptp.Globals.{BmcsPerTimeAwareSystemGlobal}
use excelfore_gptp.AnnounceReceive.Machine.{
  PortAnnounceReceive, path_length, qualify_announce, record_path,
}

-- 10.3.11.2.1 of the standard: the message is not our own, it has crossed fewer than 255 systems,
-- and a path trace TLV, if there is one, does not name this clock.
pub record IsQualified (sm : PortAnnounceReceive) (a : PtpMsgAnnounce) : Type 0 where
  pub not_own : memcmp_eq a.header.source_port_identity.clock_identity sm.ptasg.this_clock ≡ false
  pub near : a.steps_removed < 255
  pub no_cycle :
      a.tlv_type ≡ 0x8
      → (j : ℕ) → j < path_length a
      → memcmp_eq (a.path_sequence j) sm.ptasg.this_clock ≡ false

-- An Announce message is qualified exactly if it does not come from this clock, has stepsRemoved
-- below 255, and has no path trace TLV or one whose entries all differ from this clock.
pub qualify_announce_iff :
    (sm : PortAnnounceReceive) (a : PtpMsgAnnounce)
    → ((qualify_announce sm a).1 ≡ true) ↔ IsQualified sm a
unfolding qualify_announce
qualify_announce_iff sm a = (
  λ h. record {
    not_own = ground arith;
    near = ground arith;
    no_cycle = λ tlv. scan_none own a.path_sequence (path_length a) (ground arith);
  },
  λ q. elim (Bool-cases (exists_from own a.path_sequence (path_length a) 0)) [
    | inl cycle ↦
        let (j, lt, found) = scan_found own a.path_sequence (path_length a) cycle in
        ground (arith, q.not_own, q.near, λ (e : a.tlv_type ≡ 0x8). q.no_cycle e j lt)
    | inr acyclic ↦ ground (arith, q.not_own, q.near)
  ],
)
  where
    own : ClockIdentity → Bool
    own c = memcmp_eq c sm.ptasg.this_clock

-- A path trace of a port that becomes or is the slave: the path of the message, then this clock; or
-- empty where the clock would not fit.
pub record IsTrace (b : BmcsPerTimeAwareSystemGlobal) (path : ℕ → ClockIdentity) (n : ℕ)
    (this_clock : ClockIdentity) : Type 0 where
  pub fits : n < max_path_trace_n → b.path_trace_count ≡ n + 1
  pub copied : n < max_path_trace_n → (j : ℕ) → j < n → b.path_trace j ≡ path j
  pub ends : n < max_path_trace_n → b.path_trace n ≡ this_clock
  pub given_up : max_path_trace_n ≤ n → b.path_trace_count ≡ 0

pub record_path-IsTrace :
    (b : BmcsPerTimeAwareSystemGlobal) (path : ℕ → ClockIdentity) (n : ℕ)
    (this_clock : ClockIdentity)
    → IsTrace (record_path b path n this_clock) path n this_clock
unfolding record_path
record_path-IsTrace b path n this_clock = record {
  fits = λ h. ground arith;
  copied = λ h j lt. ground arith;
  ends = λ h. ground arith;
  given_up = λ h. ground arith;
}

-- On a slave port, a qualified message with a path trace TLV replaces the path trace by the
-- message's path followed by this clock, or empties it where this clock does not fit.
pub qualify_announce-IsTrace :
    (sm : PortAnnounceReceive) (a : PtpMsgAnnounce)
    → sm.ptasg.selected_state sm.ppg.this_port_index ≡ slave_port
    → a.tlv_type ≡ 0x8
    → (qualify_announce sm a).1 ≡ true
    → IsTrace (qualify_announce sm a).0 a.path_sequence (path_length a) sm.ptasg.this_clock
unfolding qualify_announce
qualify_announce-IsTrace sm a slave tlv h =
    let e : (qualify_announce sm a).0
        ≡ record_path sm.bptasg a.path_sequence (path_length a) sm.ptasg.this_clock =
      ground arith in
    rw e (record_path-IsTrace sm.bptasg a.path_sequence (path_length a) sm.ptasg.this_clock)

-- The count of a path trace stays in the array of 179 entries, whatever the message.
pub qualify_announce-count-le :
    (sm : PortAnnounceReceive) (a : PtpMsgAnnounce)
    → sm.bptasg.path_trace_count ≤ max_path_trace_n
    → (qualify_announce sm a).0.path_trace_count ≤ max_path_trace_n
unfolding qualify_announce
qualify_announce-count-le sm a h = ground arith
