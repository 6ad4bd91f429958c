-- ===== src/GmStable/Run.antt =====
-- Calls of gm_stable_sm: a new grandmaster, and the end of the wait for it.
use excelfore_gptp.Common.{
  ℕ, ◌+◌, ◌<◌, ◌^◌, ◌≡◌, refl, ◌∙◌, Bool, true, false, arith, none, some, ==_refl, u64, lt→ltb, ltb,
}
use excelfore_gptp.Types.{ClockIdentity}
use excelfore_gptp.Config.{Config, times_uint64}
use excelfore_gptp.Priority.{memcmp_eq}
use excelfore_gptp.Clock.{set_gmstable-gm_stable}
use excelfore_gptp.Machine.{done, loop, loop-next, loop-stop}
use excelfore_gptp.GmStable.Machine.{
  State, gm_lost, gm_unstable, gm_stable, GmStable, own_clock, gmsync_is_nonzero, note_stable,
  allstate_condition, gm_lost_proc, gm_lost_condition, gm_unstable_proc, gm_unstable_condition,
  gm_stable_proc, gm_stable_condition, round, settled, fuel, gm_stable_sm, gm_stable_gm_change,
}

-- The system has a port that is capable, and its clock is synchronised.
pub record IsUp (sm : GmStable) : Type 0 where
  pub begin : sm.ptasg.begin ≡ false
  pub as_capable_or_all : sm.ptasg.as_capable_or_all ≡ true

abbrev pub at_state : GmStable → State → State → GmStable
at_state sm s l = record sm { state = s; last_state = l }

stays : (sm : GmStable) → IsUp sm → allstate_condition sm ≡ sm.state
unfolding allstate_condition
stays sm u = ground (arith, u.begin, u.as_capable_or_all)

begins :
    (c : Config) (cts64 : ℕ) (sm : GmStable) (s : State)
    → IsUp sm
    → sm.state ≡ s
    → sm.last_state ≡ s
    → gm_stable_sm c cts64 sm ≡ loop settled (round c cts64) fuel (at_state sm s s)
unfolding gm_stable_sm
begins c cts64 sm s u e f =
    let p = stays sm u in λ j. loop settled (round c cts64) fuel (at_state sm ((p ∙ e) j) (f j))

-- The machine once it is settled in GM_STABLE.
abbrev pub stable : Config → GmStable → GmStable
stable c sm = record (at_state sm gm_stable gm_stable) {
  gm_stable_time = 0;
  gm_stable_timer_time = times_uint64 c.normal_gm_stable_time 1000000;
  clocks = note_stable true sm;
  ptasg = record (sm.ptasg) { gm_stable_initdone = true };
}

wait_ends :
    (c : Config) (cts64 : ℕ) (sm : GmStable)
    → ltb sm.gm_stable_time cts64 ≡ true
    → round c cts64 (at_state sm gm_unstable gm_unstable)
      ≡ some (at_state sm gm_stable gm_unstable, none)
unfolding round gm_unstable_condition
wait_ends c cts64 sm h = ground (arith, h)

settles :
    (c : Config) (cts64 : ℕ) (sm : GmStable)
    → sm.gm_change ≡ false
    → round c cts64 (at_state sm gm_stable gm_unstable) ≡ some (stable c sm, none)
unfolding round gm_stable_proc gm_stable_condition
settles c cts64 sm h = ground (arith, h)

-- A machine that rests in GM_UNSTABLE with no new grandmaster goes to GM_STABLE in the first call after
-- the end of its wait: the clock then says that the grandmaster is stable, and the first wait of the
-- system is over.
pub wait_over :
    (c : Config) (cts64 : ℕ) (sm : GmStable)
    → IsUp sm
    → sm.state ≡ gm_unstable
    → sm.last_state ≡ gm_unstable
    → sm.gm_change ≡ false
    → sm.gm_stable_time < cts64
    → (gm_stable_sm c cts64 sm ≡ done (stable c sm) none)
      × ((own_clock (stable c sm)).gm_stable ≡ true)
wait_over c cts64 sm u e f h lt = (
  begins c cts64 sm gm_unstable u e f
      ∙ loop-next settled (round c cts64) 11 (at_state sm gm_unstable gm_unstable)
          (at_state sm gm_stable gm_unstable) none
          (wait_ends c cts64 sm (lt→ltb sm.gm_stable_time cts64 lt)) refl
      ∙ loop-stop settled (round c cts64) 10 (at_state sm gm_stable gm_unstable) (stable c sm) none
          (settles c cts64 sm h) refl,
  ground (arith, ==_refl sm.ptasg.domain_number, set_gmstable-gm_stable true (own_clock sm)),
)

-- The machine that waits for the grandmaster `id`.
abbrev pub restarted : ℕ → ClockIdentity → GmStable → GmStable
restarted cts64 id sm = record (at_state sm gm_unstable gm_unstable) {
  clock_identity = id;
  gm_change = false;
  gm_stable_time = u64 (cts64 + sm.gm_stable_timer_time);
  clocks = note_stable false sm;
}

abbrev told : ClockIdentity → Bool → GmStable → State → State → GmStable
told id b sm s l = record (at_state sm s l) { clock_identity = id; gm_change = b }

hears :
    (c : Config) (cts64 : ℕ) (id : ClockIdentity) (sm : GmStable)
    → round c cts64 (told id true sm gm_stable gm_stable)
      ≡ some (told id true sm gm_lost gm_stable, none)
unfolding round gm_stable_condition
hears c cts64 id sm = refl

-- The machine in GM_UNSTABLE, coming from GM_LOST.
abbrev forgot : ClockIdentity → GmStable → GmStable
forgot id sm = record (told id false sm gm_unstable gm_lost) { gm_stable_time = 0 }

loses :
    (c : Config) (cts64 : ℕ) (id : ClockIdentity) (sm : GmStable)
    → gmsync_is_nonzero sm ≡ true
    → round c cts64 (told id true sm gm_lost gm_stable) ≡ some (forgot id sm, none)
unfolding round gm_lost_proc gm_lost_condition
loses c cts64 id sm h = ground (arith, h)

waits :
    (c : Config) (cts64 : ℕ) (id : ClockIdentity) (sm : GmStable)
    → cts64 + sm.gm_stable_timer_time < 2 ^ 64
    → round c cts64 (forgot id sm) ≡ some (restarted cts64 id sm, none)
unfolding round gm_unstable_proc gm_unstable_condition
waits c cts64 id sm h = ground (arith, h)

-- While the clock is synchronised, a grandmaster with a new identity brings a machine that rests in
-- GM_STABLE back to GM_UNSTABLE in one call: its wait starts anew from the time of the call, and the
-- clock says that the grandmaster is not stable. The end of the wait must not pass 2 ^ 64.
pub new_gm_restarts :
    (c : Config) (cts64 : ℕ) (id : ClockIdentity) (sm : GmStable)
    → IsUp sm
    → gmsync_is_nonzero sm ≡ true
    → memcmp_eq sm.clock_identity id ≡ false
    → sm.state ≡ gm_stable
    → sm.last_state ≡ gm_stable
    → cts64 + sm.gm_stable_timer_time < 2 ^ 64
    → (gm_stable_gm_change c cts64 id sm ≡ done (restarted cts64 id sm) none)
      × ((own_clock (restarted cts64 id sm)).gm_stable ≡ false)
unfolding gm_stable_gm_change
new_gm_restarts c cts64 id sm u g m e f lt = rw m (
  begins c cts64 (record sm { clock_identity = id; gm_change = true }) gm_stable
        (record { begin = u.begin; as_capable_or_all = u.as_capable_or_all }) e f
      ∙ loop-next settled (round c cts64) 11 (told id true sm gm_stable gm_stable)
          (told id true sm gm_lost gm_stable) none (hears c cts64 id sm) refl
      ∙ loop-next settled (round c cts64) 10 (told id true sm gm_lost gm_stable) (forgot id sm) none
          (loses c cts64 id sm g) refl
      ∙ loop-stop settled (round c cts64) 9 (forgot id sm) (restarted cts64 id sm) none
          (waits c cts64 id sm lt) refl,
  ground (arith, ==_refl sm.ptasg.domain_number, set_gmstable-gm_stable false (own_clock sm)),
)
