-- ===== src/GmStable/Machine.antt =====
-- gm_stable_sm.c: data, procs, conditions, the loop and the entry for a new grandmaster.
use excelfore_gptp.Common.{
  ℕ, ◌+◌, Bool, true, false, not, ◌||◌, ◌&&◌, none, some, ltb, ◌==◌, if◌then◌else◌, u8, u64,
}
use excelfore_gptp.Types.{ClockIdentity, slave_port}
use excelfore_gptp.Config.{Config, times_uint64}
use excelfore_gptp.Arrays.{set}
use excelfore_gptp.Globals.{PerTimeAwareSystemGlobal}
use excelfore_gptp.Clock.{MasterClock, reset_gmsync, set_gmstable}
use excelfore_gptp.Priority.{memcmp_eq}
use excelfore_gptp.Machine.{Outcome, done, Round, loop}

pub data State : Type 0 where
  init initialize gm_lost gm_unstable gm_stable reaction : State

abbrev pub code : State → ℕ
code init = 0
code initialize = 1
code gm_lost = 2
code gm_unstable = 3
code gm_stable = 4
code reaction = 5

abbrev pub same : State → State → Bool
same s t = code s == code t

-- gm_stable_data. `clocks` holds the master clock of each domain number, with the domain's entry of
-- gcd.pdd, which the machine's domain index finds. The members are not named like the states.
pub record GmStable : Type 0 where
  pub ptasg : PerTimeAwareSystemGlobal
  pub clocks : ℕ → MasterClock
  pub state : State
  pub last_state : State
  pub domain_index : ℕ
  pub gm_stable_time : ℕ  -- uint64_t
  pub gm_stable_timer_time : ℕ  -- uint64_t
  pub clock_identity : ClockIdentity
  pub gm_change : Bool

-- The clock of the machine's own domain.
abbrev pub own_clock : GmStable → MasterClock
own_clock sm = sm.clocks sm.ptasg.domain_number

-- gptpclock_get_gmsync(0, sm->ptasg->domainNumber), read as a condition, for a clock that is open:
-- for a clock that is not, the result -1 is a true condition, too.
abbrev pub gmsync_is_nonzero : GmStable → Bool
gmsync_is_nonzero sm = not (own_clock sm).is_open || (own_clock sm).gmsync

-- gptpclock_set_gmstable(sm->domainIndex, stable)
abbrev pub note_stable : Bool → GmStable → ℕ → MasterClock
note_stable stable sm = set sm.clocks sm.ptasg.domain_number (set_gmstable stable (own_clock sm))

unfoldable pub allstate_condition : GmStable → State
allstate_condition sm =
    if sm.ptasg.begin || not sm.ptasg.as_capable_or_all then initialize else sm.state

-- gptpclock_reset_gmsync gets the domain's index as the domain's number.
abbrev pub reset_by_index : GmStable → ℕ → MasterClock
reset_by_index sm =
    if sm.ptasg.selected_state 0 == slave_port
    then sm.clocks
    else set sm.clocks (u8 sm.domain_index) (reset_gmsync (sm.clocks (u8 sm.domain_index)))

unfoldable pub initialize_proc : Config → GmStable → GmStable
initialize_proc c sm =
    let sm' = record sm {
      gm_stable_time = 0;
      gm_stable_timer_time = times_uint64 c.initial_gm_stable_time 1000000;
      ptasg = record (sm.ptasg) { gm_stable_initdone = false };
      clocks = reset_by_index sm;
    } in
    record sm' { clocks = note_stable false sm' }

unfoldable pub initialize_condition : GmStable → State
initialize_condition sm =
    if sm.ptasg.as_capable_or_all && gmsync_is_nonzero sm then gm_unstable else initialize

unfoldable pub gm_lost_proc : GmStable → GmStable
gm_lost_proc sm = record sm { gm_stable_time = 0; gm_change = false }

unfoldable pub gm_lost_condition : GmStable → State
gm_lost_condition sm = if gmsync_is_nonzero sm then gm_unstable else gm_lost

unfoldable pub gm_unstable_proc : ℕ → GmStable → GmStable
gm_unstable_proc cts64 sm = record sm {
  gm_stable_time = u64 (cts64 + sm.gm_stable_timer_time);
  clocks = note_stable false sm;
}

unfoldable pub gm_unstable_condition : ℕ → GmStable → State
gm_unstable_condition cts64 sm =
    if ltb sm.gm_stable_time cts64 then gm_stable else if sm.gm_change then gm_lost else gm_unstable

unfoldable pub gm_stable_proc : Config → GmStable → GmStable
gm_stable_proc c sm = record sm {
  gm_stable_time = 0;
  gm_stable_timer_time = times_uint64 c.normal_gm_stable_time 1000000;
  clocks = note_stable true sm;
  ptasg = record (sm.ptasg) { gm_stable_initdone = true };
}

unfoldable pub gm_stable_condition : GmStable → State
gm_stable_condition sm = if sm.gm_change then gm_lost else gm_stable

abbrev goto : GmStable → State → GmStable
goto sm s = record sm { state = s }

abbrev pub switch : Config → ℕ → State → Bool → GmStable → GmStable
switch c cts64 init change sm = goto sm initialize
switch c cts64 initialize change sm =
    let sm' = if change then initialize_proc c sm else sm in goto sm' (initialize_condition sm')
switch c cts64 gm_lost change sm =
    let sm' = if change then gm_lost_proc sm else sm in goto sm' (gm_lost_condition sm')
switch c cts64 gm_unstable change sm =
    let sm' = if change then gm_unstable_proc cts64 sm else sm in
    goto sm' (gm_unstable_condition cts64 sm')
switch c cts64 gm_stable change sm =
    let sm' = if change then gm_stable_proc c sm else sm in goto sm' (gm_stable_condition sm')
switch c cts64 reaction change sm = sm

unfoldable pub round : Config → ℕ → GmStable → Round GmStable Unit
unfolding initialize_proc initialize_condition gm_lost_proc gm_lost_condition gm_unstable_proc
    gm_unstable_condition gm_stable_proc gm_stable_condition
round c cts64 sm = some (
  switch c cts64 sm.state (not (same sm.last_state sm.state)) (record sm { last_state = sm.state }),
  none,
)

abbrev pub settled : GmStable → Bool
settled sm = same sm.last_state sm.state

abbrev pub fuel : ℕ
fuel = 12

unfoldable pub gm_stable_sm : Config → ℕ → GmStable → Outcome GmStable Unit
unfolding allstate_condition
gm_stable_sm c cts64 sm =
    loop settled (round c cts64) fuel (record sm { state = allstate_condition sm })

-- gm_stable_gm_change
unfoldable pub gm_stable_gm_change : Config → ℕ → ClockIdentity → GmStable → Outcome GmStable Unit
unfolding gm_stable_sm
gm_stable_gm_change c cts64 id sm =
    if memcmp_eq sm.clock_identity id
    then done sm none
    else gm_stable_sm c cts64 (record sm { clock_identity = id; gm_change = true })
