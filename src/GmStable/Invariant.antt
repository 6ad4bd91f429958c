-- ===== src/GmStable/Invariant.antt =====
-- What calls of gm_stable_sm keep: the flag of the clock agrees with the state.
use excelfore_gptp.Common.{
  ℕ, ◌≡◌, refl, Bool, true, false, arith, Option, none, Bool-cases, inl, inr, ==_refl,
}
use excelfore_gptp.Types.{ClockIdentity}
use excelfore_gptp.Priority.{memcmp_eq}
use excelfore_gptp.Config.{Config}
use excelfore_gptp.Clock.{set_gmstable}
use excelfore_gptp.Machine.{done, Keeps, loop_rule}
use excelfore_gptp.GmStable.Machine.{
  State, init, initialize, gm_lost, gm_unstable, gm_stable, reaction, GmStable, own_clock,
  allstate_condition, initialize_proc, initialize_condition, gm_lost_proc, gm_lost_condition,
  gm_unstable_proc, gm_unstable_condition, gm_stable_proc, gm_stable_condition, round, settled,
  fuel, gm_stable_sm, gm_stable_gm_change,
}

-- In INITIALIZE and in GM_UNSTABLE the grandmaster does not count as stable, and in GM_STABLE the
-- first wait is over.
abbrev pub FlagFits : GmStable → State → Type 0
FlagFits sm initialize = (own_clock sm).gm_stable ≡ false
FlagFits sm gm_unstable = (own_clock sm).gm_stable ≡ false
FlagFits sm gm_stable = sm.ptasg.gm_stable_initdone ≡ true
FlagFits sm _ = Unit

abbrev pub IsFit : GmStable → Type 0
IsFit sm = FlagFits sm sm.last_state

-- A bound on the rounds to go. A new grandmaster is told once: gm_lost_proc clears gm_change.
abbrev rank_of : Bool → State → State → ℕ
rank_of true init l = 10
rank_of true initialize l = 9
rank_of true gm_lost gm_lost = 8
rank_of true gm_unstable l = 7
rank_of true gm_stable l = 6
rank_of true gm_lost l = 5
rank_of false init l = 5
rank_of false initialize l = 4
rank_of false gm_lost l = 3
rank_of false gm_unstable l = 2
rank_of false gm_stable l = 1
rank_of _ reaction l = 0

abbrev pub rank : GmStable → ℕ
rank sm = rank_of sm.gm_change sm.state sm.last_state

round-Keeps :
    (c : Config) (cts64 : ℕ) (sm : GmStable)
    → IsFit sm
    → Keeps settled (round c cts64) IsFit rank sm (round c cts64 sm)
unfolding round initialize_proc initialize_condition gm_lost_proc gm_lost_condition gm_unstable_proc
    gm_unstable_condition gm_stable_proc gm_stable_condition set_gmstable
round-Keeps c cts64 sm h = ground (arith, ==_refl sm.ptasg.domain_number)

-- In every state whose flag fits, a call returns; the machine is settled, and its flag fits again.
pub gm_stable_sm-Fit :
    (c : Config) (cts64 : ℕ) (sm : GmStable)
    → IsFit sm
    → (sm' : GmStable) × (retp : Option Unit) × (gm_stable_sm c cts64 sm ≡ done sm' retp)
      × IsFit sm'
unfolding gm_stable_sm allstate_condition
gm_stable_sm-Fit c cts64 sm h =
    loop_rule settled (round c cts64) IsFit rank (round-Keeps c cts64) fuel
      (record sm { state = allstate_condition sm }) h (ground arith)

-- So does a call for the grandmaster's identity, be it new or not.
pub gm_stable_gm_change-Fit :
    (c : Config) (cts64 : ℕ) (id : ClockIdentity) (sm : GmStable)
    → IsFit sm
    → (sm' : GmStable) × (retp : Option Unit) × (gm_stable_gm_change c cts64 id sm ≡ done sm' retp)
      × IsFit sm'
unfolding gm_stable_gm_change
gm_stable_gm_change-Fit c cts64 id sm h = elim (Bool-cases (memcmp_eq sm.clock_identity id)) [
  | inl e ↦ rw e (sm, none, refl, h)
  | inr e ↦ rw e (gm_stable_sm-Fit c cts64 (record sm { clock_identity = id; gm_change = true }) h)
]
