-- ===== src/Examples/Stable.antt =====
-- gm_stable_sm.c at a system that has a synchronised clock.
use excelfore_gptp.Common.{◌≡◌, refl, arith, true, false, none, Option}
use excelfore_gptp.Priority.{memcmp}
use excelfore_gptp.Machine.{done}
use excelfore_gptp.GmStable.Machine.{
  State, gm_unstable, gm_stable, GmStable, own_clock, gm_stable_sm, gm_stable_gm_change,
}
use excelfore_gptp.GmStable.Invariant.{IsFit, gm_stable_gm_change-Fit}
use excelfore_gptp.GmStable.Run.{IsUp, stable, restarted, wait_over, new_gm_restarts}
use excelfore_gptp.Examples.Data.{
  sample_config, sample_system, sample_clock, own_identity, gm_identity,
}

abbrev resting : State → GmStable
resting s = record {
  ptasg = record sample_system { as_capable_or_all = true };
  clocks = λ _. record sample_clock { gmsync = true };
  state = s;
  last_state = s;
  domain_index = 0;
  gm_stable_time = 1000;
  gm_stable_timer_time = 500;
  clock_identity = own_identity;
  gm_change = false;
}

resting-IsUp : (s : State) → IsUp (resting s)
resting-IsUp s = record { begin = refl; as_capable_or_all = refl }

gm_change-Fit_example :
    (sm' : GmStable) × (retp : Option Unit) × (gm_stable_gm_change sample_config 2000 gm_identity
        (resting gm_unstable)
      ≡ done sm' retp)
    × IsFit sm'
gm_change-Fit_example =
    gm_stable_gm_change-Fit sample_config 2000 gm_identity (resting gm_unstable) refl

wait_over_example :
    (gm_stable_sm sample_config 2000 (resting gm_unstable)
      ≡ done (stable sample_config (resting gm_unstable)) none)
    × ((own_clock (stable sample_config (resting gm_unstable))).gm_stable ≡ true)
wait_over_example =
    wait_over sample_config 2000 (resting gm_unstable) (resting-IsUp gm_unstable) refl refl refl
      (omega arith)

new_gm_example :
    (gm_stable_gm_change sample_config 2000 gm_identity (resting gm_stable)
      ≡ done (restarted 2000 gm_identity (resting gm_stable)) none)
    × ((own_clock (restarted 2000 gm_identity (resting gm_stable))).gm_stable ≡ false)
unfolding memcmp
new_gm_example =
    new_gm_restarts sample_config 2000 gm_identity (resting gm_stable) (resting-IsUp gm_stable) refl
      refl refl refl (omega arith)
