-- ===== src/Examples/Interval.antt =====
-- announce_interval_setting_sm.c at a port that is up.
use excelfore_gptp.Common.{ℤ, pos, negsuc, true, false, none, some, ◌≡◌, refl, inl}
use excelfore_gptp.Types.{UScaledNs}
use excelfore_gptp.RequestedInterval.{IsChosen}
use excelfore_gptp.Machine.{done}
use excelfore_gptp.AnnounceInterval.Machine.{
  State, initialize, set_intervals, reaction, AnnounceIntervalSetting, signaling_msg2,
}
use excelfore_gptp.AnnounceInterval.Run.{IsUp, asked, served, first_request, later_request}
use excelfore_gptp.Globals.Init.{pp_glb_init, for_all_domain_init}
use excelfore_gptp.Examples.Data.{sample_config, sample_system, sample_port, sample_bmcs_port}

-- Between calls in the given state.
abbrev setting_in : State → AnnounceIntervalSetting
setting_in s = record {
  ptasg = sample_system;
  ppg = sample_port 1;
  bppg = sample_bmcs_port 1;
  state = s;
  last_state = s;
  rcvd_signaling_msg2 = false;
  rcvd_signaling_ptr = some (negsuc 2);
}

setting_in-IsUp : (s : State) → IsUp (setting_in s)
unfolding pp_glb_init for_all_domain_init
setting_in-IsUp s = record { begin = refl; instance_enable = refl; enabled = refl }

first_request_example :
    (log : ℤ) × (t : UScaledNs) × IsChosen sample_config
      (sample_bmcs_port 1).initial_log_announce_interval
      (sample_bmcs_port 1).current_log_announce_interval
      (sample_bmcs_port 1).announce_interval
      (negsuc 2)
      log
      t
    × (signaling_msg2 sample_config (negsuc 2) (setting_in initialize)
        ≡ done (served (negsuc 2) log t (setting_in initialize)) none)
first_request_example =
    first_request sample_config (negsuc 2) (setting_in initialize) (setting_in-IsUp initialize) refl
      refl

later_request_example :
    signaling_msg2 sample_config (pos 1) (setting_in set_intervals)
    ≡ done (asked (setting_in set_intervals) (pos 1) true reaction reaction) none
later_request_example =
    later_request sample_config (pos 1) (setting_in set_intervals) (setting_in-IsUp set_intervals)
      refl (inl refl)
