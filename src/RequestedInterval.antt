-- ===== src/RequestedInterval.antt =====
-- IEEE 802.1AS, 10.6.4.3: what a value of a message interval request asks for. It is the independent
-- description of the `switch` in announce_interval_setting_sm.c, sync_interval_setting_sm.c and
-- link_delay_interval_setting_sm.c.
use excelfore_gptp.Common.{ℤ, pos, negsuc, ◌≡◌, ◌≢◌}
use excelfore_gptp.Types.{UScaledNs}
use excelfore_gptp.Config.{Config, log_to_nsec}

-- From the logarithm `log` and the interval `t` in use, a request of `value` leads to `log'` and `t'`:
-- -128 changes nothing, 126 stands for the initial value, and other values for themselves.
pub data IsChosen (c : Config) (initial log : ℤ) (t : UScaledNs) (value log' : ℤ) (t' : UScaledNs)
    : Type 0 where
  unchanged : value ≡ negsuc 127 → log' ≡ log → t' ≡ t → IsChosen c initial log t value log' t'
  to_initial :
      value ≡ pos 126
      → log' ≡ initial
      → t' ≡ log_to_nsec c initial
      → IsChosen c initial log t value log' t'
  indicated :
      value ≢ negsuc 127
      → value ≢ pos 126
      → log' ≡ value
      → t' ≡ log_to_nsec c value
      → IsChosen c initial log t value log' t'
