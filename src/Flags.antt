-- ===== src/Flags.antt =====
-- gptpcommon.h: GET_FLAG_BIT and SET_RESET_FLAG_BIT on the bits of a byte, for the mask `1 << b`.
use excelfore_gptp.Common.{ℕ, ◌+◌, ◌-◌, ◌/◌, ◌%◌, Bool, ◌==◌, if◌then◌else◌}

-- `(x & (1 << b)) != 0`
abbrev pub get_flag_bit : ℕ → ℕ → Bool
get_flag_bit x mask = x / mask % 2 == 1

-- SET_FLAG_BIT if the condition holds, RESET_FLAG_BIT if not.
abbrev pub set_reset_flag_bit : Bool → ℕ → ℕ → ℕ
set_reset_flag_bit condition x mask =
    if condition
    then if get_flag_bit x mask then x else x + mask
    else if get_flag_bit x mask
    then x - mask
    else x

-- mind.h: the bits of the flags of the signaling TLVs.
abbrev pub compute_neighbor_rate_ratio_bit : ℕ
compute_neighbor_rate_ratio_bit = 1

abbrev pub compute_neighbor_prop_delay_bit : ℕ
compute_neighbor_prop_delay_bit = 2

abbrev pub one_step_receive_capable_bit : ℕ
one_step_receive_capable_bit = 4
