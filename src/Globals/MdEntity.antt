-- ===== src/Globals/MdEntity.antt =====
-- mdeth.h and mdeth.c: the global variables of the media-dependent entity of a port, and their
-- initial values.
use excelfore_gptp.Common.{ℕ, ℤ, Bool, false, Option, none, some, ◌%◌, ◌^◌}
use excelfore_gptp.Types.{UScaledNs}
use excelfore_gptp.Config.{Config, to_int8, to_uint16, to_uint64, log_to_nsec}

pub record MdEntityGlobalForAllDomain : Type 0 where
  pub current_log_pdelay_req_interval : ℤ  -- int8_t
  pub initial_log_pdelay_req_interval : ℤ  -- int8_t
  pub pdelay_req_interval : UScaledNs
  pub allowed_lost_responses : ℕ  -- uint16_t
  pub allowed_faults : ℕ  -- uint16_t
  pub is_measuring_delay : Bool
  pub neighbor_prop_delay_thresh : UScaledNs
  pub neighbor_prop_delay_min_limit : UScaledNs
  pub as_capable_across_domains : Bool

-- A second port that points to the same forAllDomain has a copy of it.
pub record MdEntityGlobal : Type 0 where
  pub sync_sequence_id : ℕ  -- uint16_t
  pub one_step_receive : Bool
  pub one_step_transmit : Bool
  pub one_step_tx_oper : Bool
  pub for_all_domain : MdEntityGlobalForAllDomain

-- What md_entity_glb_init allocates if it gets no forAllDomain.
unfoldable pub md_for_all_domain_init : Config → MdEntityGlobalForAllDomain
md_for_all_domain_init c = record {
  current_log_pdelay_req_interval = to_int8 c.log_pdelayreq_interval;
  initial_log_pdelay_req_interval = to_int8 c.log_pdelayreq_interval;
  pdelay_req_interval = log_to_nsec c c.log_pdelayreq_interval;
  allowed_lost_responses = to_uint16 c.allowed_lost_response;
  allowed_faults = to_uint16 c.allowed_faults;
  is_measuring_delay = false;
  neighbor_prop_delay_thresh = to_uint64 c.neighbor_propdelay_thresh;
  neighbor_prop_delay_min_limit = to_uint64 c.neighbor_propdelay_minlimit;
  as_capable_across_domains = false;
}

-- `random` is what rand gives.
unfoldable pub md_entity_glb_init : Config → ℕ → Option MdEntityGlobalForAllDomain → MdEntityGlobal
unfolding md_for_all_domain_init
md_entity_glb_init c random shared = record {
  sync_sequence_id = random % 2 ^ 16;
  one_step_receive = false;
  one_step_transmit = false;
  one_step_tx_oper = false;
  for_all_domain = elim shared [ none ↦ md_for_all_domain_init c | some d ↦ d ];
}
