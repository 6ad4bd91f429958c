-- ===== src/GmStable.antt =====
-- gm_stable_sm.c: the machine that tells whether the grandmaster of a domain has been the same for a
-- while.
pub mod Machine
pub mod Invariant
pub mod Run
