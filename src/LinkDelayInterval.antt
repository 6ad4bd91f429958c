-- ===== src/LinkDelayInterval.antt =====
-- link_delay_interval_setting_sm.c.
pub mod Machine
pub mod Run
