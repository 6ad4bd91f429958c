-- ===== src/AnnounceInterval.antt =====
-- announce_interval_setting_sm.c.
pub mod Machine
pub mod Run
