-- ===== src/SyncInterval.antt =====
-- sync_interval_setting_sm.c.
pub mod Machine
pub mod Run
