-- ===== src/CapableReceive.antt =====
-- gptp_capable_receive_sm.c.
pub mod Machine
pub mod Run
