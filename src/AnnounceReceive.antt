-- ===== src/AnnounceReceive.antt =====
-- port_announce_receive_sm.c.
pub mod Machine
pub mod Qualify
pub mod Run
