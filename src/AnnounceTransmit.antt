-- ===== src/AnnounceTransmit.antt =====
-- port_announce_transmit_sm.c.
pub mod Machine
pub mod Message
pub mod Run
