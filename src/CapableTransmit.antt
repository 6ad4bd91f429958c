-- ===== src/CapableTransmit.antt =====
-- gptp_capable_transmit_sm.c.
pub mod Machine
pub mod Run
