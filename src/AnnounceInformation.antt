-- ===== src/AnnounceInformation.antt =====
-- port_announce_information_sm.c.
pub mod Procs
pub mod Machine
pub mod Run
pub mod Behaviour
pub mod Expiry
