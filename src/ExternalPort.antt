-- ===== src/ExternalPort.antt =====
-- port_announce_information_ext_sm.c and port_state_setting_ext_sm.c: the machines that stand in place
-- of PortAnnounceInformation and PortStateSelection where port states are configured externally.
pub mod Information
pub mod Ignored
pub mod Tree
pub mod States
pub mod Setting
pub mod Run
