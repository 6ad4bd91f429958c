-- ===== src/PortSync.antt =====
-- port_sync_sync_receive_sm.c, site_sync_sync_sm.c and port_sync_sync_send_sm.c: synchronisation on
-- its way from the slave port to the master ports.
pub mod Data
pub mod Receive
pub mod ReceiveRun
pub mod Site
pub mod SiteRun
pub mod Send
pub mod SendRun
pub mod Forwarding
pub mod EndToEnd
