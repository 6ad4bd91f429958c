-- ===== src/Wire.antt =====
-- mdeth.c, md_announce_send_sm.c and md_announce_receive_sm.c: Announce messages on the wire.
pub mod Order
pub mod Header
pub mod Announce
pub mod Send
pub mod SendRun
pub mod Receive
pub mod RoundTrip
pub mod ReceiveRun
