-- ===== src/Signaling.antt =====
-- md_signaling_send_sm.c and md_signaling_receive_sm.c: the TLVs of Signaling messages on the wire.
pub mod Message
pub mod Send
pub mod SendRun
pub mod Receive
pub mod ReceiveRun
pub mod EndToEnd
