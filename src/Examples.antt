-- ===== src/Examples.antt =====
-- The theorems at concrete states.
mod Data
mod Selection
mod Receive
mod Information
mod Order
mod Capable
mod Stable
mod Settings
mod Sync
mod External
mod Wire
mod Signaling
mod Interval
mod Transmit
